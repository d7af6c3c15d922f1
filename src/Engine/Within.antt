-- ===== src/Engine/Within.antt =====
-- Operation by operation: what the executor does stays within every frame that admits its effects.
pub mod Basics
pub mod Steps
pub mod Failure
pub mod Run
pub mod Reconcile
