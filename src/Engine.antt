-- ===== src/Engine.antt =====
-- internal/engine: verification, rollback and the rest of what drives a deployment.
pub mod Verify
pub mod Rollback
pub mod Outbox
pub mod World
pub mod Events
pub mod Gates
pub mod Steps
pub mod Failure
pub mod Run
pub mod Reconcile
pub mod Within
pub mod Fixtures
mod RunTests
