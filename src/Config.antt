-- ===== src/Config.antt =====
-- internal/config: what a configuration says, and the questions that are asked of it.
pub mod Schema
pub mod Access
mod Tests
