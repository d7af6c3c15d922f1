-- ===== src/Store.antt =====
-- internal/store: the system of record.
pub mod State
pub mod Rows
pub mod Journal
pub mod Index
pub mod Transactions
pub mod Audit
pub mod Leases
pub mod Deployments
pub mod Outbox
pub mod Tables
pub mod Queries
pub mod Operations
pub mod Durability
pub mod Progress
pub mod Fixtures
pub mod StateTests
pub mod StoreTests
