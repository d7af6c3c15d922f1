-- ===== src/Ulid.antt =====
-- internal/ulid: identifiers that sort by the time of their creation.
pub mod Ids
pub mod Order
mod Tests
