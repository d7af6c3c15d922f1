-- ===== src/Auth.antt =====
-- internal/auth: tokens, and what they allow.
pub mod Tokens
pub mod Lookups
pub mod Scopes
pub mod Revocations
mod Tests
