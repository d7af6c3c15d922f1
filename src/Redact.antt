-- ===== src/Redact.antt =====
-- internal/redact: the writer that scrubs secrets out of a provider's output.
pub mod Writer
pub mod Chunks
mod Tests
