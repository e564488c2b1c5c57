-- ===== src/Utf8.antt =====
-- The extended UTF-8 decoder of core/src/string.rs and the passes that classify content with it.
pub mod Decode
pub mod Walk
pub mod Bounds
pub mod Spec
pub mod Blocks
pub mod Spans
pub mod Correct
mod Examples
