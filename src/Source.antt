-- ===== src/Source.antt =====
-- The source layer of parser/src/source.rs: lines, their delivery, and speculative lookahead.
pub mod Line
pub mod Raw
pub mod Reader
pub mod Lookahead
mod Stream
pub mod Delivery
pub mod Scanning
pub mod Speculate
mod Resumed
pub mod Utf16
pub mod Encodings
mod Examples
