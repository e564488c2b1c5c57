-- ===== src/Latin1.antt =====
-- Latin-1 content and its UTF-8 encoding: the byte transforms of core/src/cow_buffer.rs.
pub mod Words
pub mod Ands
mod Counts
pub mod Transform
pub mod InPlace
mod Upgrade
mod Backward
mod Downgrade
mod Forward
mod Encoded
mod Examples
