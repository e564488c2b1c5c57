-- ===== src/Scan.antt =====
-- The `scan` module of core/src/string.rs: what is known of a string's bytes without reading them
-- again, and the meet by which two readers' discoveries are combined.
pub mod States
pub mod Meet
pub mod Narrow
mod Ranks
mod Settles
pub mod Classes
pub mod Codes
pub mod Exact
pub mod Predicates
mod Examples
