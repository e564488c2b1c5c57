-- ===== src/Keyword.antt =====
-- parser/src/keyword.rs: the keyword table and the lookups that respect features.
pub mod Kinds
pub mod Rows
pub mod Lookup
pub mod Exact
mod Examples
