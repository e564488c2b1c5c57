-- ===== src/Pragma.antt =====
-- parser/src/pragma.rs: the features that `use feature` and `use v5.N` switch.
pub mod Features
pub mod Bundles
pub mod Names
pub mod Members
pub mod Alias
pub mod Known
mod Examples
