-- ===== src/Symbol.antt =====
-- parser/src/symbol.rs: prototypes, and the packages with their subs and imports.
pub mod Prototype
pub mod Table
pub mod Shape
pub mod Resolve
pub mod Follow
pub mod Update
mod Examples
