-- ===== src/Warnings.antt =====
-- core/src/warnings.rs: perl's warning categories.
pub mod Category
pub mod Names
pub mod Tree
pub mod Codes
pub mod Subtree
mod Examples
