-- ===== src/Array.antt =====
-- The array engine of core/src/containers.rs: a window of slots that floats behind a gap.
pub mod Slots
pub mod Geometry
pub mod Engine
pub mod Header
pub mod Window
mod Growth
mod Holes
mod Contents
mod Deletion
mod Spread
mod Additions
mod Commit
mod Contract
mod Served
pub mod Backend
mod Ensure
mod Doubled
mod Examples
