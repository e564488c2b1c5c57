-- ===== src/Numeric.antt =====
-- Numbers as text in core/src/value.rs and core/src/numeric.rs: numification of strings, the digit
-- cache of a numeric payload, and its rendering.
pub mod Text
pub mod Parse
pub mod Classify
pub mod Runs
pub mod Decimal
mod Grammar
pub mod Cache
pub mod Render
pub mod Present
pub mod Halves
pub mod Written
mod Slots
pub mod Transparent
pub mod Printed
pub mod Signed
pub mod RoundTrip
pub mod Silence
pub mod Integers
pub mod Trimmed
pub mod Agree
mod Examples
