-- ===== src/Packed.antt =====
-- The nibble-packed string tier of core/src/string.rs: sixteen to thirty characters of digit-dense
-- text in fifteen bytes.
pub mod Nibbles
pub mod Alphabet
pub mod Codec
pub mod Payload
pub mod RoundTrip
pub mod Priority
pub mod Append
pub mod Unique
pub mod Moves
pub mod Push
pub mod Equal
pub mod Order
mod Examples
