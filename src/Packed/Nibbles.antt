-- ===== src/Packed/Nibbles.antt =====
-- `nibble_at` and `set_nibble` of core/src/string.rs over the fifteen payload bytes. An array is a
-- list; an index past its end panics in Rust, and no caller gives one.
use Prim.Native.Nat.{bit_and, bit_or}
use perloxide.Prelude.{ℕ, ◌+◌, ◌-◌, ◌*◌, ◌/◌, ◌%◌, ◌^◌, List, ◌==◌, if◌then◌else◌, get_or, set}

abbrev inline_max : ℕ
inline_max = 15

abbrev pub packed_bytes : ℕ
packed_bytes = inline_max

abbrev pub max_packed_len : ℕ
max_packed_len = 2 * packed_bytes

abbrev pub min_packed_len : ℕ
min_packed_len = inline_max + 1

abbrev pub length_nibble : ℕ
length_nibble = max_packed_len - 1

unfoldable pub nibble_at : List ℕ → ℕ → ℕ
nibble_at nibbles index =
    let byte = get_or nibbles (index / 2) 0 in
    if index % 2 == 0 then byte / 2 ^ 4 else bit_and byte 0x0F

-- The byte with one half rewritten; `value << 4` keeps eight bits.
unfoldable pub with_half : ℕ → ℕ → ℕ → ℕ
with_half byte index value =
    if index % 2 == 0
    then bit_or (bit_and byte 0x0F) (value * 2 ^ 4 % 256)
    else bit_or (bit_and byte 0xF0) value

unfoldable pub set_nibble : List ℕ → ℕ → ℕ → List ℕ
set_nibble nibbles index value =
    set nibbles (index / 2) (with_half (get_or nibbles (index / 2) 0) index value)
