-- ===== src/Latin1/Words.antt =====
-- Counting high bytes by words in core/src/cow_buffer.rs: `variant_count` and `first_variant`.
use Prim.Native.Nat.{bit_and}
use perloxide.Prelude.{
  ℕ, zero, suc, ◌+◌, ◌*◌, ◌/◌, ◌%◌, ◌^◌, Option, none, some, List, [], ◌∷◌, leb, ◌==◌,
  if◌then◌else◌, length, take, drop,
}

-- The eight high bits.
abbrev pub high_bits : ℕ
high_bits = 0x8080808080808080

-- `u64::from_le_bytes`
unfoldable pub from_le_bytes : List ℕ → ℕ
from_le_bytes [] = 0
from_le_bytes (c ∷ cs) = c + 256 * from_le_bytes cs

-- `count_ones` of a number of so many bits.
unfoldable pub count_ones : ℕ → ℕ → ℕ
count_ones zero x = 0
count_ones (suc n) x = x % 2 + count_ones n (x / 2)

-- How many bytes are at or above 0x80, byte by byte.
unfoldable pub count_high : List ℕ → ℕ
count_high [] = 0
count_high (b ∷ bs) = (if leb 0x80 b then 1 else 0) + count_high bs

-- The loop over the whole words, whose `u32` counter wraps: the counter and the remainder.
unfoldable pub count_words : ℕ → ℕ → List ℕ → ℕ × List ℕ
count_words zero count bytes = (count, bytes)
count_words (suc fuel) count bytes =
    let more =
      count_words fuel
        ((count + count_ones 64 (bit_and (from_le_bytes (take 8 bytes)) high_bits)) % 2 ^ 32)
        (drop 8 bytes) in
    if leb 8 (length bytes) then more else (count, bytes)

unfoldable pub variant_count : List ℕ → ℕ
unfolding count_words count_ones from_le_bytes count_high
variant_count bytes =
    let (count, rest) = count_words (length bytes) 0 bytes in count + count_high rest

-- The loop over the words without a high byte.
unfoldable pub skip_words : ℕ → ℕ → List ℕ → ℕ
skip_words zero offset bytes = offset
skip_words (suc fuel) offset bytes =
    let more = skip_words fuel (offset + 8) (drop 8 bytes) in
    if leb 8 (length bytes)
    then (if bit_and (from_le_bytes (take 8 bytes)) high_bits == 0 then more else offset)
    else offset

-- `iter().position(|&b| b >= 0x80)`
unfoldable pub position_high : List ℕ → Option ℕ
position_high [] = none
position_high (b ∷ bs) =
    if leb 0x80 b then some 0 else elim (position_high bs) [ none ↦ none | some k ↦ some (suc k) ]

unfoldable pub first_variant : List ℕ → Option ℕ
unfolding skip_words from_le_bytes position_high
first_variant bytes =
    let offset = skip_words (length bytes) 0 bytes in
    elim (position_high (drop offset bytes)) [ none ↦ none | some k ↦ some (offset + k) ]
