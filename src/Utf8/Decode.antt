-- ===== src/Utf8/Decode.antt =====
-- `decode_one` of core/src/string.rs: one sequence of perl's extended UTF-8, up to thirteen bytes
-- and 2^63 - 1. A byte is a number; a slice is a list and an index into it.
use Prim.Native.Nat.{bit_and, bit_or}
use perloxide.Prelude.{
  ℕ, suc, ◌+◌, ◌-◌, ◌*◌, ◌^◌, Bool, ◌&&◌, ◌||◌, Option, none, some, List, [], ◌∷◌, ltb, leb, ◌==◌,
  if◌then◌else◌, length, take, drop,
}

abbrev u64_max : ℕ
u64_max = 2 ^ 64 - 1

abbrev pub iv_max : ℕ
iv_max = 0x7FFF_FFFF_FFFF_FFFF

unfoldable pub is_continuation : ℕ → Bool
is_continuation byte = bit_and byte 0xC0 == 0x80

-- The smallest code point for each sequence length.
unfoldable pub min_for_len : ℕ → ℕ
min_for_len len =
    if len == 1
    then 0
    else if len == 2
    then 0x80
    else if len == 3
    then 0x800
    else if len == 4
    then 0x1_0000
    else if len == 5
    then 0x20_0000
    else if len == 6
    then 0x400_0000
    else if len == 7
    then 0x8000_0000
    else if len == 13
    then 0x10_0000_0000
    else u64_max

abbrev between : ℕ → ℕ → ℕ → Bool
between lo hi b = leb lo b && leb b hi

-- The length that a lead byte past ASCII announces and the bits that it carries; a bare
-- continuation byte announces none.
unfoldable pub lead_form : ℕ → Option (ℕ × ℕ)
lead_form lead =
    if between 0xC0 0xDF lead
    then some (2, bit_and lead 0x1F)
    else if between 0xE0 0xEF lead
    then some (3, bit_and lead 0x0F)
    else if between 0xF0 0xF7 lead
    then some (4, bit_and lead 0x07)
    else if between 0xF8 0xFB lead
    then some (5, bit_and lead 0x03)
    else if between 0xFC 0xFD lead
    then some (6, bit_and lead 0x01)
    else if lead == 0xFE
    then some (7, 0)
    else if lead == 0xFF
    then some (13, 0)
    else none

-- The loop over the continuation bytes; `checked_mul` refuses a product past 64 bits.
unfoldable pub continue_value : List ℕ → ℕ → Option ℕ
unfolding is_continuation
continue_value [] value = some value
continue_value (b ∷ bs) value =
    if is_continuation b
    then if leb (value * 64) u64_max
      then continue_value bs (bit_or (value * 64) (bit_and b 0x3F))
      else none
    else none

-- The anti-overlong rule and perl's ceiling.
unfoldable pub accept : ℕ → ℕ → Option (ℕ × ℕ)
unfolding min_for_len
accept len value =
    if ltb value (min_for_len len) || ltb iv_max value then none else some (len, value)

abbrev pub bind {ℓ κ} : {A : Type ℓ} {B : Type κ} → Option A → (A → Option B) → Option B
bind none f = none
bind (some a) f = f a

unfoldable pub decode_form : ℕ → List ℕ → ℕ × ℕ → Option (ℕ × ℕ)
unfolding continue_value accept
decode_form lead rest (len, init) =
    if ltb (length (lead ∷ rest)) len
    then none
    else bind (continue_value (take (len - 1) rest) init) (accept len)

unfoldable pub decode_lead : ℕ → List ℕ → Option (ℕ × ℕ)
unfolding lead_form decode_form
decode_lead lead rest =
    if leb lead 0x7F then some (1, lead) else bind (lead_form lead) (decode_form lead rest)

-- The bytes from `at` on. Rust panics where there are none, and every caller has `at` in range.
unfoldable pub decode_slice : List ℕ → Option (ℕ × ℕ)
unfolding decode_lead
decode_slice [] = none
decode_slice (lead ∷ rest) = decode_lead lead rest

unfoldable pub decode_one : List ℕ → ℕ → Option (ℕ × ℕ)
unfolding decode_slice
decode_one bytes at = decode_slice (drop at bytes)

leading_continuations : List ℕ → ℕ
unfolding is_continuation
leading_continuations [] = 0
leading_continuations (b ∷ bs) = if is_continuation b then suc (leading_continuations bs) else 0

-- The rejected byte and the continuation bytes that follow it.
unfoldable pub malformed_run : List ℕ → ℕ → ℕ
unfolding leading_continuations
malformed_run bytes at = suc (leading_continuations (drop (at + 1) bytes))
