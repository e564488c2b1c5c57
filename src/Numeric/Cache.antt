-- ===== src/Numeric/Cache.antt =====
-- The digit cache of core/src/numeric.rs, seven bytes: the number of digits, for a float the decimal
-- exponent, and the digits, two to a byte.
use Prim.Native.Nat.{min, bit_and, bit_or}
use perloxide.Prelude.{
  ℕ, zero, suc, ◌+◌, ◌-◌, ◌*◌, ◌/◌, ◌%◌, ◌^◌, Bool, ◌||◌, not, Option, none, some, List, [], ◌∷◌,
  ◌++◌, reverse, ltb, leb, ◌==◌, if◌then◌else◌, length, get_or, set, replicate,
}
use perloxide.Prelude.Int.{ℤ, pos, negsuc}

abbrev pub cache_bytes : ℕ
cache_bytes = 7

abbrev pub empty_cache : List ℕ
empty_cache = replicate cache_bytes 0

-- The digits that a layout holds, whose digits begin at a byte.
abbrev pub capacity : ℕ → ℕ
capacity digits_at = (cache_bytes - digits_at) * 2

abbrev pub max_digits : ℕ
max_digits = (cache_bytes - 1) * 2

unfoldable pub count : List ℕ → Option ℕ
count cache = let n = get_or cache 0 0 in if n == 0 then none else some n

-- `as i8`, back to a signed number.
unfoldable pub exponent : List ℕ → ℤ
exponent cache = let b = get_or cache 1 0 in if ltb b 128 then pos b else negsuc (255 - b)

-- `exponent as i8 as u8`
unfoldable pub exponent_byte : ℤ → ℕ
exponent_byte (pos n) = n % 256
exponent_byte (negsuc n) = 255 - n % 256

-- `(-128..=127).contains(&exponent)`
unfoldable pub exponent_fits : ℤ → Bool
exponent_fits (pos n) = leb n 127
exponent_fits (negsuc n) = leb n 127

unfoldable pub digit : ℕ → List ℕ → ℕ → ℕ
digit digits_at cache index =
    let byte = get_or cache (digits_at + index / 2) 0 in
    if index % 2 == 0 then byte / 2 ^ 4 else bit_and byte 0x0F

-- The first `count` digits, from an index on.
unfoldable pub digits_from : ℕ → List ℕ → ℕ → ℕ → List ℕ
unfolding digit
digits_from digits_at cache index zero = []
digits_from digits_at cache index (suc n) =
    digit digits_at cache index ∷ digits_from digits_at cache (suc index) n

unfoldable pub digits : ℕ → List ℕ → ℕ → List ℕ
unfolding digits_from
digits digits_at cache n =
    digits_from digits_at cache 0 (min n max_digits) ++ replicate (max_digits - n) 0

-- One digit into its half of a byte.
unfoldable pub write_digit : ℕ → List ℕ → ℕ → ℕ → List ℕ
write_digit digits_at out i d =
    let slot = get_or out (digits_at + i / 2) 0 in
    set out (digits_at + i / 2) (
      if i % 2 == 0
      then bit_or (bit_and slot 0x0F) (d * 2 ^ 4 % 256)
      else bit_or (bit_and slot 0xF0) d)

unfoldable pub write_digits : ℕ → List ℕ → ℕ → List ℕ → List ℕ
unfolding write_digit
write_digits digits_at out i [] = out
write_digits digits_at out i (d ∷ ds) =
    write_digits digits_at (write_digit digits_at out i d) (suc i) ds

unfoldable pub build : ℕ → List ℕ → ℤ → List ℕ
unfolding exponent_fits exponent_byte write_digits
build digits_at ds e =
    if length ds == 0 || ltb (capacity digits_at) (length ds) || not (exponent_fits e)
    then empty_cache
    else (write_digits digits_at (set (set empty_cache 0 (length ds % 256)) 1 (exponent_byte e)) 0
        ds)

-- The loop of `decimal_cache`: the digits of a magnitude from the last one on, in an array of twenty.
unfoldable pub low_digits : ℕ → ℕ → List ℕ
low_digits zero rest = []
low_digits (suc room) rest =
    let more = low_digits room (rest / 10) in (rest % 10) ∷ (if rest / 10 == 0 then [] else more)

unfoldable pub decimal_cache : ℕ → List ℕ
unfolding low_digits build
decimal_cache magnitude = build 1 (reverse (low_digits 20 magnitude)) (pos 0)
