-- ===== src/Numeric/Text.antt =====
-- The scanning steps of numification in core/src/value.rs: digits by words, whitespace, the sign.
use Prim.Native.Nat.{bit_and}
use perloxide.Prelude.{
  ℕ, zero, suc, ◌+◌, Bool, true, false, ◌&&◌, ◌||◌, List, [], ◌∷◌, ltb, leb, ◌==◌, if◌then◌else◌,
  length, get_or, take, drop,
}
use perloxide.Latin1.Words.{from_le_bytes}

-- `is_ascii_digit`
abbrev pub is_digit : ℕ → Bool
is_digit b = leb b'0' b && leb b b'9'

-- `is_ascii_whitespace`: space, tab, line feed, form feed, carriage return.
unfoldable pub is_whitespace : ℕ → Bool
is_whitespace b = b == 0x20 || b == 0x09 || b == 0x0A || b == 0x0C || b == 0x0D

abbrev pub to_lower : ℕ → ℕ
to_lower b = if leb b'A' b && leb b b'Z' then b + 32 else b

-- `iter().take_while(is_ascii_digit).count()`
unfoldable pub count_digits : List ℕ → ℕ
count_digits [] = 0
count_digits (b ∷ bs) = if is_digit b then suc (count_digits bs) else 0

abbrev pub low_nibbles : ℕ
low_nibbles = 0x0F0F0F0F0F0F0F0F

abbrev pub high_nibbles : ℕ
high_nibbles = 0xF0F0F0F0F0F0F0F0

unfoldable pub word_all_digits : ℕ → Bool
word_all_digits word =
    bit_and word high_nibbles == 0x3030303030303030
    && bit_and (bit_and word low_nibbles + 0x0606060606060606) high_nibbles == 0

-- The loop over whole words, then the bytes that are left.
unfoldable pub digit_words : ℕ → ℕ → List ℕ → ℕ
unfolding word_all_digits from_le_bytes count_digits
digit_words zero i bytes = i
digit_words (suc fuel) i bytes =
    let more = digit_words fuel (i + 8) (drop 8 bytes) in
    if leb 8 (length bytes) && word_all_digits (from_le_bytes (take 8 bytes))
    then more
    else i + count_digits bytes

unfoldable pub digit_run : List ℕ → ℕ
unfolding digit_words
digit_run bytes = digit_words (suc (length bytes)) 0 bytes

-- The leading whitespace.
unfoldable pub skip_whitespace : List ℕ → ℕ
unfolding is_whitespace
skip_whitespace [] = 0
skip_whitespace (b ∷ bs) = if is_whitespace b then suc (skip_whitespace bs) else 0

-- The sign before a number, if there is one: negative, and what follows it.
unfoldable pub sign_of : List ℕ → Bool × List ℕ
sign_of [] = (false, [])
sign_of (b ∷ bs) =
    if b == b'-' then (true, bs) else if b == b'+' then (false, bs) else (false, b ∷ bs)

unfoldable pub split_sign : List ℕ → Bool × List ℕ
unfolding skip_whitespace sign_of
split_sign bytes = sign_of (drop (skip_whitespace bytes) bytes)

-- `while end > start && bytes[end - 1].is_ascii_whitespace() { end -= 1 }`
unfoldable pub trim_end : ℕ → List ℕ → ℕ → ℕ
unfolding is_whitespace
trim_end start bytes zero = 0
trim_end start bytes (suc end) =
    let less = trim_end start bytes end in
    if ltb start (suc end) && is_whitespace (get_or bytes end 0) then less else suc end
