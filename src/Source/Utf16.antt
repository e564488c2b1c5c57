-- ===== src/Source/Utf16.antt =====
-- `detect_and_transcode` and `transcode_utf16` of parser/src/source.rs.
use perloxide.Prelude.{
  ℕ, ◌+◌, ◌-◌, ◌*◌, ◌/◌, ◌%◌, Bool, true, false, ◌&&◌, ◌||◌, not, List, [], ◌∷◌, ◌++◌, ltb, leb,
  ◌==◌, if◌then◌else◌, length, get_or, drop,
}

-- `u16::from_le_bytes` or `u16::from_be_bytes` of two bytes.
unfoldable pub unit_of : Bool → ℕ → ℕ → ℕ
unit_of little_endian a b = if little_endian then a + 256 * b else 256 * a + b

unfoldable pub is_high_surrogate : ℕ → Bool
is_high_surrogate u = leb 0xD800 u && leb u 0xDBFF

unfoldable pub is_low_surrogate : ℕ → Bool
is_low_surrogate u = leb 0xDC00 u && leb u 0xDFFF

-- `char::encode_utf8`, of the standard library.
unfoldable pub encode_utf8 : ℕ → List ℕ
encode_utf8 c =
    if ltb c 0x80
    then c ∷ []
    else if ltb c 0x800
    then (0xC0 + c / 64) ∷ (0x80 + c % 64) ∷ []
    else if ltb c 0x10000
    then (0xE0 + c / 4096) ∷ (0x80 + c / 64 % 64) ∷ (0x80 + c % 64) ∷ []
    else (0xF0 + c / 262144) ∷ (0x80 + c / 4096 % 64) ∷ (0x80 + c / 64 % 64) ∷ (0x80 + c % 64) ∷ []

-- `char::from_u32`: what is appended for a code point.
unfoldable pub push_char : ℕ → List ℕ
unfolding encode_utf8
push_char cp = if ltb cp 0xD800 || leb 0xE000 cp && ltb cp 0x110000 then encode_utf8 cp else []

-- A unit that no low surrogate follows.
unfoldable pub single_unit : ℕ → List ℕ
unfolding is_high_surrogate is_low_surrogate push_char
single_unit u = push_char (if is_high_surrogate u || is_low_surrogate u then 0xFFFD else u)

unfoldable pub transcode_utf16 : Bool → List ℕ → List ℕ
unfolding unit_of is_high_surrogate is_low_surrogate single_unit push_char
transcode_utf16 le [] = []
transcode_utf16 le (a ∷ []) = []
transcode_utf16 le (a ∷ b ∷ []) = single_unit (unit_of le a b)
transcode_utf16 le (a ∷ b ∷ c ∷ []) = single_unit (unit_of le a b)
transcode_utf16 le (a ∷ b ∷ c ∷ d ∷ rest) =
    let after_pair = transcode_utf16 le rest in
    let after_unit = transcode_utf16 le (c ∷ d ∷ rest) in
    let unit = unit_of le a b in
    let lo = unit_of le c d in
    if is_high_surrogate unit && is_low_surrogate lo
    then push_char (0x10000 + (unit - 0xD800) * 1024 + (lo - 0xDC00)) ++ after_pair
    else single_unit unit ++ after_unit

-- Without a mark: nulls in every second place of the first four bytes.
unfoldable pub detect_nulls : List ℕ → List ℕ × Bool
unfolding transcode_utf16
detect_nulls src =
    let b = λ (i : ℕ). get_or src i 0 in
    if leb 4 (length src) && b 1 == 0 && b 3 == 0 && not (b 0 == 0) && not (b 2 == 0)
    then (transcode_utf16 true src, true)
    else if leb 4 (length src) && b 0 == 0 && b 2 == 0 && not (b 1 == 0) && not (b 3 == 0)
    then (transcode_utf16 false src, true)
    else (src, false)

-- The source in UTF-8, and whether that is known.
unfoldable pub detect_and_transcode : List ℕ → List ℕ × Bool
unfolding transcode_utf16 detect_nulls
detect_and_transcode src =
    let b = λ (i : ℕ). get_or src i 0 in
    if leb 3 (length src) && b 0 == 0xEF && b 1 == 0xBB && b 2 == 0xBF
    then (drop 3 src, true)
    else if leb 2 (length src) && b 0 == 0xFF && b 1 == 0xFE
    then (transcode_utf16 true (drop 2 src), true)
    else if leb 2 (length src) && b 0 == 0xFE && b 1 == 0xFF
    then (transcode_utf16 false (drop 2 src), true)
    else detect_nulls src
