-- ===== src/Packed/Alphabet.antt =====
-- The three alphabets of core/src/string.rs and their tables, built as the source builds them.
use perloxide.Prelude.{ℕ, suc, Bool, List, [], ◌∷◌, get_or, set, replicate, ◌==◌, not, codes}

pub data PackedAlphabet : Type 0 where
  numeric datetime_plus datetime_zulu : PackedAlphabet

abbrev pub invalid : ℕ
invalid = 0xFF

unfoldable pub encode_loop : List ℕ → ℕ → List ℕ → List ℕ
encode_loop [] i table = table
encode_loop (s ∷ symbols) i table = encode_loop symbols (suc i) (set table s i)

unfoldable pub encode_table : List ℕ → List ℕ
unfolding encode_loop
encode_table symbols = encode_loop symbols 0 (replicate 256 invalid)

unfoldable pub decode_loop : List ℕ → ℕ → List ℕ → List ℕ
decode_loop [] i table = table
decode_loop (s ∷ symbols) i table = decode_loop symbols (suc i) (set table i s)

unfoldable pub decode_table : List ℕ → List ℕ
unfolding decode_loop
decode_table symbols = decode_loop symbols 0 (replicate 16 0)

unfoldable pub symbols : PackedAlphabet → List ℕ
symbols numeric = codes " +-.0123456789Ee"
symbols datetime_plus = codes " +-.0123456789:T"
symbols datetime_zulu = codes " -.0123456789:TZ"

-- `encode_table()[b as usize]`
unfoldable pub encode : PackedAlphabet → ℕ → ℕ
unfolding encode_table symbols
encode a b = get_or (encode_table (symbols a)) b invalid

-- `decode_table()[n as usize]`
unfoldable pub decode : PackedAlphabet → ℕ → ℕ
unfolding decode_table symbols
decode a n = get_or (decode_table (symbols a)) n 0

-- The byte has a symbol in the alphabet.
unfoldable pub encodes : PackedAlphabet → ℕ → Bool
unfolding encode
encodes a b = not (encode a b == invalid)
