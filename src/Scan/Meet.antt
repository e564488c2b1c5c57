-- ===== src/Scan/Meet.antt =====
-- The narrowing meet of core/src/string.rs: `facts` and `meet`, with its contradiction census.
use Prim.Native.Nat.{bit_and, bit_or}
use perloxide.Prelude.{ℕ, Bool, ◌&&◌, ◌||◌, not, ◌==◌, if◌then◌else◌}
use perloxide.Scan.States.{
  ScanState, unknown, valid_utf8, utf8_non_ascii, non_ascii, maybe_utf8_latin1, maybe_extended_utf8,
  perl_valid_non_ascii,
}

abbrev pub rust_valid : ℕ
rust_valid = 1

abbrev pub perl_valid : ℕ
perl_valid = 2

abbrev pub all_le_00ff : ℕ
all_le_00ff = 4

abbrev pub contains_ge_0080 : ℕ
contains_ge_0080 = 8

abbrev pub contains_ge_0100 : ℕ
contains_ge_0100 = 16

abbrev pub rust_invalid : ℕ
rust_invalid = 32

abbrev pub malformed : ℕ
malformed = 64

abbrev pub high_bit : ℕ
high_bit = 128

abbrev pub all_ascii : ℕ
all_ascii = 256

infixl 60 ◌or◌
abbrev pub ◌or◌ : ℕ → ℕ → ℕ
a or b = bit_or a b

unfoldable pub facts : ScanState → ℕ
facts unknown = 0
facts perl_valid_non_ascii = perl_valid or high_bit
facts ScanState.ascii = rust_valid or perl_valid or all_le_00ff or all_ascii
facts ScanState.utf8_latin1 = rust_valid or perl_valid or all_le_00ff or contains_ge_0080
facts maybe_utf8_latin1 = rust_valid or perl_valid or all_le_00ff
facts ScanState.utf8_non_latin1 = rust_valid or perl_valid or contains_ge_0100
facts valid_utf8 = rust_valid or perl_valid
facts utf8_non_ascii = rust_valid or perl_valid or contains_ge_0080
facts ScanState.extended_utf8 = perl_valid or rust_invalid
facts maybe_extended_utf8 = perl_valid
facts ScanState.malformed_utf8 = malformed
facts non_ascii = high_bit

-- `f & mask != 0`
abbrev pub has : ℕ → ℕ → Bool
has f mask = not (bit_and f mask == 0)

-- The two derivations.
unfoldable pub derive : ℕ → ℕ
derive f =
    let g = if has f rust_valid && has f high_bit then f or contains_ge_0080 else f in
    if has g (contains_ge_0100 or rust_invalid) then g or contains_ge_0080 else g

-- The union of two certifications, closed under derivation: `f` of `meet` below the derivations.
unfoldable pub union : ScanState → ScanState → ℕ
unfolding facts derive
union a b = derive (facts a or facts b)

-- The condition that `debug_assert!` refuses.
unfoldable pub contradiction : ℕ → Bool
contradiction f =
    has f malformed && has f perl_valid
    || has f rust_valid && has f rust_invalid
    || has f all_ascii && (has f high_bit || has f contains_ge_0080)
    || has f all_le_00ff && has f contains_ge_0100

-- The canonical state of a closed set of facts: the ladder that ends `meet`.
unfoldable pub canonical : ℕ → ScanState
canonical f =
    if has f malformed
    then ScanState.malformed_utf8
    else if has f rust_invalid
    then ScanState.extended_utf8
    else if has f rust_valid
    then if has f all_ascii
      then ScanState.ascii
      else if has f contains_ge_0100
      then ScanState.utf8_non_latin1
      else if has f all_le_00ff
      then if has f contains_ge_0080 then ScanState.utf8_latin1 else maybe_utf8_latin1
      else if has f contains_ge_0080
      then utf8_non_ascii
      else valid_utf8
    else if has f perl_valid
    then if has f high_bit then perl_valid_non_ascii else maybe_extended_utf8
    else if has f high_bit
    then non_ascii
    else unknown

-- `meet` as a release build runs it: a contradiction is canonicalized, malformed first.
unfoldable pub meet : ScanState → ScanState → ScanState
unfolding union canonical
meet a b = canonical (union a b)
