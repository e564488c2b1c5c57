-- ===== src/Scan/States.antt =====
-- `ScanState`, `ValidRange` and `Terminal` of core/src/string.rs, their storage bytes and the
-- predicates on them. A panic is `none`.
use perloxide.Prelude.{
  ℕ, Bool, true, false, Option, none, some, List, [], ◌∷◌, ◌==◌, leb, if◌then◌else◌, match_arms,
}

pub data ScanState : Type 0 where
  unknown ascii utf8_latin1 utf8_non_latin1 valid_utf8 utf8_non_ascii : ScanState
  extended_utf8 malformed_utf8 non_ascii maybe_utf8_latin1 : ScanState
  maybe_extended_utf8 perl_valid_non_ascii : ScanState

pub data ValidRange : Type 0 where
  ascii latin1 non_latin1 : ValidRange

pub data Terminal : Type 0 where
  ascii utf8_latin1 utf8_non_latin1 extended_utf8 malformed_utf8 : Terminal

-- `as_u8`: the discriminants.
unfoldable pub as_u8 : ScanState → ℕ
as_u8 unknown = 0
as_u8 ScanState.ascii = 1
as_u8 ScanState.utf8_latin1 = 2
as_u8 ScanState.utf8_non_latin1 = 3
as_u8 valid_utf8 = 4
as_u8 utf8_non_ascii = 5
as_u8 ScanState.extended_utf8 = 6
as_u8 ScanState.malformed_utf8 = 7
as_u8 non_ascii = 8
as_u8 maybe_utf8_latin1 = 9
as_u8 maybe_extended_utf8 = 10
as_u8 perl_valid_non_ascii = 11

-- The arms of `from_u8`; each literal is the discriminant that the `raw` module projects.
abbrev pub state_arms : List (ℕ × ScanState)
state_arms =
    (0, unknown)
    ∷ (1, ScanState.ascii)
    ∷ (2, ScanState.utf8_latin1)
    ∷ (3, ScanState.utf8_non_latin1)
    ∷ (4, valid_utf8)
    ∷ (5, utf8_non_ascii)
    ∷ (6, ScanState.extended_utf8)
    ∷ (7, ScanState.malformed_utf8)
    ∷ (8, non_ascii)
    ∷ (9, maybe_utf8_latin1)
    ∷ (10, maybe_extended_utf8)
    ∷ (11, perl_valid_non_ascii)
    ∷ []

unfoldable pub from_u8 : ℕ → Option ScanState
from_u8 byte = match_arms ◌==◌ state_arms byte

unfoldable pub terminal : ScanState → Option Terminal
terminal ScanState.ascii = some Terminal.ascii
terminal ScanState.utf8_latin1 = some Terminal.utf8_latin1
terminal ScanState.utf8_non_latin1 = some Terminal.utf8_non_latin1
terminal ScanState.extended_utf8 = some Terminal.extended_utf8
terminal ScanState.malformed_utf8 = some Terminal.malformed_utf8
terminal _ = none

-- `Terminal::widen`
unfoldable pub widen : Terminal → ScanState
widen Terminal.ascii = ScanState.ascii
widen Terminal.utf8_latin1 = ScanState.utf8_latin1
widen Terminal.utf8_non_latin1 = ScanState.utf8_non_latin1
widen Terminal.extended_utf8 = ScanState.extended_utf8
widen Terminal.malformed_utf8 = ScanState.malformed_utf8

-- `Terminal::from_scan`
unfoldable pub from_scan : ScanState → Option Terminal
unfolding terminal
from_scan state = elim (terminal state) [ some t ↦ some t | none ↦ none ]

-- `ValidRange::widen`
unfoldable pub widen_range : ValidRange → ScanState
widen_range ValidRange.ascii = ScanState.ascii
widen_range latin1 = ScanState.utf8_latin1
widen_range non_latin1 = ScanState.utf8_non_latin1

-- `self as u8` of a `ValidRange`, whose discriminants are those of its states.
unfoldable pub range_u8 : ValidRange → ℕ
unfolding as_u8 widen_range
range_u8 r = as_u8 (widen_range r)

-- `ValidRange::join`
unfoldable pub join : ValidRange → ValidRange → ValidRange
unfolding range_u8
join a b = if leb (range_u8 b) (range_u8 a) then a else b

unfoldable pub is_rust_valid : ScanState → Bool
is_rust_valid ScanState.ascii = true
is_rust_valid ScanState.utf8_latin1 = true
is_rust_valid maybe_utf8_latin1 = true
is_rust_valid ScanState.utf8_non_latin1 = true
is_rust_valid valid_utf8 = true
is_rust_valid utf8_non_ascii = true
is_rust_valid _ = false

unfoldable pub is_perl_decodable : ScanState → Bool
is_perl_decodable ScanState.ascii = true
is_perl_decodable ScanState.utf8_latin1 = true
is_perl_decodable maybe_utf8_latin1 = true
is_perl_decodable ScanState.utf8_non_latin1 = true
is_perl_decodable valid_utf8 = true
is_perl_decodable utf8_non_ascii = true
is_perl_decodable ScanState.extended_utf8 = true
is_perl_decodable maybe_extended_utf8 = true
is_perl_decodable perl_valid_non_ascii = true
is_perl_decodable _ = false

unfoldable pub is_known_latin1_range : ScanState → Bool
is_known_latin1_range ScanState.ascii = true
is_known_latin1_range ScanState.utf8_latin1 = true
is_known_latin1_range maybe_utf8_latin1 = true
is_known_latin1_range _ = false

unfoldable pub is_terminal : ScanState → Bool
unfolding terminal
is_terminal state = elim (terminal state) [ some t ↦ true | none ↦ false ]

unfoldable pub is_known_non_ascii : ScanState → Bool
is_known_non_ascii unknown = false
is_known_non_ascii ScanState.ascii = false
is_known_non_ascii valid_utf8 = false
is_known_non_ascii maybe_utf8_latin1 = false
is_known_non_ascii maybe_extended_utf8 = false
is_known_non_ascii _ = true

unfoldable pub is_known_beyond_latin1 : ScanState → Bool
is_known_beyond_latin1 ScanState.utf8_non_latin1 = true
is_known_beyond_latin1 ScanState.extended_utf8 = true
is_known_beyond_latin1 _ = false
