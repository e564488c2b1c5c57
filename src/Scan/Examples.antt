-- ===== src/Scan/Examples.antt =====
-- Runs of the `scan` module of core/src/string.rs, and its theorems at one input each.
use perloxide.Prelude.{◌≡◌, ◌≢◌, ◌↔◌, refl, true, false, ◌&&◌, List, [], ◌∷◌, none, some}
use perloxide.Scan.States.{
  ScanState, Terminal, unknown, non_ascii, valid_utf8, maybe_extended_utf8, perl_valid_non_ascii,
  as_u8, from_u8,
}
use perloxide.Scan.Meet.{union, contradiction, meet}
use perloxide.Scan.Classes.{asserts}
use perloxide.Scan.Exact.{meet_exact, census_exact}
use perloxide.Scan.Narrow.{Round, narrow_scan}

no_state : from_u8 12 ≡ none
unfolding from_u8
no_state = refl

probe_meets_slice : meet non_ascii maybe_extended_utf8 ≡ perl_valid_non_ascii
unfolding meet
probe_meets_slice = refl

meet_exact_example :
    asserts (meet non_ascii valid_utf8) Terminal.utf8_latin1
    ≡ (asserts non_ascii Terminal.utf8_latin1 && asserts valid_utf8 Terminal.utf8_latin1)
unfolding union contradiction
meet_exact_example = meet_exact non_ascii valid_utf8 Terminal.utf8_latin1 refl

census_exact_example :
    (contradiction (union ScanState.ascii non_ascii) ≡ true)
    ↔ ((t : Terminal) → (asserts ScanState.ascii t && asserts non_ascii t) ≢ true)
census_exact_example = census_exact ScanState.ascii non_ascii

-- Another thread classifies the content before the first swap; the others change nothing.
abbrev quiet : Round
quiet = record { others = []; spurious = false }

abbrev raced : List Round
raced =
    record { others = ScanState.utf8_latin1 ∷ []; spurious = true }
    ∷ quiet
    ∷ quiet
    ∷ quiet
    ∷ quiet
    ∷ quiet
    ∷ quiet
    ∷ quiet
    ∷ quiet
    ∷ quiet
    ∷ quiet
    ∷ []

raced_settles : narrow_scan non_ascii raced (as_u8 unknown) ≡ some (as_u8 ScanState.utf8_latin1)
unfolding narrow_scan
raced_settles = refl
