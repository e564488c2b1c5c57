-- ===== src/Scan/Settles.antt =====
-- The narrowing loop of core/src/cow_buffer.rs where other threads narrow the byte too, against a
-- narrowing in one step.
use perloxide.Prelude.{ℕ, suc, ◌≡◌, Option, some, List, [], ◌∷◌, ◌++◌, if◌then◌else◌}
use perloxide.Scan.States.{ScanState, as_u8}
use perloxide.Scan.Meet.{meet}
use perloxide.Scan.Narrow.{Round}

-- What the others leave of a state.
unfoldable pub under : ScanState → List ScanState → ScanState
under s [] = s
under s (o ∷ os) = under (meet s o) os

-- The rounds in which the swap may fail only because the byte changed.
abbrev pub sound_rounds : List Round → ℕ
sound_rounds [] = 0
sound_rounds (r ∷ rs) = let rest = sound_rounds rs in if r.spurious then rest else suc rest

-- What the others merged before these swaps.
unfoldable pub merged : List Round → List ScanState
merged [] = []
merged (r ∷ rs) = r.others ++ merged rs

-- A narrowing that took place after some of the rounds, in one step.
record Linear (t s : ScanState) (schedule : List Round) (r : Option ℕ) : Type 0 where
  ran : List Round
  left : List Round
  parts : schedule ≡ ran ++ left
  result : r ≡ some (as_u8 (meet (under s (merged ran)) t))
