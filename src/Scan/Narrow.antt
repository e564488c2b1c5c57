-- ===== src/Scan/Narrow.antt =====
-- `narrow_scan` of core/src/cow_buffer.rs for the tiers that keep a scan byte: the loop that narrows
-- a shared storage byte, where other threads narrow it too between a load and the weak
-- compare-and-swap that follows. Built without debug assertions, as `meet` is.
use perloxide.Prelude.{ℕ, Bool, Option, none, some, List, [], ◌∷◌, ◌==◌, ◌&&◌, not, if◌then◌else◌}
use perloxide.Scan.States.{ScanState, as_u8, from_u8}
use perloxide.Scan.Meet.{meet}

-- What the others merge into the storage byte meanwhile.
unfoldable pub interfere : ℕ → List ScanState → Option ℕ
unfolding as_u8 from_u8 meet
interfere cell [] = some cell
interfere cell (other ∷ others) = elim (from_u8 cell) [
  | none ↦ none
  | some s ↦ interfere (as_u8 (meet s other)) others
]

-- What happens between a load of the loop and its swap: the states the others merge, and whether the
-- weak swap fails although the byte is the one expected.
pub record Round : Type 0 where
  pub others : List ScanState
  pub spurious : Bool

-- A round of the loop, on the byte it finds and on what it read last: the byte that is stored, and
-- what was seen if the swap failed. `none` is a byte that no state has.
unfoldable pub attempt : ScanState → Bool → ℕ → ℕ → Option (Option ℕ × ℕ)
unfolding as_u8 from_u8 meet
attempt state fails cell current = elim (from_u8 current) [
  | none ↦ none
  | some s ↦
      let merged = as_u8 (meet s state) in
      if merged == current
      then some (none, cell)
      else if cell == current && not fails
      then some (none, merged)
      else some (some cell, cell)
]

-- What follows a round: the loop is left, or goes on with what was seen.
abbrev pub after : (ℕ → ℕ → Option ℕ) → Option (Option ℕ × ℕ) → Option ℕ
after again none = none
after again (some (none, stored)) = some stored
after again (some (some seen, stored)) = again stored seen

-- The loop, over what happens before each swap; `none` if it is not over when that ends.
unfoldable pub narrow_loop : ScanState → List Round → ℕ → ℕ → Option ℕ
unfolding interfere attempt
narrow_loop state [] cell current = none
narrow_loop state (round ∷ schedule) cell current = elim (interfere cell round.others) [
  | none ↦ none
  | some cell' ↦ after (narrow_loop state schedule) (attempt state round.spurious cell' current)
]

unfoldable pub narrow_scan : ScanState → List Round → ℕ → Option ℕ
unfolding narrow_loop
narrow_scan state schedule cell = narrow_loop state schedule cell cell
