-- ===== src/Prelude/Table.antt =====
-- A `match` whose arms are literals: a list of arms that is searched from the top.
use mathlib.Core.Path.{◌≡◌, sym, subst₂}
use mathlib.Core.Logic.{inl, inr}
use mathlib.Core.Bool.{Bool, true}
use mathlib.Core.List.{List, [], ◌∷◌}
use mathlib.Core.Option.{Option, none, some}
use perloxide.Prelude.Tests.{if◌then◌else◌, Bool-cases, some_inj}
use perloxide.Prelude.Lists.{All}

module _ {ℓ κ} {K : Type ℓ} {V : Type κ} (same : K → K → Bool) where
  abbrev pub match_arms : List (K × V) → K → Option V
  match_arms [] k = none
  match_arms ((j, v) ∷ arms) k = if same k j then some v else match_arms arms k

module _ {ℓ κ} {K : Type ℓ} {V : Type κ} (same : K → K → Bool)
    (sound : (k j : K) → same k j ≡ true → k ≡ j) where
  pub match_arms-some :
      (P : K → V → Type 0) (arms : List (K × V)) (k : K) (v : V)
      → All (λ (arm : K × V). P arm.0 arm.1) arms
      → match_arms same arms k ≡ some v
      → P k v
  match_arms-some P [] k v h e = cc
  match_arms-some P ((j, w) ∷ arms) k v h e = elim (Bool-cases (same k j)) [
    | inl hit ↦ subst₂ P (sym (sound k j hit)) (some_inj (rw hit at e)) h.0
    | inr miss ↦ match_arms-some P arms k v h.1 (rw miss at e)
  ]
