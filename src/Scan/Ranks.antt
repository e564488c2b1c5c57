-- ===== src/Scan/Ranks.antt =====
-- How the meet of core/src/string.rs narrows: each meet that changes a state lowers its rank, and
-- what is merged once stays merged.
use perloxide.Prelude.{
  ℕ, ◌<◌, ◌≡◌, ◌⊎◌, refl, ap, ◌∙◌, Bool, true, false, ◌||◌, not, List, [], ◌∷◌, ltb, ◌==◌, all, inl,
  inr, ==_iff, arith,
}
use perloxide.Scan.States.{ScanState, as_u8}
use perloxide.Scan.Meet.{meet}
use perloxide.Scan.Codes.{as_u8-injective}

abbrev pub same : ScanState → ScanState → Bool
same a b = as_u8 a == as_u8 b

abbrev states : List ScanState
states =
    ScanState.unknown ∷ ScanState.ascii ∷ ScanState.utf8_latin1 ∷ ScanState.utf8_non_latin1
    ∷ ScanState.extended_utf8 ∷ ScanState.malformed_utf8 ∷ ScanState.non_ascii
    ∷ ScanState.valid_utf8 ∷ ScanState.utf8_non_ascii ∷ ScanState.maybe_utf8_latin1
    ∷ ScanState.maybe_extended_utf8 ∷ ScanState.perl_valid_non_ascii ∷ []

on_states : (p : ScanState → Bool) → all p states ≡ true → (s : ScanState) → p s ≡ true
on_states p h ScanState.unknown = ground arith
on_states p h s = ground arith

-- How far a state is from the narrowest.
pub rank : ScanState → ℕ
rank ScanState.malformed_utf8 = 0
rank ScanState.extended_utf8 = 1
rank ScanState.ascii = 2
rank ScanState.utf8_non_latin1 = 3
rank ScanState.utf8_latin1 = 4
rank ScanState.maybe_utf8_latin1 = 5
rank ScanState.utf8_non_ascii = 5
rank ScanState.valid_utf8 = 6
rank ScanState.perl_valid_non_ascii = 7
rank ScanState.maybe_extended_utf8 = 8
rank ScanState.non_ascii = 8
rank ScanState.unknown = 9

abbrev narrows : ScanState → ScanState → Bool
narrows a b = same (meet a b) a || ltb (rank (meet a b)) (rank a)

narrows_table : all (λ a. all (narrows a) states) states ≡ true
unfolding rank meet as_u8
narrows_table = refl

-- Merging a state again changes nothing, and what is merged stays merged.
abbrev stays : ScanState → ScanState → ScanState → Bool
stays a t o = not (same (meet a t) a) || same (meet (meet a o) t) (meet a o)

stays_table : all (λ a. all (λ t. all (stays a t) states) states) states ≡ true
unfolding meet as_u8
stays_table = refl

merged_table : all (λ a. all (λ t. same (meet (meet a t) t) (meet a t)) states) states ≡ true
unfolding meet as_u8
merged_table = refl

pub same_iff : {a b : ScanState} → same a b ≡ true → a ≡ b
same_iff {a} {b} h = as_u8-injective ((==_iff (as_u8 a) (as_u8 b)).0 h)

pub same_refl : (a : ScanState) → same a a ≡ true
same_refl a = (==_iff (as_u8 a) (as_u8 a)).1 refl

narrows_all : (a b : ScanState) → narrows a b ≡ true
narrows_all a = on_states (narrows a) (on_states (λ a'. all (narrows a') states) narrows_table a)

stays_all : (a t o : ScanState) → stays a t o ≡ true
stays_all a t = on_states (stays a t) (
    on_states (λ t'. all (stays a t') states)
      (on_states (λ a'. all (λ t'. all (stays a' t') states) states) stays_table a) t)

pub meet-absorbed : (a t : ScanState) → meet (meet a t) t ≡ meet a t
meet-absorbed a t = same_iff (
    on_states (λ t'. same (meet (meet a t') t') (meet a t'))
      (on_states (λ a'. all (λ t'. same (meet (meet a' t') t') (meet a' t')) states) merged_table a)
      t)

or_drop : {a b : Bool} → (not a || b) ≡ true → a ≡ true → b ≡ true
or_drop h e = ground arith

pub meet-stays : (a t o : ScanState) → meet a t ≡ a → meet (meet a o) t ≡ meet a o
meet-stays a t o e = same_iff (or_drop (stays_all a t o) (ap (λ s. same s a) e ∙ same_refl a))

or_true : (a b : Bool) → (a || b) ≡ true → (a ≡ true) ⊎ (b ≡ true)
or_true true b h = inl refl
or_true false b h = inr h

ltb_lt : (a b : ℕ) → ltb a b ≡ true → a < b
ltb_lt a b h = ground arith

abbrev pub Moves : ScanState → ScanState → Type 0
Moves a b = (b ≡ a) ⊎ (rank b < rank a)

pub meet-Moves : (a b : ScanState) → Moves a (meet a b)
meet-Moves a b =
    elim (or_true (same (meet a b) a) (ltb (rank (meet a b)) (rank a)) (narrows_all a b)) [
      | inl e ↦ inl (same_iff e)
      | inr e ↦ inr (ltb_lt (rank (meet a b)) (rank a) e)
    ]

rank_trans : (x y z : ℕ) → y ≡ x → z < y → z < x
rank_trans x y z e h = omega arith

rank_first : (x y z : ℕ) → z ≡ y → y < x → z < x
rank_first x y z e h = omega arith

pub Moves-trans : (a b c : ScanState) → Moves a b → Moves b c → Moves a c
Moves-trans a b c (inl e) (inl f) = inl (f ∙ e)
Moves-trans a b c (inl e) (inr f) = inr (rank_trans (rank a) (rank b) (rank c) (ap rank e) f)
Moves-trans a b c (inr e) (inl f) = inr (rank_first (rank a) (rank b) (rank c) (ap rank f) e)
Moves-trans a b c (inr e) (inr f) = inr (omega arith)

pub rank_bound : (s : ScanState) → rank s < 10
unfolding rank
rank_bound s = ltb_lt (rank s) 10 (on_states (λ a. ltb (rank a) 10) refl s)
