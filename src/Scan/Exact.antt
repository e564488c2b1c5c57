-- ===== src/Scan/Exact.antt =====
-- The meet and the census of core/src/string.rs against what states assert of the classes of
-- content, by evaluation over every state.
use perloxide.Prelude.{◌≡◌, refl, ◌≢◌, ◌↔◌, Bool, true, false, ◌&&◌, not, ◌==◌, ==_iff, all, arith}
use perloxide.Scan.States.{ScanState, Terminal, unknown, as_u8}
use perloxide.Scan.Meet.{union, contradiction, meet}
use perloxide.Scan.Classes.{
  states, classes, every_state, every_class, asserts, ◌⇒◌, ⇒-elim, same, same-eq, holds_everywhere,
  everywhere,
}
use perloxide.Scan.Codes.{as_u8-injective}

-- The two certifications do not contradict one another.
abbrev Compatible : ScanState → ScanState → Type 0
Compatible a b = contradiction (union a b) ≡ false

not-true : {b : Bool} → b ≡ false → not b ≡ true
not-true h = ground arith

abbrev exact_at : ScanState → ScanState → Terminal → Bool
exact_at a b t =
    not (contradiction (union a b)) ⇒ same (asserts (meet a b) t) (asserts a t && asserts b t)

exact_table : holds_everywhere exact_at ≡ true
unfolding asserts meet contradiction same
exact_table = refl

-- Of two compatible states, the meet asserts of every class of content exactly what the two assert
-- together.
pub meet_exact :
    (a b : ScanState) (t : Terminal)
    → Compatible a b
    → asserts (meet a b) t ≡ (asserts a t && asserts b t)
meet_exact a b t h = same-eq _ _ (⇒-elim _ _ (everywhere exact_at exact_table a b t) (not-true h))

-- Some class of content meets both.
abbrev both_at : ScanState → ScanState → Terminal → Bool
both_at a b t = asserts a t && asserts b t

abbrev satisfiable : ScanState → ScanState → Bool
satisfiable a b = not (all (λ t. not (both_at a b t)) classes)

abbrev census_at : ScanState → ScanState → Bool
census_at a b = same (contradiction (union a b)) (not (satisfiable a b))

census_table : all (λ a. all (census_at a) states) states ≡ true
unfolding asserts union contradiction same
census_table = refl

census_eq : (a b : ScanState) → contradiction (union a b) ≡ not (satisfiable a b)
census_eq a b =
    same-eq _ _
      (every_state (census_at a) (every_state (λ a. all (census_at a) states) census_table a) b)

refuted :
    (p : Terminal → Bool)
    → not (not (all (λ t. not (p t)) classes)) ≡ true
    → (t : Terminal) → p t ≢ true
refuted p h t e = ground (arith, every_class (λ t. not (p t)) (ground arith) t)

not_satisfiable :
    (p : Terminal → Bool)
    → ((t : Terminal) → p t ≢ true)
    → not (not (all (λ t. not (p t)) classes)) ≡ true
not_satisfiable p h = ground (
  arith,
  h Terminal.ascii,
  h Terminal.utf8_latin1,
  h Terminal.utf8_non_latin1,
  h Terminal.extended_utf8,
  h Terminal.malformed_utf8,
)

-- The debug assertion refuses a pair of states exactly when no content meets both.
pub census_exact :
    (a b : ScanState)
    → (contradiction (union a b) ≡ true) ↔ ((t : Terminal) → (asserts a t && asserts b t) ≢ true)
census_exact a b = (
  λ h. refuted (both_at a b) (rw (← census_eq a b) h),
  λ none_meets. rw (census_eq a b) (not_satisfiable (both_at a b) none_meets),
)

abbrev assoc_at : ScanState → ScanState → ScanState → Bool
assoc_at a b c =
    (not (contradiction (union a b)) && not (contradiction (union (meet a b) c)))
    ⇒ (as_u8 (meet (meet a b) c) == as_u8 (meet a (meet b c)))

assoc_table : all (λ a. all (λ b. all (assoc_at a b) states) states) states ≡ true
unfolding meet contradiction as_u8
assoc_table = refl

meet_assoc :
    (a b c : ScanState)
    → Compatible a b
    → Compatible (meet a b) c
    → meet (meet a b) c ≡ meet a (meet b c)
meet_assoc a b c h k = as_u8-injective (
    (==_iff _ _).0 (
      ⇒-elim (not (contradiction (union a b)) && not (contradiction (union (meet a b) c))) _
        (every_state (assoc_at a b)
          (every_state (λ b. all (assoc_at a b) states)
            (every_state (λ a. all (λ b. all (assoc_at a b) states) states) assoc_table a) b)
          c)
        (ground arith)))

abbrev comm_at : ScanState → ScanState → Bool
comm_at a b = as_u8 (meet a b) == as_u8 (meet b a)

comm_table : all (λ a. all (comm_at a) states) states ≡ true
unfolding meet as_u8
comm_table = refl

meet_comm : (a b : ScanState) → meet a b ≡ meet b a
meet_comm a b = as_u8-injective (
    (==_iff _ _).0
      (every_state (comm_at a) (every_state (λ a. all (comm_at a) states) comm_table a) b))

pub meet_idem : (a : ScanState) → (meet a a ≡ a) × (meet unknown a ≡ a)
unfolding meet
meet_idem unknown = (refl, refl)
meet_idem _ = (refl, refl)

-- The meet is commutative and idempotent with `unknown` as its unit, and associative where the
-- certifications do not contradict one another.
pub meet_laws :
    (a b c : ScanState)
    → Compatible a b
    → Compatible (meet a b) c
    → (meet a b ≡ meet b a)
      × (meet a a ≡ a)
      × (meet unknown a ≡ a)
      × (meet (meet a b) c ≡ meet a (meet b c))
meet_laws a b c h k = (meet_comm a b, (meet_idem a).0, (meet_idem a).1, meet_assoc a b c h k)
