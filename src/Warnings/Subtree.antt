-- ===== src/Warnings/Subtree.antt =====
-- The subtree relation that pragma expansion walks: `within` of core/src/warnings.rs against the
-- reflexive and transitive closure of `parent`.
use perloxide.Prelude.{
  ℕ, zero, suc, ◌≤◌, ◌<◌, ◌≡◌, refl, ◌↔◌, Bool, true, none, some, inl, inr, arith, Bool-cases,
  Option-cases, ◌≢◌, some_inj, false, ◌∙◌, ap,
}
use perloxide.Warnings.Category.{WarningCategory, all, deprecated, bit, same_category}
use perloxide.Warnings.Codes.{same_category_iff}
use perloxide.Warnings.Tree.{parent, default_enabled, within, within_loop}

-- `c` is `a`, or some parent's walk from `c` meets `a`.
pub data Within (a : WarningCategory) : WarningCategory → Type 0 where
  here : Within a a
  up : {c d : WarningCategory} → parent c ≡ some d → Within a d → Within a c

-- Three rounds are enough.
within-ne-none : (c a : WarningCategory) → within c a ≢ none
unfolding within parent
within-ne-none all a h = ground arith
within-ne-none _ a h = ground arith

within_total : (c a : WarningCategory) → (r : Bool) × (within c a ≡ some r)
within_total c a = elim (Option-cases (within c a)) [
  | inl e ↦ absurd (within-ne-none c a e)
  | inr r ↦ r
]

-- A parent's bit is below its child's.
bit-parent : (c p : WarningCategory) → parent c ≡ some p → bit p < bit c
unfolding parent bit
bit-parent all p e = cc
bit-parent _ p e = rw (← some_inj e) (omega arith)

-- Whatever ends with `true` has met the ancestor.
within_loop-Within :
    (fuel : ℕ) (c a : WarningCategory) → within_loop fuel c a ≡ some true → Within a c
unfolding within_loop
within_loop-Within zero c a e = cc
within_loop-Within (suc fuel) c a e = elim (Bool-cases (same_category c a)) [
  | inl met ↦ rw ((same_category_iff c a).0 met) here
  | inr other ↦ elim (Option-cases (parent c)) [
    | inl root ↦ cc (rw (other, root) at e)
    | inr (d, p) ↦ up p (within_loop-Within fuel d a (rw (other, p) at e))
  ]
]

Within-within_loop :
    (fuel : ℕ) (r : Bool) {c a : WarningCategory}
    → Within a c
    → within_loop fuel c a ≡ some r
    → r ≡ true
unfolding within_loop
Within-within_loop zero r w e = cc
Within-within_loop (suc fuel) r (here) e = cc (rw ((same_category_iff _ _).1 refl) at e)
Within-within_loop (suc fuel) r {c} {a} (up {d = d} p w) e = elim (Bool-cases (same_category c a)) [
  | inl met ↦ cc (rw met at e)
  | inr other ↦ Within-within_loop fuel r w (rw (other, p) at e)
]

-- `within` returns on every pair, and answers `true` exactly in the ancestor's subtree.
pub within_iff :
    (c a : WarningCategory)
    → ((r : Bool) × (within c a ≡ some r)) × ((within c a ≡ some true) ↔ Within a c)
unfolding within
within_iff c a = (
  within_total c a,
  (
    within_loop-Within 3 c a,
    λ w. let (r, e) = within_total c a in cc (e, Within-within_loop 3 r w e),
  ),
)

Within-trans : {a b c : WarningCategory} → Within a b → Within b c → Within a c
Within-trans v here = v
Within-trans v (up p w) = up p (Within-trans v w)

bit-Within : {a c : WarningCategory} → Within a c → bit a ≤ bit c
bit-Within here = omega arith
bit-Within (up {c = c} {d = d} p w) = omega (arith, bit-parent c d p, bit-Within w)

all-Within : (c : WarningCategory) → Within all c
unfolding within parent same_category
all-Within all = here
all-Within c = (within_iff c all).1.0 refl

not-Within-parent : (c d : WarningCategory) → parent c ≡ some d → ¬ Within c d
not-Within-parent c d p w = omega (arith, bit-parent c d p, bit-Within w)

-- From the parent of a category `within` finds `all` and does not find the category again, and no walk
-- along parents leads back to it: the parent links have no cycle, and all end in `all`.
pub parent-Within :
    (c d : WarningCategory)
    → parent c ≡ some d
    → (within d all ≡ some true) × (within d c ≡ some false) × (¬ Within c d)
parent-Within c d p =
    let (answer, e) = within_total d c in
    (
      (within_iff d all).1.1 (all-Within d),
      elim (Bool-cases answer) [
        | inl met ↦ absurd (not-Within-parent c d p ((within_iff d c).1.0 (e ∙ ap some met)))
        | inr missed ↦ e ∙ ap some missed
      ],
      not-Within-parent c d p,
    )

-- Subtrees nest, and that of `all` holds every category.
subtrees_nest : {a b c : WarningCategory} → Within a b → Within b c → Within a c × Within all c
subtrees_nest {c = c} v w = (Within-trans v w, all-Within c)

deprecated_default_aux :
    (c : WarningCategory) → within c deprecated ≡ some true → default_enabled c ≡ true
unfolding within parent same_category default_enabled
deprecated_default_aux all e = cc
deprecated_default_aux _ e = ground arith

-- Perl enables the whole `deprecated` subtree with no pragma in effect.
pub deprecated_default : (c : WarningCategory) → Within deprecated c → default_enabled c ≡ true
deprecated_default c w = deprecated_default_aux c ((within_iff c deprecated).1.1 w)
