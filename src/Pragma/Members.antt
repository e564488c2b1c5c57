-- ===== src/Pragma/Members.antt =====
-- The members of the version bundles of parser/src/pragma.rs, as a table: each feature's first
-- minor version, and the version that drops it.
use perloxide.Prelude.{
  and_true, ℕ, ◌<◌, ◌≡◌, refl, Bool, true, false, ◌&&◌, not, Option, none, some, List, [], ◌∷◌,
  ◌==◌, ltb, leb, if◌then◌else◌, arith, all, All,
}
use perloxide.Prelude.Bits.{all_below, below}
use perloxide.Pragma.Features.{
  Features, contains, remove, all_features, say, state, switch, smartmatch, evalbytes, current_sub,
  fc, postderef, postderef_qq, signatures, refaliasing, declared_refs, isa, try, defer, class,
  extra_paired_delimiters, bareword_filehandles, indirect, apostrophe_as_package_separator,
  multidimensional, unicode_strings, unicode_eval, bitwise, module_true, lexical_subs, keyword_any,
  keyword_all,
}
use perloxide.Pragma.Bundles.{
  version_bundle, even_bundle, bundle_5_16_through_22, bundle_5_24_through_26,
  bundle_5_28_through_34, bundle_5_36, bundle_5_38, bundle_5_40, bundle_5_42,
  bundle_5_10_through_14,
}

pub record Span : Type 0 where
  pub feature : Features
  pub since : ℕ
  pub dropped : Option ℕ

abbrev from : Features → ℕ → Span
from f n = record { feature = f; since = n; dropped = none }

abbrev until : Features → ℕ → ℕ → Span
until f n m = record { feature = f; since = n; dropped = some m }

abbrev never : Features → Span
never f = record { feature = f; since = 0; dropped = some 0 }

abbrev spans : List Span
spans =
    from say 10
    ∷ from state 10
    ∷ until switch 10 36
    ∷ until smartmatch 0 42
    ∷ from evalbytes 16
    ∷ from current_sub 16
    ∷ from fc 16
    ∷ never postderef
    ∷ from postderef_qq 24
    ∷ from signatures 36
    ∷ never refaliasing
    ∷ never declared_refs
    ∷ from isa 36
    ∷ from try 40
    ∷ never defer
    ∷ never class
    ∷ never extra_paired_delimiters
    ∷ until bareword_filehandles 0 38
    ∷ until indirect 0 36
    ∷ until apostrophe_as_package_separator 0 42
    ∷ until multidimensional 0 36
    ∷ from unicode_strings 12
    ∷ from unicode_eval 16
    ∷ from bitwise 28
    ∷ from module_true 38
    ∷ never lexical_subs
    ∷ never keyword_any
    ∷ never keyword_all
    ∷ []

-- The bundle of minor version `v` has the feature.
abbrev listed : Span → ℕ → Bool
listed s v = leb s.since v && elim s.dropped [ none ↦ true | some d ↦ ltb v d ]

-- The minor version that stands for a version: 0 is before any bundle, and 42 is the latest.
abbrev pub effective : ℕ → ℕ → ℕ
effective major minor =
    if ltb major 5 then 0 else if major == 5 then if ltb minor 42 then minor else 42 else 42

same_bit : Bool → Bool → Bool
same_bit true b = b
same_bit false b = not b

same_bit-eq : (a b : Bool) → same_bit a b ≡ true → a ≡ b
unfolding same_bit
same_bit-eq a b h = ground arith

-- The set is what the table lists at `v`.
abbrev pub Lists : Features → ℕ → Type 0
Lists f v =
    All (λ (s : Span). contains f s.feature ≡ listed s v) spans × (contains all_features f ≡ true)

lists : Features → ℕ → Bool
unfolding same_bit
lists f v =
    all (λ (s : Span). same_bit (contains f s.feature) (listed s v)) spans
    && contains all_features f

all-All :
    (f : Features) (v : ℕ) (ss : List Span)
    → all (λ (s : Span). same_bit (contains f s.feature) (listed s v)) ss ≡ true
    → All (λ (s : Span). contains f s.feature ≡ listed s v) ss
all-All f v [] h = tt
all-All f v (s ∷ ss) h =
    (same_bit-eq (contains f s.feature) (listed s v) (ground arith), all-All f v ss (ground arith))

lists-Lists : (f : Features) (v : ℕ) → lists f v ≡ true → Lists f v
unfolding lists
lists-Lists f v h =
    let (listed_all, known) = and_true _ _ h in (all-All f v spans listed_all, known)

table : all_below 43 (λ v. lists (version_bundle 5 v) v) ≡ true
unfolding lists same_bit version_bundle even_bundle bundle_5_10_through_14 bundle_5_16_through_22
    bundle_5_24_through_26 bundle_5_28_through_34 bundle_5_36 bundle_5_38 bundle_5_40 bundle_5_42
    contains remove
table = refl

effective_bundle :
    (major minor : ℕ) → version_bundle major minor ≡ version_bundle 5 (effective major minor)
unfolding version_bundle even_bundle
effective_bundle major minor = ground arith

effective-lt : (major minor : ℕ) → effective major minor < 43
effective-lt major minor = ground arith

-- The bundle of every version is what the table lists: each feature from its first version until it
-- is dropped, odd minor versions included, and nothing else.
pub bundle-Lists : (major minor : ℕ) → Lists (version_bundle major minor) (effective major minor)
bundle-Lists major minor = rw (effective_bundle major minor) (
    lists-Lists (version_bundle 5 (effective major minor)) (effective major minor) (
      below 43 (λ v. lists (version_bundle 5 v) v) table (effective major minor)
        (effective-lt major minor)))
