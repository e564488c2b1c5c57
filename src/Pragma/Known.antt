-- ===== src/Pragma/Known.antt =====
-- The features that the names of parser/src/pragma.rs resolve to.
use perloxide.Prelude.{
  ℕ, ◌≡◌, refl, true, some, List, [], ◌∷◌, ◌==◌, inl, inr, Bool-cases, Option-cases, some_inj,
  codes, same_bytes, same_bytes-eq, match_arms, match_arms-some,
}
use perloxide.Pragma.Features.{Features, contains, all_features}
use perloxide.Pragma.Members.{bundle-Lists}
use perloxide.Pragma.Names.{
  parse_u32, next_component, version_alias, resolve_bundle_alias, resolve_feature_name,
  feature_arms,
}

abbrev IsKnown : Features → Type 0
IsKnown f = contains all_features f ≡ true

arms-IsKnown :
    (name : List ℕ) (f : Features) → match_arms same_bytes feature_arms name ≡ some f → IsKnown f
unfolding contains
arms-IsKnown name f =
    match_arms-some same_bytes same_bytes-eq (λ k v. IsKnown v) feature_arms name f
      (assumption (refl, tt))

-- Only a version's bundle comes out.
version_alias-IsKnown : (tail : List ℕ) (f : Features) → version_alias tail ≡ some f → IsKnown f
unfolding version_alias
version_alias-IsKnown tail f e = elim (Option-cases (parse_u32 (next_component tail).0)) [
  | inl bad ↦ cc (rw (version_alias, bad) at e)
  | inr (major, first) ↦ elim (Option-cases (next_component tail).1) [
    | inl bad ↦ cc (rw (version_alias, first, bad) at e)
    | inr (more, second) ↦ elim (Option-cases (parse_u32 (next_component more).0)) [
      | inl bad ↦ cc (rw (version_alias, first, second, bad) at e)
      | inr (minor, last) ↦
          rw (← some_inj (rw (version_alias, first, second, last) at e))
            (bundle-Lists major minor).1
    ]
  ]
]

resolve_bundle_alias-IsKnown :
    (tail : List ℕ) (f : Features) → resolve_bundle_alias tail ≡ some f → IsKnown f
unfolding resolve_bundle_alias contains
resolve_bundle_alias-IsKnown tail f e = elim (Bool-cases (same_bytes tail (codes "all"))) [
  | inl all_name ↦ rw (← some_inj (rw (resolve_bundle_alias, all_name) at e)) refl
  | inr other ↦ elim (Bool-cases (same_bytes tail (codes "default"))) [
    | inl default_name ↦ rw (← some_inj (rw (resolve_bundle_alias, other, default_name) at e)) refl
    | inr version ↦ version_alias-IsKnown tail f (rw (resolve_bundle_alias, other, version) at e)
  ]
]

-- What any name resolves to is a set of known features.
pub resolve_feature_name-IsKnown :
    (name : List ℕ) (f : Features)
    → resolve_feature_name name ≡ some f
    → contains all_features f ≡ true
unfolding resolve_feature_name
resolve_feature_name-IsKnown [] f e = arms-IsKnown [] f e
resolve_feature_name-IsKnown (c ∷ cs) f e = elim (Bool-cases (c == b':')) [
  | inl alias ↦ resolve_bundle_alias-IsKnown cs f (rw (resolve_feature_name, alias) at e)
  | inr plain ↦ arms-IsKnown (c ∷ cs) f (rw (resolve_feature_name, plain) at e)
]
