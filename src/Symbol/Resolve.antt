-- ===== src/Symbol/Resolve.antt =====
-- `resolve` of parser/src/symbol.rs against the chain of imports that it follows.
use perloxide.Prelude.{
  ℕ, zero, suc, ◌≡◌, refl, sym, ap, ◌∙◌, inl, inr, true, false, Option, none, some, List, ◌∷◌,
  arith, Bool-cases, Option-cases, some_inj,
}
use perloxide.Symbol.Table.{
  Name, find, SubInfo, ImportTarget, SymbolTable, get, seen, found, not_found, resolve_loop,
}

-- What a package holds under a name: a sub of its own, or an import.
unfoldable pub sub_at : SymbolTable → Name → Name → Option SubInfo
sub_at table pkg bare = elim (get table pkg) [ some ns ↦ find bare ns.subs | none ↦ none ]

unfoldable pub import_at : SymbolTable → Name → Name → Option ImportTarget
import_at table pkg bare = elim (get table pkg) [ some ns ↦ find bare ns.imports | none ↦ none ]

-- The sub that a name stands for: one of the package's own, or what its import stands for. The
-- number counts the imports on the way.
pub data Denotes (table : SymbolTable) : ℕ → Name → Name → SubInfo → Type 0 where
  own :
      {pkg bare : Name} {info : SubInfo}
      → sub_at table pkg bare ≡ some info
      → Denotes table 0 pkg bare info
  imported :
      {n : ℕ} {pkg bare : Name} {info : SubInfo} (target : ImportTarget)
      → sub_at table pkg bare ≡ none
      → import_at table pkg bare ≡ some target
      → Denotes table n target.pkg target.name info
      → Denotes table (suc n) pkg bare info

-- One round of the loop, by what the package holds.
pub data Round (table : SymbolTable) (pkg bare : Name) : Type 0 where
  sub_found : (info : SubInfo) → sub_at table pkg bare ≡ some info → Round table pkg bare
  follow :
      (target : ImportTarget)
      → sub_at table pkg bare ≡ none
      → import_at table pkg bare ≡ some target
      → Round table pkg bare
  dead_end : sub_at table pkg bare ≡ none → import_at table pkg bare ≡ none → Round table pkg bare

pub Round-cases : (table : SymbolTable) (pkg bare : Name) → Round table pkg bare
Round-cases table pkg bare = elim (Option-cases (sub_at table pkg bare)) [
  | inr (info, s) ↦ sub_found info s
  | inl s ↦ elim (Option-cases (import_at table pkg bare)) [
    | inr (target, i) ↦ follow target s i
    | inl i ↦ dead_end s i
  ]
]

module _ (fuel : ℕ) (table : SymbolTable) (pkg bare : Name) (visited : List (Name × Name)) where
  pub loop_seen :
      seen pkg bare visited ≡ true → resolve_loop (suc fuel) table pkg bare visited ≡ not_found
  unfolding resolve_loop
  loop_seen s = rw (resolve_loop, s)

  pub loop_sub :
      (info : SubInfo)
      → seen pkg bare visited ≡ false
      → sub_at table pkg bare ≡ some info
      → resolve_loop (suc fuel) table pkg bare visited ≡ found info
  unfolding resolve_loop sub_at
  loop_sub info s h = ground arith

  pub loop_follow :
      (target : ImportTarget)
      → seen pkg bare visited ≡ false
      → sub_at table pkg bare ≡ none
      → import_at table pkg bare ≡ some target
      → resolve_loop (suc fuel) table pkg bare visited
        ≡ resolve_loop fuel table target.pkg target.name ((pkg, bare) ∷ visited)
  unfolding resolve_loop sub_at import_at
  loop_follow target s h k = ground arith

  pub loop_dead :
      seen pkg bare visited ≡ false
      → sub_at table pkg bare ≡ none
      → import_at table pkg bare ≡ none
      → resolve_loop (suc fuel) table pkg bare visited ≡ not_found
  unfolding resolve_loop sub_at import_at
  loop_dead s h k = ground arith

found_inj : {i j : SubInfo} → found i ≡ found j → i ≡ j
found_inj e = cc

pub resolve_loop-Denotes :
    (fuel : ℕ) (table : SymbolTable) (pkg bare : Name) (visited : List (Name × Name))
    (info : SubInfo)
    → resolve_loop fuel table pkg bare visited ≡ found info
    → (n : ℕ) × Denotes table n pkg bare info
resolve_loop-Denotes zero table pkg bare visited info e = unfold resolve_loop in cc
resolve_loop-Denotes (suc fuel) table pkg bare visited info e =
    elim (Bool-cases (seen pkg bare visited)) [
      | inl again ↦ cc (loop_seen fuel table pkg bare visited again)
      | inr fresh ↦ elim (Round-cases table pkg bare) [
        | sub_found info' s ↦ (
          0,
          own (
              s
              ∙ ap some (found_inj (sym (loop_sub fuel table pkg bare visited info' fresh s) ∙ e))),
        )
        | dead_end s i ↦ cc (loop_dead fuel table pkg bare visited fresh s i)
        | follow target s i ↦
            let (n, d) =
              resolve_loop-Denotes fuel table target.pkg target.name ((pkg, bare) ∷ visited) info
                (sym (loop_follow fuel table pkg bare visited target fresh s i) ∙ e) in
            (suc n, imported target s i d)
      ]
    ]

-- A name denotes one sub, over one number of imports.
pub Denotes-unique :
    (table : SymbolTable) (n m : ℕ) {pkg bare : Name} {i j : SubInfo}
    → Denotes table n pkg bare i
    → Denotes table m pkg bare j
    → (n ≡ m) × (i ≡ j)
Denotes-unique table zero zero (own p) (own q) = (refl, some_inj (sym p ∙ q))
Denotes-unique table zero (suc m) (own p) (imported t q r d) = cc
Denotes-unique table (suc n) zero (imported t q r d) (own p) = cc
Denotes-unique table (suc n) (suc m) (imported t q r d) (imported t' q' r' d') =
    let same : t ≡ t' = some_inj (sym r ∙ r') in
    let (e, f) = Denotes-unique table n m d (rw (← same) at d') in (ap suc e, f)
