-- ===== src/Symbol/Follow.antt =====
-- The walk along imports in parser/src/symbol.rs: its visited set, its end, and what it finds.
use perloxide.Prelude.{
  ℕ, zero, suc, ◌+◌, ◌≤◌, ◌<◌, ◌≡◌, refl, sym, ap, ◌∙◌, ◌≢◌, ◌↔◌, inl, inr, true, false, ◌&&◌, ◌||◌,
  some, List, [], ◌∷◌, ◌++◌, if◌then◌else◌, length, arith, Bool-cases, same_bytes, same_bytes-eq,
  same_bytes_refl,
}
use perloxide.Symbol.Table.{
  Name, find, SubInfo, ImportTarget, Namespace, SymbolTable, get, seen, found, out_of_fuel,
  resolve_loop, resolve, import_keys, keys_of,
}
use perloxide.Symbol.Resolve.{
  import_at, Denotes, own, imported, sub_found, follow, dead_end, Round-cases, loop_seen, loop_sub,
  loop_follow, loop_dead, resolve_loop-Denotes, Denotes-unique,
}

-- How many of the keys have not been visited.
unseen : List (Name × Name) → List (Name × Name) → ℕ
unseen [] visited = 0
unseen (k ∷ ks) visited =
    if seen k.0 k.1 visited then unseen ks visited else suc (unseen ks visited)

unseen-le :
    (ks : List (Name × Name)) (k : Name × Name) (visited : List (Name × Name))
    → unseen ks (k ∷ visited) ≤ unseen ks visited
unfolding unseen seen
unseen-le [] k visited = omega arith
unseen-le (j ∷ ks) k visited = ground (arith, unseen-le ks k visited)

unseen-nil : (ks : List (Name × Name)) → unseen ks [] ≡ length ks
unfolding unseen seen
unseen-nil [] = refl
unseen-nil (j ∷ ks) = ap suc (unseen-nil ks)

seen_self :
    (pkg bare : Name) (visited : List (Name × Name)) → seen pkg bare ((pkg, bare) ∷ visited) ≡ true
unfolding seen
seen_self pkg bare visited = ground (arith, same_bytes_refl pkg, same_bytes_refl bare)

seen_more :
    (pkg bare : Name) (k : Name × Name) (visited : List (Name × Name))
    → seen pkg bare visited ≡ true
    → seen pkg bare (k ∷ visited) ≡ true
unfolding seen
seen_more pkg bare k visited h = ground arith

seen_skip :
    (pkg bare p b : Name) (ks : List (Name × Name))
    → (same_bytes pkg p && same_bytes bare b) ≡ false
    → seen pkg bare ((p, b) ∷ ks) ≡ true
    → seen pkg bare ks ≡ true
unfolding seen
seen_skip pkg bare p b ks there h = ground arith

-- Visiting a key that is new and among the keys leaves fewer.
unseen-lt :
    (ks : List (Name × Name)) (pkg bare : Name) (visited : List (Name × Name))
    → seen pkg bare ks ≡ true
    → seen pkg bare visited ≡ false
    → unseen ks ((pkg, bare) ∷ visited) < unseen ks visited
unfolding unseen
unseen-lt [] pkg bare visited h fresh = unfold seen in cc
unseen-lt ((p, b) ∷ ks) pkg bare visited h fresh =
    elim (Bool-cases (same_bytes pkg p && same_bytes bare b)) [
      | inl here ↦
          let same_p : pkg ≡ p = same_bytes-eq pkg p (ground arith) in
          let same_b : bare ≡ b = same_bytes-eq bare b (ground arith) in
          rw (← same_p, ← same_b, seen_self pkg bare visited, fresh)
            (omega (arith, unseen-le ks (pkg, bare) visited))
      | inr there ↦
          let rest = unseen-lt ks pkg bare visited (seen_skip pkg bare p b ks there h) fresh in
          ground (arith, rest, seen_more p b (pkg, bare) visited)
    ]

keys_of-seen :
    (j pkg bare : Name) (imports : List (Name × ImportTarget)) (target : ImportTarget)
    → same_bytes pkg j ≡ true
    → find bare imports ≡ some target
    → seen pkg bare (keys_of j imports) ≡ true
unfolding keys_of seen find
keys_of-seen j pkg bare [] target s e = cc
keys_of-seen j pkg bare ((b, t) ∷ imports) target s e =
    ground (arith, keys_of-seen j pkg bare imports target s)

seen-append :
    (pkg bare : Name) (ks ls : List (Name × Name))
    → seen pkg bare (ks ++ ls) ≡ (seen pkg bare ks || seen pkg bare ls)
unfolding seen
seen-append pkg bare [] ls = refl
seen-append pkg bare (k ∷ ks) ls = ground (arith, seen-append pkg bare ks ls)

module _ (j pkg bare : Name) (ns : Namespace) (table : SymbolTable) where
  import_at_head :
      same_bytes pkg j ≡ true → import_at ((j, ns) ∷ table) pkg bare ≡ find bare ns.imports
  unfolding import_at get find
  import_at_head h = ground arith

  import_at_tail :
      same_bytes pkg j ≡ false → import_at ((j, ns) ∷ table) pkg bare ≡ import_at table pkg bare
  unfolding import_at get find
  import_at_tail h = ground arith

  import_keys-cons :
      seen pkg bare (import_keys ((j, ns) ∷ table))
      ≡ (seen pkg bare (keys_of j ns.imports) || seen pkg bare (import_keys table))
  unfolding import_keys
  import_keys-cons = seen-append pkg bare (keys_of j ns.imports) (import_keys table)

import_keys-seen :
    (table : SymbolTable) (pkg bare : Name) (target : ImportTarget)
    → import_at table pkg bare ≡ some target
    → seen pkg bare (import_keys table) ≡ true
import_keys-seen [] pkg bare target e = unfold import_at get find in cc
import_keys-seen ((j, ns) ∷ table) pkg bare target e = elim (Bool-cases (same_bytes pkg j)) [
  | inl here ↦
      let own_key =
        keys_of-seen j pkg bare ns.imports target here
          (sym (import_at_head j pkg bare ns table here) ∙ e) in
      import_keys-cons j pkg bare ns table ∙ ground (arith, own_key)
  | inr there ↦
      let later =
        import_keys-seen table pkg bare target
          (sym (import_at_tail j pkg bare ns table there) ∙ e) in
      import_keys-cons j pkg bare ns table ∙ ground (arith, later)
]

loop_ends :
    (fuel : ℕ) (table : SymbolTable) (pkg bare : Name) (visited : List (Name × Name))
    → unseen (import_keys table) visited < fuel
    → resolve_loop fuel table pkg bare visited ≢ out_of_fuel
loop_ends zero table pkg bare visited h = absurd (omega arith)
loop_ends (suc fuel) table pkg bare visited h = elim (Bool-cases (seen pkg bare visited)) [
  | inl again ↦ rw (loop_seen fuel table pkg bare visited again) (λ e. cc)
  | inr fresh ↦ elim (Round-cases table pkg bare) [
    | sub_found info s ↦ rw (loop_sub fuel table pkg bare visited info fresh s) (λ e. cc)
    | dead_end s i ↦ rw (loop_dead fuel table pkg bare visited fresh s i) (λ e. cc)
    | follow target s i ↦ rw (loop_follow fuel table pkg bare visited target fresh s i) (
        loop_ends fuel table target.pkg target.name ((pkg, bare) ∷ visited) (
          omega (
            arith,
            unseen-lt (import_keys table) pkg bare visited
                (import_keys-seen table pkg bare target i) fresh,
          )))
  ]
]

-- More fuel changes no answer.
loop_more :
    (fuel more : ℕ) (table : SymbolTable) (pkg bare : Name) (visited : List (Name × Name))
    → fuel ≤ more
    → resolve_loop fuel table pkg bare visited ≢ out_of_fuel
    → resolve_loop more table pkg bare visited ≡ resolve_loop fuel table pkg bare visited
loop_more zero more table pkg bare visited h e = absurd (e (unfold resolve_loop in refl))
loop_more (suc fuel) zero table pkg bare visited h e = absurd (omega arith)
loop_more (suc fuel) (suc more) table pkg bare visited h e =
    elim (Bool-cases (seen pkg bare visited)) [
      | inl again ↦
          loop_seen more table pkg bare visited again
          ∙ sym (loop_seen fuel table pkg bare visited again)
      | inr fresh ↦ elim (Round-cases table pkg bare) [
        | sub_found info s ↦
            loop_sub more table pkg bare visited info fresh s
            ∙ sym (loop_sub fuel table pkg bare visited info fresh s)
        | dead_end s i ↦
            loop_dead more table pkg bare visited fresh s i
            ∙ sym (loop_dead fuel table pkg bare visited fresh s i)
        | follow target s i ↦
            let step = loop_follow fuel table pkg bare visited target fresh s i in
            loop_follow more table pkg bare visited target fresh s i
            ∙ loop_more fuel more table target.pkg target.name ((pkg, bare) ∷ visited) (omega arith)
                (λ x. e (step ∙ x))
            ∙ sym step
      ]
    ]

-- Every visited key denotes what it denotes over more imports than are left.
abbrev Ahead : SymbolTable → ℕ → List (Name × Name) → Type 0
Ahead table n visited =
    (pkg bare : Name) (m : ℕ) (info : SubInfo)
    → seen pkg bare visited ≡ true
    → Denotes table m pkg bare info
    → n < m

Ahead-cons :
    (table : SymbolTable) (n : ℕ) (pkg bare : Name) (info : SubInfo) (visited : List (Name × Name))
    → Denotes table (suc n) pkg bare info
    → Ahead table (suc n) visited
    → Ahead table n ((pkg, bare) ∷ visited)
Ahead-cons table n pkg bare info visited d ahead p b m j s d' =
    elim (Bool-cases (same_bytes p pkg && same_bytes b bare)) [
      | inl same ↦
          let same_p : p ≡ pkg = same_bytes-eq p pkg (ground arith) in
          let same_b : b ≡ bare = same_bytes-eq b bare (ground arith) in
          omega (arith, (Denotes-unique table (suc n) m d (rw (same_p, same_b) at d')).0)
      | inr other ↦ omega (arith, ahead p b m j (seen_skip p b pkg bare visited other s) d')
    ]

Ahead-fresh :
    (table : SymbolTable) (n : ℕ) (pkg bare : Name) (info : SubInfo) (visited : List (Name × Name))
    → Denotes table n pkg bare info
    → Ahead table n visited
    → seen pkg bare visited ≡ false
Ahead-fresh table n pkg bare info visited d ahead = elim (Bool-cases (seen pkg bare visited)) [
  | inl again ↦ absurd (omega (arith, ahead pkg bare n info again d))
  | inr fresh ↦ fresh
]

loop_finds :
    (n fuel : ℕ) (table : SymbolTable) (pkg bare : Name) (visited : List (Name × Name))
    (info : SubInfo)
    → n < fuel
    → Denotes table n pkg bare info
    → Ahead table n visited
    → resolve_loop fuel table pkg bare visited ≡ found info
loop_finds n zero table pkg bare visited info h d ahead = absurd (omega arith)
loop_finds zero (suc fuel) table pkg bare visited info h (own s) ahead =
    loop_sub fuel table pkg bare visited info
      (Ahead-fresh table zero pkg bare info visited (own s) ahead) s
loop_finds (suc n) (suc fuel) table pkg bare visited info h (imported target s i d) ahead =
    let here = imported target s i d in
    loop_follow fuel table pkg bare visited target
      (Ahead-fresh table (suc n) pkg bare info visited here ahead) s i
    ∙ loop_finds n fuel table target.pkg target.name ((pkg, bare) ∷ visited) info (omega arith) d
        (Ahead-cons table n pkg bare info visited here ahead)

-- `resolve` ends on every table, cycles of imports included, and finds a sub exactly where the name
-- denotes it.
pub resolve_exact :
    (table : SymbolTable) (pkg bare : Name) (info : SubInfo)
    → (resolve table pkg bare ≢ out_of_fuel)
      × ((resolve table pkg bare ≡ found info) ↔ ((n : ℕ) × Denotes table n pkg bare info))
unfolding resolve
resolve_exact table pkg bare info =
    let fuel = suc (length (import_keys table)) in
    let ends = loop_ends fuel table pkg bare [] (omega (arith, unseen-nil (import_keys table))) in
    (
      ends,
      (
        resolve_loop-Denotes fuel table pkg bare [] info,
        λ (n, d).
            sym (loop_more fuel (fuel + n) table pkg bare [] (omega arith) ends)
            ∙ loop_finds n (fuel + n) table pkg bare [] info (omega arith) d
                (λ p b m j s d'. unfold seen in cc),
      ),
    )
