-- ===== src/Symbol/Update.antt =====
-- `import` and `declare_sub` of parser/src/symbol.rs, and the lookups after them.
use perloxide.Prelude.{
  some_inj, ℕ, zero, suc, ◌≡◌, refl, sym, ◌∙◌, ◌↔◌, inl, inr, Bool, false, Option, none, some, List,
  [], ◌∷◌, arith, Bool-cases, Option-cases, same_bytes, same_bytes-eq, same_bytes_refl,
}
use perloxide.Symbol.Prototype.{SubPrototype}
use perloxide.Symbol.Table.{
  Name, find, put, SubInfo, ImportTarget, Namespace, new_namespace, declare_sub, declare,
  SymbolTable, get, entry, store, import, found, resolve,
}
use perloxide.Symbol.Resolve.{sub_at, import_at, Denotes, own, imported}
use perloxide.Symbol.Follow.{resolve_exact}

module _ {ℓ} {V : Type ℓ} where
  find-put_same : (k : Name) (v : V) (m : List (Name × V)) → find k (put k v m) ≡ some v
  unfolding find put
  find-put_same k v [] = rw (same_bytes_refl k) refl
  find-put_same k v ((j, w) ∷ m) = elim (Bool-cases (same_bytes k j)) [
    | inl hit ↦ rw (put, hit, find, same_bytes_refl k) refl
    | inr miss ↦ rw (put, miss, find, miss) (find-put_same k v m)
  ]

  find-put_other :
      (i k : Name) (v : V) (m : List (Name × V))
      → same_bytes i k ≡ false
      → find i (put k v m) ≡ find i m
  unfolding find put
  find-put_other i k v [] h = rw h refl
  find-put_other i k v ((j, w) ∷ m) h = elim (Bool-cases (same_bytes k j)) [
    | inl hit ↦
        let same : k ≡ j = same_bytes-eq k j hit in rw (put, hit, find, h, find, ← same, h) refl
    | inr miss ↦ rw (put, miss, find) (ground (arith, find-put_other i k v m h))
  ]

-- `entry` adds nothing that a lookup finds.
entry-get :
    (table : SymbolTable) (pkg : Name) → get (entry table pkg).0 pkg ≡ some (entry table pkg).1
unfolding get entry
entry-get table pkg = elim (Option-cases (find pkg table)) [
  | inl missing ↦ rw (entry, missing) (find-put_same pkg (new_namespace pkg) table)
  | inr (ns, present) ↦ rw (entry, present) present
]

module _ (table : SymbolTable) (pkg bare : Name) where
  sub_at-get :
      (ns : Namespace) → get table pkg ≡ some ns → sub_at table pkg bare ≡ find bare ns.subs
  unfolding sub_at
  sub_at-get ns e = rw (sub_at, e) refl

  sub_at-missing : get table pkg ≡ none → sub_at table pkg bare ≡ none
  unfolding sub_at
  sub_at-missing e = rw (sub_at, e) refl

  import_at-get :
      (ns : Namespace) → get table pkg ≡ some ns → import_at table pkg bare ≡ find bare ns.imports
  unfolding import_at
  import_at-get ns e = rw (import_at, e) refl

  sub_at-same_get :
      (other : SymbolTable)
      → get other pkg ≡ get table pkg
      → sub_at other pkg bare ≡ sub_at table pkg bare
  unfolding sub_at
  sub_at-same_get other e = ground (arith, e)

new_namespace-find : (q bare : Name) → find bare (new_namespace q).subs ≡ none
unfolding new_namespace find
new_namespace-find q bare = refl

sub_at-entry :
    (table : SymbolTable) (q pkg bare : Name)
    → sub_at (entry table q).0 pkg bare ≡ sub_at table pkg bare
unfolding entry get
sub_at-entry table q pkg bare = elim (Option-cases (find q table)) [
  | inr (ns, present) ↦ rw (entry, present) refl
  | inl missing ↦
      rw (entry, missing)
        (elim (Bool-cases (same_bytes pkg q)) [
          | inr other ↦
              sub_at-same_get table pkg bare _ (find-put_other pkg q (new_namespace q) table other)
          | inl same ↦
              let it : q ≡ pkg = sym (same_bytes-eq pkg q same) in
              sub_at-get _ pkg bare (new_namespace q)
                (rw it (find-put_same pkg (new_namespace pkg) table))
              ∙ new_namespace-find q bare
              ∙ sym (sub_at-missing table pkg bare (rw it at missing))
        ])
]

-- The subs of the namespace that `entry` hands out.
entry-subs :
    (table : SymbolTable) (pkg bare : Name)
    → find bare (entry table pkg).1.subs ≡ sub_at table pkg bare
entry-subs table pkg bare =
    sym (sub_at-get (entry table pkg).0 pkg bare (entry table pkg).1 (entry-get table pkg))
    ∙ sub_at-entry table pkg pkg bare

get-store :
    (table : SymbolTable) (pkg : Name) (ns : Namespace) → get (store table pkg ns) pkg ≡ some ns
unfolding get store
get-store table pkg ns = find-put_same pkg ns table

module _ (table : SymbolTable) (into local_name from name : Name) where
  abbrev imported_table : SymbolTable
  imported_table = import table into local_name from name

  import-sub_at : sub_at imported_table into local_name ≡ sub_at table into local_name
  unfolding import
  import-sub_at =
      sub_at-get imported_table into local_name _
        (get-store (entry (entry table from).0 into).0 into _)
      ∙ entry-subs (entry table from).0 into local_name
      ∙ sub_at-entry table from into local_name

  import-import_at :
      import_at imported_table into local_name ≡ some (record { pkg = from; name = name })
  unfolding import
  import-import_at =
      import_at-get imported_table into local_name _
        (get-store (entry (entry table from).0 into).0 into _)
      ∙ find-put_same local_name _ (entry (entry table from).0 into).1.imports

-- What a name without a sub of its own denotes, its import denotes.
Denotes-import_at :
    (table : SymbolTable) (n : ℕ) {pkg bare : Name} {info : SubInfo} (target : ImportTarget)
    → sub_at table pkg bare ≡ none
    → import_at table pkg bare ≡ some target
    → Denotes table n pkg bare info
    → (m : ℕ) × Denotes table m target.pkg target.name info
Denotes-import_at table zero target s i (own d) = cc
Denotes-import_at table (suc n) target s i (imported t q r d) =
    let same : t ≡ target = some_inj (sym r ∙ i) in (n, rw same at d)

resolve_through :
    (table : SymbolTable) (pkg bare : Name) (target : ImportTarget) (info : SubInfo)
    → sub_at table pkg bare ≡ none
    → import_at table pkg bare ≡ some target
    → (resolve table pkg bare ≡ found info) ↔ (resolve table target.pkg target.name ≡ found info)
resolve_through table pkg bare target info s i =
    let here = (resolve_exact table pkg bare info).1 in
    let there = (resolve_exact table target.pkg target.name info).1 in
    (
      λ e. there.1 (let (n, d) = here.0 e in Denotes-import_at table n target s i d),
      λ e. here.1 (let (n, d) = there.0 e in (suc n, imported target s i d)),
    )

-- After an import of a name under a local name, of which the package has no sub of its own, the
-- local name resolves to a sub exactly where the imported name does.
pub import_resolves :
    (table : SymbolTable) (into local_name from name : Name) (info : SubInfo)
    → sub_at table into local_name ≡ none
    → (resolve (import table into local_name from name) into local_name ≡ found info)
      ↔ (resolve (import table into local_name from name) from name ≡ found info)
import_resolves table into local_name from name info s =
    resolve_through (import table into local_name from name) into local_name
      (record { pkg = from; name = name }) info (import-sub_at table into local_name from name ∙ s)
      (import-import_at table into local_name from name)

-- Where the package has a sub of its own under the local name, an import changes nothing: the local
-- name goes on resolving to that sub.
pub import_shadowed :
    (table : SymbolTable) (into local_name from name : Name) (mine : SubInfo)
    → sub_at table into local_name ≡ some mine
    → resolve (import table into local_name from name) into local_name ≡ found mine
import_shadowed table into local_name from name mine s =
    (resolve_exact (import table into local_name from name) into local_name mine).1.1
      (0, own (import-sub_at table into local_name from name ∙ s))

-- A declared sub is what its name resolves to, whatever stood there before.
pub declare_resolves :
    (table : SymbolTable) (pkg bare : Name) (prototype : Option SubPrototype)
    (attributes : List Name) (forward : Bool)
    → resolve (declare table pkg bare prototype attributes forward) pkg bare
      ≡ found (record {
        name = bare;
        prototype = prototype;
        attributes = attributes;
        forward_declaration = forward;
      })
unfolding declare declare_sub
declare_resolves table pkg bare prototype attributes forward =
    (resolve_exact (declare table pkg bare prototype attributes forward) pkg bare _).1.1 (
      0,
      own (
          sub_at-get _ pkg bare _ (get-store (entry table pkg).0 pkg _)
          ∙ find-put_same bare _ (entry table pkg).1.subs),
    )
