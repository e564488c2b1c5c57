-- ===== src/Symbol/Table.antt =====
-- The symbol table of parser/src/symbol.rs. A name is the list of its bytes, and a map is a list
-- of entries, of which the first for a key counts; no operation depends on the order of keys.
use perloxide.Prelude.{
  ℕ, zero, suc, ◌+◌, Bool, true, false, ◌&&◌, Option, none, some, List, [], ◌∷◌, ◌++◌, ◌==◌,
  if◌then◌else◌, length, take, drop, any, same_bytes,
}
use perloxide.Symbol.Prototype.{SubPrototype}

abbrev pub Name : Type 0
Name = List ℕ

module _ {ℓ} {V : Type ℓ} where
  -- `get`
  unfoldable pub find : Name → List (Name × V) → Option V
  find k [] = none
  find k ((j, v) ∷ m) = if same_bytes k j then some v else find k m

  -- `insert`
  unfoldable pub put : Name → V → List (Name × V) → List (Name × V)
  put k v [] = (k, v) ∷ []
  put k v ((j, w) ∷ m) = if same_bytes k j then (k, v) ∷ m else (j, w) ∷ put k v m

pub record SubInfo : Type 0 where
  pub name : Name
  pub prototype : Option SubPrototype
  pub attributes : List Name
  pub forward_declaration : Bool

pub record ImportTarget : Type 0 where
  pub pkg : Name
  pub name : Name

pub record Namespace : Type 0 where
  pub name : Name
  pub subs : List (Name × SubInfo)
  pub imports : List (Name × ImportTarget)

-- `Namespace::new`
unfoldable pub new_namespace : Name → Namespace
new_namespace name = record { name = name; subs = []; imports = [] }

unfoldable pub lookup_sub : Namespace → Name → Option SubInfo
lookup_sub ns bare_name = find bare_name ns.subs

unfoldable pub declare_sub : Namespace → Name → Option SubPrototype → List Name → Bool → Namespace
declare_sub ns bare_name prototype attributes forward_declaration = record ns {
  subs =
      put bare_name
        (record {
          name = bare_name;
          prototype = prototype;
          attributes = attributes;
          forward_declaration = forward_declaration;
        })
        ns.subs;
}

abbrev pub SymbolTable : Type 0
SymbolTable = List (Name × Namespace)

-- `SymbolTable::new`
abbrev pub new_table : SymbolTable
new_table = []

-- `get` and `get_mut`
unfoldable pub get : SymbolTable → Name → Option Namespace
get table pkg = find pkg table

-- `entry`: the table with the package in it, and its namespace.
unfoldable pub entry : SymbolTable → Name → SymbolTable × Namespace
entry table pkg = elim (find pkg table) [
  | some ns ↦ (table, ns)
  | none ↦ (put pkg (new_namespace pkg) table, new_namespace pkg)
]

-- A write through the reference that `entry` or `get_mut` hands out.
unfoldable pub store : SymbolTable → Name → Namespace → SymbolTable
store table pkg ns = put pkg ns table

-- The table after `entry(pkg).declare_sub(…)`.
unfoldable pub declare :
    SymbolTable → Name → Name → Option SubPrototype → List Name → Bool → SymbolTable
declare table pkg bare prototype attributes forward =
    let (table', ns) = entry table pkg in
    store table' pkg (declare_sub ns bare prototype attributes forward)

unfoldable pub import : SymbolTable → Name → Name → Name → Name → SymbolTable
import table into_package local_name from_package from_name =
    let (table', _) = entry table from_package in
    let (table'', ns) = entry table' into_package in
    store table'' into_package (record ns {
      imports = put local_name (record { pkg = from_package; name = from_name }) ns.imports;
    })

-- `packages`, in the order of the entries.
unfoldable pub packages : SymbolTable → List Namespace
packages [] = []
packages ((pkg, ns) ∷ table) = ns ∷ packages table

-- `visited.insert` finds the pair there.
unfoldable pub seen : Name → Name → List (Name × Name) → Bool
seen pkg bare visited = any (λ (k : Name × Name). same_bytes pkg k.0 && same_bytes bare k.1) visited

pub data Resolved : Type 0 where
  found : SubInfo → Resolved
  not_found out_of_fuel : Resolved

-- The loop of `resolve`.
unfoldable pub resolve_loop : ℕ → SymbolTable → Name → Name → List (Name × Name) → Resolved
resolve_loop zero table pkg bare visited = out_of_fuel
resolve_loop (suc fuel) table pkg bare visited = elim (seen pkg bare visited) [
  | true ↦ not_found
  | false ↦ elim (get table pkg) [
    | none ↦ not_found
    | some ns ↦ elim (find bare ns.subs) [
      | some info ↦ found info
      | none ↦ elim (find bare ns.imports) [
        | none ↦ not_found
        | some target ↦ resolve_loop fuel table target.pkg target.name ((pkg, bare) ∷ visited)
      ]
    ]
  ]
]

-- Every key that a round can leave by an import.
unfoldable pub keys_of : Name → List (Name × ImportTarget) → List (Name × Name)
keys_of pkg [] = []
keys_of pkg ((bare, t) ∷ imports) = (pkg, bare) ∷ keys_of pkg imports

unfoldable pub import_keys : SymbolTable → List (Name × Name)
unfolding keys_of
import_keys [] = []
import_keys ((pkg, ns) ∷ table) = keys_of pkg ns.imports ++ import_keys table

-- `resolve`: each round but the last leaves another import behind.
unfoldable pub resolve : SymbolTable → Name → Name → Resolved
resolve table pkg bare = resolve_loop (suc (length (import_keys table))) table pkg bare []

-- `name.rfind("::")`
unfoldable pub rfind_separator : Name → Option ℕ
rfind_separator [] = none
rfind_separator (c ∷ []) = none
rfind_separator (c ∷ d ∷ rest) = elim (rfind_separator (d ∷ rest)) [
  | some k ↦ some (suc k)
  | none ↦ if c == b':' && d == b':' then some 0 else none
]

unfoldable pub split_qualified_name : Name → Name → Name × Name
split_qualified_name name default_package = elim (rfind_separator name) [
  | some idx ↦ (take idx name, drop (idx + 2) name)
  | none ↦ (default_package, name)
]

unfoldable pub lookup : SymbolTable → Name → Name → Resolved
lookup table name default_package =
    let (pkg, bare) = split_qualified_name name default_package in resolve table pkg bare
