-- ===== src/Symbol/Examples.antt =====
-- Runs of parser/src/symbol.rs, and its theorems at one input each.
use perloxide.Prelude.{some, ◌≡◌, refl, ◌≢◌, ◌↔◌, ℕ, [], none, false, codes, length, same_bytes}
use perloxide.Symbol.Prototype.{
  parse, parse_loop, step, is_space, semicolon, ends_slurpy, is_slurpy, single_slot, push_slot,
  after_slurpy, error_at,
}
use perloxide.Symbol.Table.{
  SymbolTable, new_table, SubInfo, resolve, found, not_found, out_of_fuel, import, entry, store,
  declare_sub, lookup, new_namespace, put, find, get, seen, resolve_loop, import_keys, keys_of,
  split_qualified_name, rfind_separator,
}
use perloxide.Symbol.Shape.{Ends, IsPrototype, parse-Ends}
use perloxide.Symbol.Resolve.{sub_at, Denotes}
use perloxide.Symbol.Update.{import_resolves, import_shadowed}
use perloxide.Symbol.Follow.{resolve_exact}

parse_slurpy : parse (codes "@$") ≡ error_at after_slurpy 1
unfolding parse parse_loop step is_space semicolon ends_slurpy is_slurpy single_slot push_slot
parse_slurpy = refl

parse-Ends_example :
    Ends (length (codes "$$;\\@")) (IsPrototype (codes "$$;\\@")) (parse (codes "$$;\\@"))
parse-Ends_example = parse-Ends (codes "$$;\\@")

-- `foo` of `main` is imported from `lib`, and `bar` of `main` is imported from itself.
abbrev lib_foo : SubInfo
lib_foo = record {
  name = codes "foo";
  prototype = none;
  attributes = [];
  forward_declaration = false;
}

abbrev table : SymbolTable
unfolding import entry store declare_sub new_namespace put
table =
    let (lib_table, lib) = entry new_table (codes "lib") in
    let declared = store lib_table (codes "lib") (declare_sub lib (codes "foo") none [] false) in
    import (import declared (codes "main") (codes "foo") (codes "lib") (codes "foo")) (codes "main")
      (codes "bar") (codes "main") (codes "bar")

lookup_foo : lookup table (codes "main::foo") (codes "other") ≡ found lib_foo
unfolding lookup split_qualified_name rfind_separator resolve resolve_loop find get seen same_bytes
    import_keys keys_of table import entry store declare_sub new_namespace put
lookup_foo = refl

lookup_cycle : lookup table (codes "bar") (codes "main") ≡ not_found
unfolding lookup split_qualified_name rfind_separator resolve resolve_loop find get seen same_bytes
    import_keys keys_of table import entry store declare_sub new_namespace put
lookup_cycle = refl

resolve_exact_example :
    (resolve table (codes "main") (codes "foo") ≢ out_of_fuel)
    × ((resolve table (codes "main") (codes "foo") ≡ found lib_foo)
        ↔ ((n : ℕ) × Denotes table n (codes "main") (codes "foo") lib_foo))
resolve_exact_example = resolve_exact table (codes "main") (codes "foo") lib_foo

baz_free : sub_at table (codes "main") (codes "baz") ≡ none
unfolding sub_at get find same_bytes table import entry store declare_sub new_namespace put
baz_free = refl

foo_own : sub_at table (codes "lib") (codes "foo") ≡ some lib_foo
unfolding sub_at get find same_bytes table import entry store declare_sub new_namespace put
foo_own = refl

import_resolves_example :
    (resolve
        (import table (codes "main") (codes "baz") (codes "lib") (codes "foo"))
        (codes "main")
        (codes "baz")
      ≡ found lib_foo)
    ↔ (resolve
          (import table (codes "main") (codes "baz") (codes "lib") (codes "foo"))
          (codes "lib")
          (codes "foo")
        ≡ found lib_foo)
import_resolves_example =
    import_resolves table (codes "main") (codes "baz") (codes "lib") (codes "foo") lib_foo baz_free

import_shadowed_example :
    resolve
      (import table (codes "lib") (codes "foo") (codes "main") (codes "bar"))
      (codes "lib")
      (codes "foo")
    ≡ found lib_foo
import_shadowed_example =
    import_shadowed table (codes "lib") (codes "foo") (codes "main") (codes "bar") lib_foo foo_own
