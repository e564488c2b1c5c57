-- ===== src/Array/Examples.antt =====
-- Runs of the array engine of core/src/containers.rs, and its theorems at one input each.
use perloxide.Prelude.{
  ℕ, zero, suc, ◌+◌, ◌-◌, ◌^◌, ◌≤◌, ◌<◌, ◌≡◌, refl, Bool, true, false, none, some, [], ◌∷◌, ◌++◌,
  set, take, drop, arith,
}
use perloxide.Array.Slots.{Slots, at, extended, values, write, copy, clear_slots}
use perloxide.Array.Geometry.{
  Geometry, requested, Allocator, live, class_slots, array_layout, checked_add, allocate_slots,
  slide, reallocate, grow, extend_to, assign, assign_none, take_slot,
}
use perloxide.Array.Engine.{
  alloc, ok, err, or_undef, trim, delete_in, set_in, reclaim, spread, make_room, unshift_in,
}
use perloxide.Array.Header.{
  compact, PerlArray, parts, store_parts, array_len, array_set, push_value, unshift_value,
  array_delete, pop_value, shift_value, array_clear, rebuffer, vivify, ensure_element,
}
use perloxide.Array.Window.{IsWindow}
use perloxide.Array.Holes.{without}
use perloxide.Array.Commit.{view, Commits}
use perloxide.Array.Contract.{set_exact, add_ends_exact, delete_exact, take_ends_exact}
use perloxide.Array.Served.{additions_served}
use perloxide.Array.Backend.{
  system_allocator, system_allocator-IsLawful, system_allocator-IsGenerous,
}
use perloxide.Array.Ensure.{ensure_element_exact, ensure_element-shifts}
use perloxide.Array.Doubled.{unshift-drops_shown}

-- The system allocator, serving everything, and an allocator that refuses everything.
abbrev serving : Allocator
serving = system_allocator (λ n. true)

abbrev refusing : Allocator
refusing = record { size_class = λ n. some n; serves = λ n. false }

-- Two values behind a gap of one, with room for two more.
abbrev pair_slots : Slots ℕ
pair_slots = none ∷ some 10 ∷ some 20 ∷ none ∷ none ∷ []

abbrev pair_array : Bool → PerlArray ℕ
pair_array readonly = record { arm = compact pair_slots 1 2 4 []; readonly = readonly }

pair_before : (i : ℕ) → i < 1 → at pair_slots i ≡ none
unfolding at
pair_before zero h = refl
pair_before (suc i) h = absurd (omega arith)

pair_after : (i : ℕ) → 1 + 2 ≤ i → at pair_slots i ≡ none
unfolding at
pair_after zero h = absurd (omega arith)
pair_after (suc zero) h = absurd (omega arith)
pair_after (suc (suc zero)) h = absurd (omega arith)
pair_after (suc (suc (suc zero))) h = refl
pair_after (suc (suc (suc (suc zero)))) h = refl
pair_after (suc (suc (suc (suc (suc i))))) h = refl

pair-IsWindow : IsWindow (parts (pair_array false))
unfolding parts
pair-IsWindow = record { size = refl; room = omega arith; before = pair_before; after = pair_after }

-- The same values at the base of a buffer of four.
abbrev base_slots : Slots ℕ
base_slots = some 10 ∷ some 20 ∷ none ∷ none ∷ []

abbrev base_array : PerlArray ℕ
base_array = record { arm = compact base_slots 0 2 4 []; readonly = false }

base_after : (i : ℕ) → 0 + 2 ≤ i → at base_slots i ≡ none
unfolding at
base_after zero h = absurd (omega arith)
base_after (suc zero) h = absurd (omega arith)
base_after (suc (suc zero)) h = refl
base_after (suc (suc (suc zero))) h = refl
base_after (suc (suc (suc (suc i)))) h = refl

base-IsWindow : IsWindow (parts base_array)
unfolding parts
base-IsWindow = record {
  size = refl;
  room = omega arith;
  before = λ i h. absurd (omega arith);
  after = base_after;
}

set_far :
    view (array_set serving (pair_array false) 3 30).1 ≡ some 10 ∷ some 20 ∷ none ∷ some 30 ∷ []
unfolding array_set parts live set_in extend_to checked_add grow slide assign store_parts at copy
    write clear_slots
set_far = refl

unshift_twice : view (unshift_value serving base_array 5).1 ≡ some 5 ∷ some 10 ∷ some 20 ∷ []
unfolding unshift_value parts live unshift_in reclaim make_room grow spread assign assign_none
    store_parts at copy write clear_slots
unshift_twice = refl

delete_last :
    view (array_delete 0 (array_set serving (pair_array false) 3 30).1 3).1 ≡ some 10 ∷ some 20 ∷ []
unfolding array_set array_delete parts live set_in extend_to checked_add grow slide assign
    store_parts at copy write clear_slots delete_in take_slot trim
delete_last = refl

set_exact_example :
    Commits
      (pair_array false)
      (array_set serving (pair_array false) 3 30)
      (set (extended (view (pair_array false)) (3 + 1)) 3 (some 30))
set_exact_example =
    set_exact serving (system_allocator-IsLawful (λ n. true)) (pair_array false) 3 30 pair-IsWindow

add_ends_exact_example :
    Commits base_array (push_value serving base_array 30) (view base_array ++ some 30 ∷ [])
    × Commits base_array (unshift_value serving base_array 30) (some 30 ∷ view base_array)
add_ends_exact_example =
    add_ends_exact serving (system_allocator-IsLawful (λ n. true)) base_array 30 base-IsWindow

delete_exact_example :
    ((array_delete 0 base_array 1).0 ≡ ok (or_undef 0 (at (view base_array) 1)))
    × Commits base_array (array_delete 0 base_array 1) (without (view base_array) 1)
delete_exact_example = delete_exact 0 base_array 1 base-IsWindow refl

take_ends_exact_example :
    ((pop_value 0 base_array).0 ≡ ok (or_undef 0 (at (view base_array) (array_len base_array - 1))))
    × Commits base_array
        (pop_value 0 base_array)
        (take (array_len base_array - 1) (view base_array))
    × ((shift_value 0 base_array).0 ≡ ok (or_undef 0 (at (view base_array) 0)))
    × Commits base_array (shift_value 0 base_array) (drop 1 (view base_array))
    × Commits base_array (array_clear base_array) []
take_ends_exact_example = take_ends_exact 0 base_array base-IsWindow refl

abbrev three_array : PerlArray ℕ
three_array = record {
  arm = compact (some 10 ∷ some 20 ∷ some 30 ∷ none ∷ []) 0 3 4 [];
  readonly = false;
}

set_third : array_set serving base_array 2 30 ≡ (ok tt, three_array)
unfolding array_set set_in extend_to checked_add grow assign store_parts parts at write values
set_third = refl

additions_served_example :
    ((array_set serving (pair_array false) 900 30).0 ≡ ok tt)
    × ((push_value serving (pair_array false) 30).0 ≡ ok tt)
    × ((unshift_value serving (pair_array false) 30).0 ≡ ok tt)
additions_served_example =
    additions_served serving system_allocator-IsGenerous (pair_array false) 900 30 pair-IsWindow
      refl (unfold parts in omega arith) (omega arith)

ensure_refused : (extend_to refusing (parts (pair_array false)) 100).0 ≡ some (requested 1632)
unfolding extend_to checked_add parts grow slide reallocate allocate_slots array_layout class_slots
ensure_refused = refl

ensure_element-shifts_example :
    ((ensure_element refusing 0 (pair_array false) 100).0 ≡ err (alloc (requested 1632)))
    × (at (view (ensure_element refusing 0 (pair_array false) 100).1) 0
        ≡ at (view (pair_array false)) ((parts (pair_array false)).start + 0))
ensure_element-shifts_example =
    ensure_element-shifts refusing 0 (pair_array false) 100 0 (requested 1632) pair-IsWindow refl
      (unfold parts in omega arith) (omega arith) ensure_refused

unshift-drops_shown_example :
    ((parts (unshift_value refusing base_array 5).1).dropped
      ≡ (parts base_array).dropped ++ values (view base_array))
    × (view (unshift_value refusing base_array 5).1 ≡ some 5 ∷ view base_array)
unshift-drops_shown_example =
    unshift-drops_shown refusing base_array 5 base-IsWindow refl (unfold parts in refl)
      (unfold parts in omega arith) (unfold parts in omega arith)

abbrev ensured_base : PerlArray ℕ
ensured_base = record {
  arm = compact (some 10 ∷ some 20 ∷ some 7 ∷ none ∷ []) 0 3 4 [];
  readonly = false;
}

ensured_array : ensure_element serving 7 base_array 2 ≡ (ok 7, ensured_base)
unfolding ensure_element vivify rebuffer extend_to checked_add grow store_parts parts at write
ensured_array = refl

ensure_element_exact_example :
    IsWindow (parts ensured_base)
    × (view ensured_base ≡ set (extended (view base_array) (2 + 1)) 2 (some 7))
    × (7 ≡ or_undef 7 (at (view base_array) 2))
ensure_element_exact_example =
    ensure_element_exact serving (system_allocator-IsLawful (λ n. true)) 7 base_array 2 7
      ensured_base base-IsWindow ensured_array

abbrev wide_geometry : Geometry ℕ
wide_geometry = record { slots = []; start = 5; len = 0; cap = 2 ^ 32; dropped = [] }
