-- ===== src/Array/Geometry.antt =====
-- `Geometry` of core/src/containers.rs: a buffer, the window in it, and how it grows. The buffer
-- stands for what the pointer addresses. `dropped` lists the values that assignments to slots have
-- dropped, oldest first.
use perloxide.Prelude.{
  ℕ, ◌+◌, ◌-◌, ◌*◌, ◌/◌, ◌%◌, ◌^◌, Bool, Option, none, some, List, [], ◌∷◌, ◌++◌, ltb, leb,
  if◌then◌else◌,
}
use perloxide.Array.Slots.{at, tabulate, values, run, write, copy, clear_slots}

pub record Geometry (V : Type 0) : Type 0 where
  pub slots : List (Option V)
  pub start : ℕ
  pub len : ℕ
  pub cap : ℕ
  pub dropped : List V

-- `AllocError`, and what the allocator answers in this module.
pub data AllocError : Type 0 where
  requested : ℕ → AllocError

pub data Allocated (A : Type 0) : Type 0 where
  granted : A → Allocated A
  refused : AllocError → Allocated A

abbrev pub slot_size : ℕ
slot_size = 16

-- `Layout::array`, which bounds a size by that of the address space.
unfoldable pub array_layout : ℕ → Option ℕ
array_layout n = if leb (n * slot_size) (2 ^ 63 - 8) then some (n * slot_size) else none

-- `checked_add`
unfoldable pub checked_add : ℕ → ℕ → Option ℕ
checked_add a b = if ltb (a + b) (2 ^ 64) then some (a + b) else none

-- The allocator: the size class of a number of bytes, and whether it serves a request now.
pub record Allocator : Type 0 where
  pub size_class : ℕ → Option ℕ
  pub serves : ℕ → Bool

-- How many slots `allocate_slots` asks for: the whole of the size class, where there is one.
unfoldable pub class_slots : Allocator → ℕ → ℕ → ℕ
class_slots allocator at_least layout = elim (allocator.size_class layout) [
  | none ↦ at_least
  | some class ↦ class / slot_size
]

-- `allocate_slots`: how many slots it hands out, all of them empty.
unfoldable pub allocate_slots : Allocator → ℕ → Allocated ℕ
allocate_slots allocator at_least = elim (array_layout at_least) [
  | none ↦ refused (requested (at_least * slot_size % 2 ^ 64))
  | some layout ↦ elim (array_layout (class_slots allocator at_least layout)) [
    | none ↦ refused (requested (at_least * slot_size % 2 ^ 64))
    | some full ↦
        if allocator.serves full
        then granted (class_slots allocator at_least layout)
        else refused (requested (at_least * slot_size % 2 ^ 64))
  ]
]

module _ {V : Type 0} where
  abbrev pub empty_geometry : Geometry V
  empty_geometry = record { slots = []; start = 0; len = 0; cap = 0; dropped = [] }

  abbrev pub total : Geometry V → ℕ
  total g = g.start + g.cap

  -- The live window.
  unfoldable pub live : Geometry V → List (Option V)
  unfolding run
  live g = run g.start g.len g.slots

  -- `live_mut()[index] = x`, which drops what stood there.
  unfoldable pub assign : Geometry V → ℕ → Option V → Geometry V
  assign g index x = record g {
    slots = write g.slots (g.start + index) x;
    dropped = g.dropped ++ values (at g.slots (g.start + index) ∷ []);
  }

  -- `live_mut()[index].take()`
  unfoldable pub take_slot : Geometry V → ℕ → Option V × Geometry V
  take_slot g index =
      (at g.slots (g.start + index), record g { slots = write g.slots (g.start + index) none })

  -- `*slot = None` for slots of the buffer from `lo` up to `hi`, which drops what stood there.
  unfoldable pub assign_none : Geometry V → ℕ → ℕ → Geometry V
  assign_none g lo hi = record g {
    slots = clear_slots lo hi g.slots;
    dropped = g.dropped ++ values (run lo (hi - lo) g.slots);
  }

  -- The first move of `grow`: the window slides back over the gap.
  unfoldable pub slide : Geometry V → Geometry V
  slide g =
      let moved = record g { slots = copy g.start 0 g.len g.slots } in
      record (assign_none moved g.len (g.start + g.len)) { start = 0; cap = total g }

  -- `?` on what `reallocate` gives: an error leaves the geometry as it is.
  abbrev pub or_keep : Geometry V → Allocated (Geometry V) → Option AllocError × Geometry V
  or_keep g (granted g') = (none, g')
  or_keep g (refused e) = (some e, g)

module _ (allocator : Allocator) {V : Type 0} where
  -- The second move of `grow`: a new buffer, with the window at its base.
  unfoldable pub reallocate : Geometry V → ℕ → Allocated (Geometry V)
  reallocate g min_cap = elim (checked_add min_cap (g.cap / 5)) [
    | none ↦ refused (requested (min_cap * slot_size % 2 ^ 64))
    | some wanted ↦ elim (allocate_slots allocator wanted) [
      | refused e ↦ refused e
      | granted n ↦ granted (record g {
        slots = tabulate n (λ i. if ltb i g.len then at g.slots (g.start + i) else none);
        start = 0;
        cap = n;
      })
    ]
  ]

  -- `grow`: its error if it has one, and the geometry, which an error may have slid.
  unfoldable pub grow : Geometry V → ℕ → Option AllocError × Geometry V
  grow g min_cap =
      let slid = if ltb 0 g.start then slide g else g in
      if leb min_cap g.cap
      then (none, g)
      else if leb min_cap slid.cap
      then (none, slid)
      else or_keep slid (reallocate slid min_cap)

  -- `extend_to`
  unfoldable pub extend_to : Geometry V → ℕ → Option AllocError × Geometry V
  extend_to g index = elim (checked_add index 1) [
    | none ↦ (some (requested (2 ^ 64 - 1)), g)
    | some needed ↦
        let (e, g') = if ltb g.cap needed then grow g needed else (none, g) in
        elim e [
          | some error ↦ (some error, g')
          | none ↦ (none, if ltb g'.len needed then record g' { len = needed } else g')
        ]
  ]
