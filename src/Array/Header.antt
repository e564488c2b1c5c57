-- ===== src/Array/Header.antt =====
-- `PerlArray` of core/src/containers.rs: the compact header with 32-bit geometry and the boxed one.
-- The bit FLAG_LARGE is the constructor; the bit FLAG_READONLY is a Boolean.
use perloxide.Prelude.{
  ℕ, ◌+◌, ◌-◌, ◌%◌, ◌^◌, Bool, true, false, ◌&&◌, Option, none, some, List, [], leb, ◌==◌,
  if◌then◌else◌,
}
use perloxide.Array.Slots.{at, values, write}
use perloxide.Array.Geometry.{Geometry, Allocator, live, extend_to}
use perloxide.Array.Engine.{
  read_only, alloc, Outcome, ok, err, get_in, set_in, push_in, delete_in, pop_in, shift_in,
  unshift_in, clear_in, or_undef,
}

pub data Arm (V : Type 0) : Type 0 where
  compact : (slots : List (Option V)) (start len cap : ℕ) (dropped : List V) → Arm V
  wide : Geometry V → Arm V

pub record PerlArray (V : Type 0) : Type 0 where
  pub arm : Arm V
  pub readonly : Bool

abbrev pub u32_max : ℕ
u32_max = 2 ^ 32 - 1

module _ {V : Type 0} where
  abbrev pub new_array : PerlArray V
  new_array = record { arm = compact [] 0 0 0 []; readonly = false }

  unfoldable pub arm_parts : Arm V → Geometry V
  arm_parts (compact slots start len cap dropped) = record {
    slots = slots;
    start = start;
    len = len;
    cap = cap;
    dropped = dropped;
  }
  arm_parts (wide g) = g

  unfoldable pub parts : PerlArray V → Geometry V
  unfolding arm_parts
  parts a = arm_parts a.arm

  -- `as u32` keeps the low 32 bits.
  unfoldable pub store_arm : Arm V → Geometry V → Arm V
  store_arm (wide _) g = wide g
  store_arm (compact _ _ _ _ _) g =
      if leb g.start u32_max && leb g.len u32_max && leb g.cap u32_max
      then compact g.slots (g.start % 2 ^ 32) (g.len % 2 ^ 32) (g.cap % 2 ^ 32) g.dropped
      else wide g

  unfoldable pub store_parts : PerlArray V → Geometry V → PerlArray V
  unfolding store_arm
  store_parts a g = record a { arm = store_arm a.arm g }

  -- The geometry, and the header left empty.
  unfoldable pub take_parts : PerlArray V → Geometry V × PerlArray V
  take_parts a = (parts a, record a { arm = compact [] 0 0 0 [] })

  -- The header as it is, over a buffer that was written through its pointer.
  unfoldable pub rebuffer : Arm V → Geometry V → Arm V
  rebuffer (compact _ start len cap _) g = compact g.slots start len cap g.dropped
  rebuffer (wide h) g = wide (record h { slots = g.slots; dropped = g.dropped })

  abbrev pub with_parts :
      {A : Type 0} → PerlArray V → (Geometry V → A × Geometry V) → A × PerlArray V
  with_parts a op = let (r, g) = op (parts a) in (r, store_parts a g)

  -- `check_writable`, before an operation.
  abbrev pub guarded :
      {A : Type 0} → PerlArray V → Outcome A × PerlArray V → Outcome A × PerlArray V
  guarded a done = if a.readonly then (err read_only, a) else done

  unfoldable pub array_len : PerlArray V → ℕ
  array_len a = (parts a).len

  unfoldable pub is_empty : PerlArray V → Bool
  is_empty a = array_len a == 0

  unfoldable pub array_get : PerlArray V → ℕ → Option V
  array_get a index = get_in (parts a) index

  unfoldable pub exists : PerlArray V → ℕ → Bool
  exists a index = elim (array_get a index) [ some v ↦ true | none ↦ false ]

  unfoldable pub array_delete : V → PerlArray V → ℕ → Outcome V × PerlArray V
  array_delete undef a index =
      let (v, a') = with_parts a (λ g. delete_in undef g index) in guarded a (ok v, a')

  unfoldable pub pop_value : V → PerlArray V → Outcome V × PerlArray V
  pop_value undef a = let (v, a') = with_parts a (pop_in undef) in guarded a (ok v, a')

  unfoldable pub shift_value : V → PerlArray V → Outcome V × PerlArray V
  shift_value undef a = let (v, a') = with_parts a (shift_in undef) in guarded a (ok v, a')

  unfoldable pub array_clear : PerlArray V → Outcome Unit × PerlArray V
  array_clear a = guarded a (with_parts a (λ g. (ok tt, clear_in g)))

  unfoldable pub set_readonly : PerlArray V → Bool → PerlArray V
  set_readonly a readonly = record a { readonly = readonly }

  unfoldable pub is_readonly : PerlArray V → Bool
  is_readonly a = a.readonly

  unfoldable pub values_iter : PerlArray V → List V
  values_iter a = values (live (parts a))

  -- `drop`: the values that are released, in order.
  unfoldable pub drop_array : PerlArray V → List V
  unfolding take_parts
  drop_array a = values (live (take_parts a).0)

module _ (allocator : Allocator) {V : Type 0} where
  unfoldable pub array_set : PerlArray V → ℕ → V → Outcome Unit × PerlArray V
  array_set a index value = guarded a (with_parts a (λ g. set_in allocator g index value))

  unfoldable pub push_value : PerlArray V → V → Outcome Unit × PerlArray V
  push_value a value = guarded a (with_parts a (λ g. push_in allocator g value))

  unfoldable pub unshift_value : PerlArray V → V → Outcome Unit × PerlArray V
  unshift_value a value = guarded a (with_parts a (λ g. unshift_in allocator g value))

  -- `get_or_insert_with` on the slot at `index`.
  unfoldable pub vivify : V → PerlArray V → ℕ → Outcome V × PerlArray V
  unfolding rebuffer
  vivify undef a index =
      let g = parts a in
      let value = or_undef undef (at g.slots (g.start + index)) in
      (
        ok value,
        record a {
          arm = rebuffer a.arm (record g { slots = write g.slots (g.start + index) (some value) });
        },
      )

  -- An error returns before the geometry is stored, though the buffer may have been written.
  unfoldable pub ensure_element : V → PerlArray V → ℕ → Outcome V × PerlArray V
  unfolding rebuffer
  ensure_element undef a index =
      let (e, g) = extend_to allocator (parts a) index in
      guarded a (elim e [
        | some error ↦ (err (alloc error), record a { arm = rebuffer a.arm g })
        | none ↦ vivify undef (store_parts a g) index
      ])
