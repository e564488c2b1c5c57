-- ===== src/Array/Engine.antt =====
-- The operations of `PerlArray` in core/src/containers.rs on a geometry: what their closures do. An
-- operation gives its result and the geometry, which is stored whether or not it failed.
use perloxide.Prelude.{ℕ, zero, suc, ◌+◌, ◌-◌, Option, none, some, ltb, leb, ◌==◌, if◌then◌else◌}
use perloxide.Array.Slots.{Slots, at, copy}
use perloxide.Array.Geometry.{
  Geometry, AllocError, Allocator, assign, take_slot, assign_none, grow, extend_to,
}

pub data ScalarError : Type 0 where
  read_only snapshot_unsupported : ScalarError
  alloc : AllocError → ScalarError

pub data Outcome (A : Type 0) : Type 0 where
  ok : A → Outcome A
  err : ScalarError → Outcome A

module _ {V : Type 0} where
  -- `unwrap_or_default`, by the value that a missing one is read as.
  abbrev pub or_undef : V → Option V → V
  or_undef undef none = undef
  or_undef undef (some v) = v

  unfoldable pub get_in : Geometry V → ℕ → Option V
  get_in g index = if leb g.len index then none else at g.slots (g.start + index)

  -- The loop of `delete`: the length without its trailing holes.
  unfoldable pub trim : Slots V → ℕ → ℕ → ℕ
  trim slots start zero = zero
  trim slots start (suc n) = elim (at slots (start + n)) [
    | none ↦ trim slots start n
    | some v ↦ suc n
  ]

  unfoldable pub delete_in : V → Geometry V → ℕ → V × Geometry V
  delete_in undef g index =
      let (deleted, g') = take_slot g index in
      if leb g.len index then (undef, g) else (
        or_undef undef deleted,
        if index == g.len - 1 then record g' { len = trim g'.slots g'.start g'.len } else g',
      )

  unfoldable pub pop_in : V → Geometry V → V × Geometry V
  pop_in undef g =
      let (value, g') = take_slot g (g.len - 1) in
      if g.len == 0 then (undef, g) else (or_undef undef value, record g' { len = g.len - 1 })

  unfoldable pub shift_in : V → Geometry V → V × Geometry V
  shift_in undef g =
      let (value, g') = take_slot g 0 in
      if g.len == 0 then (undef, g) else (
        or_undef undef value,
        record g' { start = g.start + 1; cap = g.cap - 1; len = g.len - 1 },
      )

  unfoldable pub clear_in : Geometry V → Geometry V
  clear_in g = record (assign_none g g.start (g.start + g.len)) { len = 0 }

  -- Phase one of `unshift_value`: what the gap gives.
  unfoldable pub reclaim : Geometry V → ℕ → Geometry V
  reclaim g taken =
      if ltb 0 taken
      then record g { start = g.start - taken; cap = g.cap + taken; len = g.len + taken }
      else g

  -- Phase two after the growth: `count` slots move up by `moved`, and `fill` of the room is gap.
  unfoldable pub spread : Geometry V → ℕ → ℕ → ℕ → ℕ → Geometry V
  spread g count moved fill new_len =
      let up = record g { slots = copy g.start (g.start + moved) count g.slots } in
      let freed = assign_none up g.start (g.start + (if ltb moved count then moved else count)) in
      record freed { start = g.start + fill; cap = g.cap - fill; len = new_len }

module _ (allocator : Allocator) {V : Type 0} where
  unfoldable pub set_in : Geometry V → ℕ → V → Outcome Unit × Geometry V
  set_in g index value =
      let (e, g') = extend_to allocator g index in
      elim e [ some error ↦ (err (alloc error), g') | none ↦ (ok tt, assign g' index (some value)) ]

  unfoldable pub push_in : Geometry V → V → Outcome Unit × Geometry V
  push_in g value =
      let (e, g') = extend_to allocator g g.len in
      elim e [ some error ↦ (err (alloc error), g') | none ↦ (ok tt, assign g' g.len (some value)) ]

  -- Phase two of `unshift_value`.
  unfoldable pub make_room : Geometry V → ℕ → ℕ → Option AllocError × Geometry V
  make_room g taken need =
      let count = g.len - taken in
      let fill = if leb 2 count then count - 1 else 0 in
      let moved = need + fill in
      let (e, g') = grow allocator g (g.len - taken + moved) in
      elim e [
        | some error ↦ (some error, g')
        | none ↦ (none, spread g' count moved fill (count + need + taken))
      ]

  unfoldable pub unshift_in : Geometry V → V → Outcome Unit × Geometry V
  unshift_in g value =
      let taken = if ltb g.start 1 then g.start else 1 in
      let g1 = reclaim g taken in
      let roomy = make_room g1 taken (1 - taken) in
      let (e, g2) : Option AllocError × Geometry V =
        if ltb 0 (1 - taken) then roomy else (none, g1) in
      elim e [ some error ↦ (err (alloc error), g2) | none ↦ (ok tt, assign g2 0 (some value)) ]
