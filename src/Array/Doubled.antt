-- ===== src/Array/Doubled.antt =====
-- The moves of `unshift_value` in core/src/containers.rs, and what they drop.
use mathlib.Core.Path.{subst}
use mathlib.Core.List.{append-nil}
use perloxide.Prelude.{
  ℕ, ◌+◌, ◌-◌, ◌*◌, ◌≤◌, ◌≡◌, sym, ap, ◌∙◌, false, Option, none, some, [], ◌∷◌, ◌++◌, ltb, leb,
  if◌then◌else◌, set, arith, inl,
}
use perloxide.Array.Slots.{at, values, run, tabulate_ext, copy, at-copy}
use perloxide.Array.Geometry.{Geometry, AllocError, Allocator, live, grow, assign, assign_none}
use perloxide.Array.Engine.{alloc, Outcome, ok, err, spread, make_room, unshift_in}
use perloxide.Array.Header.{PerlArray, parts, store_parts, guarded, unshift_value}
use perloxide.Array.Window.{IsWindow, at-live}
use perloxide.Array.Contents.{Leaves, assign-Leaves}
use perloxide.Array.Spread.{spread-Leaves}
use perloxide.Array.Additions.{opened-base}
use perloxide.Array.Commit.{view, parts-store_parts}

module _ {V : Type 0} where
  -- What `unshift_value` leaves where there was no gap and twice the room.
  abbrev doubled : Geometry V → V → Geometry V
  doubled g v = assign (spread g g.len g.len (g.len - 1) (g.len + 1)) 0 (some v)

  module _ (g : Geometry V) (v : V) (w : IsWindow g) (two : 2 ≤ g.len)
      (room : 2 * g.len ≤ g.cap) where
    spread_first-Leaves : Leaves (spread g g.len g.len (g.len - 1) (g.len + 1)) (none ∷ live g)
    spread_first-Leaves =
        let n : 1 + (g.len - 1) ≡ g.len = omega arith in
        subst (λ m. Leaves (spread g g.len m (g.len - 1) (g.len + 1)) (none ∷ live g)) n
          (spread-Leaves g (g.len - 1) w (inl (omega arith)) (omega arith))

    moved_run : run g.start g.len (copy g.start (g.start + g.len) g.len g.slots) ≡ live g
    unfolding run live
    moved_run = tabulate_ext g.len _ _ (λ i l.
        at-copy g.start (g.start + g.len) g.len g.slots (g.start + i) (omega (arith, w.size))
        ∙ ground arith)

    doubled-live : live (doubled g v) ≡ some v ∷ live g
    doubled-live =
        let l = spread_first-Leaves in
        (assign-Leaves (spread g g.len g.len (g.len - 1) (g.len + 1)) 0 (some v) l.window
          (unfold spread assign_none in omega arith)).contents
        ∙ ap (λ xs. set xs 0 (some v)) l.contents

    spread-dropped :
        (spread g g.len g.len (g.len - 1) (g.len + 1)).dropped ≡ g.dropped ++ values (live g)
    unfolding spread assign_none
    spread-dropped =
        let n : g.start + (if ltb g.len g.len then g.len else g.len) - g.start ≡ g.len =
          ground arith in
        ap (λ n. g.dropped ++ values (run g.start n (copy g.start (g.start + g.len) g.len g.slots)))
          n
        ∙ ap (λ xs. g.dropped ++ values xs) moved_run

    opened_empty : (h : Geometry V) → Leaves h (none ∷ live g) → at h.slots (h.start + 0) ≡ none
    unfolding at
    opened_empty h l = sym (at-live h 0 l.window) ∙ ap (λ xs. at xs 0) l.contents

    doubled-dropped : (doubled g v).dropped ≡ g.dropped ++ values (live g)
    unfolding assign values
    doubled-dropped =
        let h = spread g g.len g.len (g.len - 1) (g.len + 1) in
        ap (λ x. h.dropped ++ values (x ∷ [])) (opened_empty h spread_first-Leaves)
        ∙ append-nil h.dropped
        ∙ spread-dropped

module _ (allocator : Allocator) {V : Type 0} where
  abbrev room_after :
      Geometry V → ℕ → ℕ → ℕ → ℕ → Option AllocError × Geometry V → Option AllocError × Geometry V
  room_after g count moved fill n r = elim r.0 [
    | some error ↦ (some error, r.1)
    | none ↦ (none, spread r.1 count moved fill n)
  ]

  grow-roomy : (g : Geometry V) (n : ℕ) → n ≤ g.cap → grow allocator g n ≡ (none, g)
  unfolding grow
  grow-roomy g n h = ground arith

  make_room-roomy :
      (g : Geometry V)
      → 2 ≤ g.len
      → 2 * g.len ≤ g.cap
      → make_room allocator g 0 1 ≡ (none, spread g g.len g.len (g.len - 1) (g.len + 1))
  unfolding make_room
  make_room-roomy g two room =
      let fill : ℕ = if leb 2 (g.len - 0) then g.len - 0 - 1 else 0 in
      let filled : fill ≡ g.len - 1 = ground arith in
      let base : g.len - 0 ≡ g.len = omega arith in
      let moved : 1 + fill ≡ g.len = omega arith in
      let longer : g.len - 0 + 1 + 0 ≡ g.len + 1 = omega arith in
      let opened : spread g (g.len - 0) (1 + fill) fill (g.len - 0 + 1 + 0)
          ≡ spread g g.len g.len (g.len - 1) (g.len + 1) =
        cc (filled, base, moved, longer) in
      ap (room_after g (g.len - 0) (1 + fill) fill (g.len - 0 + 1 + 0))
        (grow-roomy g (g.len - 0 + (1 + fill)) (omega arith))
      ∙ ap (λ h. (none, h)) opened

  unshift_in-roomy :
      (g : Geometry V) (v : V)
      → g.start ≡ 0
      → 2 ≤ g.len
      → 2 * g.len ≤ g.cap
      → unshift_in allocator g v
        ≡ (ok tt, assign (spread g g.len g.len (g.len - 1) (g.len + 1)) 0 (some v))
  unfolding unshift_in
  unshift_in-roomy g v s two room =
      ap
        (λ r. elim r.0 [
          | some error ↦ (err (alloc error), r.1)
          | none ↦ (ok tt, assign r.1 0 (some v))
        ])
        (opened-base allocator g s ∙ make_room-roomy g two room)

  unshift_value-roomy :
      (a : PerlArray V) (v : V) {r : Outcome Unit × Geometry V}
      → a.readonly ≡ false
      → unshift_in allocator (parts a) v ≡ r
      → unshift_value allocator a v ≡ (r.0, store_parts a r.1)
  unfolding unshift_value
  unshift_value-roomy a v h e = ap (guarded a) (ap (λ r. (r.0, store_parts a r.1)) e) ∙ ground arith

  -- Where `unshift_value` on an array in order, with no gap and at least two slots, finds the room
  -- without growing, its moves drop every value of the array, and the array goes on showing them
  -- after the new value.
  pub unshift-drops_shown :
      (a : PerlArray V) (v : V)
      → IsWindow (parts a)
      → a.readonly ≡ false
      → (parts a).start ≡ 0
      → 2 ≤ (parts a).len
      → 2 * (parts a).len ≤ (parts a).cap
      → ((parts (unshift_value allocator a v).1).dropped ≡ (parts a).dropped ++ values (view a))
        × (view (unshift_value allocator a v).1 ≡ some v ∷ view a)
  unfolding unshift_value
  unshift-drops_shown a v w r s two room =
      let q = unshift_value-roomy a v r (unshift_in-roomy (parts a) v s two room) in
      let stored = ap (λ q. parts q.1) q ∙ parts-store_parts a (doubled (parts a) v) in
      (
        ap (λ g. g.dropped) stored ∙ doubled-dropped (parts a) v w two room,
        ap live stored ∙ doubled-live (parts a) v w two room,
      )
