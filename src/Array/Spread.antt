-- ===== src/Array/Spread.antt =====
-- The moves of `unshift_value` in core/src/containers.rs: a slot from the gap, and the rest moved up.
use perloxide.Prelude.{
  ℕ, zero, suc, ◌+◌, ◌-◌, ◌≤◌, ◌<◌, ◌&&◌, ◌≡◌, ◌⊎◌, sym, ap, ◌∙◌, none, ◌∷◌, ltb, leb,
  if◌then◌else◌, arith,
}
use perloxide.Array.Slots.{at, copy, at-copy, at-clear_slots, length-copy, length-clear_slots}
use perloxide.Array.Geometry.{Geometry, live, assign_none}
use perloxide.Array.Engine.{reclaim, spread}
use perloxide.Array.Window.{IsWindow, length-live, at-live}
use perloxide.Array.Contents.{Leaves, leaves}

module _ {V : Type 0} where
  reclaim-at :
      (g : Geometry V) (i : ℕ)
      → IsWindow g
      → 0 < g.start
      → at g.slots (g.start - 1 + i) ≡ at (none ∷ live g) i
  unfolding at
  reclaim-at g zero w h = w.before (g.start - 1 + 0) (omega arith)
  reclaim-at g (suc i) w h = ap (at g.slots) (omega arith) ∙ sym (at-live g i w)

  -- The gap gives one slot.
  pub reclaim-Leaves :
      (g : Geometry V) → IsWindow g → 0 < g.start → Leaves (reclaim g 1) (none ∷ live g)
  unfolding reclaim at
  reclaim-Leaves g w h =
      leaves (reclaim g 1) (none ∷ live g)
        (record {
          size = omega (arith, w.size);
          room = omega (arith, w.room);
          before = λ i l. w.before i (omega arith);
          after = λ i l. w.after i (omega arith);
        })
        (ground (arith, length-live g)) (λ i l. reclaim-at g i w h)

  at-spread :
      (g : Geometry V) (count moved fill n j : ℕ)
      → IsWindow g
      → count + moved ≤ g.cap
      → at (spread g count moved fill n).slots j ≡ (
          if leb g.start j && ltb j (g.start + (if ltb moved count then moved else count))
          then none
          else if leb (g.start + moved) j && ltb j (g.start + moved + count)
          then at g.slots (g.start + (j - (g.start + moved)))
          else at g.slots j)
  unfolding spread assign_none
  at-spread g count moved fill n j w h = ground (
    arith,
    at-clear_slots g.start (g.start + (if ltb moved count then moved else count))
        (copy g.start (g.start + moved) count g.slots) j,
    at-copy g.start (g.start + moved) count g.slots j (omega (arith, w.size)),
  )

  module _ (g : Geometry V) (fill : ℕ) (w : IsWindow g) (f : (fill < g.len) ⊎ (fill ≡ 0))
      (h : g.len + (1 + fill) ≤ g.cap) where
    spread-first :
        (j : ℕ)
        → j ≤ g.start + fill
        → at (spread g g.len (1 + fill) fill (g.len + 1)).slots j ≡ none
    spread-first j l =
        ground (arith, at-spread g g.len (1 + fill) fill (g.len + 1) j w h, w.before j, w.after j)

    spread-rest :
        (i : ℕ)
        → i < g.len
        → at (spread g g.len (1 + fill) fill (g.len + 1)).slots (g.start + fill + suc i)
          ≡ at g.slots (g.start + i)
    spread-rest i l =
        let back : g.start + (g.start + fill + suc i - (g.start + (1 + fill))) ≡ g.start + i =
          omega arith in
        ground (
          arith,
          at-spread g g.len (1 + fill) fill (g.len + 1) (g.start + fill + suc i) w h,
          ap (at g.slots) back,
        )

    spread-past :
        (j : ℕ)
        → g.start + fill + (g.len + 1) ≤ j
        → at (spread g g.len (1 + fill) fill (g.len + 1)).slots j ≡ none
    spread-past j l = ground (arith, at-spread g g.len (1 + fill) fill (g.len + 1) j w h, w.after j)

    spread-at :
        (i : ℕ)
        → i < g.len + 1
        → at (spread g g.len (1 + fill) fill (g.len + 1)).slots (g.start + fill + i)
          ≡ at (none ∷ live g) i
    unfolding at
    spread-at zero l = spread-first (g.start + fill + 0) (omega arith)
    spread-at (suc i) l = spread-rest i (omega arith) ∙ sym (at-live g i w)

    pub spread-Leaves : Leaves (spread g g.len (1 + fill) fill (g.len + 1)) (none ∷ live g)
    unfolding spread assign_none
    spread-Leaves =
        leaves (spread g g.len (1 + fill) fill (g.len + 1)) (none ∷ live g)
          (record {
            size = omega (
              arith,
              length-clear_slots g.start
                  (g.start + (if ltb (1 + fill) g.len then 1 + fill else g.len))
                  (copy g.start (g.start + (1 + fill)) g.len g.slots),
              length-copy g.start (g.start + (1 + fill)) g.len g.slots,
              w.size,
            );
            room = omega arith;
            before = λ i l. spread-first i (omega arith);
            after = λ i l. spread-past i (omega arith);
          })
          (ground (arith, length-live g)) (λ i l. spread-at i l)
