-- ===== src/Array/Contents.antt =====
-- The engine's operations in core/src/containers.rs on the contents of the window, one lemma for
-- each.
use perloxide.Prelude.{
  ℕ, suc, ◌+◌, ◌-◌, ◌≤◌, ◌<◌, ◌≡◌, refl, sym, ap, ◌∙◌, Option, none, [], ltb, ◌==◌, if◌then◌else◌,
  length, set, take, drop, arith, inl, inr, ==_iff, Bool-cases,
}
use perloxide.Array.Slots.{
  Slots, at, write, slots_ext, at-write, at-clear_slots, length-write, length-clear_slots, at-set,
  length-set,
}
use perloxide.Array.Geometry.{Geometry, live, assign, take_slot, assign_none}
use perloxide.Array.Engine.{pop_in, shift_in, clear_in}
use perloxide.Array.Window.{IsWindow, length-live, at-live}
use perloxide.Array.Holes.{
  at-take, length-take, at-tail, length-tail, take-set_end, drop-set_front, take-nothing,
  drop-nothing,
}

-- What an operation leaves: a window with the given contents.
pub record Leaves {V : Type 0} (g : Geometry V) (xs : Slots V) : Type 0 where
  pub window : IsWindow g
  pub contents : live g ≡ xs

module _ {V : Type 0} where
  pub leaves :
      (g : Geometry V) (xs : Slots V)
      → IsWindow g
      → length xs ≡ g.len
      → ((i : ℕ) → i < g.len → at g.slots (g.start + i) ≡ at xs i)
      → Leaves g xs
  leaves g xs w e h = record {
    window = w;
    contents =
        slots_ext (live g) xs (length-live g ∙ sym e)
          (λ i l. at-live g i w ∙ h i (omega (arith, length-live g)));
  }

  pub assign-Leaves :
      (g : Geometry V) (index : ℕ) (x : Option V)
      → IsWindow g
      → index < g.len
      → Leaves (assign g index x) (set (live g) index x)
  unfolding assign
  assign-Leaves g index x w h =
      leaves (assign g index x) (set (live g) index x)
        (record {
          size = length-write g.slots (g.start + index) x ∙ w.size;
          room = w.room;
          before = λ i l.
              ground (arith, at-write g.slots (g.start + index) x i, w.size, w.room, w.before i);
          after = λ i l.
              ground (arith, at-write g.slots (g.start + index) x i, w.size, w.room, w.after i);
        })
        (length-set (live g) index x ∙ length-live g)
        (λ i l. ground (
          arith,
          at-write g.slots (g.start + index) x (g.start + i),
          w.size,
          w.room,
          at-set (live g) index i x,
          length-live g,
          at-live g i w,
        ))

  -- The same for a write through a pointer, which drops nothing.
  pub write-Leaves :
      (g : Geometry V) (index : ℕ) (x : Option V)
      → IsWindow g
      → index < g.len
      → Leaves (record g { slots = write g.slots (g.start + index) x }) (set (live g) index x)
  unfolding assign live
  write-Leaves g index x w h =
      let l = assign-Leaves g index x w h in
      record {
        window = record {
          size = l.window.size;
          room = w.room;
          before = l.window.before;
          after = l.window.after;
        };
        contents = l.contents;
      }

  pub take-Leaves :
      (g : Geometry V) (index : ℕ)
      → IsWindow g
      → index < g.len
      → Leaves (take_slot g index).1 (set (live g) index none)
  unfolding take_slot
  take-Leaves g index w h = write-Leaves g index none w h

  pub clear_in-Leaves : (g : Geometry V) → IsWindow g → Leaves (clear_in g) []
  unfolding clear_in assign_none
  clear_in-Leaves g w =
      leaves (clear_in g) []
        (record {
          size = length-clear_slots g.start (g.start + g.len) g.slots ∙ w.size;
          room = omega arith;
          before =
              λ i l. ground (arith, at-clear_slots g.start (g.start + g.len) g.slots i, w.before i);
          after =
              λ i l. ground (arith, at-clear_slots g.start (g.start + g.len) g.slots i, w.after i);
        })
        refl (λ i l. absurd (omega arith))

  -- The window cut short at its end, over empty slots.
  pub narrow-Leaves :
      (g : Geometry V) (m : ℕ)
      → IsWindow g
      → m ≤ g.len
      → ((i : ℕ) → m ≤ i → i < g.len → at g.slots (g.start + i) ≡ none)
      → Leaves (record g { len = m }) (take m (live g))
  narrow-Leaves g m w h empty =
      leaves (record g { len = m }) (take m (live g))
        (record {
          size = w.size;
          room = omega (arith, w.room);
          before = w.before;
          after = λ i l. elim (Bool-cases (ltb i (g.start + g.len))) [
            | inl inside ↦
                ap (at g.slots) (omega arith) ∙ empty (i - g.start) (omega arith) (ground arith)
            | inr outside ↦ w.after i (ground arith)
          ];
        })
        (ground (arith, length-take m (live g), length-live g))
        (λ i l. ground (arith, at-take m (live g) i, at-live g i w))

  pub at-taken :
      (g : Geometry V) (index j : ℕ)
      → IsWindow g
      → index < g.len
      → at (take_slot g index).1.slots j ≡ (if j == g.start + index then none else at g.slots j)
  unfolding take_slot
  at-taken g index j w h = at-write g.slots (g.start + index) none j (omega (arith, w.size, w.room))

  pub pop_in-Leaves :
      (undef : V) (g : Geometry V)
      → IsWindow g
      → Leaves (pop_in undef g).1 (take (g.len - 1) (live g))
  unfolding pop_in take_slot
  pop_in-Leaves undef g w = elim (Bool-cases (g.len == 0)) [
    | inl nothing ↦ rw nothing (record {
      window = w;
      contents = sym (take-nothing (live g) (g.len - 1) (ground (arith, length-live g)));
    })
    | inr more ↦
        let h = (take_slot g (g.len - 1)).1 in
        let l = take-Leaves g (g.len - 1) w (ground arith) in
        let n =
          narrow-Leaves h (g.len - 1) l.window (omega arith)
            (λ i a b. ground (arith, at-taken g (g.len - 1) (g.start + i) w)) in
        rw more (record {
          window = n.window;
          contents =
              n.contents
              ∙ ap (take (g.len - 1)) l.contents
              ∙ take-set_end (live g) (g.len - 1) none;
        })
  ]

  -- The window without its first slot, which is empty.
  narrow_front-Leaves :
      (g : Geometry V)
      → IsWindow g
      → 0 < g.len
      → at g.slots g.start ≡ none
      → Leaves
          (record g { start = g.start + 1; cap = g.cap - 1; len = g.len - 1 })
          (drop 1 (live g))
  narrow_front-Leaves g w h empty =
      leaves (record g { start = g.start + 1; cap = g.cap - 1; len = g.len - 1 }) (drop 1 (live g))
        (record {
          size = omega (arith, w.size, w.room);
          room = omega (arith, w.room);
          before = λ i l. elim (Bool-cases (i == g.start)) [
            | inl last ↦ ap (at g.slots) ((==_iff i g.start).0 last) ∙ empty
            | inr inside ↦ w.before i (ground arith)
          ];
          after = λ i l. w.after i (omega arith);
        })
        (ground (arith, length-tail (live g), length-live g))
        (λ i l.
          ap (at g.slots) (omega arith) ∙ sym (at-live g (suc i) w) ∙ sym (at-tail (live g) i))

  pub shift_in-Leaves :
      (undef : V) (g : Geometry V) → IsWindow g → Leaves (shift_in undef g).1 (drop 1 (live g))
  unfolding shift_in take_slot
  shift_in-Leaves undef g w = elim (Bool-cases (g.len == 0)) [
    | inl nothing ↦ rw nothing (record {
      window = w;
      contents = sym (drop-nothing (live g) (ground (arith, length-live g)));
    })
    | inr more ↦
        let h = (take_slot g 0).1 in
        let l = take-Leaves g 0 w (ground arith) in
        let n =
          narrow_front-Leaves h l.window (ground arith) (ground (arith, at-taken g 0 g.start w)) in
        rw more (record {
          window = n.window;
          contents = n.contents ∙ ap (drop 1) l.contents ∙ drop-set_front (live g) none;
        })
  ]
