-- ===== src/Array/Deletion.antt =====
-- The engine's `delete` in core/src/containers.rs on the contents of the window.
use perloxide.Prelude.{
  ℕ, zero, suc, ◌+◌, ◌-◌, ◌≤◌, ◌<◌, ◌≡◌, refl, sym, ap, ◌∙◌, none, some, [], ◌∷◌, ◌++◌, leb, ◌==◌,
  arith, inl, inr, ==_iff, Bool-cases, Option-cases,
}
use perloxide.Array.Slots.{Slots, at, run}
use perloxide.Array.Geometry.{Geometry, live, take_slot}
use perloxide.Array.Engine.{trim, delete_in}
use perloxide.Array.Window.{IsWindow, length-live}
use perloxide.Array.Holes.{
  strip, strip-hole, strip-value, without, without-early, without-last, without-past, run-suc,
}
use perloxide.Array.Contents.{Leaves, take-Leaves, narrow-Leaves}

module _ {V : Type 0} where
  trim-hole :
      (slots : Slots V) (start n : ℕ)
      → at slots (start + n) ≡ none
      → trim slots start (suc n) ≡ trim slots start n
  unfolding trim
  trim-hole slots start n hole = ground arith

  trim-value :
      (slots : Slots V) (start n : ℕ) {v : V}
      → at slots (start + n) ≡ some v
      → trim slots start (suc n) ≡ suc n
  unfolding trim
  trim-value slots start n held = ground arith

  -- The loop of `delete` leaves out the trailing holes.
  trim-strip :
      (slots : Slots V) (start n : ℕ)
      → run start (trim slots start n) slots ≡ strip (run start n slots)
  trim-strip slots start zero = unfold trim run strip in refl
  trim-strip slots start (suc n) = elim (Option-cases (at slots (start + n))) [
    | inl hole ↦
        let e = run-suc start n slots ∙ ap (λ x. run start n slots ++ x ∷ []) hole in
        ap (λ m. run start m slots) (trim-hole slots start n hole)
        ∙ trim-strip slots start n
        ∙ sym (strip-hole (run start n slots))
        ∙ ap strip (sym e)
    | inr (v, held) ↦
        let e = run-suc start n slots ∙ ap (λ x. run start n slots ++ x ∷ []) held in
        ap (λ m. run start m slots) (trim-value slots start n held)
        ∙ e
        ∙ sym (strip-value (run start n slots) v)
        ∙ ap strip (sym e)
  ]

  trim-le : (slots : Slots V) (start n : ℕ) → trim slots start n ≤ n
  unfolding trim
  trim-le slots start zero = omega arith
  trim-le slots start (suc n) = ground (arith, trim-le slots start n)

  trim-past :
      (slots : Slots V) (start n i : ℕ)
      → trim slots start n ≤ i
      → i < n
      → at slots (start + i) ≡ none
  unfolding trim
  trim-past slots start zero i h k = absurd (omega arith)
  trim-past slots start (suc n) i h k = elim (Bool-cases (i == n)) [
    | inl last ↦
        ap (λ m. at slots (start + m)) ((==_iff i n).0 last)
        ∙ elim (Option-cases (at slots (start + n))) [
          | inl hole ↦ hole
          | inr (v, held) ↦ absurd (omega (arith, trim-value slots start n held))
        ]
    | inr inside ↦ ground (arith, trim-past slots start n i)
  ]

  trimmed-Leaves :
      (g : Geometry V)
      → IsWindow g
      → Leaves (record g { len = trim g.slots g.start g.len }) (strip (live g))
  trimmed-Leaves g w = record {
    window =
        (narrow-Leaves g (trim g.slots g.start g.len) w (trim-le g.slots g.start g.len)
          (trim-past g.slots g.start g.len)).window;
    contents = unfold live in trim-strip g.slots g.start g.len;
  }

  pub delete_in-Leaves :
      (undef : V) (g : Geometry V) (index : ℕ)
      → IsWindow g
      → Leaves (delete_in undef g index).1 (without (live g) index)
  unfolding delete_in
  delete_in-Leaves undef g index w = elim (Bool-cases (leb g.len index)) [
    | inl outside ↦ rw outside (record {
      window = w;
      contents = sym (without-past (live g) index (ground (arith, length-live g)));
    })
    | inr inside ↦
        let h = (take_slot g index).1 in
        let l = take-Leaves g index w (ground arith) in
        rw inside (elim (Bool-cases (index == g.len - 1)) [
          | inl last ↦
              let t = trimmed-Leaves h l.window in
              rw last (record {
                window = t.window;
                contents =
                    t.contents
                    ∙ ap strip l.contents
                    ∙ sym (without-last (live g) index (ground (arith, length-live g)));
              })
          | inr early ↦ rw early (record {
            window = l.window;
            contents =
                l.contents ∙ sym (without-early (live g) index (ground (arith, length-live g)));
          })
        ])
  ]
