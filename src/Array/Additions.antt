-- ===== src/Array/Additions.antt =====
-- The engine's `set`, `push_value` and `unshift_value` in core/src/containers.rs on the
-- contents of the window.
use perloxide.Prelude.{
  ℕ, ◌+◌, ◌-◌, ◌<◌, ◌≡◌, ◌⊎◌, refl, sym, ap, ◌∙◌, Option, none, some, [], ◌∷◌, ◌++◌, ltb, leb,
  if◌then◌else◌, set, arith, inl, inr, Bool-cases,
}
use mathlib.Core.Path.{subst}
use native.Mathlib.Nat.{sub-zero}
use perloxide.Array.Slots.{Slots, extended}
use perloxide.Array.Geometry.{Geometry, AllocError, Allocator, live, assign, assign_none, grow}
use perloxide.Array.Engine.{
  Outcome, ok, err, alloc, reclaim, spread, set_in, push_in, make_room, unshift_in,
}
use perloxide.Array.Window.{IsLawful, IsWindow, length-live}
use perloxide.Array.Holes.{set-extended}
use perloxide.Array.Growth.{IsGrown, grow-IsGrown, IsExtended, extend_to-IsExtended}
use perloxide.Array.Contents.{Leaves, assign-Leaves}
use perloxide.Array.Spread.{reclaim-Leaves, spread-Leaves}

-- What a fallible operation leaves: the given contents where it succeeds, the old ones where it
-- fails.
pub record Stores {V : Type 0} (g : Geometry V) (r : Outcome Unit × Geometry V) (xs : Slots V)
    : Type 0 where
  pub window : IsWindow r.1
  pub contents : live r.1 ≡ elim r.0 [ ok _ ↦ xs | err _ ↦ live g ]

-- A slot opened at the front: an error leaves the contents.
record IsOpened {V : Type 0} (g : Geometry V) (r : Option AllocError × Geometry V) : Type 0 where
  window : IsWindow r.1
  contents : live r.1 ≡ elim r.0 [ none ↦ none ∷ live g | some e ↦ live g ]
  first : r.0 ≡ none → 0 < r.1.len

module _ {V : Type 0} where
  assign_after-Stores :
      (g : Geometry V) (index : ℕ) (v : V) (r : Option AllocError × Geometry V)
      → IsExtended g (index + 1) r
      → Stores g
          (elim r.0 [
            | some error ↦ (err (alloc error), r.1)
            | none ↦ (ok tt, assign r.1 index (some v))
          ])
          (set (extended (live g) (index + 1)) index (some v))
  assign_after-Stores g index v (some error, g') x = record {
    window = x.window;
    contents = x.contents;
  }
  assign_after-Stores g index v (none, g') x =
      let l = assign-Leaves g' index (some v) x.window (omega (arith, x.reach refl)) in
      record {
        window = l.window;
        contents = l.contents ∙ ap (λ xs. set xs index (some v)) x.contents;
      }

module _ (allocator : Allocator) {V : Type 0} where
  -- A slot opened at the front, from the gap or by moving the rest up.
  abbrev pub opened : Geometry V → Option AllocError × Geometry V
  opened g =
      let taken : ℕ = if ltb g.start 1 then g.start else 1 in
      if ltb 0 (1 - taken)
      then make_room allocator (reclaim g taken) taken (1 - taken)
      else (none, reclaim g taken)

  pub opened-base : (g : Geometry V) → g.start ≡ 0 → opened g ≡ make_room allocator g 0 1
  unfolding reclaim
  opened-base g s = let e : (if ltb g.start 1 then g.start else 1) ≡ 0 = ground arith in rw e refl

module _ (allocator : Allocator) (lawful : IsLawful allocator) {V : Type 0} where
  pub set_in-Stores :
      (g : Geometry V) (index : ℕ) (v : V)
      → IsWindow g
      → Stores g (set_in allocator g index v) (set (extended (live g) (index + 1)) index (some v))
  unfolding set_in
  set_in-Stores g index v w =
      assign_after-Stores g index v _ (extend_to-IsExtended allocator lawful g index w)

  pub push_in-Stores :
      (g : Geometry V) (v : V)
      → IsWindow g
      → Stores g (push_in allocator g v) (live g ++ some v ∷ [])
  unfolding push_in
  push_in-Stores g v w =
      subst (Stores g _)
        (ap (λ n. set (extended (live g) (n + 1)) n (some v)) (sym (length-live g))
          ∙ set-extended (live g) (some v))
        (assign_after-Stores g g.len v _ (extend_to-IsExtended allocator lawful g g.len w))

  spread-IsOpened :
      (g : Geometry V) (count fill n : ℕ) (r : Option AllocError × Geometry V)
      → count ≡ g.len
      → n ≡ g.len + 1
      → (fill < g.len) ⊎ (fill ≡ 0)
      → IsGrown g (g.len + (1 + fill)) r
      → IsOpened g (elim r.0 [
        | some error ↦ (some error, r.1)
        | none ↦ (none, spread r.1 count (1 + fill) fill n)
      ])
  spread-IsOpened g count fill n (some error, g') c m f k = record {
    window = k.window;
    contents = k.same_live;
    first = λ e. cc;
  }
  spread-IsOpened g count fill n (none, g') c m f k =
      let l = spread-Leaves g' fill k.window (rw k.same_len f) (rw k.same_len (k.holds refl)) in
      let same : Leaves (spread g' count (1 + fill) fill n) (none ∷ live g') =
        rw (c ∙ sym k.same_len, m ∙ ap (λ k. k + 1) (sym k.same_len)) l in
      record {
        window = same.window;
        contents = same.contents ∙ ap (λ xs. none ∷ xs) k.same_live;
        first = λ e. unfold spread assign_none in omega arith;
      }

  make_room-base : (g : Geometry V) → IsWindow g → IsOpened g (make_room allocator g 0 1)
  unfolding make_room
  make_room-base g w =
      let fill : ℕ = if leb 2 (g.len - 0) then g.len - 0 - 1 else 0 in
      spread-IsOpened g (g.len - 0) fill (g.len - 0 + 1 + 0)
        (grow allocator g (g.len - 0 + (1 + fill))) (omega arith) (omega arith) (ground arith)
        (rw (sub-zero g.len) (grow-IsGrown allocator lawful g _ w))

  assign_first-Stores :
      (g : Geometry V) (v : V) (r : Option AllocError × Geometry V)
      → IsOpened g r
      → Stores g
          (elim r.0 [
            | some error ↦ (err (alloc error), r.1)
            | none ↦ (ok tt, assign r.1 0 (some v))
          ])
          (some v ∷ live g)
  assign_first-Stores g v (some error, g') x = record { window = x.window; contents = x.contents }
  assign_first-Stores g v (none, g') x =
      let l = assign-Leaves g' 0 (some v) x.window (x.first refl) in
      record { window = l.window; contents = l.contents ∙ ap (λ xs. set xs 0 (some v)) x.contents }

  reclaim-IsOpened : (g : Geometry V) → IsWindow g → 0 < g.start → IsOpened g (none, reclaim g 1)
  reclaim-IsOpened g w h =
      let l = reclaim-Leaves g w h in
      record {
        window = l.window;
        contents = l.contents;
        first = λ e. unfold reclaim in omega arith;
      }

  opened-IsOpened : (g : Geometry V) → IsWindow g → IsOpened g (opened allocator g)
  unfolding reclaim
  opened-IsOpened g w = elim (Bool-cases (ltb g.start 1)) [
    | inl base ↦
        let e : (if ltb g.start 1 then g.start else 1) ≡ 0 = ground arith in
        rw e (make_room-base g w)
    | inr gap ↦ rw gap (reclaim-IsOpened g w (ground arith))
  ]

  pub unshift_in-Stores :
      (g : Geometry V) (v : V) → IsWindow g → Stores g (unshift_in allocator g v) (some v ∷ live g)
  unfolding unshift_in
  unshift_in-Stores g v w = assign_first-Stores g v (opened allocator g) (opened-IsOpened g w)
