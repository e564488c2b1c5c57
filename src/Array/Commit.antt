-- ===== src/Array/Commit.antt =====
-- Geometries stored in and read from the header of core/src/containers.rs, and what a method that
-- stores one leaves.
use perloxide.Prelude.{ℕ, ◌+◌, ◌-◌, ◌≡◌, refl, ap, ◌∙◌, Bool, true, false, if◌then◌else◌, arith}
use perloxide.Array.Slots.{Slots, at}
use perloxide.Array.Geometry.{Geometry, live, take_slot}
use perloxide.Array.Engine.{read_only, Outcome, ok, err, or_undef, delete_in, pop_in, shift_in}
use perloxide.Array.Header.{
  Arm, compact, wide, PerlArray, arm_parts, parts, store_arm, store_parts, guarded,
}
use perloxide.Array.Window.{IsWindow, at-live}
use perloxide.Array.Contents.{Leaves}
use perloxide.Array.Additions.{Stores}

module _ {V : Type 0} where
  -- The contents that an array shows.
  abbrev pub view : PerlArray V → Slots V
  view a = live (parts a)

  store_arm-parts : (arm : Arm V) (g : Geometry V) → arm_parts (store_arm arm g) ≡ g
  unfolding store_arm arm_parts
  store_arm-parts (wide h) g = refl
  store_arm-parts (compact slots start len cap dropped) g = ground arith

  -- A stored geometry is read back as it was, from the compact header as from the boxed one.
  pub parts-store_parts : (a : PerlArray V) (g : Geometry V) → parts (store_parts a g) ≡ g
  unfolding parts store_parts
  parts-store_parts a g = store_arm-parts a.arm g

-- What a method leaves: the window invariant, and the given contents where it succeeds or the old
-- ones where it fails.
pub record Commits {V A : Type 0} (a : PerlArray V) (r : Outcome A × PerlArray V) (xs : Slots V)
    : Type 0 where
  pub window : IsWindow (parts r.1)
  pub contents : view r.1 ≡ elim r.0 [ ok _ ↦ xs | err _ ↦ view a ]

module _ {V : Type 0} where
  pub refused :
      {A : Type 0} {a : PerlArray V} (r : Outcome A × PerlArray V)
      → a.readonly ≡ true
      → guarded a r ≡ (err read_only, a)
  refused r h = ground arith

  pub written :
      {A : Type 0} (a : PerlArray V) (r : Outcome A × PerlArray V)
      → a.readonly ≡ false
      → (guarded a r).0 ≡ r.0
  written a r h = ground arith

  pub stored-Commits :
      (a : PerlArray V) (r : Outcome Unit × Geometry V) (xs : Slots V)
      → Stores (parts a) r xs
      → Commits a (r.0, store_parts a r.1) xs
  stored-Commits a r xs s = record {
    window = rw (parts-store_parts a r.1) s.window;
    contents = ap live (parts-store_parts a r.1) ∙ s.contents;
  }

  pub left-Commits :
      {A : Type 0} (a : PerlArray V) (x : A) (g : Geometry V) (xs : Slots V)
      → Leaves g xs
      → Commits a (ok x, store_parts a g) xs
  left-Commits a x g xs l = record {
    window = rw (parts-store_parts a g) l.window;
    contents = ap live (parts-store_parts a g) ∙ l.contents;
  }

  pub either-Commits :
      {A : Type 0} (b : Bool) (a : PerlArray V) (r : Outcome A × PerlArray V) (xs : Slots V)
      → IsWindow (parts a)
      → Commits a r xs
      → Commits a (if b then (err read_only, a) else r) xs
  either-Commits true a r xs w c = record { window = w; contents = refl }
  either-Commits false a r xs w c = c

  unfoldable pub got : V → Geometry V → ℕ → V
  got undef g index = or_undef undef (at (live g) index)

  pub delete_in-value :
      (undef : V) (g : Geometry V) (index : ℕ)
      → IsWindow g
      → (delete_in undef g index).0 ≡ got undef g index
  unfolding delete_in take_slot got
  delete_in-value undef g index w = ground (arith, at-live g index w, w.after (g.start + index))

  pub pop_in-value :
      (undef : V) (g : Geometry V) → IsWindow g → (pop_in undef g).0 ≡ got undef g (g.len - 1)
  unfolding pop_in take_slot got
  pop_in-value undef g w = ground (arith, at-live g (g.len - 1) w, w.after (g.start + (g.len - 1)))

  pub shift_in-value :
      (undef : V) (g : Geometry V) → IsWindow g → (shift_in undef g).0 ≡ got undef g 0
  unfolding shift_in take_slot got
  shift_in-value undef g w = ground (arith, at-live g 0 w, w.after (g.start + 0))
