-- ===== src/Array/Ensure.antt =====
-- `ensure_element` of core/src/containers.rs.
use mathlib.Core.Path.{subst}
use perloxide.Prelude.{
  ℕ, ◌+◌, ◌^◌, ◌<◌, ◌≡◌, refl, sym, ap, ◌∙◌, Bool, true, false, Option, none, some, if◌then◌else◌,
  set, arith,
}
use perloxide.Array.Slots.{Slots, at, run, at-tabulate, write, extended, at-extended}
use perloxide.Array.Geometry.{
  Geometry, AllocError, Allocated, granted, refused, Allocator, live, slide, grow, reallocate,
  or_keep, extend_to, checked_add,
}
use perloxide.Array.Engine.{read_only, alloc, ok, err, or_undef}
use perloxide.Array.Header.{
  Arm, compact, wide, PerlArray, arm_parts, parts, store_arm, store_parts, rebuffer, vivify,
  ensure_element,
}
use perloxide.Array.Window.{IsLawful, IsWindow, at-live, slide-at}
use perloxide.Array.Contents.{Leaves, write-Leaves}
use perloxide.Array.Growth.{IsExtended, extend_to-IsExtended}
use perloxide.Array.Commit.{view, parts-store_parts}

module _ (allocator : Allocator) {V : Type 0} where
  or_keep-refused :
      (g : Geometry V) (r : Allocated (Geometry V)) {e : AllocError}
      → (or_keep g r).0 ≡ some e
      → (or_keep g r).1 ≡ g
  or_keep-refused g (granted g') h = cc
  or_keep-refused g (refused e) h = refl

  -- Growth that fails has slid the window.
  grow-failed :
      (g : Geometry V) (n : ℕ) (e : AllocError)
      → 0 < g.start
      → (grow allocator g n).0 ≡ some e
      → (grow allocator g n).1 ≡ slide g
  unfolding grow
  grow-failed g n e h f =
      ground (arith, or_keep-refused (slide g) (reallocate allocator (slide g) n))

  extend_to-failed :
      (g : Geometry V) (index : ℕ) (e : AllocError)
      → 0 < g.start
      → index + 1 < 2 ^ 64
      → (extend_to allocator g index).0 ≡ some e
      → (extend_to allocator g index).1 ≡ slide g
  unfolding extend_to checked_add
  extend_to-failed g index e h l f = ground (arith, grow-failed g (index + 1) e)

module _ {V : Type 0} where
  slid_under :
      (g : Geometry V) (i : ℕ)
      → IsWindow g
      → at (run g.start g.len (slide g).slots) i ≡ at (live g) (g.start + i)
  unfolding run
  slid_under g i w = ground (
    arith,
    at-tabulate g.len (λ i. at (slide g).slots (g.start + i)) i,
    slide-at g (g.start + i) w,
    at-live g (g.start + i) w,
    w.after (g.start + (g.start + i)),
  )

  -- What a header shows over a buffer that was slid under it.
  stale :
      (arm : Arm V) (i : ℕ)
      → IsWindow (arm_parts arm)
      → at (live (arm_parts (rebuffer arm (slide (arm_parts arm))))) i
        ≡ at (live (arm_parts arm)) ((arm_parts arm).start + i)
  unfolding arm_parts rebuffer live
  stale (wide g) i w = slid_under g i w
  stale (compact slots start len cap dropped) i w =
      slid_under (record { slots = slots; start = start; len = len; cap = cap; dropped = dropped })
        i w

module _ (allocator : Allocator) {V : Type 0} where
  ensure_element-failed :
      (undef : V) (a : PerlArray V) (index : ℕ) (e : AllocError)
      → a.readonly ≡ false
      → 0 < (parts a).start
      → index + 1 < 2 ^ 64
      → (extend_to allocator (parts a) index).0 ≡ some e
      → ensure_element allocator undef a index
        ≡ (err (alloc e), record a { arm = rebuffer a.arm (slide (parts a)) })
  unfolding ensure_element
  ensure_element-failed undef a index e r h l f =
      ground (arith, extend_to-failed allocator (parts a) index e h l f)

  -- Where the allocator refuses `ensure_element` on an array in order that has a gap, the error
  -- leaves other contents: each index shows what the index higher by the gap showed before.
  pub ensure_element-shifts :
      (undef : V) (a : PerlArray V) (index i : ℕ) (e : AllocError)
      → IsWindow (parts a)
      → a.readonly ≡ false
      → 0 < (parts a).start
      → index + 1 < 2 ^ 64
      → (extend_to allocator (parts a) index).0 ≡ some e
      → ((ensure_element allocator undef a index).0 ≡ err (alloc e))
        × (at (view (ensure_element allocator undef a index).1) i
            ≡ at (view a) ((parts a).start + i))
  unfolding ensure_element parts
  ensure_element-shifts undef a index i e w r h l f =
      let q = ensure_element-failed undef a index e r h l f in
      (ap (λ q. q.0) q, ap (λ q. at (view q.1) i) q ∙ stale a.arm i w)

module _ {V : Type 0} where
  rebuffer_stored :
      (arm : Arm V) (g : Geometry V) (slots : Slots V)
      → arm_parts (rebuffer (store_arm arm g) (record g { slots = slots }))
        ≡ record g { slots = slots }
  unfolding arm_parts rebuffer store_arm
  rebuffer_stored (wide h) g slots = refl
  rebuffer_stored (compact old start len cap dropped) g slots = ground arith

  -- What `get_or_insert_with` finds or puts in a slot of the window.
  vivify_stored :
      (allocator : Allocator) (undef : V) (a : PerlArray V) (g : Geometry V) (index : ℕ)
      → vivify allocator undef (store_parts a g) index ≡ (
        ok (or_undef undef (at g.slots (g.start + index))),
        record a {
          arm = rebuffer (store_arm a.arm g) (record g {
            slots =
                write g.slots
                  (g.start + index)
                  (some (or_undef undef (at g.slots (g.start + index))));
          });
        },
      )
  unfolding vivify store_parts
  vivify_stored allocator undef a g index =
      ap
        (λ (h : Geometry V). (
          ok (or_undef undef (at h.slots (h.start + index))),
          record a {
            arm = rebuffer (store_arm a.arm g) (record h {
              slots =
                  write h.slots (h.start + index)
                    (some (or_undef undef (at h.slots (h.start + index))));
            });
          },
        ))
        (parts-store_parts a g)

  ensured :
      (allocator : Allocator) (undef : V) (a : PerlArray V) (index : ℕ) (x : V) (a' : PerlArray V)
      (readonly : Bool) (r : Option AllocError × Geometry V)
      → IsExtended (parts a) (index + 1) r
      → (if readonly then (err read_only, a) else elim r.0 [
        | some error ↦ (err (alloc error), record a { arm = rebuffer a.arm r.1 })
        | none ↦ vivify allocator undef (store_parts a r.1) index
      ])
        ≡ (ok x, a')
      → Leaves (parts a') (set (extended (view a) (index + 1)) index (some x))
        × (x ≡ or_undef undef (at (view a) index))
  unfolding parts
  ensured allocator undef a index x a' true r k e = absurd (ground arith)
  ensured allocator undef a index x a' false (some error, g) k e = absurd (ground arith)
  ensured allocator undef a index x a' false (none, g) k e =
      let v = sym (vivify_stored allocator undef a g index) ∙ e in
      let found : or_undef undef (at g.slots (g.start + index)) ≡ x = ground (arith, v) in
      let held : at g.slots (g.start + index) ≡ at (view a) index =
        sym (at-live g index k.window)
        ∙ ap (λ xs. at xs index) k.contents
        ∙ at-extended (view a) (index + 1) index in
      let stored : record g { slots = write g.slots (g.start + index) (some x) } ≡ parts a' =
        ap (λ z. record g { slots = write g.slots (g.start + index) (some z) }) (sym found)
        ∙ sym (rebuffer_stored a.arm g _)
        ∙ ap (λ q. parts q.1) v in
      let l = write-Leaves g index (some x) k.window (omega (arith, k.reach refl)) in
      (
        subst (λ h. Leaves h (set (extended (view a) (index + 1)) index (some x))) stored
            (record {
              window = l.window;
              contents = l.contents ∙ ap (λ xs. set xs index (some x)) k.contents;
            }),
        sym found ∙ ap (or_undef undef) held,
      )

module _ (allocator : Allocator) (lawful : IsLawful allocator) {V : Type 0} where
  -- On an array in order, with an allocator whose size classes hold what is asked for: where
  -- `ensure_element` hands back a value, it is the one that the index held, or undef if it held
  -- none; the contents reach the index with that value there, and the array is in order.
  pub ensure_element_exact :
      (undef : V) (a : PerlArray V) (index : ℕ) (x : V) (a' : PerlArray V)
      → IsWindow (parts a)
      → ensure_element allocator undef a index ≡ (ok x, a')
      → IsWindow (parts a')
        × (view a' ≡ set (extended (view a) (index + 1)) index (some x))
        × (x ≡ or_undef undef (at (view a) index))
  unfolding ensure_element
  ensure_element_exact undef a index x a' w e =
      let (l, found) =
        ensured allocator undef a index x a' a.readonly (extend_to allocator (parts a) index)
          (extend_to-IsExtended allocator lawful (parts a) index w) e in
      (l.window, l.contents, found)
