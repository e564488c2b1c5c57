-- ===== src/Array/Contract.antt =====
-- What the methods of `PerlArray` in core/src/containers.rs promise, on the contents that the array
-- shows.
use mathlib.Core.Path.{subst}
use perloxide.Prelude.{
  ℕ, ◌+◌, ◌-◌, ◌<◌, ◌≡◌, ap, ◌∙◌, false, some, [], ◌∷◌, ◌++◌, ltb, ◌==◌, if◌then◌else◌, length, set,
  take, drop, arith,
}
use perloxide.Array.Slots.{at, extended, at-extended, length-extended, at-set, length-set}
use perloxide.Array.Geometry.{Allocator}
use perloxide.Array.Engine.{
  ok, or_undef, get_in, delete_in, pop_in, shift_in, clear_in, set_in, push_in, unshift_in,
}
use perloxide.Array.Header.{
  PerlArray, parts, array_len, array_get, array_set, push_value, unshift_value, array_delete,
  pop_value, shift_value, array_clear,
}
use perloxide.Array.Window.{IsLawful, IsWindow, length-live, at-live}
use perloxide.Array.Holes.{without}
use perloxide.Array.Contents.{clear_in-Leaves, pop_in-Leaves, shift_in-Leaves}
use perloxide.Array.Deletion.{delete_in-Leaves}
use perloxide.Array.Additions.{set_in-Stores, push_in-Stores, unshift_in-Stores}
use perloxide.Array.Commit.{
  view, Commits, written, stored-Commits, left-Commits, either-Commits, got, delete_in-value,
  pop_in-value, shift_in-value,
}

module _ {V : Type 0} where
  -- Reading an index gives what the contents hold there, and nothing past their end.
  pub get_exact :
      (a : PerlArray V) (index : ℕ) → IsWindow (parts a) → array_get a index ≡ at (view a) index
  unfolding array_get get_in
  get_exact a index w = ground (arith, at-live (parts a) index w, w.after ((parts a).start + index))

  -- On an array in order that may be written, delete answers the element at the index, or undef for
  -- a hole or an index past the end, and leaves a hole there; at the last index it also drops the
  -- holes before it, and past the end it changes nothing.
  pub delete_exact :
      (undef : V) (a : PerlArray V) (index : ℕ)
      → IsWindow (parts a)
      → a.readonly ≡ false
      → ((array_delete undef a index).0 ≡ ok (or_undef undef (at (view a) index)))
        × Commits a (array_delete undef a index) (without (view a) index)
  unfolding array_delete
  delete_exact undef a index w h = (
    written a _ h ∙ ap ok (unfold got in delete_in-value undef (parts a) index w),
    either-Commits a.readonly a _ _ w (
        left-Commits a _ (delete_in undef (parts a) index).1 _
          (delete_in-Leaves undef (parts a) index w)),
  )

  -- On an array in order that may be written, pop answers the last element and shift the first, or
  -- undef for a hole and for an empty array; each leaves the contents without that element, and
  -- clear leaves none.
  pub take_ends_exact :
      (undef : V) (a : PerlArray V)
      → IsWindow (parts a)
      → a.readonly ≡ false
      → ((pop_value undef a).0 ≡ ok (or_undef undef (at (view a) (array_len a - 1))))
        × Commits a (pop_value undef a) (take (array_len a - 1) (view a))
        × ((shift_value undef a).0 ≡ ok (or_undef undef (at (view a) 0)))
        × Commits a (shift_value undef a) (drop 1 (view a))
        × Commits a (array_clear a) []
  unfolding pop_value shift_value array_clear array_len
  take_ends_exact undef a w h = (
    written a _ h ∙ ap ok (unfold got in pop_in-value undef (parts a) w),
    either-Commits a.readonly a _ _ w
        (left-Commits a _ (pop_in undef (parts a)).1 _ (pop_in-Leaves undef (parts a) w)),
    written a _ h ∙ ap ok (unfold got in shift_in-value undef (parts a) w),
    either-Commits a.readonly a _ _ w
        (left-Commits a _ (shift_in undef (parts a)).1 _ (shift_in-Leaves undef (parts a) w)),
    either-Commits a.readonly a _ _ w
        (left-Commits a _ (clear_in (parts a)) _ (clear_in-Leaves (parts a) w)),
  )

module _ (allocator : Allocator) (lawful : IsLawful allocator) {V : Type 0} where
  -- On an array in order, with an allocator whose size classes hold what is asked for: a set that
  -- succeeds leaves the old contents, filled up with holes to the index, with the value there; one
  -- that fails leaves the contents as they were. Both leave the array in order.
  pub set_exact :
      (a : PerlArray V) (index : ℕ) (v : V)
      → IsWindow (parts a)
      → Commits a
          (array_set allocator a index v)
          (set (extended (view a) (index + 1)) index (some v))
  unfolding array_set
  set_exact a index v w = either-Commits a.readonly a _ _ w (
      stored-Commits a (set_in allocator (parts a) index v) _
        (set_in-Stores allocator lawful (parts a) index v w))

  -- On an array in order, with such an allocator: a push that succeeds leaves the value after the
  -- old contents and an unshift that succeeds leaves it before them; either leaves the contents as
  -- they were if it fails, and the array in order.
  pub add_ends_exact :
      (a : PerlArray V) (v : V)
      → IsWindow (parts a)
      → Commits a (push_value allocator a v) (view a ++ some v ∷ [])
        × Commits a (unshift_value allocator a v) (some v ∷ view a)
  unfolding push_value unshift_value
  add_ends_exact a v w = (
    either-Commits a.readonly a _ _ w (
        stored-Commits a (push_in allocator (parts a) v) _
          (push_in-Stores allocator lawful (parts a) v w)),
    either-Commits a.readonly a _ _ w (
        stored-Commits a (unshift_in allocator (parts a) v) _
          (unshift_in-Stores allocator lawful (parts a) v w)),
  )

  -- After a set that succeeded on an array in order, with such an allocator, the index reads as the
  -- value and every other index as before, and the length is the old one or reaches the index.
  pub get-set :
      (a : PerlArray V) (index j : ℕ) (v : V) (a' : PerlArray V)
      → IsWindow (parts a)
      → array_set allocator a index v ≡ (ok tt, a')
      → (array_get a' j ≡ (if j == index then some v else array_get a j))
        × (array_len a' ≡ (if ltb index (array_len a) then array_len a else index + 1))
  unfolding array_len
  get-set a index j v a' w e =
      let xs = extended (view a) (index + 1) in
      let c : Commits a (ok tt, a') (set xs index (some v)) =
        subst (λ r. Commits a r (set xs index (some v))) e (set_exact a index v w) in
      let reach : index < length xs = ground (arith, length-extended (view a) (index + 1)) in
      (
        get_exact a' j c.window
            ∙ ap (λ ys. at ys j) c.contents
            ∙ ground (
              arith,
              at-set xs index j (some v) reach,
              at-extended (view a) (index + 1) j,
              get_exact a j w,
            ),
        ground (
          arith,
          length-live (parts a'),
          ap length c.contents,
          length-set xs index (some v),
          length-extended (view a) (index + 1),
          length-live (parts a),
        ),
      )
