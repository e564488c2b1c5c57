-- ===== src/Array/Served.antt =====
-- Growth in core/src/containers.rs where the allocator serves what it is asked for.
use perloxide.Prelude.{
  ℕ, ◌+◌, ◌-◌, ◌*◌, ◌/◌, ◌^◌, ◌≤◌, ◌<◌, ◌≡◌, refl, ap, ◌∙◌, true, false, Option, none, some, ltb,
  leb, if◌then◌else◌, arith, inl, inr, Bool-cases, Option-cases,
}
use perloxide.Array.Geometry.{
  Geometry, AllocError, Allocated, granted, Allocator, array_layout, checked_add, class_slots,
  allocate_slots, slide, reallocate, grow, extend_to, or_keep,
}
use perloxide.Array.Engine.{ok, set_in, push_in, spread, make_room, unshift_in}
use perloxide.Array.Header.{PerlArray, parts, array_set, push_value, unshift_value}
use perloxide.Array.Window.{IsWindow}
use perloxide.Array.Additions.{opened, opened-base}
use perloxide.Array.Commit.{written}

-- An allocator that serves every request, and names size classes of at most twice it and 15 bytes.
pub record IsGenerous (allocator : Allocator) : Type 0 where
  pub serves_all : (n : ℕ) → allocator.serves n ≡ true
  pub close_class : (n c : ℕ) → allocator.size_class n ≡ some c → c ≤ 2 * n + 15

room_error :
    {V : Type 0} (open_at : Geometry V → Geometry V) (r : Option AllocError × Geometry V)
    → (let q : Option AllocError × Geometry V = elim r.0 [
      | some error ↦ (some error, r.1)
      | none ↦ (none, open_at r.1)
    ] in
        q).0
      ≡ r.0
room_error open_at (some error, g) = refl
room_error open_at (none, g) = refl

module _ (allocator : Allocator) (generous : IsGenerous allocator) where
  allocate_slots-granted : (n : ℕ) → n ≤ 2 ^ 57 → (k : ℕ) × (allocate_slots allocator n ≡ granted k)
  unfolding allocate_slots class_slots array_layout
  allocate_slots-granted n h = elim (Option-cases (allocator.size_class (n * 16))) [
    | inl unnamed ↦ (n, ground (arith, unnamed, generous.serves_all (n * 16)))
    | inr (c, named) ↦ (
      c / 16,
      ground
          (arith, named, generous.close_class (n * 16) c named, generous.serves_all (c / 16 * 16)),
    )
  ]

  module _ {V : Type 0} where
    or_keep-granted :
        (g g' : Geometry V) {r : Allocated (Geometry V)} → r ≡ granted g' → (or_keep g r).0 ≡ none
    or_keep-granted g g' e = rw e refl

    reallocate-granted :
        (g : Geometry V) (n : ℕ)
        → n + g.cap / 5 ≤ 2 ^ 57
        → (or_keep g (reallocate allocator g n)).0 ≡ none
    unfolding reallocate checked_add
    reallocate-granted g n h =
        let (k, served) = allocate_slots-granted (n + g.cap / 5) h in ground (arith, served)

    grow-served :
        (g : Geometry V) (n : ℕ)
        → g.start + g.cap ≤ 2 ^ 56
        → n ≤ 2 ^ 56
        → (grow allocator g n).0 ≡ none
    unfolding grow slide
    grow-served g n h k = ground (arith, reallocate-granted g n, reallocate-granted (slide g) n)

    extend_to-served :
        (g : Geometry V) (index : ℕ)
        → g.start + g.cap ≤ 2 ^ 56
        → index < 2 ^ 56
        → (extend_to allocator g index).0 ≡ none
    unfolding extend_to checked_add
    extend_to-served g index h k = ground (arith, grow-served g (index + 1))

    make_room-served :
        (g : Geometry V)
        → g.start + g.cap ≤ 2 ^ 55
        → g.len ≤ g.cap
        → (make_room allocator g 0 1).0 ≡ none
    unfolding make_room
    make_room-served g h k =
        let fill : ℕ = if leb 2 (g.len - 0) then g.len - 0 - 1 else 0 in
        let small : fill ≤ g.len - 1 = ground arith in
        let served = grow-served g (g.len - 0 + (1 + fill)) (omega arith) (omega arith) in
        room_error (λ h. spread h (g.len - 0) (1 + fill) fill (g.len - 0 + 1 + 0))
          (grow allocator g (g.len - 0 + (1 + fill)))
        ∙ served

    opened-served :
        (g : Geometry V) → g.start + g.cap ≤ 2 ^ 55 → g.len ≤ g.cap → (opened allocator g).0 ≡ none
    opened-served g h k = elim (Bool-cases (ltb g.start 1)) [
      | inl base ↦ ap (λ r. r.0) (opened-base allocator g (ground arith)) ∙ make_room-served g h k
      | inr gap ↦ rw gap refl
    ]

    set_in-served :
        (g : Geometry V) (index : ℕ) (v : V)
        → g.start + g.cap ≤ 2 ^ 55
        → index < 2 ^ 55
        → (set_in allocator g index v).0 ≡ ok tt
    unfolding set_in
    set_in-served g index v h k = ground (arith, extend_to-served g index)

    push_in-served :
        (g : Geometry V) (v : V)
        → g.start + g.cap ≤ 2 ^ 55
        → g.len ≤ g.cap
        → (push_in allocator g v).0 ≡ ok tt
    unfolding push_in
    push_in-served g v h k = ground (arith, extend_to-served g g.len)

    unshift_in-served :
        (g : Geometry V) (v : V)
        → g.start + g.cap ≤ 2 ^ 55
        → g.len ≤ g.cap
        → (unshift_in allocator g v).0 ≡ ok tt
    unfolding unshift_in
    unshift_in-served g v h k = ground (arith, opened-served g h k)

    -- With an allocator that serves every request, and whose size classes are at most twice the
    -- request and 15 bytes, an array in order that may be written and whose buffer is no longer than 2^55 slots takes every
    -- set below index 2^55, every push and every unshift.
    pub additions_served :
        (a : PerlArray V) (index : ℕ) (v : V)
        → IsWindow (parts a)
        → a.readonly ≡ false
        → (parts a).start + (parts a).cap ≤ 2 ^ 55
        → index < 2 ^ 55
        → ((array_set allocator a index v).0 ≡ ok tt)
          × ((push_value allocator a v).0 ≡ ok tt)
          × ((unshift_value allocator a v).0 ≡ ok tt)
    unfolding array_set push_value unshift_value
    additions_served a index v w r h k = (
      written a _ r ∙ set_in-served (parts a) index v h k,
      written a _ r ∙ push_in-served (parts a) v h w.room,
      written a _ r ∙ unshift_in-served (parts a) v h w.room,
    )
