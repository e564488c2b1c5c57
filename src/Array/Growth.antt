-- ===== src/Array/Growth.antt =====
-- Growth of the window in core/src/containers.rs: `allocate_slots`, `grow` and `extend_to`.
use perloxide.Prelude.{
  ℕ, ◌+◌, ◌*◌, ◌/◌, ◌^◌, ◌≤◌, ◌≡◌, ◌⊎◌, refl, ap, ◌∙◌, Option, none, some, ltb, leb, if◌then◌else◌,
  arith, inl, inr, Bool-cases, Option-cases,
}
use native.Mathlib.Nat.{le_trans}
use perloxide.Array.Slots.{
  at, tabulate, at-tabulate, length-tabulate, slots_ext, extended, at-extended, length-extended,
}
use perloxide.Array.Geometry.{
  Geometry, AllocError, Allocated, granted, refused, Allocator, array_layout, checked_add,
  class_slots, allocate_slots, live, assign_none, slide, reallocate, grow, extend_to, or_keep,
}
use perloxide.Array.Window.{
  IsLawful, IsWindow, length-live, at-live, live_ext, slide-IsWindow, slide-live,
}

module _ (allocator : Allocator) (lawful : IsLawful allocator) where
  allocate_slots-granted : (n k : ℕ) → allocate_slots allocator n ≡ granted k → n ≤ k
  unfolding allocate_slots class_slots array_layout
  allocate_slots-granted n k e = elim (Option-cases (allocator.size_class (n * 16))) [
    | inl unnamed ↦ ground (arith, unnamed)
    | inr (c, named) ↦ ground (arith, named, lawful.holds_request (n * 16) c named)
  ]

-- What growth keeps, failed or not, and the room that it makes where it succeeds.
pub record IsGrown {V : Type 0} (g : Geometry V) (n : ℕ) (r : Option AllocError × Geometry V)
    : Type 0 where
  pub window : IsWindow r.1
  pub same_live : live r.1 ≡ live g
  pub same_len : r.1.len ≡ g.len
  pub holds : r.0 ≡ none → n ≤ r.1.cap

module _ {V : Type 0} where
  fresh-at :
      (g : Geometry V) (n j : ℕ)
      → g.len ≤ n
      → at (tabulate n (λ i. if ltb i g.len then at g.slots (g.start + i) else none)) j
        ≡ (if ltb j g.len then at g.slots (g.start + j) else none)
  fresh-at g n j h =
      ground (arith, at-tabulate n (λ i. if ltb i g.len then at g.slots (g.start + i) else none) j)

  abbrev fresh : Geometry V → ℕ → Geometry V
  fresh g n = record g {
    slots = tabulate n (λ i. if ltb i g.len then at g.slots (g.start + i) else none);
    start = 0;
    cap = n;
  }

  fresh-IsGrown : (g : Geometry V) (n m : ℕ) → g.len ≤ n → m ≤ n → IsGrown g m (none, fresh g n)
  fresh-IsGrown g n m h k = record {
    window = record {
      size =
          length-tabulate n (λ i. if ltb i g.len then at g.slots (g.start + i) else none)
          ∙ omega arith;
      room = h;
      before = λ i l. absurd (omega arith);
      after = λ i l. fresh-at g n i h ∙ ground arith;
    };
    same_live = live_ext (fresh g n) g refl (λ i l. fresh-at g n (0 + i) h ∙ ground arith);
    same_len = refl;
    holds = λ _. k;
  }

pub Allocated-cases :
    {A : Type 0} (a : Allocated A)
    → ((x : A) × (a ≡ granted x)) ⊎ ((e : AllocError) × (a ≡ refused e))
Allocated-cases (granted x) = inl (x, refl)
Allocated-cases (refused e) = inr (e, refl)

module _ (allocator : Allocator) (lawful : IsLawful allocator) {V : Type 0} where
  reallocate-granted :
      (g g' : Geometry V) (n : ℕ)
      → reallocate allocator g n ≡ granted g'
      → (m : ℕ) × (g' ≡ fresh g m) × (n ≤ m)
  unfolding reallocate checked_add
  reallocate-granted g g' n e = elim (Bool-cases (ltb (n + g.cap / 5) (2 ^ 64))) [
    | inl fits ↦ elim (Allocated-cases (allocate_slots allocator (n + g.cap / 5))) [
      | inl (m, served) ↦ (
        m,
        ground (arith, fits, served),
        omega (arith, allocate_slots-granted allocator lawful (n + g.cap / 5) m served),
      )
      | inr (error, refusal) ↦ absurd (ground (arith, fits, refusal))
    ]
    | inr over ↦ absurd (ground (arith, over))
  ]

  or_keep-IsGrown :
      (g : Geometry V) (n : ℕ)
      → IsWindow g
      → g.len ≤ n
      → IsGrown g n (or_keep g (reallocate allocator g n))
  or_keep-IsGrown g n w h = elim (Allocated-cases (reallocate allocator g n)) [
    | inl (g', served) ↦
        let (m, made, holds) = reallocate-granted g g' n served in
        rw (served, made) (fresh-IsGrown g m n (le_trans h holds) holds)
    | inr (error, refusal) ↦
        rw refusal (record { window = w; same_live = refl; same_len = refl; holds = λ e. cc })
  ]

  abbrev slid : Geometry V → Geometry V
  slid g = if ltb 0 g.start then slide g else g

  slid-keeps :
      (g : Geometry V)
      → IsWindow g
      → IsWindow (slid g) × (live (slid g) ≡ live g) × ((slid g).len ≡ g.len)
  unfolding slide assign_none
  slid-keeps g w = elim (Bool-cases (ltb 0 g.start)) [
    | inl gap ↦ rw gap (slide-IsWindow g w, slide-live g w, refl)
    | inr base ↦ rw base (w, refl, refl)
  ]

  slid-IsGrown :
      (g : Geometry V) (n : ℕ) (r : Option AllocError × Geometry V)
      → IsWindow g
      → IsGrown (slid g) n r
      → IsGrown g n r
  slid-IsGrown g n r w k = record {
    window = k.window;
    same_live = k.same_live ∙ (slid-keeps g w).1;
    same_len = k.same_len ∙ (slid-keeps g w).2;
    holds = k.holds;
  }

  -- Growth.
  pub grow-IsGrown : (g : Geometry V) (n : ℕ) → IsWindow g → IsGrown g n (grow allocator g n)
  unfolding grow
  grow-IsGrown g n w = elim (Bool-cases (leb n g.cap)) [
    | inl roomy ↦
        rw roomy
          (record { window = w; same_live = refl; same_len = refl; holds = λ _. ground arith })
    | inr tight ↦ rw tight (
        slid-IsGrown g n _ w (elim (Bool-cases (leb n (slid g).cap)) [
          | inl enough ↦ rw enough (record {
            window = (slid-keeps g w).0;
            same_live = refl;
            same_len = refl;
            holds = λ _. ground arith;
          })
          | inr short ↦ rw short (
              or_keep-IsGrown (slid g) n (slid-keeps g w).0
                (le_trans (slid-keeps g w).0.room (ground arith)))
        ]))
  ]

-- Extension to a length: an error leaves the contents, and success adds holes.
pub record IsExtended {V : Type 0} (g : Geometry V) (n : ℕ) (r : Option AllocError × Geometry V)
    : Type 0 where
  pub window : IsWindow r.1
  pub contents : live r.1 ≡ elim r.0 [ none ↦ extended (live g) n | some e ↦ live g ]
  pub reach : r.0 ≡ none → n ≤ r.1.len

module _ {V : Type 0} where
  abbrev stretched : Geometry V → ℕ → Geometry V
  stretched g n = if ltb g.len n then record g { len = n } else g

  stretched-IsWindow : (g : Geometry V) (n : ℕ) → IsWindow g → n ≤ g.cap → IsWindow (stretched g n)
  stretched-IsWindow g n w h = elim (Bool-cases (ltb g.len n)) [
    | inl more ↦ rw more (record {
      size = w.size;
      room = h;
      before = w.before;
      after = λ i l. w.after i (ground arith);
    })
    | inr held ↦ rw held w
  ]

  stretched-live :
      (g : Geometry V) (n : ℕ) → IsWindow g → n ≤ g.cap → live (stretched g n) ≡ extended (live g) n
  stretched-live g n w h =
      slots_ext (live (stretched g n)) (extended (live g) n)
        (ground (arith, length-live (stretched g n), length-live g, length-extended (live g) n))
        (λ i l.
          at-live (stretched g n) i (stretched-IsWindow g n w h)
          ∙ ground (arith, at-extended (live g) n i, at-live g i w))

  extension-IsExtended :
      (g : Geometry V) (n : ℕ) (r : Option AllocError × Geometry V)
      → IsGrown g n r
      → IsExtended g n
          (elim r.0 [ some error ↦ (some error, r.1) | none ↦ (none, stretched r.1 n) ])
  extension-IsExtended g n (some error, g') k = record {
    window = k.window;
    contents = k.same_live;
    reach = λ e. cc;
  }
  extension-IsExtended g n (none, g') k = record {
    window = stretched-IsWindow g' n k.window (k.holds refl);
    contents = stretched-live g' n k.window (k.holds refl) ∙ ap (λ xs. extended xs n) k.same_live;
    reach = λ e. ground arith;
  }

module _ (allocator : Allocator) (lawful : IsLawful allocator) {V : Type 0} where
  tight-IsGrown :
      (g : Geometry V) (n : ℕ)
      → IsWindow g
      → IsGrown g n (if ltb g.cap n then grow allocator g n else (none, g))
  tight-IsGrown g n w = elim (Bool-cases (ltb g.cap n)) [
    | inl tight ↦ rw tight (grow-IsGrown allocator lawful g n w)
    | inr roomy ↦
        rw roomy
          (record { window = w; same_live = refl; same_len = refl; holds = λ _. ground arith })
  ]

  pub extend_to-IsExtended :
      (g : Geometry V) (index : ℕ)
      → IsWindow g
      → IsExtended g (index + 1) (extend_to allocator g index)
  unfolding extend_to checked_add
  extend_to-IsExtended g index w = elim (Bool-cases (ltb (index + 1) (2 ^ 64))) [
    | inl fits ↦
        rw (fits, extend_to, checked_add)
          (extension-IsExtended g (index + 1) _ (tight-IsGrown g (index + 1) w))
    | inr over ↦
        rw (over, extend_to, checked_add) (record { window = w; contents = refl; reach = λ e. cc })
  ]
