-- ===== src/Array/Window.antt =====
-- The window invariant of core/src/containers.rs, and growth.
use perloxide.Prelude.{
  ℕ, ◌+◌, ◌≤◌, ◌<◌, ◌≡◌, refl, ap, ◌∙◌, none, some, ltb, if◌then◌else◌, length, arith,
}
use perloxide.Array.Slots.{
  at, tabulate, run, copy, at-tabulate, length-tabulate, tabulate_ext, at-copy, at-clear_slots,
  length-copy, length-clear_slots,
}
use perloxide.Array.Geometry.{Geometry, Allocator, live, assign_none, slide}

-- A size class holds the request.
pub record IsLawful (allocator : Allocator) : Type 0 where
  pub holds_request : (n c : ℕ) → allocator.size_class n ≡ some c → n ≤ c

-- The buffer is the gap and the room, the window lies in the room, and no slot outside holds a value.
pub record IsWindow {V : Type 0} (g : Geometry V) : Type 0 where
  pub size : length g.slots ≡ g.start + g.cap
  pub room : g.len ≤ g.cap
  pub before : (i : ℕ) → i < g.start → at g.slots i ≡ none
  pub after : (i : ℕ) → g.start + g.len ≤ i → at g.slots i ≡ none

module _ {V : Type 0} where
  pub length-live : (g : Geometry V) → length (live g) ≡ g.len
  unfolding live run
  length-live g = length-tabulate g.len (λ i. at g.slots (g.start + i))

  pub at-live : (g : Geometry V) (i : ℕ) → IsWindow g → at (live g) i ≡ at g.slots (g.start + i)
  unfolding live run
  at-live g i w =
      ground (arith, at-tabulate g.len (λ i. at g.slots (g.start + i)) i, w.after (g.start + i))

  -- Two windows with the same slots at the same places hold the same.
  pub live_ext :
      (g h : Geometry V)
      → g.len ≡ h.len
      → ((i : ℕ) → i < g.len → at g.slots (g.start + i) ≡ at h.slots (h.start + i))
      → live g ≡ live h
  unfolding live run
  live_ext g h e k =
      tabulate_ext g.len (λ i. at g.slots (g.start + i)) (λ i. at h.slots (h.start + i)) k
      ∙ ap (λ n. tabulate n (λ i. at h.slots (h.start + i))) e

  pub slide-at :
      (g : Geometry V) (j : ℕ)
      → IsWindow g
      → at (slide g).slots j ≡ (if ltb j g.len then at g.slots (g.start + j) else none)
  unfolding slide assign_none
  slide-at g j w = ground (
    arith,
    at-clear_slots g.len (g.start + g.len) (copy g.start 0 g.len g.slots) j,
    at-copy g.start 0 g.len g.slots j,
    w.size,
    w.room,
    w.after j,
  )

  pub slide-IsWindow : (g : Geometry V) → IsWindow g → IsWindow (slide g)
  unfolding slide assign_none
  slide-IsWindow g w = record {
    size = omega (
      arith,
      length-clear_slots g.len (g.start + g.len) (copy g.start 0 g.len g.slots),
      length-copy g.start 0 g.len g.slots,
      w.size,
    );
    room = omega (arith, w.room);
    before = λ i h. absurd (omega arith);
    after = λ i h. slide-at g i w ∙ ground arith;
  }

  pub slide-live : (g : Geometry V) → IsWindow g → live (slide g) ≡ live g
  unfolding slide assign_none
  slide-live g w = live_ext (slide g) g refl (λ i l. slide-at g (0 + i) w ∙ ground arith)
