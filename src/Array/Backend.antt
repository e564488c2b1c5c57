-- ===== src/Array/Backend.antt =====
-- The back end of core/src/alloc_backend.rs without jemalloc: its size classes, which arrays fill. What
-- the system allocator serves is a parameter.
use Prim.Native.Nat.{bit_and}
use native.Mathlib.Nat.{pow-suc}
use perloxide.Prelude.{
  ℕ, zero, suc, ◌+◌, ◌-◌, ◌*◌, ◌/◌, ◌%◌, ◌^◌, ◌≤◌, ◌<◌, ◌≡◌, refl, ap, ◌∙◌, true, Bool, Option,
  none, some, ltb, arith, some_inj, ==_iff, ◌==◌, Bool-cases, inl, inr,
}
use perloxide.Prelude.Bits.{all_below, below}
use perloxide.Latin1.Ands.{bit_and_digit, and_parts}
use perloxide.Array.Geometry.{Allocator, checked_add}
use perloxide.Array.Window.{IsLawful}
use perloxide.Array.Served.{IsGenerous}

-- `checked_add(15).map(|rounded| rounded & !15)`
unfoldable pub system_size_class : ℕ → Option ℕ
unfolding checked_add
system_size_class size = elim (checked_add size 15) [
  | none ↦ none
  | some rounded ↦ some (bit_and rounded (2 ^ 64 - 16))
]

abbrev pub system_allocator : (ℕ → Bool) → Allocator
system_allocator serves = record { size_class = system_size_class; serves = serves }

pow_some : (k : ℕ) → 1 ≤ 2 ^ k
pow_some zero = omega arith
pow_some (suc k) = omega (arith, pow-suc 2 k, pow_some k)

half_ones : (k : ℕ) → (2 ^ suc k - 1) / 2 ≡ 2 ^ k - 1
half_ones k = omega (arith, pow-suc 2 k, pow_some k)

odd_ones : (k : ℕ) → (2 ^ suc k - 1) % 2 ≡ 1
odd_ones k = omega (arith, pow-suc 2 k, pow_some k)

bit_and-ones : (k x : ℕ) → x < 2 ^ k → bit_and x (2 ^ k - 1) ≡ x
bit_and-ones zero x h = let z : x ≡ 0 = omega arith in rw z refl
bit_and-ones (suc k) x h = omega (
  arith,
  bit_and_digit x (2 ^ suc k - 1),
  odd_ones k,
  ap (bit_and (x / 2)) (half_ones k),
  bit_and-ones k (x / 2) (omega (arith, pow-suc 2 k)),
)

masked_low : all_below 16 (λ a. bit_and a 0 == 0) ≡ true
masked_low = refl

bit_and-quantum : (r : ℕ) → r < 2 ^ 64 → bit_and r (2 ^ 64 - 16) ≡ r / 16 * 16
bit_and-quantum r h =
    let split : r ≡ r % 16 + 2 ^ 4 * (r / 16) = omega arith in
    let parts = and_parts 4 (r % 16) 0 (r / 16) (2 ^ 60 - 1) (omega arith) (omega arith) in
    let low : bit_and (r % 16) 0 ≡ 0 =
      (==_iff _ _).0 (below 16 (λ a. bit_and a 0 == 0) masked_low (r % 16) (omega arith)) in
    ap (λ x. bit_and x (2 ^ 64 - 16)) split
    ∙ parts
    ∙ omega (arith, low, bit_and-ones 60 (r / 16) (omega arith))

-- The class is the size rounded up to a multiple of sixteen.
class_exact : (n c : ℕ) → system_size_class n ≡ some c → (n ≤ c) × (c ≤ n + 15)
unfolding system_size_class checked_add
class_exact n c e = elim (Bool-cases (ltb (n + 15) (2 ^ 64))) [
  | inl fits ↦
      let named : bit_and (n + 15) (2 ^ 64 - 16) ≡ c =
        some_inj (rw (system_size_class, checked_add, fits) at e) in
      let exact = bit_and-quantum (n + 15) (ground arith) in (omega arith, omega arith)
  | inr wide ↦ cc (rw (system_size_class, checked_add, wide) at e)
]

pub system_allocator-IsLawful : (serves : ℕ → Bool) → IsLawful (system_allocator serves)
system_allocator-IsLawful serves = record { holds_request = λ n c e. (class_exact n c e).0 }

pub system_allocator-IsGenerous : IsGenerous (system_allocator (λ n. true))
system_allocator-IsGenerous = record {
  serves_all = λ n. refl;
  close_class = λ n c e. omega (arith, (class_exact n c e).1);
}
