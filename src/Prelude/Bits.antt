-- ===== src/Prelude/Bits.antt =====
-- `|` on bytes, and laws of small numbers by evaluation.
use Prim.Native.Nat.{
  ℕ, zero, suc, ◌+◌, ◌*◌, ◌/◌, ◌%◌, ◌^◌, ◌≤◌, ◌<◌, max, digits, bitwise, bit_and, bit_or,
  bit_or-bitwise,
}
use mathlib.Core.Path.{◌≡◌, refl, ap}
use mathlib.Core.Bool.{Bool, true, not, ◌&&◌, ◌||◌}
use mathlib.Core.List.{List, [], ◌∷◌, foldl}
use native.Mathlib.Nat.{pow-suc}
use native.Mathlib.Omega.{arith}
use perloxide.Prelude.Tests.{◌==◌, ltb}
use perloxide.Prelude.Lists.{All}

abbrev pub IsByte : ℕ → Type 0
IsByte b = b < 256

-- A law of all numbers below `n`, by evaluation.
abbrev pub all_below : ℕ → (ℕ → Bool) → Bool
all_below zero p = true
all_below (suc n) p = p n && all_below n p

pub below : (n : ℕ) (p : ℕ → Bool) → all_below n p ≡ true → (x : ℕ) → x < n → p x ≡ true
below zero p h x lt = absurd (omega arith)
below (suc n) p h x lt = ground (arith, below n p (ground arith) x)

-- The native operations compute digit by digit on fuel; more fuel changes nothing.
module _ (past : ℕ → ℕ) (op : ℕ → ℕ → ℕ) where
  digits-more :
      (value other fuel more : ℕ)
      → value ≤ fuel
      → fuel ≤ more
      → digits past op more value other ≡ digits past op fuel value other
  digits-more zero other zero zero h k = refl
  digits-more zero other zero (suc more) h k = refl
  digits-more zero other (suc fuel) zero h k = refl
  digits-more zero other (suc fuel) (suc more) h k = refl
  digits-more (suc value) other zero more h k = absurd (omega arith)
  digits-more (suc value) other (suc fuel) zero h k = absurd (omega arith)
  digits-more (suc value) other (suc fuel) (suc more) h k =
      let half = digits-more (suc value / 2) (other / 2) fuel more (omega arith) (omega arith) in
      ap (λ t. t * 2 + op (suc value % 2) (other % 2)) half

  -- The lowest digit and the rest, of a number that is not zero.
  pub bitwise-suc :
      (value other : ℕ)
      → bitwise past op (suc value) other
        ≡ bitwise past op (suc value / 2) (other / 2) * 2 + op (suc value % 2) (other % 2)
  bitwise-suc value other =
      let half =
        digits-more (suc value / 2) (other / 2) (suc value / 2) value (omega arith) (omega arith) in
      ap (λ t. t * 2 + op (suc value % 2) (other % 2)) half

zero-bit_or : (b : ℕ) → bit_or 0 b ≡ b
zero-bit_or b = bit_or-bitwise 0 b

-- The lowest digit of `a | b` and the rest.
bit_or_digit : (a b : ℕ) → bit_or a b ≡ bit_or (a / 2) (b / 2) * 2 + max (a % 2) (b % 2)
bit_or_digit zero b = omega (arith, zero-bit_or b, zero-bit_or (b / 2))
bit_or_digit (suc a) b = omega (
  arith,
  bit_or-bitwise (suc a) b,
  bit_or-bitwise (suc a / 2) (b / 2),
  bitwise-suc (λ y. y) max a b,
)

bit_or_keeps : (n a b : ℕ) → a ≤ n → (a ≤ bit_or a b) × (b ≤ bit_or a b)
bit_or_keeps n zero b h = omega (arith, zero-bit_or b)
bit_or_keeps zero (suc a) b h = absurd (omega arith)
bit_or_keeps (suc n) (suc a) b h =
    let ih = bit_or_keeps n (suc a / 2) (b / 2) (omega arith) in
    omega (arith, bit_or_digit (suc a) b)

bit_or_fits : (w a b : ℕ) → a < 2 ^ w → b < 2 ^ w → bit_or a b < 2 ^ w
bit_or_fits zero a b ha hb = omega (arith, zero-bit_or b, ap (λ (t : ℕ). bit_or t b) (zero_of a ha))
  where
    zero_of : (x : ℕ) → x < 2 ^ 0 → x ≡ 0
    zero_of x h = omega arith
bit_or_fits (suc w) a b ha hb = omega (
  arith,
  pow-suc 2 w,
  bit_or_digit a b,
  bit_or_fits w (a / 2) (b / 2) (omega (arith, pow-suc 2 w)) (omega (arith, pow-suc 2 w)),
)

pub fold_or_keeps :
    (bs : List ℕ) (acc bound : ℕ)
    → foldl bit_or acc bs < bound
    → All (λ b. b < bound) bs × (acc < bound)
fold_or_keeps [] acc bound h = (tt, h)
fold_or_keeps (b ∷ bs) acc bound h =
    let (rest, here) = fold_or_keeps bs (bit_or acc b) bound h in
    let keeps = bit_or_keeps acc acc b (omega arith) in ((omega arith, rest), omega arith)

pub fold_or-IsByte :
    (bs : List ℕ) (acc : ℕ) → All IsByte bs → IsByte acc → IsByte (foldl bit_or acc bs)
fold_or-IsByte [] acc h a = a
fold_or-IsByte (b ∷ bs) acc h a = fold_or-IsByte bs (bit_or acc b) h.1 (bit_or_fits 8 acc b a h.0)

top_bit_table : all_below 256 (λ x. not (bit_and x 0x80 == 0) || ltb x 128) ≡ true
top_bit_table = refl

pub top_bit_clear : (x : ℕ) → IsByte x → (bit_and x 0x80 == 0) ≡ true → x < 128
top_bit_clear x h e =
    ground (arith, below 256 (λ x. not (bit_and x 0x80 == 0) || ltb x 128) top_bit_table x)
