-- ===== src/Numeric/Halves.antt =====
-- The halves of a byte in the cache of core/src/numeric.rs: a digit put into one leaves the other.
use Prim.Native.Nat.{bit_and, bit_or}
use perloxide.Prelude.{
  ℕ, zero, suc, ◌*◌, ◌/◌, ◌%◌, ◌^◌, ◌<◌, ◌≡◌, refl, Bool, true, ◌&&◌, List, [], ◌∷◌, ltb, ◌==◌,
  if◌then◌else◌, length, get_or, set, All, and_true, arith,
}
use perloxide.Prelude.Bits.{IsByte, all_below, below}

-- A digit in the upper half of a byte, and in the lower.
high_pass : ℕ → ℕ → Bool
high_pass s d =
    let v = bit_or (bit_and s 0x0F) (d * 2 ^ 4 % 256) in
    v / 2 ^ 4 == d && bit_and v 0x0F == bit_and s 0x0F && ltb v 256

low_pass : ℕ → ℕ → Bool
low_pass s d =
    let v = bit_or (bit_and s 0xF0) d in bit_and v 0x0F == d && v / 2 ^ 4 == s / 2 ^ 4 && ltb v 256

halves_table : all_below 256 (λ s. all_below 16 (λ d. high_pass s d && low_pass s d)) ≡ true
unfolding high_pass low_pass
halves_table = refl

halves : (s d : ℕ) → s < 256 → d < 16 → (high_pass s d ≡ true) × (low_pass s d ≡ true)
halves s d hs hd = and_true (high_pass s d) (low_pass s d) (
    below 16 (λ d. high_pass s d && low_pass s d)
      (below 256 (λ s. all_below 16 (λ d. high_pass s d && low_pass s d)) halves_table s hs) d hd)

unfoldable pub high_digit : ℕ → ℕ → ℕ
high_digit s d = bit_or (bit_and s 0x0F) (d * 2 ^ 4 % 256)

unfoldable pub low_digit : ℕ → ℕ → ℕ
low_digit s d = bit_or (bit_and s 0xF0) d

high_digit_lem :
    (s d : ℕ)
    → s < 256
    → d < 16
    → (high_digit s d / 2 ^ 4 ≡ d)
      × (bit_and (high_digit s d) 0x0F ≡ bit_and s 0x0F)
      × (high_digit s d < 256)
unfolding high_pass high_digit
high_digit_lem s d hs hd =
    let h = (halves s d hs hd).0 in (ground arith, ground arith, ground arith)

low_digit_lem :
    (s d : ℕ)
    → s < 256
    → d < 16
    → (bit_and (low_digit s d) 0x0F ≡ d)
      × (low_digit s d / 2 ^ 4 ≡ s / 2 ^ 4)
      × (low_digit s d < 256)
unfolding low_pass low_digit
low_digit_lem s d hs hd = let h = (halves s d hs hd).1 in (ground arith, ground arith, ground arith)

-- A digit put into the half of an index, and the half of an index.
unfoldable pub put : ℕ → ℕ → ℕ → ℕ
put s i d = if i % 2 == 0 then high_digit s d else low_digit s d

unfoldable pub half : ℕ → ℕ → ℕ
half byte i = if i % 2 == 0 then byte / 2 ^ 4 else bit_and byte 0x0F

pub put-IsByte : (s i d : ℕ) → s < 256 → d < 16 → put s i d < 256
unfolding put
put-IsByte s i d hs hd = ground (arith, high_digit_lem s d hs hd, low_digit_lem s d hs hd)

pub half-put :
    (s i d j : ℕ) → s < 256 → d < 16 → half (put s i d) j ≡ (if i % 2 == j % 2 then d else half s j)
unfolding put half
half-put s i d j hs hd = ground (arith, high_digit_lem s d hs hd, low_digit_lem s d hs hd)

pub get_or-set :
    (xs : List ℕ) (k m v : ℕ)
    → k < length xs
    → get_or (set xs k v) m 0 ≡ (if k == m then v else get_or xs m 0)
get_or-set [] k m v h = absurd (omega arith)
get_or-set (x ∷ xs) zero zero v h = refl
get_or-set (x ∷ xs) zero (suc m) v h = ground arith
get_or-set (x ∷ xs) (suc k) zero v h = ground arith
get_or-set (x ∷ xs) (suc k) (suc m) v h = ground (arith, get_or-set xs k m v)

pub length-set : (xs : List ℕ) (k v : ℕ) → length (set xs k v) ≡ length xs
length-set [] k v = refl
length-set (x ∷ xs) zero v = refl
length-set (x ∷ xs) (suc k) v = omega (arith, length-set xs k v)

pub All-set : (xs : List ℕ) (k v : ℕ) → All IsByte xs → v < 256 → All IsByte (set xs k v)
All-set [] k v h l = tt
All-set (x ∷ xs) zero v h l = (l, h.1)
All-set (x ∷ xs) (suc k) v h l = (h.0, All-set xs k v h.1 l)

pub byte_at : (xs : List ℕ) (k : ℕ) → All IsByte xs → get_or xs k 0 < 256
byte_at [] k h = omega arith
byte_at (x ∷ xs) zero h = h.0
byte_at (x ∷ xs) (suc k) h = byte_at xs k h.1
