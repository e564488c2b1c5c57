-- ===== src/Latin1/Ands.antt =====
-- The masked words of core/src/cow_buffer.rs: `&` digit by digit, and the high bits of a word.
use Prim.Native.Nat.{min, bit_and, bit_and-bitwise}
use native.Mathlib.Nat.{pow-suc}
use perloxide.Prelude.{
  ℕ, zero, suc, ◌+◌, ◌*◌, ◌/◌, ◌%◌, ◌^◌, ◌<◌, ◌≡◌, refl, ap, ◌∙◌, true, List, [], ◌∷◌, ltb, leb,
  ◌==◌, if◌then◌else◌, length, All, ==_iff, ltb→lt, arith,
}
use perloxide.Prelude.Bits.{IsByte, all_below, below, bitwise-suc}
use perloxide.Latin1.Words.{high_bits, from_le_bytes, count_ones, count_high}

masked_zero : (b : ℕ) → bit_and 0 b ≡ 0
masked_zero b = bit_and-bitwise 0 b

-- The lowest digit of `a & b` and the rest.
pub bit_and_digit : (a b : ℕ) → bit_and a b ≡ min (a % 2) (b % 2) + 2 * bit_and (a / 2) (b / 2)
bit_and_digit zero b = omega (arith, masked_zero (b / 2), masked_zero b)
bit_and_digit (suc a) b = omega (
  arith,
  bitwise-suc (λ y. zero) min a b,
  bit_and-bitwise (suc a / 2) (b / 2),
  bit_and-bitwise (suc a) b,
)

doubled : (k x : ℕ) → 2 ^ suc k * x ≡ 2 * (2 ^ k * x)
doubled k x = ap (λ (t : ℕ). t * x) (pow-suc 2 k) ∙ grind arith

-- A word in two parts is masked part by part.
pub and_parts :
    (k a b x y : ℕ)
    → a < 2 ^ k
    → b < 2 ^ k
    → bit_and (a + 2 ^ k * x) (b + 2 ^ k * y) ≡ bit_and a b + 2 ^ k * bit_and x y
and_parts zero a b x y ha hb =
    let za : a ≡ 0 = omega arith in
    let zb : b ≡ 0 = omega arith in
    let wa : a + 2 ^ 0 * x ≡ x = omega arith in
    let wb : b + 2 ^ 0 * y ≡ y = omega arith in
    let whole : bit_and (a + 2 ^ 0 * x) (b + 2 ^ 0 * y) ≡ bit_and x y = cc (wa, wb) in
    let part : bit_and a b ≡ bit_and 0 b = cc za in omega (arith, whole, part, masked_zero b)
and_parts (suc k) a b x y ha hb =
    let ra : (a + 2 ^ suc k * x) / 2 ≡ a / 2 + 2 ^ k * x = omega (arith, doubled k x) in
    let rb : (b + 2 ^ suc k * y) / 2 ≡ b / 2 + 2 ^ k * y = omega (arith, doubled k y) in
    let ma : (a + 2 ^ suc k * x) % 2 ≡ a % 2 = omega (arith, doubled k x) in
    let mb : (b + 2 ^ suc k * y) % 2 ≡ b % 2 = omega (arith, doubled k y) in
    let rest : bit_and ((a + 2 ^ suc k * x) / 2) ((b + 2 ^ suc k * y) / 2)
        ≡ bit_and (a / 2 + 2 ^ k * x) (b / 2 + 2 ^ k * y) =
      cc (ra, rb) in
    let digit : min ((a + 2 ^ suc k * x) % 2) ((b + 2 ^ suc k * y) % 2) ≡ min (a % 2) (b % 2) =
      cc (ma, mb) in
    let ih =
      and_parts k (a / 2) (b / 2) x y (omega (arith, pow-suc 2 k)) (omega (arith, pow-suc 2 k)) in
    omega (
      arith,
      bit_and_digit (a + 2 ^ suc k * x) (b + 2 ^ suc k * y),
      bit_and_digit a b,
      rest,
      digit,
      ih,
      doubled k (bit_and x y),
    )

-- The high bits of so many bytes.
high_mask : ℕ → ℕ
high_mask zero = 0
high_mask (suc n) = 128 + 256 * high_mask n

byte_ones :
    all_below 256 (λ c. count_ones 8 (bit_and c 128) == (if leb 0x80 c then 1 else 0)) ≡ true
unfolding count_ones
byte_ones = refl

and_byte-lt : all_below 256 (λ c. ltb (bit_and c 128) 256) ≡ true
and_byte-lt = refl

count_ones-parts :
    (k n a x : ℕ) → a < 2 ^ k → count_ones (k + n) (a + 2 ^ k * x) ≡ count_ones k a + count_ones n x
unfolding count_ones
count_ones-parts zero n a x h =
    let za : a + 2 ^ 0 * x ≡ x = omega arith in
    let zn : 0 + n ≡ n = omega arith in
    let whole : count_ones (0 + n) (a + 2 ^ 0 * x) ≡ count_ones n x = cc (za, zn) in
    omega (arith, whole)
count_ones-parts (suc k) n a x h =
    let w = a + 2 ^ suc k * x in
    let step : suc k + n ≡ suc (k + n) = omega arith in
    let longer : count_ones (suc k + n) w ≡ count_ones (suc (k + n)) w =
      ap (λ t. count_ones t w) step in
    let half : w / 2 ≡ a / 2 + 2 ^ k * x = omega (arith, doubled k x) in
    let odd : w % 2 ≡ a % 2 = omega (arith, doubled k x) in
    omega (
      arith,
      longer,
      ap (count_ones (k + n)) half,
      odd,
      count_ones-parts k n (a / 2) x (omega (arith, pow-suc 2 k)),
    )

byte_high : (c : ℕ) → c < 256 → count_ones 8 (bit_and c 128) ≡ (if leb 0x80 c then 1 else 0)
byte_high c h =
    (==_iff _ _).0
      (below 256 (λ c. count_ones 8 (bit_and c 128) == (if leb 0x80 c then 1 else 0)) byte_ones c h)

-- The bits left in a masked word are its high bytes.
masked_ones :
    (bytes : List ℕ)
    → All IsByte bytes
    → count_ones (8 * length bytes) (bit_and (from_le_bytes bytes) (high_mask (length bytes)))
      ≡ count_high bytes
unfolding from_le_bytes count_high high_mask
masked_ones [] h = unfold count_ones in refl
masked_ones (c ∷ cs) h =
    let w = from_le_bytes cs in
    let m = high_mask (length cs) in
    let bits : 8 * suc (length cs) ≡ 8 + 8 * length cs = omega arith in
    let fits : bit_and c 128 < 256 =
      ltb→lt _ _ (below 256 (λ c. ltb (bit_and c 128) 256) and_byte-lt c h.0) in
    omega (
      arith,
      ap (λ t. count_ones t (bit_and (c + 256 * w) (128 + 256 * m))) bits,
      ap (count_ones (8 + 8 * length cs)) (and_parts 8 c 128 w m h.0 (omega arith)),
      count_ones-parts 8 (8 * length cs) (bit_and c 128) (bit_and w m) fits,
      byte_high c h.0,
      masked_ones cs h.1,
    )

mask_lem : high_mask 8 ≡ high_bits
unfolding high_mask
mask_lem = refl

-- A masked word of eight bytes.
pub word_ones :
    (bytes : List ℕ)
    → All IsByte bytes
    → length bytes ≡ 8
    → count_ones 64 (bit_and (from_le_bytes bytes) high_bits) ≡ count_high bytes
word_ones bytes h e = cc (masked_ones bytes h, mask_lem, ap high_mask e, ap (λ (t : ℕ). 8 * t) e)
