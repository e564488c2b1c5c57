-- ===== src/Numeric/Runs.antt =====
-- The digit run by words in core/src/value.rs: `word_all_digits` tests each byte of a word.
use Prim.Native.Nat.{bit_and}
use perloxide.Prelude.{
  ℕ, zero, suc, ◌+◌, ◌*◌, ◌≤◌, ◌<◌, ◌≡◌, refl, sym, ap, ◌∙◌, Bool, true, false, ◌&&◌, List, [], ◌∷◌,
  map, ltb, leb, ◌==◌, length, take, drop, All, all, Bool-cases, inl, inr, ltb→lt, and_true,
  length-take, length-drop, arith,
}
use perloxide.Prelude.Bits.{IsByte, all_below, below}
use perloxide.Latin1.Words.{from_le_bytes}
use perloxide.Latin1.Ands.{and_parts}
use perloxide.Utf8.Blocks.{All-take, All-drop}
use perloxide.Numeric.Text.{is_digit, count_digits, word_all_digits, digit_words, digit_run}

-- A word of so many equal bytes.
repeated : ℕ → ℕ → ℕ
repeated v zero = 0
repeated v (suc n) = v + 256 * repeated v n

-- A word is masked byte by byte.
masked :
    (v : ℕ)
    → v < 256
    → (bytes : List ℕ) → All IsByte bytes
    → bit_and (from_le_bytes bytes) (repeated v (length bytes))
      ≡ from_le_bytes (map (λ b. bit_and b v) bytes)
unfolding from_le_bytes repeated
masked v hv [] h = refl
masked v hv (b ∷ bs) h =
    and_parts 8 b v (from_le_bytes bs) (repeated v (length bs)) h.0 hv
    ∙ ap (λ (t : ℕ). bit_and b v + 256 * t) (masked v hv bs h.1)

added :
    (g : ℕ → ℕ) (v : ℕ) (bytes : List ℕ)
    → from_le_bytes (map g bytes) + repeated v (length bytes)
      ≡ from_le_bytes (map (λ b. g b + v) bytes)
unfolding from_le_bytes repeated
added g v [] = refl
added g v (b ∷ bs) = omega (arith, added g v bs)

-- Two words are equal where their bytes are.
digit_eq : (c v x y : ℕ) → c < 256 → v < 256 → (c + 256 * x == v + 256 * y) ≡ ((c == v) && (x == y))
digit_eq c v x y hc hv = ground arith

map-eq-repeated :
    (g : ℕ → ℕ) (v : ℕ)
    → v < 256
    → (bytes : List ℕ) → All (λ b. g b < 256) bytes
    → (from_le_bytes (map g bytes) == repeated v (length bytes)) ≡ all (λ b. g b == v) bytes
unfolding from_le_bytes repeated
map-eq-repeated g v hv [] h = refl
map-eq-repeated g v hv (b ∷ bs) h =
    digit_eq (g b) v (from_le_bytes (map g bs)) (repeated v (length bs)) h.0 hv
    ∙ ap (λ t. g b == v && t) (map-eq-repeated g v hv bs h.1)

All-lt :
    (g : ℕ → ℕ)
    → all_below 256 (λ b. ltb (g b) 256) ≡ true
    → (bytes : List ℕ) → All IsByte bytes
    → All (λ b. g b < 256) bytes
All-lt g t [] h = tt
All-lt g t (b ∷ bs) h =
    (ltb→lt (g b) 256 (below 256 (λ x. ltb (g x) 256) t b h.0), All-lt g t bs h.1)

All-map : (g : ℕ → ℕ) (bytes : List ℕ) → All (λ b. g b < 256) bytes → All IsByte (map g bytes)
All-map g [] h = tt
All-map g (b ∷ bs) h = (h.0, All-map g bs h.1)

length-map : (g : ℕ → ℕ) (bytes : List ℕ) → length (map g bytes) ≡ length bytes
length-map g [] = refl
length-map g (b ∷ bs) = omega (arith, length-map g bs)

map-map : (g k : ℕ → ℕ) (bytes : List ℕ) → map k (map g bytes) ≡ map (λ b. k (g b)) bytes
map-map g k [] = refl
map-map g k (b ∷ bs) = ap (λ t. k (g b) ∷ t) (map-map g k bs)

agree : Bool → Bool → Bool
agree true b = b
agree false true = false
agree false false = true

agree-eq : (a b : Bool) → agree a b ≡ true → a ≡ b
unfolding agree
agree-eq true b h = sym h
agree-eq false true h = cc
agree-eq false false h = refl

-- The nibble tests of a byte.
abbrev nibbles_pass : ℕ → Bool
nibbles_pass b = bit_and b 0xF0 == 0x30 && bit_and (bit_and b 0x0F + 6) 0xF0 == 0

digit_table : all_below 256 (λ b. agree (nibbles_pass b) (is_digit b)) ≡ true
unfolding agree
digit_table = refl

byte_test : (b : ℕ) → b < 256 → nibbles_pass b ≡ is_digit b
byte_test b h =
    agree-eq (nibbles_pass b) (is_digit b)
      (below 256 (λ b. agree (nibbles_pass b) (is_digit b)) digit_table b h)

all-and :
    (p q r : ℕ → Bool) (bytes : List ℕ)
    → All (λ b. (p b && q b) ≡ r b) bytes
    → (all p bytes && all q bytes) ≡ all r bytes
all-and p q r [] h = refl
all-and p q r (b ∷ bs) h = ground (arith, all-and p q r bs h.1, h.0)

All-tests : (bytes : List ℕ) → All IsByte bytes → All (λ b. nibbles_pass b ≡ is_digit b) bytes
All-tests [] h = tt
All-tests (b ∷ bs) h = (byte_test b h.0, All-tests bs h.1)

abbrev high_nibble : ℕ → ℕ
high_nibble b = bit_and b 0xF0

abbrev low_nibble : ℕ → ℕ
low_nibble b = bit_and b 0x0F

abbrev carried : ℕ → ℕ
carried b = bit_and b 0x0F + 6

module _ (bytes : List ℕ) (h : All IsByte bytes) where
  high_test :
      (bit_and (from_le_bytes bytes) (repeated 0xF0 (length bytes)) == repeated 0x30 (length bytes))
      ≡ all (λ b. high_nibble b == 0x30) bytes
  high_test =
      ap (λ t. t == repeated 0x30 (length bytes)) (masked 0xF0 (omega arith) bytes h)
      ∙ map-eq-repeated high_nibble 0x30 (omega arith) bytes (All-lt high_nibble refl bytes h)

  low_sum :
      bit_and (from_le_bytes bytes) (repeated 0x0F (length bytes)) + repeated 6 (length bytes)
      ≡ from_le_bytes (map carried bytes)
  low_sum =
      ap (λ (t : ℕ). t + repeated 6 (length bytes)) (masked 0x0F (omega arith) bytes h)
      ∙ added low_nibble 6 bytes

  low_test :
      (bit_and
          (bit_and (from_le_bytes bytes) (repeated 0x0F (length bytes)) + repeated 6 (length bytes))
          (repeated 0xF0 (length bytes))
        == repeated 0 (length bytes))
      ≡ all (λ b. high_nibble (carried b) == 0) bytes
  low_test =
      ap (λ t. bit_and t (repeated 0xF0 (length bytes)) == repeated 0 (length bytes)) low_sum
      ∙ ap
          (λ k.
            bit_and (from_le_bytes (map carried bytes)) (repeated 0xF0 k)
            == repeated 0 (length bytes))
          (sym (length-map carried bytes))
      ∙ ap (λ t. t == repeated 0 (length bytes))
          (masked 0xF0 (omega arith) (map carried bytes)
            (All-map carried bytes (All-lt carried refl bytes h)))
      ∙ ap (λ t. from_le_bytes t == repeated 0 (length bytes)) (map-map carried high_nibble bytes)
      ∙ map-eq-repeated (λ b. high_nibble (carried b)) 0 (omega arith) bytes
          (All-lt (λ b. high_nibble (carried b)) refl bytes h)

  -- The two tests of a word of any length.
  both_tests :
      ((bit_and (from_le_bytes bytes) (repeated 0xF0 (length bytes))
          == repeated 0x30 (length bytes))
        && (bit_and
              (bit_and (from_le_bytes bytes) (repeated 0x0F (length bytes))
                + repeated 6 (length bytes))
              (repeated 0xF0 (length bytes))
            == repeated 0 (length bytes)))
      ≡ all is_digit bytes
  both_tests =
      rw (high_test, low_test)
        (all-and (λ b. high_nibble b == 0x30) (λ b. high_nibble (carried b) == 0) is_digit bytes
          (All-tests bytes h))

word_test :
    (bytes : List ℕ)
    → All IsByte bytes
    → length bytes ≡ 8
    → word_all_digits (from_le_bytes bytes) ≡ all is_digit bytes
unfolding word_all_digits repeated
word_test bytes h e =
    ap
      (λ k.
        bit_and (from_le_bytes bytes) (repeated 0xF0 k) == repeated 0x30 k
        && bit_and (bit_and (from_le_bytes bytes) (repeated 0x0F k) + repeated 6 k)
            (repeated 0xF0 k)
          == repeated 0 k)
      (sym e)
    ∙ both_tests bytes h

count_digits-all :
    (n : ℕ) (bytes : List ℕ)
    → n ≤ length bytes
    → all is_digit (take n bytes) ≡ true
    → count_digits bytes ≡ n + count_digits (drop n bytes)
unfolding count_digits
count_digits-all zero bytes h e = omega arith
count_digits-all (suc n) [] h e = absurd (omega arith)
count_digits-all (suc n) (b ∷ bs) h e = ground (arith, count_digits-all n bs)

digit_words-count :
    (fuel i : ℕ) (bytes : List ℕ)
    → All IsByte bytes
    → length bytes < fuel
    → digit_words fuel i bytes ≡ i + count_digits bytes
unfolding digit_words
digit_words-count zero i bytes h l = absurd (omega arith)
digit_words-count (suc fuel) i bytes h l =
    elim (Bool-cases (leb 8 (length bytes) && word_all_digits (from_le_bytes (take 8 bytes)))) [
      | inl e ↦
          let long : 8 ≤ length bytes = ground (arith, e) in
          let digits : all is_digit (take 8 bytes) ≡ true =
            sym (word_test (take 8 bytes) (All-take 8 bytes h) (length-take 8 bytes long))
            ∙ (and_true (leb 8 (length bytes)) (word_all_digits (from_le_bytes (take 8 bytes)))
                e).1 in
          rw e (
            omega (
              arith,
              digit_words-count fuel (i + 8) (drop 8 bytes) (All-drop 8 bytes h)
                  (omega (arith, length-drop 8 bytes)),
              count_digits-all 8 bytes long digits,
            ))
      | inr e ↦ rw e refl
    ]

-- On every byte string the digit run by words is the number of digits before the first byte that is
-- none.
pub digit_run_exact : (bytes : List ℕ) → All IsByte bytes → digit_run bytes ≡ count_digits bytes
unfolding digit_run
digit_run_exact bytes h =
    omega (arith, digit_words-count (suc (length bytes)) 0 bytes h (omega arith))
