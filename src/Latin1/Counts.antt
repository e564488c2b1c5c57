-- ===== src/Latin1/Counts.antt =====
-- The word loops of core/src/cow_buffer.rs against the count and the position taken byte by byte.
use Prim.Native.Nat.{bit_and}
use perloxide.Prelude.{
  ℕ, zero, suc, ◌+◌, ◌-◌, ◌*◌, ◌/◌, ◌%◌, ◌^◌, ◌≤◌, ◌<◌, ◌≡◌, ◌⊎◌, refl, sym, ap, ◌∙◌, Option, none,
  some, List, [], ◌∷◌, leb, ◌==◌, length, take, drop, All, ==_iff, inl, inr, Bool-cases, arith,
}
use perloxide.Prelude.Bits.{IsByte}
use perloxide.Latin1.Words.{
  high_bits, from_le_bytes, count_ones, count_high, count_words, variant_count, skip_words,
  position_high, first_variant,
}
use perloxide.Latin1.Ands.{word_ones}

count_high-split :
    (n : ℕ) (bytes : List ℕ)
    → count_high (take n bytes) + count_high (drop n bytes) ≡ count_high bytes
unfolding count_high
count_high-split zero bytes = omega arith
count_high-split (suc n) [] = refl
count_high-split (suc n) (b ∷ bs) = omega (arith, count_high-split n bs)

take-IsByte : (n : ℕ) (bytes : List ℕ) → All IsByte bytes → All IsByte (take n bytes)
take-IsByte zero bytes h = tt
take-IsByte (suc n) [] h = tt
take-IsByte (suc n) (b ∷ bs) h = (h.0, take-IsByte n bs h.1)

pub drop-IsByte : (n : ℕ) (bytes : List ℕ) → All IsByte bytes → All IsByte (drop n bytes)
drop-IsByte zero bytes h = h
drop-IsByte (suc n) [] h = tt
drop-IsByte (suc n) (b ∷ bs) h = drop-IsByte n bs h.1

length-take_all : (n : ℕ) (bytes : List ℕ) → n ≤ length bytes → length (take n bytes) ≡ n
length-take_all zero bytes h = refl
length-take_all (suc n) [] h = absurd (omega arith)
length-take_all (suc n) (b ∷ bs) h = omega (arith, length-take_all n bs)

pub length-drop : (n : ℕ) (bytes : List ℕ) → length (drop n bytes) ≡ length bytes - n
length-drop zero bytes = omega arith
length-drop (suc n) [] = omega arith
length-drop (suc n) (b ∷ bs) = omega (arith, length-drop n bs)

-- What the loop over words leaves: a wrapped counter, and less than a word.
record IsCounted (fuel count : ℕ) (bytes : List ℕ) : Type 0 where
  wraps : ℕ
  sum :
      (count_words fuel count bytes).0
        + count_high (count_words fuel count bytes).1
        + 2 ^ 32 * wraps
      ≡ count + count_high bytes
  narrow : (count_words fuel count bytes).0 < 2 ^ 32
  short : length (count_words fuel count bytes).1 < 8

count_words-IsCounted :
    (fuel count : ℕ) (bytes : List ℕ)
    → All IsByte bytes
    → length bytes ≤ fuel
    → count < 2 ^ 32
    → IsCounted fuel count bytes
unfolding count_words
count_words-IsCounted zero count [] h l c = record {
  wraps = 0;
  sum = omega arith;
  narrow = c;
  short = omega arith;
}
count_words-IsCounted zero count (b ∷ bs) h l c = absurd (omega arith)
count_words-IsCounted (suc fuel) count bytes h l c = elim (Bool-cases (leb 8 (length bytes))) [
  | inr short ↦ record {
    wraps = 0;
    sum = ground (arith, short);
    narrow = ground (arith, short);
    short = ground (arith, short);
  }
  | inl word ↦
      let ones =
        word_ones (take 8 bytes) (take-IsByte 8 bytes h) (length-take_all 8 bytes (ground arith)) in
      let next = count + count_ones 64 (bit_and (from_le_bytes (take 8 bytes)) high_bits) in
      let ih =
        count_words-IsCounted fuel (next % 2 ^ 32) (drop 8 bytes) (drop-IsByte 8 bytes h)
          (omega (arith, length-drop 8 bytes)) (omega arith) in
      record {
        wraps = ih.wraps + next / 2 ^ 32;
        sum = rw word (omega (arith, ih.sum, ones, count_high-split 8 bytes));
        narrow = rw word ih.narrow;
        short = rw word ih.short;
      }
]

count_high-le : (bytes : List ℕ) → count_high bytes ≤ length bytes
unfolding count_high
count_high-le [] = omega arith
count_high-le (b ∷ bs) = ground (arith, count_high-le bs)

exact_or_large : (n total k : ℕ) → n + 2 ^ 32 * k ≡ total → (n ≡ total) ⊎ (2 ^ 32 ≤ total)
exact_or_large n total zero e = inl (omega arith)
exact_or_large n total (suc k) e = inr (omega arith)

-- The count by words agrees with the count byte by byte modulo 2^32 and is below 2^32 + 7; it is the
-- exact count, or there are 2^32 high bytes or more.
pub variant_count_exact :
    (bytes : List ℕ)
    → All IsByte bytes
    → (variant_count bytes % 2 ^ 32 ≡ count_high bytes % 2 ^ 32)
      × (variant_count bytes < 2 ^ 32 + 7)
      × ((variant_count bytes ≡ count_high bytes) ⊎ (2 ^ 32 ≤ count_high bytes))
unfolding variant_count
variant_count_exact bytes h =
    let c = count_words-IsCounted (length bytes) 0 bytes h (omega arith) (omega arith) in
    let few = count_high-le (count_words (length bytes) 0 bytes).1 in
    (
      omega (arith, c.sum),
      omega (arith, c.narrow, c.short, few),
      exact_or_large _ (count_high bytes) c.wraps (omega (arith, c.sum)),
    )

abbrev shifted : ℕ → Option ℕ → Option ℕ
shifted n none = none
shifted n (some k) = some (n + k)

shifted-shifted : (n m : ℕ) (o : Option ℕ) → shifted n (shifted m o) ≡ shifted (n + m) o
shifted-shifted n m none = refl
shifted-shifted n m (some k) = ap some (omega arith)

shifted-zero : (o : Option ℕ) → shifted 0 o ≡ o
shifted-zero none = refl
shifted-zero (some k) = ap some (omega arith)

shifted-suc :
    (n : ℕ) (o : Option ℕ)
    → shifted (suc n) o ≡ (elim (shifted n o) [ none ↦ none | some k ↦ some (suc k) ])
shifted-suc n none = refl
shifted-suc n (some k) = ap some (omega arith)

as_shifted : (n : ℕ) (o : Option ℕ) → (elim o [ none ↦ none | some k ↦ some (n + k) ]) ≡ shifted n o
as_shifted n none = refl
as_shifted n (some k) = refl

zero_ones : count_ones 64 0 ≡ 0
unfolding count_ones
zero_ones = refl

-- Bytes without a high one are passed over.
position_high-drop :
    (n : ℕ) (bytes : List ℕ)
    → n ≤ length bytes
    → count_high (take n bytes) ≡ 0
    → position_high bytes ≡ shifted n (position_high (drop n bytes))
unfolding position_high count_high
position_high-drop zero bytes h e = sym (shifted-zero (position_high bytes))
position_high-drop (suc n) [] h e = absurd (omega arith)
position_high-drop (suc n) (b ∷ bs) h e =
    ground (arith, position_high-drop n bs, shifted-suc n (position_high (drop n bs)))

drop-nil : (n : ℕ) → drop {A = ℕ} n [] ≡ []
drop-nil zero = refl
drop-nil (suc n) = refl

drop-drop : (n m : ℕ) (bytes : List ℕ) → drop n (drop m bytes) ≡ drop (m + n) bytes
drop-drop n zero bytes = let e : n ≡ 0 + n = omega arith in ap (λ k. drop k bytes) e
drop-drop n (suc m) [] = drop-nil n ∙ sym (drop-nil (suc m + n))
drop-drop n (suc m) (b ∷ bs) =
    let e : suc (m + n) ≡ suc m + n = omega arith in drop-drop n m bs ∙ ap (λ k. drop k (b ∷ bs)) e

-- How far the loop over words goes, and that it passes no high byte.
record IsSkipped (fuel offset : ℕ) (bytes : List ℕ) : Type 0 where
  far : ℕ
  lands : skip_words fuel offset bytes ≡ offset + far
  passes : position_high bytes ≡ shifted far (position_high (drop far bytes))

stays : (bytes : List ℕ) → position_high bytes ≡ shifted 0 (position_high (drop 0 bytes))
stays bytes = sym (shifted-zero (position_high bytes))

skip_words-IsSkipped :
    (fuel offset : ℕ) (bytes : List ℕ)
    → All IsByte bytes
    → length bytes ≤ fuel
    → IsSkipped fuel offset bytes
unfolding skip_words
skip_words-IsSkipped zero offset bytes h l = record {
  far = 0;
  lands = omega arith;
  passes = stays bytes;
}
skip_words-IsSkipped (suc fuel) offset bytes h l = elim (Bool-cases (leb 8 (length bytes))) [
  | inr short ↦ record { far = 0; lands = ground (arith, short); passes = stays bytes }
  | inl word ↦ elim (Bool-cases (bit_and (from_le_bytes (take 8 bytes)) high_bits == 0)) [
    | inr high ↦ record { far = 0; lands = ground (arith, word, high); passes = stays bytes }
    | inl clear ↦
        let ih =
          skip_words-IsSkipped fuel (offset + 8) (drop 8 bytes) (drop-IsByte 8 bytes h)
            (omega (arith, length-drop 8 bytes)) in
        let ones =
          word_ones (take 8 bytes) (take-IsByte 8 bytes h)
            (length-take_all 8 bytes (ground arith)) in
        let zeros : count_high (take 8 bytes) ≡ 0 =
          sym ones
          ∙ ap (count_ones 64)
              ((==_iff (bit_and (from_le_bytes (take 8 bytes)) high_bits) 0).0 clear)
          ∙ zero_ones in
        record {
          far = 8 + ih.far;
          lands = rw (word, clear) (omega (arith, ih.lands));
          passes =
              position_high-drop 8 bytes (ground arith) zeros
              ∙ ap (shifted 8) ih.passes
              ∙ shifted-shifted 8 ih.far (position_high (drop ih.far (drop 8 bytes)))
              ∙ ap (λ xs. shifted (8 + ih.far) (position_high xs)) (drop-drop ih.far 8 bytes);
        }
  ]
]

-- The search by words finds the first high byte.
pub first_variant_exact :
    (bytes : List ℕ) → All IsByte bytes → first_variant bytes ≡ position_high bytes
unfolding first_variant
first_variant_exact bytes h =
    let k = skip_words-IsSkipped (length bytes) 0 bytes h (omega arith) in
    let lands : skip_words (length bytes) 0 bytes ≡ k.far = omega (arith, k.lands) in
    as_shifted (skip_words (length bytes) 0 bytes)
      (position_high (drop (skip_words (length bytes) 0 bytes) bytes))
    ∙ ap (λ n. shifted n (position_high (drop n bytes))) lands
    ∙ sym k.passes
