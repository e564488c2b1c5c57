-- ===== src/Numeric/Written.antt =====
-- The digits that the loop of the cache in core/src/numeric.rs writes are read back.
use perloxide.Prelude.{
  ℕ, suc, ◌+◌, ◌*◌, ◌/◌, ◌≤◌, ◌<◌, ◌≡◌, refl, sym, ap, ◌∙◌, false, List, [], ◌∷◌, ◌==◌,
  if◌then◌else◌, length, get_or, set, All, Bool-cases, inl, inr, arith,
}
use perloxide.Prelude.Bits.{IsByte}
use perloxide.Numeric.Cache.{digit, digits_from, write_digit, write_digits}
use perloxide.Numeric.Halves.{
  high_digit, low_digit, put, half, put-IsByte, half-put, get_or-set, length-set, All-set, byte_at,
}

module _ (at : ℕ) where
  write_digit_lem :
      (out : List ℕ) (i d : ℕ)
      → write_digit at out i d ≡ set out (at + i / 2) (put (get_or out (at + i / 2) 0) i d)
  unfolding write_digit put high_digit low_digit
  write_digit_lem out i d = refl

  digit_lem : (out : List ℕ) (j : ℕ) → digit at out j ≡ half (get_or out (at + j / 2) 0) j
  unfolding digit half
  digit_lem out j = refl

  write_digit-IsByte :
      (out : List ℕ) (i d : ℕ) → All IsByte out → d < 16 → All IsByte (write_digit at out i d)
  write_digit-IsByte out i d h l = rw (write_digit_lem out i d) (
      All-set out (at + i / 2) (put (get_or out (at + i / 2) 0) i d) h
        (put-IsByte (get_or out (at + i / 2) 0) i d (byte_at out (at + i / 2) h) l))

  length-write_digit : (out : List ℕ) (i d : ℕ) → length (write_digit at out i d) ≡ length out
  length-write_digit out i d =
      ap length (write_digit_lem out i d)
      ∙ length-set out (at + i / 2) (put (get_or out (at + i / 2) 0) i d)

  byte-write_digit :
      (out : List ℕ) (i d k : ℕ)
      → at + i / 2 < length out
      → get_or (write_digit at out i d) k 0
        ≡ (if at + i / 2 == k then put (get_or out (at + i / 2) 0) i d else get_or out k 0)
  byte-write_digit out i d k inside =
      ap (λ t. get_or t k 0) (write_digit_lem out i d)
      ∙ get_or-set out (at + i / 2) k (put (get_or out (at + i / 2) 0) i d) inside

  digit_arms :
      (i j d byte other : ℕ)
      → at + i / 2 < 7
      → byte < 256
      → d < 16
      → (at + i / 2 ≡ at + j / 2 → other ≡ byte)
      → half (if at + i / 2 == at + j / 2 then put byte i d else other) j
        ≡ (if i == j then d else half other j)
  digit_arms i j d byte other inside hb hd e = elim (Bool-cases (at + i / 2 == at + j / 2)) [
    | inl s ↦
        let same : at + i / 2 ≡ at + j / 2 = ground arith in
        let byte_same = e same in rw s (rw byte_same (ground (arith, half-put byte i d j hb hd)))
    | inr s ↦ let other_index : (i == j) ≡ false = ground arith in rw (s, other_index) refl
  ]

  -- A written digit is read back, and every other one stays.
  digit-write_digit :
      (out : List ℕ) (i d j : ℕ)
      → All IsByte out
      → d < 16
      → at + i / 2 < length out
      → length out ≡ 7
      → digit at (write_digit at out i d) j ≡ (if i == j then d else digit at out j)
  digit-write_digit out i d j h l inside seven =
      digit_lem (write_digit at out i d) j
      ∙ ap (λ t. half t j) (byte-write_digit out i d (at + j / 2) inside)
      ∙ digit_arms i j d (get_or out (at + i / 2) 0) (get_or out (at + j / 2) 0) (omega arith)
          (byte_at out (at + i / 2) h) l (λ e. ap (λ k. get_or out k 0) (sym e))
      ∙ ap (λ t. if i == j then d else t) (sym (digit_lem out j))

  abbrev pub IsCache : List ℕ → Type 0
  IsCache out = All IsByte out × (length out ≡ 7)

  write_digit-IsCache :
      (out : List ℕ) (i d : ℕ) → IsCache out → d < 16 → IsCache (write_digit at out i d)
  write_digit-IsCache out i d c l =
      (write_digit-IsByte out i d c.0 l, length-write_digit out i d ∙ c.1)

  -- The loop leaves the digits before its index.
  write_digits-before :
      (out : List ℕ) (i : ℕ) (ds : List ℕ) (j : ℕ)
      → IsCache out
      → All (λ d. d < 16) ds
      → 2 * at + i + length ds ≤ 14
      → j < i
      → digit at (write_digits at out i ds) j ≡ digit at out j
  unfolding write_digits
  write_digits-before out i [] j c l fits h = refl
  write_digits-before out i (d ∷ ds) j c l fits h =
      let other : (i == j) ≡ false = ground arith in
      write_digits-before (write_digit at out i d) (suc i) ds j (write_digit-IsCache out i d c l.0)
        l.1 (omega arith) (omega arith)
      ∙ digit-write_digit out i d j c.0 l.0 (omega (arith, c.1)) c.1
      ∙ rw other refl

  -- The bytes before the digits are left.
  pub write_digits-bytes :
      (out : List ℕ) (i : ℕ) (ds : List ℕ) (k : ℕ)
      → IsCache out
      → All (λ d. d < 16) ds
      → 2 * at + i + length ds ≤ 14
      → k < at
      → get_or (write_digits at out i ds) k 0 ≡ get_or out k 0
  unfolding write_digits
  write_digits-bytes out i [] k c l fits h = refl
  write_digits-bytes out i (d ∷ ds) k c l fits h =
      let other : (at + i / 2 == k) ≡ false = ground arith in
      write_digits-bytes (write_digit at out i d) (suc i) ds k (write_digit-IsCache out i d c l.0)
        l.1 (omega arith) h
      ∙ byte-write_digit out i d k (omega (arith, c.1))
      ∙ rw other refl

  pub write_digits-read :
      (out : List ℕ) (i : ℕ) (ds : List ℕ)
      → IsCache out
      → All (λ d. d < 16) ds
      → 2 * at + i + length ds ≤ 14
      → digits_from at (write_digits at out i ds) i (length ds) ≡ ds
  unfolding write_digits digits_from
  write_digits-read out i [] c l fits = refl
  write_digits-read out i (d ∷ ds) c l fits =
      let written = write_digit-IsCache out i d c l.0 in
      let first : digit at (write_digits at (write_digit at out i d) (suc i) ds) i ≡ d =
        write_digits-before (write_digit at out i d) (suc i) ds i written l.1 (omega arith)
          (omega arith)
        ∙ digit-write_digit out i d i c.0 l.0 (omega (arith, c.1)) c.1
        ∙ ground arith in
      cc (first, write_digits-read (write_digit at out i d) (suc i) ds written l.1 (omega arith))
