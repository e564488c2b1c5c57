-- ===== src/Numeric/RoundTrip.antt =====
-- Integers printed by core/src/value.rs and read back by its numification.
use perloxide.Prelude.{
  ℕ, suc, ◌+◌, ◌^◌, ◌≤◌, ◌<◌, ◌≡◌, refl, ap, ◌∙◌, Bool, true, false, ◌&&◌, ◌||◌, not, List, ltb,
  leb, ◌==◌, if◌then◌else◌, length, take, All, Bool-cases, inl, inr, arith,
}
use perloxide.Prelude.Int.{ℤ, pos, negsuc}
use perloxide.Numeric.Text.{is_whitespace, digit_run, split_sign, trim_end}
use perloxide.Numeric.Runs.{digit_run_exact}
use perloxide.Numeric.Parse.{
  Floats, Numeric, integer, unsigned, float, u64_max, i64_max, parse_int_i64_visible,
  parse_float_spanned,
}
use perloxide.Numeric.Classify.{
  integral_digits, continues, integral_token, classify_token, classify_numeric_noting_warning,
}
use perloxide.Numeric.Integers.{
  value_of, leading_digits, integral_digits-Saturates, visible, parse_int_exact,
}
use perloxide.Numeric.Render.{print_unsigned, unsigned_abs, is_negative, format_int_into}
use perloxide.Numeric.Printed.{Digits, print_unsigned_lem, count-Digits, take_all, Digits-IsByte}
use perloxide.Numeric.Signed.{
  signed_text, split-signed, solid_at, trim_end-solid, signed-solid, not_exception, continues_end,
}

module _ (f : Floats) where
  open f use {F}

  classify_solid :
      (bytes : List ℕ)
      → All (λ b. is_whitespace b ≡ false) bytes
      → classify_numeric_noting_warning f bytes ≡ classify_token f bytes
  unfolding classify_numeric_noting_warning
  classify_solid bytes h =
      let end = trim_end 0 bytes (length bytes) in
      let tested : Bool → Numeric F × Bool =
        λ z. if z then (integer (pos 0), false) else classify_token f (take end bytes) in
      ap tested (not_exception bytes h)
      ∙ ap (λ k. classify_token f (take k bytes))
          (trim_end-solid bytes (solid_at bytes h) (length bytes))
      ∙ ap (classify_token f) (take_all bytes)

  -- The classification of a token by its sign, its rest and the number of its digits.
  token_body : F × ℕ → Bool × List ℕ → ℕ → Numeric F × Bool
  token_body spanned s n =
      let as_float : Numeric F × Bool =
        (float spanned.0, not (spanned.1 == length s.1) || length s.1 == 0) in
      if ltb 0 n && not (continues s.1 n)
      then integral_token f s.0 s.1 n (integral_digits (take n s.1) 0) as_float
      else as_float

  token_body_lem :
      (token : List ℕ)
      → classify_token f token
        ≡ token_body
            (parse_float_spanned f token)
            (split_sign token)
            (digit_run (split_sign token).1)
  unfolding classify_token token_body
  token_body_lem token = refl

  whole_body :
      (spanned : F × ℕ) (negative : Bool) (ds : List ℕ) (w : Numeric F × Bool)
      → 0 < length ds
      → ((o : Numeric F × Bool)
          → integral_token f negative ds (length ds) (integral_digits ds 0) o ≡ w)
      → token_body spanned (negative, ds) (length ds) ≡ w
  unfolding token_body
  whole_body spanned negative ds w h k =
      let some_digit : ltb 0 (length ds) ≡ true = ground arith in
      rw (some_digit, continues_end ds, take_all ds)
        (k (float spanned.0, not (spanned.1 == length ds) || length ds == 0))

  classify_signed :
      (negative : Bool) (ds : List ℕ) (w : Numeric F × Bool)
      → Digits ds
      → 0 < length ds
      → ((o : Numeric F × Bool)
          → integral_token f negative ds (length ds) (integral_digits ds 0) o ≡ w)
      → classify_numeric_noting_warning f (signed_text negative ds) ≡ w
  classify_signed negative ds w h some_digit k =
      let token = signed_text negative ds in
      let spanned = parse_float_spanned f token in
      classify_solid token (signed-solid negative ds h)
      ∙ token_body_lem token
      ∙ ap (λ s. token_body spanned s (digit_run s.1)) (split-signed negative ds h some_digit)
      ∙ ap (token_body spanned (negative, ds))
          (digit_run_exact ds (Digits-IsByte ds h) ∙ count-Digits ds h)
      ∙ whole_body spanned negative ds w some_digit k

  -- The value of printed digits, within u64.
  exact_value : (n : ℕ) → n < 2 ^ 64 → integral_digits (print_unsigned n) 0 ≡ n
  exact_value n h = elim (integral_digits-Saturates (print_unsigned n) 0) [
    | inl e ↦ e ∙ (print_unsigned_lem n h).1
    | inr (a, b) ↦ absurd (omega (arith, print_unsigned_lem n h))
  ]

  negative_arms :
      (ds : List ℕ) (n value : ℕ) (o : Numeric F × Bool)
      → value ≡ suc n
      → n < 2 ^ 63
      → integral_token f true ds (length ds) value o ≡ (integer (negsuc n), false)
  unfolding integral_token
  negative_arms ds n value o e h =
      let inside : leb (suc n) (i64_max + 1) ≡ true = ground arith in
      let whole : (length ds == length ds) ≡ true = ground arith in
      elim (Bool-cases (suc n == i64_max + 1)) [
        | inl m ↦ rw (e, inside, whole, m) (ground arith)
        | inr m ↦ rw (e, inside, whole, m) refl
      ]

  positive_arms :
      (ds : List ℕ) (n value : ℕ) (o : Numeric F × Bool)
      → value ≡ n
      → n < 2 ^ 63
      → integral_token f false ds (length ds) value o ≡ (integer (pos n), false)
  unfolding integral_token
  positive_arms ds n value o e h =
      let inside : leb n i64_max ≡ true = ground arith in
      let whole : (length ds == length ds) ≡ true = ground arith in rw (e, inside, whole) refl

  unsigned_arms :
      (ds : List ℕ) (n value : ℕ) (o : Numeric F × Bool)
      → value ≡ n
      → 2 ^ 63 ≤ n
      → n < 2 ^ 64
      → integral_token f false ds (length ds) value o ≡ (unsigned n, false)
  unfolding integral_token
  unsigned_arms ds n value o e l h =
      let outside : leb n i64_max ≡ false = ground arith in
      let inside : leb n u64_max ≡ true = ground arith in
      let whole : (length ds == length ds) ≡ true = ground arith in
      rw (e, outside, inside, whole) refl

-- The integers of 64 bits.
abbrev pub IsI64 : ℤ → Type 0
IsI64 (pos n) = n < 2 ^ 63
IsI64 (negsuc n) = n < 2 ^ 63

shown-Digits : (ds : List ℕ) → Digits ds → leading_digits ds ≡ ds
unfolding leading_digits
shown-Digits ds h = rw (count-Digits ds h) (take_all ds)

int_of_split :
    (token : List ℕ) (s : Bool × List ℕ) (negative : Bool) (ds : List ℕ)
    → split_sign token ≡ s
    → s ≡ (negative, ds)
    → Digits ds
    → 0 < length ds
    → parse_int_i64_visible token ≡ visible negative (value_of 0 ds)
int_of_split token s negative ds e k h l =
    let some_digit : (length ds == 0) ≡ false = ground arith in
    let seen : Bool × List ℕ → ℤ = λ t.
      if length (leading_digits t.1) == 0
      then pos 0
      else visible t.0 (value_of 0 (leading_digits t.1)) in
    parse_int_exact token
    ∙ ap seen (e ∙ k)
    ∙ ap (λ t. if length t == 0 then pos 0 else visible negative (value_of 0 t)) (shown-Digits ds h)
    ∙ rw some_digit refl

parse_signed :
    (negative : Bool) (ds : List ℕ)
    → Digits ds
    → 0 < length ds
    → parse_int_i64_visible (signed_text negative ds) ≡ visible negative (value_of 0 ds)
parse_signed negative ds h l =
    int_of_split (signed_text negative ds) (split_sign (signed_text negative ds)) negative ds refl
      (split-signed negative ds h l) h l

format_lem :
    (n : ℤ) → format_int_into n ≡ signed_text (is_negative n) (print_unsigned (unsigned_abs n))
unfolding format_int_into signed_text
format_lem n = refl

classify_integer :
    (f : Floats) (n : ℤ)
    → IsI64 n
    → classify_numeric_noting_warning f (format_int_into n) ≡ (integer n, false)
classify_integer f (pos n) h =
    let ds = print_unsigned n in
    let (digits, value, some_digit) = print_unsigned_lem n (omega arith) in
    ap (classify_numeric_noting_warning f) (format_lem (pos n))
    ∙ classify_signed f false ds (integer (pos n), false) digits some_digit
        (λ o. positive_arms f ds n (integral_digits ds 0) o (exact_value f n (omega arith)) h)
classify_integer f (negsuc n) h =
    let ds = print_unsigned (suc n) in
    let (digits, value, some_digit) = print_unsigned_lem (suc n) (omega arith) in
    ap (classify_numeric_noting_warning f) (format_lem (negsuc n))
    ∙ classify_signed f true ds (integer (negsuc n), false) digits some_digit
        (λ o. negative_arms f ds n (integral_digits ds 0) o (exact_value f (suc n) (omega arith)) h)

visible-pos : (n : ℕ) → n < 2 ^ 63 → visible false n ≡ pos n
unfolding visible
visible-pos n h = ground arith

visible-negsuc : (n : ℕ) → n < 2 ^ 63 → visible true (suc n) ≡ negsuc n
unfolding visible
visible-negsuc n h = ground arith

parse_integer : (n : ℤ) → IsI64 n → parse_int_i64_visible (format_int_into n) ≡ n
parse_integer (pos n) h =
    let (digits, value, some_digit) = print_unsigned_lem n (omega arith) in
    ap parse_int_i64_visible (format_lem (pos n))
    ∙ parse_signed false (print_unsigned n) digits some_digit
    ∙ ap (visible false) value
    ∙ visible-pos n h
parse_integer (negsuc n) h =
    let (digits, value, some_digit) = print_unsigned_lem (suc n) (omega arith) in
    ap parse_int_i64_visible (format_lem (negsuc n))
    ∙ parse_signed true (print_unsigned (suc n)) digits some_digit
    ∙ ap (visible true) value
    ∙ visible-negsuc n h

unsigned_signed : (ds : List ℕ) → ds ≡ signed_text false ds
unfolding signed_text
unsigned_signed ds = refl

classify_unsigned :
    (f : Floats) (u : ℕ)
    → 2 ^ 63 ≤ u
    → u < 2 ^ 64
    → classify_numeric_noting_warning f (print_unsigned u) ≡ (unsigned u, false)
classify_unsigned f u low high =
    let ds = print_unsigned u in
    let (digits, value, some_digit) = print_unsigned_lem u high in
    ap (classify_numeric_noting_warning f) (unsigned_signed ds)
    ∙ classify_signed f false ds (unsigned u, false) digits some_digit
        (λ o. unsigned_arms f ds u (integral_digits ds 0) o (exact_value f u high) low high)

-- Every integer of 64 bits is printed as a text that numification reads as that integer, without a
-- warning, and the integer parse too; a number from 2^63 on, below 2^64, is printed as a text that is
-- read as that unsigned number, without a warning.
pub classify-format :
    (f : Floats) (n : ℤ) (u : ℕ)
    → IsI64 n
    → 2 ^ 63 ≤ u
    → u < 2 ^ 64
    → (classify_numeric_noting_warning f (format_int_into n) ≡ (integer n, false))
      × (parse_int_i64_visible (format_int_into n) ≡ n)
      × (classify_numeric_noting_warning f (print_unsigned u) ≡ (unsigned u, false))
classify-format f n u h low high =
    (classify_integer f n h, parse_integer n h, classify_unsigned f u low high)
