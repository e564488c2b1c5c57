-- ===== src/Numeric/Agree.antt =====
-- The two integer readings of a string in core/src/value.rs: `classify_numeric` and
-- `parse_int_i64_visible`.
use perloxide.Prelude.{
  ℕ, ◌+◌, ◌<◌, ◌≡◌, refl, sym, ap, ◌∙◌, Bool, true, false, ◌&&◌, ◌||◌, not, List, ltb, leb, ◌==◌,
  if◌then◌else◌, length, take, drop, All, Bool-cases, inl, inr, same_bytes, same_bytes-eq, arith,
}
use perloxide.Prelude.Bits.{IsByte}
use perloxide.Prelude.Int.{ℤ, pos, as_i64}
use perloxide.Utf8.Blocks.{All-take, All-drop}
use perloxide.Numeric.Text.{count_digits, digit_run, skip_whitespace, split_sign, trim_end}
use perloxide.Numeric.Runs.{digit_run_exact}
use perloxide.Numeric.Parse.{
  Floats, Numeric, integer, unsigned, float, u64_max, i64_max, parse_int_i64_visible,
  parse_float_spanned,
}
use perloxide.Numeric.Classify.{
  integral_digits, continues, integral_token, classify_token, classify_numeric, zero_but_true,
}
use perloxide.Numeric.Silence.{sign_bytes}
use perloxide.Numeric.Integers.{
  value_of, leading_digits, length-leading_digits, integral_digits-Saturates, visible,
  visible-Saturates, parse_int_exact,
}
use perloxide.Numeric.Trimmed.{parse_trimmed}

-- A number that is no float is seen as the integer.
abbrev pub Sees : {F : Type 0} → Numeric F → ℤ → Type 0
Sees (integer n) z = n ≡ z
Sees (unsigned u) z = as_i64 u ≡ z
Sees (float x) z = Unit {0}

parse_int_some :
    (token : List ℕ)
    → 0 < count_digits (split_sign token).1
    → parse_int_i64_visible token
      ≡ visible
          (split_sign token).0
          (value_of 0 (take (count_digits (split_sign token).1) (split_sign token).1))
unfolding leading_digits
parse_int_some token h =
    let rest = (split_sign token).1 in
    let some_digit : (length (take (count_digits rest) rest) == 0) ≡ false =
      ground (arith, length-leading_digits rest) in
    parse_int_exact token ∙ rw some_digit refl

zero_but_true_lem : parse_int_i64_visible zero_but_true ≡ pos 0
unfolding parse_int_i64_visible
zero_but_true_lem = refl

module _ (f : Floats) where
  open f use {F}

  integral-Sees :
      (negative : Bool) (rest : List ℕ) (n value : ℕ) (x : F) (w : Bool)
      → Sees (integral_token f negative rest n value (float x, w)).0 (visible negative value)
  unfolding integral_token visible
  integral-Sees true rest n value x w = elim (Bool-cases (leb value (i64_max + 1))) [
    | inl e ↦ elim (Bool-cases (value == i64_max + 1)) [
      | inl k ↦ rw (e, k) (ground arith)
      | inr k ↦ rw (e, k) (ground arith)
    ]
    | inr e ↦ rw e tt
  ]
  integral-Sees false rest n value x w = elim (Bool-cases (leb value i64_max)) [
    | inl e ↦ rw e (ground arith)
    | inr e ↦ elim (Bool-cases (leb value u64_max)) [
      | inl k ↦ rw (e, k) refl
      | inr k ↦ rw (e, k) tt
    ]
  ]

  Sees-along : (a : Numeric F) (z z' : ℤ) → Sees a z → z ≡ z' → Sees a z'
  Sees-along a z z' h e = rw (← e) h

  arms-Sees :
      (integral : Bool) (t : Numeric F × Bool) (x : F) (w : Bool) (z : ℤ)
      → (integral ≡ true → Sees t.0 z)
      → Sees (let r : Numeric F × Bool = if integral then t else (float x, w) in r.0) z
  arms-Sees true t x w z h = h refl
  arms-Sees false t x w z h = tt

  token-Sees :
      (token : List ℕ)
      → All IsByte (split_sign token).1
      → Sees (classify_token f token).0 (parse_int_i64_visible token)
  unfolding classify_token
  token-Sees token b =
      let negative = (split_sign token).0 in
      let rest = (split_sign token).1 in
      let n = digit_run rest in
      let spanned = parse_float_spanned f token in
      let warns = not (spanned.1 == length rest) || length rest == 0 in
      let value = integral_digits (take n rest) 0 in
      arms-Sees (ltb 0 n && not (continues rest n))
        (integral_token f negative rest n value (float spanned.0, warns)) spanned.0 warns
        (parse_int_i64_visible token)
        (λ e.
          let some_digits : 0 < digit_run rest = ground (arith, e) in
          Sees-along (integral_token f negative rest n value (float spanned.0, warns)).0
            (visible negative value) (parse_int_i64_visible token)
            (integral-Sees negative rest n value spanned.0 warns)
            (visible-Saturates negative value (value_of 0 (take n rest))
                (integral_digits-Saturates (take n rest) 0)
              ∙ ap (λ k. visible negative (value_of 0 (take k rest))) (digit_run_exact rest b)
              ∙ sym (parse_int_some token (omega (arith, digit_run_exact rest b)))))

exception-Sees :
    (f : Floats) (exception : Bool) (t : Numeric f.F × Bool) (z : ℤ)
    → (exception ≡ true → pos 0 ≡ z)
    → Sees t.0 z
    → Sees (let r : Numeric f.F × Bool = if exception then (integer (pos 0), false) else t in r.0) z
exception-Sees f true t z h k = h refl
exception-Sees f false t z h k = k

-- On every byte string, where numification gives an integer or an unsigned number, that number read
-- through i64 is what the integer parse gives.
pub classify-parse_int :
    (f : Floats) (bytes : List ℕ)
    → All IsByte bytes
    → Sees (classify_numeric f bytes) (parse_int_i64_visible bytes)
unfolding classify_numeric
classify-parse_int f bytes b =
    let token = take (trim_end 0 bytes (length bytes)) bytes in
    let rest_bytes = All-drop (skip_whitespace token) token (All-take _ bytes b) in
    exception-Sees f (same_bytes bytes zero_but_true) (classify_token f token)
      (parse_int_i64_visible bytes)
      (λ e.
        sym (ap parse_int_i64_visible (same_bytes-eq bytes zero_but_true e) ∙ zero_but_true_lem))
      (Sees-along f (classify_token f token).0 (parse_int_i64_visible token)
        (parse_int_i64_visible bytes)
        (token-Sees f token (sign_bytes (drop (skip_whitespace token) token) rest_bytes))
        (parse_trimmed bytes))
