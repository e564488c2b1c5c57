-- ===== src/Numeric/Silence.antt =====
-- Whether a string warns in core/src/value.rs: the byproduct of its numification is the grammar's
-- answer.
use perloxide.Prelude.{
  ℕ, zero, suc, ◌+◌, ◌≤◌, ◌<◌, ◌≡◌, ◌⊎◌, ◌≢◌, refl, sym, ap, ◌∙◌, Bool, true, false, ◌&&◌, ◌||◌,
  not, List, [], ◌∷◌, ltb, leb, ◌==◌, if◌then◌else◌, length, get_or, take, drop, All, Bool-cases,
  inl, inr, codes, same_bytes, arith,
}
use perloxide.Prelude.Bits.{IsByte}
use perloxide.Prelude.Int.{pos}
use perloxide.Utf8.Blocks.{All-take, All-drop}
use perloxide.Numeric.Text.{
  is_whitespace, digit_run, skip_whitespace, sign_of, split_sign, trim_end,
}
use perloxide.Numeric.Parse.{
  Floats, Numeric, integer, float, parse_decimal, parse_float_spanned, signed_infinity, i64_max,
  u64_max,
}
use perloxide.Numeric.Classify.{
  continues, body_warns, token_warns, string_would_warn, integral_token, integral_digits,
  classify_token, classify_numeric_noting_warning, zero_but_true,
}
use perloxide.Numeric.Decimal.{warns_at, parse_decimal-end}
use perloxide.Numeric.Grammar.{word_3, word_8, consumed_of, body_agrees, integral_consumed}

module _ (f : Floats) where
  open f use {F}

  spanned_arms :
      (p q : Bool) (x y : F) (c : ℕ) (d : F × ℕ) (e : ℕ)
      → d.1 ≡ e
      → (let t : F × ℕ = if p then (x, c) else if q then (y, 3) else d in t.1)
        ≡ (if p then c else if q then 3 else e)
  spanned_arms true q x y c d e h = refl
  spanned_arms false true x y c d e h = refl
  spanned_arms false false x y c d e h = h

  spanned-consumed :
      (token : List ℕ) → (parse_float_spanned f token).1 ≡ consumed_of (split_sign token).1
  unfolding parse_float_spanned
  spanned-consumed token =
      let negative = (split_sign token).0 in
      let rest = (split_sign token).1 in
      spanned_arms (leb 3 (length rest) && word_3 (codes "inf") rest)
        (leb 3 (length rest) && word_3 (codes "nan") rest) (signed_infinity f negative) f.nan
        (if leb 8 (length rest) && word_8 rest then 8 else 3) (parse_decimal f negative rest) _
        (parse_decimal-end f negative rest)

  warns_integral : (n l : ℕ) → 0 < n → not (n == l) ≡ (not (n == l) || l == 0)
  warns_integral n l h = ground arith

  -- A token that is all digits up to something else is not complete.
  integral_agrees :
      (rest : List ℕ)
      → All IsByte rest
      → 0 < digit_run rest
      → continues rest (digit_run rest) ≡ false
      → not (digit_run rest == length rest) ≡ body_warns rest
  integral_agrees rest b h e =
      warns_integral (digit_run rest) (length rest) h
      ∙ ap (λ n. warns_at n rest) (sym (integral_consumed rest b h e))
      ∙ body_agrees rest b

  range_arms :
      (p q : Bool) (x y : Numeric F) (w : Bool) (d : Numeric F × Bool)
      → d.1 ≡ w
      → (let t : Numeric F × Bool = if p then (x, w) else if q then (y, w) else d in t.1) ≡ w
  range_arms true q x y w d h = refl
  range_arms false true x y w d h = refl
  range_arms false false x y w d h = h

  integral-warns :
      (negative : Bool) (rest : List ℕ) (n value : ℕ) (otherwise : Numeric F × Bool)
      → otherwise.1 ≡ not (n == length rest)
      → (integral_token f negative rest n value otherwise).1 ≡ not (n == length rest)
  unfolding integral_token
  integral-warns negative rest n value otherwise h =
      range_arms (if negative then leb value (i64_max + 1) else leb value i64_max)
        (not negative && leb value u64_max) _ _ (not (n == length rest)) otherwise h

  token_arms :
      (integral : Bool) (t d : Numeric F × Bool) (w : Bool)
      → (integral ≡ true → t.1 ≡ w)
      → d.1 ≡ w
      → (let r : Numeric F × Bool = if integral then t else d in r.1) ≡ w
  token_arms true t d w h k = h refl
  token_arms false t d w h k = k

  float-warns :
      (token : List ℕ)
      → All IsByte (split_sign token).1
      → warns_at (parse_float_spanned f token).1 (split_sign token).1
        ≡ body_warns (split_sign token).1
  float-warns token b =
      ap (λ n. warns_at n (split_sign token).1) (spanned-consumed token)
      ∙ body_agrees (split_sign token).1 b

  integral_tests :
      (rest : List ℕ)
      → (ltb 0 (digit_run rest) && not (continues rest (digit_run rest))) ≡ true
      → (0 < digit_run rest) × (continues rest (digit_run rest) ≡ false)
  integral_tests rest e = ground arith

  token_agrees :
      (token : List ℕ)
      → All IsByte (split_sign token).1
      → (classify_token f token).1 ≡ body_warns (split_sign token).1
  unfolding classify_token
  token_agrees token b =
      let negative = (split_sign token).0 in
      let rest = (split_sign token).1 in
      let n = digit_run rest in
      let as_float : Numeric F × Bool =
        (float (parse_float_spanned f token).0, warns_at (parse_float_spanned f token).1 rest) in
      let value = integral_digits (take n rest) 0 in
      token_arms (ltb 0 n && not (continues rest n))
        (integral_token f negative rest n value as_float) as_float (body_warns rest)
        (λ e.
          let (some_digits, plain) = integral_tests rest e in
          let complete = integral_agrees rest b some_digits plain in
          integral-warns negative rest n value as_float (float-warns token b ∙ sym complete)
          ∙ complete)
        (float-warns token b)

-- Whitespace and the sign.
sign_arms :
    (minus plus : Bool) (x y : List ℕ)
    → (if plus || minus then x else y) ≡ (
        let t : Bool × List ℕ =
          if minus then (true, x) else if plus then (false, x) else (false, y) in
        t.1)
sign_arms true true x y = refl
sign_arms true false x y = refl
sign_arms false true x y = refl
sign_arms false false x y = refl

first_letter : (token : List ℕ) → token_warns token ≡ body_warns (sign_of token).1
unfolding token_warns sign_of
first_letter [] = unfold body_warns in refl
first_letter (b ∷ bs) = ap body_warns (sign_arms (b == b'-') (b == b'+') bs (b ∷ bs))

-- Where the whitespace stops.
apart :
    (bytes : List ℕ) (i j : ℕ)
    → is_whitespace (get_or bytes i 0) ≡ false
    → is_whitespace (get_or bytes j 0) ≡ true
    → i ≢ j
apart bytes i j e w s = cc (ap (λ k. is_whitespace (get_or bytes k 0)) s)

trim_end_past :
    (start : ℕ) (bytes : List ℕ) (end : ℕ)
    → start < end
    → is_whitespace (get_or bytes start 0) ≡ false
    → (trim_end start bytes end ≡ trim_end 0 bytes end) × (start < trim_end 0 bytes end)
unfolding trim_end
trim_end_past start bytes zero h e = absurd (omega arith)
trim_end_past start bytes (suc end) h e = elim (Bool-cases (is_whitespace (get_or bytes end 0))) [
  | inl w ↦
      let other = apart bytes start end e w in
      let (same, past) = trim_end_past start bytes end (omega arith) e in
      (ground arith, ground arith)
  | inr w ↦ (ground arith, ground arith)
]

pub skipped :
    (bytes : List ℕ) (i : ℕ) → i < skip_whitespace bytes → is_whitespace (get_or bytes i 0) ≡ true
unfolding skip_whitespace
skipped [] i h = absurd (omega arith)
skipped (b ∷ bs) zero h = ground arith
skipped (b ∷ bs) (suc i) h = ground (arith, skipped bs i)

trim_end_blank : (bytes : List ℕ) (end : ℕ) → end ≤ skip_whitespace bytes → trim_end 0 bytes end ≡ 0
unfolding trim_end
trim_end_blank bytes zero h = refl
trim_end_blank bytes (suc end) h = ground (arith, trim_end_blank bytes end, skipped bytes end)

skip_stops :
    (bytes : List ℕ)
    → (skip_whitespace bytes ≡ length bytes)
      ⊎ (skip_whitespace bytes < length bytes)
        × (is_whitespace (get_or bytes (skip_whitespace bytes) 0) ≡ false)
unfolding skip_whitespace
skip_stops [] = inl refl
skip_stops (b ∷ bs) = elim (Bool-cases (is_whitespace b)) [
  | inl w ↦
      rw w (elim (skip_stops bs) [ inl e ↦ inl (omega arith) | inr (l, k) ↦ inr (omega arith, k) ])
  | inr w ↦ inr (ground arith, rw w w)
]

skip-take :
    (bytes : List ℕ) (n : ℕ)
    → skip_whitespace bytes < n
    → skip_whitespace (take n bytes) ≡ skip_whitespace bytes
unfolding skip_whitespace
skip-take bytes zero h = absurd (omega arith)
skip-take [] (suc n) h = refl
skip-take (b ∷ bs) (suc n) h = ground (arith, skip-take bs n)

drop-take_all : (bytes : List ℕ) (n : ℕ) → drop (length bytes) (take n bytes) ≡ []
drop-take_all [] zero = refl
drop-take_all [] (suc n) = refl
drop-take_all (b ∷ bs) zero = refl
drop-take_all (b ∷ bs) (suc n) = drop-take_all bs n

-- The trimmed token after its leading whitespace is the same, whichever end is trimmed first.
trimmed :
    (bytes : List ℕ)
    → (let token = take (trim_end 0 bytes (length bytes)) bytes in
        drop (skip_whitespace token) token)
      ≡ drop
          (skip_whitespace bytes)
          (take (trim_end (skip_whitespace bytes) bytes (length bytes)) bytes)
unfolding skip_whitespace
trimmed bytes = elim (skip_stops bytes) [
  | inl blank ↦
      rw (trim_end_blank bytes (length bytes) (omega arith), blank)
        (sym (drop-take_all bytes (trim_end (length bytes) bytes (length bytes))))
  | inr (l, e) ↦
      let (same, past) = trim_end_past (skip_whitespace bytes) bytes (length bytes) l e in
      rw (same, skip-take bytes (trim_end 0 bytes (length bytes)) past) refl
]

exception_arms :
    (f : Floats) (z : Bool) (x : Numeric f.F) (t : Numeric f.F × Bool) (w : Bool)
    → t.1 ≡ w
    → (let r : Numeric f.F × Bool = if z then (x, false) else t in r.1) ≡ (if z then false else w)
exception_arms f true x t w e = refl
exception_arms f false x t w e = e

pub sign_bytes : (bytes : List ℕ) → All IsByte bytes → All IsByte (sign_of bytes).1
unfolding sign_of
sign_bytes [] h = tt
sign_bytes (b ∷ bs) h = ground arith

-- On every byte string, numification notes a warning exactly where the grammar says that the string
-- is no complete number.
pub warning_exact :
    (f : Floats) (bytes : List ℕ)
    → All IsByte bytes
    → (classify_numeric_noting_warning f bytes).1 ≡ string_would_warn bytes
unfolding classify_numeric_noting_warning string_would_warn
warning_exact f bytes b =
    let token = take (trim_end 0 bytes (length bytes)) bytes in
    let rest_bytes = All-drop (skip_whitespace token) token (All-take _ bytes b) in
    exception_arms f (same_bytes bytes zero_but_true) (integer (pos 0)) (classify_token f token)
      (token_warns (
        drop (skip_whitespace bytes)
          (take (trim_end (skip_whitespace bytes) bytes (length bytes)) bytes)))
      (token_agrees f token (sign_bytes (drop (skip_whitespace token) token) rest_bytes)
        ∙ sym (first_letter (drop (skip_whitespace token) token))
        ∙ ap token_warns (trimmed bytes))
