-- ===== src/Numeric/Parse.antt =====
-- Numification of strings in core/src/value.rs. A float is a parameter: its special values, its sign
-- change, and the `parse` that reads the span of a decimal number.
use perloxide.Prelude.{
  ℕ, suc, ◌+◌, ◌-◌, ◌*◌, ◌^◌, Bool, true, false, ◌&&◌, ◌||◌, not, Option, none, some, List, [], ◌∷◌,
  map, ltb, leb, ◌==◌, if◌then◌else◌, length, get_or, take, drop, codes, same_bytes,
}
use perloxide.Prelude.Int.{ℤ, pos, negsuc, neg, i64_min, as_i64}
use perloxide.Numeric.Text.{is_digit, to_lower, digit_run, split_sign}

pub record Floats : Type 1 where
  pub F : Type 0
  pub zero_float : F
  pub infinity : F
  pub neg_infinity : F
  pub nan : F
  pub negate : F → F
  pub parse : List ℕ → Option F

-- `Numeric`
pub data Numeric (F : Type 0) : Type 0 where
  integer : ℤ → Numeric F
  unsigned : ℕ → Numeric F
  float : F → Numeric F

abbrev pub u64_max : ℕ
u64_max = 2 ^ 64 - 1

abbrev pub i64_max : ℕ
i64_max = 2 ^ 63 - 1

abbrev pub max_finite_digits : ℕ
max_finite_digits = 309

-- The digits of `parse_int_i64_visible`: the value, which stops growing past u64, and their number.
unfoldable pub int_digits : List ℕ → ℕ → ℕ → ℕ × ℕ
int_digits [] value digits = (value, digits)
int_digits (b ∷ bs) value digits =
    let rest =
      int_digits bs (if leb value u64_max then value * 10 + (b - b'0') else value) (digits + 1) in
    if is_digit b then rest else (value, digits)

unfoldable pub parse_int_i64_visible : List ℕ → ℤ
unfolding split_sign int_digits
parse_int_i64_visible bytes =
    let (negative, rest) = split_sign bytes in
    let (value, digits) = int_digits rest 0 0 in
    if digits == 0
    then pos 0
    else if negative
    then (if leb value i64_max then neg value else i64_min)
    else if leb value u64_max
    then as_i64 value
    else negsuc 0

-- The exponent after a span: its marker, sign and digits, where there are digits.
unfoldable pub exponent_end : List ℕ → ℕ → Bool × ℕ
unfolding digit_run
exponent_end rest end =
    if ltb 0 end
      && ltb end (length rest)
      && (get_or rest end 0 == b'e' || get_or rest end 0 == b'E')
    then (let exp_end = end + 1 in
        let exp_end' =
          if ltb exp_end (length rest)
            && (get_or rest exp_end 0 == b'+' || get_or rest exp_end 0 == b'-')
          then exp_end + 1
          else exp_end in
        let last = exp_end' + digit_run (drop exp_end' rest) in
        if ltb exp_end' last then (true, last) else (false, end))
    else (false, end)

-- The fraction after the integer digits.
unfoldable pub fraction_end : List ℕ → ℕ → ℕ
unfolding digit_run
fraction_end rest integer_digits =
    if ltb integer_digits (length rest) && get_or rest integer_digits 0 == b'.'
    then (let fraction_digits = digit_run (drop (integer_digits + 1) rest) in
        if ltb 0 integer_digits || ltb 0 fraction_digits
        then integer_digits + (1 + fraction_digits)
        else integer_digits)
    else integer_digits

-- `iter().take_while(|b| b == b'0').count()`
unfoldable pub count_zeros : List ℕ → ℕ
count_zeros [] = 0
count_zeros (b ∷ bs) = if b == b'0' then suc (count_zeros bs) else 0

module _ (f : Floats) where
  open f use {F, zero_float, infinity, neg_infinity, nan, negate, parse}

  abbrev pub signed : Bool → F → F
  signed negative x = if negative then negate x else x

  abbrev pub signed_infinity : Bool → F
  signed_infinity negative = if negative then neg_infinity else infinity

  -- The decimal scan and the magnitude of its span.
  unfoldable pub parse_decimal : Bool → List ℕ → F × ℕ
  unfolding digit_run fraction_end exponent_end count_zeros
  parse_decimal negative rest =
      let integer_digits = digit_run rest in
      let (has_exponent, end) = exponent_end rest (fraction_end rest integer_digits) in
      if end == 0
      then (zero_float, 0)
      else if not has_exponent
          && ltb max_finite_digits integer_digits
          && ltb max_finite_digits (integer_digits - count_zeros (take integer_digits rest))
      then (signed_infinity negative, end)
      else (signed negative (elim (parse (take end rest)) [ some x ↦ x | none ↦ zero_float ]), end)

  unfoldable pub parse_float_spanned : List ℕ → F × ℕ
  unfolding split_sign parse_decimal same_bytes
  parse_float_spanned bytes =
      let (negative, rest) = split_sign bytes in
      let p = map to_lower (take 3 rest) in
      if leb 3 (length rest) && same_bytes p (codes "inf")
      then (
        signed_infinity negative,
        if leb 8 (length rest) && same_bytes (map to_lower (take 8 rest)) (codes "infinity")
            then 8
            else 3,
      )
      else if leb 3 (length rest) && same_bytes p (codes "nan")
      then (nan, 3)
      else parse_decimal negative rest
