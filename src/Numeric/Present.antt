-- ===== src/Numeric/Present.antt =====
-- The rendering of floats in core/src/value.rs and core/src/numeric.rs, as the bytes that are
-- appended where no allocation fails. A float is a parameter: its tests and the text of `{:.14e}`.
use perloxide.Prelude.{
  ℕ, zero, suc, ◌+◌, ◌-◌, ◌*◌, ◌^◌, Bool, true, false, ◌&&◌, ◌||◌, Option, none, some, List, [],
  ◌∷◌, ◌++◌, map, ltb, leb, ◌==◌, if◌then◌else◌, length, get_or, take, drop, replicate, codes,
}
use perloxide.Prelude.Int.{ℤ, pos, negsuc, neg}
use perloxide.Numeric.Text.{is_digit}
use perloxide.Numeric.Cache.{empty_cache, count, exponent, digits, build}
use perloxide.Numeric.Render.{print_unsigned, unsigned_abs, is_negative}

pub record FloatText : Type 1 where
  pub F : Type 0
  pub is_nan : F → Bool
  pub is_infinite : F → Bool
  pub is_zero : F → Bool
  pub below_zero : F → Bool
  pub is_sign_negative : F → Bool
  pub scientific : F → List ℕ

abbrev pub scientific_max : ℕ
scientific_max = 32

abbrev pub float_digit_max : ℕ
float_digit_max = 16

-- `iter().position(|b| b == b'e')`
unfoldable pub position_e : List ℕ → Option ℕ
position_e [] = none
position_e (b ∷ bs) =
    if b == b'e' then some 0 else elim (position_e bs) [ none ↦ none | some k ↦ some (suc k) ]

-- `parse::<i32>()`, of the standard library: a sign, and digits whose value fits.
unfoldable pub read_digits : ℕ → List ℕ → Option ℕ
read_digits acc [] = some acc
read_digits acc (b ∷ bs) = if is_digit b then read_digits (acc * 10 + (b - b'0')) bs else none

unfoldable pub fit_i32 : Bool → Option ℕ → Option ℤ
fit_i32 negative none = none
fit_i32 negative (some n) =
    if leb n (if negative then 2 ^ 31 else 2 ^ 31 - 1)
    then some (if negative then neg n else pos n)
    else none

unfoldable pub parse_unsigned : List ℕ → Option ℕ
unfolding read_digits
parse_unsigned [] = none
parse_unsigned (b ∷ bs) = read_digits 0 (b ∷ bs)

unfoldable pub parse_i32 : List ℕ → Option ℤ
unfolding fit_i32 parse_unsigned
parse_i32 [] = none
parse_i32 (b ∷ bs) =
    if b == b'-'
    then fit_i32 true (parse_unsigned bs)
    else fit_i32 false (parse_unsigned (if b == b'+' then bs else b ∷ bs))

-- The digits of the mantissa, at most as many as the array holds.
unfoldable pub mantissa_digits : ℕ → List ℕ → List ℕ
mantissa_digits room [] = []
mantissa_digits zero (b ∷ bs) = []
mantissa_digits (suc room) (b ∷ bs) =
    if is_digit b then (b - b'0') ∷ mantissa_digits room bs else mantissa_digits (suc room) bs

-- `while count > 1 && digits[count - 1] == 0 { count -= 1 }`
unfoldable pub trim_zeros : List ℕ → ℕ → ℕ
trim_zeros ds zero = zero
trim_zeros ds (suc n) =
    let less = trim_zeros ds n in if ltb 1 (suc n) && get_or ds n 0 == 0 then less else suc n

-- `push_zeros`, by runs of at most twenty-four.
unfoldable pub push_zeros : ℕ → ℕ → List ℕ
push_zeros zero left = []
push_zeros (suc fuel) left =
    let run = if ltb left 24 then left else 24 in
    let more = push_zeros fuel (left - run) in if ltb 0 left then replicate run b'0' ++ more else []

-- `(-4..15).contains(&exp)`
unfoldable pub is_fixed : ℤ → Bool
is_fixed (pos n) = ltb n 15
is_fixed (negsuc n) = ltb n 4

-- `{magnitude:02}`
unfoldable pub two_digits : ℕ → List ℕ
unfolding print_unsigned
two_digits n = if ltb n 10 then b'0' ∷ print_unsigned n else print_unsigned n

unfoldable pub exponent_form : List ℕ → ℤ → List ℕ
unfolding two_digits
exponent_form ascii e =
    take 1 ascii
    ++ ((if ltb 1 (length ascii) then b'.' ∷ drop 1 ascii else [])
        ++ (b'e' ∷ (if is_negative e then b'-' else b'+') ∷ two_digits (unsigned_abs e)))

unfoldable pub fixed_form : List ℕ → ℤ → List ℕ
unfolding push_zeros
fixed_form ascii (pos n) =
    let int_len = n + 1 in
    if leb (length ascii) int_len
    then ascii ++ push_zeros (suc int_len) (int_len - length ascii)
    else take int_len ascii ++ (b'.' ∷ drop int_len ascii)
fixed_form ascii (negsuc n) = b'0' ∷ b'.' ∷ (push_zeros (suc n) n ++ ascii)

unfoldable pub present_float : List ℕ → ℤ → Bool → List ℕ
unfolding is_fixed exponent_form fixed_form
present_float ds e negative =
    let ascii = map (λ d. b'0' + d) ds in
    (if negative then b'-' ∷ [] else [])
    ++ (if is_fixed e then fixed_form ascii e else exponent_form ascii e)

-- The rendered text, cut at its `e`.
unfoldable pub digits_of_text : List ℕ → Option (List ℕ × ℤ)
unfolding position_e parse_i32 mantissa_digits trim_zeros
digits_of_text rendered = elim (position_e rendered) [
  | none ↦ none
  | some e ↦ elim (parse_i32 (drop (suc e) rendered)) [
    | none ↦ none
    | some exp ↦
        let ds = mantissa_digits float_digit_max (take e rendered) in
        some (take (trim_zeros ds (length ds)) ds, exp)
  ]
]

module _ (f : FloatText) where
  open f use {F, is_nan, is_infinite, is_zero, below_zero, is_sign_negative, scientific}

  unfoldable pub float_digits : F → Option (List ℕ × ℤ)
  unfolding digits_of_text
  float_digits n =
      if is_nan n || is_infinite n || is_zero n
      then none
      else digits_of_text (take scientific_max (scientific n))

  unfoldable pub format_float_into : F → List ℕ
  unfolding float_digits present_float
  format_float_into n =
      if is_nan n
      then codes "NaN"
      else if is_infinite n
      then (if below_zero n then codes "-Inf" else codes "Inf")
      else if is_zero n
      then codes "0"
      else elim (float_digits n) [
        | some (ds, exp) ↦ present_float ds exp (is_sign_negative n)
        | none ↦ codes "0"
      ]

  pub record FloatPayload : Type 0 where
    pub cache : List ℕ
    pub value : F

  abbrev pub new_float : F → FloatPayload
  new_float n = record { cache = empty_cache; value = n }

  unfoldable pub render_float : FloatPayload → List ℕ
  unfolding count digits exponent present_float format_float_into
  render_float p = elim (count p.cache) [
    | some n ↦
        present_float (take n (digits 2 p.cache n)) (exponent p.cache) (is_sign_negative p.value)
    | none ↦ format_float_into p.value
  ]

  unfoldable pub filled_float : FloatPayload → FloatPayload
  unfolding float_digits build
  filled_float p = record {
    cache = elim (float_digits p.value) [ some (ds, exp) ↦ build 2 ds exp | none ↦ empty_cache ];
    value = p.value;
  }
