-- ===== src/Numeric/Examples.antt =====
-- Runs of the numification in core/src/value.rs, and its theorems at one input each.
use perloxide.Prelude.{
  ℕ, ◌+◌, ◌^◌, ◌≡◌, refl, true, false, some, codes, List, ◌∷◌, ◌==◌, if◌then◌else◌, length, All,
  arith,
}
use perloxide.Prelude.Bits.{IsByte}
use perloxide.Prelude.Int.{pos, negsuc}
use perloxide.Numeric.Text.{count_digits, digit_run, split_sign}
use perloxide.Numeric.Runs.{digit_run_exact}
use perloxide.Numeric.Integers.{value_of, leading_digits, visible, parse_int_exact}
use perloxide.Numeric.Parse.{unsigned}
use perloxide.Numeric.Present.{FloatText, new_float, render_float, filled_float}
use perloxide.Numeric.Render.{
  print_unsigned, format_int_into, new_integer, new_unsigned, render_integer, filled_integer,
  render_unsigned, filled_unsigned,
}
use perloxide.Numeric.Transparent.{cache_transparent}
use perloxide.Numeric.RoundTrip.{classify-format}
use perloxide.Numeric.Agree.{Sees, classify-parse_int}
use perloxide.Numeric.Silence.{warning_exact}
use perloxide.Numeric.Parse.{Floats, parse_int_i64_visible, parse_float_spanned, integer, float}
use perloxide.Numeric.Classify.{
  classify_numeric_noting_warning, classify_numeric, string_would_warn,
}

-- A float as the text of its magnitude.
abbrev texts : Floats
texts = record {
  F = List ℕ;
  zero_float = codes "0";
  infinity = codes "Inf";
  neg_infinity = codes "-Inf";
  nan = codes "NaN";
  negate = λ x. b'-' ∷ x;
  parse = some;
}

parses_prefix : parse_int_i64_visible (codes " -42abc") ≡ negsuc 41
unfolding parse_int_i64_visible
parses_prefix = refl

parses_dangling : parse_float_spanned texts (codes "1.5e+x") ≡ (codes "1.5", 3)
unfolding parse_float_spanned
parses_dangling = refl

warns_prefix : classify_numeric_noting_warning texts (codes " 42a ") ≡ (integer (pos 42), true)
unfolding classify_numeric_noting_warning
warns_prefix = refl

silent_float :
    classify_numeric_noting_warning texts (codes " -.5e7 ") ≡ (float (codes "-.5e7"), false)
unfolding classify_numeric_noting_warning
silent_float = refl

oracle_dangling : string_would_warn (codes "1e+") ≡ true
unfolding string_would_warn
oracle_dangling = refl

-- A long number with a letter behind it.
abbrev weighed : List ℕ
weighed = codes " -12345678901kg"

weighed-IsByte : All IsByte weighed
weighed-IsByte = omega arith

-- Of a float only whether it is three halves below zero.
abbrev halves : FloatText
halves = record {
  F = ℕ;
  is_nan = λ x. false;
  is_infinite = λ x. false;
  is_zero = λ x. x == 0;
  below_zero = λ x. x == 1;
  is_sign_negative = λ x. x == 1;
  scientific = λ x. codes "1.50000000000000e0";
}

warning_exact_example :
    (classify_numeric_noting_warning texts weighed).1 ≡ string_would_warn weighed
warning_exact_example = warning_exact texts weighed weighed-IsByte

cache_transparent_example :
    (render_integer (filled_integer (new_integer (negsuc 41)))
      ≡ render_integer (new_integer (negsuc 41)))
    × (render_unsigned (filled_unsigned (new_unsigned 1234567890123))
        ≡ render_unsigned (new_unsigned 1234567890123))
    × (render_float halves (filled_float halves (new_float halves 1))
        ≡ render_float halves (new_float halves 1))
cache_transparent_example = cache_transparent halves (negsuc 41) 1234567890123 1

classify-format_example :
    (classify_numeric_noting_warning texts (format_int_into (negsuc 41))
      ≡ (integer (negsuc 41), false))
    × (parse_int_i64_visible (format_int_into (negsuc 41)) ≡ negsuc 41)
    × (classify_numeric_noting_warning texts (print_unsigned (2 ^ 63 + 5))
        ≡ (unsigned (2 ^ 63 + 5), false))
classify-format_example =
    classify-format texts (negsuc 41) (2 ^ 63 + 5) (omega arith) (omega arith) (omega arith)

classify-parse_int_example : Sees (classify_numeric texts weighed) (parse_int_i64_visible weighed)
classify-parse_int_example = classify-parse_int texts weighed weighed-IsByte

parse_int_exact_example :
    (let (negative, rest) = split_sign weighed in
      let digits = leading_digits rest in
      parse_int_i64_visible weighed
      ≡ (if length digits == 0 then pos 0 else visible negative (value_of 0 digits)))
parse_int_exact_example = parse_int_exact weighed

digit_run_exact_example : digit_run weighed ≡ count_digits weighed
digit_run_exact_example = digit_run_exact weighed weighed-IsByte
