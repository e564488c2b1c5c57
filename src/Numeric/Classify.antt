-- ===== src/Numeric/Classify.antt =====
-- `classify_numeric_noting_warning` of core/src/value.rs, and `string_would_warn`, the grammar that
-- its tests hold against it.
use perloxide.Prelude.{
  ℕ, ◌+◌, ◌-◌, ◌*◌, Bool, true, false, ◌&&◌, ◌||◌, not, List, [], ◌∷◌, map, ltb, leb, ◌==◌,
  if◌then◌else◌, length, get_or, take, drop, codes, same_bytes,
}
use perloxide.Prelude.Int.{pos, neg, i64_min}
use perloxide.Numeric.Text.{to_lower, digit_run, skip_whitespace, split_sign, trim_end}
use perloxide.Numeric.Parse.{
  Floats, Numeric, integer, unsigned, float, u64_max, i64_max, parse_float_spanned,
}

-- The value of a digit run, which stops past u64.
unfoldable pub integral_digits : List ℕ → ℕ → ℕ
integral_digits [] value = value
integral_digits (b ∷ bs) value =
    let next = value * 10 + (b - b'0') in
    let more = integral_digits bs next in if ltb u64_max next then next else more

-- `matches!(rest.get(i), Some(b'.') | Some(b'e') | Some(b'E'))`
unfoldable pub continues : List ℕ → ℕ → Bool
continues rest i =
    ltb i (length rest)
    && (get_or rest i 0 == b'.' || get_or rest i 0 == b'e' || get_or rest i 0 == b'E')

abbrev pub zero_but_true : List ℕ
zero_but_true = codes "0 but true"

module _ (f : Floats) where
  open f use {F}

  -- An integral token by its range; `none` is left to the float parse.
  unfoldable pub integral_token : Bool → List ℕ → ℕ → ℕ → Numeric F × Bool → Numeric F × Bool
  integral_token negative rest digit_end value otherwise =
      let warns = not (digit_end == length rest) in
      let in_range = if negative then leb value (i64_max + 1) else leb value i64_max in
      if in_range
      then (
        integer
            (if negative then (if value == i64_max + 1 then i64_min else neg value) else pos value),
        warns,
      )
      else if not negative && leb value u64_max
      then (unsigned value, warns)
      else otherwise

  -- A token, its trailing whitespace trimmed.
  unfoldable pub classify_token : List ℕ → Numeric F × Bool
  unfolding split_sign digit_run continues integral_digits parse_float_spanned integral_token
  classify_token token =
      let (negative, rest) = split_sign token in
      let digit_end = digit_run rest in
      let (value, consumed) = parse_float_spanned f token in
      let as_float : Numeric F × Bool =
        (float value, not (consumed == length rest) || length rest == 0) in
      if ltb 0 digit_end && not (continues rest digit_end)
      then integral_token negative rest digit_end (integral_digits (take digit_end rest) 0) as_float
      else as_float

  unfoldable pub classify_numeric_noting_warning : List ℕ → Numeric F × Bool
  unfolding trim_end classify_token same_bytes
  classify_numeric_noting_warning bytes =
      let token = take (trim_end 0 bytes (length bytes)) bytes in
      if same_bytes bytes zero_but_true then (integer (pos 0), false) else classify_token token

  unfoldable pub classify_numeric : List ℕ → Numeric F
  unfolding classify_numeric_noting_warning
  classify_numeric bytes = (classify_numeric_noting_warning bytes).0

-- `eq_ignore_ascii_case`
unfoldable pub eq_ignore_ascii_case : List ℕ → List ℕ → Bool
unfolding same_bytes
eq_ignore_ascii_case a b = same_bytes (map to_lower a) (map to_lower b)

-- The exponent of the grammar, and the end: a marker that no digits follow warns.
unfoldable pub grammar_exponent : List ℕ → ℕ → Bool
unfolding digit_run
grammar_exponent body i =
    if ltb i (length body) && (get_or body i 0 == b'e' || get_or body i 0 == b'E')
    then (let j =
          if ltb (i + 1) (length body)
            && (get_or body (i + 1) 0 == b'+' || get_or body (i + 1) 0 == b'-')
          then i + 1 + 1
          else i + 1 in
        let j' = j + digit_run (drop j body) in if j' == j then true else not (j' == length body))
    else not (i == length body)

-- The grammar of one complete numeric token.
unfoldable pub grammar_warns : List ℕ → Bool
unfolding digit_run grammar_exponent
grammar_warns body =
    let i = digit_run body in
    if ltb i (length body) && get_or body i 0 == b'.'
    then (let fraction = digit_run (drop (i + 1) body) in
        if i + fraction == 0 then true else grammar_exponent body (i + 1 + fraction))
    else if i == 0
    then true
    else grammar_exponent body i

unfoldable pub body_warns : List ℕ → Bool
unfolding eq_ignore_ascii_case grammar_warns
body_warns body =
    if eq_ignore_ascii_case body (codes "inf")
      || eq_ignore_ascii_case body (codes "infinity")
      || eq_ignore_ascii_case body (codes "nan")
    then false
    else grammar_warns body

unfoldable pub token_warns : List ℕ → Bool
unfolding body_warns
token_warns [] = true
token_warns (b ∷ bs) = body_warns (if b == b'+' || b == b'-' then bs else b ∷ bs)

unfoldable pub string_would_warn : List ℕ → Bool
unfolding skip_whitespace trim_end same_bytes token_warns
string_would_warn bytes =
    let start = skip_whitespace bytes in
    let end = trim_end start bytes (length bytes) in
    if same_bytes bytes zero_but_true then false else token_warns (drop start (take end bytes))
