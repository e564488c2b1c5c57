-- ===== src/Numeric/Transparent.antt =====
-- Rendering through the digit cache of core/src/numeric.rs gives the text that rendering without it
-- gives.
use mathlib.Core.List.{reverse-cons, map-append}
use perloxide.Prelude.{
  ℕ, zero, suc, ◌+◌, ◌/◌, ◌%◌, ◌≤◌, ◌<◌, ◌≡◌, ◌≢◌, ◌⊎◌, some_inj, refl, sym, ap, ◌∙◌, Bool, true,
  false, ◌||◌, not, Option, none, some, List, [], ◌∷◌, ◌++◌, map, reverse, ltb, ◌==◌, if◌then◌else◌,
  length, take, drop, codes, All, Bool-cases, inl, inr, arith,
}
use perloxide.Prelude.Int.{ℤ, pos}
use perloxide.Numeric.Text.{is_digit}
use perloxide.Numeric.Cache.{
  empty_cache, capacity, count, exponent, exponent_fits, digits, build, low_digits, decimal_cache,
}
use perloxide.Numeric.Render.{
  print_digits, print_unsigned, unsigned_abs, is_negative, format_int_into, emit_digits,
  IntegerPayload, UnsignedPayload, new_integer, new_unsigned, render_integer, filled_integer,
  render_unsigned, filled_unsigned,
}
use perloxide.Numeric.Present.{
  FloatText, present_float, mantissa_digits, trim_zeros, digits_of_text, float_digits,
  format_float_into, FloatPayload, new_float, render_float, filled_float, float_digit_max,
  position_e, parse_i32, scientific_max,
}
use perloxide.Numeric.Slots.{build-empty, build_reads}

abbrev ascii_of : List ℕ → List ℕ
ascii_of ds = map (λ d. b'0' + d) ds

-- The printed digits are those that the cache's loop finds.
print-low_digits : (room n : ℕ) → print_digits room n ≡ ascii_of (reverse (low_digits room n))
unfolding print_digits low_digits
print-low_digits zero n = refl
print-low_digits (suc room) n = elim (Bool-cases (n / 10 == 0)) [
  | inl e ↦ rw e refl
  | inr e ↦ rw e (
      ap (λ t. t ++ ((b'0' + n % 10) ∷ [])) (print-low_digits room (n / 10))
      ∙ sym (map-append (λ d. b'0' + d) (reverse (low_digits room (n / 10))) (n % 10 ∷ []))
      ∙ ap ascii_of (sym (reverse-cons (n % 10) (low_digits room (n / 10)))))
]

All-append : (p : ℕ → Type 0) (xs ys : List ℕ) → All p xs → All p ys → All p (xs ++ ys)
All-append p [] ys h k = k
All-append p (x ∷ xs) ys h k = (h.0, All-append p xs ys h.1 k)

All-reverse : (p : ℕ → Type 0) (xs : List ℕ) → All p xs → All p (reverse xs)
All-reverse p [] h = tt
All-reverse p (x ∷ xs) h =
    rw (reverse-cons x xs) (All-append p (reverse xs) (x ∷ []) (All-reverse p xs h.1) (h.0, tt))

low_digits-small : (room n : ℕ) → All (λ d. d < 16) (low_digits room n)
unfolding low_digits
low_digits-small zero n = tt
low_digits-small (suc room) n = elim (Bool-cases (n / 10 == 0)) [
  | inl e ↦ rw e (omega arith, tt)
  | inr e ↦ rw e (omega arith, low_digits-small room (n / 10))
]

-- A cache either has been left empty or has the digits.
fits_or_not :
    (at : ℕ) (ds : List ℕ) (e : ℤ)
    → ((length ds == 0 || ltb (capacity at) (length ds) || not (exponent_fits e)) ≡ true)
      ⊎ ((0 < length ds) × (length ds ≤ capacity at) × (exponent_fits e ≡ true))
fits_or_not at ds e =
    elim (Bool-cases (length ds == 0 || ltb (capacity at) (length ds) || not (exponent_fits e))) [
      | inl h ↦ inl h
      | inr h ↦ inr (ground arith, ground arith, ground arith)
    ]

emit_lem :
    (xs : List ℕ) (n : ℕ) (negative : Bool) (ds : List ℕ)
    → take n xs ≡ ds
    → emit_digits xs n negative ≡ (if negative then b'-' ∷ [] else []) ++ ascii_of ds
unfolding emit_digits
emit_lem xs n negative ds h = rw h refl

empty_count : count empty_cache ≡ none
unfolding count
empty_count = refl

-- Whatever a cache holds are the digits that it was built from.
pub cache_reads :
    (at : ℕ) (ds : List ℕ) (e : ℤ) (n : ℕ)
    → All (λ d. d < 16) ds
    → 0 < at
    → at < 7
    → count (build at ds e) ≡ some n
    → (n ≡ length ds)
      × (take n (digits at (build at ds e) n) ≡ ds)
      × (1 < at → exponent (build at ds e) ≡ e)
cache_reads at ds e n small low high h = elim (fits_or_not at ds e) [
  | inl k ↦ absurd (none_cached (sym (ap count (build-empty at ds e k)) ∙ h))
  | inr (a, b, c) ↦
      let reads = build_reads at ds e small low high a b c in
      let same : n ≡ length ds = some_inj (sym h ∙ reads.0) in
      (same, ap (λ k. take k (digits at (build at ds e) k)) same ∙ reads.1, reads.2)
]
  where
    none_cached : count empty_cache ≢ some n
    none_cached k = cc (k, empty_count)

payload_arms :
    (c : Option ℕ) (cached : ℕ → List ℕ) (plain : List ℕ)
    → ((n : ℕ) → c ≡ some n → cached n ≡ plain)
    → elim c [ some n ↦ cached n | none ↦ plain ] ≡ plain
payload_arms none cached plain h = refl
payload_arms (some n) cached plain h = h n refl

decimal_digits :
    (magnitude n : ℕ) (negative : Bool)
    → count (decimal_cache magnitude) ≡ some n
    → emit_digits (digits 1 (decimal_cache magnitude) n) n negative
      ≡ (if negative then b'-' ∷ [] else []) ++ print_unsigned magnitude
unfolding decimal_cache print_unsigned
decimal_digits magnitude n negative h =
    let ds = reverse (low_digits 20 magnitude) in
    let small =
      All-reverse (λ d. d < 16) (low_digits 20 magnitude) (low_digits-small 20 magnitude) in
    let reads = cache_reads 1 ds (pos 0) n small (omega arith) (omega arith) h in
    emit_lem (digits 1 (build 1 ds (pos 0)) n) n negative ds reads.1
    ∙ ap (λ t. (if negative then b'-' ∷ [] else []) ++ t) (sym (print-low_digits 20 magnitude))

integer_transparent :
    (p : IntegerPayload) → render_integer (filled_integer p) ≡ format_int_into p.value
unfolding render_integer filled_integer format_int_into
integer_transparent p =
    payload_arms (count (decimal_cache (unsigned_abs p.value)))
      (λ n. emit_digits (digits 1 (decimal_cache (unsigned_abs p.value)) n) n (is_negative p.value))
      ((if is_negative p.value then b'-' ∷ [] else []) ++ print_unsigned (unsigned_abs p.value))
      (λ n h. decimal_digits (unsigned_abs p.value) n (is_negative p.value) h)

unsigned_transparent :
    (p : UnsignedPayload) → render_unsigned (filled_unsigned p) ≡ print_unsigned p.value
unfolding render_unsigned filled_unsigned
unsigned_transparent p =
    payload_arms (count (decimal_cache p.value))
      (λ n. emit_digits (digits 1 (decimal_cache p.value) n) n false) (print_unsigned p.value)
      (λ n h. decimal_digits p.value n false h)

-- Floats.
mantissa-small : (room : ℕ) (bs : List ℕ) → All (λ d. d < 16) (mantissa_digits room bs)
unfolding mantissa_digits
mantissa-small room [] = tt
mantissa-small zero (b ∷ bs) = tt
mantissa-small (suc room) (b ∷ bs) = elim (Bool-cases (is_digit b)) [
  | inl e ↦ rw e (ground (arith, e), mantissa-small room bs)
  | inr e ↦ rw e (mantissa-small (suc room) bs)
]

All-take_small : (n : ℕ) (ds : List ℕ) → All (λ d. d < 16) ds → All (λ d. d < 16) (take n ds)
All-take_small zero ds h = tt
All-take_small (suc n) [] h = tt
All-take_small (suc n) (d ∷ ds) h = (h.0, All-take_small n ds h.1)

abbrev SmallDigits : Option (List ℕ × ℤ) → Type 0
SmallDigits none = Unit {0}
SmallDigits (some (ds, e)) = All (λ d. d < 16) ds

exponent_arms :
    (x : Option ℤ) (ds : List ℕ)
    → All (λ d. d < 16) ds
    → SmallDigits (elim x [ none ↦ none | some e ↦ some (ds, e) ])
exponent_arms none ds h = tt
exponent_arms (some e) ds h = h

text_arms :
    (c : Option ℕ) (x : ℕ → Option ℤ) (d : ℕ → List ℕ)
    → ((k : ℕ) → All (λ d. d < 16) (d k))
    → SmallDigits
        (elim c [ none ↦ none | some k ↦ elim (x k) [ none ↦ none | some e ↦ some (d k, e) ] ])
text_arms none x d h = tt
text_arms (some k) x d h = exponent_arms (x k) (d k) (h k)

text_digits-small : (text : List ℕ) → SmallDigits (digits_of_text text)
unfolding digits_of_text
text_digits-small text =
    let found = λ (k : ℕ). mantissa_digits float_digit_max (take k text) in
    text_arms (position_e text) (λ k. parse_i32 (drop (suc k) text))
      (λ k. take (trim_zeros (found k) (length (found k))) (found k))
      (λ k.
        All-take_small (trim_zeros (found k) (length (found k))) (found k)
          (mantissa-small float_digit_max (take k text)))

module _ (f : FloatText) where
  open f use {F, is_nan, is_infinite, is_zero, below_zero, is_sign_negative, scientific}

  special_arms :
      (a b c : Bool) (r : Option (List ℕ × ℤ)) (x y z w : List ℕ) (ds : List ℕ) (e : ℤ)
      → (if a || b || c then none else r) ≡ some (ds, e)
      → (SmallDigits r → All (λ d. d < 16) ds)
        × ((if a then x else if b then y else if c then z else w) ≡ w)
  special_arms false false false r x y z w ds e h = (λ s. rw h at s, refl)
  special_arms true b c r x y z w ds e h = cc
  special_arms false true c r x y z w ds e h = cc
  special_arms false false true r x y z w ds e h = cc

  float_lem :
      (v : F) (ds : List ℕ) (e : ℤ)
      → float_digits f v ≡ some (ds, e)
      → All (λ d. d < 16) ds × (format_float_into f v ≡ present_float ds e (is_sign_negative v))
  unfolding float_digits format_float_into
  float_lem v ds e h =
      let text = take scientific_max (scientific v) in
      let shown : Option (List ℕ × ℤ) → List ℕ = λ t. elim t [
        | some (ds', e') ↦ present_float ds' e' (is_sign_negative v)
        | none ↦ codes "0"
      ] in
      let (small, plain) =
        special_arms (is_nan v) (is_infinite v) (is_zero v) (digits_of_text text) (codes "NaN")
          (if below_zero v then codes "-Inf" else codes "Inf") (codes "0")
          (shown (float_digits f v)) ds e h in
      (small (text_digits-small text), plain ∙ ap shown h)

  filled_arms :
      (found : Option (List ℕ × ℤ)) (plain : List ℕ) (negative : Bool)
      → ((ds : List ℕ) (e : ℤ)
          → found ≡ some (ds, e)
          → All (λ d. d < 16) ds × (plain ≡ present_float ds e negative))
      → (let cache : List ℕ = elim found [ some (ds, e) ↦ build 2 ds e | none ↦ empty_cache ] in
          elim (count cache) [
            | some n ↦ present_float (take n (digits 2 cache n)) (exponent cache) negative
            | none ↦ plain
          ])
        ≡ plain
  filled_arms none plain negative h = rw empty_count refl
  filled_arms (some (ds, e)) plain negative h =
      let (small, same) = h ds e refl in
      payload_arms (count (build 2 ds e))
        (λ n. present_float (take n (digits 2 (build 2 ds e) n)) (exponent (build 2 ds e)) negative)
        plain
        (λ n k.
          let reads = cache_reads 2 ds e n small (omega arith) (omega arith) k in
          rw (reads.1, reads.2 (omega arith)) (sym same))

  float_transparent :
      (p : FloatPayload f) → render_float f (filled_float f p) ≡ format_float_into f p.value
  unfolding render_float filled_float
  float_transparent p =
      filled_arms (float_digits f p.value) (format_float_into f p.value) (is_sign_negative p.value)
        (float_lem p.value)

-- Of an integer, an unsigned number and a float, a copy that carries the cached digits renders as the
-- number does without them.
pub cache_transparent :
    (f : FloatText) (n : ℤ) (u : ℕ) (x : f.F)
    → (render_integer (filled_integer (new_integer n)) ≡ render_integer (new_integer n))
      × (render_unsigned (filled_unsigned (new_unsigned u)) ≡ render_unsigned (new_unsigned u))
      × (render_float f (filled_float f (new_float f x)) ≡ render_float f (new_float f x))
unfolding render_integer render_unsigned render_float
cache_transparent f n u x = (
  integer_transparent (new_integer n),
  unsigned_transparent (new_unsigned u),
  float_transparent f (new_float f x),
)
