-- ===== src/Numeric/Integers.antt =====
-- The integers that numification reads in core/src/value.rs, against the exact value of the digits.
use perloxide.Prelude.{
  ℕ, ◌+◌, ◌-◌, ◌*◌, ◌≤◌, ◌<◌, ◌≡◌, ◌⊎◌, refl, ap, ◌∙◌, Bool, true, false, List, [], ◌∷◌, ltb, leb,
  ◌==◌, if◌then◌else◌, length, take, Bool-cases, inl, inr, arith,
}
use perloxide.Prelude.Int.{ℤ, pos, negsuc, neg, i64_min, as_i64}
use perloxide.Numeric.Text.{is_digit, count_digits, split_sign}
use perloxide.Numeric.Parse.{u64_max, i64_max, int_digits, parse_int_i64_visible}
use perloxide.Numeric.Classify.{integral_digits}

-- The number that digits denote, after those that have been read.
unfoldable pub value_of : ℕ → List ℕ → ℕ
value_of acc [] = acc
value_of acc (b ∷ bs) = value_of (acc * 10 + (b - b'0')) bs

pub value_of-grows : (acc : ℕ) (bs : List ℕ) → acc ≤ value_of acc bs
unfolding value_of
value_of-grows acc [] = omega arith
value_of-grows acc (b ∷ bs) = omega (arith, value_of-grows (acc * 10 + (b - b'0')) bs)

-- A bounded count of a value: exact, or past u64 where the value is.
abbrev pub Saturates : ℕ → ℕ → Type 0
Saturates read exact = (read ≡ exact) ⊎ ((u64_max < read) × (u64_max < exact))

pub integral_digits-Saturates :
    (bs : List ℕ) (value : ℕ) → Saturates (integral_digits bs value) (value_of value bs)
unfolding integral_digits value_of
integral_digits-Saturates [] value = inl refl
integral_digits-Saturates (b ∷ bs) value =
    elim (Bool-cases (ltb u64_max (value * 10 + (b - b'0')))) [
      | inl e ↦
          rw e (inr (ground arith, ground (arith, value_of-grows (value * 10 + (b - b'0')) bs)))
      | inr e ↦ rw e (integral_digits-Saturates bs (value * 10 + (b - b'0')))
    ]

-- The digits of a list before its first other byte.
unfoldable pub leading_digits : List ℕ → List ℕ
leading_digits bs = take (count_digits bs) bs

stays_past :
    (bs : List ℕ) (value digits : ℕ)
    → u64_max < value
    → int_digits bs value digits ≡ (value, digits + count_digits bs)
unfolding int_digits count_digits
stays_past [] value digits h = ground arith
stays_past (b ∷ bs) value digits h = ground (arith, stays_past bs value (digits + 1))

int_digits-number :
    (bs : List ℕ) (value digits : ℕ) → (int_digits bs value digits).1 ≡ digits + count_digits bs
unfolding int_digits count_digits
int_digits-number [] value digits = ground arith
int_digits-number (b ∷ bs) value digits = ground (
  arith,
  int_digits-number bs (if leb value u64_max then value * 10 + (b - b'0') else value) (digits + 1),
)

int_digits-Saturates :
    (bs : List ℕ) (value digits : ℕ)
    → Saturates (int_digits bs value digits).0 (value_of value (leading_digits bs))
unfolding int_digits count_digits value_of leading_digits
int_digits-Saturates [] value digits = inl refl
int_digits-Saturates (b ∷ bs) value digits = elim (Bool-cases (is_digit b)) [
  | inl d ↦ elim (Bool-cases (leb value u64_max)) [
    | inl e ↦ rw (d, e) (int_digits-Saturates bs (value * 10 + (b - b'0')) (digits + 1))
    | inr e ↦
        let past : u64_max < value = ground arith in
        rw (d, e)
          (inr (
            ground (arith, stays_past bs value (digits + 1)),
            omega (arith, value_of-grows (value * 10 + (b - b'0')) (leading_digits bs)),
          ))
  ]
  | inr d ↦ rw d (inl refl)
]

-- What perl sees of a sign and a magnitude through i64.
unfoldable pub visible : Bool → ℕ → ℤ
visible negative value =
    if negative
    then (if leb value i64_max then neg value else i64_min)
    else if leb value u64_max
    then as_i64 value
    else negsuc 0

pub visible-Saturates :
    (negative : Bool) (a b : ℕ) → Saturates a b → visible negative a ≡ visible negative b
unfolding visible
visible-Saturates negative a b (inl e) = ap (visible negative) e
visible-Saturates true a b (inr (h, k)) = ground arith
visible-Saturates false a b (inr (h, k)) = ground arith

visible_arms :
    (negative : Bool) (a b d k : ℕ)
    → d ≡ k
    → Saturates a b
    → (if d == 0
        then pos 0
        else if negative
        then (if leb a i64_max then neg a else i64_min)
        else if leb a u64_max
        then as_i64 a
        else negsuc 0)
      ≡ (if k == 0 then pos 0 else visible negative b)
unfolding visible
visible_arms negative a b d k e h =
    rw e (ap (λ v. if k == 0 then pos 0 else v) (visible-Saturates negative a b h))

pub length-leading_digits : (bs : List ℕ) → length (leading_digits bs) ≡ count_digits bs
unfolding leading_digits count_digits
length-leading_digits [] = refl
length-leading_digits (b ∷ bs) = ground (arith, length-leading_digits bs)

-- On every byte string, the integer that perl sees is made of the sign and the exact value of the
-- digits that follow the whitespace and the sign, however many there are: negated and held at -2^63,
-- or wrapped from u64 and -1 past it; without a digit it is 0.
pub parse_int_exact :
    (bytes : List ℕ)
    → (let (negative, rest) = split_sign bytes in
        let digits = leading_digits rest in
        parse_int_i64_visible bytes
        ≡ (if length digits == 0 then pos 0 else visible negative (value_of 0 digits)))
unfolding parse_int_i64_visible
parse_int_exact bytes =
    let rest = (split_sign bytes).1 in
    let read = int_digits rest 0 0 in
    visible_arms (split_sign bytes).0 read.0 (value_of 0 (leading_digits rest)) read.1
      (length (leading_digits rest))
      (int_digits-number rest 0 0 ∙ omega (arith, length-leading_digits rest))
      (int_digits-Saturates rest 0 0)
