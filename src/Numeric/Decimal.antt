-- ===== src/Numeric/Decimal.antt =====
-- The decimal scan of core/src/value.rs against the grammar of a numeric token.
use perloxide.Prelude.{
  ℕ, ◌+◌, ◌-◌, ◌<◌, ◌≡◌, refl, sym, Bool, true, false, ◌&&◌, ◌||◌, not, List, ltb, ◌==◌,
  if◌then◌else◌, length, get_or, take, drop, Bool-cases, and_true, ltb→lt, ==_iff, inl, inr, some,
  none, arith,
}
use perloxide.Numeric.Text.{digit_run}
use perloxide.Numeric.Parse.{
  Floats, exponent_end, fraction_end, parse_decimal, count_zeros, max_finite_digits, signed,
  signed_infinity,
}
use perloxide.Numeric.Classify.{grammar_exponent, grammar_warns}

abbrev pub warns_at : ℕ → List ℕ → Bool
warns_at consumed rest = not (consumed == length rest) || length rest == 0

-- The two ends of an exponent, by its tests.
exponent_arms :
    (m : Bool) (e l j r : ℕ)
    → 0 < e
    → (m ≡ true → e < l)
    → (let t : Bool × ℕ =
          if m then (if ltb j (j + r) then (true, j + r) else (false, e)) else (false, e) in
        not (t.1 == l) || l == 0)
      ≡ (if m then (if j + r == j then true else not (j + r == l)) else not (e == l))
exponent_arms true e l j r h k = let inside = k refl in ground arith
exponent_arms false e l j r h k = ground arith

exponent_agrees :
    (rest : List ℕ) (end : ℕ)
    → 0 < end
    → warns_at (exponent_end rest end).1 rest ≡ grammar_exponent rest end
unfolding exponent_end grammar_exponent
exponent_agrees rest end h =
    let some_end : ltb 0 end ≡ true = ground arith in
    let j =
      if ltb (end + 1) (length rest)
        && (get_or rest (end + 1) 0 == b'+' || get_or rest (end + 1) 0 == b'-')
      then end + 1 + 1
      else end + 1 in
    let marker = get_or rest end 0 == b'e' || get_or rest end 0 == b'E' in
    rw some_end (
      exponent_arms (ltb end (length rest) && marker) end (length rest) j (digit_run (drop j rest))
        h (λ t. ltb→lt end (length rest) (and_true (ltb end (length rest)) marker t).0))

abbrev pub decimal_end : List ℕ → ℕ
decimal_end rest = (exponent_end rest (fraction_end rest (digit_run rest))).1

no_exponent : (rest : List ℕ) → (exponent_end rest 0).1 ≡ 0
unfolding exponent_end
no_exponent rest = refl

none_at_zero : (rest : List ℕ) → warns_at (exponent_end rest 0).1 rest ≡ true
none_at_zero rest = ground (arith, no_exponent rest)

-- The fraction, by its tests, in both.
fraction_arms :
    (rest : List ℕ) (dot : Bool) (n fr : ℕ)
    → warns_at
        (exponent_end rest (if dot then (if ltb 0 n || ltb 0 fr then n + (1 + fr) else n) else n)).1
        rest
      ≡ (if dot
          then (if n + fr == 0 then true else grammar_exponent rest (n + 1 + fr))
          else if n == 0
          then true
          else grammar_exponent rest n)
fraction_arms rest true n fr = elim (Bool-cases (n + fr == 0)) [
  | inl e ↦
      let z : n ≡ 0 = ground arith in
      let no_more : (ltb 0 n || ltb 0 fr) ≡ false = ground arith in
      rw (e, no_more, z) (none_at_zero rest)
  | inr e ↦
      let more : (ltb 0 n || ltb 0 fr) ≡ true = ground arith in
      let ends : n + (1 + fr) ≡ n + 1 + fr = omega arith in
      rw (e, more, ends) (exponent_agrees rest (n + 1 + fr) (omega arith))
]
fraction_arms rest false n fr = elim (Bool-cases (n == 0)) [
  | inl e ↦ let z : n ≡ 0 = ground arith in rw z (none_at_zero rest)
  | inr e ↦ rw e (exponent_agrees rest n (ground arith))
]

pub decimal_agrees : (rest : List ℕ) → warns_at (decimal_end rest) rest ≡ grammar_warns rest
unfolding fraction_end grammar_warns
decimal_agrees rest =
    let n = digit_run rest in
    fraction_arms rest (ltb n (length rest) && get_or rest n 0 == b'.') n
      (digit_run (drop (n + 1) rest))

pair_arms :
    {A : Type 0} (z c : Bool) (x y w : A) (e : ℕ)
    → (z ≡ true → e ≡ 0)
    → (let t : A × ℕ = if z then (x, 0) else if c then (y, e) else (w, e) in t.1) ≡ e
pair_arms true c x y w e h = sym (h refl)
pair_arms false true x y w e h = refl
pair_arms false false x y w e h = refl

-- What the decimal parse says that it consumed.
pub parse_decimal-end :
    (f : Floats) (negative : Bool) (rest : List ℕ)
    → (parse_decimal f negative rest).1 ≡ decimal_end rest
unfolding parse_decimal
parse_decimal-end f negative rest =
    let n = digit_run rest in
    let exponent = exponent_end rest (fraction_end rest n) in
    pair_arms (decimal_end rest == 0)
      (not exponent.0
        && ltb max_finite_digits n
        && ltb max_finite_digits (n - count_zeros (take n rest)))
      f.zero_float (signed_infinity f negative)
      (signed f negative
        (elim (f.parse (take (decimal_end rest) rest)) [ some x ↦ x | none ↦ f.zero_float ]))
      (decimal_end rest) ((==_iff (decimal_end rest) 0).0)
