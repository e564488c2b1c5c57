-- ===== src/Numeric/Grammar.antt =====
-- The warning of core/src/value.rs on a token without its sign: what the parse consumes against the
-- grammar of one complete token.
use perloxide.Prelude.{
  ℕ, ◌+◌, ◌≤◌, ◌<◌, ◌≡◌, refl, ap, ◌∙◌, Bool, true, false, ◌&&◌, ◌||◌, not, List, [], ◌∷◌, map, ltb,
  leb, ◌==◌, if◌then◌else◌, length, get_or, take, drop, All, Bool-cases, inl, inr, codes,
  same_bytes, arith,
}
use perloxide.Prelude.Bits.{IsByte}
use perloxide.Numeric.Text.{to_lower, count_digits, digit_run}
use perloxide.Numeric.Runs.{digit_run_exact}
use perloxide.Numeric.Parse.{exponent_end, fraction_end}
use perloxide.Numeric.Classify.{
  continues, eq_ignore_ascii_case, grammar_exponent, grammar_warns, body_warns,
}
use perloxide.Numeric.Decimal.{warns_at, decimal_end, decimal_agrees}

-- The recognised words, told by a prefix and the length.
whole_word :
    (body w : List ℕ)
    → same_bytes (map to_lower body) w
      ≡ ((length body == length w) && same_bytes (map to_lower (take (length w) body)) w)
unfolding same_bytes
whole_word [] [] = refl
whole_word [] (c ∷ w) = ground arith
whole_word (b ∷ body) [] = ground arith
whole_word (b ∷ body) (c ∷ w) = ground (arith, whole_word body w)

abbrev pub word_3 : List ℕ → List ℕ → Bool
word_3 w rest = same_bytes (map to_lower (take 3 rest)) w

abbrev pub word_8 : List ℕ → Bool
word_8 rest = same_bytes (map to_lower (take 8 rest)) (codes "infinity")

pub infinity_inf : (rest : List ℕ) → word_8 rest ≡ true → word_3 (codes "inf") rest ≡ true
unfolding same_bytes
infinity_inf [] h = cc
infinity_inf (a ∷ []) h = ground arith
infinity_inf (a ∷ b ∷ []) h = ground arith
infinity_inf (a ∷ b ∷ c ∷ r) h = ground arith

-- A word begins with a letter, so it is no number.
pub no_digits :
    (rest : List ℕ) (c : ℕ) (w : List ℕ)
    → All IsByte rest
    → word_3 (c ∷ w) rest ≡ true
    → b'a' ≤ c
    → (digit_run rest ≡ 0) × ((get_or rest 0 0 == b'.') ≡ false)
unfolding same_bytes count_digits
no_digits [] c w b h l = cc
no_digits (a ∷ r) c w b h l = ground (arith, digit_run_exact (a ∷ r) b)

grammar_arms :
    (rest : List ℕ) (dot : Bool) (n fr : ℕ)
    → n ≡ 0
    → dot ≡ false
    → (if dot
        then (if n + fr == 0 then true else grammar_exponent rest (n + 1 + fr))
        else if n == 0
        then true
        else grammar_exponent rest n)
      ≡ true
grammar_arms rest dot n fr e d = rw (d, e) refl

and_false : (a b : Bool) → b ≡ false → (a && b) ≡ false
and_false a b h = ground arith

starts_wrong :
    (rest : List ℕ)
    → digit_run rest ≡ 0
    → (get_or rest 0 0 == b'.') ≡ false
    → grammar_warns rest ≡ true
unfolding grammar_warns
starts_wrong rest e d =
    let n = digit_run rest in
    grammar_arms rest (ltb n (length rest) && get_or rest n 0 == b'.') n
      (digit_run (drop (n + 1) rest)) e
      (ap (λ k. ltb k (length rest) && get_or rest k 0 == b'.') e
        ∙ and_false (ltb 0 (length rest)) (get_or rest 0 0 == b'.') d)

wordy_warns :
    (rest : List ℕ) (c : ℕ) (w : List ℕ)
    → All IsByte rest
    → word_3 (c ∷ w) rest ≡ true
    → b'a' ≤ c
    → grammar_warns rest ≡ true
wordy_warns rest c w b h l =
    let (none_here, no_dot) = no_digits rest c w b h l in starts_wrong rest none_here no_dot

-- The words, by the length of the token and its prefixes.
word_arms :
    (i n y g : Bool) (l : ℕ)
    → (i ≡ true → g ≡ true)
    → (n ≡ true → g ≡ true)
    → (y ≡ true → i ≡ true)
    → (d : ℕ) → (not (d == l) || l == 0) ≡ g
    → (let consumed : ℕ =
          if leb 3 l && i then (if leb 8 l && y then 8 else 3) else if leb 3 l && n then 3 else d in
        not (consumed == l) || l == 0)
      ≡ (if ((l == 3) && i) || ((l == 8) && y) || ((l == 3) && n) then false else g)
word_arms true true true g l hi hn hy d e = ground (arith, hi refl)
word_arms true false true g l hi hn hy d e = ground (arith, hi refl)
word_arms true true false g l hi hn hy d e = ground (arith, hi refl)
word_arms true false false g l hi hn hy d e = ground (arith, hi refl)
word_arms false true true g l hi hn hy d e = ground (arith, hy refl)
word_arms false false true g l hi hn hy d e = ground (arith, hy refl)
word_arms false true false g l hi hn hy d e = ground (arith, hn refl)
word_arms false false false g l hi hn hy d e = ground arith

-- What the float parse says that it consumed of a token without its sign.
abbrev pub consumed_of : List ℕ → ℕ
consumed_of rest =
    if leb 3 (length rest) && word_3 (codes "inf") rest
    then (if leb 8 (length rest) && word_8 rest then 8 else 3)
    else if leb 3 (length rest) && word_3 (codes "nan") rest
    then 3
    else decimal_end rest

words_cong :
    (a a' b b' c c' g : Bool)
    → a' ≡ a
    → b' ≡ b
    → c' ≡ c
    → (if a || b || c then false else g) ≡ (if a' || b' || c' then false else g)
words_cong a a' b b' c c' g i j k = cc

pub body_agrees :
    (rest : List ℕ) → All IsByte rest → warns_at (consumed_of rest) rest ≡ body_warns rest
unfolding body_warns
body_agrees rest b =
    word_arms (word_3 (codes "inf") rest) (word_3 (codes "nan") rest) (word_8 rest)
      (grammar_warns rest) (length rest) (λ e. wordy_warns rest b'i' (codes "nf") b e (omega arith))
      (λ e. wordy_warns rest b'n' (codes "an") b e (omega arith)) (infinity_inf rest)
      (decimal_end rest) (decimal_agrees rest)
    ∙ words_cong (length rest == 3 && word_3 (codes "inf") rest)
        (eq_ignore_ascii_case rest (codes "inf")) (length rest == 8 && word_8 rest)
        (eq_ignore_ascii_case rest (codes "infinity"))
        (length rest == 3 && word_3 (codes "nan") rest) (eq_ignore_ascii_case rest (codes "nan"))
        (grammar_warns rest) (whole_word rest (codes "inf")) (whole_word rest (codes "infinity"))
        (whole_word rest (codes "nan"))

stops :
    (l d e c : Bool) → (l && (d || e || c)) ≡ false → ((l && d) ≡ false) × ((l && (e || c)) ≡ false)
stops l d e c h = ground arith

end_arms :
    (z l m : Bool) (y : Bool × ℕ) (n : ℕ)
    → (l && m) ≡ false
    → (let t : Bool × ℕ = if z && l && m then y else (false, n) in t.1) ≡ n
end_arms z l m y n e = let none_here : (z && l && m) ≡ false = ground arith in rw none_here refl

no_marker :
    (rest : List ℕ) (n : ℕ)
    → (ltb n (length rest) && (get_or rest n 0 == b'e' || get_or rest n 0 == b'E')) ≡ false
    → (exponent_end rest n).1 ≡ n
unfolding exponent_end
no_marker rest n e =
    let j =
      if ltb (n + 1) (length rest)
        && (get_or rest (n + 1) 0 == b'+' || get_or rest (n + 1) 0 == b'-')
      then n + 1 + 1
      else n + 1 in
    let last = j + digit_run (drop j rest) in
    end_arms (ltb 0 n) (ltb n (length rest)) (get_or rest n 0 == b'e' || get_or rest n 0 == b'E')
      (if ltb j last then (true, last) else (false, n)) n e

plain_end :
    (rest : List ℕ) (n x : ℕ)
    → continues rest n ≡ false
    → (exponent_end rest (if ltb n (length rest) && get_or rest n 0 == b'.' then x else n)).1 ≡ n
unfolding continues
plain_end rest n x e =
    let (no_dot, unmarked) =
      stops (ltb n (length rest)) (get_or rest n 0 == b'.') (get_or rest n 0 == b'e')
        (get_or rest n 0 == b'E') e in
    ap (λ p. (exponent_end rest (if p then x else n)).1) no_dot ∙ no_marker rest n unmarked

no_word :
    (rest : List ℕ) (c : ℕ) (w : List ℕ)
    → All IsByte rest
    → b'a' ≤ c
    → 0 < digit_run rest
    → (leb 3 (length rest) && word_3 (c ∷ w) rest) ≡ false
no_word rest c w b l h = elim (Bool-cases (word_3 (c ∷ w) rest)) [
  | inl e ↦ let none_here = (no_digits rest c w b e l).0 in absurd (omega arith)
  | inr e ↦ and_false (leb 3 (length rest)) (word_3 (c ∷ w) rest) e
]

-- Digits that nothing numeric continues are all that is consumed.
pub integral_consumed :
    (rest : List ℕ)
    → All IsByte rest
    → 0 < digit_run rest
    → continues rest (digit_run rest) ≡ false
    → consumed_of rest ≡ digit_run rest
unfolding fraction_end
integral_consumed rest b h e =
    let n = digit_run rest in
    rw
      (
        no_word rest b'i' (codes "nf") b (omega arith) h,
        no_word rest b'n' (codes "an") b (omega arith) h,
      )
      (plain_end rest n
        (let more = digit_run (drop (n + 1) rest) in
          if ltb 0 n || ltb 0 more then n + (1 + more) else n)
        e)
