-- ===== src/Numeric/Trimmed.antt =====
-- The integer parse of core/src/value.rs reads a string and its trimmed token alike.
use perloxide.Prelude.{
  ℕ, zero, suc, ◌+◌, ◌-◌, ◌*◌, ◌≤◌, ◌<◌, ◌≡◌, refl, sym, ap, ◌∙◌, Bool, true, false, List, [], ◌∷◌,
  ◌++◌, ltb, leb, ◌==◌, if◌then◌else◌, length, get_or, take, drop, All, Bool-cases, inl, inr, arith,
}
use perloxide.Prelude.Int.{ℤ, pos, negsuc, neg, i64_min, as_i64}
use perloxide.Numeric.Text.{is_whitespace, is_digit, skip_whitespace, sign_of, split_sign, trim_end}
use perloxide.Numeric.Parse.{u64_max, i64_max, int_digits, parse_int_i64_visible}

-- Trailing whitespace means nothing to the integer parse.
abbrev Blank : List ℕ → Type 0
Blank = All (λ b. is_whitespace b ≡ true)

int_digits-Blank :
    (bs ws : List ℕ) (value digits : ℕ)
    → Blank ws
    → int_digits (bs ++ ws) value digits ≡ int_digits bs value digits
unfolding int_digits is_whitespace
int_digits-Blank [] [] value digits h = refl
int_digits-Blank [] (w ∷ ws) value digits h =
    let no_digit : is_digit w ≡ false = ground (arith, h.0) in rw no_digit refl
int_digits-Blank (b ∷ bs) ws value digits h =
    ap (λ r. if is_digit b then r else (value, digits))
      (int_digits-Blank bs ws (if leb value u64_max then value * 10 + (b - b'0') else value)
        (digits + 1) h)

-- The integer of a split sign.
abbrev of_split : Bool × List ℕ → ℤ
of_split s =
    let (value, digits) = int_digits s.1 0 0 in
    if digits == 0
    then pos 0
    else if s.0
    then (if leb value i64_max then neg value else i64_min)
    else if leb value u64_max
    then as_i64 value
    else negsuc 0

of_split_lem : (bytes : List ℕ) → parse_int_i64_visible bytes ≡ of_split (split_sign bytes)
unfolding parse_int_i64_visible
of_split_lem bytes = refl

of_split-Blank :
    (negative : Bool) (bs ws : List ℕ)
    → Blank ws
    → of_split (negative, bs ++ ws) ≡ of_split (negative, bs)
of_split-Blank negative bs ws h =
    ap
      (λ (r : ℕ × ℕ).
        if r.1 == 0
        then pos 0
        else if negative
        then (if leb r.0 i64_max then neg r.0 else i64_min)
        else if leb r.0 u64_max
        then as_i64 r.0
        else negsuc 0)
      (int_digits-Blank bs ws 0 0 h)

split_one : (b : ℕ) (bs : List ℕ) → is_whitespace b ≡ true → split_sign (b ∷ bs) ≡ split_sign bs
unfolding split_sign skip_whitespace
split_one b bs h = rw h refl

split_here :
    (b : ℕ) (bs : List ℕ) → is_whitespace b ≡ false → split_sign (b ∷ bs) ≡ sign_of (b ∷ bs)
unfolding split_sign skip_whitespace
split_here b bs h = rw h refl

skip_one :
    (b : ℕ) (bs : List ℕ)
    → is_whitespace b ≡ true
    → parse_int_i64_visible (b ∷ bs) ≡ parse_int_i64_visible bs
skip_one b bs h = of_split_lem (b ∷ bs) ∙ ap of_split (split_one b bs h) ∙ sym (of_split_lem bs)

sign-Blank :
    (b : ℕ) (bs ws : List ℕ)
    → Blank ws
    → of_split (sign_of (b ∷ (bs ++ ws))) ≡ of_split (sign_of (b ∷ bs))
unfolding sign_of
sign-Blank b bs ws w = elim (Bool-cases (b == b'-')) [
  | inl e ↦ rw e (of_split-Blank true bs ws w)
  | inr e ↦ elim (Bool-cases (b == b'+')) [
    | inl p ↦ rw (e, p) (of_split-Blank false bs ws w)
    | inr p ↦ rw (e, p) (of_split-Blank false (b ∷ bs) ws w)
  ]
]

parse_signed :
    (b : ℕ) (bs ws : List ℕ)
    → is_whitespace b ≡ false
    → Blank ws
    → parse_int_i64_visible (b ∷ (bs ++ ws)) ≡ parse_int_i64_visible (b ∷ bs)
parse_signed b bs ws h w =
    of_split_lem (b ∷ (bs ++ ws))
    ∙ ap of_split (split_here b (bs ++ ws) h)
    ∙ sign-Blank b bs ws w
    ∙ sym (ap of_split (split_here b bs h))
    ∙ sym (of_split_lem (b ∷ bs))

parse-Blank :
    (bs ws : List ℕ) → Blank ws → parse_int_i64_visible (bs ++ ws) ≡ parse_int_i64_visible bs
parse-Blank [] [] h = refl
parse-Blank [] (w ∷ ws) h = skip_one w ws h.0 ∙ parse-Blank [] ws h.1
parse-Blank (b ∷ bs) ws h = elim (Bool-cases (is_whitespace b)) [
  | inl w ↦ skip_one b (bs ++ ws) w ∙ parse-Blank bs ws h ∙ sym (skip_one b bs w)
  | inr w ↦ parse_signed b bs ws w h
]

take-drop : (n : ℕ) (bs : List ℕ) → take n bs ++ drop n bs ≡ bs
take-drop zero bs = refl
take-drop (suc n) [] = refl
take-drop (suc n) (b ∷ bs) = ap (λ t. b ∷ t) (take-drop n bs)

drop-one : (n : ℕ) (bs : List ℕ) → n < length bs → drop n bs ≡ get_or bs n 0 ∷ drop (suc n) bs
drop-one n [] h = absurd (omega arith)
drop-one zero (b ∷ bs) h = refl
drop-one (suc n) (b ∷ bs) h = drop-one n bs (omega arith)

trimmed-Blank :
    (bytes : List ℕ) (end : ℕ)
    → end ≤ length bytes
    → Blank (drop end bytes)
    → Blank (drop (trim_end 0 bytes end) bytes)
unfolding trim_end
trimmed-Blank bytes zero h b = b
trimmed-Blank bytes (suc end) h b = elim (Bool-cases (is_whitespace (get_or bytes end 0))) [
  | inl w ↦
      let some_byte : ltb 0 (suc end) ≡ true = ground arith in
      rw (some_byte, w)
        (trimmed-Blank bytes end (omega arith) (rw (drop-one end bytes (omega arith)) (w, b)))
  | inr w ↦ let some_byte : ltb 0 (suc end) ≡ true = ground arith in rw (some_byte, w) b
]

drop_all : (bs : List ℕ) → drop (length bs) bs ≡ []
drop_all [] = refl
drop_all (b ∷ bs) = drop_all bs

pub parse_trimmed :
    (bytes : List ℕ)
    → parse_int_i64_visible (take (trim_end 0 bytes (length bytes)) bytes)
      ≡ parse_int_i64_visible bytes
parse_trimmed bytes =
    let end = trim_end 0 bytes (length bytes) in
    sym (
      parse-Blank (take end bytes) (drop end bytes)
        (trimmed-Blank bytes (length bytes) (omega arith) (rw (drop_all bytes) tt)))
    ∙ ap parse_int_i64_visible (take-drop end bytes)
