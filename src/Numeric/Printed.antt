-- ===== src/Numeric/Printed.antt =====
-- The decimal text of a number in core/src/value.rs: its digits, and their value.
use native.Mathlib.Nat.{pow-suc}
use perloxide.Prelude.{
  ℕ, zero, suc, ◌+◌, ◌-◌, ◌*◌, ◌/◌, ◌%◌, ◌^◌, ◌<◌, ◌≡◌, refl, ap, true, List, [], ◌∷◌, ◌++◌, ◌==◌,
  if◌then◌else◌, length, take, All, Bool-cases, length-append, inl, inr, arith,
}
use perloxide.Prelude.Bits.{IsByte}
use perloxide.Numeric.Text.{is_digit, count_digits}
use perloxide.Numeric.Integers.{value_of}
use perloxide.Numeric.Render.{print_digits, print_unsigned}

abbrev pub Digits : List ℕ → Type 0
Digits = All (λ b. is_digit b ≡ true)

value_of-append :
    (acc : ℕ) (xs : List ℕ) (b : ℕ)
    → value_of acc (xs ++ (b ∷ [])) ≡ value_of acc xs * 10 + (b - b'0')
unfolding value_of
value_of-append acc [] b = refl
value_of-append acc (x ∷ xs) b = value_of-append (acc * 10 + (x - b'0')) xs b

Digits-append : (xs : List ℕ) (b : ℕ) → Digits xs → is_digit b ≡ true → Digits (xs ++ (b ∷ []))
Digits-append [] b h k = (k, tt)
Digits-append (x ∷ xs) b h k = (h.0, Digits-append xs b h.1 k)

last_digit : (n : ℕ) → is_digit (b'0' + n % 10) ≡ true
last_digit n = ground arith

print-Digits : (room n : ℕ) → Digits (print_digits room n)
unfolding print_digits
print-Digits zero n = tt
print-Digits (suc room) n = elim (Bool-cases (n / 10 == 0)) [
  | inl e ↦ rw e (last_digit n, tt)
  | inr e ↦ rw e (
      Digits-append (print_digits room (n / 10)) (b'0' + n % 10) (print-Digits room (n / 10))
        (last_digit n))
]

print-value : (room n : ℕ) → n < 10 ^ room → value_of 0 (print_digits room n) ≡ n
unfolding print_digits value_of
print-value zero n h = omega arith
print-value (suc room) n h = elim (Bool-cases (n / 10 == 0)) [
  | inl e ↦ rw e (ground arith)
  | inr e ↦ rw e (
      omega (
        arith,
        value_of-append 0 (print_digits room (n / 10)) (b'0' + n % 10),
        print-value room (n / 10) (omega (arith, pow-suc 10 room)),
      ))
]

print-some : (room n : ℕ) → 0 < length (print_digits (suc room) n)
unfolding print_digits
print-some room n = omega (
  arith,
  length-append (if n / 10 == 0 then [] else print_digits room (n / 10)) ((b'0' + n % 10) ∷ []),
)

pub print_unsigned_lem :
    (n : ℕ)
    → n < 2 ^ 64
    → Digits (print_unsigned n)
      × (value_of 0 (print_unsigned n) ≡ n)
      × (0 < length (print_unsigned n))
unfolding print_unsigned
print_unsigned_lem n h = (print-Digits 20 n, print-value 20 n (omega arith), print-some 19 n)

pub count-Digits : (bs : List ℕ) → Digits bs → count_digits bs ≡ length bs
unfolding count_digits
count-Digits [] h = refl
count-Digits (b ∷ bs) h = rw h.0 (omega (arith, count-Digits bs h.1))

pub take_all : (bs : List ℕ) → take (length bs) bs ≡ bs
take_all [] = refl
take_all (b ∷ bs) = ap (λ t. b ∷ t) (take_all bs)

pub Digits-IsByte : (bs : List ℕ) → Digits bs → All IsByte bs
Digits-IsByte [] h = tt
Digits-IsByte (b ∷ bs) h = (ground (arith, h.0), Digits-IsByte bs h.1)
