-- ===== src/Numeric/Signed.antt =====
-- A sign and digits, as the scanning steps of core/src/value.rs read them.
use perloxide.Prelude.{
  ℕ, zero, suc, ◌<◌, ◌≡◌, ◌≢◌, refl, sym, ap, ◌∙◌, Bool, true, false, List, [], ◌∷◌, ◌++◌, ◌==◌,
  if◌then◌else◌, length, get_or, All, Bool-cases, same_bytes, same_bytes-eq, inl, inr, arith,
}
use perloxide.Numeric.Text.{is_whitespace, is_digit, skip_whitespace, sign_of, split_sign, trim_end}
use perloxide.Numeric.Classify.{continues, zero_but_true}
use perloxide.Numeric.Printed.{Digits}

-- A sign and digits.
unfoldable pub signed_text : Bool → List ℕ → List ℕ
signed_text negative ds = (if negative then b'-' ∷ [] else []) ++ ds

digit_tests :
    (b : ℕ)
    → is_digit b ≡ true
    → (is_whitespace b ≡ false) × ((b == b'-') ≡ false) × ((b == b'+') ≡ false)
unfolding is_whitespace
digit_tests b h = (ground arith, ground arith, ground arith)

pub split-signed :
    (negative : Bool) (ds : List ℕ)
    → Digits ds
    → 0 < length ds
    → split_sign (signed_text negative ds) ≡ (negative, ds)
unfolding split_sign skip_whitespace sign_of is_whitespace signed_text
split-signed true ds h l = refl
split-signed false [] h l = absurd (omega arith)
split-signed false (b ∷ bs) h l =
    let (solid, no_minus, no_plus) = digit_tests b h.0 in rw (solid, no_minus, no_plus) refl

-- Nothing of it is whitespace.
pub solid_at :
    (bs : List ℕ)
    → All (λ b. is_whitespace b ≡ false) bs
    → (k : ℕ) → is_whitespace (get_or bs k 0) ≡ false
unfolding is_whitespace
solid_at [] h k = refl
solid_at (b ∷ bs) h zero = h.0
solid_at (b ∷ bs) h (suc k) = solid_at bs h.1 k

pub trim_end-solid :
    (bs : List ℕ)
    → ((k : ℕ) → is_whitespace (get_or bs k 0) ≡ false)
    → (end : ℕ) → trim_end 0 bs end ≡ end
unfolding trim_end
trim_end-solid bs h zero = refl
trim_end-solid bs h (suc end) = ground (arith, h end)

Digits-solid : (ds : List ℕ) → Digits ds → All (λ b. is_whitespace b ≡ false) ds
Digits-solid [] h = tt
Digits-solid (d ∷ ds) h = ((digit_tests d h.0).0, Digits-solid ds h.1)

pub signed-solid :
    (negative : Bool) (ds : List ℕ)
    → Digits ds
    → All (λ b. is_whitespace b ≡ false) (signed_text negative ds)
unfolding signed_text is_whitespace
signed-solid true ds h = (refl, Digits-solid ds h)
signed-solid false ds h = Digits-solid ds h

never : false ≢ true
never h = cc

spaced : is_whitespace (get_or zero_but_true 1 0) ≡ true
unfolding is_whitespace
spaced = refl

-- The exception holds a space.
pub not_exception :
    (bs : List ℕ) → All (λ b. is_whitespace b ≡ false) bs → same_bytes bs zero_but_true ≡ false
not_exception bs h = elim (Bool-cases (same_bytes bs zero_but_true)) [
  | inl e ↦ absurd (
      never (
        sym (solid_at bs h 1)
        ∙ ap (λ t. is_whitespace (get_or t 1 0)) (same_bytes-eq bs zero_but_true e)
        ∙ spaced))
  | inr e ↦ e
]

pub continues_end : (ds : List ℕ) → continues ds (length ds) ≡ false
unfolding continues
continues_end ds = ground arith
