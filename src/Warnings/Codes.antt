-- ===== src/Warnings/Codes.antt =====
-- The two codes of a category, perl's bit number and perl's spelling: core/src/warnings.rs writes
-- each as one `match` for each direction.
use perloxide.Prelude.{
  ℕ, String, ◌≡◌, refl, sym, ap, ◌∙◌, ◌↔◌, some, true, ◌==◌, ==_iff, str_eq, str_eq_iff,
  match_arms-some, some_inj,
}
use perloxide.Warnings.Category.{WarningCategory, all, bit, from_bit, same_category, bit_arms}
use perloxide.Warnings.Names.{name, from_name, name_arms}

from_bit-bit : (c : WarningCategory) → from_bit (bit c) ≡ some c
unfolding from_bit bit
from_bit-bit all = refl
from_bit-bit _ = refl

bit-from_bit : (b : ℕ) (c : WarningCategory) → from_bit b ≡ some c → bit c ≡ b
unfolding from_bit bit
bit-from_bit b c =
    match_arms-some ◌==◌ (λ k j. (==_iff k j).0) (λ k v. bit v ≡ k) bit_arms b c
      (assumption (refl, tt))

-- A number reads back as a category exactly when it is that category's bit.
pub from_bit_exact : (b : ℕ) (c : WarningCategory) → (from_bit b ≡ some c) ↔ (bit c ≡ b)
from_bit_exact b c = (bit-from_bit b c, λ e. ap from_bit (sym e) ∙ from_bit-bit c)

from_name-name : (c : WarningCategory) → from_name (name c) ≡ some c
unfolding from_name name
from_name-name all = refl
from_name-name _ = refl

name-from_name : (s : String) (c : WarningCategory) → from_name s ≡ some c → name c ≡ s
unfolding from_name name
name-from_name s c =
    match_arms-some str_eq (λ k j. (str_eq_iff k j).0) (λ k v. name v ≡ k) name_arms s c
      (assumption (refl, tt))

-- A text reads back as a category exactly when it is perl's name of that category.
from_name_exact : (s : String) (c : WarningCategory) → (from_name s ≡ some c) ↔ (name c ≡ s)
from_name_exact s c = (name-from_name s c, λ e. ap from_name (sym e) ∙ from_name-name c)

-- The derived equality is equality.
pub same_category_iff : (a b : WarningCategory) → (same_category a b ≡ true) ↔ (a ≡ b)
unfolding same_category
same_category_iff a b = (
  λ h. some_inj (sym (from_bit-bit a) ∙ ap from_bit ((==_iff _ _).0 h) ∙ from_bit-bit b),
  λ e. (==_iff _ _).1 (ap bit e),
)
