-- ===== src/Latin1/Examples.antt =====
-- Runs of the Latin-1 transforms of core/src/cow_buffer.rs, and its theorems at one input each.
use perloxide.Prelude.{
  ℕ, ◌+◌, ◌%◌, ◌^◌, ◌≡◌, ◌⊎◌, ◌<◌, ◌≤◌, refl, Bool, none, some, List, [], ◌∷◌, ◌++◌, ltb,
  if◌then◌else◌, length, All, arith,
}
use perloxide.Prelude.Bits.{IsByte}
use perloxide.Latin1.Words.{count_high, variant_count, first_variant}
use perloxide.Latin1.Counts.{variant_count_exact}
use perloxide.Latin1.Transform.{filled, refused, upgraded_bytes, downgraded_bytes}
use perloxide.Latin1.Upgrade.{upgrade, upgraded_exact}
use perloxide.Latin1.Downgrade.{downgraded-upgrade}
use perloxide.Latin1.InPlace.{expand_latin1_in_place, contract_latin1_in_place}
use perloxide.Latin1.Backward.{expand_exact}
use perloxide.Latin1.Forward.{contract_exact}
use perloxide.Latin1.Encoded.{downgraded_exact, downgrade_answer}

-- Ten bytes, two of them high.
abbrev cafe : List ℕ
cafe = 0x63 ∷ 0x61 ∷ 0x66 ∷ 0xE9 ∷ 0x20 ∷ 0x61 ∷ 0x62 ∷ 0x63 ∷ 0x64 ∷ 0xFF ∷ []

cafe-IsByte : All IsByte cafe
cafe-IsByte = omega arith

-- Reservations below a hundred bytes succeed.
abbrev small : ℕ → Bool
small n = ltb n 100

cafe_count : variant_count cafe ≡ 2
unfolding variant_count
cafe_count = refl

cafe_first : first_variant cafe ≡ some 3
unfolding first_variant
cafe_first = refl

cafe_upgrade :
    upgraded_bytes small cafe
    ≡ filled
        (0x63 ∷ 0x61 ∷ 0x66 ∷ 0xC3 ∷ 0xA9 ∷ 0x20 ∷ 0x61 ∷ 0x62 ∷ 0x63 ∷ 0x64 ∷ 0xC3 ∷ 0xBF ∷ [])
unfolding upgraded_bytes
cafe_upgrade = refl

variant_count_exact_example :
    (variant_count cafe % 2 ^ 32 ≡ count_high cafe % 2 ^ 32)
    × (variant_count cafe < 2 ^ 32 + 7)
    × ((variant_count cafe ≡ count_high cafe) ⊎ (2 ^ 32 ≤ count_high cafe))
variant_count_exact_example = variant_count_exact cafe cafe-IsByte

upgraded_exact_example : upgraded_bytes small cafe ≡ (
    if small (length (upgrade cafe))
    then filled (upgrade cafe)
    else refused (length (upgrade cafe)))
upgraded_exact_example = upgraded_exact small cafe cafe-IsByte (unfold count_high in omega arith)

downgraded-upgrade_example :
    downgraded_bytes small (upgrade cafe)
    ≡ (if small (length cafe) then some (filled (some cafe)) else some (refused (length cafe)))
downgraded-upgrade_example = downgraded-upgrade small cafe cafe-IsByte

downgraded_exact_example :
    (downgraded_bytes small cafe ≡ some (filled none))
    ⊎ ((out : List ℕ) × (upgrade out ≡ cafe)
        × (downgraded_bytes small cafe ≡ downgrade_answer small out))
downgraded_exact_example = downgraded_exact small cafe cafe-IsByte

-- The memory around ten bytes: one before, two spare, one after.
expand_exact_example :
    expand_latin1_in_place
      (0x61 ∷ [] ++ (cafe ++ (0 ∷ 0 ∷ [] ++ 7 ∷ [])))
      (length {A = ℕ} (0x61 ∷ []))
      (length {A = ℕ} (0x61 ∷ []) + length cafe)
      (length {A = ℕ} (0x61 ∷ []) + length cafe + length {A = ℕ} (0 ∷ 0 ∷ []))
    ≡ (0x61 ∷ [] ++ (upgrade cafe ++ 7 ∷ []), length {A = ℕ} (0x61 ∷ []))
expand_exact_example =
    expand_exact (0x61 ∷ []) cafe (0 ∷ 0 ∷ []) (7 ∷ []) (unfold count_high in refl)

contract_exact_example :
    (left_over : List ℕ) × (contract_latin1_in_place
        (0x61 ∷ [] ++ (upgrade cafe ++ 7 ∷ []))
        (length {A = ℕ} (0x61 ∷ []))
        (length {A = ℕ} (0x61 ∷ []) + length (upgrade cafe))
      ≡ (0x61 ∷ [] ++ (cafe ++ (left_over ++ 7 ∷ [])), length {A = ℕ} (0x61 ∷ []) + length cafe))
    × (length left_over ≡ count_high cafe)
contract_exact_example = contract_exact (0x61 ∷ []) cafe (7 ∷ []) cafe-IsByte
