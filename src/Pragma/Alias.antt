-- ===== src/Pragma/Alias.antt =====
-- Bundle aliases of parser/src/pragma.rs, with the numbers written in decimal.
use perloxide.Prelude.{
  ℕ, zero, suc, ◌+◌, ◌-◌, ◌*◌, ◌/◌, ◌%◌, ◌^◌, ◌≤◌, ◌<◌, ◌≡◌, refl, ap, ◌∙◌, inl, inr, false, ◌&&◌,
  Option, none, some, List, [], ◌∷◌, ◌++◌, ◌==◌, ltb, leb, if◌then◌else◌, length, length-append,
  All, arith, same_bytes, Bool-cases,
}
use perloxide.Pragma.Bundles.{version_bundle}
use perloxide.Pragma.Names.{
  digits_value, parse_u32, next_component, version_alias, resolve_bundle_alias,
  resolve_feature_name,
}

-- The decimal numeral of a number, on fuel that exceeds it.
decimal_loop : ℕ → ℕ → List ℕ
decimal_loop zero n = []
decimal_loop (suc fuel) n =
    let front = decimal_loop fuel (n / 10) in
    if ltb n 10 then (b'0' + n) ∷ [] else front ++ (b'0' + n % 10) ∷ []

unfoldable pub decimal : ℕ → List ℕ
unfolding decimal_loop
decimal n = decimal_loop (suc n) n

abbrev IsDigit : ℕ → Type 0
IsDigit c = (b'0' ≤ c) × (c ≤ b'9')

abbrev IsNumeral : List ℕ → Type 0
IsNumeral ds = (0 < length ds) × All IsDigit ds

All-snoc : (ds : List ℕ) (c : ℕ) → All IsDigit ds → IsDigit c → All IsDigit (ds ++ c ∷ [])
All-snoc [] c h k = (k, tt)
All-snoc (d ∷ ds) c h k = (h.0, All-snoc ds c h.1 k)

digits_value-snoc :
    (ds : List ℕ) (c acc value : ℕ)
    → digits_value ds acc ≡ some value
    → IsDigit c
    → value * 10 + (c - b'0') < 2 ^ 32
    → digits_value (ds ++ c ∷ []) acc ≡ some (value * 10 + (c - b'0'))
unfolding digits_value
digits_value-snoc [] c acc value e k h = ground arith
digits_value-snoc (d ∷ ds) c acc value e k h =
    elim (Bool-cases (leb b'0' d && leb d b'9' && ltb (acc * 10 + (d - b'0')) (2 ^ 32))) [
      | inl good ↦
          rw (digits_value, good)
            (digits_value-snoc ds c (acc * 10 + (d - b'0')) value (rw (digits_value, good) at e) k
              h)
      | inr bad ↦ cc (rw (digits_value, bad) at e)
    ]

decimal_loop-IsNumeral : (fuel n : ℕ) → n < fuel → IsNumeral (decimal_loop fuel n)
unfolding decimal_loop
decimal_loop-IsNumeral zero n h = absurd (omega arith)
decimal_loop-IsNumeral (suc fuel) n h = elim (Bool-cases (ltb n 10)) [
  | inl small ↦ rw small (omega arith, ((omega arith, ground arith), tt))
  | inr big ↦
      let (filled, front) = decimal_loop-IsNumeral fuel (n / 10) (ground arith) in
      rw big (
        omega (arith, length-append (decimal_loop fuel (n / 10)) ((b'0' + n % 10) ∷ [])),
        All-snoc _ _ front (omega arith, omega arith),
      )
]

decimal_loop-value :
    (fuel n : ℕ) → n < fuel → n < 2 ^ 32 → digits_value (decimal_loop fuel n) 0 ≡ some n
unfolding decimal_loop
decimal_loop-value zero n h k = absurd (omega arith)
decimal_loop-value (suc fuel) n h k = elim (Bool-cases (ltb n 10)) [
  | inl small ↦ rw small (unfold digits_value in ground arith)
  | inr big ↦
      let front = decimal_loop-value fuel (n / 10) (ground arith) (omega arith) in
      rw big (
        digits_value-snoc _ (b'0' + n % 10) 0 (n / 10) front (omega arith, omega arith)
          (omega arith)
        ∙ ap some (omega arith))
]

parse_u32-numeral : (ds : List ℕ) → IsNumeral ds → parse_u32 ds ≡ digits_value ds 0
unfolding parse_u32
parse_u32-numeral [] h = absurd (omega arith)
parse_u32-numeral (c ∷ []) h = refl
parse_u32-numeral (c ∷ d ∷ ds) h = ground arith

not_dot : (d : ℕ) → IsDigit d → (d == b'.') ≡ false
not_dot d h = ground arith

next_component-last : (ds : List ℕ) → All IsDigit ds → next_component ds ≡ (ds, none)
unfolding next_component
next_component-last [] h = refl
next_component-last (d ∷ ds) h = rw (not_dot d h.0, next_component-last ds h.1) refl

next_component-dot :
    (ds rest : List ℕ) → All IsDigit ds → next_component (ds ++ b'.' ∷ rest) ≡ (ds, some rest)
unfolding next_component
next_component-dot [] rest h = refl
next_component-dot (d ∷ ds) rest h = rw (not_dot d h.0, next_component-dot ds rest h.1) refl

-- No numeral is a named bundle.
resolve_bundle_alias-numeral :
    (ds more : List ℕ)
    → IsNumeral ds
    → resolve_bundle_alias (ds ++ more) ≡ version_alias (ds ++ more)
unfolding resolve_bundle_alias same_bytes
resolve_bundle_alias-numeral [] more h = absurd (omega arith)
resolve_bundle_alias-numeral (d ∷ ds) more h = ground arith

decimal-IsNumeral : (n : ℕ) → IsNumeral (decimal n)
unfolding decimal
decimal-IsNumeral n = decimal_loop-IsNumeral (suc n) n (omega arith)

parse_u32-decimal : (n : ℕ) → n < 2 ^ 32 → parse_u32 (decimal n) ≡ some n
unfolding decimal
parse_u32-decimal n h =
    parse_u32-numeral (decimal n) (decimal-IsNumeral n)
    ∙ decimal_loop-value (suc n) n (omega arith) h

version_alias-parts :
    (tail first more : List ℕ) (major minor : ℕ)
    → next_component tail ≡ (first, some more)
    → parse_u32 first ≡ some major
    → parse_u32 (next_component more).0 ≡ some minor
    → version_alias tail ≡ some (version_bundle major minor)
unfolding version_alias
version_alias-parts tail first more major minor e f g = ground arith

alias_of :
    (major minor : ℕ) (more : List ℕ)
    → major < 2 ^ 32
    → minor < 2 ^ 32
    → (next_component more).0 ≡ decimal minor
    → resolve_feature_name (b':' ∷ decimal major ++ b'.' ∷ more) ≡ some (version_bundle major minor)
unfolding resolve_feature_name
alias_of major minor more h k e =
    resolve_bundle_alias-numeral (decimal major) (b'.' ∷ more) (decimal-IsNumeral major)
    ∙ version_alias-parts (decimal major ++ b'.' ∷ more) (decimal major) more major minor
        (next_component-dot (decimal major) more (decimal-IsNumeral major).1)
        (parse_u32-decimal major h) (ap parse_u32 e ∙ parse_u32-decimal minor k)

-- For M and N below 2^32 in decimal, `:M.N`, and `:M.N.P` with any text for P, name the bundle of
-- version M.N.
pub alias_version :
    (major minor : ℕ) (patch : List ℕ)
    → major < 2 ^ 32
    → minor < 2 ^ 32
    → (resolve_feature_name (b':' ∷ decimal major ++ b'.' ∷ decimal minor)
        ≡ some (version_bundle major minor))
      × (resolve_feature_name (b':' ∷ decimal major ++ b'.' ∷ (decimal minor ++ b'.' ∷ patch))
          ≡ some (version_bundle major minor))
alias_version major minor patch h k = (
  alias_of major minor (decimal minor) h k (
      ap (λ (c : List ℕ × Option (List ℕ)). c.0)
        (next_component-last (decimal minor) (decimal-IsNumeral minor).1)),
  alias_of major minor (decimal minor ++ b'.' ∷ patch) h k (
      ap (λ (c : List ℕ × Option (List ℕ)). c.0)
        (next_component-dot (decimal minor) patch (decimal-IsNumeral minor).1)),
)
