-- ===== src/Numeric/Render.antt =====
-- Rendering in core/src/numeric.rs and core/src/value.rs, as the bytes that are appended where no
-- allocation fails. A float is a parameter: its tests and the text of `{:.14e}`.
use perloxide.Prelude.{
  ℕ, zero, suc, ◌+◌, ◌/◌, ◌%◌, Bool, true, false, none, some, List, [], ◌∷◌, ◌++◌, map, ◌==◌,
  if◌then◌else◌, take,
}
use perloxide.Prelude.Int.{ℤ, pos, negsuc}
use perloxide.Numeric.Cache.{empty_cache, count, digits, decimal_cache}

-- `{n}` of an unsigned number, which the standard library prints.
unfoldable pub print_digits : ℕ → ℕ → List ℕ
print_digits zero n = []
print_digits (suc room) n =
    let before = print_digits room (n / 10) in
    (if n / 10 == 0 then [] else before) ++ ((b'0' + n % 10) ∷ [])

unfoldable pub print_unsigned : ℕ → List ℕ
unfolding print_digits
print_unsigned n = print_digits 20 n

-- `unsigned_abs`
abbrev pub unsigned_abs : ℤ → ℕ
unsigned_abs (pos n) = n
unsigned_abs (negsuc n) = suc n

abbrev pub is_negative : ℤ → Bool
is_negative (pos n) = false
is_negative (negsuc n) = true

-- `format_int_into`
unfoldable pub format_int_into : ℤ → List ℕ
unfolding print_unsigned
format_int_into n = (if is_negative n then b'-' ∷ [] else []) ++ print_unsigned (unsigned_abs n)

unfoldable pub emit_digits : List ℕ → ℕ → Bool → List ℕ
emit_digits ds n negative = (if negative then b'-' ∷ [] else []) ++ map (λ d. b'0' + d) (take n ds)

-- A payload: the datum and the cache.
pub record IntegerPayload : Type 0 where
  pub cache : List ℕ
  pub value : ℤ

pub record UnsignedPayload : Type 0 where
  pub cache : List ℕ
  pub value : ℕ

abbrev pub new_integer : ℤ → IntegerPayload
new_integer n = record { cache = empty_cache; value = n }

abbrev pub new_unsigned : ℕ → UnsignedPayload
new_unsigned n = record { cache = empty_cache; value = n }

unfoldable pub render_integer : IntegerPayload → List ℕ
unfolding count digits emit_digits format_int_into
render_integer p = elim (count p.cache) [
  | some n ↦ emit_digits (digits 1 p.cache n) n (is_negative p.value)
  | none ↦ format_int_into p.value
]

unfoldable pub filled_integer : IntegerPayload → IntegerPayload
unfolding decimal_cache
filled_integer p = record { cache = decimal_cache (unsigned_abs p.value); value = p.value }

unfoldable pub render_unsigned : UnsignedPayload → List ℕ
unfolding count digits emit_digits print_unsigned
render_unsigned p = elim (count p.cache) [
  | some n ↦ emit_digits (digits 1 p.cache n) n false
  | none ↦ print_unsigned p.value
]

unfoldable pub filled_unsigned : UnsignedPayload → UnsignedPayload
unfolding decimal_cache
filled_unsigned p = record { cache = decimal_cache p.value; value = p.value }
