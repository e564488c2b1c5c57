-- ===== src/Packed/Payload.antt =====
-- The payload of a packed string in core/src/string.rs, nibble by nibble.
use Prim.Native.Nat.{bit_and}
use native.Mathlib.Decide.{ℕ_discrete}
use perloxide.Prelude.{
  ℕ, zero, suc, ◌/◌, ◌%◌, ◌^◌, ◌<◌, ◌≡◌, refl, ◌∙◌, ◌⊎◌, ◌≢◌, Bool, true, ◌&&◌, List, [], ◌∷◌,
  arith, ltb, ◌==◌, if◌then◌else◌, length, get_or, set, All, inl, inr,
}
use perloxide.Prelude.Bits.{IsByte, all_below, below}
use perloxide.Packed.Nibbles.{nibble_at, with_half, set_nibble}

pub record IsPayload (ns : List ℕ) : Type 0 where
  pub size : length ns ≡ 15
  pub bytes : All IsByte ns

abbrev half_ok : ℕ → ℕ → Bool
half_ok byte value =
    ltb (with_half byte 0 value) 256
    && (with_half byte 0 value / 2 ^ 4 == value)
    && (bit_and (with_half byte 0 value) 0x0F == bit_and byte 0x0F)
    && ltb (with_half byte 1 value) 256
    && (bit_and (with_half byte 1 value) 0x0F == value)
    && (with_half byte 1 value / 2 ^ 4 == byte / 2 ^ 4)

half_table : all_below 256 (λ byte. all_below 16 (half_ok byte)) ≡ true
unfolding with_half
half_table = refl

half_at : (byte value : ℕ) → IsByte byte → value < 16 → half_ok byte value ≡ true
half_at byte value h k =
    below 16 (half_ok byte) (below 256 (λ byte. all_below 16 (half_ok byte)) half_table byte h)
      value k

get_or-set_self {ℓ} :
    {A : Type ℓ} (xs : List A) (i : ℕ) (v d : A) → i < length xs → get_or (set xs i v) i d ≡ v
get_or-set_self [] i v d h = elim h [ ]
get_or-set_self (x ∷ xs) zero v d h = refl
get_or-set_self (x ∷ xs) (suc i) v d h = get_or-set_self xs i v d (omega arith)

get_or-set_ne {ℓ} :
    {A : Type ℓ} (xs : List A) (i j : ℕ) (v d : A) → i ≢ j → get_or (set xs i v) j d ≡ get_or xs j d
get_or-set_ne [] i j v d h = refl
get_or-set_ne (x ∷ xs) zero zero v d h = absurd (h refl)
get_or-set_ne (x ∷ xs) zero (suc j) v d h = refl
get_or-set_ne (x ∷ xs) (suc i) zero v d h = refl
get_or-set_ne (x ∷ xs) (suc i) (suc j) v d h = get_or-set_ne xs i j v d (omega arith)

get_or-IsByte : (xs : List ℕ) (i : ℕ) → All IsByte xs → IsByte (get_or xs i 0)
get_or-IsByte [] i h = omega arith
get_or-IsByte (x ∷ xs) zero h = h.0
get_or-IsByte (x ∷ xs) (suc i) h = get_or-IsByte xs i h.1

set-All : (xs : List ℕ) (i v : ℕ) → All IsByte xs → IsByte v → All IsByte (set xs i v)
set-All [] i v h k = tt
set-All (x ∷ xs) zero v h k = (k, h.1)
set-All (x ∷ xs) (suc i) v h k = (h.0, set-All xs i v h.1 k)

length-set : (xs : List ℕ) (i v : ℕ) → length (set xs i v) ≡ length xs
length-set [] i v = refl
length-set (x ∷ xs) zero v = refl
length-set (x ∷ xs) (suc i) v = omega (arith, length-set xs i v)

with_half_parity : (byte i v : ℕ) → with_half byte i v ≡ with_half byte (i % 2) v
unfolding with_half
with_half_parity byte i v = ground arith

half_facts :
    (byte v : ℕ)
    → IsByte byte
    → v < 16
    → IsByte (with_half byte 0 v)
      × (with_half byte 0 v / 2 ^ 4 ≡ v)
      × (bit_and (with_half byte 0 v) 0x0F ≡ bit_and byte 0x0F)
      × IsByte (with_half byte 1 v)
      × (bit_and (with_half byte 1 v) 0x0F ≡ v)
      × (with_half byte 1 v / 2 ^ 4 ≡ byte / 2 ^ 4)
half_facts byte v h k = ground (arith, half_at byte v h k)

parity : (i : ℕ) → (i % 2 ≡ 0) ⊎ (i % 2 ≡ 1)
parity i = omega arith

with_half-IsByte : (byte i v : ℕ) → IsByte byte → v < 16 → IsByte (with_half byte i v)
with_half-IsByte byte i v h k = elim (parity i) [
  | inl e ↦ rw (with_half_parity byte i v, e) (half_facts byte v h k).0
  | inr e ↦ rw (with_half_parity byte i v, e) (half_facts byte v h k).3
]

-- The half that `j` names, of a byte of which the half that `i` names was written.
half_read :
    (byte i j v : ℕ)
    → IsByte byte
    → v < 16
    → (if j % 2 == 0 then with_half byte i v / 2 ^ 4 else bit_and (with_half byte i v) 0x0F)
      ≡ (if i % 2 == j % 2 then v else if j % 2 == 0 then byte / 2 ^ 4 else bit_and byte 0x0F)
half_read byte i j v h k = elim (parity i) [
  | inl e ↦ rw (with_half_parity byte i v, e) (ground (arith, parity j, half_facts byte v h k))
  | inr e ↦ rw (with_half_parity byte i v, e) (ground (arith, parity j, half_facts byte v h k))
]

pub set_nibble-IsPayload :
    {ns : List ℕ} (i v : ℕ) → IsPayload ns → v < 16 → IsPayload (set_nibble ns i v)
unfolding set_nibble
set_nibble-IsPayload {ns} i v p k = record {
  size = length-set ns (i / 2) _ ∙ p.size;
  bytes =
      set-All ns (i / 2) _ p.bytes (with_half-IsByte _ i v (get_or-IsByte ns (i / 2) p.bytes) k);
}

pub nibble_at-set_nibble :
    (ns : List ℕ) (i j v : ℕ)
    → IsPayload ns
    → i < 30
    → v < 16
    → nibble_at (set_nibble ns i v) j ≡ (if i == j then v else nibble_at ns j)
unfolding nibble_at set_nibble
nibble_at-set_nibble ns i j v p h k = elim (ℕ_discrete (i / 2) (j / 2)) [
  | no apart ↦
      rw (get_or-set_ne ns (i / 2) (j / 2) (with_half (get_or ns (i / 2) 0) i v) 0 apart)
        (ground arith)
  | yes together ↦
      rw
        (
          ← together,
          get_or-set_self ns (i / 2) (with_half (get_or ns (i / 2) 0) i v) 0
              (omega (arith, p.size)),
        )
        (half_read (get_or ns (i / 2) 0) i j v (get_or-IsByte ns (i / 2) p.bytes) k
          ∙ ground (arith, together))
]
