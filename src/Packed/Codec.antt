-- ===== src/Packed/Codec.antt =====
-- Packing and unpacking: `pack`, `pack_in` and the reading methods of `Packed` in
-- core/src/string.rs. `pack` is called on sixteen to thirty bytes only.
use Prim.Native.Nat.{bit_and, bit_or}
use perloxide.Prelude.{
  ℕ, zero, suc, ◌-◌, Bool, true, false, ◌&&◌, not, Option, none, some, List, [], ◌∷◌, ◌==◌,
  if◌then◌else◌, length, replicate,
}
use perloxide.Packed.Nibbles.{
  packed_bytes, max_packed_len, min_packed_len, length_nibble, nibble_at, set_nibble,
}
use perloxide.Packed.Alphabet.{
  PackedAlphabet, numeric, datetime_plus, datetime_zulu, invalid, encode, decode, encodes,
}

pub record Packed : Type 0 where
  pub alphabet : PackedAlphabet
  pub full : Bool
  pub nibbles : List ℕ

-- The loop of `pack`: which alphabets hold every byte so far, or none where no alphabet is left.
unfoldable pub feasible : List ℕ → Bool → Bool → Bool → Option (Bool × Bool × Bool)
feasible [] n p z = some (n, p, z)
feasible (b ∷ bytes) n p z =
    let n' = n && encodes numeric b in
    let p' = p && encodes datetime_plus b in
    let z' = z && encodes datetime_zulu b in
    let rest = feasible bytes n' p' z' in if not n' && not p' && not z' then none else rest

unfoldable pub choose : Bool × Bool × Bool → PackedAlphabet
choose (n, p, z) = if n then numeric else if p then datetime_plus else datetime_zulu

-- The loop of `pack_in`.
unfoldable pub pack_loop : PackedAlphabet → List ℕ → ℕ → List ℕ → Option (List ℕ)
pack_loop a [] i nibbles = some nibbles
pack_loop a (b ∷ bytes) i nibbles =
    let rest = pack_loop a bytes (suc i) (set_nibble nibbles i (encode a b)) in
    if encode a b == invalid then none else rest

-- The nibble that holds the length, written unless every nibble is content.
unfoldable pub with_length : ℕ → List ℕ → List ℕ
with_length len nibbles =
    if len == max_packed_len then nibbles else set_nibble nibbles length_nibble (bit_and len 0x0F)

abbrev pub empty_payload : List ℕ
empty_payload = replicate packed_bytes 0

unfoldable pub pack_in : List ℕ → PackedAlphabet → Option Packed
pack_in bytes a = elim (pack_loop a bytes 0 empty_payload) [
  | none ↦ none
  | some nibbles ↦ some (record {
    alphabet = a;
    full = length bytes == max_packed_len;
    nibbles = with_length (length bytes) nibbles;
  })
]

unfoldable pub pack : List ℕ → Option Packed
pack bytes = elim (feasible bytes true true true) [
  | none ↦ none
  | some flags ↦ pack_in bytes (choose flags)
]

-- `Packed::len`
unfoldable pub packed_len : Packed → ℕ
packed_len p =
    if p.full then max_packed_len else bit_or min_packed_len (nibble_at p.nibbles length_nibble)

-- Whether `count` nibbles from `i` on are zero.
unfoldable pub zero_nibbles : ℕ → ℕ → List ℕ → Bool
zero_nibbles zero i nibbles = true
zero_nibbles (suc count) i nibbles =
    (nibble_at nibbles i == 0) && zero_nibbles count (suc i) nibbles

unfoldable pub padding_is_canonical : Packed → Bool
padding_is_canonical p =
    if p.full then true else zero_nibbles (length_nibble - packed_len p) (packed_len p) p.nibbles

-- The loop of `unpack`: `count` characters from nibble `i` on.
unfoldable pub read : PackedAlphabet → ℕ → ℕ → List ℕ → List ℕ
read a zero i nibbles = []
read a (suc count) i nibbles = decode a (nibble_at nibbles i) ∷ read a count (suc i) nibbles

unfoldable pub unpack : Packed → List ℕ
unpack p = read p.alphabet (packed_len p) 0 p.nibbles

-- `eq_bytes`
unfoldable pub matches : PackedAlphabet → ℕ → List ℕ → List ℕ → Bool
matches a i nibbles [] = true
matches a i nibbles (o ∷ other) =
    (decode a (nibble_at nibbles i) == o) && matches a (suc i) nibbles other

unfoldable pub eq_bytes : Packed → List ℕ → Bool
unfolding matches packed_len
eq_bytes p other =
    if not (packed_len p == length other) then false else matches p.alphabet 0 p.nibbles other
