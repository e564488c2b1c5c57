-- ===== src/Packed/Examples.antt =====
-- Runs of the nibble-packed tier of core/src/string.rs, and its theorems at one input each.
use perloxide.Prelude.{
  ◌+◌, none, ◌++◌, ltb, if◌then◌else◌, ◌≡◌, refl, ◌↔◌, true, false, some, List, codes, length,
  arith, ℕ, [], ◌∷◌,
}
use perloxide.Packed.Nibbles.{set_nibble, with_half}
use perloxide.Packed.Alphabet.{
  datetime_plus, datetime_zulu, encodes, encode, symbols, encode_table, encode_loop,
}
use perloxide.Packed.Codec.{
  Packed, feasible, choose, pack_loop, pack_in, pack, with_length, packed_len, padding_is_canonical,
  unpack,
}
use perloxide.Packed.Append.{push}
use perloxide.Packed.Push.{push_exact}
use perloxide.Packed.Order.{cmp_bytes, lexicographic, cmp_bytes_exact}
use perloxide.Packed.RoundTrip.{InBand, unpack-pack}
use perloxide.Packed.Priority.{First, pack_exact}

-- Twenty characters of a timestamp in Zulu form.
abbrev stamp : List ℕ
stamp = codes "2024-01-02T03:04:05Z"

abbrev packed_stamp : Packed
packed_stamp = record {
  alphabet = datetime_zulu;
  full = false;
  nibbles =
      0x53 ∷ 0x57 ∷ 0x13 ∷ 0x41 ∷ 0x35 ∷ 0xe3 ∷ 0x6d ∷ 0x37 ∷ 0xd3 ∷ 0x8f ∷ 0x0 ∷ 0x0 ∷ 0x0 ∷ 0x0
      ∷ 0x4 ∷ [];
}

stamp-InBand : InBand stamp
stamp-InBand = omega arith

stamp_packs : pack stamp ≡ some packed_stamp
unfolding pack feasible choose pack_in pack_loop with_length encodes encode symbols encode_table
    encode_loop set_nibble with_half
stamp_packs = refl

unpack-pack_example :
    (unpack packed_stamp ≡ stamp)
    × (packed_len packed_stamp ≡ length stamp)
    × (padding_is_canonical packed_stamp ≡ true)
unpack-pack_example = unpack-pack stamp packed_stamp stamp-InBand stamp_packs

pack_exact_example :
    ((p : Packed) × (pack stamp ≡ some p) × (p.alphabet ≡ datetime_zulu))
    ↔ First datetime_zulu stamp
pack_exact_example = pack_exact stamp datetime_zulu stamp-InBand

-- The same without its `Z`, which fits another alphabet.
abbrev local : List ℕ
local = codes "2024-01-02T03:04:05"

abbrev packed_local : Packed
packed_local = record {
  alphabet = datetime_plus;
  full = false;
  nibbles =
      0x64 ∷ 0x68 ∷ 0x24 ∷ 0x52 ∷ 0x46 ∷ 0xf4 ∷ 0x7e ∷ 0x48 ∷ 0xe4 ∷ 0x90 ∷ 0x0 ∷ 0x0 ∷ 0x0 ∷ 0x0
      ∷ 0x3 ∷ [];
}

local_packs : pack local ≡ some packed_local
unfolding pack feasible choose pack_in pack_loop with_length encodes encode symbols encode_table
    encode_loop set_nibble with_half
local_packs = refl

local-InBand : InBand local
local-InBand = omega arith

push_exact_example :
    push packed_local (codes "Z")
    ≡ (if ltb 30 (length local + length (codes "Z")) then none else pack (local ++ codes "Z"))
push_exact_example =
    push_exact packed_local local (codes "Z") local-InBand (omega arith) local_packs

cmp_bytes_exact_example : cmp_bytes packed_local stamp ≡ lexicographic local stamp
cmp_bytes_exact_example = cmp_bytes_exact packed_local local stamp local-InBand local_packs
