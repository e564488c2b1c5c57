-- ===== src/Packed/Append.antt =====
-- `transcode` and `push` of core/src/string.rs: the incremental path.
use perloxide.Prelude.{
  ℕ, zero, suc, ◌+◌, Bool, true, false, ◌&&◌, Option, none, some, List, [], ◌∷◌, ltb, ◌==◌,
  if◌then◌else◌, length, all,
}
use perloxide.Packed.Nibbles.{max_packed_len, nibble_at, set_nibble}
use perloxide.Packed.Alphabet.{
  PackedAlphabet, numeric, datetime_plus, datetime_zulu, invalid, encode, decode, encodes,
}
use perloxide.Packed.Codec.{Packed, packed_len, with_length}

-- The derived equality.
unfoldable pub same_alphabet : PackedAlphabet → PackedAlphabet → Bool
same_alphabet numeric numeric = true
same_alphabet datetime_plus datetime_plus = true
same_alphabet datetime_zulu datetime_zulu = true
same_alphabet _ _ = false

-- The loop of `transcode`: `count` nibbles of `source` from `i` on are mapped into `nibbles`.
unfoldable pub transcode_loop :
    ℕ → ℕ → PackedAlphabet → PackedAlphabet → List ℕ → List ℕ → Option (List ℕ)
transcode_loop zero i a to source nibbles = some nibbles
transcode_loop (suc count) i a to source nibbles =
    let mapped = encode to (decode a (nibble_at source i)) in
    let rest = transcode_loop count (suc i) a to source (set_nibble nibbles i mapped) in
    if mapped == invalid then none else rest

unfoldable pub transcode : Packed → PackedAlphabet → Option Packed
transcode p to =
    let moved = transcode_loop (packed_len p) 0 p.alphabet to p.nibbles p.nibbles in
    if same_alphabet to p.alphabet then some p else elim moved [
      | none ↦ none
      | some nibbles ↦ some (record { alphabet = to; full = p.full; nibbles = nibbles })
    ]

abbrev pub is_some {ℓ} : {A : Type ℓ} → Option A → Bool
is_some none = false
is_some (some x) = true

-- The test of `push`: the alphabet holds the tail and accepts the content.
unfoldable pub accepts : Packed → List ℕ → PackedAlphabet → Bool
accepts p tail a = all (encodes a) tail && is_some (transcode p a)

-- `find` over the alphabets in their order.
unfoldable pub target : Packed → List ℕ → Option PackedAlphabet
target p tail =
    if accepts p tail numeric
    then some numeric
    else if accepts p tail datetime_plus
    then some datetime_plus
    else if accepts p tail datetime_zulu
    then some datetime_zulu
    else none

-- The loop of `push`.
unfoldable pub write : PackedAlphabet → List ℕ → ℕ → List ℕ → List ℕ
write a [] i nibbles = nibbles
write a (b ∷ tail) i nibbles = write a tail (suc i) (set_nibble nibbles i (encode a b))

-- `push` below the choice of the alphabet.
unfoldable pub push_in : Packed → List ℕ → PackedAlphabet → Option Packed
push_in p tail a = elim (transcode p a) [
  | none ↦ none
  | some moved ↦
      let new_len = packed_len p + length tail in
      some (record moved {
        full = new_len == max_packed_len;
        nibbles = with_length new_len (write a tail (packed_len p) moved.nibbles);
      })
]

unfoldable pub push : Packed → List ℕ → Option Packed
push p tail =
    let pushed : Option Packed = elim (target p tail) [ none ↦ none | some a ↦ push_in p tail a ] in
    if ltb max_packed_len (packed_len p + length tail) then none else pushed
