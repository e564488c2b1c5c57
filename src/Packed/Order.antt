-- ===== src/Packed/Order.antt =====
-- `cmp_bytes` of core/src/string.rs, and the order of the contents.
use Prim.Native.Nat.{compare, Ordering, lt, eq, gt}
use perloxide.Prelude.{
  ℕ, zero, suc, ◌≡◌, refl, ap, ◌∙◌, Option, none, some, List, [], ◌∷◌, arith, length,
}
use perloxide.Packed.Nibbles.{nibble_at}
use perloxide.Packed.Alphabet.{PackedAlphabet, decode}
use perloxide.Packed.Codec.{Packed, packed_len, pack, read}
use perloxide.Packed.RoundTrip.{InBand}
use perloxide.Packed.Push.{pack-Holds}

-- The loop of `cmp_bytes`: the first difference among `count` characters.
unfoldable pub cmp_loop : PackedAlphabet → ℕ → ℕ → List ℕ → List ℕ → Option Ordering
cmp_loop a zero i nibbles other = none
cmp_loop a (suc count) i nibbles [] = none
cmp_loop a (suc count) i nibbles (o ∷ other) = elim (compare (decode a (nibble_at nibbles i)) o) [
  | eq ↦ cmp_loop a count (suc i) nibbles other
  | lt ↦ some lt
  | gt ↦ some gt
]

abbrev then_order : Option Ordering → Ordering → Ordering
then_order (some r) d = r
then_order none d = d

unfoldable pub cmp_bytes : Packed → List ℕ → Ordering
cmp_bytes p other =
    then_order (cmp_loop p.alphabet (packed_len p) 0 p.nibbles other)
      (compare (packed_len p) (length other))

-- The order of byte strings: the first difference decides, and a prefix comes first.
unfoldable pub lexicographic : List ℕ → List ℕ → Ordering
lexicographic [] [] = eq
lexicographic [] (o ∷ os) = lt
lexicographic (b ∷ bs) [] = gt
lexicographic (b ∷ bs) (o ∷ os) = elim (compare b o) [
  | eq ↦ lexicographic bs os
  | lt ↦ lt
  | gt ↦ gt
]

round :
    (r : Ordering) (rest : Option Ordering) (d e : Ordering)
    → then_order rest d ≡ e
    → then_order (elim r [ eq ↦ rest | lt ↦ some lt | gt ↦ some gt ]) d
      ≡ elim r [ eq ↦ e | lt ↦ lt | gt ↦ gt ]
round eq rest d e h = h
round lt rest d e h = refl
round gt rest d e h = refl

compare-suc : (a b : ℕ) → compare (suc a) (suc b) ≡ compare a b
compare-suc a b = ground arith

cmp_loop-lexicographic :
    (a : PackedAlphabet) (count i : ℕ) (ns other : List ℕ)
    → then_order (cmp_loop a count i ns other) (compare count (length other))
      ≡ lexicographic (read a count i ns) other
unfolding cmp_loop lexicographic read
cmp_loop-lexicographic a zero i ns [] = refl
cmp_loop-lexicographic a zero i ns (o ∷ other) = ground arith
cmp_loop-lexicographic a (suc count) i ns [] = ground arith
cmp_loop-lexicographic a (suc count) i ns (o ∷ other) =
    round (compare (decode a (nibble_at ns i)) o) _ _ _ (
      ap (then_order (cmp_loop a count (suc i) ns other)) (compare-suc count (length other))
      ∙ cmp_loop-lexicographic a count (suc i) ns other)

-- Against raw bytes, a packed string of sixteen to thirty bytes is ordered as the bytes that it was
-- packed from: the first difference decides, and a prefix comes first.
pub cmp_bytes_exact :
    (p : Packed) (bs other : List ℕ)
    → InBand bs
    → pack bs ≡ some p
    → cmp_bytes p other ≡ lexicographic bs other
unfolding cmp_bytes
cmp_bytes_exact p bs other band e =
    let h = pack-Holds bs p band e in
    rw
      (
        cmp_bytes,
        h.size,
        cmp_loop-lexicographic p.alphabet (length bs) 0 p.nibbles other,
        h.content,
      )
      refl
