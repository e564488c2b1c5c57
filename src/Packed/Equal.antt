-- ===== src/Packed/Equal.antt =====
-- `eq_bytes` of core/src/string.rs against equality of the contents.
use perloxide.Prelude.{
  ℕ, suc, ◌≡◌, refl, sym, ◌∙◌, ◌↔◌, true, some, List, [], ◌∷◌, ◌==◌, ==_iff, length, inl, inr,
  Bool-cases, same_bytes, same_bytes-eq, same_bytes_refl,
}
use perloxide.Packed.Alphabet.{PackedAlphabet}
use perloxide.Packed.Codec.{Packed, pack, read, matches, eq_bytes}
use perloxide.Packed.RoundTrip.{InBand, Holds}
use perloxide.Packed.Push.{pack-Holds}

matches-same_bytes :
    (a : PackedAlphabet) (i : ℕ) (ns other : List ℕ)
    → matches a i ns other ≡ same_bytes (read a (length other) i ns) other
unfolding matches same_bytes read
matches-same_bytes a i ns [] = refl
matches-same_bytes a i ns (o ∷ other) = rw (matches-same_bytes a (suc i) ns other) refl

module _ (p : Packed) (bs other : List ℕ) (h : Holds p bs) where
  Holds-eq_bytes : eq_bytes p other ≡ true → bs ≡ other
  unfolding eq_bytes
  Holds-eq_bytes e = elim (Bool-cases (length bs == length other)) [
    | inr differ ↦ cc (rw (eq_bytes, h.size, differ) at e)
    | inl same ↦
        let size : length bs ≡ length other = (==_iff _ _).0 same in
        let met : same_bytes (read p.alphabet (length other) 0 p.nibbles) other ≡ true =
          sym (matches-same_bytes p.alphabet 0 p.nibbles other)
          ∙ (rw (eq_bytes, h.size, same) at e) in
        sym h.content
        ∙ rw size (same_bytes-eq (read p.alphabet (length other) 0 p.nibbles) other met)
  ]

  eq_bytes-Holds : bs ≡ other → eq_bytes p other ≡ true
  unfolding eq_bytes
  eq_bytes-Holds e =
      let same : (length bs == length bs) ≡ true = (==_iff _ _).1 refl in
      rw (← e, eq_bytes, h.size, same, matches-same_bytes p.alphabet 0 p.nibbles bs, h.content)
        (same_bytes_refl bs)

-- A packed string of sixteen to thirty bytes equals raw bytes exactly when those are the bytes that
-- it was packed from.
pub eq_bytes_exact :
    (p : Packed) (bs other : List ℕ)
    → InBand bs
    → pack bs ≡ some p
    → (eq_bytes p other ≡ true) ↔ (bs ≡ other)
eq_bytes_exact p bs other band e =
    let h = pack-Holds bs p band e in (Holds-eq_bytes p bs other h, eq_bytes-Holds p bs other h)
