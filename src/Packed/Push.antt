-- ===== src/Packed/Push.antt =====
-- `push` of core/src/string.rs against `pack` on the whole content.
use perloxide.Prelude.{
  and_true, ℕ, ◌+◌, ◌≤◌, ◌≡◌, refl, sym, ap, ◌∙◌, true, false, none, some, List, [], ◌∷◌, ◌++◌,
  arith, ltb, ◌==◌, if◌then◌else◌, length, length-append, All, inl, inr, Bool-cases, Option-cases,
}
use perloxide.Prelude.Bits.{IsByte}
use perloxide.Packed.Alphabet.{PackedAlphabet, numeric, datetime_plus, datetime_zulu}
use perloxide.Packed.Codec.{Packed, packed_len, pack, with_length}
use perloxide.Packed.RoundTrip.{InBand, Holds, pack_in-Holds}
use perloxide.Packed.Priority.{
  fits, First, First-cases, First-fits, First-pack, Unfit, Unfit-pack, pack_in-fits,
}
use perloxide.Packed.Unique.{Holds-unique}
use perloxide.Packed.Append.{is_some, accepts, target, transcode, write, push_in, push}
use perloxide.Packed.Moves.{fits-append, transcode-fits, transcode-Holds, write-Holds}

pub pack-Holds : (bs : List ℕ) (p : Packed) → InBand bs → pack bs ≡ some p → Holds p bs
pack-Holds bs p band e = elim (First-cases bs) [
  | inl (a, first) ↦ (pack_in-Holds bs a p band (sym (First-pack bs a first) ∙ e)).0
  | inr unfit ↦ cc (sym (Unfit-pack bs unfit) ∙ e)
]

append-All : (bs tail : List ℕ) → All IsByte bs → All IsByte tail → All IsByte (bs ++ tail)
append-All [] tail h k = k
append-All (b ∷ bs) tail h k = (h.0, append-All bs tail h.1 k)

append-InBand :
    (bs tail : List ℕ)
    → InBand bs
    → All IsByte tail
    → length bs + length tail ≤ 30
    → InBand (bs ++ tail)
append-InBand bs tail (lo, hi, bytes) more room =
    let total = length-append bs tail in (omega arith, omega arith, append-All bs tail bytes more)

module _ (p : Packed) (bs tail : List ℕ) (h : Holds p bs) where
  accepts-fits : (a : PackedAlphabet) → accepts p tail a ≡ fits a (bs ++ tail)
  unfolding accepts
  accepts-fits a = rw (transcode-fits p bs h a) (sym (fits-append a bs tail))

  -- The alphabet of an append is that of the whole.
  target-First : (a : PackedAlphabet) → First a (bs ++ tail) → target p tail ≡ some a
  unfolding target
  target-First numeric f = rw (target, accepts-fits numeric, f) refl
  target-First datetime_plus f =
      rw (target, accepts-fits numeric, accepts-fits datetime_plus, f.0, f.1) refl
  target-First datetime_zulu f =
      rw
        (
          target,
          accepts-fits numeric,
          accepts-fits datetime_plus,
          accepts-fits datetime_zulu,
          f.0,
          f.1,
          f.2,
        )
        refl

  target-Unfit : Unfit (bs ++ tail) → target p tail ≡ none
  unfolding target
  target-Unfit u =
      rw
        (
          target,
          accepts-fits numeric,
          accepts-fits datetime_plus,
          accepts-fits datetime_zulu,
          u.0,
          u.1,
          u.2,
        )
        refl

  push_in-Holds :
      (a : PackedAlphabet)
      → InBand bs
      → InBand (bs ++ tail)
      → All IsByte tail
      → fits a (bs ++ tail) ≡ true
      → (q : Packed) × (push_in p tail a ≡ some q) × Holds q (bs ++ tail) × (q.alphabet ≡ a)
  unfolding push_in
  push_in-Holds a band all_band bytes fit =
      let (tail_fits, content_fits) =
        and_true (fits a tail) (fits a bs) (sym (fits-append a bs tail) ∙ fit) in
      elim (Option-cases (transcode p a)) [
        | inl failed ↦ cc (sym (ap is_some failed) ∙ transcode-fits p bs h a ∙ content_fits)
        | inr (m, moved) ↦
            let (held, same) = transcode-Holds p bs h a m band moved in
            let length_is : packed_len p + length tail ≡ length (bs ++ tail) =
              omega (arith, h.size, length-append bs tail) in
            let fits_tail : fits m.alphabet tail ≡ true = rw same tail_fits in
            (
              record m {
                full = length (bs ++ tail) == 30;
                nibbles =
                    with_length (length (bs ++ tail)) (write m.alphabet tail (length bs) m.nibbles);
              },
              rw (push_in, moved, length_is, h.size, same) refl,
              write-Holds m bs tail held all_band bytes fits_tail,
              same,
            )
      ]

push_room :
    (p : Packed) (bs tail : List ℕ)
    → Holds p bs
    → InBand bs
    → InBand (bs ++ tail)
    → All IsByte tail
    → push p tail ≡ pack (bs ++ tail)
unfolding push
push_room p bs tail h band all_band bytes =
    let inside : ltb 30 (packed_len p + length tail) ≡ false =
      ground (arith, h.size, length-append bs tail, all_band.1) in
    elim (First-cases (bs ++ tail)) [
      | inr unfit ↦
          rw (push, inside, target-Unfit p bs tail h unfit, Unfit-pack (bs ++ tail) unfit) refl
      | inl (a, first) ↦
          let fit = First-fits a (bs ++ tail) first in
          let (q, pushed, held, same) = push_in-Holds p bs tail h a band all_band bytes fit in
          let (r, packed, other) = pack_in-fits a (bs ++ tail) fit in
          let held_r = (pack_in-Holds (bs ++ tail) a r all_band packed).0 in
          let one = Holds-unique q r (bs ++ tail) held held_r (same ∙ sym other) in
          rw
            (
              push,
              inside,
              target-First p bs tail h a first,
              pushed,
              First-pack (bs ++ tail) a first,
              packed,
              one,
            )
            refl
    ]

-- Of a packed content of sixteen to thirty bytes, appending bytes is refused where the whole exceeds
-- thirty, and gives otherwise exactly what packing the whole gives, a refusal included.
pub push_exact :
    (p : Packed) (bs tail : List ℕ)
    → InBand bs
    → All IsByte tail
    → pack bs ≡ some p
    → push p tail ≡ (if ltb 30 (length bs + length tail) then none else pack (bs ++ tail))
unfolding push
push_exact p bs tail band bytes e =
    let h = pack-Holds bs p band e in
    elim (Bool-cases (ltb 30 (length bs + length tail))) [
      | inl beyond ↦ rw (push, h.size, beyond) refl
      | inr room ↦
          rw room
            (push_room p bs tail h band (append-InBand bs tail band bytes (ground arith)) bytes)
    ]
