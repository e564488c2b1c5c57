-- ===== src/Packed/Moves.antt =====
-- The moves between alphabets and the writes of `push` in core/src/string.rs, on a packed string
-- that holds a known content.
use perloxide.Prelude.{
  ℕ, zero, suc, ◌+◌, ◌<◌, ◌≡◌, refl, sym, ap, ◌∙◌, true, ◌&&◌, some, List, [], ◌∷◌, ◌++◌, arith,
  ◌==◌, length, length-append, All, inl, inr, Bool-cases, Option-cases, some_inj,
}
use perloxide.Prelude.Bits.{IsByte}
use perloxide.Packed.Nibbles.{nibble_at, set_nibble}
use perloxide.Packed.Alphabet.{
  PackedAlphabet, numeric, datetime_plus, datetime_zulu, invalid, encode, decode, encodes,
}
use perloxide.Packed.Codec.{Packed, pack_loop, packed_len, with_length, read}
use perloxide.Packed.Payload.{IsPayload}
use perloxide.Packed.RoundTrip.{InBand, Holds, Written, pack_loop-Written, finish-Holds, read_same}
use perloxide.Packed.Priority.{fits, pack_loop-fits}
use perloxide.Packed.Unique.{nibble_facts, nibble_at_lt}
use perloxide.Packed.Append.{same_alphabet, transcode_loop, transcode, is_some, write}

-- The loop of `transcode` packs what it reads.
transcode_loop-read :
    (count i : ℕ) (a to : PackedAlphabet) (source ns : List ℕ)
    → transcode_loop count i a to source ns ≡ pack_loop to (read a count i source) i ns
unfolding transcode_loop pack_loop read
transcode_loop-read zero i a to source ns = refl
transcode_loop-read (suc count) i a to source ns =
    rw
      (transcode_loop-read count (suc i) a to source
        (set_nibble ns i (encode to (decode a (nibble_at source i)))))
      refl

write-pack_loop :
    (a : PackedAlphabet) (tail : List ℕ) (i : ℕ) (ns : List ℕ)
    → fits a tail ≡ true
    → pack_loop a tail i ns ≡ some (write a tail i ns)
unfolding pack_loop write encodes
write-pack_loop a [] i ns h = refl
write-pack_loop a (b ∷ tail) i ns h = elim (Bool-cases (encode a b == invalid)) [
  | inl bad ↦ ground arith
  | inr good ↦
      rw (pack_loop, good)
        (write-pack_loop a tail (suc i) (set_nibble ns i (encode a b)) (ground arith))
]

pub fits-append :
    (a : PackedAlphabet) (xs ys : List ℕ) → fits a (xs ++ ys) ≡ (fits a ys && fits a xs)
fits-append a [] ys = ground arith
fits-append a (x ∷ xs) ys = ground (arith, fits-append a xs ys)

read-fits :
    (a : PackedAlphabet) (count i : ℕ) (ns : List ℕ)
    → IsPayload ns
    → fits a (read a count i ns) ≡ true
unfolding read
read-fits a zero i ns p = refl
read-fits a (suc count) i ns p =
    rw ((nibble_facts a (nibble_at ns i) (nibble_at_lt ns i p)).1, read-fits a count (suc i) ns p)
      refl

fits_of-pack_loop :
    (a : PackedAlphabet) (bs : List ℕ) (i : ℕ) (ns ms : List ℕ)
    → pack_loop a bs i ns ≡ some ms
    → fits a bs ≡ true
unfolding pack_loop encodes
fits_of-pack_loop a [] i ns ms e = refl
fits_of-pack_loop a (b ∷ bs) i ns ms e = elim (Bool-cases (encode a b == invalid)) [
  | inl bad ↦ cc (rw (pack_loop, bad) at e)
  | inr good ↦ ground (
    arith,
    fits_of-pack_loop a bs (suc i) (set_nibble ns i (encode a b)) ms (rw (pack_loop, good) at e),
  )
]

read-append :
    (a : PackedAlphabet) (m n i : ℕ) (ns : List ℕ)
    → read a (m + n) i ns ≡ (read a m i ns ++ read a n (i + m) ns)
unfolding read
read-append a zero n i ns =
    let none_read : 0 + n ≡ n = omega arith in
    let start : i + 0 ≡ i = omega arith in rw (none_read, start) refl
read-append a (suc m) n i ns =
    let count : suc m + n ≡ suc (m + n) = omega arith in
    let start : i + suc m ≡ suc i + m = omega arith in
    rw (count, start) (ap (λ r. decode a (nibble_at ns i) ∷ r) (read-append a m n (suc i) ns))

same_alphabet-eq : (a b : PackedAlphabet) → same_alphabet a b ≡ true → a ≡ b
unfolding same_alphabet
same_alphabet-eq numeric numeric h = refl
same_alphabet-eq datetime_plus datetime_plus h = refl
same_alphabet-eq datetime_zulu datetime_zulu h = refl
same_alphabet-eq numeric datetime_plus h = cc
same_alphabet-eq numeric datetime_zulu h = cc
same_alphabet-eq datetime_plus numeric h = cc
same_alphabet-eq datetime_plus datetime_zulu h = cc
same_alphabet-eq datetime_zulu numeric h = cc
same_alphabet-eq datetime_zulu datetime_plus h = cc

module _ (p : Packed) (bs : List ℕ) (h : Holds p bs) where
  moved :
      (to : PackedAlphabet)
      → transcode_loop (packed_len p) 0 p.alphabet to p.nibbles p.nibbles
        ≡ pack_loop to bs 0 p.nibbles
  moved to =
      transcode_loop-read (packed_len p) 0 p.alphabet to p.nibbles p.nibbles
      ∙ ap (λ cs. pack_loop to cs 0 p.nibbles) (rw h.size h.content)

  own-fits : fits p.alphabet bs ≡ true
  own-fits = rw (← h.content) (read-fits p.alphabet (length bs) 0 p.nibbles h.payload)

  -- A move succeeds exactly where the alphabet holds the content.
  pub transcode-fits : (to : PackedAlphabet) → is_some (transcode p to) ≡ fits to bs
  unfolding transcode
  transcode-fits to = elim (Bool-cases (same_alphabet to p.alphabet)) [
    | inl same ↦ rw (transcode, same) (sym (rw (same_alphabet-eq to p.alphabet same) own-fits))
    | inr other ↦ elim (Option-cases (pack_loop to bs 0 p.nibbles)) [
      | inl failed ↦ elim (Bool-cases (fits to bs)) [
        | inl fit ↦ absurd (pack_loop-fits to bs 0 p.nibbles fit failed)
        | inr unfit ↦ rw (transcode, other, moved to, failed, unfit) refl
      ]
      | inr (ms, packed) ↦
          rw (transcode, other, moved to, packed, fits_of-pack_loop to bs 0 p.nibbles ms packed)
            refl
    ]
  ]

  Written-Holds :
      (to : PackedAlphabet) (ms : List ℕ)
      → InBand bs
      → Written to bs 0 p.nibbles ms
      → Holds (record { alphabet = to; full = p.full; nibbles = ms }) bs
  unfolding packed_len
  Written-Holds to ms band w = record {
    payload = w.payload;
    size = elim (Bool-cases p.full) [
      | inl full ↦ rw full (rw (packed_len, full) at h.size)
      | inr short ↦
          let room : length bs < 30 = ground (arith, h.fullness, band.1) in
          rw (short, w.after 29 (omega arith)) (rw (packed_len, short) at h.size)
    ];
    content = w.content;
    fullness = h.fullness;
    padding = λ j l m. w.after j (omega arith) ∙ h.padding j l m;
  }

  pub transcode-Holds :
      (to : PackedAlphabet) (q : Packed)
      → InBand bs
      → transcode p to ≡ some q
      → Holds q bs × (q.alphabet ≡ to)
  unfolding transcode
  transcode-Holds to q band e = elim (Bool-cases (same_alphabet to p.alphabet)) [
    | inl same ↦
        let it : p ≡ q = some_inj (rw (transcode, same) at e) in
        rw (← it) (h, sym (same_alphabet-eq to p.alphabet same))
    | inr other ↦ elim (Option-cases (pack_loop to bs 0 p.nibbles)) [
      | inl failed ↦ cc (rw (transcode, other, moved to, failed) at e)
      | inr (ms, packed) ↦
          let it = some_inj (rw (transcode, other, moved to, packed) at e) in
          rw (← it) (
            Written-Holds to ms band (
                pack_loop-Written to bs 0 p.nibbles ms h.payload (omega (arith, band.1)) band.2
                  packed),
            refl,
          )
    ]
  ]

-- Bytes written past a content join it.
pub write-Holds :
    (m : Packed) (bs tail : List ℕ)
    → Holds m bs
    → InBand (bs ++ tail)
    → All IsByte tail
    → fits m.alphabet tail ≡ true
    → Holds
        (record m {
          full = length (bs ++ tail) == 30;
          nibbles = with_length (length (bs ++ tail)) (write m.alphabet tail (length bs) m.nibbles);
        })
        (bs ++ tail)
write-Holds m bs tail h band bytes fit =
    let a = m.alphabet in
    let n = length bs in
    let ns = write a tail n m.nibbles in
    let total = length-append bs tail in
    let w =
      pack_loop-Written a tail n m.nibbles ns h.payload (omega (arith, band.1)) bytes
        (write-pack_loop a tail n m.nibbles fit) in
    let kept = read_same a n 0 ns m.nibbles (λ j l. w.before j (omega arith)) ∙ h.content in
    let from_zero : 0 + n ≡ n = omega arith in
    finish-Holds a (bs ++ tail) ns band w.payload
      (rw (total, read-append a n (length tail) 0 ns, from_zero) (cc (kept, w.content)))
      (λ j l k. w.after j (omega arith) ∙ h.padding j (omega arith) k)
