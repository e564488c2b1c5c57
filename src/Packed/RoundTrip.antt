-- ===== src/Packed/RoundTrip.antt =====
-- `unpack` of core/src/string.rs against `pack`.
use Prim.Native.Nat.{bit_and, bit_or}
use perloxide.Prelude.{
  ℕ, zero, suc, ◌+◌, ◌-◌, ◌≤◌, ◌<◌, ◌≡◌, refl, ◌∙◌, Bool, true, false, ◌&&◌, ◌||◌, some, List, [],
  ◌∷◌, arith, ltb, ◌==◌, length, All, get_or, replicate, ◌/◌, inl, inr, Bool-cases, Option-cases,
  some_inj,
}
use perloxide.Prelude.Bits.{IsByte, all_below, below}
use perloxide.Packed.Nibbles.{nibble_at, set_nibble}
use perloxide.Packed.Alphabet.{PackedAlphabet, numeric, invalid, encode, decode}
use perloxide.Packed.Codec.{
  Packed, pack_loop, with_length, empty_payload, pack_in, pack, feasible, choose, packed_len,
  zero_nibbles, padding_is_canonical, read, unpack,
}
use perloxide.Packed.Payload.{IsPayload, set_nibble-IsPayload, nibble_at-set_nibble}

abbrev code_ok : PackedAlphabet → ℕ → Bool
code_ok a b = (encode a b == invalid) || (ltb (encode a b) 16 && (decode a (encode a b) == b))

code_table : (a : PackedAlphabet) → all_below 256 (code_ok a) ≡ true
unfolding encode decode
code_table numeric = refl
code_table _ = refl

-- A byte that has a symbol takes one nibble, which names it.
code_facts :
    (a : PackedAlphabet) (b : ℕ)
    → IsByte b
    → (encode a b == invalid) ≡ false
    → (encode a b < 16) × (decode a (encode a b) ≡ b)
code_facts a b h e = ground (arith, below 256 (code_ok a) (code_table a) b h)

-- The nibbles from `i` on now hold `bs`; the others are as they were.
pub record Written (a : PackedAlphabet) (bs : List ℕ) (i : ℕ) (ns ns' : List ℕ) : Type 0 where
  pub payload : IsPayload ns'
  pub content : read a (length bs) i ns' ≡ bs
  pub before : (j : ℕ) → j < i → nibble_at ns' j ≡ nibble_at ns j
  pub after : (j : ℕ) → i + length bs ≤ j → nibble_at ns' j ≡ nibble_at ns j

pub pack_loop-Written :
    (a : PackedAlphabet) (bs : List ℕ) (i : ℕ) (ns ns' : List ℕ)
    → IsPayload ns
    → i + length bs ≤ 30
    → All IsByte bs
    → pack_loop a bs i ns ≡ some ns'
    → Written a bs i ns ns'
unfolding pack_loop read
pack_loop-Written a [] i ns ns' p fits bytes e =
    let same : ns ≡ ns' = some_inj e in
    rw (← same) (record { payload = p; content = refl; before = λ j h. refl; after = λ j h. refl })
pack_loop-Written a (b ∷ bs) i ns ns' p fits bytes e = elim (Bool-cases (encode a b == invalid)) [
  | inl bad ↦ cc (rw bad at e)
  | inr good ↦
      let (small, names) = code_facts a b bytes.0 good in
      let here = λ (j : ℕ). nibble_at-set_nibble ns i j (encode a b) p (omega arith) small in
      let w =
        pack_loop-Written a bs (suc i) (set_nibble ns i (encode a b)) ns'
          (set_nibble-IsPayload i (encode a b) p small) (omega arith) bytes.1 (rw good at e) in
      record {
        payload = w.payload;
        content = rw (w.before i (omega arith), here i, w.content) (ground (arith, names));
        before = λ j h. w.before j (omega arith) ∙ here j ∙ ground arith;
        after = λ j h. w.after j (omega arith) ∙ here j ∙ ground arith;
      }
]

pub read_same :
    (a : PackedAlphabet) (count i : ℕ) (ns ms : List ℕ)
    → ((j : ℕ) → j < i + count → nibble_at ns j ≡ nibble_at ms j)
    → read a count i ns ≡ read a count i ms
unfolding read
read_same a zero i ns ms h = refl
read_same a (suc count) i ns ms h =
    cc (h i (omega arith), read_same a count (suc i) ns ms (λ j l. h j (omega arith)))

zero_same :
    (count i : ℕ) (ns : List ℕ)
    → ((j : ℕ) → i ≤ j → j < i + count → nibble_at ns j ≡ 0)
    → zero_nibbles count i ns ≡ true
unfolding zero_nibbles
zero_same zero i ns h = refl
zero_same (suc count) i ns h = ground (
  arith,
  h i (omega arith) (omega arith),
  zero_same count (suc i) ns (λ j l m. h j (omega arith) (omega arith)),
)

get_or-zeros : (n k : ℕ) → get_or {A = ℕ} (replicate n 0) k 0 ≡ 0
get_or-zeros zero k = refl
get_or-zeros (suc n) zero = refl
get_or-zeros (suc n) (suc k) = get_or-zeros n k

nibble_at-empty : (j : ℕ) → nibble_at empty_payload j ≡ 0
unfolding nibble_at
nibble_at-empty j = rw (get_or-zeros 15 (j / 2)) (ground arith)

empty-IsPayload : IsPayload empty_payload
empty-IsPayload = omega arith

-- The bounds within which the string tiers pack.
abbrev pub InBand : List ℕ → Type 0
InBand bs = (16 ≤ length bs) × (length bs ≤ 30) × All IsByte bs

length_code : (n : ℕ) → 16 ≤ n → n < 30 → (bit_and n 0x0F < 16) × (bit_or 16 (bit_and n 0x0F) ≡ n)
length_code n h k = ground (
  arith,
  below 30 (λ n. ltb n 16 || (ltb (bit_and n 0x0F) 16 && (bit_or 16 (bit_and n 0x0F) == n))) refl n
      k,
)

-- What a packed string is, for the content that it was made of.
pub record Holds (p : Packed) (bs : List ℕ) : Type 0 where
  pub payload : IsPayload p.nibbles
  pub size : packed_len p ≡ length bs
  pub content : read p.alphabet (length bs) 0 p.nibbles ≡ bs
  pub fullness : p.full ≡ (length bs == 30)
  pub padding : (j : ℕ) → length bs ≤ j → j < 29 → nibble_at p.nibbles j ≡ 0

-- The last step of packing: the length goes beside the content.
pub finish-Holds :
    (a : PackedAlphabet) (bs ns : List ℕ)
    → InBand bs
    → IsPayload ns
    → read a (length bs) 0 ns ≡ bs
    → ((j : ℕ) → length bs ≤ j → j < 29 → nibble_at ns j ≡ 0)
    → Holds
        (record { alphabet = a; full = length bs == 30; nibbles = with_length (length bs) ns })
        bs
unfolding with_length packed_len
finish-Holds a bs ns (lo, hi, bytes) p content zeros = elim (Bool-cases (length bs == 30)) [
  | inl full ↦ rw full (record {
    payload = p;
    size = ground arith;
    content = content;
    fullness = ground arith;
    padding = zeros;
  })
  | inr short ↦
      let n = length bs in
      let (small, code) = length_code n lo (ground arith) in
      let written =
        λ (j : ℕ). nibble_at-set_nibble ns 29 j (bit_and n 0x0F) p (omega arith) small in
      rw short (record {
        payload = set_nibble-IsPayload 29 (bit_and n 0x0F) p small;
        size = ground (arith, written 29, code);
        content =
            read_same a n 0 (set_nibble ns 29 (bit_and n 0x0F)) ns (λ j h. written j ∙ ground arith)
            ∙ content;
        fullness = ground arith;
        padding = λ j h k. written j ∙ ground (arith, zeros j h k);
      })
]

pub pack_in-Holds :
    (bs : List ℕ) (a : PackedAlphabet) (p : Packed)
    → InBand bs
    → pack_in bs a ≡ some p
    → Holds p bs × (p.alphabet ≡ a)
unfolding pack_in
pack_in-Holds bs a p band e = elim (Option-cases (pack_loop a bs 0 empty_payload)) [
  | inl failed ↦ cc (rw (pack_in, failed) at e)
  | inr (ns, packed) ↦
      let w =
        pack_loop-Written a bs 0 empty_payload ns empty-IsPayload (omega (arith, band.1)) band.2
          packed in
      let same = some_inj (rw (pack_in, packed) at e) in
      rw (← same) (
        finish-Holds a bs ns band w.payload w.content
            (λ j h k. w.after j (omega arith) ∙ nibble_at-empty j),
        refl,
      )
]

Holds-unpack :
    (p : Packed) (bs : List ℕ) → Holds p bs → (unpack p ≡ bs) × (padding_is_canonical p ≡ true)
unfolding unpack padding_is_canonical
Holds-unpack p bs h = (
  rw h.size h.content,
  elim (Bool-cases p.full) [
    | inl full ↦ rw full
    | inr short ↦
        rw (h.size, short)
          (zero_same (29 - length bs) (length bs) p.nibbles (λ j l m. h.padding j l (omega arith)))
  ],
)

-- Packing sixteen to thirty bytes is an encoding: what it yields unpacks to the same bytes, has
-- their length, and has zero padding.
pub unpack-pack :
    (bs : List ℕ) (p : Packed)
    → InBand bs
    → pack bs ≡ some p
    → (unpack p ≡ bs) × (packed_len p ≡ length bs) × (padding_is_canonical p ≡ true)
unfolding pack
unpack-pack bs p band e = elim (Option-cases (feasible bs true true true)) [
  | inl none_left ↦ cc (rw (pack, none_left) at e)
  | inr (flags, found) ↦
      let (h, _) = pack_in-Holds bs (choose flags) p band (rw (pack, found) at e) in
      let (same, padded) = Holds-unpack p bs h in (same, h.size, padded)
]
