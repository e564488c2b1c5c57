-- ===== src/Packed/Unique.antt =====
-- The representation of a content by `Packed` in core/src/string.rs: nibbles, length and padding.
use Prim.Native.Nat.{bit_and, bit_or}
use native.Mathlib.Decide.{ℕ_discrete}
use perloxide.Prelude.{
  ℕ, zero, suc, ◌+◌, ◌*◌, ◌/◌, ◌≤◌, ◌<◌, ◌≡◌, refl, sym, ap, ◌∙◌, Bool, true, false, ◌&&◌, List, [],
  ◌∷◌, arith, ltb, ◌==◌, length, All, get_or, inl, inr, Bool-cases,
}
use perloxide.Prelude.Bits.{IsByte, all_below, below}
use perloxide.Packed.Nibbles.{nibble_at}
use perloxide.Packed.Alphabet.{PackedAlphabet, numeric, encode, decode, encodes}
use perloxide.Packed.Codec.{Packed, packed_len, read}
use perloxide.Packed.Payload.{IsPayload}
use perloxide.Packed.RoundTrip.{Holds}

abbrev nibble_ok : PackedAlphabet → ℕ → Bool
nibble_ok a n = (encode a (decode a n) == n) && encodes a (decode a n)

nibble_table : (a : PackedAlphabet) → all_below 16 (nibble_ok a) ≡ true
unfolding encode decode encodes
nibble_table numeric = refl
nibble_table _ = refl

-- Every nibble names a symbol, and the symbol takes that nibble.
pub nibble_facts :
    (a : PackedAlphabet) (n : ℕ)
    → n < 16
    → (encode a (decode a n) ≡ n) × (encodes a (decode a n) ≡ true)
nibble_facts a n h = ground (arith, below 16 (nibble_ok a) (nibble_table a) n h)

byte_table :
    all_below 256 (λ b. ltb (bit_and b 0x0F) 16 && (b / 16 * 16 + bit_and b 0x0F == b)) ≡ true
byte_table = refl

byte_halves : (b : ℕ) → IsByte b → (bit_and b 0x0F < 16) × (b / 16 * 16 + bit_and b 0x0F ≡ b)
byte_halves b h = ground (
  arith,
  below 256 (λ b. ltb (bit_and b 0x0F) 16 && (b / 16 * 16 + bit_and b 0x0F == b)) byte_table b h,
)

get_or-IsByte : (xs : List ℕ) (i : ℕ) → All IsByte xs → IsByte (get_or xs i 0)
get_or-IsByte [] i h = omega arith
get_or-IsByte (x ∷ xs) zero h = h.0
get_or-IsByte (x ∷ xs) (suc i) h = get_or-IsByte xs i h.1

pub nibble_at_lt : (ns : List ℕ) (i : ℕ) → IsPayload ns → nibble_at ns i < 16
unfolding nibble_at
nibble_at_lt ns i p =
    let byte = get_or-IsByte ns (i / 2) p.bytes in
    ground (arith, byte, byte_halves (get_or ns (i / 2) 0) byte)

-- Two payloads with the same nibbles are one.
list_ext :
    (xs ys : List ℕ)
    → length xs ≡ length ys
    → ((i : ℕ) → i < length xs → get_or xs i 0 ≡ get_or ys i 0)
    → xs ≡ ys
list_ext [] [] e h = refl
list_ext [] (y ∷ ys) e h = absurd (omega arith)
list_ext (x ∷ xs) [] e h = absurd (omega arith)
list_ext (x ∷ xs) (y ∷ ys) e h =
    cc (h 0 (omega arith), list_ext xs ys (omega arith) (λ i l. h (suc i) (omega arith)))

even_nibble : (ns : List ℕ) (i : ℕ) → nibble_at ns (2 * i) ≡ get_or ns i 0 / 16
unfolding nibble_at
even_nibble ns i = let half : 2 * i / 2 ≡ i = omega arith in rw half (ground arith)

odd_nibble : (ns : List ℕ) (i : ℕ) → nibble_at ns (2 * i + 1) ≡ bit_and (get_or ns i 0) 0x0F
unfolding nibble_at
odd_nibble ns i = let half : (2 * i + 1) / 2 ≡ i = omega arith in rw half (ground arith)

payload_ext :
    (ns ms : List ℕ)
    → IsPayload ns
    → IsPayload ms
    → ((j : ℕ) → j < 30 → nibble_at ns j ≡ nibble_at ms j)
    → ns ≡ ms
payload_ext ns ms p q h = list_ext ns ms (omega (arith, p.size, q.size)) (λ i l.
    let hi = sym (even_nibble ns i) ∙ h (2 * i) (omega (arith, p.size)) ∙ even_nibble ms i in
    let lo = sym (odd_nibble ns i) ∙ h (2 * i + 1) (omega (arith, p.size)) ∙ odd_nibble ms i in
    let left = (byte_halves (get_or ns i 0) (get_or-IsByte ns i p.bytes)).1 in
    let right = (byte_halves (get_or ms i 0) (get_or-IsByte ms i q.bytes)).1 in omega arith)

cons_inj {ℓ} : {A : Type ℓ} {x y : A} {xs ys : List A} → x ∷ xs ≡ y ∷ ys → (x ≡ y) × (xs ≡ ys)
cons_inj e = (cc, cc)

decode_inj : (a : PackedAlphabet) {n m : ℕ} → n < 16 → m < 16 → decode a n ≡ decode a m → n ≡ m
decode_inj a {n} {m} h k e = sym (nibble_facts a n h).0 ∙ ap (encode a) e ∙ (nibble_facts a m k).0

read_nibble :
    (a : PackedAlphabet) (count i : ℕ) (ns ms : List ℕ) (j : ℕ)
    → IsPayload ns
    → IsPayload ms
    → read a count i ns ≡ read a count i ms
    → i ≤ j
    → j < i + count
    → nibble_at ns j ≡ nibble_at ms j
unfolding read
read_nibble a zero i ns ms j p q e l m = absurd (omega arith)
read_nibble a (suc count) i ns ms j p q e l m =
    let (first, rest) = cons_inj e in
    elim (ℕ_discrete i j) [
      | yes here ↦ rw (← here) (decode_inj a (nibble_at_lt ns i p) (nibble_at_lt ms i q) first)
      | no later ↦ read_nibble a count (suc i) ns ms j p q rest (omega arith) (omega arith)
    ]

-- The stored length names the length.
length_nibble_inj : (n m : ℕ) → n < 16 → m < 16 → bit_or 16 n ≡ bit_or 16 m → n ≡ m
length_nibble_inj n m h k e = ground (arith, stored n h, stored m k)
  where
    stored : (n : ℕ) → n < 16 → bit_or 16 n ≡ 16 + n
    stored n h = ground (arith, below 16 (λ n. bit_or 16 n == 16 + n) refl n h)

last_nibble :
    (p q : Packed) (bs : List ℕ)
    → Holds p bs
    → Holds q bs
    → length bs < 30
    → nibble_at p.nibbles 29 ≡ nibble_at q.nibbles 29
unfolding packed_len
last_nibble p q bs h k short =
    let pf : p.full ≡ false = h.fullness ∙ ground arith in
    let qf : q.full ≡ false = k.fullness ∙ ground arith in
    let ps : bit_or 16 (nibble_at p.nibbles 29) ≡ length bs = rw (packed_len, pf) at h.size in
    let qs : bit_or 16 (nibble_at q.nibbles 29) ≡ length bs = rw (packed_len, qf) at k.size in
    length_nibble_inj _ _ (nibble_at_lt p.nibbles 29 h.payload)
      (nibble_at_lt q.nibbles 29 k.payload) (ps ∙ sym qs)

pub Holds-unique :
    (p q : Packed) (bs : List ℕ) → Holds p bs → Holds q bs → p.alphabet ≡ q.alphabet → p ≡ q
Holds-unique p q bs h k same =
    let nibbles : (j : ℕ) → j < 30 → nibble_at p.nibbles j ≡ nibble_at q.nibbles j = λ j l.
      elim (Bool-cases (ltb j (length bs))) [
        | inl content ↦
            read_nibble q.alphabet (length bs) 0 p.nibbles q.nibbles j h.payload k.payload
              ((rw same at h.content) ∙ sym k.content) (omega arith) (ground arith)
        | inr beyond ↦ elim (ℕ_discrete j 29) [
          | yes last ↦ rw last (last_nibble p q bs h k (ground arith))
          | no inside ↦
              h.padding j (ground arith) (omega arith)
              ∙ sym (k.padding j (ground arith) (omega arith))
        ]
      ] in
    cc (
      same,
      h.fullness ∙ sym k.fullness,
      payload_ext p.nibbles q.nibbles h.payload k.payload nibbles,
    )
