-- ===== src/Utf8/Bounds.antt =====
-- The bounds of a sequence that `decode_one` of core/src/string.rs accepts.
use perloxide.Prelude.{
  ℕ, zero, suc, ◌-◌, ◌≤◌, ◌<◌, ◌≡◌, refl, inl, inr, Option, none, some, List, [], ◌∷◌, arith, ltb,
  leb, length, take, drop, Bool-cases,
}
use perloxide.Utf8.Decode.{
  iv_max, min_for_len, lead_form, continue_value, accept, bind, decode_form, decode_slice,
  decode_one,
}

drop-cons {ℓ} :
    {A : Type ℓ} (xs : List A) (at : ℕ)
    → at < length xs
    → (x : A) × (rest : List A) × (drop at xs ≡ x ∷ rest) × (drop (suc at) xs ≡ rest)
drop-cons [] at h = elim h [ ]
drop-cons (x ∷ xs) zero h = (x, xs, refl, refl)
drop-cons (x ∷ xs) (suc at) h = drop-cons xs at (omega arith)

pub length-drop {ℓ} : {A : Type ℓ} (at : ℕ) (xs : List A) → length (drop at xs) ≡ length xs - at
length-drop zero xs = omega arith
length-drop (suc at) [] = omega arith
length-drop (suc at) (x ∷ xs) = omega (arith, length-drop at xs)

accept_bounds :
    (len value l v : ℕ)
    → accept len value ≡ some (l, v)
    → (l ≡ len) × (v ≡ value) × (min_for_len len ≤ v) × (v ≤ iv_max)
unfolding accept
accept_bounds len value l v h = ground arith

lead_lengths :
    (lead len init : ℕ)
    → lead_form lead ≡ some (len, init)
    → (2 ≤ len) × (0x80 ≤ min_for_len len) × (5 ≤ len → 0x20_0000 ≤ min_for_len len)
unfolding lead_form min_for_len
lead_lengths lead len init h = ground arith

bind_eq_some {ℓ κ} :
    {A : Type ℓ} {B : Type κ} (o : Option A) (f : A → Option B) (b : B)
    → bind o f ≡ some b
    → (a : A) × (o ≡ some a) × (f a ≡ some b)
bind_eq_some none f b h = cc
bind_eq_some (some a) f b h = (a, refl, h)

-- An accepted sequence lies inside the slice. One byte is ASCII and several never are; a form past
-- four bytes holds a value past Unicode, and every value fits perl's integers.
pub record IsSequence (room len value : ℕ) : Type 0 where
  pub positive : 1 ≤ len
  pub inside : len ≤ room
  pub single : len ≤ 1 → value ≤ 0x7F
  pub several : 2 ≤ len → 0x80 ≤ value
  pub long : 5 ≤ len → 0x20_0000 ≤ value
  pub bounded : value ≤ iv_max

decode_form-IsSequence :
    (lead len init l v : ℕ) (rest : List ℕ)
    → lead_form lead ≡ some (len, init)
    → decode_form lead rest (len, init) ≡ some (l, v)
    → IsSequence (length (lead ∷ rest)) l v
unfolding decode_form
decode_form-IsSequence lead len init l v rest e h =
    elim (Bool-cases (ltb (length (lead ∷ rest)) len)) [
      | inl short ↦ cc (rw short at h)
      | inr fits ↦
          let (value, _, accepted) =
            bind_eq_some (continue_value (take (len - 1) rest) init) (accept len) (l, v)
              (rw fits at h) in
          ground (arith, accept_bounds len value l v accepted, lead_lengths lead len init e)
    ]

decode_slice-IsSequence :
    (xs : List ℕ) (l v : ℕ) → decode_slice xs ≡ some (l, v) → IsSequence (length xs) l v
unfolding decode_slice
decode_slice-IsSequence [] l v h = cc
decode_slice-IsSequence (lead ∷ rest) l v h = elim (Bool-cases (leb lead 0x7F)) [
  | inl ascii ↦ ground arith
  | inr high ↦
      let ((len, init), e, h') =
        bind_eq_some (lead_form lead) (decode_form lead rest) (l, v) (rw high at h) in
      decode_form-IsSequence lead len init l v rest e h'
]

pub decode_one-IsSequence :
    (bytes : List ℕ) (at l v : ℕ)
    → decode_one bytes at ≡ some (l, v)
    → IsSequence (length bytes - at) l v
unfolding decode_one
decode_one-IsSequence bytes at l v h =
    rw (← length-drop at bytes) (decode_slice-IsSequence (drop at bytes) l v h)
