-- ===== src/Packed/Priority.antt =====
-- The choice of an alphabet by `pack` in core/src/string.rs: which contents pack, and in which.
use perloxide.Prelude.{
  ℕ, suc, ◌≡◌, refl, sym, ap, ◌∙◌, ◌≢◌, ◌↔◌, ◌⊎◌, inl, inr, Bool, true, false, ◌&&◌, ◌||◌, not,
  Option, none, some, List, [], ◌∷◌, ◌==◌, if◌then◌else◌, length, all, arith, Bool-cases,
  Option-cases, some_inj,
}
use perloxide.Packed.Nibbles.{set_nibble, max_packed_len}
use perloxide.Packed.Alphabet.{
  PackedAlphabet, numeric, datetime_plus, datetime_zulu, invalid, encode, encodes,
}
use perloxide.Packed.Codec.{
  Packed, feasible, choose, pack_loop, pack_in, pack, empty_payload, with_length,
}
use perloxide.Packed.RoundTrip.{InBand}

-- Every byte has a symbol in the alphabet.
abbrev pub fits : PackedAlphabet → List ℕ → Bool
fits a bs = all (encodes a) bs

-- The first of the three that holds the whole content.
abbrev pub First : PackedAlphabet → List ℕ → Type 0
First numeric bs = fits numeric bs ≡ true
First datetime_plus bs = (fits numeric bs ≡ false) × (fits datetime_plus bs ≡ true)
First datetime_zulu bs =
    (fits numeric bs ≡ false) × (fits datetime_plus bs ≡ false) × (fits datetime_zulu bs ≡ true)

survivors : Bool → Bool → Bool → Option (Bool × Bool × Bool)
survivors n p z = if not n && not p && not z then none else some (n, p, z)

and_assoc : (a b c : Bool) → ((a && b) && c) ≡ (a && (b && c))
and_assoc true b c = refl
and_assoc false b c = refl

-- One round, whose rest is known where an alphabet is left.
feasible_round :
    (a b c n p z : Bool) (rest : Option (Bool × Bool × Bool))
    → ((a || b || c) ≡ true → rest ≡ survivors (a && n) (b && p) (c && z))
    → (if not a && not b && not c then none else rest) ≡ survivors (a && n) (b && p) (c && z)
unfolding survivors
feasible_round true b c n p z rest h = h refl
feasible_round false true c n p z rest h = h refl
feasible_round false false true n p z rest h = h refl
feasible_round false false false n p z rest h = refl

feasible-fits :
    (bs : List ℕ) (n p z : Bool)
    → (n || p || z) ≡ true
    → feasible bs n p z
      ≡ survivors (n && fits numeric bs) (p && fits datetime_plus bs) (z && fits datetime_zulu bs)
unfolding feasible
feasible-fits [] true p z h = unfold survivors in ground arith
feasible-fits [] false true z h = unfold survivors in ground arith
feasible-fits [] false false z h = unfold survivors in ground arith
feasible-fits (b ∷ bs) n p z h =
    rw
      (
        ← and_assoc n (encodes numeric b) (fits numeric bs),
        ← and_assoc p (encodes datetime_plus b) (fits datetime_plus bs),
        ← and_assoc z (encodes datetime_zulu b) (fits datetime_zulu bs),
      )
      (feasible_round _ _ _ (fits numeric bs) (fits datetime_plus bs) (fits datetime_zulu bs) _ (
        feasible-fits bs (n && encodes numeric b) (p && encodes datetime_plus b)
          (z && encodes datetime_zulu b)))

-- The loop of `pack_in` succeeds on a content that fits.
pub pack_loop-fits :
    (a : PackedAlphabet) (bs : List ℕ) (i : ℕ) (ns : List ℕ)
    → fits a bs ≡ true
    → pack_loop a bs i ns ≢ none
unfolding pack_loop encodes
pack_loop-fits a [] i ns h e = cc
pack_loop-fits a (b ∷ bs) i ns h e = elim (Bool-cases (encode a b == invalid)) [
  | inl bad ↦ ground arith
  | inr good ↦
      pack_loop-fits a bs (suc i) (set_nibble ns i (encode a b)) (ground arith)
        (rw (pack_loop, good) at e)
]

pub pack_in-fits :
    (a : PackedAlphabet) (bs : List ℕ)
    → fits a bs ≡ true
    → (p : Packed) × (pack_in bs a ≡ some p) × (p.alphabet ≡ a)
unfolding pack_in
pack_in-fits a bs h = elim (Option-cases (pack_loop a bs 0 empty_payload)) [
  | inl failed ↦ absurd (pack_loop-fits a bs 0 empty_payload h failed)
  | inr (ns, packed) ↦ (
    record {
      alphabet = a;
      full = length bs == max_packed_len;
      nibbles = with_length (length bs) ns;
    },
    rw (pack_in, packed) refl,
    refl,
  )
]

pub First-pack : (bs : List ℕ) (a : PackedAlphabet) → First a bs → pack bs ≡ pack_in bs a
unfolding pack choose survivors
First-pack bs numeric h = rw (pack, feasible-fits bs true true true refl, survivors, h) refl
First-pack bs datetime_plus h =
    rw (pack, feasible-fits bs true true true refl, survivors, h.0, h.1) refl
First-pack bs datetime_zulu h =
    rw (pack, feasible-fits bs true true true refl, survivors, h.0, h.1, h.2) refl

abbrev pub Unfit : List ℕ → Type 0
Unfit bs =
    (fits numeric bs ≡ false) × (fits datetime_plus bs ≡ false) × (fits datetime_zulu bs ≡ false)

pub First-cases : (bs : List ℕ) → ((a : PackedAlphabet) × First a bs) ⊎ Unfit bs
First-cases bs = elim (Bool-cases (fits numeric bs)) [
  | inl n ↦ inl (numeric, n)
  | inr n ↦ elim (Bool-cases (fits datetime_plus bs)) [
    | inl p ↦ inl (datetime_plus, (n, p))
    | inr p ↦ elim (Bool-cases (fits datetime_zulu bs)) [
      | inl z ↦ inl (datetime_zulu, (n, p, z))
      | inr z ↦ inr (n, p, z)
    ]
  ]
]

pub Unfit-pack : (bs : List ℕ) → Unfit bs → pack bs ≡ none
unfolding pack survivors
Unfit-pack bs h = rw (pack, feasible-fits bs true true true refl, survivors, h.0, h.1, h.2) refl

pub First-fits : (a : PackedAlphabet) (bs : List ℕ) → First a bs → fits a bs ≡ true
First-fits numeric bs h = h
First-fits datetime_plus bs h = h.1
First-fits datetime_zulu bs h = h.2

-- Sixteen to thirty bytes pack in an alphabet exactly when it is the first, in the order numeric,
-- datetime_plus, datetime_zulu, that has a symbol for every byte.
pub pack_exact :
    (bs : List ℕ) (a : PackedAlphabet)
    → InBand bs
    → ((p : Packed) × (pack bs ≡ some p) × (p.alphabet ≡ a)) ↔ First a bs
pack_exact bs a band = (
  λ (p, e, same). elim (First-cases bs) [
    | inr unfit ↦ cc (sym (Unfit-pack bs unfit) ∙ e)
    | inl (b, first) ↦
        let (q, f, other) = pack_in-fits b bs (First-fits b bs first) in
        let met = some_inj (sym f ∙ sym (First-pack bs b first) ∙ e) in
        let a_is : b ≡ a = sym other ∙ ap (λ (r : Packed). r.alphabet) met ∙ same in
        rw (← a_is) first
  ],
  λ first.
      let (q, f, other) = pack_in-fits a bs (First-fits a bs first) in
      (q, First-pack bs a first ∙ f, other),
)
