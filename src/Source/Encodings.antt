-- ===== src/Source/Encodings.antt =====
-- UTF-16 sources of parser/src/source.rs, against an encoder of code points.
use mathlib.Core.List.{append-nil}
use perloxide.Prelude.{
  ℕ, suc, ◌+◌, ◌-◌, ◌*◌, ◌/◌, ◌%◌, ◌≤◌, ◌<◌, ◌≡◌, ◌⊎◌, refl, sym, ap, ◌∙◌, Bool, true, false, ◌&&◌,
  ◌||◌, List, [], ◌∷◌, ◌++◌, ltb, leb, ◌==◌, if◌then◌else◌, length, get_or, drop, All, Bool-cases,
  inl, inr, arith,
}
use perloxide.Source.Utf16.{
  unit_of, is_high_surrogate, is_low_surrogate, encode_utf8, push_char, single_unit,
  transcode_utf16, detect_nulls, detect_and_transcode,
}

-- A Unicode scalar value.
abbrev pub IsScalar : ℕ → Type 0
IsScalar c = (c < 0xD800) ⊎ ((0xE000 ≤ c) × (c < 0x110000))

-- The two bytes of a unit.
pub unit_bytes : Bool → ℕ → List ℕ → List ℕ
unit_bytes le u rest = if le then (u % 256) ∷ (u / 256) ∷ rest else (u / 256) ∷ (u % 256) ∷ rest

-- UTF-16, and UTF-8, of code points.
pub utf16 : Bool → List ℕ → List ℕ
utf16 le [] = []
utf16 le (c ∷ cs) =
    let rest = utf16 le cs in
    if ltb c 0x10000
    then unit_bytes le c rest
    else unit_bytes le (0xD800 + (c - 0x10000) / 1024)
        (unit_bytes le (0xDC00 + (c - 0x10000) % 1024) rest)

pub utf8 : List ℕ → List ℕ
utf8 [] = []
utf8 (c ∷ cs) = encode_utf8 c ++ utf8 cs

unit_lem :
    (u : ℕ)
    → u < 65536
    → (unit_of true (u % 256) (u / 256) ≡ u) × (unit_of false (u / 256) (u % 256) ≡ u)
unfolding unit_of
unit_lem u h = (omega arith, omega arith)

scalar_test : (c : ℕ) → IsScalar c → (ltb c 0xD800 || leb 0xE000 c && ltb c 0x110000) ≡ true
scalar_test c (inl h) = ground arith
scalar_test c (inr h) = ground arith

push_scalar : (c : ℕ) → IsScalar c → push_char c ≡ encode_utf8 c
unfolding push_char
push_scalar c h = ap (λ p. if p then encode_utf8 c else []) (scalar_test c h)

no_surrogate :
    (u : ℕ)
    → IsScalar u
    → (is_high_surrogate u ≡ false) × ((is_high_surrogate u || is_low_surrogate u) ≡ false)
unfolding is_high_surrogate is_low_surrogate
no_surrogate u (inl h) = (ground arith, ground arith)
no_surrogate u (inr h) = (ground arith, ground arith)

single_scalar : (u : ℕ) → IsScalar u → single_unit u ≡ encode_utf8 u
unfolding single_unit
single_scalar u h =
    ap (λ p. push_char (if p then 0xFFFD else u)) (no_surrogate u h).1 ∙ push_scalar u h

-- A unit that is no high surrogate stands for itself.
transcode_unit :
    (le : Bool) (a b : ℕ) (rest : List ℕ)
    → is_high_surrogate (unit_of le a b) ≡ false
    → transcode_utf16 le (a ∷ b ∷ rest) ≡ single_unit (unit_of le a b) ++ transcode_utf16 le rest
unfolding transcode_utf16
transcode_unit le a b [] h = sym (append-nil (single_unit (unit_of le a b)))
transcode_unit le a b (c ∷ []) h = sym (append-nil (single_unit (unit_of le a b)))
transcode_unit le a b (c ∷ d ∷ rest) h =
    ap
      (λ p.
        if p && is_low_surrogate (unit_of le c d)
        then push_char (0x10000 + (unit_of le a b - 0xD800) * 1024 + (unit_of le c d - 0xDC00))
          ++ transcode_utf16 le rest
        else single_unit (unit_of le a b) ++ transcode_utf16 le (c ∷ d ∷ rest))
      h

transcode_pair :
    (le : Bool) (a b c d : ℕ) (rest : List ℕ)
    → (is_high_surrogate (unit_of le a b) && is_low_surrogate (unit_of le c d)) ≡ true
    → transcode_utf16 le (a ∷ b ∷ c ∷ d ∷ rest)
      ≡ push_char (0x10000 + (unit_of le a b - 0xD800) * 1024 + (unit_of le c d - 0xDC00))
        ++ transcode_utf16 le rest
unfolding transcode_utf16
transcode_pair le a b c d rest h =
    ap
      (λ p.
        if p
        then push_char (0x10000 + (unit_of le a b - 0xD800) * 1024 + (unit_of le c d - 0xDC00))
          ++ transcode_utf16 le rest
        else single_unit (unit_of le a b) ++ transcode_utf16 le (c ∷ d ∷ rest))
      h

-- A unit below the surrogates or above them.
transcode_plain :
    (le : Bool) (u : ℕ) (rest : List ℕ)
    → IsScalar u
    → u < 65536
    → transcode_utf16 le (unit_bytes le u rest) ≡ encode_utf8 u ++ transcode_utf16 le rest
unfolding unit_bytes
transcode_plain true u rest s h =
    let e = (unit_lem u h).0 in
    transcode_unit true (u % 256) (u / 256) rest (ap is_high_surrogate e ∙ (no_surrogate u s).0)
    ∙ ap (λ t. t ++ transcode_utf16 true rest) (ap single_unit e ∙ single_scalar u s)
transcode_plain false u rest s h =
    let e = (unit_lem u h).1 in
    transcode_unit false (u / 256) (u % 256) rest (ap is_high_surrogate e ∙ (no_surrogate u s).0)
    ∙ ap (λ t. t ++ transcode_utf16 false rest) (ap single_unit e ∙ single_scalar u s)

surrogates :
    (v : ℕ)
    → v < 0x100000
    → (is_high_surrogate (0xD800 + v / 1024) && is_low_surrogate (0xDC00 + v % 1024)) ≡ true
unfolding is_high_surrogate is_low_surrogate
surrogates v h = ground arith

joined :
    (x y v : ℕ)
    → x ≡ 0xD800 + v / 1024
    → y ≡ 0xDC00 + v % 1024
    → 0x10000 + (x - 0xD800) * 1024 + (y - 0xDC00) ≡ 0x10000 + v
joined x y v ex ey = omega arith

transcode_long :
    (le : Bool) (v : ℕ) (rest : List ℕ)
    → v < 0x100000
    → transcode_utf16 le
        (unit_bytes le (0xD800 + v / 1024) (unit_bytes le (0xDC00 + v % 1024) rest))
      ≡ encode_utf8 (0x10000 + v) ++ transcode_utf16 le rest
unfolding unit_bytes
transcode_long true v rest h =
    let hi = 0xD800 + v / 1024 in
    let lo = 0xDC00 + v % 1024 in
    let eh = (unit_lem hi (omega arith)).0 in
    let el = (unit_lem lo (omega arith)).0 in
    transcode_pair true (hi % 256) (hi / 256) (lo % 256) (lo / 256) rest (
      ap (λ x. is_high_surrogate x && is_low_surrogate (unit_of true (lo % 256) (lo / 256))) eh
      ∙ ap (λ y. is_high_surrogate hi && is_low_surrogate y) el
      ∙ surrogates v h)
    ∙ ap (λ t. t ++ transcode_utf16 true rest)
        (ap push_char (joined _ _ v eh el) ∙ push_scalar (0x10000 + v) (inr (omega arith)))
transcode_long false v rest h =
    let hi = 0xD800 + v / 1024 in
    let lo = 0xDC00 + v % 1024 in
    let eh = (unit_lem hi (omega arith)).1 in
    let el = (unit_lem lo (omega arith)).1 in
    transcode_pair false (hi / 256) (hi % 256) (lo / 256) (lo % 256) rest (
      ap (λ x. is_high_surrogate x && is_low_surrogate (unit_of false (lo / 256) (lo % 256))) eh
      ∙ ap (λ y. is_high_surrogate hi && is_low_surrogate y) el
      ∙ surrogates v h)
    ∙ ap (λ t. t ++ transcode_utf16 false rest)
        (ap push_char (joined _ _ v eh el) ∙ push_scalar (0x10000 + v) (inr (omega arith)))

scalar_bound : (c : ℕ) → IsScalar c → c < 0x110000
scalar_bound c (inl h) = omega arith
scalar_bound c (inr h) = h.1

transcode-utf16 :
    (le : Bool) (cs : List ℕ) → All IsScalar cs → transcode_utf16 le (utf16 le cs) ≡ utf8 cs
unfolding utf16 utf8
transcode-utf16 le [] h = unfold transcode_utf16 in refl
transcode-utf16 le (c ∷ cs) h = elim (Bool-cases (ltb c 0x10000)) [
  | inl e ↦ rw e (
      transcode_plain le c (utf16 le cs) h.0 (ground arith)
      ∙ ap (λ t. encode_utf8 c ++ t) (transcode-utf16 le cs h.1))
  | inr e ↦
      let bound : c < 0x110000 = scalar_bound c h.0 in
      let whole : 0x10000 + (c - 0x10000) ≡ c = ground arith in
      rw e (
        transcode_long le (c - 0x10000) (utf16 le cs) (omega arith)
        ∙ ap (λ t. encode_utf8 t ++ transcode_utf16 le (utf16 le cs)) whole
        ∙ ap (λ t. encode_utf8 c ++ t) (transcode-utf16 le cs h.1))
]

-- Marks are told by the first tests that pass.
mark_arms :
    {A : Type 0} (p q r : Bool) (a b c d : A)
    → p ≡ false
    → ((q ≡ true) → (if p then a else if q then b else if r then c else d) ≡ b)
      × ((q ≡ false) → (r ≡ true) → (if p then a else if q then b else if r then c else d) ≡ c)
mark_arms p q r a b c d h = (λ k. rw (h, k) refl, λ k l. rw (h, k, l) refl)

no_utf8_mark :
    (n x : ℕ) (b c : Bool) → (x == 0xEF) ≡ false → (leb 3 n && x == 0xEF && b && c) ≡ false
no_utf8_mark n x b c h = ground arith

two_bytes : (n : ℕ) → leb 2 (suc (suc n)) ≡ true
two_bytes n = ground arith

abbrev third : List ℕ → ℕ
third rest = get_or rest 0 0

module _ (rest : List ℕ) where
  detect_little : detect_and_transcode (0xFF ∷ 0xFE ∷ rest) ≡ (transcode_utf16 true rest, true)
  unfolding detect_and_transcode
  detect_little =
      (mark_arms
          (leb 3 (suc (suc (length rest))) && 0xFF == 0xEF && 0xFE == 0xBB && third rest == 0xBF)
          (leb 2 (suc (suc (length rest))) && 0xFF == 0xFF && 0xFE == 0xFE)
          (leb 2 (suc (suc (length rest))) && 0xFF == 0xFE && 0xFE == 0xFF) (drop 1 rest, true)
          (transcode_utf16 true rest, true) (transcode_utf16 false rest, true)
          (detect_nulls (0xFF ∷ 0xFE ∷ rest))
          (no_utf8_mark (suc (suc (length rest))) 0xFF (0xFE == 0xBB) (third rest == 0xBF) refl)).0
        (ap (λ t. t && true && true) (two_bytes (length rest)))

  detect_big : detect_and_transcode (0xFE ∷ 0xFF ∷ rest) ≡ (transcode_utf16 false rest, true)
  unfolding detect_and_transcode
  detect_big =
      (mark_arms
          (leb 3 (suc (suc (length rest))) && 0xFE == 0xEF && 0xFF == 0xBB && third rest == 0xBF)
          (leb 2 (suc (suc (length rest))) && 0xFE == 0xFF && 0xFF == 0xFE)
          (leb 2 (suc (suc (length rest))) && 0xFE == 0xFE && 0xFF == 0xFF) (drop 1 rest, true)
          (transcode_utf16 true rest, true) (transcode_utf16 false rest, true)
          (detect_nulls (0xFE ∷ 0xFF ∷ rest))
          (no_utf8_mark (suc (suc (length rest))) 0xFE (0xFF == 0xBB) (third rest == 0xBF) refl)).1
        (ap (λ t. t && false && false) (two_bytes (length rest)))
        (ap (λ t. t && true && true) (two_bytes (length rest)))

detect_utf8 : (rest : List ℕ) → detect_and_transcode (0xEF ∷ 0xBB ∷ 0xBF ∷ rest) ≡ (rest, true)
unfolding detect_and_transcode
detect_utf8 rest = ground arith

-- A byte-order mark and the UTF-16 of any code points, of either byte order, are read as the UTF-8 of
-- those code points; after the UTF-8 mark the source is left as it is.
pub detect-mark :
    (cs bytes : List ℕ)
    → All IsScalar cs
    → (detect_and_transcode (0xFF ∷ 0xFE ∷ utf16 true cs) ≡ (utf8 cs, true))
      × (detect_and_transcode (0xFE ∷ 0xFF ∷ utf16 false cs) ≡ (utf8 cs, true))
      × (detect_and_transcode (0xEF ∷ 0xBB ∷ 0xBF ∷ bytes) ≡ (bytes, true))
detect-mark cs bytes h = (
  detect_little (utf16 true cs) ∙ ap (λ t. (t, true)) (transcode-utf16 true cs h),
  detect_big (utf16 false cs) ∙ ap (λ t. (t, true)) (transcode-utf16 false cs h),
  detect_utf8 bytes,
)
