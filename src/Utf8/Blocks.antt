-- ===== src/Utf8/Blocks.antt =====
-- The high-bit gate of the blocked pass in core/src/string.rs, on blocks of ASCII.
use native.Mathlib.Numerals.{add-one}
use mathlib.Core.List.{append-nil, append_assoc}
use perloxide.Prelude.{
  ℕ, zero, suc, ◌+◌, ◌≤◌, ◌<◌, ◌≡◌, refl, Bool, false, ◌||◌, some, List, [], ◌∷◌, ◌++◌, arith, ltb,
  length, take, drop, length-append, All, any,
}
use perloxide.Prelude.Bits.{IsByte, fold_or_keeps, fold_or-IsByte, top_bit_clear}
use perloxide.Utf8.Decode.{decode_one, decode_slice}
use perloxide.Utf8.Walk.{block_end, block_high}
use perloxide.Utf8.Spec.{Decodes, next, facts_of, is_rust_rejected}

-- A block is not empty and stays inside the content.
pub block_end_bounds :
    (pos len : ℕ) → pos < len → (pos < block_end pos len) × (block_end pos len ≤ len)
unfolding block_end
block_end_bounds pos len h = omega arith

pub All-take : (n : ℕ) (bs : List ℕ) → All IsByte bs → All IsByte (take n bs)
All-take zero bs h = tt
All-take (suc n) [] h = tt
All-take (suc n) (b ∷ bs) h = (h.0, All-take n bs h.1)

pub All-drop : (n : ℕ) (bs : List ℕ) → All IsByte bs → All IsByte (drop n bs)
All-drop zero bs h = h
All-drop (suc n) [] h = tt
All-drop (suc n) (b ∷ bs) h = All-drop n bs h.1

pub gate_ascii : (bs : List ℕ) → All IsByte bs → block_high bs ≡ false → All (λ b. b < 128) bs
unfolding block_high
gate_ascii bs h e =
    (fold_or_keeps bs 0 128
      (top_bit_clear _ (fold_or-IsByte bs 0 h (omega arith)) (ground arith))).0

decode_ascii :
    (bytes : List ℕ) (at b : ℕ) (rest : List ℕ)
    → drop at bytes ≡ b ∷ rest
    → b < 128
    → decode_one bytes at ≡ some (1, b)
unfolding decode_one decode_slice
decode_ascii bytes at b rest e h = rw e (ground arith)

-- What a suffix that is known to begin with `x` says of the index.
drop_inside {ℓ} :
    {A : Type ℓ} (xs : List A) (at : ℕ) {x : A} {rest : List A}
    → drop at xs ≡ x ∷ rest
    → (at < length xs) × (drop (suc at) xs ≡ rest)
drop_inside [] zero e = cc
drop_inside [] (suc at) e = cc
drop_inside (y ∷ xs) zero e = (omega arith, cc)
drop_inside (y ∷ xs) (suc at) e = let (h, r) = drop_inside xs at e in (omega arith, r)

pub ascii_run :
    (block rest : List ℕ) {bytes cs : List ℕ} {at : ℕ}
    → Decodes bytes cs at
    → drop at bytes ≡ block ++ rest
    → All (λ b. b < 128) block
    → Decodes bytes (cs ++ block) (at + length block)
ascii_run [] rest {bytes} {cs} {at} d e low =
    rw append-nil (let same_end : at + 0 ≡ at = omega arith in rw same_end d)
ascii_run (b ∷ block) rest {bytes} {cs} {at} d e low =
    let (inside, after) = drop_inside bytes at e in
    let step = next d inside (decode_ascii bytes at b (block ++ rest) e low.0) in
    let run = ascii_run block rest step (rw add-one after) low.1 in
    let ends : at + 1 + length block ≡ at + suc (length block) = omega arith in
    rw (append_assoc cs (b ∷ []) block, ends) at run

any-append : (p : ℕ → Bool) (cs ds : List ℕ) → any p (cs ++ ds) ≡ (any p cs || any p ds)
any-append p [] ds = refl
any-append p (c ∷ cs) ds = ground (arith, any-append p cs ds)

none_of :
    (p : ℕ → Bool)
    → ((b : ℕ) → b < 128 → p b ≡ false)
    → (block : List ℕ) → All (λ b. b < 128) block
    → any p block ≡ false
none_of p small [] h = refl
none_of p small (b ∷ block) h = ground (arith, small b h.0, none_of p small block h.1)

any_unmoved :
    (p : ℕ → Bool)
    → ((b : ℕ) → b < 128 → p b ≡ false)
    → (cs block : List ℕ) → All (λ b. b < 128) block
    → any p (cs ++ block) ≡ any p cs
any_unmoved p small cs block h = ground (arith, any-append p cs block, none_of p small block h)

pub ascii_facts :
    (cs block : List ℕ)
    → All (λ b. b < 128) block
    → record (facts_of cs) { chars = length cs + length block } ≡ facts_of (cs ++ block)
unfolding facts_of
ascii_facts cs block h = ground (
  arith,
  any_unmoved (ltb 0x7F) (λ b l. ground arith) cs block h,
  any_unmoved (ltb 0xFF) (λ b l. ground arith) cs block h,
  any_unmoved is_rust_rejected (λ b l. ground arith) cs block h,
  length-append cs block,
)
