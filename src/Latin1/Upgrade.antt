-- ===== src/Latin1/Upgrade.antt =====
-- The upgrade of core/src/cow_buffer.rs against the encoding taken byte by byte.
use mathlib.Core.List.{append-nil, append_assoc}
use perloxide.Prelude.{
  ℕ, zero, suc, ◌+◌, ◌^◌, ◌≤◌, ◌<◌, ◌≡◌, refl, sym, ap, ◌∙◌, Bool, true, false, Option, none, some,
  List, [], ◌∷◌, ◌++◌, ltb, leb, ◌==◌, if◌then◌else◌, length, take, drop, All, inl, inr, Bool-cases,
  arith,
}
use perloxide.Prelude.Bits.{IsByte}
use perloxide.Latin1.Words.{count_high, variant_count, position_high, first_variant}
use perloxide.Latin1.Counts.{drop-IsByte, length-drop, variant_count_exact, first_variant_exact}
use perloxide.Latin1.Transform.{
  lead_of, trail_of, Sunk, went, filled, refused, ◌>>=◌, flush, stage, widen_loop, widen_latin1,
  extend, or_length, upgraded_bytes, Never,
}

-- The encoding of content, byte by byte.
unfoldable pub upgrade : List ℕ → List ℕ
upgrade [] = []
upgrade (b ∷ bs) = if leb 0x80 b then lead_of b ∷ trail_of b ∷ upgrade bs else b ∷ upgrade bs

pub length-upgrade : (bytes : List ℕ) → length (upgrade bytes) ≡ length bytes + count_high bytes
unfolding upgrade count_high
length-upgrade [] = refl
length-upgrade (b ∷ bs) = ground (arith, length-upgrade bs)

-- The maximal run without a high byte.
abbrev pub run_of : List ℕ → ℕ
run_of bytes = or_length (position_high bytes) bytes

or_length-suc :
    (o : Option ℕ) (b : ℕ) (bs : List ℕ)
    → or_length (elim o [ none ↦ none | some k ↦ some (suc k) ]) (b ∷ bs) ≡ suc (or_length o bs)
or_length-suc none b bs = refl
or_length-suc (some k) b bs = refl

pub run_of-zero : (b : ℕ) (bs : List ℕ) → leb 0x80 b ≡ true → run_of (b ∷ bs) ≡ 0
unfolding position_high
run_of-zero b bs high = rw (high, position_high) refl

pub run_of-suc : (b : ℕ) (bs : List ℕ) → leb 0x80 b ≡ false → run_of (b ∷ bs) ≡ suc (run_of bs)
unfolding position_high
run_of-suc b bs low = rw (low, position_high) (or_length-suc (position_high bs) b bs)

pub upgrade-run :
    (bytes : List ℕ)
    → upgrade bytes ≡ take (run_of bytes) bytes ++ upgrade (drop (run_of bytes) bytes)
unfolding upgrade
upgrade-run [] = unfold position_high in refl
upgrade-run (b ∷ bs) = elim (Bool-cases (leb 0x80 b)) [
  | inl high ↦ sym (ap (λ r. take r (b ∷ bs) ++ upgrade (drop r (b ∷ bs))) (run_of-zero b bs high))
  | inr low ↦
      let plain : upgrade (b ∷ bs) ≡ b ∷ upgrade bs = rw (low, upgrade) refl in
      plain
      ∙ ap (λ xs. b ∷ xs) (upgrade-run bs)
      ∙ sym (ap (λ r. take r (b ∷ bs) ++ upgrade (drop r (b ∷ bs))) (run_of-suc b bs low))
]

abbrev high_first : List ℕ → ℕ
high_first [] = 0
high_first (b ∷ bs) = if leb 0x80 b then 1 else 0

-- What the staging loop leaves, with a sink that appends: the content that it took is encoded, and
-- a high byte in front is taken.
record IsStaged (out staged bytes : List ℕ) : Type 0 where
  got : List ℕ
  rest : List ℕ
  lands : stage extend out staged bytes ≡ went (got, rest)
  keeps : got ++ upgrade rest ≡ out ++ (staged ++ upgrade bytes)
  shrinks : length rest + high_first bytes ≤ length bytes

flush-lands : (out staged rest : List ℕ) → flush extend out staged rest ≡ went (out ++ staged, rest)
unfolding flush
flush-lands out [] rest = ap (λ xs. went (xs, rest)) (sym (append-nil out))
flush-lands out (x ∷ staged) rest =
    let pos : ltb 0 (suc (length staged)) ≡ true = ground arith in rw (pos, flush) refl

stage-IsStaged : (out staged bytes : List ℕ) → IsStaged out staged bytes
unfolding stage upgrade
stage-IsStaged out staged [] = record {
  got = out ++ staged;
  rest = [];
  lands = flush-lands out staged [];
  keeps = append_assoc out staged [];
  shrinks = ground arith;
}
stage-IsStaged out staged (b ∷ bs) = elim (Bool-cases (leb 0x80 b)) [
  | inr low ↦ record {
    got = out ++ staged;
    rest = b ∷ bs;
    lands = rw (low, stage) (flush-lands out staged (b ∷ bs));
    keeps = append_assoc out staged (upgrade (b ∷ bs));
    shrinks = ground arith;
  }
  | inl high ↦
      let pair = lead_of b ∷ trail_of b ∷ [] in
      let split : upgrade (b ∷ bs) ≡ pair ++ upgrade bs = rw (high, upgrade) refl in
      elim (Bool-cases (length staged == 64)) [
        | inl full ↦
            let ih = stage-IsStaged (out ++ staged) pair bs in
            record {
              got = ih.got;
              rest = ih.rest;
              lands = rw (high, full, stage) ih.lands;
              keeps =
                  ih.keeps
                  ∙ append_assoc out staged (pair ++ upgrade bs)
                  ∙ ap (λ xs. out ++ (staged ++ xs)) (sym split);
              shrinks = ground (arith, ih.shrinks);
            }
        | inr room ↦
            let ih = stage-IsStaged out (staged ++ pair) bs in
            record {
              got = ih.got;
              rest = ih.rest;
              lands = rw (high, room, stage) ih.lands;
              keeps =
                  ih.keeps
                  ∙ ap (λ xs. out ++ xs)
                      (append_assoc staged pair (upgrade bs) ∙ ap (λ xs. staged ++ xs) (sym split));
              shrinks = ground (arith, ih.shrinks);
            }
      ]
]

-- A round takes a byte.
takes_one :
    (b : ℕ) (bs : List ℕ)
    → length (drop (run_of (b ∷ bs)) (b ∷ bs))
      < length (b ∷ bs) + high_first (drop (run_of (b ∷ bs)) (b ∷ bs))
takes_one b bs = elim (Bool-cases (leb 0x80 b)) [
  | inl high ↦ rw (run_of-zero b bs high, high) (omega arith)
  | inr low ↦ rw (run_of-suc b bs low) (omega (arith, length-drop (run_of bs) bs))
]

sink_run :
    (out chunk : List ℕ) (run : ℕ)
    → (run ≡ 0 → chunk ≡ [])
    → (if ltb 0 run then extend out chunk else went out) ≡ went (out ++ chunk)
sink_run out chunk zero h =
    ap went (sym (append-nil out)) ∙ ap (λ xs. went (out ++ xs)) (sym (h refl))
sink_run out chunk (suc run) h = let pos : ltb 0 (suc run) ≡ true = ground arith in rw pos refl

abbrev finish : ℕ → List ℕ → List ℕ → Sunk Never (List ℕ)
finish fuel bytes s =
    stage extend s [] (drop (run_of bytes) bytes) >>= λ p. widen_loop extend fuel p.0 p.1

widen_loop-step :
    (fuel : ℕ) (out bytes : List ℕ)
    → (length bytes == 0) ≡ false
    → widen_loop extend (suc fuel) out bytes ≡ (
        (if ltb 0 (run_of bytes) then extend out (take (run_of bytes) bytes) else went out)
        >>= finish fuel bytes)
unfolding widen_loop
widen_loop-step fuel out bytes h = rw h refl

widen_loop_lem :
    (fuel : ℕ) (out bytes : List ℕ)
    → length bytes ≤ fuel
    → widen_loop extend fuel out bytes ≡ went (out ++ upgrade bytes)
widen_loop_lem zero out [] l = unfold widen_loop upgrade in ap went (sym (append-nil out))
widen_loop_lem zero out (b ∷ bs) l = absurd (omega arith)
widen_loop_lem (suc fuel) out [] l = unfold widen_loop upgrade in ap went (sym (append-nil out))
widen_loop_lem (suc fuel) out (b ∷ bs) l =
    let run = run_of (b ∷ bs) in
    let k = stage-IsStaged (out ++ take run (b ∷ bs)) [] (drop run (b ∷ bs)) in
    let less = takes_one b bs in
    let smaller : length k.rest ≤ fuel = omega (arith, k.shrinks, less) in
    let whole =
      append_assoc out (take run (b ∷ bs)) (upgrade (drop run (b ∷ bs)))
      ∙ ap (λ xs. out ++ xs) (sym (upgrade-run (b ∷ bs))) in
    widen_loop-step fuel out (b ∷ bs) (ground arith)
    ∙ ap (λ m. m >>= finish fuel (b ∷ bs))
        (sink_run out (take run (b ∷ bs)) run (λ z. ap (λ r. take r (b ∷ bs)) z))
    ∙ ap (λ m. m >>= λ p. widen_loop extend fuel p.0 p.1) k.lands
    ∙ widen_loop_lem fuel k.got k.rest smaller
    ∙ ap went (k.keeps ∙ whole)

pub count_high-run : (bytes : List ℕ) → count_high (drop (run_of bytes) bytes) ≡ count_high bytes
unfolding count_high
count_high-run [] = unfold position_high in refl
count_high-run (b ∷ bs) = elim (Bool-cases (leb 0x80 b)) [
  | inl high ↦ ap (λ r. count_high (drop r (b ∷ bs))) (run_of-zero b bs high)
  | inr low ↦
      ap (λ r. count_high (drop r (b ∷ bs))) (run_of-suc b bs low)
      ∙ count_high-run bs
      ∙ ground arith
]

exact_below :
    (bytes : List ℕ)
    → All IsByte bytes
    → count_high bytes < 2 ^ 32
    → variant_count bytes ≡ count_high bytes
exact_below bytes h few = elim ((variant_count_exact bytes h).2) [
  | inl exact ↦ exact
  | inr many ↦ absurd (omega arith)
]

-- Of fewer than 2^32 high bytes: the upgrade asks for as many bytes as the content's encoding has,
-- and is that encoding where they are reserved.
pub upgraded_exact :
    (reserves : ℕ → Bool) (bytes : List ℕ)
    → All IsByte bytes
    → count_high bytes < 2 ^ 32
    → upgraded_bytes reserves bytes ≡ (
        if reserves (length (upgrade bytes))
        then filled (upgrade bytes)
        else refused (length (upgrade bytes)))
unfolding upgraded_bytes widen_latin1
upgraded_exact reserves bytes h few =
    let first = ap (λ o. or_length o bytes) (first_variant_exact bytes h) in
    let counted : variant_count (drop (run_of bytes) bytes) ≡ count_high bytes =
      exact_below (drop (run_of bytes) bytes) (drop-IsByte (run_of bytes) bytes h)
        (omega (arith, count_high-run bytes))
      ∙ count_high-run bytes in
    let total : length bytes + variant_count (drop (or_length (first_variant bytes) bytes) bytes)
        ≡ length (upgrade bytes) =
      ap (λ r. length bytes + variant_count (drop r bytes)) first
      ∙ omega (arith, counted, length-upgrade bytes) in
    let copied = widen_loop_lem (length bytes) [] bytes (omega arith) in rw (total, copied) refl
