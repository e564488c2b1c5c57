-- ===== src/Utf8/Walk.antt =====
-- The classifying walks of core/src/string.rs over the decoder: the span decoder with its reports,
-- and the blocked pass that classifies content and copies it on the way.
use Prim.Native.Nat.{bit_and, bit_or, min}
use mathlib.Core.List.{foldl}
use perloxide.Prelude.{
  ℕ, zero, suc, ◌+◌, ◌-◌, ◌*◌, ◌/◌, Bool, true, false, ◌||◌, ◌&&◌, not, Option, none, some, List,
  [], ◌∷◌, ◌++◌, ltb, leb, ◌==◌, if◌then◌else◌, length, take, drop,
}
use perloxide.Scan.States.{Terminal}
use perloxide.Utf8.Decode.{decode_one, malformed_run}

-- A loop on fuel: how it ended, or that its fuel ran out.
pub data Loop {ℓ} (A : Type ℓ) : Type ℓ where
  ended : A → Loop A
  fuel_out : Loop A

abbrev classify_block : ℕ
classify_block = 16384

unfoldable pub block_end : ℕ → ℕ → ℕ
block_end pos len = min ((pos / classify_block + 1) * classify_block) len

pub record ScanFacts : Type 0 where
  pub saw_multibyte : Bool
  pub saw_beyond_latin1 : Bool
  pub saw_rust_rejected : Bool
  pub chars : ℕ

abbrev pub no_facts : ScanFacts
no_facts = record {
  saw_multibyte = false;
  saw_beyond_latin1 = false;
  saw_rust_rejected = false;
  chars = 0;
}

-- `ScanFacts::state`
unfoldable pub state : ScanFacts → Terminal
state f =
    if f.saw_rust_rejected
    then Terminal.extended_utf8
    else if f.saw_beyond_latin1
    then Terminal.utf8_non_latin1
    else if f.saw_multibyte
    then Terminal.utf8_latin1
    else Terminal.ascii

unfoldable pub rust_rejects : ℕ → ℕ → Bool
rust_rejects len value = ltb 4 len || ltb 0x10_FFFF value || (leb 0xD800 value && leb value 0xDFFF)

-- What one decoded sequence adds to the facts.
unfoldable pub note : ScanFacts → ℕ × ℕ → ScanFacts
unfolding rust_rejects
note f (len, value) =
    if ltb 1 len
    then record {
      saw_multibyte = true;
      saw_beyond_latin1 = f.saw_beyond_latin1 || ltb 0xFF value;
      saw_rust_rejected = f.saw_rust_rejected || rust_rejects len value;
      chars = f.chars + 1;
    }
    else record f { chars = f.chars + 1 }

-- What the closures of the span decoder receive, in order.
pub data Report : Type 0 where
  char : ℕ → Report
  rejected : List ℕ → Report

pub record SpanState : Type 0 where
  pub next : ℕ
  pub facts : ScanFacts
  pub reports : List Report

-- `scalar_decode_span_reporting`; `breaks` is the answer of `on_malformed`. `none` is the walk that
-- it broke off. A round moves at least one byte.
unfoldable pub decode_span : (List ℕ → Bool) → ℕ → List ℕ → ℕ → SpanState → Loop (Option SpanState)
unfolding note
decode_span breaks zero bytes soft_end s = if ltb s.next soft_end then fuel_out else ended (some s)
decode_span breaks (suc fuel) bytes soft_end s = elim (ltb s.next soft_end) [
  | false ↦ ended (some s)
  | true ↦ elim (decode_one bytes s.next) [
    | some c ↦ decode_span breaks fuel bytes soft_end (record {
      next = s.next + c.0;
      facts = note s.facts c;
      reports = s.reports ++ (char c.1 ∷ []);
    })
    | none ↦
        let run = malformed_run bytes s.next in
        let span = take run (drop s.next bytes) in
        let more =
          decode_span breaks fuel bytes soft_end
            (record s { next = s.next + run; reports = s.reports ++ (rejected span ∷ []) }) in
        if breaks span then ended none else more
  ]
]

-- `scalar_decode_span`, which breaks at the first rejection.
unfoldable pub scalar_decode_span : List ℕ → ℕ → ℕ → ScanFacts → Loop (Option SpanState)
unfolding decode_span
scalar_decode_span bytes start soft_end f =
    decode_span (λ _. true) (length bytes) bytes soft_end
      (record { next = start; facts = f; reports = [] })

-- The fold over a block: whether some byte has its high bit.
unfoldable pub block_high : List ℕ → Bool
block_high block = not (bit_and (foldl bit_or 0 block) 0x80 == 0)

-- `bytes[start..end]`
abbrev pub slice : List ℕ → ℕ → ℕ → List ℕ
slice bytes start end = take (end - start) (drop start bytes)

abbrev pub Classified : Type 0
Classified = Terminal × ℕ × List ℕ

unfoldable pub after_span :
    List ℕ
    → ℕ
    → List ℕ
    → (ℕ → ScanFacts → List ℕ → Loop Classified)
    → Loop (Option SpanState)
    → Loop Classified
after_span bytes pos out go fuel_out = fuel_out
after_span bytes pos out go (ended none) =
    ended (Terminal.malformed_utf8, 0, out ++ slice bytes pos (length bytes))
after_span bytes pos out go (ended (some s)) = go s.next s.facts (out ++ slice bytes pos s.next)

-- The loop of `classify_walk`; `out` is what the sink has been given.
unfoldable pub classify_loop : ℕ → List ℕ → ℕ → ScanFacts → List ℕ → Loop Classified
classify_loop zero bytes pos f out =
    if ltb pos (length bytes) then fuel_out else ended (state f, f.chars, out)
classify_loop (suc fuel) bytes pos f out = elim (ltb pos (length bytes)) [
  | false ↦ ended (state f, f.chars, out)
  | true ↦
      let soft_end = block_end pos (length bytes) in
      elim (block_high (slice bytes pos soft_end)) [
        | false ↦
            classify_loop fuel bytes soft_end (record f { chars = f.chars + (soft_end - pos) })
              (out ++ slice bytes pos soft_end)
        | true ↦
            after_span bytes pos out (classify_loop fuel bytes)
              (scalar_decode_span bytes pos soft_end f)
      ]
]

-- `classify_walk`: class, character count and what was emitted.
unfoldable pub classify_walk : List ℕ → Loop Classified
unfolding classify_loop
classify_walk bytes = classify_loop (length bytes) bytes 0 no_facts []
