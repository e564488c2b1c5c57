-- ===== src/Utf8/Spans.antt =====
-- The span decoder of core/src/string.rs against the decoded prefix.
use perloxide.Prelude.{
  ℕ, zero, suc, ◌+◌, ◌≤◌, ◌<◌, ◌≡◌, inl, inr, true, Option, none, some, List, [], ◌∷◌, ◌++◌, arith,
  ltb, length, Bool-cases, Option-cases, ltb→lt,
}
use perloxide.Utf8.Decode.{decode_one}
use perloxide.Utf8.Bounds.{decode_one-IsSequence}
use perloxide.Utf8.Walk.{Loop, ended, SpanState, decode_span}
use perloxide.Utf8.Spec.{Decodes, next, facts_of, note_several}

-- Somewhere content stops decoding, after the code points of a prefix.
pub data IsMalformed (bytes : List ℕ) : Type 0 where
  stops :
      (cs : List ℕ) (at : ℕ)
      → Decodes bytes cs at
      → at < length bytes
      → decode_one bytes at ≡ none
      → IsMalformed bytes

-- How a breaking span walk ends: past its soft end with the facts of what it decoded, or on a
-- rejected byte.
pub data SpanOutcome (bytes : List ℕ) (soft_end from : ℕ) : Loop (Option SpanState) → Type 0 where
  whole :
      (s : SpanState) (cs : List ℕ)
      → Decodes bytes cs s.next
      → s.facts ≡ facts_of cs
      → soft_end ≤ s.next
      → from ≤ s.next
      → SpanOutcome bytes soft_end from (ended (some s))
  broken : IsMalformed bytes → SpanOutcome bytes soft_end from (ended none)

from_earlier :
    {bytes : List ℕ} {soft_end from before : ℕ} {r : Loop (Option SpanState)}
    → before ≤ from
    → SpanOutcome bytes soft_end from r
    → SpanOutcome bytes soft_end before r
from_earlier h (whole s cs d f e g) = whole s cs d f e (omega arith)
from_earlier h (broken m) = broken m

pub span_outcome :
    (fuel soft_end : ℕ) (bytes cs : List ℕ) (s : SpanState)
    → soft_end ≤ length bytes
    → soft_end ≤ s.next + fuel
    → Decodes bytes cs s.next
    → s.facts ≡ facts_of cs
    → SpanOutcome bytes soft_end s.next (decode_span (λ _. true) fuel bytes soft_end s)
unfolding decode_span
span_outcome zero soft_end bytes cs s inside enough d f = elim (Bool-cases (ltb s.next soft_end)) [
  | inl more ↦ absurd (omega (arith, ltb→lt s.next soft_end more))
  | inr over ↦ rw (over, decode_span) (whole s cs d f (ground arith) (omega arith))
]
span_outcome (suc fuel) soft_end bytes cs s inside enough d f =
    elim (Bool-cases (ltb s.next soft_end)) [
      | inr over ↦ rw (over, decode_span) (whole s cs d f (ground arith) (omega arith))
      | inl more ↦ elim (Option-cases (decode_one bytes s.next)) [
        | inl rejected ↦
            rw (more, decode_span, rejected)
              (broken (stops cs s.next d (omega (arith, ltb→lt s.next soft_end more)) rejected))
        | inr ((len, value), e) ↦
            let q = decode_one-IsSequence bytes s.next len value e in
            rw (more, decode_span, e)
              (from_earlier (omega arith) (
                span_outcome fuel soft_end bytes (cs ++ value ∷ []) _ inside
                  (omega (arith, q.positive))
                  (next d (omega (arith, ltb→lt s.next soft_end more)) e)
                  (rw f (note_several _ len value cs q))))
      ]
    ]
