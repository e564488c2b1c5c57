-- ===== src/Utf8/Correct.antt =====
-- The blocked classification of core/src/string.rs, gate, grid and straddling sequences included,
-- against the plain reading of the content.
use perloxide.Prelude.{
  ℕ, zero, suc, ◌+◌, ◌-◌, ◌≤◌, ◌≡◌, refl, sym, ap, inl, inr, false, Option, List, [], ◌∷◌, ◌++◌,
  arith, ltb, length, take, drop, All, Bool-cases, ltb→lt,
}
use perloxide.Prelude.Bits.{IsByte}
use perloxide.Scan.States.{Terminal}
use perloxide.Utf8.Bounds.{length-drop}
use perloxide.Utf8.Walk.{
  Loop, ended, SpanState, Classified, ScanFacts, no_facts, state, slice, block_end, block_high,
  scalar_decode_span, after_span, classify_loop, classify_walk,
}
use perloxide.Utf8.Spec.{
  Decodes, start, Decodes-le, class_of, facts_of, state-facts_of, facts_of-nil,
}
use perloxide.Utf8.Blocks.{block_end_bounds, All-take, All-drop, gate_ascii, ascii_run, ascii_facts}
use perloxide.Utf8.Spans.{IsMalformed, SpanOutcome, whole, broken, span_outcome}

-- How a classification ends on `bytes`: with the class and the count of the code points that all of
-- it decodes to, or malformed with no count. Either way every byte has been emitted, in order.
pub data ClassifiesAs (bytes : List ℕ) : Loop Classified → Type 0 where
  decodable :
      (cs : List ℕ)
      → Decodes bytes cs (length bytes)
      → ClassifiesAs bytes (ended (class_of cs, length cs, bytes))
  malformed : IsMalformed bytes → ClassifiesAs bytes (ended (Terminal.malformed_utf8, 0, bytes))

take-drop {ℓ} : {A : Type ℓ} (xs : List A) (n : ℕ) → take n xs ++ drop n xs ≡ xs
take-drop xs zero = refl
take-drop [] (suc n) = refl
take-drop (x ∷ xs) (suc n) = rw (take-drop xs n)

take_all {ℓ} : {A : Type ℓ} (xs : List A) (n : ℕ) → length xs ≤ n → take n xs ≡ xs
take_all [] zero h = refl
take_all [] (suc n) h = refl
take_all (x ∷ xs) zero h = absurd (omega arith)
take_all (x ∷ xs) (suc n) h = rw (take_all xs n (omega arith))

length-take {ℓ} : {A : Type ℓ} (xs : List A) (n : ℕ) → n ≤ length xs → length (take n xs) ≡ n
length-take xs zero h = refl
length-take [] (suc n) h = absurd (omega arith)
length-take (x ∷ xs) (suc n) h = ap suc (length-take xs n (omega arith))

take-nil {ℓ} : {A : Type ℓ} (n : ℕ) → take {A = A} n [] ≡ []
take-nil zero = refl
take-nil (suc n) = refl

take-slice {ℓ} :
    {A : Type ℓ} (xs : List A) (a b : ℕ) → a ≤ b → take a xs ++ take (b - a) (drop a xs) ≡ take b xs
take-slice xs zero b h = let e : b - 0 ≡ b = omega arith in rw e
take-slice xs (suc a) zero h = absurd (omega arith)
take-slice [] (suc a) (suc b) h = take-nil (suc b - suc a)
take-slice (x ∷ xs) (suc a) (suc b) h =
    let e : suc b - suc a ≡ b - a = omega arith in
    rw e (ap (λ t. x ∷ t) (take-slice xs a b (omega arith)))

-- The state of the loop: the prefix before `pos` has been decoded into the facts and emitted.
abbrev Tracks : List ℕ → List ℕ → ℕ → ScanFacts → List ℕ → Type 0
Tracks bytes cs pos f out = Decodes bytes cs pos × (f ≡ facts_of cs) × (out ≡ take pos bytes)

finish :
    (bytes cs : List ℕ) (pos : ℕ) (f : ScanFacts) (out : List ℕ)
    → length bytes ≤ pos
    → Tracks bytes cs pos f out
    → ClassifiesAs bytes (ended (state f, f.chars, out))
unfolding facts_of
finish bytes cs pos f out over (d, e, o) =
    let same : pos ≡ length bytes = omega (arith, Decodes-le d) in
    rw (o, e, state-facts_of, take_all bytes pos over) (decodable cs (rw same at d))

gated :
    (bytes cs : List ℕ) (pos soft_end : ℕ) (f : ScanFacts) (out : List ℕ)
    → All IsByte bytes
    → pos ≤ soft_end
    → soft_end ≤ length bytes
    → block_high (slice bytes pos soft_end) ≡ false
    → Tracks bytes cs pos f out
    → Tracks bytes
        (cs ++ slice bytes pos soft_end)
        soft_end
        (record f { chars = f.chars + (soft_end - pos) })
        (out ++ slice bytes pos soft_end)
unfolding facts_of
gated bytes cs pos soft_end f out b h inside low (d, e, o) =
    let block = slice bytes pos soft_end in
    let rest = drop (soft_end - pos) (drop pos bytes) in
    let ascii =
      gate_ascii block (All-take (soft_end - pos) (drop pos bytes) (All-drop pos bytes b)) low in
    let size : length block ≡ soft_end - pos =
      length-take (drop pos bytes) (soft_end - pos) (omega (arith, length-drop pos bytes)) in
    let ends : pos + length block ≡ soft_end = omega arith in
    (
      rw ends at (ascii_run block rest d (sym (take-drop (drop pos bytes) (soft_end - pos))) ascii),
      rw e (rw size at (ascii_facts cs block ascii)),
      rw o (take-slice bytes pos soft_end h),
    )

after_outcome :
    (bytes : List ℕ) (pos soft_end : ℕ) (out : List ℕ)
    (go : ℕ → ScanFacts → List ℕ → Loop Classified) (r : Loop (Option SpanState))
    → pos ≤ length bytes
    → out ≡ take pos bytes
    → ((cs : List ℕ) (s : SpanState)
        → soft_end ≤ s.next
        → Tracks bytes cs s.next s.facts (out ++ slice bytes pos s.next)
        → ClassifiesAs bytes (go s.next s.facts (out ++ slice bytes pos s.next)))
    → SpanOutcome bytes soft_end pos r
    → ClassifiesAs bytes (after_span bytes pos out go r)
unfolding after_span
after_outcome bytes pos soft_end out go r p o cont (whole s cs d f e g) =
    cont cs s e (d, f, rw o (take-slice bytes pos s.next g))
after_outcome bytes pos soft_end out go r p o cont (broken m) =
    rw (o, take-slice bytes pos (length bytes) p, take_all bytes (length bytes) (omega arith))
      (malformed m)

scalar_outcome :
    (bytes cs : List ℕ) (pos soft_end : ℕ) (f : ScanFacts)
    → soft_end ≤ length bytes
    → Decodes bytes cs pos
    → f ≡ facts_of cs
    → SpanOutcome bytes soft_end pos (scalar_decode_span bytes pos soft_end f)
unfolding scalar_decode_span
scalar_outcome bytes cs pos soft_end f inside d e =
    span_outcome (length bytes) soft_end bytes cs _ inside (omega arith) d e

loop_classifies :
    (fuel : ℕ) (bytes cs : List ℕ) (pos : ℕ) (f : ScanFacts) (out : List ℕ)
    → All IsByte bytes
    → length bytes ≤ pos + fuel
    → Tracks bytes cs pos f out
    → ClassifiesAs bytes (classify_loop fuel bytes pos f out)
unfolding classify_loop
loop_classifies zero bytes cs pos f out b enough t = elim (Bool-cases (ltb pos (length bytes))) [
  | inl more ↦ absurd (omega (arith, ltb→lt pos (length bytes) more))
  | inr over ↦ rw over (finish bytes cs pos f out (omega arith) t)
]
loop_classifies (suc fuel) bytes cs pos f out b enough t =
    elim (Bool-cases (ltb pos (length bytes))) [
      | inr over ↦ rw (over, classify_loop) (finish bytes cs pos f out (ground arith) t)
      | inl more ↦
          let (ahead, inside) =
            block_end_bounds pos (length bytes) (ltb→lt pos (length bytes) more) in
          let soft_end = block_end pos (length bytes) in
          elim (Bool-cases (block_high (slice bytes pos soft_end))) [
            | inr low ↦
                rw (more, classify_loop, low)
                  (loop_classifies fuel bytes _ soft_end _ _ b (omega arith)
                    (gated bytes cs pos soft_end f out b (omega arith) inside low t))
            | inl high ↦
                rw (more, classify_loop, high)
                  (after_outcome bytes pos soft_end out (classify_loop fuel bytes) _ (omega arith)
                    t.2
                    (λ cs' s ahead' t'.
                      loop_classifies fuel bytes cs' s.next s.facts _ b (omega arith) t')
                    (scalar_outcome bytes cs pos soft_end f inside t.0 t.1))
          ]
    ]

-- Every classification of bytes ends within one round a byte, and as the content reads: the class
-- and the count of all its code points, or malformed where it stops decoding. It emits every byte.
pub classify_walk_correct :
    (bytes : List ℕ) → All IsByte bytes → ClassifiesAs bytes (classify_walk bytes)
unfolding classify_walk
classify_walk_correct bytes b =
    loop_classifies (length bytes) bytes [] 0 no_facts [] b (omega arith)
      (start, facts_of-nil, refl)
