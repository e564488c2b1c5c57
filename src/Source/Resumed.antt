-- ===== src/Source/Resumed.antt =====
-- The deliveries of parser/src/source.rs after a lookahead, and the line counter of a frame that is
-- resumed.
use mathlib.Core.Path.{subst}
use perloxide.Prelude.{
  ℕ, zero, suc, ◌+◌, ◌≡◌, refl, true, false, Bool, sym, ap, ◌∙◌, Option, none, some, Bool-cases,
  ltb, inl, inr, if◌then◌else◌, List, [], ◌∷◌, map, length,
}
use perloxide.Source.Line.{LexerLine, extent, set_eof}
use perloxide.Source.Reader.{
  Frame, Reader, top_bound, past_bound, capture, install_line, deliver, next_line,
}
use perloxide.Source.Stream.{Key, line_of, Rewound}
use perloxide.Source.Delivery.{
  stream_of, deliveries, delivered_from, deliveries-stream, stays, moves, next,
}
use perloxide.Source.Scanning.{ScanStep}
use perloxide.Source.Speculate.{Steady, speculated, speculated-Restored}

-- A line without its number.
abbrev pub unnumbered : LexerLine → LexerLine
unnumbered l = record l { number = 0 }

unnumbered_line :
    (k : Key) (n m : ℕ) (bound : Option ℕ)
    → unnumbered (line_of k n bound) ≡ unnumbered (line_of k m bound)
unfolding line_of set_eof extent
unnumbered_line k n m none = refl
unnumbered_line k n m (some g) =
    let end = k.offset + length k.full + (if k.full_terminated then 1 else 0) in
    elim (Bool-cases (ltb g k.offset)) [
      | inl before ↦ rw before refl
      | inr past ↦ rw past (elim (Bool-cases (ltb g end)) [
        | inl within ↦ rw within refl
        | inr whole ↦ rw whole refl
      ])
    ]

-- Another counter gives the same lines under other numbers.
unnumbered-delivered :
    (n : ℕ) (bound : Option ℕ) (a b : ℕ) (ks : List Key)
    → map unnumbered (delivered_from n bound a ks) ≡ map unnumbered (delivered_from n bound b ks)
unfolding delivered_from
unnumbered-delivered zero bound a b ks = refl
unnumbered-delivered (suc n) bound a b [] = refl
unnumbered-delivered (suc n) bound a b (k ∷ ks) = elim (Bool-cases (past_bound bound k.offset)) [
  | inl past ↦ rw past refl
  | inr more ↦ rw more (
      ap (λ t. t ∷ map unnumbered (delivered_from n bound (a + 1) ks)) (unnumbered_line k a b bound)
      ∙ ap (λ t. unnumbered (line_of k b bound) ∷ t)
          (unnumbered-delivered n bound (a + 1) (b + 1) ks))
]

-- After the drop of a guard whose lookahead began on a line, whatever it read on, wherever it moved
-- the cursor and whichever line directives it crossed, the reader stands on the same line with the same
-- cursor and the same frames, and its counter is one past the number of that line, wherever it stood
-- before. Each later delivery gives the line that it would have given with that counter; that is the
-- line that it would have given without the lookahead, but for its number.
pub lookahead_resumes :
    (e : LexerLine) (s : Reader) (steps : List ScanStep)
    → Steady e s
    → Steady e (speculated s steps)
      × ((speculated s steps).context_stack ≡ s.context_stack)
      × ((speculated s steps).line_number ≡ e.number + 1)
      × ((n : ℕ)
          → (deliveries n (speculated s steps)
              ≡ deliveries n (record s { line_number = e.number + 1 }))
            × (map unnumbered (deliveries n (speculated s steps))
                ≡ map unnumbered (deliveries n s)))
lookahead_resumes e s steps h =
    let after = speculated s steps in
    let r = speculated-Restored e s steps h in
    let bound = top_bound s.context_stack in
    let after_lines : (n : ℕ)
        → deliveries n after ≡ delivered_from n bound (e.number + 1) (stream_of s) =
      λ n.
        deliveries-stream n after r.queue
        ∙ ap (λ t. delivered_from n (top_bound t) after.line_number (stream_of after)) r.stack
        ∙ ap (λ t. delivered_from n bound t (stream_of after)) r.number
        ∙ ap (delivered_from n bound (e.number + 1)) r.rest in
    (
      record {
        entry = r.current;
        fits = ap (λ t. set_eof e (top_bound t)) r.stack ∙ h.fits;
        idle = r.mode;
        captured = r.captured;
        queue = r.queue;
      },
      r.stack,
      r.number,
      λ n. (
        after_lines n ∙ sym (deliveries-stream n (record s { line_number = e.number + 1 }) h.queue),
        ap (map unnumbered) (after_lines n)
            ∙ unnumbered-delivered n bound (e.number + 1) s.line_number (stream_of s)
            ∙ ap (map unnumbered) (sym (deliveries-stream n s h.queue)),
      ),
    )

-- The end of a line's view is applied once.
set_eof_twice :
    (l : LexerLine) (bound : Option ℕ) → set_eof (set_eof l bound) bound ≡ set_eof l bound
unfolding set_eof extent
set_eof_twice l none = refl
set_eof_twice l (some g) =
    let end = l.offset + length l.full + (if l.full_terminated then 1 else 0) in
    elim (Bool-cases (ltb g l.offset)) [
      | inl before ↦ rw (before, before) refl
      | inr past ↦ rw past (elim (Bool-cases (ltb g end)) [
        | inl within ↦ rw (within, past, within) refl
        | inr whole ↦ rw (whole, past, whole) refl
      ])
    ]

-- The reader after a pop.
resumed : Reader → List Frame → LexerLine → Reader
resumed s rest l = record s { context_stack = rest; current = some (set_eof l (top_bound rest)) }

-- A delivery outside a lookahead leaves a reader on which a lookahead may begin.
next_line-Steady :
    (s : Reader)
    → s.lookahead_mode ≡ false
    → s.lookahead ≡ []
    → Rewound s.queued_lines
    → (next_line s).0 ≡ true
    → (e : LexerLine) × Steady e (next_line s).1
next_line-Steady s idle empty queue delivered = elim (next s queue) [
  | stays n z ↦ cc (n, delivered)
  | moves l queue' c' n past st pos q ↦
      let b = top_bound s.context_stack in
      let e = set_eof (record l { number = s.line_number }) b in
      (
        e,
        subst (λ (t : Bool × Reader). Steady e t.1) (sym n)
            (record {
              entry = unfold deliver install_line in refl;
              fits =
                  unfold deliver install_line in
                  set_eof_twice (record l { number = s.line_number }) b;
              idle = unfold deliver install_line in idle;
              captured =
                  unfold deliver install_line in
                  (ap (λ m. capture m s.lookahead s.current) idle ∙ unfold capture in empty);
              queue = unfold deliver install_line in q;
            }),
      )
]
