-- ===== src/Source/Scanning.antt =====
-- A speculative scan of parser/src/source.rs keeps hold of the line where it began and of what was
-- still to be delivered there.
use mathlib.Core.List.{map-append, append_assoc}
use mathlib.Core.Path.{subst}
use perloxide.Prelude.{
  ℕ, ◌≡◌, refl, sym, ap, ◌∙◌, Bool, true, false, Option, none, some, List, [], ◌∷◌, ◌++◌, map,
  if◌then◌else◌,
}
use perloxide.Source.Line.{LexerLine, set_eof}
use perloxide.Source.Reader.{
  Reader, top_bound, capture, install_line, set_line_number, deliver, next_line,
}
use perloxide.Source.Stream.{Key, key, stream, Rewound}
use perloxide.Source.Delivery.{stream_of, key-set_eof, stays, moves, next, delivered_by}

-- What a scan does with the reader: it reads on, moves the cursor in its line, or crosses a
-- directive that sets the line number.
pub data ScanStep : Type 0 where
  read_on : ScanStep
  move_to : ℕ → ScanStep
  renumber : ℕ → ScanStep

unfoldable pub scan_step : Reader → ScanStep → Reader
unfolding next_line set_line_number
scan_step r read_on = (next_line r).1
scan_step r (move_to p) = record r {
  current = elim r.current [ none ↦ none | some l ↦ some (record l { pos = p }) ];
}
scan_step r (renumber n) = set_line_number r n

unfoldable pub scan : Reader → List ScanStep → Reader
unfolding scan_step
scan r [] = r
scan r (step ∷ steps) = scan (scan_step r step) steps

-- Where a scan is that began on a line: on that line, or past it.
pub data Place (ahead : List Key) (e : LexerLine) (g : Reader) : Type 0 where
  on_entry :
      (p : ℕ)
      → g.lookahead ≡ []
      → g.current ≡ some (record e { pos = p })
      → stream_of g ≡ ahead
      → Place ahead e g
  beyond :
      (p : ℕ) (captured : List LexerLine) (cur : LexerLine)
      → g.lookahead ≡ record e { pos = p } ∷ captured
      → g.current ≡ some cur
      → map key captured ++ (key cur ∷ stream_of g) ≡ ahead
      → Place ahead e g

pub record Scanning (ahead : List Key) (e : LexerLine) (s g : Reader) : Type 0 where
  pub mode : g.lookahead_mode ≡ true
  pub stack : g.context_stack ≡ s.context_stack
  pub decoding : g.utf8_mode ≡ s.utf8_mode
  pub queue : Rewound g.queued_lines
  pub place : Place ahead e g

key_number : (l : LexerLine) (n : ℕ) → key (record l { number = n }) ≡ key l
unfolding key
key_number l n = refl

key_pos : (l : LexerLine) (p : ℕ) → key (record l { pos = p }) ≡ key l
unfolding key
key_pos l p = refl

capture-some :
    (mode : Bool) (lookahead : List LexerLine) (current : Option LexerLine) (l : LexerLine)
    → mode ≡ true
    → current ≡ some l
    → capture mode lookahead current ≡ lookahead ++ (l ∷ [])
capture-some mode lookahead current l m c = rw (m, c) (unfold capture in refl)

new_key : (l : LexerLine) (n : ℕ) (b : Option ℕ) → key (set_eof (record l { number = n }) b) ≡ key l
new_key l n b = key-set_eof (record l { number = n }) b ∙ key_number l n

module _ (ahead : List Key) (e : LexerLine) (s g : Reader) where
  Place-delivered :
      (l : LexerLine) (queue : List LexerLine) (c' : ℕ)
      → g.lookahead_mode ≡ true
      → stream_of g ≡ key l ∷ stream queue g.src c'
      → Place ahead e g
      → Place ahead e (delivered_by g l queue c')
  unfolding deliver install_line
  Place-delivered l queue c' m h (on_entry p la cu st) =
      beyond p [] (set_eof (record l { number = g.line_number }) (top_bound g.context_stack))
        (capture-some g.lookahead_mode g.lookahead g.current (record e { pos = p }) m cu
          ∙ ap (λ t. t ++ (record e { pos = p } ∷ [])) la)
        refl
        (ap (λ k. k ∷ stream queue g.src c') (new_key l g.line_number (top_bound g.context_stack))
          ∙ sym h
          ∙ st)
  Place-delivered l queue c' m h (beyond p cap cur la cu st) =
      let b = top_bound g.context_stack in
      beyond p (cap ++ (cur ∷ [])) (set_eof (record l { number = g.line_number }) b)
        (capture-some g.lookahead_mode g.lookahead g.current cur m cu
          ∙ ap (λ t. t ++ (cur ∷ [])) la)
        refl
        (ap (λ k. map key (cap ++ (cur ∷ [])) ++ (k ∷ stream queue g.src c'))
            (new_key l g.line_number b)
          ∙ ap (λ t. t ++ (key l ∷ stream queue g.src c')) (map-append key cap (cur ∷ []))
          ∙ append_assoc (map key cap) (key cur ∷ []) (key l ∷ stream queue g.src c')
          ∙ ap (λ t. map key cap ++ (key cur ∷ t)) (sym h)
          ∙ st)

  delivered-Scanning :
      (l : LexerLine) (queue : List LexerLine) (c' : ℕ)
      → stream_of g ≡ key l ∷ stream queue g.src c'
      → Rewound queue
      → Scanning ahead e s g
      → Scanning ahead e s (delivered_by g l queue c')
  delivered-Scanning l queue c' st q h = record {
    mode = unfold deliver install_line in h.mode;
    stack = unfold deliver install_line in h.stack;
    decoding = unfold deliver install_line in h.decoding;
    queue = unfold deliver install_line in q;
    place = Place-delivered l queue c' h.mode st h.place;
  }

  along : (g' : Reader) → g ≡ g' → Scanning ahead e s g → Scanning ahead e s g'
  along g' k h = subst (Scanning ahead e s) k h

  moved-Place :
      (p : ℕ)
      → Place ahead e g
      → Place ahead e (record g {
        current = elim g.current [ none ↦ none | some l ↦ some (record l { pos = p }) ];
      })
  moved-Place p (on_entry p' la cu st) =
      on_entry p la (ap (λ t. elim t [ none ↦ none | some l ↦ some (record l { pos = p }) ]) cu) st
  moved-Place p (beyond p' cap cur la cu st) =
      beyond p' cap (record cur { pos = p }) la
        (ap (λ t. elim t [ none ↦ none | some l ↦ some (record l { pos = p }) ]) cu)
        (ap (λ k. map key cap ++ (k ∷ stream_of g)) (key_pos cur p) ∙ st)

  renumbered : (n : ℕ) → g.lookahead_mode ≡ true → g ≡ set_line_number g n
  unfolding set_line_number
  renumbered n m = sym (ap (λ t. if t then g else record g { line_number = n }) m)

  read_same : next_line g ≡ (false, g) → g ≡ scan_step g read_on
  read_same n = sym (unfold scan_step in ap (λ (p : Bool × Reader). p.1) n)

  read_next : (d : Reader) → next_line g ≡ (true, d) → d ≡ (next_line g).1
  read_next d n = sym (ap (λ (p : Bool × Reader). p.1) n)

step-Scanning :
    (ahead : List Key) (e : LexerLine) (s g : Reader) (step : ScanStep)
    → Scanning ahead e s g
    → Scanning ahead e s (scan_step g step)
unfolding scan_step
step-Scanning ahead e s g read_on h = elim (next g h.queue) [
  | stays n z ↦ along ahead e s g (next_line g).1 (read_same ahead e s g n) h
  | moves l queue c' n past st pos q ↦
      along ahead e s (delivered_by g l queue c') (next_line g).1
        (read_next ahead e s g (delivered_by g l queue c') n)
        (delivered-Scanning ahead e s g l queue c' st q h)
]
step-Scanning ahead e s g (move_to p) h = record {
  mode = h.mode;
  stack = h.stack;
  decoding = h.decoding;
  queue = h.queue;
  place = moved-Place ahead e s g p h.place;
}
step-Scanning ahead e s g (renumber n) h =
    along ahead e s g (set_line_number g n) (renumbered ahead e s g n h.mode) h

-- The whole scan.
pub scan-Scanning :
    (ahead : List Key) (e : LexerLine) (s g : Reader) (steps : List ScanStep)
    → Scanning ahead e s g
    → Scanning ahead e s (scan g steps)
unfolding scan
scan-Scanning ahead e s g [] h = h
scan-Scanning ahead e s g (step ∷ steps) h =
    scan-Scanning ahead e s (scan_step g step) steps (step-Scanning ahead e s g step h)
