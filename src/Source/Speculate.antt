-- ===== src/Source/Speculate.antt =====
-- A lookahead of parser/src/source.rs against what is delivered afterwards.
use mathlib.Core.Path.{subst}
use mathlib.Core.List.{map-append, append_assoc}
use perloxide.Prelude.{
  ℕ, ◌+◌, ◌≡◌, refl, sym, ap, ◌∙◌, true, false, none, some, List, [], ◌∷◌, ◌++◌, map, length,
}
use perloxide.Source.Line.{LexerLine, set_eof}
use perloxide.Source.Reader.{Reader, top_bound, capture, install_line}
use perloxide.Source.Lookahead.{Guard, begin_lookahead, drop_guard, rewound}
use perloxide.Source.Stream.{Key, key, raws, stream, Rewound}
use perloxide.Source.Delivery.{stream_of}
use perloxide.Source.Scanning.{ScanStep, scan, Place, on_entry, beyond, Scanning, scan-Scanning}

pub record Restored (ahead : List Key) (e : LexerLine) (s r : Reader) : Type 0 where
  pub mode : r.lookahead_mode ≡ false
  pub stack : r.context_stack ≡ s.context_stack
  pub number : r.line_number ≡ e.number + 1
  pub current : r.current ≡ some e
  pub decoding : r.utf8_mode ≡ s.utf8_mode
  pub queue : Rewound r.queued_lines
  pub rest : stream_of r ≡ ahead
  pub captured : r.lookahead ≡ []

-- A reader whose scan state is known.
scanned : Reader → Reader → List LexerLine → LexerLine → Reader
scanned s g lookahead cur = record g {
  lookahead_mode = true;
  context_stack = s.context_stack;
  lookahead = lookahead;
  current = some cur;
}

scanned_lem :
    (s g : Reader) (lookahead : List LexerLine) (cur : LexerLine)
    → g.lookahead_mode ≡ true
    → g.context_stack ≡ s.context_stack
    → g.lookahead ≡ lookahead
    → g.current ≡ some cur
    → g ≡ scanned s g lookahead cur
unfolding scanned
scanned_lem s g la cur m c l u =
    ap (λ t. record g { lookahead_mode = t }) m
    ∙ ap (λ t. record g { lookahead_mode = true; context_stack = t }) c
    ∙ ap (λ t. record g { lookahead_mode = true; context_stack = s.context_stack; lookahead = t }) l
    ∙ ap
        (λ t. record g {
          lookahead_mode = true;
          context_stack = s.context_stack;
          lookahead = la;
          current = t;
        })
        u

abbrev guard_of : LexerLine → Reader → Guard
guard_of e g = record { lexer = g; entry_pos = e.pos; saved_bound = none }

map-key-rewound : (ls : List LexerLine) → map key (rewound ls) ≡ map key ls
unfolding key
map-key-rewound [] = refl
map-key-rewound (l ∷ ls) = ap (λ t. key l ∷ t) (map-key-rewound ls)

rewound-Rewound : (ls queue : List LexerLine) → Rewound queue → Rewound (rewound ls ++ queue)
rewound-Rewound [] queue h = h
rewound-Rewound (l ∷ ls) queue h = (refl, rewound-Rewound ls queue h)

stream-append :
    (ls queue : List LexerLine) (src : List ℕ) (c : ℕ)
    → stream (rewound ls ++ queue) src c ≡ map key ls ++ stream queue src c
unfolding stream
stream-append ls queue src c =
    ap (λ t. t ++ raws (length src) src c)
      (map-append key (rewound ls) queue ∙ ap (λ t. t ++ map key queue) (map-key-rewound ls))
    ∙ append_assoc (map key ls) (map key queue) (raws (length src) src c)

module _ (ahead : List Key) (e : LexerLine) (s g : Reader)
    (fits : set_eof e (top_bound s.context_stack) ≡ e) (same_mode : g.utf8_mode ≡ s.utf8_mode)
    (q : Rewound g.queued_lines) where
  drop_on_entry :
      (p : ℕ)
      → stream_of g ≡ ahead
      → Restored ahead e s (drop_guard (guard_of e (scanned s g [] (record e { pos = p }))))
  drop_on_entry p st = record {
    captured = unfold drop_guard scanned in refl;
    mode = unfold drop_guard scanned in refl;
    stack = unfold drop_guard scanned install_line in refl;
    number = unfold drop_guard scanned install_line in ap (λ (l : LexerLine). l.number + 1) fits;
    current = unfold drop_guard scanned install_line in ap (λ (l : LexerLine). some l) fits;
    decoding = unfold drop_guard scanned install_line in same_mode;
    queue = unfold drop_guard scanned install_line capture in q;
    rest = unfold drop_guard scanned install_line capture in st;
  }

  drop_beyond :
      (p : ℕ) (cap : List LexerLine) (cur : LexerLine)
      → map key cap ++ (key cur ∷ stream_of g) ≡ ahead
      → Restored ahead e s (drop_guard (guard_of e (scanned s g (record e { pos = p } ∷ cap) cur)))
  drop_beyond p cap cur st = record {
    captured = unfold drop_guard scanned in refl;
    mode = unfold drop_guard scanned in refl;
    stack = unfold drop_guard scanned install_line in refl;
    number = unfold drop_guard scanned install_line in ap (λ (l : LexerLine). l.number + 1) fits;
    current = unfold drop_guard scanned install_line in ap (λ (l : LexerLine). some l) fits;
    decoding = unfold drop_guard scanned install_line in same_mode;
    queue =
        unfold drop_guard scanned install_line capture in
        rewound-Rewound (cap ++ (cur ∷ [])) g.queued_lines q;
    rest =
        unfold drop_guard scanned install_line capture in
        (stream-append (cap ++ (cur ∷ [])) g.queued_lines g.src g.cursor
          ∙ ap (λ t. t ++ stream_of g) (map-append key cap (cur ∷ []))
          ∙ append_assoc (map key cap) (key cur ∷ []) (stream_of g)
          ∙ st);
  }

-- A reader between scans, on a line that shows what the bound of the top frame lets it, with the
-- queued lines at their indent. Its counter is free.
pub record Steady (e : LexerLine) (s : Reader) : Type 0 where
  pub entry : s.current ≡ some e
  pub fits : set_eof e (top_bound s.context_stack) ≡ e
  pub idle : s.lookahead_mode ≡ false
  pub captured : s.lookahead ≡ []
  pub queue : Rewound s.queued_lines

drop-Place :
    (ahead : List Key) (e : LexerLine) (s g : Reader)
    → set_eof e (top_bound s.context_stack) ≡ e
    → Scanning ahead e s g
    → Place ahead e g
    → Restored ahead e s (drop_guard (guard_of e g))
drop-Place ahead e s g fits h (on_entry p la cu st) =
    subst (λ t. Restored ahead e s (drop_guard (guard_of e t)))
      (sym (scanned_lem s g [] (record e { pos = p }) h.mode h.stack la cu))
      (drop_on_entry ahead e s g fits h.decoding h.queue p st)
drop-Place ahead e s g fits h (beyond p cap cur la cu st) =
    subst (λ t. Restored ahead e s (drop_guard (guard_of e t)))
      (sym (scanned_lem s g (record e { pos = p } ∷ cap) cur h.mode h.stack la cu))
      (drop_beyond ahead e s g fits h.decoding h.queue p cap cur st)

-- The guard of a lookahead that began on a line, after some steps.
unfoldable pub speculated : Reader → List ScanStep → Reader
unfolding begin_lookahead scan drop_guard
speculated s steps =
    let g = begin_lookahead s in drop_guard (record g { lexer = scan g.lexer steps })

begun :
    (e : LexerLine) (s : Reader)
    → Steady e s
    → Scanning (stream_of s) e s ((begin_lookahead s).lexer)
unfolding begin_lookahead
begun e s h = record {
  mode = refl;
  stack = refl;
  decoding = refl;
  queue = h.queue;
  place = on_entry e.pos h.captured h.entry refl;
}

entry_guard :
    (e : LexerLine) (s g : Reader)
    → s.current ≡ some e
    → record (begin_lookahead s) { lexer = g } ≡ guard_of e g
unfolding begin_lookahead
entry_guard e s g c =
    ap
      (λ t. record {
        lexer = g;
        entry_pos = elim t [ none ↦ 0 | some l ↦ l.pos ];
        saved_bound = none;
      })
      c

pub speculated-Restored :
    (e : LexerLine) (s : Reader) (steps : List ScanStep)
    → Steady e s
    → Restored (stream_of s) e s (speculated s steps)
unfolding speculated
speculated-Restored e s steps h =
    let g = scan ((begin_lookahead s).lexer) steps in
    let scanning =
      scan-Scanning (stream_of s) e s ((begin_lookahead s).lexer) steps (begun e s h) in
    subst (λ t. Restored (stream_of s) e s (drop_guard t)) (sym (entry_guard e s g h.entry))
      (drop-Place (stream_of s) e s g h.fits scanning scanning.place)
