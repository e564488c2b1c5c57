-- ===== src/Source/Lookahead.antt =====
-- `Lookahead` of parser/src/source.rs: a speculative scan, and the guard's drop.
use perloxide.Prelude.{
  ℕ, zero, suc, ◌+◌, Bool, true, false, not, Option, none, some, List, [], ◌∷◌, map, ltb,
  if◌then◌else◌,
}
use perloxide.Source.Line.{LexerLine}
use perloxide.Source.Reader.{Frame, Reader, push_back, install_line, next_line}

-- The guard: the reader, the cursor at entry, and the bound that was borrowed.
pub record Guard : Type 0 where
  pub lexer : Reader
  pub entry_pos : ℕ
  pub saved_bound : Option (Option ℕ)

unfoldable pub pos_of : Option LexerLine → ℕ
pos_of none = 0
pos_of (some l) = l.pos

unfoldable pub begin_lookahead : Reader → Guard
unfolding pos_of
begin_lookahead r = record {
  lexer = record r { lookahead_offset = none; lookahead_pos = none; lookahead_mode = true };
  entry_pos = pos_of r.current;
  saved_bound = none;
}

-- The bound of the top frame, replaced.
unfoldable pub set_top : List Frame → Option ℕ → List Frame
set_top [] bound = []
set_top (c ∷ cs) bound = record c { bound = bound } ∷ cs

unfoldable pub lookahead_to : Reader → Option ℕ → Guard
unfolding pos_of set_top
lookahead_to r ceiling = record {
  lexer = record r {
    lookahead_offset = none;
    lookahead_pos = none;
    lookahead_mode = true;
    context_stack = set_top r.context_stack ceiling;
  };
  entry_pos = pos_of r.current;
  saved_bound = elim r.context_stack [ [] ↦ none | c ∷ cs ↦ some c.bound ];
}

-- The line where the scan began, and what is captured without it.
unfoldable pub reclaim : Reader → Option LexerLine × Reader
reclaim r = elim r.lookahead [
  | entry ∷ captured ↦ (some entry, record r { lookahead = captured })
  | [] ↦ (r.current, record r { current = none })
]

unfoldable pub reinstall : Option LexerLine × Reader → ℕ → Reader
unfolding install_line
reinstall (none, r) entry_pos = r
reinstall (some entry, r) entry_pos = install_line r (record entry { pos = entry_pos })

abbrev pub rewound : List LexerLine → List LexerLine
rewound = map (λ (l : LexerLine). record l { pos = l.indent })

unfoldable pub is_empty : List LexerLine → Bool
is_empty [] = true
is_empty (l ∷ ls) = false

unfoldable pub drop_guard : Guard → Reader
unfolding set_top pos_of reclaim reinstall push_back is_empty
drop_guard g =
    let lx : Reader = elim g.saved_bound [
      | some old ↦ record g.lexer { context_stack = set_top g.lexer.context_stack old }
      | none ↦ g.lexer
    ] in
    let end_offset : Option ℕ = elim lx.current [ none ↦ none | some l ↦ some l.offset ] in
    let end_pos = pos_of lx.current in
    let displaced = not (is_empty lx.lookahead) in
    let restored = reinstall (reclaim lx) g.entry_pos in
    let replayed = push_back (record restored { lookahead = [] }) (rewound restored.lookahead) in
    record replayed {
      lookahead_offset = if displaced then end_offset else none;
      lookahead_pos = some end_pos;
      line_number = elim replayed.current [ some l ↦ l.number + 1 | none ↦ replayed.line_number ];
      lookahead_mode = false;
    }

-- Normal delivery up to the line where the scan ended; `none` where it is out of reach.
unfoldable pub deliver_to_end : ℕ → Reader → Option Reader
unfolding next_line
deliver_to_end zero r = none
deliver_to_end (suc fuel) r = elim r.lookahead_offset [
  | none ↦ some r
  | some off ↦
      let (delivered, r') = next_line r in
      let rest = deliver_to_end fuel r' in if delivered then rest else none
]

-- The cursor at the end of the scan, unless it is past it.
unfoldable pub resume : Reader → Reader
resume r = elim r.lookahead_pos [
  | none ↦ r
  | some end_pos ↦ record r {
    lookahead_pos = none;
    current = elim r.current [
      | none ↦ none
      | some l ↦ some (if ltb l.pos end_pos then record l { pos = end_pos } else l)
    ];
  }
]

unfoldable pub consume_lookahead : ℕ → Reader → Option Reader
unfolding deliver_to_end resume
consume_lookahead fuel r = elim (deliver_to_end fuel r) [ none ↦ none | some r' ↦ some (resume r') ]
