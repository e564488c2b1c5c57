-- ===== src/Source/Reader.antt =====
-- The delivery of lines in parser/src/source.rs: the replay queue, the bound of the top frame, and
-- the window of a lookahead. A stack has its top first, and a frame its part in the delivery.
use perloxide.Prelude.{
  ℕ, ◌+◌, Bool, true, false, ◌&&◌, not, Option, none, some, List, [], ◌∷◌, ◌++◌, ltb, ◌==◌,
  if◌then◌else◌,
}
use perloxide.Source.Line.{LexerLine, new_line, set_eof}
use perloxide.Source.Raw.{read_raw_line}

-- `LexContext`: the suspended line and the bound.
pub record Frame : Type 0 where
  pub suspended : Option LexerLine
  pub bound : Option ℕ

-- The fields of `Parser` that the source layer keeps.
pub record Reader : Type 0 where
  pub src : List ℕ
  pub cursor : ℕ
  pub line_number : ℕ
  pub current : Option LexerLine
  pub queued_lines : List LexerLine
  pub context_stack : List Frame
  pub utf8_mode : Bool
  pub effective_utf8 : Bool
  pub lookahead_mode : Bool
  pub lookahead : List LexerLine
  pub lookahead_offset : Option ℕ
  pub lookahead_pos : Option ℕ

-- `context_stack.last().and_then(|c| c.bound)`
unfoldable pub top_bound : List Frame → Option ℕ
top_bound [] = none
top_bound (c ∷ cs) = c.bound

-- `# line N`: not during a scan.
unfoldable pub set_line_number : Reader → ℕ → Reader
set_line_number r n = if r.lookahead_mode then r else record r { line_number = n }

unfoldable pub push_back : Reader → List LexerLine → Reader
push_back r lines = record r { queued_lines = lines ++ r.queued_lines }

-- The displaced line is captured during a lookahead.
unfoldable pub capture : Bool → List LexerLine → Option LexerLine → List LexerLine
capture true lookahead (some displaced) = lookahead ++ (displaced ∷ [])
capture true lookahead none = lookahead
capture false lookahead line = lookahead

-- The window of `consume_lookahead` after the delivery of a line at an offset.
unfoldable pub close_window : Option ℕ → Option ℕ → ℕ → Option ℕ × Option ℕ
close_window (some off) window_pos at = (if at == off then none else some off, window_pos)
close_window none window_pos at = (none, none)

unfoldable pub install_line : Reader → LexerLine → Reader
unfolding top_bound capture close_window set_eof
install_line r l =
    let narrowed = set_eof l (top_bound r.context_stack) in
    let (window, window_pos) =
      if r.lookahead_mode
      then (r.lookahead_offset, r.lookahead_pos)
      else close_window r.lookahead_offset r.lookahead_pos l.offset in
    record r {
      lookahead = capture r.lookahead_mode r.lookahead r.current;
      effective_utf8 = r.utf8_mode && not l.ascii_only;
      current = some narrowed;
      lookahead_offset = window;
      lookahead_pos = window_pos;
    }

-- The line that comes next and the reader without it: replayed, else freshly read.
unfoldable pub take_line : Reader → Option (LexerLine × Reader)
unfolding read_raw_line new_line
take_line r = elim r.queued_lines [
  | l ∷ ls ↦ some (l, record r { queued_lines = ls })
  | [] ↦ elim (read_raw_line r.src r.cursor) [
    | none ↦ none
    | some (raw, cursor') ↦ some (
      new_line raw.offset raw.content raw.terminated raw.ascii_only,
      record r { cursor = cursor' },
    )
  ]
]

unfoldable pub next_start : Reader → ℕ
next_start r = elim r.queued_lines [ l ∷ ls ↦ l.offset | [] ↦ r.cursor ]

-- `some(b) && next_start > b`
unfoldable pub past_bound : Option ℕ → ℕ → Bool
past_bound none start = false
past_bound (some b) start = ltb b start

-- The stamp of a delivery.
unfoldable pub deliver : LexerLine × Reader → Reader
unfolding install_line
deliver (l, r) =
    install_line (record r { line_number = r.line_number + 1 })
      (record l { number = r.line_number })

-- Whether a line was delivered, and the reader; without one the current line stays.
unfoldable pub next_line : Reader → Bool × Reader
unfolding top_bound next_start past_bound take_line deliver
next_line r =
    if past_bound (top_bound r.context_stack) (next_start r)
    then (false, r)
    else elim (take_line r) [ none ↦ (false, r) | some taken ↦ (true, deliver taken) ]

-- The popped frame, with the parent's line as the current one.
unfoldable pub pop_context : Reader → Option (Frame × Reader)
unfolding set_eof top_bound
pop_context r = elim r.context_stack [
  | [] ↦ none
  | ctx ∷ rest ↦ some (
    record ctx { suspended = none },
    record r {
      context_stack = rest;
      current = elim ctx.suspended [ none ↦ none | some l ↦ some (set_eof l (top_bound rest)) ];
    },
  )
]
