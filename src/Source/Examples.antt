-- ===== src/Source/Examples.antt =====
-- Runs of the source reader of parser/src/source.rs, and its theorems at one input each.
use perloxide.Prelude.{
  ℕ, ◌≡◌, refl, true, false, Option, none, some, codes, List, [], ◌∷◌, ◌++◌, map, All, arith,
}
use perloxide.Source.Line.{LexerLine, set_eof}
use perloxide.Source.Reader.{Frame, Reader, top_bound}
use perloxide.Source.Lookahead.{consume_lookahead}
use perloxide.Source.Utf16.{detect_and_transcode}
use perloxide.Source.Encodings.{IsScalar, utf8, utf16, detect-mark}
use perloxide.Source.Delivery.{deliveries}
use perloxide.Source.Scanning.{ScanStep, read_on, move_to, renumber}
use perloxide.Source.Speculate.{Steady, speculated}
use perloxide.Source.Resumed.{unnumbered, lookahead_resumes}

-- Three lines, of which the first is delivered, in a frame that ends inside the last.
abbrev first_line : LexerLine
first_line = record {
  number = 1;
  offset = 0;
  line = codes "ab";
  terminated = true;
  indent = 0;
  pos = 1;
  ascii_only = true;
  full = codes "ab";
  full_terminated = true;
}

abbrev three_lines : Reader
three_lines = record {
  src = codes "ab" ++ (10 ∷ codes "cd") ++ (10 ∷ codes "ef") ++ (10 ∷ []);
  cursor = 3;
  line_number = 2;
  current = some first_line;
  queued_lines = [];
  context_stack = record { suspended = none; bound = some 7 } ∷ [];
  utf8_mode = false;
  effective_utf8 = false;
  lookahead_mode = false;
  lookahead = [];
  lookahead_offset = none;
  lookahead_pos = none;
}

three_lines-Steady : Steady first_line three_lines
three_lines-Steady = record {
  entry = refl;
  fits = unfold set_eof top_bound in refl;
  idle = refl;
  captured = refl;
  queue = tt;
}

-- A scan to the end, across a directive.
abbrev far : List ScanStep
far = read_on ∷ move_to 2 ∷ renumber 40 ∷ read_on ∷ read_on ∷ []

-- The euro sign and an emoji.
abbrev signs : List ℕ
signs = 0x20AC ∷ 0x1F600 ∷ []

signs-IsScalar : All IsScalar signs
signs-IsScalar = ground arith

lookahead_resumes_example :
    Steady first_line (speculated three_lines far)
    × ((speculated three_lines far).context_stack ≡ three_lines.context_stack)
    × ((speculated three_lines far).line_number ≡ 2)
    × ((n : ℕ)
        → (deliveries n (speculated three_lines far)
            ≡ deliveries n (record three_lines { line_number = 2 }))
          × (map unnumbered (deliveries n (speculated three_lines far))
              ≡ map unnumbered (deliveries n three_lines)))
lookahead_resumes_example = lookahead_resumes first_line three_lines far three_lines-Steady

-- The end of a frame that was pushed on the first line and delivered three more.
abbrev body_frame : Frame
body_frame = record { suspended = some first_line; bound = some 9 }

abbrev body_read : Reader
body_read = record three_lines {
  line_number = 5;
  context_stack = body_frame ∷ three_lines.context_stack;
}

detect-mark_example :
    (detect_and_transcode (0xFF ∷ 0xFE ∷ utf16 true signs) ≡ (utf8 signs, true))
    × (detect_and_transcode (0xFE ∷ 0xFF ∷ utf16 false signs) ≡ (utf8 signs, true))
    × (detect_and_transcode (0xEF ∷ 0xBB ∷ 0xBF ∷ codes "1;") ≡ (codes "1;", true))
detect-mark_example = detect-mark signs (codes "1;") signs-IsScalar

-- What a reader shows of its current line: its number and cursor.
abbrev position : Option Reader → Option (ℕ × ℕ)
position r = elim r [
  | none ↦ none
  | some s ↦ elim s.current [ none ↦ none | some l ↦ some (l.number, l.pos) ]
]

-- Committing to a scan that ended in the second line, and none to commit to past the bound.
consumes_lookahead :
    (position (consume_lookahead 3 (speculated three_lines (read_on ∷ move_to 2 ∷ [])))
      ≡ some (2, 2))
    × (position (consume_lookahead 3 three_lines) ≡ some (1, 1))
    × (position (consume_lookahead 3 (record three_lines { lookahead_offset = some 9 })) ≡ none)
unfolding consume_lookahead speculated
consumes_lookahead = (refl, refl, refl)

-- An unpaired surrogate without a mark in front.
transcodes_unpaired :
    detect_and_transcode (0x61 ∷ 0 ∷ 0x62 ∷ 0 ∷ 0 ∷ 0xD8 ∷ [])
    ≡ (codes "ab" ++ (0xEF ∷ 0xBF ∷ 0xBD ∷ []), true)
unfolding detect_and_transcode
transcodes_unpaired = refl
