-- ===== src/Source/Line.antt =====
-- `LexerLine` of parser/src/source.rs: a physical line, its view under an end-of-file bound, and the
-- cursor in it. Positions are exact: a source is shorter than 2^32 bytes.
use perloxide.Prelude.{
  ℕ, ◌+◌, ◌-◌, Bool, false, ◌&&◌, Option, none, some, List, [], ltb, ◌==◌, if◌then◌else◌, length,
  get_or, take, drop,
}

pub record LexerLine : Type 0 where
  pub number : ℕ
  pub offset : ℕ
  pub line : List ℕ
  pub terminated : Bool
  pub indent : ℕ
  pub pos : ℕ
  pub ascii_only : Bool
  pub full : List ℕ
  pub full_terminated : Bool

unfoldable pub new_line : ℕ → List ℕ → Bool → Bool → LexerLine
new_line offset content terminated ascii_only = record {
  number = 0;
  offset = offset;
  line = content;
  terminated = terminated;
  indent = 0;
  pos = 0;
  ascii_only = ascii_only;
  full = content;
  full_terminated = terminated;
}

-- One past the virtual newline.
unfoldable pub extent : LexerLine → ℕ
extent l = l.offset + length l.full + (if l.full_terminated then 1 else 0)

unfoldable pub set_eof : LexerLine → Option ℕ → LexerLine
unfolding extent
set_eof l none = record l { line = l.full; terminated = l.full_terminated }
set_eof l (some g) =
    if ltb g l.offset
    then record l { line = []; terminated = false }
    else if ltb g (extent l)
    then record l { line = take (g - l.offset) l.full; terminated = false }
    else record l { line = l.full; terminated = l.full_terminated }

unfoldable pub peek_byte_at : LexerLine → ℕ → Option ℕ
peek_byte_at l offset =
    let idx = l.pos + offset in
    if ltb idx (length l.line)
    then some (get_or l.line idx 0)
    else if idx == length l.line && l.terminated
    then some b'\n'
    else none

unfoldable pub peek_byte : LexerLine → Option ℕ
peek_byte l =
    if ltb l.pos (length l.line)
    then some (get_or l.line l.pos 0)
    else if l.pos == length l.line && l.terminated
    then some b'\n'
    else none

unfoldable pub advance_byte : LexerLine → Option ℕ × LexerLine
advance_byte l =
    if ltb l.pos (length l.line)
    then (some (get_or l.line l.pos 0), record l { pos = l.pos + 1 })
    else if l.pos == length l.line && l.terminated
    then (some b'\n', record l { pos = l.pos + 1 })
    else (none, l)

unfoldable pub remaining : LexerLine → List ℕ
remaining l = if ltb l.pos (length l.line) then drop l.pos l.line else []

unfoldable pub global_pos : LexerLine → ℕ
global_pos l = l.offset + l.pos
