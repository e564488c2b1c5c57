-- ===== src/Source/Raw.antt =====
-- `read_raw_line` of parser/src/source.rs.
use Prim.Native.Nat.{bit_or}
use perloxide.Prelude.{
  ℕ, ◌+◌, ◌-◌, Bool, ◌&&◌, Option, none, some, List, [], ◌∷◌, ltb, leb, ◌==◌, if◌then◌else◌, length,
  get_or, take, drop,
}

pub record RawLine : Type 0 where
  pub offset : ℕ
  pub content : List ℕ
  pub terminated : Bool
  pub ascii_only : Bool

-- The bytes before the first newline: their number, and their bits together.
unfoldable pub scan_line : List ℕ → ℕ → ℕ → ℕ × ℕ
scan_line [] end bits_used = (end, bits_used)
scan_line (byte ∷ bytes) end bits_used =
    let more = scan_line bytes (end + 1) (bit_or bits_used byte) in
    if byte == b'\n' then (end, bits_used) else more

-- The line at a cursor, and the cursor past it.
unfoldable pub read_raw_line : List ℕ → ℕ → Option (RawLine × ℕ)
unfolding scan_line
read_raw_line src start =
    let (end, bits_used) = scan_line (drop start src) start 0 in
    let terminated = ltb end (length src) in
    let content_end =
      if terminated && ltb start end && get_or src (end - 1) 0 == b'\r' then end - 1 else end in
    let raw : RawLine = record {
      offset = start;
      content = take (content_end - start) (drop start src);
      terminated = terminated;
      ascii_only = ltb bits_used 0x80;
    } in
    if leb (length src) start then none else some (raw, if terminated then end + 1 else end)
