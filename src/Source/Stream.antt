-- ===== src/Source/Stream.antt =====
-- The lines that a reader of parser/src/source.rs has still to deliver, as one list: its queue, then
-- what it will read.
use Prim.Native.Nat.{bit_or}
use perloxide.Prelude.{
  ℕ, zero, suc, ◌+◌, ◌≤◌, ◌<◌, ◌≡◌, ◌≢◌, refl, sym, ap, ◌∙◌, Bool, true, Option, none, some, List,
  [], ◌∷◌, ◌++◌, map, ltb, leb, if◌then◌else◌, length, drop, All, Bool-cases, Option-cases,
  some_inj, inl, inr, arith,
}
use perloxide.Source.Line.{LexerLine, new_line, set_eof}
use perloxide.Source.Raw.{RawLine, scan_line, read_raw_line}
use perloxide.Source.Reader.{Reader, take_line, next_start}

-- What a line is apart from its delivery.
pub record Key : Type 0 where
  pub offset : ℕ
  pub full : List ℕ
  pub full_terminated : Bool
  pub indent : ℕ
  pub ascii_only : Bool

unfoldable pub key : LexerLine → Key
key l = record {
  offset = l.offset;
  full = l.full;
  full_terminated = l.full_terminated;
  indent = l.indent;
  ascii_only = l.ascii_only;
}

-- The line that a delivery makes of it.
unfoldable pub line_of : Key → ℕ → Option ℕ → LexerLine
line_of k number bound =
    set_eof
      (record {
        number = number;
        offset = k.offset;
        line = k.full;
        terminated = k.full_terminated;
        indent = k.indent;
        pos = k.indent;
        ascii_only = k.ascii_only;
        full = k.full;
        full_terminated = k.full_terminated;
      })
      bound

pub raw_key : RawLine → Key
raw_key raw = record {
  offset = raw.offset;
  full = raw.content;
  full_terminated = raw.terminated;
  indent = 0;
  ascii_only = raw.ascii_only;
}

scan_line-grows :
    (bytes : List ℕ) (end bits : ℕ)
    → (end ≤ (scan_line bytes end bits).0) × ((scan_line bytes end bits).0 ≤ end + length bytes)
unfolding scan_line
scan_line-grows [] end bits = (omega arith, omega arith)
scan_line-grows (b ∷ bs) end bits =
    let rest = scan_line-grows bs (end + 1) (bit_or bits b) in (ground arith, ground arith)

pub read_end : (src : List ℕ) (c : ℕ) → length src ≤ c → read_raw_line src c ≡ none
unfolding read_raw_line
read_end src c h = let past : leb (length src) c ≡ true = ground arith in rw past refl

none-ne-some : {p : RawLine × ℕ} → none ≢ some p
none-ne-some e = cc

-- Reading moves the cursor, and past the end there is nothing.
pub read-moves :
    (src : List ℕ) (c : ℕ) (raw : RawLine) (c' : ℕ)
    → read_raw_line src c ≡ some (raw, c')
    → (c < c') × (c < length src)
unfolding read_raw_line
read-moves src c raw c' h = elim (Bool-cases (leb (length src) c)) [
  | inl past ↦ absurd (none-ne-some (sym (read_end src c (ground arith)) ∙ h))
  | inr inside ↦
      let end = (scan_line (drop c src) c 0).0 in
      let next : (if ltb end (length src) then end + 1 else end) ≡ c' =
        ap (λ (p : RawLine × ℕ). p.1) (some_inj (rw inside at h)) in
      let grows = (scan_line-grows (drop c src) c 0).0 in (ground arith, ground arith)
]

pub raws : ℕ → List ℕ → ℕ → List Key
raws zero src c = []
raws (suc fuel) src c = elim (read_raw_line src c) [
  | none ↦ []
  | some (raw, c') ↦ raw_key raw ∷ raws fuel src c'
]

raws-none : (f : ℕ) (src : List ℕ) (c : ℕ) → read_raw_line src c ≡ none → raws f src c ≡ []
unfolding raws
raws-none zero src c e = refl
raws-none (suc f) src c e = rw (e, raws) refl

raws-some :
    (f : ℕ) (src : List ℕ) (c : ℕ) (raw : RawLine) (c' : ℕ)
    → read_raw_line src c ≡ some (raw, c')
    → raws (suc f) src c ≡ raw_key raw ∷ raws f src c'
unfolding raws
raws-some f src c raw c' e = rw (e, raws) refl

-- More rounds than bytes change nothing.
raws-enough :
    (f g : ℕ) (src : List ℕ) (c : ℕ)
    → length src ≤ c + f
    → length src ≤ c + g
    → raws f src c ≡ raws g src c
raws-enough zero g src c h k =
    let none_left = read_end src c (omega arith) in
    raws-none 0 src c none_left ∙ sym (raws-none g src c none_left)
raws-enough (suc f) zero src c h k =
    let none_left = read_end src c (omega arith) in
    raws-none (suc f) src c none_left ∙ sym (raws-none 0 src c none_left)
raws-enough (suc f) (suc g) src c h k = elim (Option-cases (read_raw_line src c)) [
  | inl e ↦ raws-none (suc f) src c e ∙ sym (raws-none (suc g) src c e)
  | inr ((raw, c'), e) ↦
      let moves = read-moves src c raw c' e in
      raws-some f src c raw c' e
      ∙ ap (λ t. raw_key raw ∷ t) (raws-enough f g src c' (omega arith) (omega arith))
      ∙ sym (raws-some g src c raw c' e)
]

unfoldable pub stream : List LexerLine → List ℕ → ℕ → List Key
stream queue src cursor = map key queue ++ raws (length src) src cursor

-- Queued lines stand at their indent.
abbrev pub Rewound : List LexerLine → Type 0
Rewound = All (λ (l : LexerLine). l.pos ≡ l.indent)

stream_read :
    (src : List ℕ) (c : ℕ) (raw : RawLine) (c' : ℕ)
    → read_raw_line src c ≡ some (raw, c')
    → stream [] src c ≡ raw_key raw ∷ stream [] src c'
unfolding stream
stream_read src c raw c' e =
    let moves = read-moves src c raw c' e in
    raws-enough (length src) (suc (length src)) src c (omega arith) (omega arith)
    ∙ raws-some (length src) src c raw c' e

stream_end : (src : List ℕ) (c : ℕ) → read_raw_line src c ≡ none → stream [] src c ≡ []
unfolding stream
stream_end src c e = raws-none (length src) src c e

-- What is taken from a reader: the head of its stream.
pub data Taken (r : Reader) : Type 0 where
  nothing : take_line r ≡ none → stream r.queued_lines r.src r.cursor ≡ [] → Taken r
  line_taken :
      (l : LexerLine) (queue : List LexerLine) (cursor' : ℕ)
      → take_line r ≡ some (l, record r { queued_lines = queue; cursor = cursor' })
      → stream r.queued_lines r.src r.cursor ≡ key l ∷ stream queue r.src cursor'
      → l.pos ≡ l.indent
      → Rewound queue
      → next_start r ≡ l.offset
      → Taken r

read-offset :
    (src : List ℕ) (c : ℕ) (raw : RawLine) (c' : ℕ)
    → read_raw_line src c ≡ some (raw, c')
    → raw.offset ≡ c
unfolding read_raw_line
read-offset src c raw c' h = elim (Bool-cases (leb (length src) c)) [
  | inl past ↦ absurd (none-ne-some (sym (read_end src c (ground arith)) ∙ h))
  | inr inside ↦ ap (λ (p : RawLine × ℕ). p.0.offset) (sym (some_inj (rw inside at h)))
]

fresh_line : RawLine → LexerLine
fresh_line raw = new_line raw.offset raw.content raw.terminated raw.ascii_only

fresh_key :
    (raw : RawLine)
    → (key (fresh_line raw) ≡ raw_key raw) × ((fresh_line raw).pos ≡ (fresh_line raw).indent)
unfolding key fresh_line new_line raw_key
fresh_key raw = (refl, refl)

fresh_offset : (raw : RawLine) → (fresh_line raw).offset ≡ raw.offset
unfolding fresh_line new_line
fresh_offset raw = refl

taken_fresh :
    (r : Reader) (raw : RawLine) (c' : ℕ)
    → read_raw_line r.src r.cursor ≡ some (raw, c')
    → take_line (record r { queued_lines = [] })
      ≡ some (fresh_line raw, record r { queued_lines = []; cursor = c' })
unfolding take_line fresh_line
taken_fresh r raw c' e =
    ap
      (λ t. elim t [
        | none ↦ none
        | some (raw', c'') ↦ some (
          new_line raw'.offset raw'.content raw'.terminated raw'.ascii_only,
          record r { queued_lines = []; cursor = c'' },
        )
      ])
      e

taken_none :
    (r : Reader)
    → read_raw_line r.src r.cursor ≡ none
    → take_line (record r { queued_lines = [] }) ≡ none
unfolding take_line
taken_none r e =
    ap
      (λ t. elim t [
        | none ↦ none
        | some (raw', c'') ↦ some (
          new_line raw'.offset raw'.content raw'.terminated raw'.ascii_only,
          record r { queued_lines = []; cursor = c'' },
        )
      ])
      e

Taken-next :
    (queue : List LexerLine) (r : Reader)
    → Rewound queue
    → Taken (record r { queued_lines = queue })
Taken-next (l ∷ ls) r h =
    line_taken l ls r.cursor (unfold take_line in refl) (unfold stream in refl) h.0 h.1
      (unfold next_start in refl)
Taken-next [] r h = elim (Option-cases (read_raw_line r.src r.cursor)) [
  | inl e ↦ nothing (taken_none r e) (stream_end r.src r.cursor e)
  | inr ((raw, c'), e) ↦
      line_taken (fresh_line raw) [] c' (taken_fresh r raw c' e)
        (stream_read r.src r.cursor raw c' e
          ∙ ap (λ k. k ∷ stream [] r.src c') (sym (fresh_key raw).0))
        (fresh_key raw).1 tt
        (unfold next_start in (sym (read-offset r.src r.cursor raw c' e) ∙ sym (fresh_offset raw)))
]

pub taken : (r : Reader) → Rewound r.queued_lines → Taken r
taken r h = Taken-next r.queued_lines r h
