-- ===== src/Source/Delivery.antt =====
-- What a reader of parser/src/source.rs delivers depends on its bound, its line counter and the lines
-- that it has still to deliver.
use perloxide.Prelude.{
  ℕ, zero, suc, ◌+◌, ◌-◌, length, take, ◌≡◌, refl, sym, ap, ◌∙◌, Bool, true, false, Option, none,
  some, List, [], ◌∷◌, if◌then◌else◌, ltb, Bool-cases, inl, inr, arith,
}
use perloxide.Source.Line.{LexerLine, set_eof}
use perloxide.Source.Reader.{
  Reader, top_bound, install_line, take_line, next_start, past_bound, deliver, next_line,
}
use perloxide.Source.Stream.{Key, key, line_of, stream, Rewound, nothing, line_taken, taken}

abbrev pub stream_of : Reader → List Key
stream_of r = stream r.queued_lines r.src r.cursor

-- The lines that so many deliveries give, up to the end.
unfoldable pub deliveries : ℕ → Reader → List LexerLine
unfolding next_line
deliveries zero r = []
deliveries (suc n) r =
    let (delivered, r') = next_line r in
    let more = deliveries n r' in
    if delivered then elim r'.current [ none ↦ more | some l ↦ l ∷ more ] else []

unfoldable pub delivered_from : ℕ → Option ℕ → ℕ → List Key → List LexerLine
delivered_from zero bound number ks = []
delivered_from (suc n) bound number [] = []
delivered_from (suc n) bound number (k ∷ ks) =
    let more = delivered_from n bound (number + 1) ks in
    if past_bound bound k.offset then [] else line_of k number bound ∷ more

-- A line in full.
abbrev whole : LexerLine → ℕ → LexerLine
whole l number = record l { number = number; line = l.full; terminated = l.full_terminated }

abbrev narrow : Bool → Bool → LexerLine → LexerLine → LexerLine → LexerLine
narrow before within full_line empty cut =
    if before then empty else if within then cut else full_line

pub line_of_lem :
    (l : LexerLine) (number : ℕ) (bound : Option ℕ)
    → l.pos ≡ l.indent
    → set_eof (record l { number = number }) bound ≡ line_of (key l) number bound
unfolding line_of key set_eof
line_of_lem l number none e = ap (λ p. record (whole l number) { pos = p }) e
line_of_lem l number (some g) e =
    ap
      (λ p.
        narrow (ltb g l.offset)
          (ltb g (l.offset + length l.full + (if l.full_terminated then 1 else 0)))
          (record (whole l number) { pos = p })
          (record (whole l number) { pos = p; line = []; terminated = false })
          (record (whole l number) {
            pos = p;
            line = take (g - l.offset) l.full;
            terminated = false;
          }))
      e

pub key-set_eof : (l : LexerLine) (bound : Option ℕ) → key (set_eof l bound) ≡ key l
unfolding key set_eof
key-set_eof l none = refl
key-set_eof l (some g) = ground arith

-- What a delivery does.
pub data Next (r : Reader) : Type 0 where
  stays :
      next_line r ≡ (false, r)
      → ((n : ℕ) → delivered_from n (top_bound r.context_stack) r.line_number (stream_of r) ≡ [])
      → Next r
  moves :
      (l : LexerLine) (queue : List LexerLine) (cursor' : ℕ)
      → next_line r ≡ (true, deliver (l, record r { queued_lines = queue; cursor = cursor' }))
      → past_bound (top_bound r.context_stack) l.offset ≡ false
      → stream_of r ≡ key l ∷ stream queue r.src cursor'
      → l.pos ≡ l.indent
      → Rewound queue
      → Next r

same_arms : {A : Type 0} (p : Bool) (x : A) → (if p then x else x) ≡ x
same_arms true x = refl
same_arms false x = refl

next_none : (r : Reader) → take_line r ≡ none → next_line r ≡ (false, r)
unfolding next_line
next_none r e =
    ap
      (λ t.
        if past_bound (top_bound r.context_stack) (next_start r)
        then (false, r)
        else elim t [ none ↦ (false, r) | some taken' ↦ (true, deliver taken') ])
      e
    ∙ same_arms (past_bound (top_bound r.context_stack) (next_start r)) (false, r)

next_some :
    (r : Reader) (t : LexerLine × Reader)
    → take_line r ≡ some t
    → past_bound (top_bound r.context_stack) (next_start r) ≡ false
    → next_line r ≡ (true, deliver t)
unfolding next_line
next_some r t e p =
    ap
      (λ t'.
        if past_bound (top_bound r.context_stack) (next_start r)
        then (false, r)
        else elim t' [ none ↦ (false, r) | some taken' ↦ (true, deliver taken') ])
      e
    ∙ ap (λ p'. if p' then (false, r) else (true, deliver t)) p

next_past :
    (r : Reader)
    → past_bound (top_bound r.context_stack) (next_start r) ≡ true
    → next_line r ≡ (false, r)
unfolding next_line
next_past r p = rw p refl

nothing_left : (n : ℕ) (bound : Option ℕ) (number : ℕ) → delivered_from n bound number [] ≡ []
unfolding delivered_from
nothing_left zero bound number = refl
nothing_left (suc n) bound number = refl

nothing_past :
    (n : ℕ) (bound : Option ℕ) (number : ℕ) (k : Key) (ks : List Key)
    → past_bound bound k.offset ≡ true
    → delivered_from n bound number (k ∷ ks) ≡ []
unfolding delivered_from
nothing_past zero bound number k ks e = refl
nothing_past (suc n) bound number k ks e = rw e refl

key_past :
    (l : LexerLine) (bound : Option ℕ) (start : ℕ)
    → start ≡ l.offset
    → past_bound bound start ≡ true
    → past_bound bound (key l).offset ≡ true
unfolding key
key_past l bound start o e = rw (← o) e

pub next : (r : Reader) → Rewound r.queued_lines → Next r
next r h = elim (taken r h) [
  | nothing e s ↦ stays (next_none r e) (λ n.
      ap (delivered_from n (top_bound r.context_stack) r.line_number) s
      ∙ nothing_left n (top_bound r.context_stack) r.line_number)
  | line_taken l queue c' e s p q o ↦
      elim (Bool-cases (past_bound (top_bound r.context_stack) (next_start r))) [
        | inl past ↦ stays (next_past r past) (λ n.
            ap (delivered_from n (top_bound r.context_stack) r.line_number) s
            ∙ nothing_past n (top_bound r.context_stack) r.line_number (key l)
                (stream queue r.src c')
                (key_past l (top_bound r.context_stack) (next_start r) o past))
        | inr inside ↦
            moves l queue c'
              (next_some r (l, record r { queued_lines = queue; cursor = c' }) e inside)
              (ap (past_bound (top_bound r.context_stack)) (sym o) ∙ inside) s p q
      ]
]

-- The reader after a delivery.
abbrev pub delivered_by : Reader → LexerLine → List LexerLine → ℕ → Reader
delivered_by r l queue cursor' = deliver (l, record r { queued_lines = queue; cursor = cursor' })

delivered_fields :
    (r : Reader) (l : LexerLine) (queue : List LexerLine) (c' : ℕ)
    → (let d = delivered_by r l queue c' in
        (d.current
          ≡ some (set_eof (record l { number = r.line_number }) (top_bound r.context_stack)))
        × (d.queued_lines ≡ queue)
        × (d.cursor ≡ c')
        × (d.line_number ≡ r.line_number + 1)
        × (d.context_stack ≡ r.context_stack)
        × (d.src ≡ r.src))
unfolding deliver install_line
delivered_fields r l queue c' = (refl, refl, refl, refl, refl, refl)

deliveries-some :
    (n : ℕ) (r d : Reader) (l : LexerLine)
    → next_line r ≡ (true, d)
    → d.current ≡ some l
    → deliveries (suc n) r ≡ l ∷ deliveries n d
unfolding deliveries
deliveries-some n r d l e c =
    ap
      (λ (p : Bool × Reader).
        if p.0
        then elim p.1.current [ none ↦ deliveries n p.1 | some l' ↦ l' ∷ deliveries n p.1 ]
        else [])
      e
    ∙ ap (λ t. elim t [ none ↦ deliveries n d | some l' ↦ l' ∷ deliveries n d ]) c

deliveries_none : (n : ℕ) (r : Reader) → next_line r ≡ (false, r) → deliveries (suc n) r ≡ []
unfolding deliveries
deliveries_none n r e =
    ap
      (λ (p : Bool × Reader).
        if p.0
        then elim p.1.current [ none ↦ deliveries n p.1 | some l' ↦ l' ∷ deliveries n p.1 ]
        else [])
      e

delivered_some :
    (n : ℕ) (bound : Option ℕ) (number : ℕ) (k : Key) (ks : List Key)
    → past_bound bound k.offset ≡ false
    → delivered_from (suc n) bound number (k ∷ ks)
      ≡ line_of k number bound ∷ delivered_from n bound (number + 1) ks
unfolding delivered_from
delivered_some n bound number k ks e = rw e refl

no_deliveries :
    (r : Reader) (b : Option ℕ) (m : ℕ) (ks : List Key)
    → deliveries zero r ≡ delivered_from zero b m ks
unfolding deliveries delivered_from
no_deliveries r b m ks = refl

key_offset : (l : LexerLine) → (key l).offset ≡ l.offset
unfolding key
key_offset l = refl

-- The deliveries are those of the stream.
pub deliveries-stream :
    (n : ℕ) (r : Reader)
    → Rewound r.queued_lines
    → deliveries n r ≡ delivered_from n (top_bound r.context_stack) r.line_number (stream_of r)
unfolding deliver install_line
deliveries-stream zero r h = no_deliveries r (top_bound r.context_stack) r.line_number (stream_of r)
deliveries-stream (suc n) r h = elim (next r h) [
  | stays e s ↦ deliveries_none n r e ∙ sym (s (suc n))
  | moves l queue c' e p s pos q ↦
      let b = top_bound r.context_stack in
      let d = delivered_by r l queue c' in
      let (cur, que, csr, num, stk, txt) = delivered_fields r l queue c' in
      deliveries-some n r d (set_eof (record l { number = r.line_number }) b) e cur
      ∙ ap (λ t. t ∷ deliveries n d) (line_of_lem l r.line_number b pos)
      ∙ ap (λ t. line_of (key l) r.line_number b ∷ t) (deliveries-stream n d q)
      ∙ sym (
          delivered_some n b r.line_number (key l) (stream queue r.src c')
            (ap (past_bound b) (key_offset l) ∙ p))
      ∙ ap (delivered_from (suc n) b r.line_number) (sym s)
]
