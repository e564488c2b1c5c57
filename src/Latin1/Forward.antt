-- ===== src/Latin1/Forward.antt =====
-- The contraction in place of core/src/cow_buffer.rs against the encoding taken byte by byte.
use mathlib.Core.List.{append_assoc}
use perloxide.Prelude.{
  ℕ, zero, suc, ◌+◌, ◌≤◌, ◌<◌, ◌≡◌, refl, sym, ap, ◌∙◌, true, false, List, [], ◌∷◌, ◌++◌, ltb, leb,
  if◌then◌else◌, length, length-append, get_or, set, All, inl, inr, Bool-cases, arith,
}
use perloxide.Prelude.Bits.{IsByte}
use perloxide.Latin1.Words.{count_high}
use perloxide.Latin1.Transform.{lead_of, trail_of, contract}
use perloxide.Latin1.Upgrade.{upgrade}
use perloxide.Latin1.Downgrade.{lead_of-IsPair}
use perloxide.Latin1.InPlace.{contract_in_loop, contract_latin1_in_place}
use perloxide.Latin1.Backward.{read_at, write_at}

-- A list that is not empty, with its first element apart.
record IsCons (xs : List ℕ) : Type 0 where
  first : ℕ
  others : List ℕ
  joins : xs ≡ first ∷ others

nonempty-IsCons : (xs : List ℕ) → 0 < length xs → IsCons xs
nonempty-IsCons [] h = absurd (omega arith)
nonempty-IsCons (x ∷ xs) h = record { first = x; others = xs; joins = refl }

-- What the loop leaves: the content after what was written, then bytes that are left over.
record IsContracted (fuel : ℕ) (written gap content after mem : List ℕ) (old_len src dst : ℕ)
    : Type 0 where
  left_over : List ℕ
  lands :
      contract_in_loop fuel mem old_len src dst
      ≡ (written ++ (content ++ (left_over ++ after)), length written + length content)
  size : length left_over ≡ length gap + count_high content

-- One round: the gap and the bytes that were read make the next gap, a byte shorter.
record IsMoved (written gap encoded rest mem : List ℕ) (dst v b : ℕ) : Type 0 where
  next : List ℕ
  wrote : set mem dst v ≡ (written ++ b ∷ []) ++ (next ++ rest)
  size : length next + 1 ≡ length gap + length encoded

round-IsMoved :
    (written gap encoded rest mem : List ℕ) (dst v b : ℕ)
    → mem ≡ written ++ (gap ++ (encoded ++ rest))
    → 0 < length encoded
    → dst ≡ length written
    → v ≡ b
    → IsMoved written gap encoded rest mem dst v b
round-IsMoved written gap encoded rest mem dst v b m h d e =
    let joined = length-append gap encoded in
    let c = nonempty-IsCons (gap ++ encoded) (omega (arith, joined)) in
    let start : mem ≡ written ++ c.first ∷ (c.others ++ rest) =
      m
      ∙ ap (λ xs. written ++ xs)
          (sym (append_assoc gap encoded rest) ∙ ap (λ xs. xs ++ rest) c.joins) in
    record {
      next = c.others;
      wrote =
          (λ i. set mem dst (e i))
          ∙ write_at written (c.others ++ rest) mem c.first b dst start d
          ∙ sym (append_assoc written (b ∷ []) (c.others ++ rest));
      size = omega (arith, ap length c.joins, joined);
    }

read_gap :
    (written gap rest mem : List ℕ) (b src : ℕ)
    → mem ≡ written ++ (gap ++ b ∷ rest)
    → src ≡ length written + length gap
    → get_or mem src 0 ≡ b
read_gap written gap rest mem b src m s =
    read_at (written ++ gap) rest mem b src (m ∙ sym (append_assoc written gap (b ∷ rest)))
      (omega (arith, length-append written gap))

rejoined :
    (written bs rest : List ℕ) (b : ℕ)
    → (let r : List ℕ × ℕ =
          ((written ++ b ∷ []) ++ (bs ++ rest), length (written ++ b ∷ []) + length bs) in
        r)
      ≡ (written ++ (b ∷ bs ++ rest), length written + suc (length bs))
rejoined written bs rest b =
    let size : length (written ++ b ∷ []) + length bs ≡ length written + suc (length bs) =
      omega (arith, length-append written (b ∷ [])) in
    λ i. (append_assoc written (b ∷ []) (bs ++ rest) i, size i)

-- A round and the rest of the loop.
after_round :
    (fuel : ℕ) (written next gap bs after mem mem' : List ℕ) (old_len src src' dst b : ℕ)
    → IsContracted fuel (written ++ b ∷ []) next bs after mem' old_len src' (dst + 1)
    → contract_in_loop (suc fuel) mem old_len src dst
      ≡ contract_in_loop fuel mem' old_len src' (dst + 1)
    → length next ≡ length gap + (if leb 0x80 b then 1 else 0)
    → IsContracted (suc fuel) written gap (b ∷ bs) after mem old_len src dst
unfolding count_high
after_round fuel written next gap bs after mem mem' old_len src src' dst b k step size = record {
  left_over = k.left_over;
  lands = step ∙ k.lands ∙ rejoined written bs (k.left_over ++ after) b;
  size = omega (arith, k.size, size);
}

pair_read :
    (written gap rest mem : List ℕ) (b src : ℕ)
    → contract (lead_of b) (trail_of b) ≡ b
    → mem ≡ written ++ (gap ++ lead_of b ∷ trail_of b ∷ rest)
    → src ≡ length written + length gap
    → contract (get_or mem src 0) (get_or mem (src + 1) 0) ≡ b
pair_read written gap rest mem b src back m s =
    let apart : mem ≡ written ++ ((gap ++ lead_of b ∷ []) ++ trail_of b ∷ rest) =
      m ∙ ap (λ xs. written ++ xs) (sym (append_assoc gap (lead_of b ∷ []) (trail_of b ∷ rest))) in
    let lead = read_gap written gap (trail_of b ∷ rest) mem (lead_of b) src m s in
    let trail =
      read_gap written (gap ++ lead_of b ∷ []) rest mem (trail_of b) (src + 1) apart
        (omega (arith, length-append gap (lead_of b ∷ []))) in
    (λ i. contract (lead i) (trail i)) ∙ back

contract_in_loop_lem :
    (fuel : ℕ) (written gap content after mem : List ℕ) (old_len src dst : ℕ)
    → All IsByte content
    → mem ≡ written ++ (gap ++ (upgrade content ++ after))
    → dst ≡ length written
    → src ≡ length written + length gap
    → old_len ≡ src + length (upgrade content)
    → length (upgrade content) ≤ fuel
    → IsContracted fuel written gap content after mem old_len src dst
unfolding upgrade contract_in_loop count_high
contract_in_loop_lem zero written gap [] after mem old_len src dst h m d s o l = record {
  left_over = gap;
  lands = λ i. (m i, (let e : dst ≡ length written + 0 = omega arith in e) i);
  size = omega arith;
}
contract_in_loop_lem zero written gap (b ∷ bs) after mem old_len src dst h m d s o l =
    absurd (ground (arith, l))
contract_in_loop_lem (suc fuel) written gap [] after mem old_len src dst h m d s o l =
    let stop : ltb src old_len ≡ false = ground (arith, o) in
    record {
      left_over = gap;
      lands =
          rw (stop, contract_in_loop)
            (λ i. (m i, (let e : dst ≡ length written + 0 = omega arith in e) i));
      size = omega arith;
    }
contract_in_loop_lem (suc fuel) written gap (b ∷ bs) after mem old_len src dst h m d s o l =
    elim (Bool-cases (leb 0x80 b)) [
      | inr low ↦
          let up : upgrade (b ∷ bs) ≡ b ∷ upgrade bs = rw (low, upgrade) refl in
          let longer = ap length up in
          let m1 : mem ≡ written ++ (gap ++ b ∷ (upgrade bs ++ after)) =
            m ∙ ap (λ xs. written ++ (gap ++ (xs ++ after))) up in
          let read = read_gap written gap (upgrade bs ++ after) mem b src m1 s in
          let test : ltb (get_or mem src 0) 0x80 ≡ true =
            ap (λ x. ltb x 0x80) read ∙ ground arith in
          let more : ltb src old_len ≡ true = ground (arith, o, longer) in
          let moved =
            round-IsMoved written gap (b ∷ []) (upgrade bs ++ after) mem dst (get_or mem src 0) b m1
              (omega arith) d read in
          let k =
            contract_in_loop_lem fuel (written ++ b ∷ []) moved.next bs after
              (set mem dst (get_or mem src 0)) old_len (src + 1) (dst + 1) h.1 moved.wrote
              (omega (arith, length-append written (b ∷ [])))
              (omega (arith, moved.size, length-append written (b ∷ []))) (omega (arith, longer))
              (omega (arith, longer)) in
          after_round fuel written moved.next gap bs after mem _ old_len src _ dst b k
            (rw (more, test, contract_in_loop) refl) (ground (arith, moved.size))
      | inl high ↦
          let p = lead_of-IsPair b h.0 high in
          let pair = lead_of b ∷ trail_of b ∷ [] in
          let up : upgrade (b ∷ bs) ≡ pair ++ upgrade bs = rw (high, upgrade) refl in
          let longer = ap length up in
          let m1 : mem ≡ written ++ (gap ++ (pair ++ (upgrade bs ++ after))) =
            m ∙ ap (λ xs. written ++ (gap ++ (xs ++ after))) up in
          let read =
            read_gap written gap (trail_of b ∷ (upgrade bs ++ after)) mem (lead_of b) src m1 s in
          let byte = pair_read written gap (upgrade bs ++ after) mem b src p.back m1 s in
          let test : ltb (get_or mem src 0) 0x80 ≡ false = ap (λ x. ltb x 0x80) read ∙ p.high in
          let more : ltb src old_len ≡ true = ground (arith, o, longer) in
          let value = contract (get_or mem src 0) (get_or mem (src + 1) 0) in
          let moved =
            round-IsMoved written gap pair (upgrade bs ++ after) mem dst value b m1 (omega arith) d
              byte in
          let k =
            contract_in_loop_lem fuel (written ++ b ∷ []) moved.next bs after (set mem dst value)
              old_len (src + 2) (dst + 1) h.1 moved.wrote
              (omega (arith, length-append written (b ∷ [])))
              (omega (arith, moved.size, length-append written (b ∷ []))) (omega (arith, longer))
              (omega (arith, longer)) in
          after_round fuel written moved.next gap bs after mem _ old_len src _ dst b k
            (rw (more, test, contract_in_loop) refl) (ground (arith, moved.size))
    ]

-- The contraction in place of the encoding of content that a prefix precedes leaves the prefix and
-- the content, then as many bytes as there are high ones in the content, then what followed; its
-- write cursor ends behind the content.
pub contract_exact :
    (pre content after : List ℕ)
    → All IsByte content
    → (left_over : List ℕ) × (contract_latin1_in_place
          (pre ++ (upgrade content ++ after))
          (length pre)
          (length pre + length (upgrade content))
        ≡ (pre ++ (content ++ (left_over ++ after)), length pre + length content))
      × (length left_over ≡ count_high content)
unfolding contract_latin1_in_place
contract_exact pre content after h =
    let k =
      contract_in_loop_lem (length pre + length (upgrade content)) pre [] content after _
        (length pre + length (upgrade content)) (length pre) (length pre) h refl refl (omega arith)
        refl (omega arith) in
    (k.left_over, k.lands, omega (arith, k.size))
