-- ===== src/Latin1/Backward.antt =====
-- The expansion in place of core/src/cow_buffer.rs against the encoding taken byte by byte.
use mathlib.Core.List.{append-nil, append_assoc}
use perloxide.Prelude.{
  ℕ, ◌+◌, ◌-◌, ◌<◌, ◌≡◌, refl, sym, ap, ◌∙◌, true, false, List, [], ◌∷◌, ◌++◌, ltb, leb, length,
  length-append, get_or, set, inl, inr, Bool-cases, arith,
}
use perloxide.Latin1.Words.{count_high}
use perloxide.Latin1.Transform.{lead_of, trail_of}
use perloxide.Latin1.Upgrade.{upgrade}
use perloxide.Latin1.InPlace.{expand_loop, expand_latin1_in_place}

-- A list from its end.
rev : List ℕ → List ℕ
rev [] = []
rev (b ∷ bs) = rev bs ++ b ∷ []

rev-append : (xs : List ℕ) (b : ℕ) → rev (xs ++ b ∷ []) ≡ b ∷ rev xs
unfolding rev
rev-append [] b = refl
rev-append (x ∷ xs) b = ap (λ ys. ys ++ x ∷ []) (rev-append xs b)

rev-rev : (xs : List ℕ) → rev (rev xs) ≡ xs
unfolding rev
rev-rev [] = refl
rev-rev (x ∷ xs) = rev-append (rev xs) x ∙ ap (λ ys. x ∷ ys) (rev-rev xs)

length-rev : (xs : List ℕ) → length (rev xs) ≡ length xs
unfolding rev
length-rev [] = refl
length-rev (x ∷ xs) = omega (arith, length-append (rev xs) (x ∷ []), length-rev xs)

count_high-append : (xs ys : List ℕ) → count_high (xs ++ ys) ≡ count_high xs + count_high ys
unfolding count_high
count_high-append [] ys = omega arith
count_high-append (x ∷ xs) ys = omega (arith, count_high-append xs ys)

count_high-rev : (xs : List ℕ) → count_high (rev xs) ≡ count_high xs
unfolding rev count_high
count_high-rev [] = refl
count_high-rev (x ∷ xs) = omega (arith, count_high-append (rev xs) (x ∷ []), count_high-rev xs)

upgrade-append : (xs ys : List ℕ) → upgrade (xs ++ ys) ≡ upgrade xs ++ upgrade ys
unfolding upgrade
upgrade-append [] ys = refl
upgrade-append (x ∷ xs) ys = ground (arith, upgrade-append xs ys)

-- Reads and writes at the join of two lists.
get_or-join : (xs ys : List ℕ) (b d : ℕ) → get_or (xs ++ b ∷ ys) (length xs) d ≡ b
get_or-join [] ys b d = refl
get_or-join (x ∷ xs) ys b d = get_or-join xs ys b d

set-join : (xs ys : List ℕ) (b v : ℕ) → set (xs ++ b ∷ ys) (length xs) v ≡ xs ++ v ∷ ys
set-join [] ys b v = refl
set-join (x ∷ xs) ys b v = ap (λ zs. x ∷ zs) (set-join xs ys b v)

-- A list that is not empty, with its last element apart.
record IsSnoc (xs : List ℕ) : Type 0 where
  front : List ℕ
  last : ℕ
  joins : xs ≡ front ++ last ∷ []

cons-IsSnoc : (x : ℕ) (xs : List ℕ) → IsSnoc (x ∷ xs)
cons-IsSnoc x [] = record { front = []; last = x; joins = refl }
cons-IsSnoc x (y ∷ xs) =
    let s = cons-IsSnoc y xs in
    record { front = x ∷ s.front; last = s.last; joins = ap (λ zs. x ∷ zs) s.joins }

pub write_at :
    (xs ys mem : List ℕ) (b v k : ℕ)
    → mem ≡ xs ++ b ∷ ys
    → k ≡ length xs
    → set mem k v ≡ xs ++ v ∷ ys
write_at xs ys mem b v k m e = (λ i. set (m i) (e i) v) ∙ set-join xs ys b v

pub read_at :
    (xs ys mem : List ℕ) (b k : ℕ) → mem ≡ xs ++ b ∷ ys → k ≡ length xs → get_or mem k 0 ≡ b
read_at xs ys mem b k m e = (λ i. get_or (m i) (e i) 0) ∙ get_or-join xs ys b 0

upgrade-low :
    (xs after : List ℕ) (b : ℕ)
    → leb 0x80 b ≡ false
    → upgrade xs ++ b ∷ after ≡ upgrade (xs ++ b ∷ []) ++ after
unfolding upgrade
upgrade-low xs after b low =
    let one : upgrade (b ∷ []) ≡ b ∷ [] = rw (low, upgrade) refl in
    sym (
      ap (λ ys. ys ++ after) (upgrade-append xs (b ∷ []) ∙ ap (λ ys. upgrade xs ++ ys) one)
      ∙ append_assoc (upgrade xs) (b ∷ []) after)

upgrade-high :
    (xs after : List ℕ) (b : ℕ)
    → leb 0x80 b ≡ true
    → upgrade xs ++ lead_of b ∷ trail_of b ∷ after ≡ upgrade (xs ++ b ∷ []) ++ after
unfolding upgrade
upgrade-high xs after b high =
    let pair = lead_of b ∷ trail_of b ∷ [] in
    let one : upgrade (b ∷ []) ≡ pair = rw (high, upgrade) refl in
    sym (
      ap (λ ys. ys ++ after) (upgrade-append xs (b ∷ []) ∙ ap (λ ys. upgrade xs ++ ys) one)
      ∙ append_assoc (upgrade xs) pair after)

-- The memory before a round: the byte to read stands after the bytes that are left.
before_round :
    (pre rc gap after mem : List ℕ) (b : ℕ)
    → mem ≡ (pre ++ rev (b ∷ rc)) ++ (gap ++ after)
    → mem ≡ (pre ++ rev rc) ++ b ∷ (gap ++ after)
unfolding rev
before_round pre rc gap after mem b m =
    m
    ∙ ap (λ xs. xs ++ (gap ++ after)) (sym (append_assoc pre (rev rc) (b ∷ [])))
    ∙ append_assoc (pre ++ rev rc) (b ∷ []) (gap ++ after)

-- The write of a round, with the last place of the gap taken.
low_write :
    (left gap after mem : List ℕ) (b v k : ℕ) (s : IsSnoc (b ∷ gap))
    → mem ≡ left ++ b ∷ (gap ++ after)
    → k ≡ length left + length gap
    → set mem k v ≡ left ++ (s.front ++ v ∷ after)
low_write left gap after mem b v k s m e =
    let joined : mem ≡ (left ++ s.front) ++ s.last ∷ after =
      m ∙ ap (λ xs. left ++ (xs ++ after)) s.joins ∙ simp append_assoc in
    write_at (left ++ s.front) after mem s.last v k joined (
      omega
        (arith, length-append left s.front, ap length s.joins, length-append s.front (s.last ∷ [])))
    ∙ append_assoc left s.front (v ∷ after)

nonempty-IsSnoc : (xs : List ℕ) → 0 < length xs → IsSnoc xs
nonempty-IsSnoc [] h = absurd (omega arith)
nonempty-IsSnoc (x ∷ xs) h = cons-IsSnoc x xs

high_write :
    (left gap after mem : List ℕ) (b p q k : ℕ) (s : IsSnoc (b ∷ gap)) (t : IsSnoc s.front)
    → mem ≡ left ++ b ∷ (gap ++ after)
    → k + 1 ≡ length left + length gap
    → set (set mem k p) (k + 1) q ≡ left ++ (t.front ++ p ∷ q ∷ after)
high_write left gap after mem b p q k s t m e =
    let joined : mem ≡ (left ++ t.front) ++ t.last ∷ s.last ∷ after =
      m
      ∙ ap (λ xs. left ++ (xs ++ after)) (s.joins ∙ ap (λ xs. xs ++ s.last ∷ []) t.joins)
      ∙ simp append_assoc in
    let sizes : length left + length t.front ≡ k = omega (
      arith,
      ap length s.joins,
      length-append s.front (s.last ∷ []),
      ap length t.joins,
      length-append t.front (t.last ∷ []),
    ) in
    let first =
      write_at (left ++ t.front) (s.last ∷ after) mem t.last p k joined
        (omega (arith, length-append left t.front, sizes)) in
    let again : set mem k p ≡ ((left ++ t.front) ++ p ∷ []) ++ s.last ∷ after =
      first ∙ sym (append_assoc (left ++ t.front) (p ∷ []) (s.last ∷ after)) in
    write_at ((left ++ t.front) ++ p ∷ []) after (set mem k p) s.last q (k + 1) again
      (omega (arith, length-append (left ++ t.front) (p ∷ []), length-append left t.front, sizes))
    ∙ simp append_assoc

expand_loop_lem :
    (pre rc gap after mem : List ℕ) (dst : ℕ)
    → mem ≡ (pre ++ rev rc) ++ (gap ++ after)
    → dst ≡ length pre + length rc + length gap
    → length gap ≡ count_high rc
    → expand_loop (length pre) mem (length rc) dst
      ≡ (pre ++ (upgrade (rev rc) ++ after), length pre)
unfolding expand_loop rev count_high
expand_loop_lem pre [] [] after mem dst m d g =
    let m' : mem ≡ pre ++ after = m ∙ ap (λ xs. xs ++ after) (append-nil pre) in
    let d' : dst ≡ length pre = omega arith in unfold upgrade in λ i. (m' i, d' i)
expand_loop_lem pre [] (x ∷ gap) after mem dst m d g = absurd (omega arith)
expand_loop_lem pre (b ∷ rc) gap after mem dst m d g =
    let left = pre ++ rev rc in
    let m1 = before_round pre rc gap after mem b m in
    let size : length left ≡ length pre + length rc =
      omega (arith, length-append pre (rev rc), length-rev rc) in
    let byte = read_at left (gap ++ after) mem b (length pre + length rc) m1 (sym size) in
    let s = cons-IsSnoc b gap in
    let front : length s.front ≡ length gap =
      omega (arith, ap length s.joins, length-append s.front (s.last ∷ [])) in
    elim (Bool-cases (leb 0x80 b)) [
      | inr low ↦
          let test : ltb (get_or mem (length pre + length rc) 0) 0x80 ≡ true =
            ap (λ x. ltb x 0x80) byte ∙ ground arith in
          let none_high : length gap ≡ count_high rc = ground (arith, g) in
          let wrote =
            low_write left gap after mem b (get_or mem (length pre + length rc) 0) (dst - 1) s m1
              (omega (arith, size)) in
          let ih =
            expand_loop_lem pre rc s.front (b ∷ after)
              (set mem (dst - 1) (get_or mem (length pre + length rc) 0)) (dst - 1)
              (wrote ∙ ap (λ x. left ++ (s.front ++ x ∷ after)) byte) (omega (arith, front))
              (omega (arith, front, none_high)) in
          rw (test, expand_loop)
            (ih ∙ ap (λ xs. (pre ++ xs, length pre)) (upgrade-low (rev rc) after b low))
      | inl high ↦
          let test : ltb (get_or mem (length pre + length rc) 0) 0x80 ≡ false =
            ap (λ x. ltb x 0x80) byte ∙ ground arith in
          let one_high : length gap ≡ 1 + count_high rc = ground (arith, g) in
          let t = nonempty-IsSnoc s.front (omega (arith, front, one_high)) in
          let inner : length t.front + 1 ≡ length gap =
            omega (arith, front, ap length t.joins, length-append t.front (t.last ∷ [])) in
          let read = get_or mem (length pre + length rc) 0 in
          let wrote =
            high_write left gap after mem b (lead_of read) (trail_of read) (dst - 2) s t m1
              (omega (arith, size, one_high)) in
          let ih =
            expand_loop_lem pre rc t.front (lead_of b ∷ trail_of b ∷ after)
              (set (set mem (dst - 2) (lead_of read)) (dst - 2 + 1) (trail_of read)) (dst - 2)
              (wrote ∙ ap (λ x. left ++ (t.front ++ lead_of x ∷ trail_of x ∷ after)) byte)
              (omega (arith, inner)) (omega (arith, inner, one_high)) in
          rw (test, expand_loop)
            (ih ∙ ap (λ xs. (pre ++ xs, length pre)) (upgrade-high (rev rc) after b high))
    ]

-- The expansion in place of content that a prefix precedes, into the spare bytes behind it, leaves
-- the prefix, the content's encoding and what follows the spare bytes, and its write cursor meets the
-- prefix.
pub expand_exact :
    (pre content spare after : List ℕ)
    → length spare ≡ count_high content
    → expand_latin1_in_place
        (pre ++ (content ++ (spare ++ after)))
        (length pre)
        (length pre + length content)
        (length pre + length content + length spare)
      ≡ (pre ++ (upgrade content ++ after), length pre)
unfolding expand_latin1_in_place
expand_exact pre content spare after h =
    let back = rev-rev content in
    let size = length-rev content in
    let start : pre ++ (content ++ (spare ++ after))
        ≡ (pre ++ rev (rev content)) ++ (spare ++ after) =
      sym (append_assoc pre content (spare ++ after))
      ∙ ap (λ xs. (pre ++ xs) ++ (spare ++ after)) (sym back) in
    let left : length pre + length content - length pre ≡ length (rev content) =
      omega (arith, size) in
    ap
      (λ n.
        expand_loop (length pre) (pre ++ (content ++ (spare ++ after))) n
          (length pre + length content + length spare))
      left
    ∙ expand_loop_lem pre (rev content) spare after _ _ start (omega (arith, size))
        (omega (arith, h, count_high-rev content))
    ∙ ap (λ xs. (pre ++ (upgrade xs ++ after), length pre)) back
