-- ===== src/Latin1/Encoded.antt =====
-- The downgrade of core/src/cow_buffer.rs on bytes that are not known to be an encoding.
use Prim.Native.Nat.{bit_and}
use mathlib.Core.List.{append-nil, append_assoc}
use perloxide.Prelude.{
  ℕ, ◌+◌, ◌-◌, ◌<◌, ◌≡◌, ◌⊎◌, refl, sym, ap, ◌∙◌, Bool, true, false, ◌&&◌, ◌||◌, not, Option, none,
  some, List, [], ◌∷◌, ◌++◌, ltb, leb, ◌==◌, if◌then◌else◌, length, drop, All, inl, inr, Bool-cases,
  and_true, some_inj, Option-cases, ==_iff, arith,
}
use perloxide.Prelude.Bits.{IsByte, all_below, below}
use perloxide.Latin1.Words.{count_high}
use perloxide.Latin1.Counts.{first_variant_exact}
use perloxide.Latin1.Transform.{
  lead_of, trail_of, contract, Reserved, filled, refused, or_length, contractions,
  latin1_contractions, contract_loop, downgraded_bytes,
}
use perloxide.Latin1.Upgrade.{upgrade, length-upgrade}
use perloxide.Latin1.Downgrade.{
  contract_loop-low, contract_loop-pair, contractions-run, downgraded_whole,
}

-- The content that counted bytes encode.
record IsEncoded (n : ℕ) (bytes : List ℕ) (m : ℕ) : Type 0 where
  content : List ℕ
  encoding : upgrade content ≡ bytes
  counts : m ≡ n + count_high content
  reads : (out : List ℕ) → contract_loop out bytes ≡ some (out ++ content)

abbrev back_ok : ℕ → ℕ → Bool
back_ok b c =
    not (bit_and c 0xC0 == 0x80)
    || leb 0x80 (contract b c) && lead_of (contract b c) == b && trail_of (contract b c) == c

back_table : (all_below 256 (back_ok 0xC2) && all_below 256 (back_ok 0xC3)) ≡ true
unfolding lead_of trail_of contract
back_table = refl

encoded_at :
    (b c : ℕ)
    → back_ok b c ≡ true
    → (bit_and c 0xC0 == 0x80) ≡ true
    → (leb 0x80 (contract b c) ≡ true)
      × (lead_of (contract b c) ≡ b)
      × (trail_of (contract b c) ≡ c)
encoded_at b c ok cont = ground arith

encoded_back :
    (b c : ℕ)
    → c < 256
    → ((b == 0xC2 || b == 0xC3) && bit_and c 0xC0 == 0x80) ≡ true
    → (leb 0x80 (contract b c) ≡ true)
      × (lead_of (contract b c) ≡ b)
      × (trail_of (contract b c) ≡ c)
encoded_back b c h shape =
    let (t2, t3) =
      and_true (all_below 256 (back_ok 0xC2)) (all_below 256 (back_ok 0xC3)) back_table in
    let ok2 = below 256 (back_ok 0xC2) t2 c h in
    let ok3 = below 256 (back_ok 0xC3) t3 c h in
    elim (Bool-cases (b == 0xC2)) [
      | inl two ↦
          encoded_at b c (ap (λ b. back_ok b c) ((==_iff b 0xC2).0 two) ∙ ok2) (ground arith)
      | inr three ↦
          encoded_at b c (ap (λ b. back_ok b c) ((==_iff b 0xC3).0 (ground arith)) ∙ ok3)
            (ground arith)
    ]

nil-IsEncoded : (n m : ℕ) → n ≡ m → IsEncoded n [] m
nil-IsEncoded n m e = record {
  counts = unfold count_high in omega arith;
  content = [];
  encoding = unfold upgrade in refl;
  reads = λ out. unfold contract_loop in ap some (sym (append-nil out));
}

low-IsEncoded :
    (n m b : ℕ) (bs : List ℕ) → ltb b 0x80 ≡ true → IsEncoded n bs m → IsEncoded n (b ∷ bs) m
unfolding upgrade count_high
low-IsEncoded n m b bs low k = record {
  content = b ∷ k.content;
  counts =
      let ascii : leb 0x80 b ≡ false = ground arith in
      rw (ascii, count_high) (omega (arith, k.counts));
  encoding =
      let ascii : leb 0x80 b ≡ false = ground arith in
      rw (ascii, upgrade) (ap (λ xs. b ∷ xs) k.encoding);
  reads = λ out.
      contract_loop-low out b bs low
      ∙ k.reads (out ++ b ∷ [])
      ∙ ap some (append_assoc out (b ∷ []) k.content);
}

pair-IsEncoded :
    (n m b c : ℕ) (cs : List ℕ)
    → ltb b 0x80 ≡ false
    → ((b == 0xC2 || b == 0xC3) && bit_and c 0xC0 == 0x80) ≡ true
    → c < 256
    → IsEncoded (n + 1) cs m
    → IsEncoded n (b ∷ c ∷ cs) m
unfolding upgrade count_high
pair-IsEncoded n m b c cs high shape fits k =
    let (big, lead, trail) = encoded_back b c fits shape in
    record {
      content = contract b c ∷ k.content;
      counts = rw (big, count_high) (omega (arith, k.counts));
      encoding = rw (big, upgrade) (cc (lead, trail, k.encoding));
      reads = λ out.
          contract_loop-pair out b c cs high
          ∙ k.reads (out ++ contract b c ∷ [])
          ∙ ap some (append_assoc out (contract b c ∷ []) k.content);
    }

contractions-IsEncoded :
    (n m : ℕ) (bytes : List ℕ)
    → All IsByte bytes
    → contractions n bytes ≡ some m
    → IsEncoded n bytes m
unfolding contractions
contractions-IsEncoded n m [] h e = nil-IsEncoded n m (some_inj e)
contractions-IsEncoded n m (b ∷ []) h e = elim (Bool-cases (ltb b 0x80)) [
  | inl low ↦ low-IsEncoded n m b [] low (nil-IsEncoded n m (some_inj (rw low at e)))
  | inr high ↦ absurd (ground (arith, e))
]
contractions-IsEncoded n m (b ∷ c ∷ cs) h e = elim (Bool-cases (ltb b 0x80)) [
  | inl low ↦
      low-IsEncoded n m b (c ∷ cs) low (contractions-IsEncoded n m (c ∷ cs) h.1 (rw low at e))
  | inr high ↦ elim (Bool-cases ((b == 0xC2 || b == 0xC3) && bit_and c 0xC0 == 0x80)) [
    | inr other ↦ absurd (ground (arith, e))
    | inl shape ↦
        pair-IsEncoded n m b c cs high shape h.1.0
          (contractions-IsEncoded (n + 1) m cs h.1.1 (rw (high, shape) at e))
  ]
]

abbrev pub downgrade_answer : (ℕ → Bool) → List ℕ → Option (Reserved (Option (List ℕ)))
downgrade_answer reserves out =
    if reserves (length out) then some (filled (some out)) else some (refused (length out))

-- The downgrade of any bytes refuses the content, or the bytes are the encoding of some content, and
-- it answers that content where its bytes are reserved.
pub downgraded_exact :
    (reserves : ℕ → Bool) (bytes : List ℕ)
    → All IsByte bytes
    → (downgraded_bytes reserves bytes ≡ some (filled none))
      ⊎ ((out : List ℕ) × (upgrade out ≡ bytes)
          × (downgraded_bytes reserves bytes ≡ downgrade_answer reserves out))
unfolding downgraded_bytes latin1_contractions
downgraded_exact reserves bytes h = elim (Option-cases (contractions 0 bytes)) [
  | inl refusal ↦
      let first = ap (λ o. or_length o bytes) (first_variant_exact bytes h) in
      let none_left =
        ap (λ k. contractions 0 (drop k bytes)) first ∙ sym (contractions-run 0 bytes) ∙ refusal in
      inl (ground (arith, none_left))
  | inr (m, counted) ↦
      let k = contractions-IsEncoded 0 m bytes h counted in
      let left : length bytes - m ≡ length k.content =
        omega (arith, k.counts, length-upgrade k.content, ap length k.encoding) in
      inr (
        k.content,
        k.encoding,
        downgraded_whole reserves bytes k.content m h counted (k.reads [])
            ∙ ap (λ n. if reserves n then some (filled (some k.content)) else some (refused n))
                left,
      )
]
