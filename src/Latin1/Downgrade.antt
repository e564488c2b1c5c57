-- ===== src/Latin1/Downgrade.antt =====
-- The downgrade of core/src/cow_buffer.rs against the encoding taken byte by byte.
use Prim.Native.Nat.{bit_and}
use mathlib.Core.List.{append-nil, append_assoc}
use perloxide.Prelude.{
  ℕ, ◌+◌, ◌-◌, ◌<◌, ◌≡◌, refl, sym, ap, ◌∙◌, Bool, true, false, ◌&&◌, ◌||◌, not, some, List, [],
  ◌∷◌, ◌++◌, ltb, leb, ◌==◌, if◌then◌else◌, length, take, drop, All, inl, inr, Bool-cases, arith,
}
use perloxide.Prelude.Bits.{IsByte, all_below, below}
use perloxide.Latin1.Words.{count_high, position_high}
use perloxide.Latin1.Counts.{first_variant_exact}
use perloxide.Latin1.Transform.{
  lead_of, trail_of, contract, filled, refused, or_length, contractions, latin1_contractions,
  contract_loop, downgraded_bytes,
}
use perloxide.Latin1.Upgrade.{upgrade, length-upgrade, run_of, run_of-zero, run_of-suc}

-- What the two bytes of an encoded high byte are.
abbrev pair_ok : ℕ → Bool
pair_ok b =
    not (leb 0x80 b)
    || not (ltb (lead_of b) 0x80)
      && ((lead_of b == 0xC2 || lead_of b == 0xC3) && bit_and (trail_of b) 0xC0 == 0x80)
      && contract (lead_of b) (trail_of b) == b
      && ltb (lead_of b) 256
      && ltb (trail_of b) 256

pair_table : all_below 256 pair_ok ≡ true
unfolding lead_of trail_of contract
pair_table = refl

pub record IsPair (b : ℕ) : Type 0 where
  pub high : ltb (lead_of b) 0x80 ≡ false
  pub shape : ((lead_of b == 0xC2 || lead_of b == 0xC3) && bit_and (trail_of b) 0xC0 == 0x80) ≡ true
  pub back : contract (lead_of b) (trail_of b) ≡ b
  pub lead_fits : lead_of b < 256
  pub trail_fits : trail_of b < 256

pub lead_of-IsPair : (b : ℕ) → b < 256 → leb 0x80 b ≡ true → IsPair b
lead_of-IsPair b h high =
    let ok = below 256 pair_ok pair_table b h in
    record {
      high = ground (arith, ok);
      shape = ground (arith, ok);
      back = ground (arith, ok);
      lead_fits = ground (arith, ok);
      trail_fits = ground (arith, ok);
    }

pub contractions-low :
    (n b : ℕ) (xs : List ℕ) → ltb b 0x80 ≡ true → contractions n (b ∷ xs) ≡ contractions n xs
unfolding contractions
contractions-low n b [] low = rw low refl
contractions-low n b (c ∷ cs) low = rw low refl

pub contract_loop-low :
    (out : List ℕ) (b : ℕ) (xs : List ℕ)
    → ltb b 0x80 ≡ true
    → contract_loop out (b ∷ xs) ≡ contract_loop (out ++ b ∷ []) xs
unfolding contract_loop
contract_loop-low out b [] low = rw low refl
contract_loop-low out b (c ∷ cs) low = rw low refl

pub contractions-pair :
    (n b c : ℕ) (xs : List ℕ)
    → ltb b 0x80 ≡ false
    → ((b == 0xC2 || b == 0xC3) && bit_and c 0xC0 == 0x80) ≡ true
    → contractions n (b ∷ c ∷ xs) ≡ contractions (n + 1) xs
unfolding contractions
contractions-pair n b c xs high shape = rw (high, shape) refl

pub contract_loop-pair :
    (out : List ℕ) (b c : ℕ) (xs : List ℕ)
    → ltb b 0x80 ≡ false
    → contract_loop out (b ∷ c ∷ xs) ≡ contract_loop (out ++ contract b c ∷ []) xs
unfolding contract_loop
contract_loop-pair out b c xs high = rw high refl

-- The content is counted back from its encoding, and read back.
contractions-upgrade :
    (n : ℕ) (bytes : List ℕ)
    → All IsByte bytes
    → contractions n (upgrade bytes) ≡ some (n + count_high bytes)
unfolding upgrade count_high
contractions-upgrade n [] h = unfold contractions in ap some (omega arith)
contractions-upgrade n (b ∷ bs) h = elim (Bool-cases (leb 0x80 b)) [
  | inl high ↦
      let p = lead_of-IsPair b h.0 high in
      let longer : n + 1 + count_high bs ≡ n + (1 + count_high bs) = omega arith in
      rw high (
        contractions-pair n (lead_of b) (trail_of b) (upgrade bs) p.high p.shape
        ∙ contractions-upgrade (n + 1) bs h.1
        ∙ ap some longer)
  | inr low ↦
      let ascii : ltb b 0x80 ≡ true = ground arith in
      rw low (
        contractions-low n b (upgrade bs) ascii
        ∙ contractions-upgrade n bs h.1
        ∙ ap some (omega arith))
]

contract_loop-upgrade :
    (out bytes : List ℕ)
    → All IsByte bytes
    → contract_loop out (upgrade bytes) ≡ some (out ++ bytes)
unfolding upgrade
contract_loop-upgrade out [] h = unfold contract_loop in ap some (sym (append-nil out))
contract_loop-upgrade out (b ∷ bs) h = elim (Bool-cases (leb 0x80 b)) [
  | inl high ↦
      let p = lead_of-IsPair b h.0 high in
      rw high (
        contract_loop-pair out (lead_of b) (trail_of b) (upgrade bs) p.high
        ∙ ap (λ z. contract_loop (out ++ z ∷ []) (upgrade bs)) p.back
        ∙ contract_loop-upgrade (out ++ b ∷ []) bs h.1
        ∙ ap some (append_assoc out (b ∷ []) bs))
  | inr low ↦
      let ascii : ltb b 0x80 ≡ true = ground arith in
      rw low (
        contract_loop-low out b (upgrade bs) ascii
        ∙ contract_loop-upgrade (out ++ b ∷ []) bs h.1
        ∙ ap some (append_assoc out (b ∷ []) bs))
]

-- The bytes before the first high one are passed over by the count, and copied.
pub contractions-run :
    (n : ℕ) (xs : List ℕ) → contractions n xs ≡ contractions n (drop (run_of xs) xs)
contractions-run n [] = unfold position_high in refl
contractions-run n (b ∷ bs) = elim (Bool-cases (leb 0x80 b)) [
  | inl high ↦ sym (ap (λ r. contractions n (drop r (b ∷ bs))) (run_of-zero b bs high))
  | inr low ↦
      contractions-low n b bs (ground arith)
      ∙ contractions-run n bs
      ∙ sym (ap (λ r. contractions n (drop r (b ∷ bs))) (run_of-suc b bs low))
]

pub contract_loop-run :
    (out xs : List ℕ)
    → contract_loop out xs ≡ contract_loop (out ++ take (run_of xs) xs) (drop (run_of xs) xs)
contract_loop-run out [] =
    unfold position_high in ap (λ o. contract_loop o []) (sym (append-nil out))
contract_loop-run out (b ∷ bs) = elim (Bool-cases (leb 0x80 b)) [
  | inl high ↦
      ap (λ o. contract_loop o (b ∷ bs)) (sym (append-nil out))
      ∙ sym (
          ap (λ r. contract_loop (out ++ take r (b ∷ bs)) (drop r (b ∷ bs)))
            (run_of-zero b bs high))
  | inr low ↦
      contract_loop-low out b bs (ground arith)
      ∙ contract_loop-run (out ++ b ∷ []) bs
      ∙ ap (λ o. contract_loop o (drop (run_of bs) bs))
          (append_assoc out (b ∷ []) (take (run_of bs) bs))
      ∙ sym
          (ap (λ r. contract_loop (out ++ take r (b ∷ bs)) (drop r (b ∷ bs))) (run_of-suc b bs low))
]

-- `downgraded_bytes` without the prefix taken apart.
pub downgraded_whole :
    (reserves : ℕ → Bool) (bytes out : List ℕ) (n : ℕ)
    → All IsByte bytes
    → contractions 0 bytes ≡ some n
    → contract_loop [] bytes ≡ some out
    → downgraded_bytes reserves bytes ≡ (
        if reserves (length bytes - n)
        then some (filled (some out))
        else some (refused (length bytes - n)))
unfolding downgraded_bytes latin1_contractions
downgraded_whole reserves bytes out n h c r =
    let first = ap (λ o. or_length o bytes) (first_variant_exact bytes h) in
    let counted =
      ap (λ k. contractions 0 (drop k bytes)) first ∙ sym (contractions-run 0 bytes) ∙ c in
    let read =
      ap (λ k. contract_loop (take k bytes) (drop k bytes)) first
      ∙ sym (contract_loop-run [] bytes)
      ∙ r in
    ground (arith, counted, read)

upgrade-IsByte : (bytes : List ℕ) → All IsByte bytes → All IsByte (upgrade bytes)
unfolding upgrade
upgrade-IsByte [] h = tt
upgrade-IsByte (b ∷ bs) h = elim (Bool-cases (leb 0x80 b)) [
  | inl high ↦
      let p = lead_of-IsPair b h.0 high in
      rw high (p.lead_fits, (p.trail_fits, upgrade-IsByte bs h.1))
  | inr low ↦ rw low (h.0, upgrade-IsByte bs h.1)
]

-- The downgrade reads back the encoding of any content, where its bytes are reserved.
pub downgraded-upgrade :
    (reserves : ℕ → Bool) (bytes : List ℕ)
    → All IsByte bytes
    → downgraded_bytes reserves (upgrade bytes) ≡ (
        if reserves (length bytes)
        then some (filled (some bytes))
        else some (refused (length bytes)))
downgraded-upgrade reserves bytes h =
    let left : length (upgrade bytes) - (0 + count_high bytes) ≡ length bytes =
      omega (arith, length-upgrade bytes) in
    downgraded_whole reserves (upgrade bytes) bytes (0 + count_high bytes) (upgrade-IsByte bytes h)
      (contractions-upgrade 0 bytes h) (contract_loop-upgrade [] bytes h)
    ∙ ap (λ n. if reserves n then some (filled (some bytes)) else some (refused n)) left
