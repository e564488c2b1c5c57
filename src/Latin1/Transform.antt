-- ===== src/Latin1/Transform.antt =====
-- The copying transforms of core/src/cow_buffer.rs: `widen_latin1`, `upgraded_bytes`,
-- `latin1_contractions` and `downgraded_bytes`.
use Prim.Native.Nat.{bit_and, bit_or}
use perloxide.Prelude.{
  ℕ, zero, suc, ◌+◌, ◌-◌, ◌*◌, ◌/◌, ◌^◌, Bool, true, false, ◌&&◌, ◌||◌, Option, none, some, List,
  [], ◌∷◌, ◌++◌, ltb, leb, ◌==◌, if◌then◌else◌, length, take, drop,
}
use perloxide.Latin1.Words.{variant_count, first_variant, position_high}

-- The two bytes of a high byte's encoding, and the byte that such a pair encodes.
unfoldable pub lead_of : ℕ → ℕ
lead_of b = bit_or 0xC0 (b / 2 ^ 6)

unfoldable pub trail_of : ℕ → ℕ
trail_of b = bit_or 0x80 (bit_and b 0x3F)

unfoldable pub contract : ℕ → ℕ → ℕ
contract b c = bit_or (bit_and b 0x03 * 2 ^ 6) (bit_and c 0x3F)

-- The answer of a sink, or of a function that streams to one.
pub data Sunk (E S : Type 0) : Type 0 where
  went : S → Sunk E S
  stopped : E → Sunk E S

-- The answer of `try_reserve_exact`, with the bytes that were asked for.
pub data Reserved (A : Type 0) : Type 0 where
  filled : A → Reserved A
  refused : ℕ → Reserved A

-- `unwrap_or(bytes.len())`
abbrev pub or_length : Option ℕ → List ℕ → ℕ
or_length none bytes = length bytes
or_length (some k) bytes = k

infixl 5 ◌>>=◌
abbrev pub ◌>>=◌ : {E A B : Type 0} → Sunk E A → (A → Sunk E B) → Sunk E B
went a >>= f = f a
stopped e >>= f = stopped e

module _ {E S : Type 0} (sink : S → List ℕ → Sunk E S) where
  -- `if fill > 0` after the staging loop.
  unfoldable pub flush : S → List ℕ → List ℕ → Sunk E (S × List ℕ)
  flush s staged rest =
      if ltb 0 (length staged) then (do s' ← sink s staged; went (s', rest)) else went (s, rest)

  -- The staging loop over high bytes: `staged` holds the bytes that are filled.
  unfoldable pub stage : S → List ℕ → List ℕ → Sunk E (S × List ℕ)
  unfolding flush lead_of trail_of
  stage s staged [] = flush s staged []
  stage s staged (b ∷ bs) = elim (leb 0x80 b) [
    | false ↦ flush s staged (b ∷ bs)
    | true ↦ elim (length staged == 64) [
      | true ↦ sink s staged >>= λ s'. stage s' (lead_of b ∷ trail_of b ∷ []) bs
      | false ↦ stage s (staged ++ (lead_of b ∷ trail_of b ∷ [])) bs
    ]
  ]

  -- The outer loop.
  unfoldable pub widen_loop : ℕ → S → List ℕ → Sunk E S
  unfolding stage position_high
  widen_loop zero s bytes = went s
  widen_loop (suc fuel) s bytes =
      let run = or_length (position_high bytes) bytes in
      let round = do
        s1 ← (if ltb 0 run then sink s (take run bytes) else went s)
        (s2, rest) ← stage s1 [] (drop run bytes)
        widen_loop fuel s2 rest
      in if length bytes == 0 then went s else round

  -- A round takes a byte at least, so the length is fuel enough.
  unfoldable pub widen_latin1 : S → List ℕ → Sunk E S
  unfolding widen_loop
  widen_latin1 s bytes = widen_loop (length bytes) s bytes

-- `Infallible`
pub data Never : Type 0 where

-- `out.extend_from_slice(chunk)`
abbrev pub extend : List ℕ → List ℕ → Sunk Never (List ℕ)
extend out chunk = went (out ++ chunk)

unfoldable pub upgraded_bytes : (ℕ → Bool) → List ℕ → Reserved (List ℕ)
unfolding widen_latin1 first_variant variant_count
upgraded_bytes reserves bytes =
    let first = or_length (first_variant bytes) bytes in
    let total = length bytes + variant_count (drop first bytes) in
    if reserves total
    then (elim (widen_latin1 extend [] bytes) [ went out ↦ filled out | stopped e ↦ elim e [ ] ])
    else refused total

-- The loop of `latin1_contractions`.
unfoldable pub contractions : ℕ → List ℕ → Option ℕ
contractions count [] = some count
contractions count (b ∷ []) = if ltb b 0x80 then some count else none
contractions count (b ∷ c ∷ cs) =
    let plain = contractions count (c ∷ cs) in
    let pair = contractions (count + 1) cs in
    if ltb b 0x80
    then plain
    else if (b == 0xC2 || b == 0xC3) && bit_and c 0xC0 == 0x80
    then pair
    else none

unfoldable pub latin1_contractions : List ℕ → Option ℕ
unfolding contractions
latin1_contractions bytes = contractions 0 bytes

-- The loop of `downgraded_bytes`; `none` is an index out of bounds.
unfoldable pub contract_loop : List ℕ → List ℕ → Option (List ℕ)
unfolding contract
contract_loop out [] = some out
contract_loop out (b ∷ []) = if ltb b 0x80 then some (out ++ b ∷ []) else none
contract_loop out (b ∷ c ∷ cs) =
    let plain = contract_loop (out ++ b ∷ []) (c ∷ cs) in
    let pair = contract_loop (out ++ contract b c ∷ []) cs in if ltb b 0x80 then plain else pair

unfoldable pub downgraded_bytes : (ℕ → Bool) → List ℕ → Option (Reserved (Option (List ℕ)))
unfolding first_variant latin1_contractions contract_loop
downgraded_bytes reserves bytes =
    let first = or_length (first_variant bytes) bytes in
    elim (latin1_contractions (drop first bytes)) [
      | none ↦ some (filled none)
      | some n ↦
          if reserves (length bytes - n)
          then (elim (contract_loop (take first bytes) (drop first bytes)) [
            | none ↦ none
            | some out ↦ some (filled (some out))
          ])
          else some (refused (length bytes - n))
    ]
