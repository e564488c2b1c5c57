-- ===== src/Utf8/Spec.antt =====
-- What a classification of core/src/string.rs means, with no walk in it: the code points that
-- content decodes to from its start, the facts about them, and the class.
use perloxide.Prelude.{
  ℕ, ◌+◌, ◌≤◌, ◌<◌, ◌≡◌, refl, Bool, ◌&&◌, ◌||◌, some, List, [], ◌∷◌, ◌++◌, arith, ltb, leb,
  if◌then◌else◌, length, length-append, any,
}
use perloxide.Scan.States.{Terminal}
use perloxide.Utf8.Decode.{decode_one}
use perloxide.Utf8.Bounds.{IsSequence, decode_one-IsSequence}
use perloxide.Utf8.Walk.{ScanFacts, no_facts, note, state, rust_rejects}

-- The bytes up to `at` are the sequences of the code points `cs`.
pub data Decodes (bytes : List ℕ) : List ℕ → ℕ → Type 0 where
  start : Decodes bytes [] 0
  next :
      {cs : List ℕ} {at len value : ℕ}
      → Decodes bytes cs at
      → at < length bytes
      → decode_one bytes at ≡ some (len, value)
      → Decodes bytes (cs ++ value ∷ []) (at + len)

-- A code point that is no Unicode scalar value.
abbrev pub is_rust_rejected : ℕ → Bool
is_rust_rejected c = ltb 0x10_FFFF c || (leb 0xD800 c && leb c 0xDFFF)

abbrev pub class_of : List ℕ → Terminal
class_of cs =
    if any is_rust_rejected cs
    then Terminal.extended_utf8
    else if any (ltb 0xFF) cs
    then Terminal.utf8_non_latin1
    else if any (ltb 0x7F) cs
    then Terminal.utf8_latin1
    else Terminal.ascii

unfoldable pub facts_of : List ℕ → ScanFacts
facts_of cs = record {
  saw_multibyte = any (ltb 0x7F) cs;
  saw_beyond_latin1 = any (ltb 0xFF) cs;
  saw_rust_rejected = any is_rust_rejected cs;
  chars = length cs;
}

pub state-facts_of : (cs : List ℕ) → state (facts_of cs) ≡ class_of cs
unfolding state facts_of
state-facts_of cs = refl

pub facts_of-nil : no_facts ≡ facts_of []
unfolding facts_of
facts_of-nil = refl

any-snoc : (p : ℕ → Bool) (cs : List ℕ) (c : ℕ) → any p (cs ++ c ∷ []) ≡ (any p cs || p c)
any-snoc p [] c = ground arith
any-snoc p (x ∷ cs) c = ground (arith, any-snoc p cs c)

length-snoc : (cs : List ℕ) (c : ℕ) → length (cs ++ c ∷ []) ≡ length cs + 1
length-snoc cs c = omega (arith, length-append cs (c ∷ []))

-- The test of the source also asks for the length, which the value settles.
rejects_eq :
    (room len value : ℕ)
    → IsSequence room len value
    → rust_rejects len value ≡ is_rust_rejected value
unfolding rust_rejects
rejects_eq room len value s = ground arith

pub note_several :
    (room len value : ℕ) (cs : List ℕ)
    → IsSequence room len value
    → note (facts_of cs) (len, value) ≡ facts_of (cs ++ value ∷ [])
unfolding note facts_of
note_several room len value cs s = ground (
  arith,
  any-snoc (ltb 0x7F) cs value,
  any-snoc (ltb 0xFF) cs value,
  any-snoc is_rust_rejected cs value,
  length-snoc cs value,
  rejects_eq room len value s,
)

pub Decodes-le : {bytes cs : List ℕ} {at : ℕ} → Decodes bytes cs at → at ≤ length bytes
Decodes-le start = omega arith
Decodes-le {bytes} (next {at = at} {len = len} {value = value} d h e) =
    omega (arith, (decode_one-IsSequence bytes at len value e).inside)
