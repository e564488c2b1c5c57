-- ===== src/Scan/Classes.antt =====
-- What a scan state of core/src/string.rs asserts, over the five classes that content can fall in,
-- and the enumerations over which its finite laws are checked.
use Prim.Native.Nat.{bit_and}
use perloxide.Prelude.{ℕ, ◌≡◌, Bool, true, false, not, List, [], ◌∷◌, arith, ◌==◌, all}
use perloxide.Scan.States.{
  ScanState, unknown, Terminal, valid_utf8, utf8_non_ascii, non_ascii, maybe_utf8_latin1,
  maybe_extended_utf8, perl_valid_non_ascii,
}
use perloxide.Scan.Meet.{
  facts, ◌or◌, rust_valid, perl_valid, all_le_00ff, contains_ge_0080, contains_ge_0100,
  rust_invalid, malformed, high_bit, all_ascii,
}

abbrev pub states : List ScanState
states =
    unknown ∷ ScanState.ascii ∷ ScanState.utf8_latin1 ∷ ScanState.utf8_non_latin1 ∷ valid_utf8
    ∷ utf8_non_ascii ∷ ScanState.extended_utf8 ∷ ScanState.malformed_utf8 ∷ non_ascii
    ∷ maybe_utf8_latin1 ∷ maybe_extended_utf8 ∷ perl_valid_non_ascii ∷ []

abbrev pub classes : List Terminal
classes =
    Terminal.ascii ∷ Terminal.utf8_latin1 ∷ Terminal.utf8_non_latin1 ∷ Terminal.extended_utf8
    ∷ Terminal.malformed_utf8 ∷ []

pub every_state : (p : ScanState → Bool) → all p states ≡ true → (s : ScanState) → p s ≡ true
every_state p h unknown = ground arith
every_state p h _ = ground arith

pub every_class : (p : Terminal → Bool) → all p classes ≡ true → (t : Terminal) → p t ≡ true
every_class p h Terminal.ascii = ground arith
every_class p h _ = ground arith

-- Every fact that holds of content of a class. A decodable character at or above U+0100, and any
-- malformed sequence, has a byte with the high bit set.
unfoldable pub truth : Terminal → ℕ
truth Terminal.ascii = rust_valid or perl_valid or all_le_00ff or all_ascii
truth Terminal.utf8_latin1 = rust_valid or perl_valid or all_le_00ff or contains_ge_0080 or high_bit
truth Terminal.utf8_non_latin1 =
    rust_valid or perl_valid or contains_ge_0080 or contains_ge_0100 or high_bit
truth Terminal.extended_utf8 =
    perl_valid or rust_invalid or contains_ge_0080 or contains_ge_0100 or high_bit
truth Terminal.malformed_utf8 = malformed or high_bit

-- The state's facts all hold of content of the class.
unfoldable pub asserts : ScanState → Terminal → Bool
unfolding facts truth
asserts s t = bit_and (facts s) (truth t) == facts s

infixr 20 ◌⇒◌
abbrev pub ◌⇒◌ : Bool → Bool → Bool
true ⇒ b = b
false ⇒ b = true

pub ⇒-elim : (a b : Bool) → (a ⇒ b) ≡ true → a ≡ true → b ≡ true
⇒-elim a b h e = ground arith

unfoldable pub same : Bool → Bool → Bool
same true b = b
same false b = not b

pub same-eq : (a b : Bool) → same a b ≡ true → a ≡ b
unfolding same
same-eq a b h = ground arith

-- A check over every pair of states and every class holds at each.
abbrev pub holds_everywhere : (ScanState → ScanState → Terminal → Bool) → Bool
holds_everywhere p = all (λ a. all (λ b. all (p a b) classes) states) states

pub everywhere :
    (p : ScanState → ScanState → Terminal → Bool)
    → holds_everywhere p ≡ true
    → (a b : ScanState) (t : Terminal) → p a b t ≡ true
everywhere p h a b t =
    every_class (p a b)
      (every_state (λ b. all (p a b) classes)
        (every_state (λ a. all (λ b. all (p a b) classes) states) h a) b)
      t
