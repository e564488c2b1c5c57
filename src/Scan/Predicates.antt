-- ===== src/Scan/Predicates.antt =====
-- The questions that core/src/string.rs answers from a scan state alone, against what the state
-- asserts.
use perloxide.Prelude.{◌≡◌, refl, ◌↔◌, ℕ, Bool, true, all, arith}
use perloxide.Scan.States.{
  ScanState, Terminal, unknown, is_rust_valid, is_perl_decodable, is_known_latin1_range,
  is_known_non_ascii, is_known_beyond_latin1, widen,
}
use perloxide.Scan.Meet.{has, rust_valid, perl_valid, all_le_00ff, contains_ge_0100, high_bit}
use perloxide.Scan.Classes.{classes, every_class, truth, asserts, ◌⇒◌}

-- Every content that the state admits has the fact.
abbrev pub Certifies : ScanState → ℕ → Type 0
Certifies s fact = (t : Terminal) → asserts s t ≡ true → has (truth t) fact ≡ true

abbrev certifies : ScanState → ℕ → Bool
certifies s fact = all (λ t. asserts s t ⇒ has (truth t) fact) classes

certifies_iff : (s : ScanState) (fact : ℕ) → (certifies s fact ≡ true) ↔ Certifies s fact
certifies_iff s fact = (
  λ h t e. ground (arith, every_class (λ t. asserts s t ⇒ has (truth t) fact) h t),
  λ h. ground (
    arith,
    h Terminal.ascii,
    h Terminal.utf8_latin1,
    h Terminal.utf8_non_latin1,
    h Terminal.extended_utf8,
    h Terminal.malformed_utf8,
  ),
)

is_rust_valid_eq : (s : ScanState) → is_rust_valid s ≡ certifies s rust_valid
unfolding is_rust_valid asserts
is_rust_valid_eq unknown = refl
is_rust_valid_eq _ = refl

is_perl_decodable_eq : (s : ScanState) → is_perl_decodable s ≡ certifies s perl_valid
unfolding is_perl_decodable asserts
is_perl_decodable_eq unknown = refl
is_perl_decodable_eq _ = refl

is_known_latin1_range_eq : (s : ScanState) → is_known_latin1_range s ≡ certifies s all_le_00ff
unfolding is_known_latin1_range asserts
is_known_latin1_range_eq unknown = refl
is_known_latin1_range_eq _ = refl

is_known_non_ascii_eq : (s : ScanState) → is_known_non_ascii s ≡ certifies s high_bit
unfolding is_known_non_ascii asserts
is_known_non_ascii_eq unknown = refl
is_known_non_ascii_eq _ = refl

is_known_beyond_latin1_eq :
    (s : ScanState) → is_known_beyond_latin1 s ≡ certifies s contains_ge_0100
unfolding is_known_beyond_latin1 asserts
is_known_beyond_latin1_eq unknown = refl
is_known_beyond_latin1_eq _ = refl

-- The five questions answer `true` exactly where the state certifies the fact asked for: Rust
-- validity, perl validity, the Latin-1 bound, a high-bit byte, and a character past Latin-1.
pub questions_exact :
    (s : ScanState)
    → ((is_rust_valid s ≡ true) ↔ Certifies s rust_valid)
      × ((is_perl_decodable s ≡ true) ↔ Certifies s perl_valid)
      × ((is_known_latin1_range s ≡ true) ↔ Certifies s all_le_00ff)
      × ((is_known_non_ascii s ≡ true) ↔ Certifies s high_bit)
      × ((is_known_beyond_latin1 s ≡ true) ↔ Certifies s contains_ge_0100)
questions_exact s = (
  rw (is_rust_valid_eq s) (certifies_iff s rust_valid),
  rw (is_perl_decodable_eq s) (certifies_iff s perl_valid),
  rw (is_known_latin1_range_eq s) (certifies_iff s all_le_00ff),
  rw (is_known_non_ascii_eq s) (certifies_iff s high_bit),
  rw (is_known_beyond_latin1_eq s) (certifies_iff s contains_ge_0100),
)

-- What a full classification stores admits content of that class and of no other.
pub widen_exact : (c t : Terminal) → (asserts (widen c) t ≡ true) ↔ (t ≡ c)
unfolding asserts widen
widen_exact Terminal.ascii Terminal.ascii = ground arith
widen_exact _ _ = ground arith
