-- ===== src/Scan/Codes.antt =====
-- The storage byte of a scan state, and the passage between a state and its terminal subset:
-- `as_u8`, `from_u8`, `terminal`, `widen` and `join` of core/src/string.rs.
use Prim.Native.Nat.{max}
use perloxide.Prelude.{
  ℕ, ◌≡◌, refl, sym, ap, ◌∙◌, ◌↔◌, some, arith, ◌==◌, ==_iff, match_arms-some, some_inj,
}
use perloxide.Scan.States.{
  ScanState, Terminal, ValidRange, unknown, as_u8, from_u8, state_arms, widen, from_scan, range_u8,
  join,
}

pub from_u8-as_u8 : (s : ScanState) → from_u8 (as_u8 s) ≡ some s
unfolding from_u8 as_u8
from_u8-as_u8 unknown = refl
from_u8-as_u8 _ = refl

as_u8-from_u8 : (b : ℕ) (s : ScanState) → from_u8 b ≡ some s → as_u8 s ≡ b
unfolding from_u8 as_u8
as_u8-from_u8 b s =
    match_arms-some ◌==◌ (λ k j. (==_iff k j).0) (λ k v. as_u8 v ≡ k) state_arms b s
      (assumption (refl, tt))

-- A stored byte re-enters the type as a state exactly when that state wrote it.
pub from_u8_exact : (b : ℕ) (s : ScanState) → (from_u8 b ≡ some s) ↔ (as_u8 s ≡ b)
from_u8_exact b s = (as_u8-from_u8 b s, λ e. ap from_u8 (sym e) ∙ from_u8-as_u8 s)

pub as_u8-injective : {a b : ScanState} → as_u8 a ≡ as_u8 b → a ≡ b
as_u8-injective {a} {b} e = some_inj (sym (from_u8-as_u8 a) ∙ ap from_u8 e ∙ from_u8-as_u8 b)

from_scan-widen : (t : Terminal) → from_scan (widen t) ≡ some t
unfolding from_scan widen
from_scan-widen Terminal.ascii = refl
from_scan-widen _ = refl

widen-from_scan : (s : ScanState) (t : Terminal) → from_scan s ≡ some t → widen t ≡ s
unfolding from_scan widen
widen-from_scan ScanState.ascii t e = rw (← some_inj e)
widen-from_scan ScanState.utf8_latin1 t e = rw (← some_inj e)
widen-from_scan ScanState.utf8_non_latin1 t e = rw (← some_inj e)
widen-from_scan ScanState.extended_utf8 t e = rw (← some_inj e)
widen-from_scan ScanState.malformed_utf8 t e = rw (← some_inj e)
widen-from_scan _ t e = cc

-- A state enters a small envelope exactly when it is a terminal, and as that terminal.
pub from_scan_exact : (s : ScanState) (t : Terminal) → (from_scan s ≡ some t) ↔ (widen t ≡ s)
from_scan_exact s t = (widen-from_scan s t, λ e. ap from_scan (sym e) ∙ from_scan-widen t)

-- The class of a concatenation is the wider of the two classes.
range_u8-join : (a b : ValidRange) → range_u8 (join a b) ≡ max (range_u8 a) (range_u8 b)
unfolding join range_u8
range_u8-join ValidRange.ascii b = ground arith
range_u8-join _ b = ground arith
