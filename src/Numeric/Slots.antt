-- ===== src/Numeric/Slots.antt =====
-- The digits that a cache of core/src/numeric.rs holds: what the loop writes is read back.
use Prim.Native.Nat.{min}
use perloxide.Prelude.{
  ℕ, ◌-◌, ◌%◌, ◌≤◌, ◌<◌, ◌≡◌, refl, ap, ◌∙◌, true, false, ◌||◌, not, some, List, [], ◌∷◌, ◌++◌, ltb,
  ◌==◌, if◌then◌else◌, length, get_or, set, take, replicate, All, arith,
}
use perloxide.Prelude.Int.{ℤ, pos, negsuc}
use perloxide.Numeric.Cache.{
  empty_cache, capacity, max_digits, count, exponent, exponent_byte, exponent_fits, digits_from,
  digits, write_digits, build,
}
use perloxide.Numeric.Written.{IsCache, write_digits-bytes, write_digits-read}

exponent_byte-IsByte : (e : ℤ) → exponent_byte e < 256
unfolding exponent_byte
exponent_byte-IsByte (pos n) = omega arith
exponent_byte-IsByte (negsuc n) = omega arith

-- What `build` writes where the digits fit.
start_cache : ℕ → ℤ → List ℕ
start_cache n e = set (set empty_cache 0 (n % 256)) 1 (exponent_byte e)

start-IsCache : (at n : ℕ) (e : ℤ) → IsCache at (start_cache n e)
unfolding start_cache
start-IsCache at n e = (omega (arith, exponent_byte-IsByte e), refl)

signed_byte :
    (e : ℤ)
    → exponent_fits e ≡ true
    → (b : ℕ) → b ≡ exponent_byte e
    → (if ltb b 128 then pos b else negsuc (255 - b)) ≡ e
unfolding exponent_fits exponent_byte
signed_byte (pos n) h b k = ground arith
signed_byte (negsuc n) h b k = ground arith

take-append : (ds rest : List ℕ) → take (length ds) (ds ++ rest) ≡ ds
take-append [] rest = refl
take-append (d ∷ ds) rest = ap (λ t. d ∷ t) (take-append ds rest)

count_lem : (cache : List ℕ) (n : ℕ) → get_or cache 0 0 ≡ n → 0 < n → count cache ≡ some n
unfolding count
count_lem cache n h some_digit = ground arith

exponent_lem :
    (cache : List ℕ) (e : ℤ)
    → exponent_fits e ≡ true
    → get_or cache 1 0 ≡ exponent_byte e
    → exponent cache ≡ e
unfolding exponent
exponent_lem cache e h k = signed_byte e h (get_or cache 1 0) k

start_bytes :
    (n : ℕ) (e : ℤ)
    → (get_or (start_cache n e) 0 0 ≡ n % 256) × (get_or (start_cache n e) 1 0 ≡ exponent_byte e)
unfolding start_cache
start_bytes n e = (refl, refl)

take-digits :
    (at : ℕ) (cache ds : List ℕ)
    → length ds ≤ max_digits
    → digits_from at cache 0 (length ds) ≡ ds
    → take (length ds) (digits at cache (length ds)) ≡ ds
unfolding digits
take-digits at cache ds h e =
    let all_taken : min (length ds) max_digits ≡ length ds = omega arith in
    rw (all_taken, e) (take-append ds (replicate (max_digits - length ds) 0))

module _ (at : ℕ) (ds : List ℕ) (e : ℤ) where
  build-fits :
      0 < length ds
      → length ds ≤ capacity at
      → exponent_fits e ≡ true
      → build at ds e ≡ write_digits at (start_cache (length ds) e) 0 ds
  unfolding build start_cache
  build-fits some_digit fits ok =
      let digits_there : (length ds == 0) ≡ false = ground arith in
      let room : ltb (capacity at) (length ds) ≡ false = ground arith in
      rw (digits_there, room, ok) refl

  pub build-empty :
      (length ds == 0 || ltb (capacity at) (length ds) || not (exponent_fits e)) ≡ true
      → build at ds e ≡ empty_cache
  unfolding build
  build-empty h = rw h refl

  -- Of digits that fit, the cache has the number, the digits, and beside them the exponent.
  pub build_reads :
      All (λ d. d < 16) ds
      → 0 < at
      → at < 7
      → 0 < length ds
      → length ds ≤ capacity at
      → exponent_fits e ≡ true
      → (count (build at ds e) ≡ some (length ds))
        × (take (length ds) (digits at (build at ds e) (length ds)) ≡ ds)
        × (1 < at → exponent (build at ds e) ≡ e)
  build_reads small low high some_digit fits ok =
      let start = start_cache (length ds) e in
      let c = start-IsCache at (length ds) e in
      let fill = build-fits some_digit fits ok in
      let bytes = λ (k : ℕ) (h : k < at).
        ap (λ t. get_or t k 0) fill ∙ write_digits-bytes at start 0 ds k c small (omega arith) h in
      (
        count_lem (build at ds e) (length ds)
            (bytes 0 low ∙ (start_bytes (length ds) e).0 ∙ omega arith) some_digit,
        take-digits at (build at ds e) ds (omega arith) (
            ap (λ t. digits_from at t 0 (length ds)) fill
            ∙ write_digits-read at start 0 ds c small (omega arith)),
        λ h. exponent_lem (build at ds e) e ok (bytes 1 h ∙ (start_bytes (length ds) e).1),
      )
