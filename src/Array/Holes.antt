-- ===== src/Array/Holes.antt =====
-- Array contents as a list of slots, apart from any buffer: trailing holes, ends and places.
use perloxide.Prelude.{
  ℕ, zero, suc, ◌+◌, ◌-◌, ◌≤◌, ◌<◌, ◌≡◌, refl, ap, ◌∙◌, Option, none, some, [], ◌∷◌, ◌++◌, ltb, leb,
  ◌==◌, if◌then◌else◌, length, length-append, take, drop, set, arith,
}
use perloxide.Array.Slots.{
  Slots, at, tabulate, run, slots_ext, at-past, at-append, extended, at-extended, length-extended,
  at-set, length-set,
}

module _ {V : Type 0} where
  abbrev rejoin : Option V → Slots V → Slots V
  rejoin none [] = []
  rejoin (some v) [] = some v ∷ []
  rejoin x (y ∷ ys) = x ∷ y ∷ ys

  -- The contents without the holes at their end.
  unfoldable pub strip : Slots V → Slots V
  strip [] = []
  strip (x ∷ xs) = rejoin x (strip xs)

  pub strip-hole : (xs : Slots V) → strip (xs ++ none ∷ []) ≡ strip xs
  unfolding strip
  strip-hole [] = refl
  strip-hole (x ∷ xs) = ap (rejoin x) (strip-hole xs)

  pub strip-value : (xs : Slots V) (v : V) → strip (xs ++ some v ∷ []) ≡ xs ++ some v ∷ []
  unfolding strip
  strip-value [] v = refl
  strip-value (x ∷ []) v = refl
  strip-value (x ∷ y ∷ xs) v = ap (rejoin x) (strip-value (y ∷ xs) v)

  tabulate-suc : (n : ℕ) (f : ℕ → Option V) → tabulate (suc n) f ≡ tabulate n f ++ f n ∷ []
  unfolding tabulate
  tabulate-suc zero f = refl
  tabulate-suc (suc n) f = ap (λ xs. f 0 ∷ xs) (tabulate-suc n (λ i. f (suc i)))

  pub run-suc :
      (lo n : ℕ) (slots : Slots V) → run lo (suc n) slots ≡ run lo n slots ++ at slots (lo + n) ∷ []
  unfolding run
  run-suc lo n slots = tabulate-suc n (λ i. at slots (lo + i))

  at-singleton : (x : Option V) (i : ℕ) → at (x ∷ []) i ≡ (if ltb i 1 then x else none)
  unfolding at
  at-singleton x zero = ground arith
  at-singleton x (suc i) = ground arith

  pub at-take :
      (n : ℕ) (xs : Slots V) (i : ℕ) → at (take n xs) i ≡ (if ltb i n then at xs i else none)
  unfolding at
  at-take zero xs i = ground arith
  at-take (suc n) [] i = ground arith
  at-take (suc n) (x ∷ xs) zero = ground arith
  at-take (suc n) (x ∷ xs) (suc i) = ground (arith, at-take n xs i)

  pub length-take :
      (n : ℕ) (xs : Slots V) → length (take n xs) ≡ (if leb n (length xs) then n else length xs)
  length-take zero xs = ground arith
  length-take (suc n) [] = ground arith
  length-take (suc n) (x ∷ xs) = ground (arith, length-take n xs)

  pub at-tail : (xs : Slots V) (i : ℕ) → at (drop 1 xs) i ≡ at xs (suc i)
  unfolding at
  at-tail [] i = refl
  at-tail (x ∷ xs) i = refl

  pub length-tail : (xs : Slots V) → length (drop 1 xs) ≡ length xs - 1
  length-tail [] = omega arith
  length-tail (x ∷ xs) = omega arith

  -- A slot added at the end and then written is the new last one.
  pub set-extended :
      (xs : Slots V) (x : Option V) → set (extended xs (length xs + 1)) (length xs) x ≡ xs ++ x ∷ []
  set-extended xs x =
      slots_ext (set (extended xs (length xs + 1)) (length xs) x) (xs ++ x ∷ [])
        (ground (
          arith,
          length-set (extended xs (length xs + 1)) (length xs) x,
          length-extended xs (length xs + 1),
          length-append xs (x ∷ []),
        ))
        (λ i l. ground (
          arith,
          at-set (extended xs (length xs + 1)) (length xs) i x,
          length-set (extended xs (length xs + 1)) (length xs) x,
          length-extended xs (length xs + 1),
          at-extended xs (length xs + 1) i,
          at-append xs (x ∷ []) i,
          at-past xs i,
          at-singleton x (i - length xs),
        ))

  pub take-set_end : (xs : Slots V) (k : ℕ) (x : Option V) → take k (set xs k x) ≡ take k xs
  take-set_end [] k x = refl
  take-set_end (y ∷ xs) zero x = refl
  take-set_end (y ∷ xs) (suc k) x = ap (λ ys. y ∷ ys) (take-set_end xs k x)

  pub drop-set_front : (xs : Slots V) (x : Option V) → drop 1 (set xs 0 x) ≡ drop 1 xs
  drop-set_front [] x = refl
  drop-set_front (y ∷ xs) x = refl

  pub take-nothing : (xs : Slots V) (k : ℕ) → length xs ≡ 0 → take k xs ≡ xs
  take-nothing [] zero e = refl
  take-nothing [] (suc k) e = refl
  take-nothing (x ∷ xs) k e = absurd (omega arith)

  pub drop-nothing : (xs : Slots V) → length xs ≡ 0 → drop 1 xs ≡ xs
  drop-nothing [] e = refl
  drop-nothing (x ∷ xs) e = absurd (omega arith)

  -- The contents after `delete`: a hole, or at the end the contents before the trailing holes.
  unfoldable pub without : Slots V → ℕ → Slots V
  unfolding strip
  without xs i =
      if ltb (i + 1) (length xs)
      then set xs i none
      else if i + 1 == length xs
      then strip (take i xs)
      else xs

  set-end :
      (xs : Slots V) (k : ℕ) (x : Option V) → suc k ≡ length xs → set xs k x ≡ take k xs ++ x ∷ []
  set-end [] k x e = absurd (omega arith)
  set-end (y ∷ []) zero x e = refl
  set-end (y ∷ z ∷ xs) zero x e = absurd (omega arith)
  set-end (y ∷ xs) (suc k) x e = ap (λ ys. y ∷ ys) (set-end xs k x (omega arith))

  pub strip-set_end :
      (xs : Slots V) (k : ℕ) → suc k ≡ length xs → strip (set xs k none) ≡ strip (take k xs)
  strip-set_end xs k e = ap strip (set-end xs k none e) ∙ strip-hole (take k xs)

  pub without-early : (xs : Slots V) (i : ℕ) → i + 1 < length xs → without xs i ≡ set xs i none
  unfolding without
  without-early xs i h = ground arith

  pub without-last :
      (xs : Slots V) (i : ℕ) → i + 1 ≡ length xs → without xs i ≡ strip (set xs i none)
  unfolding without
  without-last xs i e = ground (arith, strip-set_end xs i (omega arith))

  pub without-past : (xs : Slots V) (i : ℕ) → length xs ≤ i → without xs i ≡ xs
  unfolding without
  without-past xs i h = ground arith
