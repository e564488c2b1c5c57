-- ===== src/Array/Slots.antt =====
-- Runs of slots, as the engine of core/src/containers.rs reads and moves them. A slot that holds
-- nothing is `none`, and so is one past the end.
use perloxide.Prelude.{
  ℕ, zero, suc, ◌+◌, ◌-◌, ◌≤◌, ◌<◌, ◌≡◌, refl, ap, ◌&&◌, Option, none, some, List, [], ◌∷◌, ◌++◌,
  ltb, leb, ◌==◌, if◌then◌else◌, length, length-append, replicate, length-replicate, set, arith,
}

abbrev pub Slots : Type 0 → Type 0
Slots V = List (Option V)

module _ {V : Type 0} where
  unfoldable pub at : Slots V → ℕ → Option V
  at [] i = none
  at (x ∷ xs) zero = x
  at (x ∷ xs) (suc i) = at xs i

  unfoldable pub tabulate : ℕ → (ℕ → Option V) → Slots V
  tabulate zero f = []
  tabulate (suc n) f = f 0 ∷ tabulate n (λ i. f (suc i))

  -- The values of a run, in order.
  unfoldable pub values : Slots V → List V
  values [] = []
  values (none ∷ xs) = values xs
  values (some v ∷ xs) = v ∷ values xs

  -- `count` slots from `lo` on.
  unfoldable pub run : ℕ → ℕ → Slots V → Slots V
  unfolding tabulate
  run lo count slots = tabulate count (λ i. at slots (lo + i))

  -- `*slot = …`
  unfoldable pub write : Slots V → ℕ → Option V → Slots V
  unfolding tabulate
  write slots k x = tabulate (length slots) (λ j. if j == k then x else at slots j)

  -- `ptr::copy` of `count` slots from `src` to `dst`: the bits are as if copied aside first, and the
  -- source keeps its own.
  unfoldable pub copy : ℕ → ℕ → ℕ → Slots V → Slots V
  unfolding tabulate
  copy src dst count slots =
      tabulate (length slots)
        (λ j. if leb dst j && ltb j (dst + count) then at slots (src + (j - dst)) else at slots j)

  -- `*slot = None` for the slots from `lo` up to `hi`.
  unfoldable pub clear_slots : ℕ → ℕ → Slots V → Slots V
  unfolding tabulate
  clear_slots lo hi slots =
      tabulate (length slots) (λ j. if leb lo j && ltb j hi then none else at slots j)

  pub at-past : (xs : Slots V) (i : ℕ) → length xs ≤ i → at xs i ≡ none
  unfolding at
  at-past [] i h = refl
  at-past (x ∷ xs) zero h = absurd (omega arith)
  at-past (x ∷ xs) (suc i) h = at-past xs i (omega arith)

  pub at-tabulate :
      (n : ℕ) (f : ℕ → Option V) (i : ℕ) → at (tabulate n f) i ≡ (if ltb i n then f i else none)
  unfolding at tabulate
  at-tabulate zero f i = ground arith
  at-tabulate (suc n) f zero = ground arith
  at-tabulate (suc n) f (suc i) = ground (arith, at-tabulate n (λ j. f (suc j)) i)

  pub length-tabulate : (n : ℕ) (f : ℕ → Option V) → length (tabulate n f) ≡ n
  unfolding tabulate
  length-tabulate zero f = refl
  length-tabulate (suc n) f = ap suc (length-tabulate n (λ i. f (suc i)))

  -- Runs are equal where they agree at every place.
  pub slots_ext :
      (xs ys : Slots V)
      → length xs ≡ length ys
      → ((i : ℕ) → i < length xs → at xs i ≡ at ys i)
      → xs ≡ ys
  unfolding at
  slots_ext [] [] e h = refl
  slots_ext [] (y ∷ ys) e h = absurd (omega arith)
  slots_ext (x ∷ xs) [] e h = absurd (omega arith)
  slots_ext (x ∷ xs) (y ∷ ys) e h =
      cc (h 0 (omega arith), slots_ext xs ys (omega arith) (λ i l. h (suc i) (omega arith)))

  pub tabulate_ext :
      (n : ℕ) (f g : ℕ → Option V) → ((i : ℕ) → i < n → f i ≡ g i) → tabulate n f ≡ tabulate n g
  unfolding tabulate
  tabulate_ext zero f g h = refl
  tabulate_ext (suc n) f g h = cc (
    h 0 (omega arith),
    tabulate_ext n (λ i. f (suc i)) (λ i. g (suc i)) (λ i l. h (suc i) (omega arith)),
  )

  pub at-append :
      (xs ys : Slots V) (i : ℕ)
      → at (xs ++ ys) i ≡ (if ltb i (length xs) then at xs i else at ys (i - length xs))
  unfolding at
  at-append [] ys i = ground arith
  at-append (x ∷ xs) ys zero = ground arith
  at-append (x ∷ xs) ys (suc i) = ground (arith, at-append xs ys i)

  pub at-write :
      (slots : Slots V) (k : ℕ) (x : Option V) (j : ℕ)
      → k < length slots
      → at (write slots k x) j ≡ (if j == k then x else at slots j)
  unfolding write
  at-write slots k x j h =
      ground (
        arith,
        at-tabulate (length slots) (λ j. if j == k then x else at slots j) j,
        at-past slots j,
      )

  pub at-copy :
      (src dst count : ℕ) (slots : Slots V) (j : ℕ)
      → dst + count ≤ length slots
      → at (copy src dst count slots) j
        ≡ (if leb dst j && ltb j (dst + count) then at slots (src + (j - dst)) else at slots j)
  unfolding copy
  at-copy src dst count slots j h = ground (
    arith,
    at-tabulate (length slots)
        (λ j. if leb dst j && ltb j (dst + count) then at slots (src + (j - dst)) else at slots j)
        j,
    at-past slots j,
  )

  pub at-clear_slots :
      (lo hi : ℕ) (slots : Slots V) (j : ℕ)
      → at (clear_slots lo hi slots) j ≡ (if leb lo j && ltb j hi then none else at slots j)
  unfolding clear_slots
  at-clear_slots lo hi slots j = ground (
    arith,
    at-tabulate (length slots) (λ j. if leb lo j && ltb j hi then none else at slots j) j,
    at-past slots j,
  )

  pub length-write :
      (slots : Slots V) (k : ℕ) (x : Option V) → length (write slots k x) ≡ length slots
  unfolding write
  length-write slots k x = length-tabulate (length slots) _

  pub length-copy :
      (src dst count : ℕ) (slots : Slots V) → length (copy src dst count slots) ≡ length slots
  unfolding copy
  length-copy src dst count slots = length-tabulate (length slots) _

  pub length-clear_slots :
      (lo hi : ℕ) (slots : Slots V) → length (clear_slots lo hi slots) ≡ length slots
  unfolding clear_slots
  length-clear_slots lo hi slots = length-tabulate (length slots) _

  -- Slots up to a length, holes where there were none.
  unfoldable pub extended : Slots V → ℕ → Slots V
  extended xs n = xs ++ replicate (n - length xs) none

  at-holes : (n i : ℕ) → at (replicate n none) i ≡ none
  unfolding at
  at-holes zero i = refl
  at-holes (suc n) zero = refl
  at-holes (suc n) (suc i) = at-holes n i

  pub at-extended : (xs : Slots V) (n i : ℕ) → at (extended xs n) i ≡ at xs i
  unfolding extended
  at-extended xs n i = ground (
    arith,
    at-append xs (replicate (n - length xs) none) i,
    at-holes (n - length xs) (i - length xs),
    at-past xs i,
  )

  pub length-extended :
      (xs : Slots V) (n : ℕ) → length (extended xs n) ≡ (if leb n (length xs) then length xs else n)
  unfolding extended
  length-extended xs n = ground (
    arith,
    length-append xs (replicate (n - length xs) none),
    length-replicate {A = Option V} (n - length xs) none,
  )

  pub at-set :
      (xs : Slots V) (k i : ℕ) (x : Option V)
      → k < length xs
      → at (set xs k x) i ≡ (if i == k then x else at xs i)
  unfolding at
  at-set [] k i x h = absurd (omega arith)
  at-set (y ∷ xs) zero zero x h = refl
  at-set (y ∷ xs) zero (suc i) x h = ground arith
  at-set (y ∷ xs) (suc k) zero x h = ground arith
  at-set (y ∷ xs) (suc k) (suc i) x h = ground (arith, at-set xs k i x)

  pub length-set : (xs : Slots V) (k : ℕ) (x : Option V) → length (set xs k x) ≡ length xs
  length-set [] k x = refl
  length-set (y ∷ xs) zero x = refl
  length-set (y ∷ xs) (suc k) x = ap suc (length-set xs k x)
