-- ===== src/Symbol/Shape.antt =====
-- The results of `SubPrototype::parse` in parser/src/symbol.rs: shapes of prototypes and
-- positions of errors.
use perloxide.Prelude.{
  ℕ, zero, suc, ◌+◌, ◌-◌, ◌≤◌, ◌<◌, ◌≡◌, refl, inl, inr, true, false, ◌||◌, some, List, [], ◌∷◌,
  ◌++◌, ◌==◌, length, length-append, arith, Bool-cases, Option-cases,
}
use perloxide.Symbol.Prototype.{
  RefKind, ProtoSlot, auto_ref_one_of, SubPrototype, Result, ok, err, out_of_fuel, and_then,
  ref_kind_from_byte, group, after_backslash, ParseState, is_slurpy, ends_slurpy, single_slot,
  is_space, semicolon, push_slot, step, parse_loop, initial, parse,
}

-- A group names some kind.
abbrev IsFilled : ProtoSlot → Type 0
IsFilled (auto_ref_one_of kinds) = 0 < length kinds
IsFilled _ = Unit

-- A slurpy slot stands last, and no group is empty.
abbrev IsShaped : List ProtoSlot → Type 0
IsShaped [] = Unit
IsShaped (x ∷ []) = IsFilled x
IsShaped (x ∷ y ∷ xs) = (is_slurpy x ≡ false) × IsFilled x × IsShaped (y ∷ xs)

-- What one round keeps: `room` bytes were left before it.
pub record IsGood (total : ℕ) (s : ParseState) (rest : List ℕ) (i : ℕ) : Type 0 where
  pub shaped : IsShaped s.slots
  pub counted : s.required_count ≤ length s.slots
  pub indexed : i + length rest ≡ total

-- A fallible part of the parse ends well or with an error inside the prototype.
abbrev pub Ends {ℓ} : {A : Type ℓ} → ℕ → (A → Type 0) → Result A → Type 0
Ends total P (ok a) = P a
Ends total P (err e) = e.position < total
Ends total P out_of_fuel = ⊥

Ends-weaken {ℓ} :
    {A : Type ℓ} (total : ℕ) {P Q : A → Type 0} (r : Result A)
    → ((a : A) → P a → Q a)
    → Ends total P r
    → Ends total Q r
Ends-weaken total (ok a) h e = h a e
Ends-weaken total (err x) h e = e
Ends-weaken total out_of_fuel h e = e

Ends-and_then {ℓ κ} :
    {A : Type ℓ} {B : Type κ} (total : ℕ) {P : A → Type 0} (Q : B → Type 0) (r : Result A)
    (f : A → Result B)
    → Ends total P r
    → ((a : A) → P a → Ends total Q (f a))
    → Ends total Q (and_then r f)
Ends-and_then total Q (ok a) f e h = h a e
Ends-and_then total Q (err x) f e h = e
Ends-and_then total Q out_of_fuel f e h = e

-- Of the bytes `bs`, some may have been read, and the index has followed.
abbrev Reads : ℕ → List ℕ → List ℕ → ℕ → Type 0
Reads total bs rest i = (i + length rest ≡ total) × (length rest ≤ length bs)

abbrev GroupEnd : ℕ → List ℕ → List RefKind × List ℕ × ℕ → Type 0
GroupEnd total bs (kinds, rest, i) =
    (0 < length kinds) × (i + length rest ≡ total) × (length rest ≤ length bs)

longer :
    (total b : ℕ) (bs : List ℕ) (r : Result (List RefKind × List ℕ × ℕ))
    → Ends total (GroupEnd total bs) r
    → Ends total (GroupEnd total (b ∷ bs)) r
longer total b bs r = Ends-weaken total r (λ (kinds, rest, i) e. (e.0, e.1, omega arith))

group_close :
    (bs : List ℕ) (i start total b : ℕ) (kinds : List RefKind)
    → i + length (b ∷ bs) ≡ total
    → start - 2 < total
    → (b == b']') ≡ true
    → Ends total (GroupEnd total (b ∷ bs)) (group (b ∷ bs) i start kinds)
unfolding group
group_close bs i start total b [] h k e = rw e k
group_close bs i start total b (x ∷ kinds) h k e = rw e (omega arith)

group-Ends :
    (bs : List ℕ) (i start total : ℕ) (kinds : List RefKind)
    → i + length bs ≡ total
    → start - 2 < total
    → Ends total (GroupEnd total bs) (group bs i start kinds)
unfolding group
group-Ends [] i start total kinds h k = k
group-Ends (b ∷ bs) i start total kinds h k = elim (Bool-cases (b == b']')) [
  | inl close ↦ group_close bs i start total b kinds h k close
  | inr inner ↦ elim (Bool-cases (b == b' ' || b == b'\t')) [
    | inl space ↦
        rw (group, inner, space)
          (longer total b bs _ (group-Ends bs (suc i) start total kinds (omega arith) k))
    | inr kind ↦ elim (Option-cases (ref_kind_from_byte b)) [
      | inl bad ↦ rw (group, inner, kind, bad) (omega arith)
      | inr (x, good) ↦
          rw (group, inner, kind, good)
            (longer total b bs _
              (group-Ends bs (suc i) start total (kinds ++ x ∷ []) (omega arith) k))
    ]
  ]
]

abbrev SlotEnd : ℕ → List ℕ → ProtoSlot × List ℕ × ℕ → Type 0
SlotEnd total bs (x, rest, i) = IsFilled x × (i + length rest ≡ total) × (length rest ≤ length bs)

after_backslash-Ends :
    (bs : List ℕ) (at total : ℕ)
    → at + 1 + length bs ≡ total
    → Ends total (SlotEnd total bs) (after_backslash bs at)
unfolding after_backslash
after_backslash-Ends [] at total h = omega arith
after_backslash-Ends (b ∷ bs) at total h = elim (Bool-cases (b == b'[')) [
  | inl open_group ↦ rw open_group (
      Ends-and_then total (SlotEnd total (b ∷ bs)) (group bs (at + 2) (at + 2) [])
        (λ (kinds, rest, i). ok (auto_ref_one_of kinds, rest, i))
        (group-Ends bs (at + 2) (at + 2) total [] (omega arith) (omega arith))
        (λ (kinds, rest, i) e. (e.0, e.1, omega arith)))
  | inr single ↦ elim (Option-cases (ref_kind_from_byte b)) [
    | inl bad ↦ rw (single, bad) (omega arith)
    | inr (x, good) ↦ rw (single, good) (tt, omega arith, omega arith)
  ]
]

push-IsShaped :
    (xs : List ProtoSlot) (x : ProtoSlot)
    → IsShaped xs
    → ends_slurpy xs ≡ false
    → IsFilled x
    → IsShaped (xs ++ x ∷ [])
unfolding ends_slurpy
push-IsShaped [] x h e f = f
push-IsShaped (y ∷ []) x h e f = (e, h, f)
push-IsShaped (y ∷ z ∷ xs) x h e f = (h.0, h.1, push-IsShaped (z ∷ xs) x h.2 e f)

abbrev StepEnd : ℕ → List ℕ → ParseState × List ℕ × ℕ → Type 0
StepEnd total bs (s, rest, i) = IsGood total s rest i × (length rest ≤ length bs)

push-IsGood :
    (total : ℕ) (s : ParseState) (x : ProtoSlot) (rest : List ℕ) (i : ℕ)
    → IsShaped s.slots
    → s.required_count ≤ length s.slots
    → ends_slurpy s.slots ≡ false
    → IsFilled x
    → i + length rest ≡ total
    → IsGood total (push_slot s x) rest i
unfolding push_slot
push-IsGood total s x rest i sh c e f h = record {
  shaped = push-IsShaped s.slots x sh e f;
  counted = omega (arith, length-append s.slots (x ∷ []));
  indexed = h;
}

single_slot-IsFilled : (c : ℕ) (x : ProtoSlot) → single_slot c ≡ some x → IsFilled x
unfolding single_slot
single_slot-IsFilled c (auto_ref_one_of kinds) e = ground arith
single_slot-IsFilled c _ e = tt

semicolon-IsGood :
    (total : ℕ) (s : ParseState) (bytes rest : List ℕ) (i j : ℕ)
    → IsGood total s bytes i
    → j + length rest ≡ total
    → IsGood total (semicolon s) rest j
unfolding semicolon
semicolon-IsGood total s bytes rest i j g h = elim (Bool-cases s.required_complete) [
  | inl done ↦ rw done (record { shaped = g.shaped; counted = g.counted; indexed = h })
  | inr first ↦ rw first (record { shaped = g.shaped; counted = omega arith; indexed = h })
]

step-Ends :
    (c : ℕ) (rest : List ℕ) (i total : ℕ) (s : ParseState)
    → IsGood total s (c ∷ rest) i
    → Ends total (StepEnd total rest) (step c rest i s)
unfolding step
step-Ends c rest i total s g = elim (Bool-cases (is_space c)) [
  | inl space ↦
      rw space
        (record { shaped = g.shaped; counted = g.counted; indexed = omega arith }, omega arith)
  | inr dark ↦ elim (Bool-cases (c == b';')) [
    | inl semi ↦
        rw (dark, semi)
          (semicolon-IsGood total s (c ∷ rest) rest i (i + 1) g (omega arith), omega arith)
    | inr other ↦ elim (Bool-cases (ends_slurpy s.slots)) [
      | inl slurpy ↦ rw (dark, other, slurpy) (omega arith)
      | inr room ↦ elim (Option-cases (single_slot c)) [
        | inr (x, e) ↦
            rw (dark, other, room, step, e)
              (
                push-IsGood total s x rest (i + 1) g.shaped g.counted room
                    (single_slot-IsFilled c x e) (omega arith),
                omega arith,
              )
        | inl e ↦ elim (Bool-cases (c == 0x5C)) [
          | inr bad ↦ rw (dark, other, room, step, e, bad) (omega arith)
          | inl slash ↦
              rw (dark, other, room, step, e, slash)
                (Ends-and_then total (StepEnd total rest) (after_backslash rest i) _
                  (after_backslash-Ends rest i total (omega arith))
                  (λ (x, rest', i') d.
                    (push-IsGood total s x rest' i' g.shaped g.counted room d.0 d.1, d.2)))
        ]
      ]
    ]
  ]
]

parse_loop-Ends :
    (fuel : ℕ) (bytes : List ℕ) (i total : ℕ) (s : ParseState)
    → length bytes ≤ fuel
    → IsGood total s bytes i
    → Ends total
        (λ (s' : ParseState). IsShaped s'.slots × (s'.required_count ≤ length s'.slots))
        (parse_loop fuel bytes i s)
unfolding parse_loop
parse_loop-Ends fuel [] i total s enough g = (g.shaped, g.counted)
parse_loop-Ends zero (c ∷ rest) i total s enough g = absurd (omega arith)
parse_loop-Ends (suc fuel) (c ∷ rest) i total s enough g =
    Ends-and_then total
      (λ (s' : ParseState). IsShaped s'.slots × (s'.required_count ≤ length s'.slots))
      (step c rest i s) _ (step-Ends c rest i total s g)
      (λ (s', rest', i') e. parse_loop-Ends fuel rest' i' total s' (omega arith) e.0)

-- What a parsed prototype satisfies: its text is kept, its required slots are some of its slots, a
-- slurpy slot stands last, and no group is empty.
pub record IsPrototype (raw : List ℕ) (p : SubPrototype) : Type 0 where
  pub kept : p.raw ≡ raw
  pub shaped : IsShaped p.slots
  pub counted : p.required ≤ length p.slots

-- Parsing ends on every text, with such a prototype or with an error at a byte of the text.
pub parse-Ends : (raw : List ℕ) → Ends (length raw) (IsPrototype raw) (parse raw)
unfolding parse
parse-Ends raw =
    Ends-and_then (length raw) (IsPrototype raw) (parse_loop (length raw) raw 0 initial) _
      (parse_loop-Ends (length raw) raw 0 (length raw) initial (omega arith)
        (record { shaped = tt; counted = omega arith; indexed = omega arith }))
      (λ s e. record { kept = refl; shaped = e.0; counted = ground arith })
