-- ===== src/Symbol/Prototype.antt =====
-- The prototype parser of parser/src/symbol.rs. A prototype is the list of its bytes; an error's
-- message is a constructor with the byte that the text quotes.
use perloxide.Prelude.{
  ℕ, zero, suc, ◌+◌, ◌-◌, Bool, true, false, ◌||◌, Option, none, some, List, [], ◌∷◌, ◌++◌, ◌==◌,
  if◌then◌else◌, length,
}

pub data RefKind : Type 0 where
  scalar array hash sub glob : RefKind

pub data ProtoSlot : Type 0 where
  scalar defaulted_scalar block glob array_or_hash : ProtoSlot
  auto_ref : RefKind → ProtoSlot
  auto_ref_one_of : List RefKind → ProtoSlot
  slurpy_list slurpy_hash : ProtoSlot

pub record SubPrototype : Type 0 where
  pub raw : List ℕ
  pub required : ℕ
  pub slots : List ProtoSlot

pub data Message : Type 0 where
  after_slurpy trailing_backslash unterminated_group empty_group : Message
  unexpected_in_group unexpected_after_backslash unexpected : ℕ → Message

pub record PrototypeError : Type 0 where
  pub message : Message
  pub position : ℕ

-- `out_of_fuel` is no Rust value: a loop that has not ended.
pub data Result {ℓ} (A : Type ℓ) : Type ℓ where
  ok : A → Result A
  err : PrototypeError → Result A
  out_of_fuel : Result A

abbrev pub error_at {ℓ} : {A : Type ℓ} → Message → ℕ → Result A
error_at m i = err (record { message = m; position = i })

abbrev pub and_then {ℓ κ} : {A : Type ℓ} {B : Type κ} → Result A → (A → Result B) → Result B
and_then (ok a) f = f a
and_then (err e) f = err e
and_then out_of_fuel f = out_of_fuel

unfoldable pub ref_kind_from_byte : ℕ → Option RefKind
ref_kind_from_byte b =
    if b == b'$'
    then some RefKind.scalar
    else if b == b'@'
    then some array
    else if b == b'%'
    then some hash
    else if b == b'&'
    then some sub
    else if b == b'*'
    then some RefKind.glob
    else none

-- The bytes of a group up to its `]`: the kinds, what follows, and the index of what follows.
unfoldable pub group : List ℕ → ℕ → ℕ → List RefKind → Result (List RefKind × List ℕ × ℕ)
group [] i start kinds = error_at unterminated_group (start - 2)
group (b ∷ bs) i start kinds =
    if b == b']'
    then elim kinds [ [] ↦ error_at empty_group (start - 2) | ◌∷◌ k ks ↦ ok (k ∷ ks, bs, suc i) ]
    else if b == b' ' || b == b'\t'
    then group bs (suc i) start kinds
    else elim (ref_kind_from_byte b) [
      | none ↦ error_at (unexpected_in_group b) i
      | some k ↦ group bs (suc i) start (kinds ++ k ∷ [])
    ]

-- What stands after a backslash, whose index is `at`.
unfoldable pub after_backslash : List ℕ → ℕ → Result (ProtoSlot × List ℕ × ℕ)
after_backslash [] at = error_at trailing_backslash at
after_backslash (b ∷ bs) at =
    if b == b'['
    then and_then (group bs (at + 2) (at + 2) [])
        (λ (kinds, rest, i). ok (auto_ref_one_of kinds, rest, i))
    else elim (ref_kind_from_byte b) [
      | none ↦ error_at (unexpected_after_backslash b) (at + 1)
      | some k ↦ ok (auto_ref k, bs, at + 2)
    ]

pub record ParseState : Type 0 where
  pub slots : List ProtoSlot
  pub required_complete : Bool
  pub required_count : ℕ

unfoldable pub is_slurpy : ProtoSlot → Bool
is_slurpy slurpy_list = true
is_slurpy slurpy_hash = true
is_slurpy _ = false

-- `slots.last()` is slurpy.
unfoldable pub ends_slurpy : List ProtoSlot → Bool
unfolding is_slurpy
ends_slurpy [] = false
ends_slurpy (x ∷ []) = is_slurpy x
ends_slurpy (x ∷ y ∷ xs) = ends_slurpy (y ∷ xs)

unfoldable pub single_slot : ℕ → Option ProtoSlot
single_slot c =
    if c == b'$'
    then some ProtoSlot.scalar
    else if c == b'_'
    then some defaulted_scalar
    else if c == b'&'
    then some block
    else if c == b'*'
    then some ProtoSlot.glob
    else if c == b'+'
    then some array_or_hash
    else if c == b'@'
    then some slurpy_list
    else if c == b'%'
    then some slurpy_hash
    else none

unfoldable pub is_space : ℕ → Bool
is_space c = c == 0x20 || c == 0x09 || c == 0x0A || c == 0x0D

-- The first `;` ends the required slots, and later ones do nothing.
unfoldable pub semicolon : ParseState → ParseState
semicolon s =
    if s.required_complete
    then s
    else record s { required_count = length s.slots; required_complete = true }

unfoldable pub push_slot : ParseState → ProtoSlot → ParseState
push_slot s x = record s { slots = s.slots ++ x ∷ [] }

-- One round of the loop at the byte `c`, which stands at `i` before `rest`.
unfoldable pub step : ℕ → List ℕ → ℕ → ParseState → Result (ParseState × List ℕ × ℕ)
step c rest i s =
    if is_space c
    then ok (s, rest, i + 1)
    else if c == b';'
    then ok (semicolon s, rest, i + 1)
    else if ends_slurpy s.slots
    then error_at after_slurpy i
    else elim (single_slot c) [
      | some x ↦ ok (push_slot s x, rest, i + 1)
      | none ↦
          if c == 0x5C
          then and_then (after_backslash rest i) (λ (x, rest', i'). ok (push_slot s x, rest', i'))
          else error_at (unexpected c) i
    ]

unfoldable pub parse_loop : ℕ → List ℕ → ℕ → ParseState → Result ParseState
parse_loop fuel [] i s = ok s
parse_loop zero (c ∷ rest) i s = out_of_fuel
parse_loop (suc fuel) (c ∷ rest) i s =
    and_then (step c rest i s) (λ (s', rest', i'). parse_loop fuel rest' i' s')

abbrev pub initial : ParseState
initial = record { slots = []; required_complete = false; required_count = 0 }

-- `SubPrototype::parse`; a round takes a byte at least.
unfoldable pub parse : List ℕ → Result SubPrototype
parse raw = and_then (parse_loop (length raw) raw 0 initial) (λ s. ok (record {
  raw = raw;
  required = if s.required_complete then s.required_count else length s.slots;
  slots = s.slots;
}))
