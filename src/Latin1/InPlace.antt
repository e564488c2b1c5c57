-- ===== src/Latin1/InPlace.antt =====
-- The transforms in place of core/src/cow_buffer.rs: `expand_latin1_in_place` and
-- `contract_latin1_in_place`. The memory is the list of an allocation's bytes.
use perloxide.Prelude.{ℕ, zero, suc, ◌+◌, ◌-◌, List, ltb, if◌then◌else◌, get_or, set}
use perloxide.Latin1.Transform.{lead_of, trail_of, contract}

-- The loop from the end, over the bytes that are left from `first`: the memory and the write cursor.
unfoldable pub expand_loop : ℕ → List ℕ → ℕ → ℕ → List ℕ × ℕ
expand_loop first mem zero dst = (mem, dst)
expand_loop first mem (suc left) dst =
    let byte = get_or mem (first + left) 0 in
    let low = expand_loop first (set mem (dst - 1) byte) left (dst - 1) in
    let high =
      expand_loop first (set (set mem (dst - 2) (lead_of byte)) (dst - 2 + 1) (trail_of byte)) left
        (dst - 2) in
    if ltb byte 0x80 then low else high

unfoldable pub expand_latin1_in_place : List ℕ → ℕ → ℕ → ℕ → List ℕ × ℕ
unfolding expand_loop
expand_latin1_in_place mem first old_len new_len = expand_loop first mem (old_len - first) new_len

-- The loop from the start, on fuel: the memory and the write cursor.
unfoldable pub contract_in_loop : ℕ → List ℕ → ℕ → ℕ → ℕ → List ℕ × ℕ
unfolding contract
contract_in_loop zero mem old_len src dst = (mem, dst)
contract_in_loop (suc fuel) mem old_len src dst =
    let byte = get_or mem src 0 in
    let low = contract_in_loop fuel (set mem dst byte) old_len (src + 1) (dst + 1) in
    let pair =
      contract_in_loop fuel (set mem dst (contract byte (get_or mem (src + 1) 0))) old_len (src + 2)
        (dst + 1) in
    let round = if ltb byte 0x80 then low else pair in if ltb src old_len then round else (mem, dst)

-- A round reads a byte at least, so the length is fuel enough.
unfoldable pub contract_latin1_in_place : List ℕ → ℕ → ℕ → List ℕ × ℕ
unfolding contract_in_loop
contract_latin1_in_place mem first old_len = contract_in_loop old_len mem old_len first first
