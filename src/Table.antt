-- ===== src/Table.antt =====
-- The Uint32Array of offsets of an index file, its Buffer view and the bytes of a file: the typed
-- array and the positional writes that lib/common/indexfile.js uses, and its `clear`.
pub mod Slots
pub mod Clearing
pub mod Contents
use node_zmq_raft.Prelude.{
  ℕ, zero, suc, ◌+◌, ◌-◌, ◌%◌, ◌^◌, ◌<◌, ◌≤◌, ◌≡◌, ◌≢◌, refl, ap, List, [], ◌∷◌, ◌++◌, length,
  get_or, set, take, drop, replicate, ◌==◌, if◌then◌else◌, arith, length-set, ◌⊎◌, inl, inr,
  Bool-cases, true, false, subst, append_assoc, take-append-drop, ◌∙◌, sym, length-append,
  length-take, length-replicate, take-append_at, drop-append_at,
}

abbrev pub slot : List ℕ → ℕ → ℕ
slot table i = get_or table i 0

-- A number stored in a Uint32Array wraps around.
unfoldable pub set_slot : List ℕ → ℕ → ℕ → List ℕ
set_slot table i value = set table i (value % 2 ^ 32)

-- `buffer.fill(0, ...)` over `count` slots.
unfoldable pub fill_slots : List ℕ → ℕ → ℕ → List ℕ
fill_slots table start zero = table
fill_slots table start (suc count) = fill_slots (set table start 0) (suc start) count

-- The write of `count` slots of the one table at their place in the other.
unfoldable pub copy_slots : (source target : List ℕ) (start count : ℕ) → List ℕ
copy_slots source target start zero = target
copy_slots source target start (suc count) =
    copy_slots source (set target start (slot source start)) (suc start) count

-- The loop of `clear`: the table left, and the place where the loop ends.
unfoldable pub clear_loop : ℕ → List ℕ → ℕ → List ℕ × ℕ
clear_loop zero table i = (table, i)
clear_loop (suc fuel) table i =
    let rest = clear_loop fuel (set table i 0) (suc i) in
    if slot table i == 0 then (table, i) else rest

-- The table left, and the number of slots cleared.
unfoldable pub clear : List ℕ → ℕ → List ℕ × ℕ
unfolding clear_loop
clear table index =
    let (left, i) = clear_loop (length table - index) table index in (left, i - index)

-- A positional write: over what is there, with zeros where it starts behind the end.
unfoldable pub put_bytes : List ℕ → ℕ → List ℕ → List ℕ
put_bytes content position bytes =
    take position content
    ++ replicate (position - length content) 0
    ++ bytes
    ++ drop (position + length bytes) content

unfoldable pub slice_bytes : List ℕ → ℕ → ℕ → List ℕ
slice_bytes content start stop = take (stop - start) (drop start content)
