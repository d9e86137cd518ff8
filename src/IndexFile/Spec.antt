-- ===== src/IndexFile/Spec.antt =====
-- What a log file promises: a list of entries with an index for the first, that is cut where a write
-- starts and grows by as many entries as the capacity and the limit of bytes allow.
use node_zmq_raft.Prelude.{
  ℕ, zero, suc, ◌+◌, ◌-◌, ◌≡◌, ◌≤◌, List, [], ◌∷◌, ◌++◌, length, take, ltb, leb, ◌==◌,
  if◌then◌else◌, ◌&&◌, Option, none, some, Result, ok, err, arith, refl, ◌∙◌, length-append,
  length-take, length-drop, drop, take-all,
}
use node_zmq_raft.Table.{slot, slice_bytes}
use node_zmq_raft.Table.Contents.{take-append_left}
use native.Mathlib.Decide.{dec_le}
use node_zmq_raft.IndexFile.{
  Refusal, out_of_bounds, after_next_index, empty_entry, non_linear, max_datasize, before,
  IndexFile,
}
use node_zmq_raft.IndexFile.Writing.{total_size}
use node_zmq_raft.IndexFile.Entries.{IsWritten, entries_of, entry_of, IsWritten-fewer}
use node_zmq_raft.IndexFile.Committed.{entries}

abbrev pub Bytes : Type 0
Bytes = List ℕ

-- The log that is left, and how many entries are not written.
unfoldable pub spec_fill : ℕ → List Bytes → List Bytes → Result Refusal (List Bytes × ℕ)
spec_fill capacity log [] = ok (log, 0)
spec_fill capacity log (entry ∷ more) =
    let rest = spec_fill capacity (log ++ entry ∷ []) more in
    if length log == capacity
    then ok (log, suc (length more))
    else if length entry == 0
    then err empty_entry
    else if ltb max_datasize (total_size log + length entry)
    then ok (log, suc (length more))
    else rest

pub record Log : Type 0 where
  pub index : ℕ
  pub capacity : ℕ
  pub log : List Bytes

abbrev pub extended : Log → Result Refusal (List Bytes × ℕ) → Log × Result Refusal (ℕ × ℕ)
extended s (err refusal) = (s, err refusal)
extended s (ok (log, left)) = (record s { log = log }, ok (left, s.index + length log))

unfoldable pub spec_extend : Log → List Bytes → Log × Result Refusal (ℕ × ℕ)
unfolding spec_fill
spec_extend s all = extended s (spec_fill s.capacity s.log all)

unfoldable pub spec_target : Log → Option ℕ → Option ℕ
spec_target s none = if leb (length s.log) s.capacity then some (length s.log) else none
spec_target s (some index) =
    if leb s.index index && leb (index - s.index) s.capacity then some (index - s.index) else none

abbrev pub spec_cut : Log → ℕ → Log
spec_cut s i = record s { log = take i s.log }

unfoldable pub spec_write_from : Log → Bytes → Option ℕ → Log × Result Refusal (ℕ × ℕ)
unfolding spec_extend
spec_write_from s bytes none = (s, err out_of_bounds)
spec_write_from s bytes (some i) =
    if length bytes == 0
    then (s, err empty_entry)
    else if leb i (length s.log)
    then spec_extend (spec_cut s i) (bytes ∷ [])
    else (s, err non_linear)

unfoldable pub spec_write : Log → Bytes → Option ℕ → Log × Result Refusal (ℕ × ℕ)
unfolding spec_target spec_write_from
spec_write s bytes at = spec_write_from s bytes (spec_target s at)

unfoldable pub spec_writev_from : Log → List Bytes → Option ℕ → Log × Result Refusal (ℕ × ℕ)
unfolding spec_extend
spec_writev_from s all none = (s, err out_of_bounds)
spec_writev_from s all (some i) =
    if leb i (length s.log) then spec_extend (spec_cut s i) all else (s, err non_linear)

unfoldable pub spec_writev : Log → List Bytes → Option ℕ → Log × Result Refusal (ℕ × ℕ)
unfolding spec_target spec_writev_from
spec_writev s all at = spec_writev_from s all (spec_target s at)

unfoldable pub spec_truncate_from : Log → Option ℕ → Log × Result Refusal (Unit {0})
spec_truncate_from s none = (s, err out_of_bounds)
spec_truncate_from s (some i) =
    if leb i (length s.log) then (spec_cut s i, ok tt) else (s, err after_next_index)

unfoldable pub spec_truncate : Log → Option ℕ → Log × Result Refusal (Unit {0})
unfolding spec_target spec_truncate_from
spec_truncate s at = spec_truncate_from s (spec_target s at)

-- The log that a file stands for.
abbrev pub view : IndexFile → Log
view f = record { index = f.index; capacity = f.capacity; log = entries f }

pub length-entries_of :
    (offsets content : List ℕ) (n : ℕ) → length (entries_of offsets content n) ≡ n
unfolding entries_of
length-entries_of offsets content zero = refl
length-entries_of offsets content (suc n) = omega (
  arith,
  length-append (entries_of offsets content n) (entry_of offsets content n ∷ []),
  length-entries_of offsets content n,
)

total_size-append : (xs ys : List Bytes) → total_size (xs ++ ys) ≡ total_size xs + total_size ys
total_size-append [] ys = omega arith
total_size-append (x ∷ xs) ys = omega (arith, total_size-append xs ys)

pub length-slice_bytes :
    (content : List ℕ) (start stop : ℕ)
    → stop ≤ length content
    → length (slice_bytes content start stop) ≡ stop - start
unfolding slice_bytes
length-slice_bytes content start stop h =
    omega (arith, length-take (stop - start) (drop start content), length-drop start content)

-- The sizes of the first entries add up to the offset behind them.
pub total_size-entries_of :
    (offsets content : List ℕ) (n : ℕ)
    → IsWritten offsets content n
    → total_size (entries_of offsets content n) ≡ before offsets n
unfolding entries_of
total_size-entries_of offsets content zero w = refl
total_size-entries_of offsets content (suc n) w = omega (
  arith,
  total_size-append (entries_of offsets content n) (entry_of offsets content n ∷ []),
  total_size-entries_of offsets content n (IsWritten-fewer n (omega arith) w),
  length-slice_bytes content (before offsets n) (slot offsets n) (w.held (suc n) (omega arith)),
  w.increasing n (omega arith),
)

-- The first entries.
pub take-entries_of :
    (offsets content : List ℕ) (i n : ℕ)
    → i ≤ n
    → take i (entries_of offsets content n) ≡ entries_of offsets content i
unfolding entries_of
take-entries_of offsets content i zero h = grind (arith, entries_of)
take-entries_of offsets content i (suc n) h = elim (dec_le i n) [
  | yes less ↦
      take-append_left i (entries_of offsets content n) (entry_of offsets content n ∷ [])
        (omega (arith, length-entries_of offsets content n))
      ∙ take-entries_of offsets content i n less
  | no more ↦
      take-all i (entries_of offsets content (suc n))
        (omega (arith, length-entries_of offsets content (suc n)))
      ∙ grind arith
]
