-- ===== src/IndexFile/Writing.antt =====
-- What changes a log file of lib/common/indexfile.js: `truncate`, `write`, `writev`, `commit`. Each
-- gives the file that it leaves, and what it resolves to or is rejected with.
use node_zmq_raft.Prelude.{
  ℕ, zero, suc, ◌+◌, ◌-◌, List, [], ◌∷◌, ◌++◌, length, take, ltb, leb, ◌==◌, if◌then◌else◌, Bool,
  ◌||◌, ◌&&◌, not, Option, none, some, Result, ok, err,
}
use node_zmq_raft.Table.{slot, set_slot, fill_slots, copy_slots, clear, put_bytes}
use node_zmq_raft.IndexFile.{
  IndexFile, Refusal, out_of_bounds, after_next_index, empty_entry, non_linear, max_datasize, local,
  before,
}

abbrev pub Step : Type 0 → Type 0
Step A = IndexFile × Result Refusal A

-- An entry to write: one Buffer, or several that follow each other.
pub data Entry : Type 0 where
  whole : List ℕ → Entry
  parts : List (List ℕ) → Entry

abbrev pub concat : List (List ℕ) → List ℕ
concat [] = []
concat (part ∷ rest) = part ++ concat rest

abbrev pub total_size : List (List ℕ) → ℕ
total_size [] = 0
total_size (part ∷ rest) = length part + total_size rest

unfoldable pub entry_size : Entry → ℕ
entry_size (whole bytes) = length bytes
entry_size (parts all) = total_size all

-- The bytes that `writeEntry` writes.
unfoldable pub entry_bytes : Entry → List ℕ
entry_bytes (whole bytes) = bytes
entry_bytes (parts all) = concat all

-- The index that a call is given, or the next one, where it is in bounds.
unfoldable pub target : IndexFile → Option ℕ → Option ℕ
unfolding local
target f none = if leb f.next_at f.capacity then some f.next_at else none
target f (some index) = elim (local f index) [
  | none ↦ none
  | some i ↦ if leb i f.capacity then some i else none
]

unfoldable pub commit_write : IndexFile → (start count : ℕ) → IndexFile
unfolding copy_slots
commit_write f start count = record f { table = copy_slots f.offsets f.table start count }

-- The function `truncate(fd, buffer, index, numoffsets)`.
unfoldable pub truncate_table : IndexFile → (start count : ℕ) → IndexFile
unfolding fill_slots copy_slots
truncate_table f start count =
    let offsets = fill_slots f.offsets start count in
    record f { offsets = offsets; table = copy_slots offsets f.table start count }

-- `clearAndWriteIfDirty`: with nothing cleared, nothing is written.
unfoldable pub clear_and_write_if_dirty : IndexFile → ℕ → IndexFile
unfolding clear copy_slots
clear_and_write_if_dirty f start =
    let (offsets, count) = clear f.offsets start in
    record f { offsets = offsets; table = copy_slots offsets f.table start count }

-- `this[nextAt$] = index` and the truncation of the table that follows.
abbrev pub cut_at : IndexFile → ℕ → IndexFile
cut_at f i = truncate_table (record f { next_at = i }) i (f.next_at - i)

-- `truncate`, `write` and `writev`, once the index is checked.
unfoldable pub truncate_from : IndexFile → Option ℕ → Step (Unit {0})
unfolding truncate_table
truncate_from f none = (f, err out_of_bounds)
truncate_from f (some i) =
    if i == f.next_at
    then (f, ok tt)
    else if ltb i f.next_at
    then (cut_at f i, ok tt)
    else (f, err after_next_index)

unfoldable pub truncate : IndexFile → Option ℕ → Step (Unit {0})
unfolding target truncate_from
truncate f at = truncate_from f (target f at)

-- The data written, what may be dirty behind its slot cleared, and its offset marked.
unfoldable pub mark_entry : IndexFile → (bytes : List ℕ) (i position : ℕ) → IndexFile
unfolding put_bytes clear_and_write_if_dirty set_slot
mark_entry f bytes i position =
    let written =
      clear_and_write_if_dirty (record f { content = put_bytes f.content position bytes })
        (suc i) in
    record written { offsets = set_slot written.offsets i (position + length bytes) }

-- `writeAt` of `write`.
unfoldable pub write_at : IndexFile → (bytes : List ℕ) (i position : ℕ) → Bool → Step (ℕ × ℕ)
unfolding mark_entry commit_write
write_at f bytes i position uncommitted =
    let marked = mark_entry f bytes i position in
    if (i == f.capacity) || ltb max_datasize (position + length bytes)
    then (f, ok (1, f.index + i))
    else if uncommitted
    then (marked, ok (0, f.index + suc i))
    else (record (commit_write marked i 1) { next_at = suc i }, ok (0, f.index + suc i))

unfoldable pub write_from : IndexFile → (bytes : List ℕ) → Bool → Option ℕ → Step (ℕ × ℕ)
unfolding truncate_table write_at
write_from f bytes uncommitted none = (f, err out_of_bounds)
write_from f bytes uncommitted (some i) =
    if length bytes == 0
    then (f, err empty_entry)
    else if i == f.next_at
    then write_at f bytes i (before f.offsets i) uncommitted
    else if ltb i f.next_at
    then write_at (cut_at f i) bytes i (before (cut_at f i).offsets i) uncommitted
    else if uncommitted && not (before f.offsets i == 0)
    then write_at f bytes i (before f.offsets i) uncommitted
    else (f, err non_linear)

unfoldable pub write : IndexFile → (bytes : List ℕ) → Option ℕ → Bool → Step (ℕ × ℕ)
unfolding target write_from
write f bytes at uncommitted = write_from f bytes uncommitted (target f at)

-- The `for` of `commit`, over the slots left.
unfoldable pub run_end : ℕ → List ℕ → ℕ → ℕ
run_end zero offsets i = i
run_end (suc left) offsets i =
    let rest = run_end left offsets (suc i) in if slot offsets i == 0 then i else rest

unfoldable pub commit_to : IndexFile → ℕ → Step ℕ
unfolding commit_write
commit_to f i =
    if i == f.next_at
    then (f, ok (f.next_at + f.index))
    else (record (commit_write f f.next_at (i - f.next_at)) { next_at = i }, ok (i + f.index))

unfoldable pub commit : IndexFile → Step ℕ
unfolding run_end commit_to
commit f = commit_to f (run_end (f.capacity - f.next_at) f.offsets f.next_at)

-- What the writer of `writeBuffersUpTo` has done: offsets, content, and the entries written.
pub record Written : Type 0 where
  pub offsets : List ℕ
  pub content : List ℕ
  pub reply : Result Refusal ℕ

-- The loop of `write`: `slot_at` and `place` are where the next entry's offset and data go, and
-- `left` is what the limit still allows.
unfoldable pub write_loop :
    (offsets content : List ℕ) (entries : List Entry) (slot_at place left count : ℕ) → Written
unfolding entry_size entry_bytes set_slot put_bytes
write_loop offsets content [] slot_at place left count = record {
  offsets = offsets;
  content = content;
  reply = ok count;
}
write_loop offsets content (entry ∷ entries) slot_at place left count =
    let size = entry_size entry in
    let rest =
      write_loop (set_slot offsets slot_at (place + size))
        (put_bytes content place (entry_bytes entry)) entries (suc slot_at) (place + size)
        (left - size) (suc count) in
    if size == 0
    then record { offsets = offsets; content = content; reply = err empty_entry }
    else if ltb left size
    then record { offsets = offsets; content = content; reply = ok count }
    else rest

unfoldable pub write_buffers_up_to : IndexFile → List Entry → (start position limit : ℕ) → Written
unfolding entry_size write_loop
write_buffers_up_to f [] start position limit = record {
  offsets = f.offsets;
  content = f.content;
  reply = ok 0;
}
write_buffers_up_to f (entry ∷ entries) start position limit =
    if ltb limit (entry_size entry)
    then record { offsets = f.offsets; content = f.content; reply = ok 0 }
    else write_loop f.offsets f.content (entry ∷ entries) start position limit 0

-- What follows the writer in `writeAt` of `writev`: `total` entries were asked for.
unfoldable pub commit_written : IndexFile → (total i : ℕ) → Result Refusal ℕ → Step (ℕ × ℕ)
unfolding clear_and_write_if_dirty commit_write
commit_written f total i (err refusal) = (f, err refusal)
commit_written f total i (ok count) = if count == 0 then (f, ok (total, f.index + i)) else (
  record (commit_write (clear_and_write_if_dirty f (i + count)) i count) { next_at = i + count },
  ok (total - count, f.index + (i + count)),
)

unfoldable pub writev_at : IndexFile → List Entry → (total i position : ℕ) → Step (ℕ × ℕ)
unfolding write_buffers_up_to commit_written
writev_at f entries total i position =
    let out = write_buffers_up_to f entries i position (max_datasize - position) in
    commit_written (record f { offsets = out.offsets; content = out.content }) total i out.reply

-- `datav.slice(0, this.capacity - index)`, where there are more.
abbrev pub fitting : IndexFile → List Entry → ℕ → List Entry
fitting f entries i =
    if ltb f.capacity (i + length entries) then take (f.capacity - i) entries else entries

unfoldable pub writev_from : IndexFile → List Entry → Option ℕ → Step (ℕ × ℕ)
unfolding truncate_table writev_at
writev_from f entries none = (f, err out_of_bounds)
writev_from f entries (some i) =
    if i == f.next_at
    then writev_at f (fitting f entries i) (length entries) i (before f.offsets i)
    else if ltb i f.next_at
    then writev_at (cut_at f i) (fitting f entries i) (length entries) i
        (before (cut_at f i).offsets i)
    else (f, err non_linear)

unfoldable pub writev : IndexFile → List Entry → Option ℕ → Step (ℕ × ℕ)
unfolding target writev_from
writev f entries at = writev_from f entries (target f at)
