-- ===== src/IndexFile/Reopening.antt =====
-- A log file that is opened again: `readIndexFile` of lib/common/indexfile.js on what is on the disk.
use node_zmq_raft.Prelude.{
  ℕ, zero, suc, ◌+◌, ◌%◌, ◌≤◌, ◌≡◌, refl, List, arith, ◌∙◌, true, false, ◌==◌, leb, ok, ap,
  Bool-cases, inl, inr, replicate, length-replicate,
}
use node_zmq_raft.Table.{slot}
use node_zmq_raft.IndexFile.{IndexFile, before}
use node_zmq_raft.IndexFile.Entries.{IsWritten, IsWritten-same, entries_of-IsKept}
use node_zmq_raft.IndexFile.Stored.{IsStored}
use node_zmq_raft.IndexFile.Committed.{IsCommitted, entries}
use node_zmq_raft.IndexFile.Opening.{
  Disk, create_index_file, max_capacity, disk, scan_offsets, is_header, new_header, read_index_file,
}
use node_zmq_raft.IndexFile.Spec.{view}

scan_offsets-finds :
    (left : ℕ) (offsets table content : List ℕ) (count i last : ℕ)
    → IsWritten offsets content count
    → IsStored offsets table count
    → i ≤ count
    → count ≤ i + left
    → last ≡ before offsets i
    → scan_offsets left table i last ≡ ok count
unfolding scan_offsets
scan_offsets-finds zero offsets table content count i last w s h k e = ap ok (omega arith)
scan_offsets-finds (suc left) offsets table content count i last w s h k e =
    elim (Bool-cases (slot table i == 0)) [
      | inl free ↦ rw free (ap ok (ground (arith, s.stored i, w.increasing i)))
      | inr used ↦
          let more : leb (slot table i) last ≡ false =
            ground (arith, s.stored i, s.unused i, w.increasing i) in
          rw (used, more)
            (scan_offsets-finds left offsets table content count (suc i) (slot table i) w s
              (ground (arith, s.unused i)) (omega arith) (ground (arith, s.stored i, s.unused i)))
    ]

abbrev reopened : IndexFile → IndexFile
reopened f = record f { offsets = f.table }

reopened-IsCommitted : (f : IndexFile) → IsCommitted f → IsCommitted (reopened f)
reopened-IsCommitted f c = record {
  offsets_long = c.table_long;
  table_long = c.table_long;
  bounded = c.bounded;
  written = IsWritten-same f.offsets f.table f.content f.next_at c.on_disk.stored c.written;
  on_disk = record { stored = λ i h. refl; unused = c.on_disk.unused };
}

new_header-is_header :
    (index capacity : ℕ)
    → capacity ≤ max_capacity
    → is_header (new_header index capacity) index ≡ true
unfolding is_header
new_header-is_header index capacity small = ground arith

read_index_file-ok :
    (d : Disk) (index next_at : ℕ)
    → is_header d.header index ≡ true
    → scan_offsets d.header.capacity d.table 0 0 ≡ ok next_at
    → read_index_file d index
      ≡ ok (record {
        index = index;
        capacity = d.header.capacity;
        position = d.position;
        next_at = next_at;
        offsets = d.table;
        table = d.table;
        content = d.content;
      })
unfolding read_index_file
read_index_file-ok d index next_at h e = rw (h, e) refl

-- What is on the disk of a well-formed file of at most MAX_CAPACITY slots opens, and the file opened is
-- well-formed and has the same capacity and entries at the same indexes.
pub read_index_file-disk :
    (f : IndexFile)
    → IsCommitted f
    → f.capacity ≤ max_capacity
    → (g : IndexFile) × (read_index_file (disk f) f.index ≡ ok g)
      × IsCommitted g
      × (view g ≡ view f)
unfolding disk entries
read_index_file-disk f c small =
    let same : f.capacity % 4294967296 ≡ f.capacity = omega arith in
    (
      reopened f,
      read_index_file-ok (disk f) f.index f.next_at (new_header-is_header f.index f.capacity small)
            (scan_offsets-finds (f.capacity % 4294967296) f.offsets f.table f.content f.next_at 0 0
              c.written c.on_disk (omega arith) (omega (arith, c.bounded)) refl)
          ∙ ap (λ n. ok (record (reopened f) { capacity = n })) same,
      reopened-IsCommitted f c,
      ap (λ log. record { index = f.index; capacity = f.capacity; log = log })
          (entries_of-IsKept f.next_at c.written
            (record { same_offsets = c.on_disk.stored; same_bytes = λ a b l. refl })),
    )

slot-replicate : (n i : ℕ) → slot (replicate n 0) i ≡ 0
slot-replicate zero i = refl
slot-replicate (suc n) zero = refl
slot-replicate (suc n) (suc i) = slot-replicate n i

-- A new file has no entries.
pub create_index_file-IsCommitted :
    (index capacity position : ℕ) → IsCommitted (create_index_file index capacity position)
unfolding create_index_file
create_index_file-IsCommitted index capacity position = record {
  offsets_long = length-replicate capacity 0;
  table_long = length-replicate capacity 0;
  bounded = omega arith;
  written = record {
    increasing = λ i h. absurd (omega arith);
    small = λ i h. first_is_zero i h 1073741823;
    held = λ i h. first_is_zero i h 0;
  };
  on_disk = record {
    stored = λ i h. absurd (omega arith);
    unused = λ i h. slot-replicate capacity i;
  };
}
  where
    first_is_zero : (i : ℕ) → i ≤ 0 → (n : ℕ) → before (replicate capacity 0) i ≤ n
    first_is_zero zero h n = omega arith
    first_is_zero (suc i) h n = absurd (omega arith)
