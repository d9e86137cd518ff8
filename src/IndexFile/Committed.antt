-- ===== src/IndexFile/Committed.antt =====
-- What `truncate`, `write`, `writev` and `commit` of lib/common/indexfile.js keep: the table on disk
-- says which entries are committed, and they can be read.
use node_zmq_raft.Prelude.{ℕ, suc, ◌+◌, ◌-◌, ◌<◌, ◌≤◌, ◌≡◌, refl, List, length, arith, ◌∙◌, inl}
use node_zmq_raft.Table.{slot, set_slot, fill_slots, clear, put_bytes}
use node_zmq_raft.Table.Slots.{
  length-fill_slots, slot-fill_outside, length-copy_slots, length-set_slot, slot-set_slot,
  slot-set_slot_ne,
}
use node_zmq_raft.Table.Clearing.{IsCleared, clear-IsCleared, clear-bound, clear-clean}
use node_zmq_raft.IndexFile.{IndexFile, before, max_datasize}
use node_zmq_raft.IndexFile.Writing.{
  commit_write, truncate_table, clear_and_write_if_dirty, cut_at, mark_entry,
}
use node_zmq_raft.IndexFile.Entries.{
  IsWritten, IsKept, entries_of, entry_of, IsKept-entry, IsWritten-entry, entry_of-entry,
  IsWritten-fewer, IsWritten-same,
}
use node_zmq_raft.IndexFile.Stored.{
  IsStored, IsStored-offsets, IsStored-commit, IsStored-clear, IsStored-cut,
}

pub record IsCommitted (f : IndexFile) : Type 0 where
  pub offsets_long : length f.offsets ≡ f.capacity
  pub table_long : length f.table ≡ f.capacity
  pub bounded : f.next_at ≤ f.capacity
  pub written : IsWritten f.offsets f.content f.next_at
  pub on_disk : IsStored f.offsets f.table f.next_at

-- The entries committed.
unfoldable pub entries : IndexFile → List (List ℕ)
unfolding entries_of
entries f = entries_of f.offsets f.content f.next_at

pub cut_at-IsCommitted :
    (f : IndexFile) (i : ℕ) → IsCommitted f → i ≤ f.next_at → IsCommitted (cut_at f i)
unfolding truncate_table
cut_at-IsCommitted f i c h =
    let filled = fill_slots f.offsets i (f.next_at - i) in
    let same : (j : ℕ) → j < i → slot filled j ≡ slot f.offsets j =
      λ j l. slot-fill_outside (f.next_at - i) f.offsets i j (inl l) in
    record {
      offsets_long = length-fill_slots (f.next_at - i) f.offsets i ∙ c.offsets_long;
      table_long = length-copy_slots (f.next_at - i) filled f.table i ∙ c.table_long;
      bounded = omega (arith, c.bounded);
      written = IsWritten-same f.offsets filled f.content i same (IsWritten-fewer i h c.written);
      on_disk = IsStored-cut i c.on_disk h (omega (arith, c.bounded, c.table_long));
    }

pub cut_at-IsKept :
    (f : IndexFile) (i : ℕ)
    → i ≤ f.next_at
    → IsKept f.offsets f.content (cut_at f i).offsets (cut_at f i).content i
unfolding truncate_table
cut_at-IsKept f i h = record {
  same_offsets = λ j l. slot-fill_outside (f.next_at - i) f.offsets i j (inl l);
  same_bytes = λ a b l. refl;
}

-- Behind the entries that are written, committed or not, one more is marked.
pub record IsMarked (f : IndexFile) (bytes : List ℕ) (i : ℕ) (m : IndexFile) : Type 0 where
  pub committed : IsCommitted m
  pub same_place : (m.index ≡ f.index) × (m.capacity ≡ f.capacity) × (m.next_at ≡ f.next_at)
  pub written : IsWritten m.offsets m.content (suc i)
  pub kept : IsKept f.offsets f.content m.offsets m.content i
  pub added : entry_of m.offsets m.content i ≡ bytes
  pub ended : slot m.offsets (suc i) ≡ 0

pub mark_entry-IsMarked :
    (f : IndexFile) (bytes : List ℕ) (i : ℕ)
    → IsCommitted f
    → IsWritten f.offsets f.content i
    → f.next_at ≤ i
    → i < f.capacity
    → 0 < length bytes
    → before f.offsets i + length bytes ≤ max_datasize
    → IsMarked f bytes i (mark_entry f bytes i (before f.offsets i))
unfolding mark_entry clear_and_write_if_dirty
mark_entry-IsMarked f bytes i c w after inside filled fits =
    let next : ℕ = before f.offsets i + length bytes in
    let left : List ℕ = (clear f.offsets (suc i)).0 in
    let cleared : IsCleared f.offsets (suc i) left (suc i + (clear f.offsets (suc i)).1) =
      clear-IsCleared f.offsets (suc i) in
    let long : i < length left = omega (arith, cleared.long, c.offsets_long) in
    let same : (j : ℕ) → j < i → slot (set_slot left i next) j ≡ slot f.offsets j = λ j l.
      slot-set_slot_ne left i j next (λ e. omega arith) ∙ cleared.kept j (inl (omega arith)) in
    let marked : slot (set_slot left i next) i ≡ next =
      slot-set_slot left i next long (omega arith) in
    let kept : IsKept f.offsets f.content (set_slot left i next)
        (put_bytes f.content (before f.offsets i) bytes) i =
      IsKept-entry f.offsets f.content i bytes (set_slot left i next) w filled fits same marked in
    let all : IsWritten (set_slot left i next) (put_bytes f.content (before f.offsets i) bytes)
        (suc i) =
      IsWritten-entry f.offsets f.content i bytes (set_slot left i next) w filled fits same
        marked in
    record {
      committed = record {
        offsets_long = length-set_slot left i next ∙ cleared.long ∙ c.offsets_long;
        table_long =
            length-copy_slots (clear f.offsets (suc i)).1 left f.table (suc i) ∙ c.table_long;
        bounded = c.bounded;
        written = IsWritten-fewer f.next_at (omega arith) all;
        on_disk =
            IsStored-offsets
              (IsStored-clear (suc i) c.on_disk (omega arith) (
                omega (
                  arith,
                  clear-bound f.offsets (suc i) (omega (arith, c.offsets_long)),
                  c.table_long,
                  c.offsets_long,
                )))
              (λ j l. same j (omega arith));
      };
      same_place = (refl, refl, refl);
      written = all;
      kept = kept;
      added =
          entry_of-entry f.offsets f.content i bytes (set_slot left i next) w filled fits same
            marked;
      ended =
          slot-set_slot_ne left i (suc i) next (λ e. omega arith) ∙ clear-clean f.offsets (suc i);
    }

-- The entries marked behind those committed are committed: up to `more` of them.
pub commit_write-IsCommitted :
    (f : IndexFile) (more : ℕ)
    → IsCommitted f
    → IsWritten f.offsets f.content more
    → f.next_at ≤ more
    → more ≤ f.capacity
    → IsCommitted (record (commit_write f f.next_at (more - f.next_at)) { next_at = more })
unfolding commit_write
commit_write-IsCommitted f more c w after inside = record {
  offsets_long = c.offsets_long;
  table_long = length-copy_slots (more - f.next_at) f.offsets f.table f.next_at ∙ c.table_long;
  bounded = inside;
  written = w;
  on_disk = IsStored-commit more c.on_disk after (omega (arith, c.table_long));
}
