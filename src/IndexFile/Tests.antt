-- ===== src/IndexFile/Tests.antt =====
-- Runs of a log file, and each theorem at an input.
use node_zmq_raft.Prelude.{
  ℕ, suc, ◌+◌, ◌≤◌, ◌<◌, ◌≡◌, refl, List, [], ◌∷◌, ◌++◌, some, none, Result, ok, err, arith, true,
  take, drop, ◌⊎◌,
}
use node_zmq_raft.IndexFile.{
  IndexFile, Refusal, non_linear, local, get_byte_offset, get_byte_size, read, splitb, readv,
  count_entries_fit_size, span, read_at, offset_from, size_from, read_sized, split_from, split_loop,
  count_from, exceeds, fit_loop,
}
use node_zmq_raft.IndexFile.Writing.{
  whole, parts, write, writev, truncate, commit, target, write_from, write_at, writev_from,
  writev_at, mark_entry, commit_write, commit_to, run_end, commit_written, truncate_from,
  truncate_table, clear_and_write_if_dirty, write_buffers_up_to, write_loop, entry_size,
  entry_bytes,
}
use node_zmq_raft.IndexFile.Opening.{
  create_index_file, disk, read_index_file, is_header, scan_offsets, new_capacity,
}
use node_zmq_raft.IndexFile.Committed.{IsCommitted, entries}
use node_zmq_raft.IndexFile.Spec.{view}
use node_zmq_raft.IndexFile.Runs.{
  Call, write_call, writev_call, reopen_call, call, run, spec_run, run_refines,
}
use node_zmq_raft.IndexFile.Reopening.{create_index_file-IsCommitted, read_index_file-disk}
use node_zmq_raft.IndexFile.Pending.{IsPending, entries_to, write-IsPending, commit-IsPending}
use node_zmq_raft.IndexFile.Reading.{readv-entries}
use node_zmq_raft.IndexFile.Sizes.{count_entries_fit_size-IsMost}
use node_zmq_raft.Table.{
  set_slot, fill_slots, copy_slots, clear, clear_loop, put_bytes, slice_bytes,
}

program : Unit {0}
unfolding local get_byte_offset get_byte_size read splitb readv count_entries_fit_size read_at
    offset_from size_from read_sized split_from split_loop count_from exceeds fit_loop write writev
    truncate commit target write_from write_at writev_from writev_at mark_entry commit_write
    commit_to run_end commit_written truncate_from truncate_table clear_and_write_if_dirty
    write_buffers_up_to write_loop entry_size entry_bytes create_index_file disk read_index_file
    is_header scan_offsets entries call run set_slot fill_slots copy_slots clear clear_loop
    put_bytes slice_bytes new_capacity
program = tt

abbrev new_file : IndexFile
new_file = create_index_file 96 4 64

abbrev calls : List Call
calls =
    writev_call (whole (1 ∷ 2 ∷ []) ∷ parts ((3 ∷ []) ∷ (4 ∷ 5 ∷ []) ∷ []) ∷ []) none
    ∷ write_call (6 ∷ []) (some 97)
    ∷ reopen_call
    ∷ write_call (7 ∷ 8 ∷ 9 ∷ []) none
    ∷ []

abbrev file : IndexFile
file = (run new_file calls).0

file_entries : entries file ≡ (1 ∷ 2 ∷ []) ∷ (6 ∷ []) ∷ (7 ∷ 8 ∷ 9 ∷ []) ∷ []
unfolding program
file_entries = refl

-- With one slot left, one of two entries is not written.
writev_full : (writev file (whole (1 ∷ []) ∷ whole (2 ∷ []) ∷ []) none).1 ≡ ok (1, 100)
unfolding program
writev_full = refl

write_beyond : (write (create_index_file 96 4 64) (1 ∷ []) (some 97) true).1 ≡ err non_linear
unfolding program
write_beyond = refl

-- index + capacity is a multiple of the capacity asked for.
new_capacity_aligned : new_capacity (some 16) 100 ≡ 12
unfolding program
new_capacity_aligned = refl

run_refines_example :
    let (g, answers) = run new_file calls in
    IsCommitted g × ((view g, answers) ≡ spec_run (view new_file) calls)
run_refines_example =
    run_refines (create_index_file 96 4 64) calls (create_index_file-IsCommitted 96 4 64)
      (unfold create_index_file in omega arith)

file-IsCommitted : IsCommitted file
file-IsCommitted = run_refines_example.0

read_index_file-disk_example :
    (g : IndexFile) × (read_index_file (disk file) file.index ≡ ok g)
    × IsCommitted g
    × (view g ≡ view file)
unfolding program
read_index_file-disk_example = read_index_file-disk file file-IsCommitted (omega arith)

readv-entries_example : readv file (file.index + 1) 2 ≡ ok (take 2 (drop 1 (entries file)))
unfolding program
readv-entries_example = readv-entries file 1 2 file-IsCommitted (omega arith) (omega arith)

count_entries_fit_size-IsMost_example :
    (n : ℕ) × (count_entries_fit_size file (file.index + 0) 3 4 ≡ ok n)
    × ((n ≤ 3) × (span file.offsets 0 n ≤ 4) × ((n ≡ 3) ⊎ (4 < span file.offsets 0 (suc n))))
unfolding program
count_entries_fit_size-IsMost_example =
    count_entries_fit_size-IsMost file 0 3 4 file-IsCommitted (omega arith) (omega arith)
      (omega arith)

file-IsPending : IsPending file 3
unfolding program
file-IsPending = record {
  after = omega arith;
  inside = omega arith;
  written = file-IsCommitted.written;
  ended = refl;
}

abbrev file_written : IndexFile × Result Refusal (ℕ × ℕ)
file_written = write file (10 ∷ 11 ∷ []) (some (file.index + 3)) true

write-IsPending_example :
    (file_written.1 ≡ ok (0, file.index + 4))
    × IsCommitted file_written.0
    × IsPending file_written.0 4
    × (file_written.0.next_at ≡ file.next_at)
    × (entries_to file_written.0 4 ≡ entries_to file 3 ++ (10 ∷ 11 ∷ []) ∷ [])
unfolding program
write-IsPending_example =
    write-IsPending file (10 ∷ 11 ∷ []) 3 file-IsCommitted file-IsPending (omega arith)
      (omega arith) (omega arith)

commit-IsPending_example :
    let (g, reply) = commit file_written.0 in
    (reply ≡ ok (4 + file_written.0.index))
    × IsCommitted g
    × (g.next_at ≡ 4)
    × (entries g ≡ entries_to file_written.0 4)
commit-IsPending_example =
    commit-IsPending file_written.0 4 write-IsPending_example.1 write-IsPending_example.2
