-- ===== src/FileLog/Tests.antt =====
-- The theorems on lib/server/filelog.js at small logs.
use node_zmq_raft.FileLog.{
  not_a_compaction, Entry, Snapshot, Log, append_entries, get_entries, term_at, read_term_at,
  install_snapshot, create_new_log, write, write_entries, truncate, remember, term_before,
  forget_from,
}
use node_zmq_raft.FileLog.Wellformed.{IsLog}
use node_zmq_raft.FileLog.Writing.{
  Written, append_entries-Written, append_entries-IsLog, get_entries-append_entries,
}
use node_zmq_raft.FileLog.Installing.{
  create_new_log-IsLog, install_snapshot-IsLog, install_snapshot_stale, term_at-eq,
}
use node_zmq_raft.FileLog.Search.{b_search, search_loop, IsSorted, IsClosest, b_search-IsClosest}
use node_zmq_raft.Prelude.{
  err, ◌<◌, ℕ, zero, suc, ◌≤◌, ◌<◌, ◌≡◌, ◌⊎◌, refl, Bool, true, false, List, [], ◌∷◌, none, some,
  String, ok, arith,
}
use node_zmq_raft.Prelude.JsMap

abbrev fresh : String → Bool
fresh key = false

abbrev state_entry : Entry
state_entry = record { key = some "k1"; type = 0; term = 1; bytes = 7 ∷ [] }

abbrev later_entry : Entry
later_entry = record { key = none; type = 2; term = 3; bytes = 8 ∷ [] }

abbrev empty : Log
empty = create_new_log (record { log_index = 0; log_term = 0; data_size = 0 })

abbrev two : Log
two = record {
  base = 1;
  first_index = 1;
  last_index = 2;
  last_term = 1;
  snapshot = record { log_index = 0; log_term = 0; data_size = 0 };
  entries = state_entry ∷ state_entry ∷ [];
  rdb = ("k1", 2) ∷ [];
}

abbrev replaced : Log
replaced = record {
  base = 1;
  first_index = 1;
  last_index = 2;
  last_term = 3;
  snapshot = record { log_index = 0; log_term = 0; data_size = 0 };
  entries = state_entry ∷ later_entry ∷ [];
  rdb = [];
}

write_two : append_entries fresh empty (state_entry ∷ state_entry ∷ []) 1 ≡ ok two
unfolding append_entries write_entries truncate write remember create_new_log JsMap.set
write_two = refl

write_over : append_entries fresh two (later_entry ∷ []) 2 ≡ ok replaced
unfolding append_entries write_entries truncate write remember term_before forget_from read_term_at
write_over = refl

two-IsLog : IsLog two
two-IsLog =
    append_entries-IsLog fresh empty two (state_entry ∷ state_entry ∷ []) 1
      (create_new_log-IsLog (record { log_index = 0; log_term = 0; data_size = 0 })) write_two

append_entries-IsLog_example : IsLog replaced
append_entries-IsLog_example =
    append_entries-IsLog fresh two replaced (later_entry ∷ []) 2 two-IsLog write_over

append_entries-Written_example : (1 ≤ 2) × (2 ≤ 3) × Written two replaced (later_entry ∷ []) 2
append_entries-Written_example =
    append_entries-Written fresh two replaced (later_entry ∷ []) 2 two-IsLog write_over

get_entries-append_entries_example : get_entries replaced 2 2 ≡ ok (later_entry ∷ [])
get_entries-append_entries_example =
    get_entries-append_entries fresh two replaced (later_entry ∷ []) 2 two-IsLog write_over

term_of_first : term_at two 1 ≡ some 1
unfolding term_at read_term_at
term_of_first = refl

term_at-eq_example :
    (0 ≤ 1) × (1 ≤ 2) × ((read_term_at two 1 ≡ some 1) ⊎ ((1 < 1) × ◌≡◌ {A = ℕ} 1 0))
term_at-eq_example = term_at-eq two 1 1 two-IsLog term_of_first

abbrev compact : Snapshot
compact = record { log_index = 1; log_term = 1; data_size = 5 }

abbrev compacted : Log
compacted = record two { snapshot = compact; first_index = 2 }

install_compact : install_snapshot two compact true ≡ ok compacted
unfolding install_snapshot term_at read_term_at
install_compact = refl

install_snapshot-IsLog_example : IsLog compacted
install_snapshot-IsLog_example =
    install_snapshot-IsLog two compacted compact true two-IsLog install_compact

compacted-IsLog : IsLog compacted
compacted-IsLog = install_snapshot-IsLog two compacted compact true two-IsLog install_compact

abbrev names : List ℕ
names = 1 ∷ 4 ∷ 9 ∷ []

names-IsSorted : IsSorted names
unfolding IsSorted
names-IsSorted zero zero l h = omega arith
names-IsSorted zero (suc zero) l h = omega arith
names-IsSorted zero (suc (suc zero)) l h = omega arith
names-IsSorted (suc zero) (suc zero) l h = omega arith
names-IsSorted (suc zero) (suc (suc zero)) l h = omega arith
names-IsSorted (suc (suc zero)) (suc (suc zero)) l h = omega arith
names-IsSorted i (suc (suc (suc j))) l h = absurd (omega arith)
names-IsSorted (suc i) zero l h = absurd (omega arith)
names-IsSorted (suc (suc i)) (suc zero) l h = absurd (omega arith)
names-IsSorted (suc (suc (suc i))) (suc (suc zero)) l h = absurd (omega arith)

b_search-IsClosest_example : IsClosest names 6 (b_search names 6)
b_search-IsClosest_example = b_search-IsClosest names 6 names-IsSorted

search_six : b_search names 6 ≡ some 4
unfolding b_search search_loop
search_six = refl

abbrev stale : Snapshot
stale = record { log_index = 0; log_term = 0; data_size = 3 }

install_snapshot_stale_example :
    (install_snapshot compacted stale false ≡ ok (create_new_log stale))
    × (install_snapshot compacted stale true ≡ err not_a_compaction)
install_snapshot_stale_example =
    install_snapshot_stale compacted stale compacted-IsLog (omega arith)
