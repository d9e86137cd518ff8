-- ===== src/FileLog.antt =====
-- lib/server/filelog.js: the log of a peer, as the entries it keeps and the indexes, terms and request
-- ids it tracks. The index files that hold the entries on disk are one list here: `base` is the index
-- of its first entry, which lies before `first_index` once a compaction snapshot was installed.
pub mod Wellformed
pub mod Writing
pub mod Installing
pub mod Search
mod Tests
use node_zmq_raft.Prelude.{
  ℕ, zero, suc, ◌+◌, ◌-◌, ◌*◌, ◌/◌, Bool, true, false, not, ◌&&◌, ◌||◌, List, [], ◌∷◌, ◌++◌, Option,
  none, some, String, length, get_elem?, take, drop, ltb, leb, ◌==◌, if◌then◌else◌, Result, ok, err,
  assert, ◌>>=◌, ◌>>◌,
}
use node_zmq_raft.Prelude.JsMap
use node_zmq_raft.Prelude.JsMap.{JsMap}

-- An entry as its readers give it: the request id in base64, `none` when its bytes are zero.
pub record Entry : Type 0 where
  pub key : Option String
  pub type : ℕ
  pub term : ℕ
  pub bytes : List ℕ

pub record Snapshot : Type 0 where
  pub log_index : ℕ
  pub log_term : ℕ
  pub data_size : ℕ

pub record Log : Type 0 where
  pub base : ℕ
  pub first_index : ℕ
  pub last_index : ℕ
  pub last_term : ℕ
  pub snapshot : Snapshot
  pub entries : List Entry
  pub rdb : JsMap ℕ

pub data Error : Type 0 where
  out_of_range entries_invalid last_index_too_large not_a_compaction no_index_file : Error

unfoldable pub includes : Log → ℕ → Bool
includes log i = leb log.base i && ltb i (log.base + length log.entries)

-- The term in the entry at an index, read from its file.
unfoldable pub read_term_at : Log → ℕ → Option ℕ
read_term_at log i =
    if leb log.base i
    then elim (get_elem? log.entries (i - log.base)) [ none ↦ none | some entry ↦ some entry.term ]
    else none

unfoldable pub term_at : Log → ℕ → Option ℕ
term_at log i =
    if i == log.last_index
    then some log.last_term
    else if i == log.snapshot.log_index
    then some log.snapshot.log_term
    else if ltb i log.first_index || ltb log.last_index i
    then none
    else read_term_at log i

-- `for(let [key, idx] of rdb) if (idx >= index) rdb.delete(key)`
unfoldable pub forget_from : ℕ → JsMap ℕ → JsMap ℕ
forget_from index [] = []
forget_from index ((k, i) ∷ m) =
    if leb index i then forget_from index m else (k, i) ∷ forget_from index m

-- The term before an index of truncation: of the entry there, or else of the snapshot.
unfoldable pub term_before : Log → ℕ → ℕ
unfolding read_term_at
term_before log index =
    if ltb log.base index
    then elim (read_term_at log (index - 1)) [ none ↦ 0 | some t ↦ t ]
    else log.snapshot.log_term

unfoldable pub truncate : Log → ℕ → Result Error Log
unfolding forget_from term_before
truncate log index =
    if ltb index log.first_index || ltb (log.last_index + 1) index
    then err out_of_range
    else if index == log.last_index + 1
    then ok log
    else ok (record log {
      last_index = index - 1;
      last_term = term_before log index;
      entries = take (index - log.base) log.entries;
      rdb = forget_from index log.rdb;
    })

-- `entries.every(b => isBuffer(b) && b.length > LOG_ENTRY_HEADER_SIZE)`
abbrev pub all_have_data : List Entry → Bool
all_have_data [] = true
all_have_data (entry ∷ entries) = ltb 0 (length entry.bytes) && all_have_data entries

-- `expired` is `hasRequestExpired`, which reads the clock.
module _ (expired : String → Bool) where
  unfoldable pub remember : JsMap ℕ → Option String → ℕ → JsMap ℕ
  remember rdb none index = rdb
  remember rdb (some key) index = if expired key then rdb else JsMap.set rdb key index

  -- The cleanup of remembered ids, from the oldest on, while they are expired or more than `most`, which
  -- is `requestIdCacheMax` where there is one.
  unfoldable pub clean_rdb : ℕ → JsMap ℕ → JsMap ℕ
  clean_rdb most [] = []
  clean_rdb most ((k, i) ∷ m) =
      let rest = clean_rdb most m in
      if expired k || ltb most (suc (length m)) then rest else (k, i) ∷ m

  unfoldable pub clean_requests : Log → ℕ → Log
  unfolding clean_rdb
  clean_requests log most = record log { rdb = clean_rdb most log.rdb }

  -- The entries written behind the last one.
  unfoldable pub write : Log → List Entry → Log
  unfolding remember
  write log [] = log
  write log (entry ∷ entries) =
      write
        (record log {
          last_index = suc log.last_index;
          last_term = entry.term;
          entries = log.entries ++ entry ∷ [];
          rdb = remember log.rdb entry.key (suc log.last_index);
        })
        entries

  unfoldable pub write_entries : Log → List Entry → ℕ → Result Error Log
  unfolding truncate write
  write_entries log entries index = do log' ← truncate log index; ok (write log' entries)

  unfoldable pub append_entries : Log → List Entry → ℕ → Result Error Log
  unfolding write_entries
  append_entries log entries index = do
    assert (all_have_data entries) entries_invalid
    write_entries log entries index

  -- `appendEntry`, which state, config and checkpoint entries go through: the log and the index.
  unfoldable pub append_entry : Log → Entry → Result Error (Log × ℕ)
  unfolding write_entries
  append_entry log entry = do
    assert (leb entry.type 2) entries_invalid
    log' ← write_entries log (entry ∷ []) (log.last_index + 1)
    ok (log', log'.last_index)

-- `getEntries`
unfoldable pub get_entries : Log → ℕ → ℕ → Result Error (List Entry)
unfolding includes
get_entries log first last =
    if ltb log.last_index last
    then err last_index_too_large
    else if ltb last first
    then ok []
    else if includes log first
    then ok (take (last + 1 - first) (drop (first - log.base) log.entries))
    else err no_index_file

unfoldable pub create_new_log : Snapshot → Log
create_new_log snapshot = record {
  base = snapshot.log_index + 1;
  first_index = snapshot.log_index + 1;
  last_index = snapshot.log_index;
  last_term = snapshot.log_term;
  snapshot = snapshot;
  entries = [];
  rdb = [];
}

-- `snapshot.logTerm === term`
abbrev pub is_term : Option ℕ → ℕ → Bool
is_term none t = false
is_term (some s) t = s == t

unfoldable pub install_snapshot : Log → Snapshot → Bool → Result Error Log
unfolding term_at create_new_log
install_snapshot log snapshot compact_only =
    if is_term (term_at log snapshot.log_index) snapshot.log_term
    then ok (record log { snapshot = snapshot; first_index = snapshot.log_index + 1 })
    else if not compact_only
    then ok (create_new_log snapshot)
    else err not_a_compaction

unfoldable pub get_rid : Log → String → Option ℕ
get_rid log key = JsMap.get log.rdb key

unfoldable pub get_first_fresh_index : Log → Option ℕ
get_first_fresh_index log = elim log.rdb [ [] ↦ none | entry ∷ m ↦ some (entry.1) ]

-- `pruneIndex` of lib/server/raft.js
unfoldable pub prune_index : Log → ℕ
unfolding get_first_fresh_index
prune_index log = elim (get_first_fresh_index log) [ none ↦ log.last_index | some i ↦ i - 1 ]

-- What `feedStateMachine` applies: the first entry's index, and the snapshot if it goes first.
pub data Feed : Type 0 where
  nothing : Feed
  from_snapshot : Snapshot → ℕ → Feed
  from_entries : ℕ → Feed

unfoldable pub feed_state_machine : Log → ℕ → ℕ → Result Error Feed
feed_state_machine log last_applied last =
    if ltb log.last_index last || ltb (last + 1) log.first_index
    then err out_of_range
    else if leb last last_applied
    then ok nothing
    else if ltb last_applied log.snapshot.log_index
    then ok (from_snapshot log.snapshot log.first_index)
    else ok (from_entries (last_applied + 1))
