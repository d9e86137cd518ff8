-- ===== src/FileLog/Installing.antt =====
-- `termAt` and `installSnapshot` of lib/server/filelog.js.
use node_zmq_raft.FileLog.Wellformed.{Remembered, IsLog}
use node_zmq_raft.FileLog.{
  Snapshot, Log, read_term_at, term_at, install_snapshot, create_new_log, is_term, not_a_compaction,
}
use node_zmq_raft.Prelude.{
  true, leb→le, ℕ, ◌+◌, ◌<◌, ◌≤◌, ◌≡◌, refl, sym, ◌∙◌, subst, Bool, false, Option, none, some, leb,
  arith, if◌then◌else◌, ok, err, Bool-cases, inl, inr, not, ◌⊎◌,
}
use node_zmq_raft.Prelude.JsMap.{same}

term_at-read :
    (log : Log) (i t : ℕ)
    → IsLog log
    → term_at log i ≡ some t
    → (log.snapshot.log_index ≤ i)
      × (i ≤ log.last_index)
      × (log.base ≤ i → read_term_at log i ≡ some t)
      × (i < log.base → t ≡ log.snapshot.log_term)
unfolding term_at
term_at-read log i t h e = ground (
  arith, h.starts, h.ends, h.after_snapshot, h.covers, h.last_term_read, h.last_term_snapshot,
  h.snapshot_term,
)

install_snapshot-cases :
    (log log' : Log) (snapshot : Snapshot) (compact_only : Bool)
    → install_snapshot log snapshot compact_only ≡ ok log'
    → ((term_at log snapshot.log_index ≡ some snapshot.log_term)
        × (log' ≡ record log { snapshot = snapshot; first_index = snapshot.log_index + 1 }))
      ⊎ (log' ≡ create_new_log snapshot)
unfolding install_snapshot
install_snapshot-cases log log' snapshot compact_only h = go (term_at log snapshot.log_index) refl h
  where
    go :
        (t : Option ℕ)
        → term_at log snapshot.log_index ≡ t
        → (if is_term t snapshot.log_term
            then ok (record log { snapshot = snapshot; first_index = snapshot.log_index + 1 })
            else if not compact_only
            then ok (create_new_log snapshot)
            else err not_a_compaction)
          ≡ ok log'
        → ((term_at log snapshot.log_index ≡ some snapshot.log_term)
            × (log' ≡ record log { snapshot = snapshot; first_index = snapshot.log_index + 1 }))
          ⊎ (log' ≡ create_new_log snapshot)
    go none e k = ground arith
    go (some t) e k = ground arith

compacted-IsLog :
    (log : Log) (snapshot : Snapshot)
    → IsLog log
    → term_at log snapshot.log_index ≡ some snapshot.log_term
    → IsLog (record log { snapshot = snapshot; first_index = snapshot.log_index + 1 })
unfolding read_term_at
compacted-IsLog log snapshot h e =
    let (low, high, read, same) = term_at-read log snapshot.log_index snapshot.log_term h e in
    record {
      starts = omega (arith, h.starts, h.after_snapshot);
      ends = h.ends;
      after_snapshot = refl;
      covers = high;
      last_term_read = h.last_term_read;
      last_term_snapshot = λ l. h.last_term_snapshot l ∙ sym (same (omega (arith, l)));
      snapshot_term = read;
      ids = h.ids;
    }

pub create_new_log-IsLog : (snapshot : Snapshot) → IsLog (create_new_log snapshot)
unfolding create_new_log Remembered
create_new_log-IsLog snapshot = record {
  starts = omega arith;
  ends = omega arith;
  after_snapshot = refl;
  covers = omega arith;
  last_term_read = λ l. absurd (omega (arith, l));
  last_term_snapshot = λ l. refl;
  snapshot_term = λ l. absurd (omega (arith, l));
  ids = tt;
}

-- A snapshot installed, whether it compacts the log or replaces it, leaves a well-formed log.
pub install_snapshot-IsLog :
    (log log' : Log) (snapshot : Snapshot) (compact_only : Bool)
    → IsLog log
    → install_snapshot log snapshot compact_only ≡ ok log'
    → IsLog log'
install_snapshot-IsLog log log' snapshot compact_only h e =
    elim (install_snapshot-cases log log' snapshot compact_only e) [
      | inl part ↦ subst IsLog (sym part.1) (compacted-IsLog log snapshot h part.0)
      | inr same ↦ subst IsLog (sym same) (create_new_log-IsLog snapshot)
    ]

-- What `termAt` gives is the term of the entry at that index, or of the snapshot where the log no
-- longer has it; and the index is neither before the snapshot nor behind the last.
pub term_at-eq :
    (log : Log) (i t : ℕ)
    → IsLog log
    → term_at log i ≡ some t
    → (log.snapshot.log_index ≤ i)
      × (i ≤ log.last_index)
      × ((read_term_at log i ≡ some t) ⊎ ((i < log.base) × (t ≡ log.snapshot.log_term)))
term_at-eq log i t h e =
    let (low, high, read, same) = term_at-read log i t h e in
    (
      low,
      high,
      elim (Bool-cases (leb log.base i)) [
        | inl l ↦ inl (read (leb→le log.base i l))
        | inr l ↦ inr (before log.base i l, same (before log.base i l))
      ],
    )
  where
    before : (a b : ℕ) → leb a b ≡ false → b < a
    before a b l = ground arith

-- A snapshot that ends before the one in use replaces a well-formed log, whatever its entries, unless
-- only a compaction is allowed; then it is refused.
pub install_snapshot_stale :
    (log : Log) (snapshot : Snapshot)
    → IsLog log
    → snapshot.log_index < log.snapshot.log_index
    → (install_snapshot log snapshot false ≡ ok (create_new_log snapshot))
      × (install_snapshot log snapshot true ≡ err not_a_compaction)
unfolding install_snapshot term_at
install_snapshot_stale log snapshot h l = ground (arith, h.after_snapshot, h.covers)
