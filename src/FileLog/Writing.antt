-- ===== src/FileLog/Writing.antt =====
-- `_writeEntries` and `appendEntries` of lib/server/filelog.js.
use node_zmq_raft.FileLog.Wellformed.{
  KeyAt, Remembered, IsLog, Remembered-append, set-Remembered, cut, truncate-cases, truncate-IsLog,
}
use node_zmq_raft.FileLog.{
  Entry, Log, read_term_at, truncate, remember, write, write_entries, append_entries, get_entries,
  includes, all_have_data,
}
use node_zmq_raft.Prelude.{
  drop-append_at, ℕ, suc, ◌+◌, ◌-◌, ◌<◌, ◌≤◌, ◌≡◌, refl, ap, sym, ◌∙◌, subst, Bool, List, [], ◌∷◌,
  ◌++◌, Option, none, some, String, length, take, arith, ok, assert, ◌>>=◌, >>=-eq-ok, ok-injective,
  length-append, length-take, append-nil, append_assoc, Bool-cases, inl, inr, get_elem?-append_left,
  get_elem?-append_at, take-all, le→leb,
}
use node_zmq_raft.Prelude.JsMap.{same}

module _ (expired : String → Bool) where
  -- One entry written behind the last.
  unfoldable pub grow : Log → Entry → Log
  grow log entry = record log {
    last_index = suc log.last_index;
    last_term = entry.term;
    entries = log.entries ++ entry ∷ [];
    rdb = remember expired log.rdb entry.key (suc log.last_index);
  }

  read_term_at-grow_old :
      (log : Log) (entry : Entry) (i : ℕ)
      → log.base ≤ i
      → i - log.base < length log.entries
      → read_term_at (grow log entry) i ≡ read_term_at log i
  unfolding read_term_at grow
  read_term_at-grow_old log entry i l h =
      rw (le→leb log.base i l, get_elem?-append_left log.entries (entry ∷ []) (i - log.base) h)

  read_term_at-grow_new :
      (log : Log) (entry : Entry)
      → log.last_index + 1 ≡ log.base + length log.entries
      → read_term_at (grow log entry) (suc log.last_index) ≡ some entry.term
  unfolding read_term_at grow
  read_term_at-grow_new log entry h = rw (
    le→leb log.base (suc log.last_index) (omega arith),
    get_elem?-append_at log.entries [] entry (suc log.last_index - log.base) (omega arith),
  )

  remember-Remembered :
      (log : Log) (entry : Entry)
      → log.last_index + 1 ≡ log.base + length log.entries
      → Remembered log.entries log.base log.rdb
      → (key : Option String) → entry.key ≡ key
      → Remembered
          (log.entries ++ entry ∷ [])
          log.base
          (remember expired log.rdb key (suc log.last_index))
  unfolding remember KeyAt
  remember-Remembered log entry h ids none e =
      Remembered-append log.entries (entry ∷ []) log.base log.rdb ids
  remember-Remembered log entry h ids (some key) e =
      let old = Remembered-append log.entries (entry ∷ []) log.base log.rdb ids in
      elim (Bool-cases (expired key)) [
        | inl t ↦ rw t old
        | inr t ↦ rw t (
            set-Remembered (log.entries ++ entry ∷ []) log.base key (suc log.last_index) log.rdb
              (new key e) old)
      ]
    where
      new :
          (key : String)
          → entry.key ≡ some key
          → KeyAt (log.entries ++ entry ∷ []) log.base key (suc log.last_index)
      new key e = (
        omega arith,
        entry,
        get_elem?-append_at log.entries [] entry (suc log.last_index - log.base) (omega arith),
        e,
      )

  pub grow-IsLog : (log : Log) (entry : Entry) → IsLog log → IsLog (grow log entry)
  unfolding grow
  grow-IsLog log entry h = record {
    starts = h.starts;
    ends = omega (arith, length-append log.entries (entry ∷ []), h.ends);
    after_snapshot = h.after_snapshot;
    covers = omega (arith, h.covers);
    last_term_read = λ l. read_term_at-grow_new log entry h.ends;
    last_term_snapshot = λ l. absurd (omega (arith, h.ends, l));
    snapshot_term = λ l.
        read_term_at-grow_old log entry log.snapshot.log_index l
          (omega (arith, h.ends, h.covers, l))
        ∙ h.snapshot_term l;
    ids = remember-Remembered log entry h.ends h.ids entry.key refl;
  }

  write-IsLog : (entries : List Entry) (log : Log) → IsLog log → IsLog (write expired log entries)
  unfolding write grow
  write-IsLog [] log h = h
  write-IsLog (entry ∷ entries) log h =
      write-IsLog entries (grow log entry) (grow-IsLog log entry h)

  -- Appending entries, after the truncation it starts with, keeps a log well-formed.
  pub append_entries-IsLog :
      (log log' : Log) (entries : List Entry) (index : ℕ)
      → IsLog log
      → append_entries expired log entries index ≡ ok log'
      → IsLog log'
  unfolding append_entries write_entries
  append_entries-IsLog log log' entries index h e =
      let (u, ea, eb) =
        >>=-eq-ok (assert (all_have_data entries) _)
          (λ u. truncate log index >>= λ l. ok (write expired l entries)) e in
      let (l, ec, ed) = >>=-eq-ok (truncate log index) (λ l. ok (write expired l entries)) eb in
      subst IsLog (ok-injective ed) (write-IsLog entries l (truncate-IsLog log l index h ec))

write-entries :
    (expired : String → Bool) (entries : List Entry) (log : Log)
    → ((write expired log entries).entries ≡ log.entries ++ entries)
      × ((write expired log entries).last_index ≡ log.last_index + length entries)
      × ((write expired log entries).base ≡ log.base)
      × ((write expired log entries).snapshot ≡ log.snapshot)
      × ((write expired log entries).first_index ≡ log.first_index)
unfolding write grow
write-entries expired [] log = (sym (append-nil log.entries), omega arith, refl, refl, refl)
write-entries expired (entry ∷ entries) log =
    let (e, l, b, s, f) = write-entries expired entries (grow expired log entry) in
    (e ∙ append_assoc log.entries (entry ∷ []) entries, omega (arith, l), b, s, f)

-- The second log is the first with the entries from an index on replaced.
unfoldable pub Written : Log → Log → List Entry → ℕ → Type 0
Written log log' entries index =
    (log'.entries ≡ take (index - log.base) log.entries ++ entries)
    × (log'.last_index + 1 ≡ index + length entries)
    × (log'.base ≡ log.base)
    × (log'.snapshot ≡ log.snapshot)
    × (log'.first_index ≡ log.first_index)

behind_last :
    (expired : String → Bool) (log : Log) (entries : List Entry) (index : ℕ)
    → IsLog log
    → index ≡ log.last_index + 1
    → Written log (write expired log entries) entries index
unfolding Written
behind_last expired log entries index h at =
    let (c, d, b, s, f) = write-entries expired entries log in
    (
      c
          ∙ ap (λ es. es ++ entries)
              (sym (take-all (index - log.base) log.entries (omega (arith, h.ends, h.starts)))),
      omega (arith, d),
      b,
      s,
      f,
    )

inside_log :
    (expired : String → Bool) (log : Log) (entries : List Entry) (index : ℕ)
    → IsLog log
    → log.first_index ≤ index
    → Written log (write expired (cut log index) entries) entries index
unfolding Written cut
inside_log expired log entries index h low =
    let (c, d, b, s, f) = write-entries expired entries (cut log index) in
    (c, omega (arith, d, h.after_snapshot), b, s, f)

-- A write that is not refused starts inside the log or right behind it, leaves the entries before
-- that index as they were, and puts those given behind them, up to the last index.
pub append_entries-Written :
    (expired : String → Bool) (log log' : Log) (entries : List Entry) (index : ℕ)
    → IsLog log
    → append_entries expired log entries index ≡ ok log'
    → (log.first_index ≤ index) × (index ≤ log.last_index + 1) × Written log log' entries index
unfolding append_entries write_entries
append_entries-Written expired log log' entries index h e =
    let (u, ea, eb) =
      >>=-eq-ok (assert (all_have_data entries) _)
        (λ u. truncate log index >>= λ l. ok (write expired l entries)) e in
    let (l, ec, ed) = >>=-eq-ok (truncate log index) (λ l. ok (write expired l entries)) eb in
    let (low, high, cases) = truncate-cases log l index ec in
    let via = λ (m : Log) (same : l ≡ m) (w : Written log (write expired m entries) entries index).
      subst (λ r. Written log r entries index)
        (ap (λ m. write expired m entries) (sym same) ∙ ok-injective ed) w in
    (
      low,
      high,
      elim cases [
        | inl (at, same) ↦ via log same (behind_last expired log entries index h at)
        | inr (at, part) ↦ via (cut log index) part (inside_log expired log entries index h low)
      ],
    )

get_entries-Written :
    (log log' : Log) (entries : List Entry) (index : ℕ)
    → log.base ≤ index
    → index - log.base ≤ length log.entries
    → Written log log' entries index
    → get_entries log' index log'.last_index ≡ ok entries
unfolding get_entries includes Written
get_entries-Written log log' entries index low high (c, d, b, s, f) =
    rw
      (
        c,
        b,
        drop-append_at (take (index - log.base) log.entries) entries (index - log.base)
            (omega (arith, length-take (index - log.base) log.entries)),
      )
      (ground (
        arith,
        length-append (take (index - log.base) log.entries) entries,
        length-take (index - log.base) log.entries,
        take-all (log'.last_index + 1 - index) entries,
      ))

-- The entries written are read back from their index to the last.
pub get_entries-append_entries :
    (expired : String → Bool) (log log' : Log) (entries : List Entry) (index : ℕ)
    → IsLog log
    → append_entries expired log entries index ≡ ok log'
    → get_entries log' index log'.last_index ≡ ok entries
get_entries-append_entries expired log log' entries index h e =
    let (low, high, w) = append_entries-Written expired log log' entries index h e in
    get_entries-Written log log' entries index (omega (arith, h.starts)) (omega (arith, h.ends)) w
