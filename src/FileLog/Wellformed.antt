-- ===== src/FileLog/Wellformed.antt =====
-- The well-formed logs of lib/server/filelog.js, and that `_truncate` keeps them so.
use node_zmq_raft.FileLog.{
  Entry, Log, clean_rdb, clean_requests, read_term_at, forget_from, term_before, truncate,
}
use node_zmq_raft.Prelude.{
  ℕ, ◌+◌, ◌-◌, ◌<◌, ◌≤◌, ◌≡◌, ap, sym, ◌∙◌, subst, Bool, ◌||◌, false, suc, List, [], ◌∷◌, ◌++◌,
  some, String, length, get_elem?, take, ltb, leb, arith, ok, length-take, Bool-cases, inl, inr,
  eq_iff, get_elem?-take, get_elem?-append_left, get_elem?-some, get_elem?-bound, le→leb, ◌⊎◌,
  lt→ltb,
}
use node_zmq_raft.Prelude.JsMap
use node_zmq_raft.Prelude.JsMap.{JsMap, same}

-- The remembered request ids each name an entry that carries them.
unfoldable pub KeyAt : List Entry → ℕ → String → ℕ → Type 0
KeyAt entries base key i =
    (base ≤ i)
    × (entry : Entry) × (get_elem? entries (i - base) ≡ some entry)
    × (entry.key ≡ some key)

unfoldable pub Remembered : List Entry → ℕ → JsMap ℕ → Type 0
Remembered entries base [] = Unit {0}
Remembered entries base ((key, i) ∷ rdb) = KeyAt entries base key i × Remembered entries base rdb

-- The entries run from `base` to the last index, the snapshot ends where the first index says, and
-- the last term and the snapshot's are those of the entries they stand for.
pub record IsLog (log : Log) : Type 0 where
  pub starts : log.base ≤ log.first_index
  pub ends : log.last_index + 1 ≡ log.base + length log.entries
  pub after_snapshot : log.first_index ≡ log.snapshot.log_index + 1
  pub covers : log.snapshot.log_index ≤ log.last_index
  pub last_term_read :
      log.base ≤ log.last_index → read_term_at log log.last_index ≡ some log.last_term
  pub last_term_snapshot : log.last_index < log.base → log.last_term ≡ log.snapshot.log_term
  pub snapshot_term :
      log.base ≤ log.snapshot.log_index
      → read_term_at log log.snapshot.log_index ≡ some log.snapshot.log_term
  pub ids : Remembered log.entries log.base log.rdb

-- A key stays remembered when the entries change behind it, or grow.
KeyAt-take :
    (entries : List Entry) (base n : ℕ) (key : String) (i : ℕ)
    → i - base < n
    → KeyAt entries base key i
    → KeyAt (take n entries) base key i
unfolding KeyAt
KeyAt-take entries base n key i h (low, entry, e, k) =
    (low, entry, get_elem?-take n entries (i - base) h ∙ e, k)

KeyAt-low :
    (entries : List Entry) (base : ℕ) (key : String) (i : ℕ) → KeyAt entries base key i → base ≤ i
unfolding KeyAt
KeyAt-low entries base key i (low, entry, e, k) = low

below : (base index i : ℕ) → base ≤ i → leb index i ≡ false → i - base < index - base
below base index i l e = ground arith

forget_from-Remembered :
    (entries : List Entry) (base index : ℕ) (rdb : JsMap ℕ)
    → base ≤ index
    → Remembered entries base rdb
    → Remembered (take (index - base) entries) base (forget_from index rdb)
unfolding forget_from Remembered
forget_from-Remembered entries base index [] l h = tt
forget_from-Remembered entries base index ((key, i) ∷ rdb) l (at, h) =
    let rest = forget_from-Remembered entries base index rdb l h in
    elim (Bool-cases (leb index i)) [
      | inl e ↦ rw e rest
      | inr e ↦ rw e (
        KeyAt-take entries base (index - base) key i
            (below base index i (KeyAt-low entries base key i at) e) at,
        rest,
      )
    ]

pub KeyAt-append :
    (entries more : List Entry) (base : ℕ) (key : String) (i : ℕ)
    → KeyAt entries base key i
    → KeyAt (entries ++ more) base key i
unfolding KeyAt
KeyAt-append entries more base key i (low, entry, e, k) = (
  low,
  entry,
  get_elem?-append_left entries more (i - base) (get_elem?-bound entries (i - base) e) ∙ e,
  k,
)

pub Remembered-append :
    (entries more : List Entry) (base : ℕ) (rdb : JsMap ℕ)
    → Remembered entries base rdb
    → Remembered (entries ++ more) base rdb
unfolding Remembered
Remembered-append entries more base [] h = tt
Remembered-append entries more base ((key, i) ∷ rdb) (at, h) =
    (KeyAt-append entries more base key i at, Remembered-append entries more base rdb h)

pub set-Remembered :
    (entries : List Entry) (base : ℕ) (key : String) (i : ℕ) (rdb : JsMap ℕ)
    → KeyAt entries base key i
    → Remembered entries base rdb
    → Remembered entries base (JsMap.set rdb key i)
unfolding Remembered JsMap.set
set-Remembered entries base key i [] at h = (at, tt)
set-Remembered entries base key i ((j, w) ∷ rdb) at (here, h) =
    let rest = set-Remembered entries base key i rdb at h in
    elim (Bool-cases (same j key)) [
      | inl e ↦ rw e (subst (λ k. KeyAt entries base k i) (sym ((eq_iff j key).0 e)) at, h)
      | inr e ↦ rw e (here, rest)
    ]

pub read_term_at-eq :
    (log : Log) (i : ℕ) (entry : Entry)
    → log.base ≤ i
    → get_elem? log.entries (i - log.base) ≡ some entry
    → read_term_at log i ≡ some entry.term
unfolding read_term_at
read_term_at-eq log i entry l e = rw (le→leb log.base i l, e)

-- Inside a well-formed log there is an entry to read.
pub read_term_at-some :
    (log : Log) (i : ℕ)
    → log.base ≤ i
    → i - log.base < length log.entries
    → (t : ℕ) × (read_term_at log i ≡ some t)
unfolding read_term_at
read_term_at-some log i l h =
    let (entry, e) = get_elem?-some log.entries (i - log.base) h in
    (entry.term, rw (le→leb log.base i l, e))

-- A log cut at an index inside its range.
unfoldable pub cut : Log → ℕ → Log
cut log index = record log {
  last_index = index - 1;
  last_term = term_before log index;
  entries = take (index - log.base) log.entries;
  rdb = forget_from index log.rdb;
}

read_term_at-cut :
    (log : Log) (index i : ℕ)
    → log.base ≤ i
    → i < index
    → read_term_at (cut log index) i ≡ read_term_at log i
unfolding read_term_at cut
read_term_at-cut log index i l h = rw (
  le→leb log.base i l,
  get_elem?-take (index - log.base) log.entries (i - log.base) (omega arith),
)

term_before-read :
    (log : Log) (index t : ℕ)
    → log.base < index
    → read_term_at log (index - 1) ≡ some t
    → term_before log index ≡ t
unfolding term_before
term_before-read log index t l e = rw (lt→ltb log.base index l, e)

term_before-snapshot :
    (log : Log) (index : ℕ) → index ≤ log.base → term_before log index ≡ log.snapshot.log_term
unfolding term_before
term_before-snapshot log index l = rw (ltb-false log.base index l)
  where
    ltb-false : (a b : ℕ) → b ≤ a → ltb a b ≡ false
    ltb-false a b h = ground arith

cut-IsLog :
    (log : Log) (index : ℕ)
    → IsLog log
    → log.first_index ≤ index
    → index ≤ log.last_index
    → IsLog (cut log index)
unfolding cut
cut-IsLog log index h low high = record {
  starts = h.starts;
  ends =
      omega (arith, length-take (index - log.base) log.entries, h.ends, h.starts, h.after_snapshot);
  after_snapshot = h.after_snapshot;
  covers = omega (arith, h.after_snapshot);
  last_term_read = λ l.
      let (t, e) =
        read_term_at-some log (index - 1) l (omega (arith, h.ends, h.starts, h.after_snapshot)) in
      read_term_at-cut log index (index - 1) l (omega (arith, h.after_snapshot))
      ∙ e
      ∙ ap some (sym (term_before-read log index t (omega (arith, h.after_snapshot)) e));
  last_term_snapshot = λ l. term_before-snapshot log index (omega (arith, l));
  snapshot_term = λ l.
      read_term_at-cut log index log.snapshot.log_index l (omega (arith, h.after_snapshot))
      ∙ h.snapshot_term l;
  ids = forget_from-Remembered log.entries log.base index log.rdb (omega (arith, h.starts)) h.ids;
}

-- What a truncation that is not refused gives: the log itself, or the log cut.
pub truncate-cases :
    (log log' : Log) (index : ℕ)
    → truncate log index ≡ ok log'
    → (log.first_index ≤ index)
      × (index ≤ log.last_index + 1)
      × (((index ≡ log.last_index + 1) × (log' ≡ log))
          ⊎ ((index ≤ log.last_index) × (log' ≡ cut log index)))
unfolding truncate cut
truncate-cases log log' index h = ground arith

pub truncate-IsLog :
    (log log' : Log) (index : ℕ) → IsLog log → truncate log index ≡ ok log' → IsLog log'
truncate-IsLog log log' index h e =
    let (low, high, cases) = truncate-cases log log' index e in
    elim cases [
      | inl same ↦ subst IsLog (sym same.1) h
      | inr part ↦ subst IsLog (sym part.1) (cut-IsLog log index h low part.0)
    ]

-- The cleanup forgets ids and changes nothing else.
module _ (expired : String → Bool) (most : ℕ) where
  clean_rdb-Remembered :
      (entries : List Entry) (base : ℕ) (rdb : JsMap ℕ)
      → Remembered entries base rdb
      → Remembered entries base (clean_rdb expired most rdb)
  unfolding clean_rdb Remembered
  clean_rdb-Remembered entries base [] r = tt
  clean_rdb-Remembered entries base ((key, i) ∷ rdb) (k, r) =
      elim (Bool-cases (expired key || ltb most (suc (length rdb)))) [
        | inl e ↦ rw e (clean_rdb-Remembered entries base rdb r)
        | inr e ↦ rw e (k, r)
      ]

  clean_rdb-length : (rdb : JsMap ℕ) → length (clean_rdb expired most rdb) ≤ most
  unfolding clean_rdb
  clean_rdb-length [] = omega arith
  clean_rdb-length ((key, i) ∷ rdb) =
      elim (Bool-cases (expired key || ltb most (suc (length rdb)))) [
        | inl e ↦ rw e (clean_rdb-length rdb)
        | inr e ↦ rw e (ground (arith, e))
      ]

  clean_requests-IsLog :
      (log : Log)
      → IsLog log
      → IsLog (clean_requests expired log most)
        × (length (clean_requests expired log most).rdb ≤ most)
  unfolding clean_requests read_term_at
  clean_requests-IsLog log l = (
    record {
      starts = l.starts;
      ends = l.ends;
      after_snapshot = l.after_snapshot;
      covers = l.covers;
      last_term_read = l.last_term_read;
      last_term_snapshot = l.last_term_snapshot;
      snapshot_term = l.snapshot_term;
      ids = clean_rdb-Remembered log.entries log.base log.rdb l.ids;
    },
    clean_rdb-length log.rdb,
  )
