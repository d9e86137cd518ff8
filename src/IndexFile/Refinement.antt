-- ===== src/IndexFile/Refinement.antt =====
-- The operations of a log file, lib/common/indexfile.js, carry out those of the list of entries.
use node_zmq_raft.Prelude.{
  ℕ, suc, ◌+◌, ◌-◌, ◌<◌, ◌≤◌, ◌≡◌, refl, List, length, arith, ◌∙◌, sym, true, false, ◌==◌, ltb,
  Result, ok, err, ap, ◌++◌, [], ◌∷◌, inl, inr, Bool-cases, subst, Option, none, some, take,
}
use node_zmq_raft.IndexFile.{IndexFile, before, max_datasize, Refusal, local}
use node_zmq_raft.IndexFile.Writing.{
  Step, total_size, target, cut_at, truncate_table, write_at, commit_write, mark_entry,
}
use node_zmq_raft.IndexFile.Entries.{IsWritten, entries_of, entries_of-IsKept, IsWritten-fewer}
use node_zmq_raft.IndexFile.Committed.{
  IsCommitted, entries, cut_at-IsKept, IsMarked, mark_entry-IsMarked, commit_write-IsCommitted,
}
use node_zmq_raft.IndexFile.Spec.{
  Bytes, Log, spec_fill, spec_extend, spec_target, spec_cut, view, length-entries_of,
  total_size-entries_of, take-entries_of,
}
use node_zmq_raft.IndexFile.Filling.{spec_fill-full, spec_fill-over, spec_fill-one}

pub length-entries : (f : IndexFile) → length (entries f) ≡ f.next_at
unfolding entries
length-entries f = length-entries_of f.offsets f.content f.next_at

-- A file, and what it answers, that the log given explains.
abbrev pub Refines : {A : Type 0} → Step A → Log × Result Refusal A → Type 0
Refines (g, reply) spec = IsCommitted g × ((view g, reply) ≡ spec)

entries-cut_at :
    (f : IndexFile) (i : ℕ)
    → IsCommitted f
    → i ≤ f.next_at
    → entries (cut_at f i) ≡ take i (entries f)
unfolding entries truncate_table
entries-cut_at f i c h =
    entries_of-IsKept i (IsWritten-fewer i h c.written) (cut_at-IsKept f i h)
    ∙ sym (take-entries_of f.offsets f.content i f.next_at h)

pub view-cut_at :
    (f : IndexFile) (i : ℕ)
    → IsCommitted f
    → i ≤ f.next_at
    → view (cut_at f i) ≡ spec_cut (view f) i
unfolding truncate_table
view-cut_at f i c h =
    ap (λ log. record { index = f.index; capacity = f.capacity; log = log })
      (entries-cut_at f i c h)

pub target-eq : (f : IndexFile) (at : Option ℕ) → target f at ≡ spec_target (view f) at
unfolding target spec_target local
target-eq f none = rw (length-entries f) refl
target-eq f (some index) = ground (arith)

-- What is extended, by the answer of the specification.
pub spec_extend-ok :
    (s : Log) (all log : List Bytes) (left : ℕ)
    → spec_fill s.capacity s.log all ≡ ok (log, left)
    → spec_extend s all ≡ (record s { log = log }, ok (left, s.index + length log))
unfolding spec_extend
spec_extend-ok s all log left e = rw (spec_extend, e) refl

pub spec_extend-err :
    (s : Log) (all : List Bytes) (refusal : Refusal)
    → spec_fill s.capacity s.log all ≡ err refusal
    → spec_extend s all ≡ (s, err refusal)
unfolding spec_extend
spec_extend-err s all refusal e = rw (spec_extend, e) refl

pub Refines-eq :
    {A : Type 0} {step : Step A} (step' : Step A) {spec : Log × Result Refusal A}
    → step ≡ step'
    → Refines step' spec
    → Refines step spec
Refines-eq step' {spec} e r = subst (λ step. Refines step spec) (sym e) r

-- The branches of `writeAt`.
module _ (f : IndexFile) (bytes : Bytes) (i position : ℕ) where
  write_at-full :
      (i == f.capacity) ≡ true → write_at f bytes i position false ≡ (f, ok (1, f.index + i))
  unfolding write_at
  write_at-full e = rw e

  write_at-over :
      ltb max_datasize (position + length bytes) ≡ true
      → write_at f bytes i position false ≡ (f, ok (1, f.index + i))
  unfolding write_at
  write_at-over e = ground arith

  write_at-one :
      (i == f.capacity) ≡ false
      → ltb max_datasize (position + length bytes) ≡ false
      → write_at f bytes i position false ≡ (
        record (commit_write (mark_entry f bytes i position) i 1) { next_at = suc i },
        ok (0, f.index + suc i),
      )
  unfolding write_at
  write_at-one e d = rw (e, d)

same-view : (f : IndexFile) → record (view f) { log = entries f } ≡ view f
same-view f = refl

-- A log file that is full, or that an entry does not fit in, stays as it is.
pub unchanged-Refines :
    (f : IndexFile) (all : List Bytes) (left : ℕ)
    → IsCommitted f
    → spec_fill f.capacity (entries f) all ≡ ok (entries f, left)
    → Refines (f, ok (left, f.index + f.next_at)) (spec_extend (view f) all)
unchanged-Refines f all left c e = (
  c,
  ap (λ n. (view f, ok (left, f.index + n))) (sym (length-entries f))
      ∙ sym (spec_extend-ok (view f) all (entries f) left e),
)

-- What is committed behind the entries that stay.
pub grown-Refines :
    (f g : IndexFile) (all : List Bytes) (left more : ℕ)
    → IsCommitted g
    → (g.index ≡ f.index) × (g.capacity ≡ f.capacity) × (g.next_at ≡ more)
    → spec_fill f.capacity (entries f) all ≡ ok (entries g, left)
    → Refines (g, ok (left, f.index + more)) (spec_extend (view f) all)
grown-Refines f g all left more c (same_index, same_capacity, at) e = (
  c,
  rw (spec_extend-ok (view f) all (entries g) left e)
      (rw (length-entries g, at, same_index, same_capacity) refl),
)

-- The entries of a file that are followed by the one marked.
pub entries-marked :
    (f m : IndexFile) (bytes : Bytes) (i : ℕ)
    → IsWritten f.offsets f.content i
    → IsMarked f bytes i m
    → entries_of m.offsets m.content (suc i) ≡ entries_of f.offsets f.content i ++ bytes ∷ []
unfolding entries_of
entries-marked f m bytes i w marked = rw (entries_of-IsKept i w marked.kept, marked.added) refl

pub total_size-entries :
    (f : IndexFile) → IsCommitted f → total_size (entries f) ≡ before f.offsets f.next_at
unfolding entries
total_size-entries f c = total_size-entries_of f.offsets f.content f.next_at c.written

pub commit_one :
    (m : IndexFile)
    → IsCommitted m
    → (i : ℕ) → m.next_at ≡ i
    → IsWritten m.offsets m.content (suc i)
    → i < m.capacity
    → IsCommitted (record (commit_write m i 1) { next_at = suc i })
commit_one m c i at w inside =
    subst (λ n. IsCommitted (record (commit_write m i n) { next_at = suc i })) (omega arith)
      (subst (λ j. IsCommitted (record (commit_write m j (suc i - j)) { next_at = suc i })) at
        (commit_write-IsCommitted m (suc i) c w (omega arith) inside))

marked-Refines :
    (f : IndexFile) (bytes : Bytes)
    → IsCommitted f
    → (length bytes == 0) ≡ false
    → (f.next_at == f.capacity) ≡ false
    → ltb max_datasize (before f.offsets f.next_at + length bytes) ≡ false
    → Refines
        (
          record (commit_write
              (mark_entry f bytes f.next_at (before f.offsets f.next_at))
              f.next_at
              1) { next_at = suc f.next_at },
          ok (0, f.index + suc f.next_at),
        )
        (spec_extend (view f) (bytes ∷ []))
unfolding commit_write entries spec_fill
marked-Refines f bytes c filled room fits =
    let i = f.next_at in
    let m = mark_entry f bytes i (before f.offsets i) in
    let marked : IsMarked f bytes i m =
      mark_entry-IsMarked f bytes i c c.written (omega arith) (ground (arith, c.bounded))
        (ground arith) (ground arith) in
    let (same_index, same_capacity, same_at) = marked.same_place in
    grown-Refines f (record (commit_write m i 1) { next_at = suc i }) (bytes ∷ []) 0 (suc i)
      (commit_one m marked.committed i same_at marked.written
        (subst (λ n. i < n) (sym same_capacity) (ground (arith, c.bounded))))
      (same_index, same_capacity, refl)
      (spec_fill-one f.capacity (entries f) bytes [] (rw (length-entries f) room) filled
          (rw (total_size-entries f c) fits)
        ∙ ap (λ log. ok (log, 0)) (sym (entries-marked f m bytes i c.written marked)))

-- A committed write at the next index.
pub append-Refines :
    (f : IndexFile) (bytes : Bytes)
    → IsCommitted f
    → (length bytes == 0) ≡ false
    → Refines
        (write_at f bytes f.next_at (before f.offsets f.next_at) false)
        (spec_extend (view f) (bytes ∷ []))
append-Refines f bytes c filled = elim (Bool-cases (f.next_at == f.capacity)) [
  | inl full ↦ Refines-eq _ (write_at-full f bytes f.next_at _ full) (
      unchanged-Refines f (bytes ∷ []) 1 c
        (spec_fill-full f.capacity (entries f) bytes [] (rw (length-entries f) full)))
  | inr room ↦ elim (Bool-cases (ltb max_datasize (before f.offsets f.next_at + length bytes))) [
    | inl over ↦ Refines-eq _ (write_at-over f bytes f.next_at _ over) (
        unchanged-Refines f (bytes ∷ []) 1 c (
          spec_fill-over f.capacity (entries f) bytes [] (rw (length-entries f) room) filled
            (rw (total_size-entries f c) over)))
    | inr fits ↦
        Refines-eq _ (write_at-one f bytes f.next_at _ room fits)
          (marked-Refines f bytes c filled room fits)
  ]
]
