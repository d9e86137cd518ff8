-- ===== src/IndexFile/Vectors.antt =====
-- `writev` of lib/common/indexfile.js against the list of entries.
use node_zmq_raft.Prelude.{
  ℕ, ◌+◌, ◌-◌, ◌≤◌, ◌≡◌, refl, List, length, arith, ◌∙◌, sym, ◌==◌, Result, ok, err, ap, map, inl,
  inr, Bool-cases, subst, Option, none, some, length-map,
}
use node_zmq_raft.IndexFile.{IndexFile, before, max_datasize, Refusal}
use node_zmq_raft.IndexFile.Writing.{
  Entry, entry_bytes, target, truncate_table, writev_from, fitting, commit_write, writev_at, writev,
  commit_written, write_buffers_up_to, clear_and_write_if_dirty, Written,
}
use node_zmq_raft.IndexFile.Entries.{IsWritten, entries_of, entries_of-IsKept, IsWritten-fewer}
use node_zmq_raft.IndexFile.Committed.{IsCommitted, entries, commit_write-IsCommitted}
use node_zmq_raft.IndexFile.Spec.{
  Bytes, spec_fill, spec_extend, spec_writev_from, spec_writev, view,
}
use node_zmq_raft.IndexFile.Filling.{IsFilled, Answers}
use node_zmq_raft.IndexFile.Refinement.{Refines, target-eq, grown-Refines, spec_extend-err}
use node_zmq_raft.IndexFile.Calls.{step-Refines}
use node_zmq_raft.IndexFile.Fitting.{
  kept-IsCommitted, clear_and_write_if_dirty-kept, HasRoom, fitting-HasRoom,
  write_buffers_up_to-IsFilled,
}

commit_many :
    (m : IndexFile)
    → IsCommitted m
    → (i count : ℕ) → m.next_at ≡ i
    → IsWritten m.offsets m.content (i + count)
    → i + count ≤ m.capacity
    → IsCommitted (record (commit_write m i count) { next_at = i + count })
commit_many m c i count at w inside =
    subst (λ n. IsCommitted (record (commit_write m i n) { next_at = i + count })) (omega arith)
      (subst (λ j. IsCommitted (record (commit_write m j (i + count - j)) { next_at = i + count }))
        at (commit_write-IsCommitted m (i + count) c w (omega arith) inside))

-- What follows the writer, from what the writer has done.
module _ (f : IndexFile) (c : IsCommitted f) (all : List Bytes) where
  record IsLeft (g : IndexFile) (added : ℕ) : Type 0 where
    committed : IsCommitted g
    same_place : (g.index ≡ f.index) × (g.capacity ≡ f.capacity) × (g.next_at ≡ f.next_at)
    few : f.next_at + added ≤ f.capacity
    written : IsWritten g.offsets g.content (f.next_at + added)
    same_entries : entries g ≡ entries f

  refused-Refines :
      (g : IndexFile) (added : ℕ) (refusal : Refusal)
      → IsLeft g added
      → spec_fill f.capacity (entries f) all ≡ err refusal
      → Refines (g, err refusal) (spec_extend (view f) all)
  refused-Refines g added refusal l e =
      let (same_index, same_capacity, same_at) = l.same_place in
      (
        l.committed,
        rw (spec_extend-err (view f) all refusal e, l.same_entries, same_index, same_capacity) refl,
      )

  none-Refines :
      (g : IndexFile) (left : ℕ)
      → IsLeft g 0
      → spec_fill f.capacity (entries f) all ≡ ok (entries f, left)
      → Refines (g, ok (left, g.index + f.next_at)) (spec_extend (view f) all)
  none-Refines g left l e =
      let (same_index, same_capacity, same_at) = l.same_place in
      subst (λ n. Refines (g, ok (left, n + f.next_at)) (spec_extend (view f) all)) (sym same_index)
        (grown-Refines f g all left f.next_at l.committed l.same_place
          (e ∙ ap (λ log. ok (log, left)) (sym l.same_entries)))

  some-Refines :
      (g : IndexFile) (added left : ℕ)
      → IsLeft g added
      → spec_fill f.capacity (entries f) all
        ≡ ok (entries_of g.offsets g.content (f.next_at + added), left)
      → Refines
          (
            record (commit_write (clear_and_write_if_dirty g (f.next_at + added)) f.next_at added) {
              next_at = f.next_at + added;
            },
            ok (left, g.index + (f.next_at + added)),
          )
          (spec_extend (view f) all)
  unfolding clear_and_write_if_dirty commit_write entries
  some-Refines g added left l e =
      let (same_index, same_capacity, same_at) = l.same_place in
      let stop = f.next_at + added in
      let m = clear_and_write_if_dirty g stop in
      let (cm, wm, km) =
        clear_and_write_if_dirty-kept g stop l.committed (omega (arith, same_at))
          (omega (arith, same_capacity, l.few)) l.written in
      subst
        (λ n.
          Refines (record (commit_write m f.next_at added) { next_at = stop }, ok (left, n + stop))
            (spec_extend (view f) all))
        (sym same_index)
        (grown-Refines f (record (commit_write m f.next_at added) { next_at = stop }) all left stop
          (commit_many m cm f.next_at added same_at wm (omega (arith, same_capacity, l.few)))
          (same_index, same_capacity, refl)
          (e ∙ ap (λ log. ok (log, left)) (sym (entries_of-IsKept stop l.written km))))

-- The writer has kept the entries committed.
IsFilled-IsLeft :
    (f : IndexFile) (c : IsCommitted f) (all more : List Bytes) (out : Written)
    (filled : IsFilled f.offsets f.content f.next_at f.capacity more 0 out)
    → IsLeft f c all (record f { offsets = out.offsets; content = out.content }) filled.added
unfolding entries
IsFilled-IsLeft f c all more out filled =
    let w : IsWritten out.offsets out.content f.next_at =
      IsWritten-fewer f.next_at (omega arith) filled.written in
    record {
      committed = kept-IsCommitted f c out.offsets out.content filled.long w filled.kept;
      same_place = (refl, refl, refl);
      few = filled.few;
      written = filled.written;
      same_entries = entries_of-IsKept f.next_at c.written filled.kept;
    }

commit_written-Refines :
    (f : IndexFile) (c : IsCommitted f) (all : List Bytes) (total : ℕ) (out : Written)
    (filled : IsFilled f.offsets f.content f.next_at f.capacity all 0 out)
    (reply : Result Refusal ℕ)
    → length all ≡ total
    → out.reply ≡ reply
    → Refines
        (commit_written
          (record f { offsets = out.offsets; content = out.content })
          total
          f.next_at
          reply)
        (spec_extend (view f) all)
unfolding commit_written entries Answers
commit_written-Refines f c all total out filled (err refusal) long e =
    refused-Refines f c all _ filled.added refusal (IsFilled-IsLeft f c all all out filled) (
      subst
        (Answers f.capacity (entries f) all
          (entries_of out.offsets out.content (f.next_at + filled.added)) 0 filled.added)
        e filled.answers)
commit_written-Refines f c all total out filled (ok count) long e =
    let g : IndexFile = record f { offsets = out.offsets; content = out.content } in
    let left : IsLeft f c all g filled.added = IsFilled-IsLeft f c all all out filled in
    let (counted, answered) : Answers f.capacity (entries f) all
        (entries_of out.offsets out.content (f.next_at + filled.added)) 0 filled.added (ok count) =
      subst
        (Answers f.capacity (entries f) all
          (entries_of out.offsets out.content (f.next_at + filled.added)) 0 filled.added)
        e filled.answers in
    let same : filled.added ≡ count = omega arith in
    let l : IsLeft f c all g count = subst (IsLeft f c all g) same left in
    let a : spec_fill f.capacity (entries f) all
        ≡ ok (entries_of out.offsets out.content (f.next_at + count), total - count) =
      answered
      ∙ ap (λ n. ok (entries_of out.offsets out.content (f.next_at + n), length all - n)) same
      ∙ ap (λ n. ok (entries_of out.offsets out.content (f.next_at + count), n - count)) long in
    elim (Bool-cases (count == 0)) [
      | inl no_more ↦ rw no_more (
          none-Refines f c all g total (subst (IsLeft f c all g) (ground arith) l)
            (a ∙ nothing g l count (ground arith)))
      | inr more ↦ rw more (some-Refines f c all g count (total - count) l a)
    ]
  where
    back : (a b n : ℕ) → a ≡ b → n ≡ 0 → b + n ≡ a
    back a b n h k = omega arith

    nothing :
        (g : IndexFile)
        → IsLeft f c all g count
        → (n : ℕ) → n ≡ 0
        → ◌≡◌ {A = Result Refusal (List Bytes × ℕ)}
            (ok (entries_of g.offsets g.content (f.next_at + n), total - n))
            (ok (entries f, total))
    nothing g l n zeroed =
        let (same_index, same_capacity, same_at) = l.same_place in
        ap (λ m. ok (entries_of g.offsets g.content m, total - n))
          (back g.next_at f.next_at n same_at zeroed)
        ∙ ap (λ log. ok (log, total - n)) l.same_entries
        ∙ ap (λ m. ok (entries f, m)) (omega arith)

writev_at-Refines :
    (f : IndexFile) (items : List Entry)
    → IsCommitted f
    → Refines
        (writev_at f
          (fitting f items f.next_at)
          (length items)
          f.next_at
          (before f.offsets f.next_at))
        (spec_extend (view f) (map entry_bytes items))
unfolding writev_at
writev_at-Refines f items c =
    let fit : HasRoom f items f.next_at = fitting-HasRoom f items f.next_at c.bounded in
    let fitted : List Entry = fitting f items f.next_at in
    let out : Written =
      write_buffers_up_to f fitted f.next_at (before f.offsets f.next_at)
        (max_datasize - before f.offsets f.next_at) in
    commit_written-Refines f c (map entry_bytes items) (length items) out
      (subst (λ all. IsFilled f.offsets f.content f.next_at f.capacity all 0 out) fit.all
        (write_buffers_up_to-IsFilled f fitted fit.more c fit.room fit.end))
      out.reply (length-map items entry_bytes) refl

writev_from-Refines :
    (f : IndexFile) (items : List Entry) (at : Option ℕ)
    → IsCommitted f
    → Refines (writev_from f items at) (spec_writev_from (view f) (map entry_bytes items) at)
unfolding writev_from spec_writev_from truncate_table
writev_from-Refines f items none c = (c, refl)
writev_from-Refines f items (some i) c =
    step-Refines f i Refusal.non_linear
      (λ g. writev_at g (fitting g items i) (length items) i (before g.offsets i))
      (λ s. spec_extend s (map entry_bytes items)) c
      (λ g d at.
        subst
          (λ j.
            Refines (writev_at g (fitting g items j) (length items) j (before g.offsets j))
              (spec_extend (view g) (map entry_bytes items)))
          at (writev_at-Refines g items d))

pub writev-Refines :
    (f : IndexFile) (items : List Entry) (at : Option ℕ)
    → IsCommitted f
    → Refines (writev f items at) (spec_writev (view f) (map entry_bytes items) at)
unfolding writev spec_writev
writev-Refines f items at c =
    subst
      (λ t.
        Refines (writev_from f items (target f at))
          (spec_writev_from (view f) (map entry_bytes items) t))
      (target-eq f at) (writev_from-Refines f items (target f at) c)
