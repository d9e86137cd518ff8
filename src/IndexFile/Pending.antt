-- ===== src/IndexFile/Pending.antt =====
-- Writes that are not committed, and the `commit` that follows them, of lib/common/indexfile.js.
use node_zmq_raft.Prelude.{
  ℕ, zero, suc, ◌+◌, ◌-◌, ◌<◌, ◌≤◌, ◌≡◌, refl, List, length, arith, ◌∙◌, sym, true, false, ◌==◌,
  ltb, ok, ap, Bool-cases, subst, inl, inr, some, ◌++◌, [], ◌∷◌,
}
use node_zmq_raft.Table.{slot}
use node_zmq_raft.IndexFile.{IndexFile, before, max_datasize, local}
use node_zmq_raft.IndexFile.Writing.{
  Step, target, write, write_from, write_at, mark_entry, commit, commit_to, run_end, commit_write,
}
use node_zmq_raft.IndexFile.Entries.{IsWritten, entries_of}
use node_zmq_raft.IndexFile.Committed.{
  IsCommitted, entries, IsMarked, mark_entry-IsMarked, commit_write-IsCommitted,
}
use node_zmq_raft.IndexFile.Refinement.{entries-marked}

-- The entries up to `i` are written, the last of them may not be committed, and nothing is behind.
pub record IsPending (f : IndexFile) (i : ℕ) : Type 0 where
  pub after : f.next_at ≤ i
  pub inside : i ≤ f.capacity
  pub written : IsWritten f.offsets f.content i
  pub ended : slot f.offsets i ≡ 0

-- The entries written, committed or not.
unfoldable pub entries_to : IndexFile → ℕ → List (List ℕ)
unfolding entries_of
entries_to f i = entries_of f.offsets f.content i

target-at : (f : IndexFile) (i : ℕ) → i ≤ f.capacity → target f (some (f.index + i)) ≡ some i
unfolding target local
target-at f i h = ground (arith)

before-positive :
    (offsets content : List ℕ) (i : ℕ) → IsWritten offsets content i → 0 < i → 0 < before offsets i
before-positive offsets content zero w h = absurd (omega arith)
before-positive offsets content (suc i) w h = omega (arith, w.increasing i (omega arith))

module _ (f : IndexFile) (bytes : List ℕ) (i : ℕ) where
  write_at-pending :
      i < f.capacity
      → before f.offsets i + length bytes ≤ max_datasize
      → write_at f bytes i (before f.offsets i) true
        ≡ (mark_entry f bytes i (before f.offsets i), ok (0, f.index + suc i))
  unfolding write_at
  write_at-pending h k =
      let full : (i == f.capacity) ≡ false = ground arith in
      let over : ltb max_datasize (before f.offsets i + length bytes) ≡ false = ground arith in
      rw (full, over) refl

  write-pending :
      IsPending f i
      → i < f.capacity
      → 0 < length bytes
      → before f.offsets i + length bytes ≤ max_datasize
      → write f bytes (some (f.index + i)) true
        ≡ (mark_entry f bytes i (before f.offsets i), ok (0, f.index + suc i))
  unfolding write write_from
  write-pending p h k l =
      ap (write_from f bytes true) (target-at f i p.inside) ∙ elim (Bool-cases (i == f.next_at)) [
        | inl at ↦ rw (filled, at) (write_at-pending h l)
        | inr over ↦ rw (filled, over, beyond over, used over) (write_at-pending h l)
      ]
    where
      filled : (length bytes == 0) ≡ false
      filled = ground arith

      beyond : (i == f.next_at) ≡ false → ltb i f.next_at ≡ false
      beyond e = ground (arith, p.after)

      used : (i == f.next_at) ≡ false → (before f.offsets i == 0) ≡ false
      used e = ground (arith, p.after, before-positive f.offsets f.content i p.written)

-- A write that is not committed, at the place behind the entries pending in a well-formed file that has
-- room for it, answers the next index, leaves the file well-formed with what is committed, and adds the
-- entry to those pending.
pub write-IsPending :
    (f : IndexFile) (bytes : List ℕ) (i : ℕ)
    → IsCommitted f
    → IsPending f i
    → i < f.capacity
    → 0 < length bytes
    → before f.offsets i + length bytes ≤ max_datasize
    → let (g, reply) = write f bytes (some (f.index + i)) true in
      (reply ≡ ok (0, f.index + suc i))
      × IsCommitted g
      × IsPending g (suc i)
      × (g.next_at ≡ f.next_at)
      × (entries_to g (suc i) ≡ entries_to f i ++ bytes ∷ [])
unfolding entries_to
write-IsPending f bytes i c p h k l =
    let m = mark_entry f bytes i (before f.offsets i) in
    let marked : IsMarked f bytes i m = mark_entry-IsMarked f bytes i c p.written p.after h k l in
    let (same_index, same_capacity, same_at) = marked.same_place in
    subst
      (λ (step : Step (ℕ × ℕ)).
        (step.1 ≡ ok (0, f.index + suc i))
        × IsCommitted step.0
        × IsPending step.0 (suc i)
        × (step.0.next_at ≡ f.next_at)
        × (entries_to step.0 (suc i) ≡ entries_to f i ++ bytes ∷ []))
      (sym (write-pending f bytes i p h k l))
      (
        refl,
        marked.committed,
        record {
          after = omega (arith, p.after, same_at);
          inside = omega (arith, same_capacity);
          written = marked.written;
          ended = marked.ended;
        },
        same_at,
        entries-marked f m bytes i p.written marked,
      )

run_end-finds :
    (left : ℕ) (offsets content : List ℕ) (start i : ℕ)
    → IsWritten offsets content i
    → slot offsets i ≡ 0
    → start ≤ i
    → i ≤ start + left
    → run_end left offsets start ≡ i
unfolding run_end
run_end-finds zero offsets content start i w e h k = omega arith
run_end-finds (suc left) offsets content start i w e h k =
    elim (Bool-cases (slot offsets start == 0)) [
      | inl free ↦ rw free (ground (arith, w.increasing start))
      | inr used ↦
          rw used
            (run_end-finds left offsets content (suc start) i w e (ground arith) (omega arith))
    ]

abbrev Commits : IndexFile → ℕ → Step ℕ → Type 0
Commits f i (g, reply) =
    (reply ≡ ok (i + f.index)) × IsCommitted g × (g.next_at ≡ i) × (entries g ≡ entries_to f i)

commit_to-IsPending :
    (f : IndexFile) (i : ℕ) → IsCommitted f → IsPending f i → Commits f i (commit_to f i)
unfolding commit_to entries entries_to commit_write
commit_to-IsPending f i c p = elim (Bool-cases (i == f.next_at)) [
  | inl same ↦
      let at : f.next_at ≡ i = ground arith in
      subst (Commits f i) (sym (rw same refl))
        (ap (λ n. ok (n + f.index)) at, c, at, ap (entries_of f.offsets f.content) at)
  | inr more ↦
      subst (Commits f i) (sym (rw more refl))
        (refl, commit_write-IsCommitted f i c p.written p.after p.inside, refl, refl)
]

-- A commit of a well-formed file answers the index behind the entries pending and makes them, with
-- those committed before, the entries committed.
pub commit-IsPending :
    (f : IndexFile) (i : ℕ)
    → IsCommitted f
    → IsPending f i
    → let (g, reply) = commit f in
      (reply ≡ ok (i + f.index)) × IsCommitted g × (g.next_at ≡ i) × (entries g ≡ entries_to f i)
unfolding commit
commit-IsPending f i c p =
    subst (λ n. Commits f i (commit_to f n))
      (sym (
        run_end-finds (f.capacity - f.next_at) f.offsets f.content f.next_at i p.written p.ended
          p.after (omega (arith, p.inside))))
      (commit_to-IsPending f i c p)
