-- ===== src/IndexFile/Runs.antt =====
-- Calls of a log file in a row, with the process started again in between, against the list of
-- entries (lib/common/indexfile.js).
use node_zmq_raft.Prelude.{
  ℕ, ◌≤◌, ◌≡◌, refl, List, [], ◌∷◌, ◌∙◌, sym, ap, map, Option, Result, ok, err, subst, arith, false,
  none, some,
}
use node_zmq_raft.IndexFile.{IndexFile, Refusal}
use node_zmq_raft.IndexFile.Writing.{Step, Entry, entry_bytes, write, writev, truncate}
use node_zmq_raft.IndexFile.Opening.{max_capacity, disk, read_index_file}
use node_zmq_raft.IndexFile.Committed.{IsCommitted}
use node_zmq_raft.IndexFile.Spec.{
  Log, Bytes, view, spec_write, spec_writev, spec_truncate, spec_fill, spec_extend, extended,
  spec_cut, spec_target, spec_write_from, spec_writev_from, spec_truncate_from,
}
use node_zmq_raft.IndexFile.Refinement.{Refines}
use node_zmq_raft.IndexFile.Calls.{write-Refines, truncate-Refines}
use node_zmq_raft.IndexFile.Vectors.{writev-Refines}
use node_zmq_raft.IndexFile.Reopening.{read_index_file-disk}

pub data Call : Type 0 where
  write_call : (bytes : Bytes) (at : Option ℕ) → Call
  writev_call : (entries : List Entry) (at : Option ℕ) → Call
  truncate_call : (at : Option ℕ) → Call
  reopen_call : Call

pub data Answer : Type 0 where
  written : Result Refusal (ℕ × ℕ) → Answer
  truncated : Result Refusal (Unit {0}) → Answer
  opened : Answer
  not_opened : Refusal → Answer

-- A file that does not open is left closed: as it is.
abbrev pub reopen : IndexFile → Result Refusal IndexFile → IndexFile × Answer
reopen f (err refusal) = (f, not_opened refusal)
reopen f (ok g) = (g, opened)

abbrev answer {ℓ} :
    {A : Type 0} {S : Type ℓ} → (Result Refusal A → Answer) → S × Result Refusal A → S × Answer
answer given (s, reply) = (s, given reply)

unfoldable pub call : IndexFile → Call → IndexFile × Answer
unfolding write writev truncate read_index_file disk
call f (write_call bytes at) = answer written (write f bytes at false)
call f (writev_call entries at) = answer written (writev f entries at)
call f (truncate_call at) = answer truncated (truncate f at)
call f reopen_call = reopen f (read_index_file (disk f) f.index)

unfoldable pub spec_call : Log → Call → Log × Answer
unfolding spec_write spec_writev spec_truncate
spec_call s (write_call bytes at) = answer written (spec_write s bytes at)
spec_call s (writev_call entries at) = answer written (spec_writev s (map entry_bytes entries) at)
spec_call s (truncate_call at) = answer truncated (spec_truncate s at)
spec_call s reopen_call = (s, opened)

-- The answers, and what is left.
unfoldable pub run : IndexFile → List Call → IndexFile × List Answer
unfolding call
run f [] = (f, [])
run f (next ∷ calls) =
    let (g, reply) = call f next in let (last, replies) = run g calls in (last, reply ∷ replies)

unfoldable pub spec_run : Log → List Call → Log × List Answer
unfolding spec_call
spec_run s [] = (s, [])
spec_run s (next ∷ calls) =
    let (t, reply) = spec_call s next in
    let (last, replies) = spec_run t calls in (last, reply ∷ replies)

abbrev pub CallRefines : IndexFile × Answer → Log × Answer → Type 0
CallRefines (g, reply) spec = IsCommitted g × ((view g, reply) ≡ spec)

answer-Refines :
    {A : Type 0} (given : Result Refusal A → Answer) (step : Step A) (spec : Log × Result Refusal A)
    → Refines step spec
    → CallRefines (answer given step) (answer given spec)
answer-Refines given step spec (c, e) = (c, ap (answer given) e)

call-CallRefines :
    (f : IndexFile) (next : Call)
    → IsCommitted f
    → f.capacity ≤ max_capacity
    → CallRefines (call f next) (spec_call (view f) next)
unfolding call spec_call
call-CallRefines f (write_call bytes at) c small =
    answer-Refines written _ (spec_write (view f) bytes at) (write-Refines f bytes at c)
call-CallRefines f (writev_call entries at) c small =
    answer-Refines written _ (spec_writev (view f) (map entry_bytes entries) at)
      (writev-Refines f entries at c)
call-CallRefines f (truncate_call at) c small =
    answer-Refines truncated _ (spec_truncate (view f) at) (truncate-Refines f at c)
call-CallRefines f reopen_call c small =
    let (g, e, d, same) = read_index_file-disk f c small in
    subst (λ r. CallRefines (reopen f r) (view f, opened)) (sym e) (d, ap (λ s. (s, opened)) same)

-- No call changes the capacity.
extended-capacity :
    (s : Log) (r : Result Refusal (List Bytes × ℕ)) → (extended s r).0.capacity ≡ s.capacity
extended-capacity s (err refusal) = refl
extended-capacity s (ok (log, left)) = refl

spec_extend-capacity : (s : Log) (all : List Bytes) → (spec_extend s all).0.capacity ≡ s.capacity
unfolding spec_extend
spec_extend-capacity s all = extended-capacity s (spec_fill s.capacity s.log all)

spec_write_from-capacity :
    (s : Log) (bytes : Bytes) (at : Option ℕ) → (spec_write_from s bytes at).0.capacity ≡ s.capacity
unfolding spec_write_from
spec_write_from-capacity s bytes none = refl
spec_write_from-capacity s bytes (some i) =
    ground (arith, spec_extend-capacity (spec_cut s i) (bytes ∷ []))

spec_writev_from-capacity :
    (s : Log) (all : List Bytes) (at : Option ℕ)
    → (spec_writev_from s all at).0.capacity ≡ s.capacity
unfolding spec_writev_from
spec_writev_from-capacity s all none = refl
spec_writev_from-capacity s all (some i) = ground (arith, spec_extend-capacity (spec_cut s i) all)

spec_truncate_from-capacity :
    (s : Log) (at : Option ℕ) → (spec_truncate_from s at).0.capacity ≡ s.capacity
unfolding spec_truncate_from
spec_truncate_from-capacity s none = refl
spec_truncate_from-capacity s (some i) = ground arith

spec_call-capacity : (s : Log) (next : Call) → (spec_call s next).0.capacity ≡ s.capacity
unfolding spec_call spec_write spec_writev spec_truncate
spec_call-capacity s (write_call bytes at) = spec_write_from-capacity s bytes (spec_target s at)
spec_call-capacity s (writev_call entries at) =
    spec_writev_from-capacity s (map entry_bytes entries) (spec_target s at)
spec_call-capacity s (truncate_call at) = spec_truncate_from-capacity s (spec_target s at)
spec_call-capacity s reopen_call = refl

-- From a well-formed file of at most MAX_CAPACITY slots: after any committed writes, vectored writes and
-- truncations, with the file opened again between them or not, the file is well-formed, holds the list
-- of entries that these calls make of a plain list, and every call has answered what the list tells.
pub run_refines :
    (f : IndexFile) (calls : List Call)
    → IsCommitted f
    → f.capacity ≤ max_capacity
    → let (g, answers) = run f calls in
      IsCommitted g × ((view g, answers) ≡ spec_run (view f) calls)
unfolding run spec_run
run_refines f [] c small = (c, refl)
run_refines f (next ∷ calls) c small =
    let (d, e) = call-CallRefines f next c small in
    let g = (call f next).0 in
    let same : g.capacity ≡ f.capacity =
      ap (λ (p : Log × Answer). p.0.capacity) e ∙ spec_call-capacity (view f) next in
    let (last, all) = run_refines g calls d (omega (arith, same)) in
    (
      last,
      ap (λ (p : Log × List Answer). (p.0, (call f next).1 ∷ p.1)) all
          ∙ ap (λ (p : Log × Answer). ((spec_run p.0 calls).0, p.1 ∷ (spec_run p.0 calls).1)) e,
    )
