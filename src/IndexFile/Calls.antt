-- ===== src/IndexFile/Calls.antt =====
-- The calls of a log file, lib/common/indexfile.js, one by one and in a row, against a list of entries.
use node_zmq_raft.Prelude.{
  ℕ, ◌≤◌, ◌≡◌, refl, length, arith, sym, false, ◌==◌, ltb, leb, Result, ok, err, [], ◌∷◌, inl, inr,
  Bool-cases, subst, le→leb, Option, none, some, take-all, if◌then◌else◌,
}
use node_zmq_raft.IndexFile.{IndexFile, before, Refusal}
use node_zmq_raft.IndexFile.Writing.{
  Step, target, cut_at, truncate, truncate_table, write_at, write, write_from, truncate_from,
}
use node_zmq_raft.IndexFile.Committed.{IsCommitted, entries, cut_at-IsCommitted}
use node_zmq_raft.IndexFile.Spec.{
  Bytes, Log, spec_extend, spec_cut, spec_write, spec_write_from, spec_truncate_from, spec_truncate,
  view,
}
use node_zmq_raft.IndexFile.Refinement.{
  Refines, Refines-eq, length-entries, view-cut_at, target-eq, append-Refines,
}

-- A call at an index in bounds goes on from the log cut there.
cut-Refines :
    {A : Type 0} (f : IndexFile) (i : ℕ) (step : IndexFile → Step A)
    (spec : Log → Log × Result Refusal A)
    → IsCommitted f
    → ((g : IndexFile) → IsCommitted g → g.next_at ≡ i → Refines (step g) (spec (view g)))
    → i ≤ f.next_at
    → Refines (step (cut_at f i)) (spec (spec_cut (view f) i))
unfolding truncate_table
cut-Refines f i step spec c next h =
    subst (λ s. Refines (step (cut_at f i)) (spec s)) (view-cut_at f i c h)
      (next (cut_at f i) (cut_at-IsCommitted f i c h) refl)

-- At the next index nothing is cut.
same-Refines :
    {A : Type 0} (f : IndexFile) (step : Step A) (spec : Log → Log × Result Refusal A)
    → Refines step (spec (view f))
    → Refines step (spec (spec_cut (view f) f.next_at))
same-Refines f step spec r =
    subst (λ log. Refines step (spec (record (view f) { log = log })))
      (sym (take-all f.next_at (entries f) (omega (arith, length-entries f)))) r

-- Where a call goes on, by its index.
module _ {A : Type 0} (f : IndexFile) (i : ℕ) (refusal : Refusal) where
  abbrev pub calls : (here cut : Step A) → Step A
  calls here cut =
      if i == f.next_at then here else if ltb i f.next_at then cut else (f, err refusal)

  abbrev pub spec_calls : (Log → Log × Result Refusal A) → Log × Result Refusal A
  spec_calls spec =
      if leb i (length (entries f)) then spec (spec_cut (view f) i) else (view f, err refusal)

  calls-below :
      (here cut : Step A) (spec : Log → Log × Result Refusal A)
      → i ≤ f.next_at
      → Refines (calls here cut) (spec (spec_cut (view f) i))
      → Refines (calls here cut) (spec_calls spec)
  calls-below here cut spec h r =
      subst (Refines (calls here cut))
        (rw ((le→leb i (length (entries f)) (omega (arith, length-entries f)))) refl) r

  calls_refine :
      (here cut : Step A) (spec : Log → Log × Result Refusal A)
      → IsCommitted f
      → (i ≡ f.next_at → Refines here (spec (spec_cut (view f) i)))
      → (i ≤ f.next_at → Refines cut (spec (spec_cut (view f) i)))
      → Refines (calls here cut) (spec_calls spec)
  calls_refine here cut spec c at_end before_end = elim (Bool-cases (i == f.next_at)) [
    | inl e ↦
        calls-below here cut spec (ground arith)
          (Refines-eq here (rw e refl) (at_end (ground arith)))
    | inr e ↦ elim (Bool-cases (ltb i f.next_at)) [
      | inl less ↦
          calls-below here cut spec (ground arith)
            (Refines-eq cut (rw (e, less) refl) (before_end (ground arith)))
      | inr more ↦
          let above : leb i (length (entries f)) ≡ false = ground (arith, length-entries f) in
          Refines-eq (f, err refusal) (rw (e, more) refl) (c, rw above refl)
    ]
  ]

-- A step that goes on from the next index, from the index of a call.
pub step-Refines :
    {A : Type 0} (f : IndexFile) (i : ℕ) (refusal : Refusal) (step : IndexFile → Step A)
    (spec : Log → Log × Result Refusal A)
    → IsCommitted f
    → ((g : IndexFile) → IsCommitted g → g.next_at ≡ i → Refines (step g) (spec (view g)))
    → Refines (calls f i refusal (step f) (step (cut_at f i))) (spec_calls f i refusal spec)
step-Refines f i refusal step spec c next =
    calls_refine f i refusal (step f) (step (cut_at f i)) spec c
      (λ at_end.
        subst (λ j. Refines (step f) (spec (spec_cut (view f) j))) (sym at_end)
          (same-Refines f (step f) spec (next f c (sym at_end))))
      (λ below. cut-Refines f i step spec c next below)

write_from-filled :
    (f : IndexFile) (bytes : Bytes) (i : ℕ)
    → (length bytes == 0) ≡ false
    → write_from f bytes false (some i)
      ≡ calls f i Refusal.non_linear
          (write_at f bytes i (before f.offsets i) false)
          (write_at (cut_at f i) bytes i (before (cut_at f i).offsets i) false)
unfolding write_from
write_from-filled f bytes i filled = rw filled refl

spec_write_from-filled :
    (f : IndexFile) (bytes : Bytes) (i : ℕ)
    → (length bytes == 0) ≡ false
    → spec_calls f i Refusal.non_linear (λ s. spec_extend s (bytes ∷ []))
      ≡ spec_write_from (view f) bytes (some i)
unfolding spec_write_from
spec_write_from-filled f bytes i filled = rw filled refl

write_from-Refines :
    (f : IndexFile) (bytes : Bytes) (at : Option ℕ)
    → IsCommitted f
    → Refines (write_from f bytes false at) (spec_write_from (view f) bytes at)
write_from-Refines f bytes none c = unfold write_from spec_write_from in (c, refl)
write_from-Refines f bytes (some i) c = elim (Bool-cases (length bytes == 0)) [
  | inl empty ↦
      unfold write_from spec_write_from in
      Refines-eq (f, err Refusal.empty_entry) (rw empty refl) (c, rw empty refl)
  | inr filled ↦ Refines-eq _ (write_from-filled f bytes i filled) (
      subst
        (Refines (
          calls f i Refusal.non_linear (write_at f bytes i (before f.offsets i) false)
            (write_at (cut_at f i) bytes i (before (cut_at f i).offsets i) false)))
        (spec_write_from-filled f bytes i filled)
        (step-Refines f i Refusal.non_linear (λ g. write_at g bytes i (before g.offsets i) false)
          (λ s. spec_extend s (bytes ∷ [])) c
          (λ g d at.
            subst
              (λ j.
                Refines (write_at g bytes j (before g.offsets j) false)
                  (spec_extend (view g) (bytes ∷ [])))
              at (append-Refines g bytes d filled))))
]

truncate_from-Refines :
    (f : IndexFile) (at : Option ℕ)
    → IsCommitted f
    → Refines (truncate_from f at) (spec_truncate_from (view f) at)
unfolding truncate_from spec_truncate_from
truncate_from-Refines f none c = (c, refl)
truncate_from-Refines f (some i) c =
    step-Refines f i Refusal.after_next_index (λ g. (g, ok tt)) (λ s. (s, ok tt)) c
      (λ g d at. (d, refl))

pub write-Refines :
    (f : IndexFile) (bytes : Bytes) (at : Option ℕ)
    → IsCommitted f
    → Refines (write f bytes at false) (spec_write (view f) bytes at)
unfolding write spec_write
write-Refines f bytes at c =
    subst (λ t. Refines (write_from f bytes false (target f at)) (spec_write_from (view f) bytes t))
      (target-eq f at) (write_from-Refines f bytes (target f at) c)

pub truncate-Refines :
    (f : IndexFile) (at : Option ℕ)
    → IsCommitted f
    → Refines (truncate f at) (spec_truncate (view f) at)
unfolding truncate spec_truncate
truncate-Refines f at c =
    subst (λ t. Refines (truncate_from f (target f at)) (spec_truncate_from (view f) t))
      (target-eq f at) (truncate_from-Refines f (target f at) c)
