-- ===== src/IndexFile/Filling.antt =====
-- The writer's loop of `writeBuffersUpTo`, lib/common/indexfile.js, against the list of entries.
use node_zmq_raft.Prelude.{
  ℕ, suc, ◌+◌, ◌-◌, ◌<◌, ◌≤◌, ◌≡◌, refl, List, length, arith, ◌∙◌, sym, true, false, ◌==◌, ltb,
  Result, ok, err, ap, ◌++◌, [], ◌∷◌, map, ◌⊎◌, inl, inr, Bool-cases, subst, length-append,
}
use node_zmq_raft.Table.{slot, set_slot, put_bytes}
use node_zmq_raft.Table.Slots.{length-set_slot, slot-set_slot, slot-set_slot_ne}
use node_zmq_raft.IndexFile.{before, max_datasize, Refusal, empty_entry}
use node_zmq_raft.IndexFile.Writing.{
  Entry, whole, parts, entry_size, entry_bytes, concat, total_size, Written, write_loop,
}
use node_zmq_raft.IndexFile.Entries.{
  IsWritten, IsKept, entries_of, entry_of, IsKept-entry, IsWritten-entry, entry_of-entry,
  entries_of-IsKept, IsKept-fewer, IsKept-trans,
}
use node_zmq_raft.IndexFile.Spec.{Bytes, spec_fill, length-entries_of, total_size-entries_of}

length-concat : (all : List Bytes) → length (concat all) ≡ total_size all
length-concat [] = refl
length-concat (part ∷ rest) = omega (arith, length-append part (concat rest), length-concat rest)

pub length-entry_bytes : (entry : Entry) → length (entry_bytes entry) ≡ entry_size entry
unfolding entry_bytes entry_size
length-entry_bytes (whole bytes) = refl
length-entry_bytes (parts all) = length-concat all

-- What the writer answers, where `added` entries are new and `log` was there before.
unfoldable pub Answers :
    (capacity : ℕ) (log all left : List Bytes) (count added : ℕ) → Result Refusal ℕ → Type 0
Answers capacity log all left count added (err refusal) = spec_fill capacity log all ≡ err refusal
Answers capacity log all left count added (ok n) =
    (n ≡ count + added) × (spec_fill capacity log all ≡ ok (left, length all - added))

pub record IsFilled (o c : List ℕ) (i capacity : ℕ) (all : List Bytes) (count : ℕ) (out : Written)
    : Type 0 where
  pub added : ℕ
  pub long : length out.offsets ≡ length o
  pub few : i + added ≤ capacity
  pub written : IsWritten out.offsets out.content (i + added)
  pub kept : IsKept o c out.offsets out.content i
  pub answers :
      Answers capacity
        (entries_of o c i)
        all
        (entries_of out.offsets out.content (i + added))
        count
        added
        out.reply

-- Nothing more is written.
pub stop-IsFilled :
    (o c : List ℕ) (i capacity count : ℕ) (all : List Bytes) (reply : Result Refusal ℕ)
    → IsWritten o c i
    → i ≤ capacity
    → Answers capacity (entries_of o c i) all (entries_of o c i) count 0 reply
    → IsFilled o c i capacity all count (record { offsets = o; content = c; reply = reply })
stop-IsFilled o c i capacity count all reply w h a =
    let same : i ≡ i + 0 = omega arith in
    record {
      added = 0;
      long = refl;
      few = omega arith;
      written = subst (IsWritten o c) same w;
      kept = record { same_offsets = λ j l. refl; same_bytes = λ x y l. refl };
      answers =
          subst (λ n. Answers capacity (entries_of o c i) all (entries_of o c n) count 0 reply) same
            a;
    }

Answers-next :
    (capacity : ℕ) (log all log' left : List Bytes) (entry : Bytes) (count added : ℕ)
    (reply : Result Refusal ℕ)
    → spec_fill capacity log (entry ∷ all) ≡ spec_fill capacity log' all
    → Answers capacity log' all left (suc count) added reply
    → Answers capacity log (entry ∷ all) left count (suc added) reply
unfolding Answers
Answers-next capacity log all log' left entry count added (err refusal) e a = e ∙ a
Answers-next capacity log all log' left entry count added (ok n) e (a, b) =
    (omega arith, e ∙ b ∙ ap (λ m. ok (left, m)) (omega arith))

next-IsFilled :
    (o c o' c' : List ℕ) (i capacity count : ℕ) (entry : Bytes) (all : List Bytes) (out : Written)
    → length o' ≡ length o
    → IsWritten o c i
    → IsKept o c o' c' i
    → IsWritten o' c' (suc i)
    → spec_fill capacity (entries_of o c i) (entry ∷ all)
      ≡ spec_fill capacity (entries_of o' c' (suc i)) all
    → IsFilled o' c' (suc i) capacity all (suc count) out
    → IsFilled o c i capacity (entry ∷ all) count out
next-IsFilled o c o' c' i capacity count entry all out long w k w' e f =
    let same : suc i + f.added ≡ i + suc f.added = omega arith in
    record {
      added = suc f.added;
      long = f.long ∙ long;
      few = omega (arith, f.few);
      written = subst (IsWritten out.offsets out.content) same f.written;
      kept = IsKept-trans k (IsKept-fewer i (omega arith) w' f.kept);
      answers =
          subst
            (λ n.
              Answers capacity (entries_of o c i) (entry ∷ all)
                (entries_of out.offsets out.content n) count (suc f.added) out.reply)
            same
            (Answers-next capacity (entries_of o c i) all (entries_of o' c' (suc i)) _ entry count
              f.added out.reply e f.answers);
    }

-- The branches of the specification, by what the writer tests.
module _ (capacity : ℕ) (log : List Bytes) (entry : Bytes) (all : List Bytes) where
  pub spec_fill-full :
      (length log == capacity) ≡ true
      → spec_fill capacity log (entry ∷ all) ≡ ok (log, suc (length all) - 0)
  unfolding spec_fill
  spec_fill-full e = rw e (ap (λ m. ok (log, m)) (omega arith))

  pub spec_fill-empty :
      (length log == capacity) ≡ false
      → (length entry == 0) ≡ true
      → spec_fill capacity log (entry ∷ all) ≡ err empty_entry
  unfolding spec_fill
  spec_fill-empty e d = rw (e, d)

  pub spec_fill-over :
      (length log == capacity) ≡ false
      → (length entry == 0) ≡ false
      → ltb max_datasize (total_size log + length entry) ≡ true
      → spec_fill capacity log (entry ∷ all) ≡ ok (log, suc (length all) - 0)
  unfolding spec_fill
  spec_fill-over e d h = rw (e, d, h) (ap (λ m. ok (log, m)) (omega arith))

  pub spec_fill-one :
      (length log == capacity) ≡ false
      → (length entry == 0) ≡ false
      → ltb max_datasize (total_size log + length entry) ≡ false
      → spec_fill capacity log (entry ∷ all) ≡ spec_fill capacity (log ++ entry ∷ []) all
  unfolding spec_fill
  spec_fill-one e d h = rw (e, d, h)

-- One entry written by the loop.
module _ (o c : List ℕ) (i capacity : ℕ) (entry : Bytes) (all : List Bytes) (w : IsWritten o c i)
    (inside : i < capacity) (long : length o ≡ capacity) (some_bytes : 0 < length entry)
    (fits : before o i + length entry ≤ max_datasize) where
  abbrev marked : List ℕ
  marked = set_slot o i (before o i + length entry)

  abbrev put : List ℕ
  put = put_bytes c (before o i) entry

  marked_others : (j : ℕ) → j < i → slot marked j ≡ slot o j
  marked_others j l = slot-set_slot_ne o i j (before o i + length entry) (λ e. omega arith)

  marked_at : slot marked i ≡ before o i + length entry
  marked_at = slot-set_slot o i (before o i + length entry) (omega arith) (omega arith)

  marked-IsKept : IsKept o c marked put i
  marked-IsKept = IsKept-entry o c i entry marked w some_bytes fits marked_others marked_at

  marked-IsWritten : IsWritten marked put (suc i)
  marked-IsWritten = IsWritten-entry o c i entry marked w some_bytes fits marked_others marked_at

  marked-spec :
      spec_fill capacity (entries_of o c i) (entry ∷ all)
      ≡ spec_fill capacity (entries_of marked put (suc i)) all
  unfolding entries_of
  marked-spec =
      spec_fill-one capacity (entries_of o c i) entry all (ground (arith, length-entries_of o c i))
        (ground arith) (ground (arith, total_size-entries_of o c i w))
      ∙ ap (λ log. spec_fill capacity log all)
          (ap (λ last. entries_of o c i ++ last ∷ [])
              (sym (entry_of-entry o c i entry marked w some_bytes fits marked_others marked_at))
            ∙ ap (λ log. log ++ entry_of marked put i ∷ [])
                (sym (entries_of-IsKept i w marked-IsKept)))

pub spec_fill-done :
    (capacity : ℕ) (log more : List Bytes)
    → (more ≡ []) ⊎ (length log ≡ capacity)
    → spec_fill capacity log more ≡ ok (log, length more - 0)
unfolding spec_fill
spec_fill-done capacity log [] h = ap (λ m. ok (log, m)) (omega arith)
spec_fill-done capacity log (entry ∷ more) (inl e) = absurd cc
spec_fill-done capacity log (entry ∷ more) (inr e) =
    spec_fill-full capacity log entry more (ground arith)

pub write_loop-IsFilled :
    (entries : List Entry) (more : List Bytes) (o c : List ℕ) (i capacity place left count : ℕ)
    → IsWritten o c i
    → length o ≡ capacity
    → i + length entries ≤ capacity
    → (more ≡ []) ⊎ (i + length entries ≡ capacity)
    → place ≡ before o i
    → left ≡ max_datasize - before o i
    → IsFilled o c i capacity
        (map entry_bytes entries ++ more)
        count
        (write_loop o c entries i place left count)
unfolding write_loop
write_loop-IsFilled [] more o c i capacity place left count w long room end at free =
    stop-IsFilled o c i capacity count more (ok count) w (omega arith) (
      unfold Answers in
      (
        omega arith,
        spec_fill-done capacity (entries_of o c i) more
            (elim end [ inl e ↦ inl e | inr e ↦ inr (omega (arith, length-entries_of o c i)) ]),
      ))
write_loop-IsFilled (entry ∷ entries) more o c i capacity place left count w long room end at free =
    elim (Bool-cases (entry_size entry == 0)) [
      | inl empty ↦ rw empty (
          stop-IsFilled o c i capacity count (map entry_bytes (entry ∷ entries) ++ more)
            (err empty_entry) w (omega arith)
            (unfold Answers in
              (spec_fill-empty capacity (entries_of o c i) _ _
                (ground (arith, length-entries_of o c i))
                (ground (arith, length-entry_bytes entry)))))
      | inr filled ↦ elim (Bool-cases (ltb left (entry_size entry))) [
        | inl over ↦
            rw (filled, over)
              (stop-IsFilled o c i capacity count (map entry_bytes (entry ∷ entries) ++ more)
                (ok count) w (omega arith)
                (unfold Answers in
                  (
                    omega arith,
                    spec_fill-over capacity (entries_of o c i) (entry_bytes entry)
                        (map entry_bytes entries ++ more) (ground (arith, length-entries_of o c i))
                        (ground (arith, length-entry_bytes entry))
                        (ground (
                          arith,
                          length-entry_bytes entry,
                          total_size-entries_of o c i w,
                          w.small i,
                        )),
                  )))
        | inr fits ↦
            rw (filled, fits, at, ← length-entry_bytes entry)
              (let bytes : Bytes = entry_bytes entry in
                let o' : List ℕ = set_slot o i (before o i + length bytes) in
                let c' : List ℕ = put_bytes c (before o i) bytes in
                let all : List Bytes = map entry_bytes entries ++ more in
                let inside : i < capacity = omega arith in
                let nonempty : 0 < length bytes = ground (arith, length-entry_bytes entry) in
                let small : before o i + length bytes ≤ max_datasize =
                  ground (arith, length-entry_bytes entry, w.small i) in
                let there : slot o' i ≡ before o i + length bytes =
                  marked_at o c i capacity bytes all w inside long nonempty small in
                let w' : IsWritten o' c' (suc i) =
                  marked-IsWritten o c i capacity bytes all w inside long nonempty small in
                next-IsFilled o c o' c' i capacity count bytes all
                  (write_loop o' c' entries (suc i) (before o i + length bytes)
                    (left - length bytes) (suc count))
                  (length-set_slot o i _) w
                  (marked-IsKept o c i capacity bytes all w inside long nonempty small) w'
                  (marked-spec o c i capacity bytes all w inside long nonempty small)
                  (write_loop-IsFilled entries more o' c' (suc i) capacity
                    (before o i + length bytes) (left - length bytes) (suc count) w'
                    (length-set_slot o i _ ∙ long) (omega arith)
                    (elim end [ inl e ↦ inl e | inr e ↦ inr (omega arith) ]) (sym there)
                    (omega (arith, there))))
      ]
    ]
