-- ===== src/IndexFile/Fitting.antt =====
-- What `writev` of lib/common/indexfile.js writes: the entries that there is room for.
use node_zmq_raft.Prelude.{
  ℕ, zero, suc, ◌+◌, ◌-◌, ◌<◌, ◌≤◌, ◌≡◌, refl, List, length, arith, ◌∙◌, sym, false, ltb, ok, ap,
  ◌++◌, [], ◌∷◌, map, ◌⊎◌, inl, inr, Bool-cases, subst, take, append-nil, drop, length-take,
}
use node_zmq_raft.Table.{slot}
use node_zmq_raft.IndexFile.{IndexFile, before, max_datasize}
use node_zmq_raft.IndexFile.Writing.{
  Entry, entry_bytes, entry_size, fitting, write_buffers_up_to, write_loop,
  clear_and_write_if_dirty,
}
use node_zmq_raft.IndexFile.Entries.{IsWritten, IsKept, entries_of, IsWritten-fewer, IsWritten-same}
use node_zmq_raft.IndexFile.Committed.{IsCommitted}
use node_zmq_raft.IndexFile.Spec.{Bytes, length-entries_of, total_size-entries_of}
use node_zmq_raft.IndexFile.Filling.{
  stop-IsFilled, IsFilled, Answers, write_loop-IsFilled, spec_fill-over, spec_fill-done,
  length-entry_bytes,
}
use node_zmq_raft.IndexFile.Stored.{IsStored-offsets, IsStored-clear}
use node_zmq_raft.Table.{clear}
use node_zmq_raft.Table.Slots.{length-copy_slots}
use node_zmq_raft.Table.Clearing.{IsCleared, clear-IsCleared, clear-bound}

-- Offsets and data that keep the entries committed.
module _ (f : IndexFile) (c : IsCommitted f) (offsets content : List ℕ) where
  pub kept-IsCommitted :
      length offsets ≡ length f.offsets
      → IsWritten offsets content f.next_at
      → IsKept f.offsets f.content offsets content f.next_at
      → IsCommitted (record f { offsets = offsets; content = content })
  kept-IsCommitted long w k = record {
    offsets_long = long ∙ c.offsets_long;
    table_long = c.table_long;
    bounded = c.bounded;
    written = w;
    on_disk = IsStored-offsets c.on_disk k.same_offsets;
  }

-- Clearing behind the entries written.
pub clear_and_write_if_dirty-kept :
    (f : IndexFile) (start : ℕ)
    → IsCommitted f
    → f.next_at ≤ start
    → start ≤ f.capacity
    → IsWritten f.offsets f.content start
    → let g = clear_and_write_if_dirty f start in
      IsCommitted g
      × IsWritten g.offsets g.content start
      × IsKept f.offsets f.content g.offsets g.content start
unfolding clear_and_write_if_dirty
clear_and_write_if_dirty-kept f start c after inside w =
    let left : List ℕ = (clear f.offsets start).0 in
    let cleared : IsCleared f.offsets start left (start + (clear f.offsets start).1) =
      clear-IsCleared f.offsets start in
    let same : (j : ℕ) → j < start → slot left j ≡ slot f.offsets j =
      λ j l. cleared.kept j (inl l) in
    let all : IsWritten left f.content start =
      IsWritten-same f.offsets left f.content start same w in
    (
      record {
        offsets_long = cleared.long ∙ c.offsets_long;
        table_long = length-copy_slots (clear f.offsets start).1 left f.table start ∙ c.table_long;
        bounded = c.bounded;
        written = IsWritten-fewer f.next_at after all;
        on_disk =
            IsStored-offsets
              (IsStored-clear start c.on_disk after (
                omega (
                  arith,
                  clear-bound f.offsets start (omega (arith, c.offsets_long)),
                  c.table_long,
                  c.offsets_long,
                )))
              (λ j l. same j (omega arith));
      },
      all,
      record { same_offsets = same; same_bytes = λ a b l. refl },
    )

-- The items that there is room for, and those that there is none for.
pub record HasRoom (f : IndexFile) (items : List Entry) (i : ℕ) : Type 0 where
  pub more : List Bytes
  pub all : map entry_bytes (fitting f items i) ++ more ≡ map entry_bytes items
  pub room : i + length (fitting f items i) ≤ f.capacity
  pub end : (more ≡ []) ⊎ (i + length (fitting f items i) ≡ f.capacity)

map-take-drop :
    (n : ℕ) (items : List Entry)
    → map entry_bytes (take n items) ++ map entry_bytes (drop n items) ≡ map entry_bytes items
map-take-drop zero items = refl
map-take-drop (suc n) [] = refl
map-take-drop (suc n) (entry ∷ items) = ap (◌∷◌ (entry_bytes entry)) (map-take-drop n items)

pub fitting-HasRoom :
    (f : IndexFile) (items : List Entry) (i : ℕ) → i ≤ f.capacity → HasRoom f items i
fitting-HasRoom f items i h = elim (Bool-cases (ltb f.capacity (i + length items))) [
  | inl over ↦ record {
    more = map entry_bytes (drop (f.capacity - i) items);
    all = rw over (map-take-drop (f.capacity - i) items);
    room = rw over (omega (arith, length-take (f.capacity - i) items));
    end = inr (rw over (ground (arith, length-take (f.capacity - i) items)));
  }
  | inr fits ↦ record {
    more = [];
    all = rw fits (append-nil (map entry_bytes items));
    room = rw fits (ground arith);
    end = inl refl;
  }
]

write_buffers_up_to-fits :
    (f : IndexFile) (entry : Entry) (rest : List Entry) (start position limit : ℕ)
    → ltb limit (entry_size entry) ≡ false
    → write_buffers_up_to f (entry ∷ rest) start position limit
      ≡ write_loop f.offsets f.content (entry ∷ rest) start position limit 0
unfolding write_buffers_up_to
write_buffers_up_to-fits f entry rest start position limit fits = rw fits refl

pub write_buffers_up_to-IsFilled :
    (f : IndexFile) (items : List Entry) (more : List Bytes)
    → IsCommitted f
    → f.next_at + length items ≤ f.capacity
    → (more ≡ []) ⊎ (f.next_at + length items ≡ f.capacity)
    → IsFilled f.offsets f.content f.next_at f.capacity (map entry_bytes items ++ more) 0 (
        write_buffers_up_to f items f.next_at
          (before f.offsets f.next_at)
          (max_datasize - before f.offsets f.next_at))
unfolding write_buffers_up_to
write_buffers_up_to-IsFilled f [] more c room end =
    stop-IsFilled f.offsets f.content f.next_at f.capacity 0 more (ok 0) c.written c.bounded (
      unfold Answers in
      (
        refl,
        spec_fill-done f.capacity _ more (elim end [
          | inl e ↦ inl e
          | inr e ↦ inr (omega (arith, length-entries_of f.offsets f.content f.next_at))
        ]),
      ))
write_buffers_up_to-IsFilled f (entry ∷ items) more c room end =
    elim (Bool-cases (ltb (max_datasize - before f.offsets f.next_at) (entry_size entry))) [
      | inl over ↦ rw over (
          stop-IsFilled f.offsets f.content f.next_at f.capacity 0
            (map entry_bytes (entry ∷ items) ++ more) (ok 0) c.written c.bounded
            (unfold Answers in
              (
                refl,
                spec_fill-over f.capacity (entries_of f.offsets f.content f.next_at)
                    (entry_bytes entry) (map entry_bytes items ++ more)
                    (ground (arith, length-entries_of f.offsets f.content f.next_at))
                    (ground (arith, length-entry_bytes entry))
                    (ground (
                      arith,
                      length-entry_bytes entry,
                      total_size-entries_of f.offsets f.content f.next_at c.written,
                      c.written.small f.next_at,
                    )),
              )))
      | inr fits ↦
          subst
            (IsFilled f.offsets f.content f.next_at f.capacity
              (map entry_bytes (entry ∷ items) ++ more) 0)
            (sym (write_buffers_up_to-fits f entry items f.next_at _ _ fits))
            (write_loop-IsFilled (entry ∷ items) more f.offsets f.content f.next_at f.capacity
              (before f.offsets f.next_at) (max_datasize - before f.offsets f.next_at) 0 c.written
              c.offsets_long room end refl refl)
    ]
