-- ===== src/IndexFile/Stored.antt =====
-- The table of offsets on disk against the one in memory: `commitwrite`, `truncate` and
-- `clearAndWriteIfDirty` of lib/common/indexfile.js.
use node_zmq_raft.Prelude.{ℕ, ◌+◌, ◌-◌, ◌<◌, ◌≤◌, ◌≡◌, List, length, arith, ◌∙◌, inl, inr, sym}
use node_zmq_raft.Table.{slot, fill_slots, copy_slots, clear}
use node_zmq_raft.Table.Slots.{
  slot-fill_outside, slot-fill_inside, slot-copy_outside, slot-copy_inside,
}
use node_zmq_raft.Table.Clearing.{clear-IsCleared}
use native.Mathlib.Decide.{dec_le, dec_lt}

-- The table on disk has the first `count` offsets and nothing behind them.
pub record IsStored (offsets table : List ℕ) (count : ℕ) : Type 0 where
  pub stored : (i : ℕ) → i < count → slot table i ≡ slot offsets i
  pub unused : (i : ℕ) → count ≤ i → slot table i ≡ 0

pub IsStored-offsets :
    {offsets offsets' table : List ℕ} {count : ℕ}
    → IsStored offsets table count
    → ((i : ℕ) → i < count → slot offsets' i ≡ slot offsets i)
    → IsStored offsets' table count
IsStored-offsets s same = record {
  stored = λ i h. s.stored i h ∙ sym (same i h);
  unused = s.unused;
}

-- Committing the offsets from `count` on, up to `more`.
pub IsStored-commit :
    {offsets table : List ℕ} {count : ℕ} (more : ℕ)
    → IsStored offsets table count
    → count ≤ more
    → more ≤ length table
    → IsStored offsets (copy_slots offsets table count (more - count)) more
IsStored-commit {offsets} {table} {count} more s h k = record {
  stored = λ i l. elim (dec_lt i count) [
    | yes less ↦ slot-copy_outside (more - count) offsets table count i (inl less) ∙ s.stored i less
    | no not_less ↦
        slot-copy_inside (more - count) offsets table count i (omega arith) (omega arith)
          (omega arith)
  ];
  unused = λ i l.
      slot-copy_outside (more - count) offsets table count i (inr (omega arith))
      ∙ s.unused i (omega arith);
}

-- Clearing what is behind the offsets committed.
pub IsStored-clear :
    {offsets table : List ℕ} {count : ℕ} (start : ℕ)
    → IsStored offsets table count
    → count ≤ start
    → start + (clear offsets start).1 ≤ length table
    → IsStored offsets
        (copy_slots (clear offsets start).0 table start (clear offsets start).1)
        count
IsStored-clear {offsets} {table} {count} start s h k = record {
  stored = λ i l. slot-copy_outside _ _ table start i (inl (omega arith)) ∙ s.stored i l;
  unused = λ i l. elim (dec_le start i) [
    | no less ↦ slot-copy_outside _ _ table start i (inl (omega arith)) ∙ s.unused i l
    | yes more ↦ elim (dec_lt i (start + (clear offsets start).1)) [
      | no over ↦ slot-copy_outside _ _ table start i (inr (omega arith)) ∙ s.unused i l
      | yes under ↦
          slot-copy_inside _ _ table start i more under (omega arith)
          ∙ (clear-IsCleared offsets start).cleared i more under
    ]
  ];
}

-- Going back to `fewer` offsets.
pub IsStored-cut :
    {offsets table : List ℕ} {count : ℕ} (fewer : ℕ)
    → IsStored offsets table count
    → fewer ≤ count
    → count ≤ length table
    → IsStored
        (fill_slots offsets fewer (count - fewer))
        (copy_slots (fill_slots offsets fewer (count - fewer)) table fewer (count - fewer))
        fewer
IsStored-cut {offsets} {table} {count} fewer s h k =
    let filled = fill_slots offsets fewer (count - fewer) in
    record {
      stored = λ i l.
          slot-copy_outside (count - fewer) filled table fewer i (inl l)
          ∙ s.stored i (omega arith)
          ∙ sym (slot-fill_outside (count - fewer) offsets fewer i (inl l));
      unused = λ i l. elim (dec_lt i count) [
        | yes under ↦
            slot-copy_inside (count - fewer) filled table fewer i l (omega arith) (omega arith)
            ∙ slot-fill_inside (count - fewer) offsets fewer i l (omega arith)
        | no over ↦
            slot-copy_outside (count - fewer) filled table fewer i (inr (omega arith))
            ∙ s.unused i (omega arith)
      ];
    }
