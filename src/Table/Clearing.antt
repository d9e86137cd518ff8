-- ===== src/Table/Clearing.antt =====
-- What `clear` of lib/common/indexfile.js leaves of a typed array.
use node_zmq_raft.Table.{slot, clear_loop, clear}
use native.Mathlib.Decide.{dec_lt}
use node_zmq_raft.Table.Slots.{get_or-set_ne, get_or-beyond, get_or-set_zero}
use node_zmq_raft.Prelude.{
  ℕ, zero, suc, ◌+◌, ◌-◌, ◌<◌, ◌≤◌, ◌≡◌, ◌∙◌, ◌≢◌, refl, List, length, set, ◌==◌, arith, length-set,
  ◌⊎◌, inl, inr, Bool-cases, subst,
}

-- What `clear` leaves: the run of slots from `start` that are not 0 is cleared.
pub record IsCleared (table : List ℕ) (start : ℕ) (left : List ℕ) (stop : ℕ) : Type 0 where
  pub long : length left ≡ length table
  pub ordered : start ≤ stop
  pub ended : slot table stop ≡ 0
  pub cleared : (i : ℕ) → start ≤ i → i < stop → slot left i ≡ 0
  pub dirty : (i : ℕ) → start ≤ i → i < stop → slot table i ≢ 0
  pub kept : (i : ℕ) → (i < start) ⊎ (stop ≤ i) → slot left i ≡ slot table i

clear_loop-IsCleared :
    (fuel : ℕ) (table : List ℕ) (start : ℕ)
    → length table ≤ start + fuel
    → IsCleared table start (clear_loop fuel table start).0 (clear_loop fuel table start).1
unfolding clear_loop
clear_loop-IsCleared zero table start h = record {
  long = refl;
  ordered = omega arith;
  ended = get_or-beyond table start (omega arith);
  cleared = λ i a b. absurd (omega arith);
  dirty = λ i a b. absurd (omega arith);
  kept = λ i o. refl;
}
clear_loop-IsCleared (suc fuel) table start h =
    let rest : IsCleared (set table start 0) (suc start)
        (clear_loop fuel (set table start 0) (suc start)).0
        (clear_loop fuel (set table start 0) (suc start)).1 =
      clear_loop-IsCleared fuel (set table start 0) (suc start)
        (omega (arith, length-set table start 0)) in
    elim (Bool-cases (slot table start == 0)) [
      | inl e ↦ rw e (record {
        long = refl;
        ordered = omega arith;
        ended = ground arith;
        cleared = λ i a b. absurd (omega arith);
        dirty = λ i a b. absurd (omega arith);
        kept = λ i o. refl;
      })
      | inr e ↦ rw e (record {
        long = omega (arith, rest.long, length-set table start 0);
        ordered = omega (arith, rest.ordered);
        ended = omega (
          arith,
          rest.ended,
          rest.ordered,
          get_or-set_ne table start (clear_loop fuel (set table start 0) (suc start)).1 0
              (omega (arith, rest.ordered)),
        );
        cleared = λ i a b. ground (arith, rest.cleared i, rest.kept i, get_or-set_zero table start);
        dirty = λ i a b. ground (arith, rest.dirty i, get_or-set_ne table start i 0);
        kept = λ i o. ground (arith, rest.kept i, rest.ordered, get_or-set_ne table start i 0);
      })
    ]

pub clear-IsCleared :
    (table : List ℕ) (start : ℕ)
    → IsCleared table start (clear table start).0 (start + (clear table start).1)
unfolding clear
clear-IsCleared table start =
    let all : IsCleared table start (clear_loop (length table - start) table start).0
        (clear_loop (length table - start) table start).1 =
      clear_loop-IsCleared (length table - start) table start (omega arith) in
    subst (IsCleared table start (clear_loop (length table - start) table start).0)
      (omega (arith, all.ordered)) all

pub clear-bound :
    (table : List ℕ) (start : ℕ)
    → start ≤ length table
    → start + (clear table start).1 ≤ length table
clear-bound table start h = elim (dec_lt (length table) (start + (clear table start).1)) [
  | no more ↦ omega arith
  | yes over ↦ absurd (
      (clear-IsCleared table start).dirty (start + (clear table start).1 - 1) (omega arith)
        (omega arith) (get_or-beyond table (start + (clear table start).1 - 1) (omega arith)))
]

pub clear-clean : (table : List ℕ) (start : ℕ) → slot (clear table start).0 start ≡ 0
clear-clean table start =
    let c : IsCleared table start (clear table start).0 (start + (clear table start).1) =
      clear-IsCleared table start in
    elim (dec_lt start (start + (clear table start).1)) [
      | yes more ↦ c.cleared start (omega arith) more
      | no same ↦ c.kept start (inr (omega arith)) ∙ grind (arith, c.ended)
    ]
