-- ===== src/Lock/Tests.antt =====
-- The theorem on lib/utils/lock.js for two shared calls, an exclusive one and a shared one.
use node_zmq_raft.Prelude.{
  ℕ, ◌+◌, ◌*◌, ◌≡◌, refl, Bool, true, false, List, [], ◌∷◌, none, map, ◌==◌, if◌then◌else◌, arith,
}
use node_zmq_raft.Lock.{Job, lock_shared, lock_exclusive, lock_calls}
use node_zmq_raft.Lock.Order.{SettledBy, IsSchedule, IsApart, lock_calls-IsApart}

abbrev calls : List Bool
calls = false ∷ false ∷ true ∷ false ∷ []

-- The two shared callbacks overlap.
abbrev begins : ℕ → ℕ
begins id = 10 * id

abbrev ends : ℕ → ℕ
ends id = if id == 0 then 15 else 10 * id + 6

waited_for :
    map {A = Job} (λ job. job.after) (lock_calls none 0 calls)
    ≡ [] ∷ [] ∷ (0 ∷ 1 ∷ []) ∷ (2 ∷ []) ∷ []
unfolding lock_calls lock_shared lock_exclusive
waited_for = refl

calls-IsSchedule : IsSchedule begins ends (lock_calls none 0 calls)
unfolding lock_calls lock_shared lock_exclusive SettledBy IsSchedule
calls-IsSchedule = (
  tt,
  omega arith,
  (
    tt,
    omega arith,
    ((omega arith, (omega arith, tt)), omega arith, ((omega arith, tt), omega arith, tt)),
  ),
)

lock_calls-IsApart_example : IsApart begins ends [] (lock_calls none 0 calls)
lock_calls-IsApart_example = lock_calls-IsApart begins ends calls calls-IsSchedule
