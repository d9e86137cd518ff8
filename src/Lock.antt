-- ===== src/Lock.antt =====
-- lib/utils/lock.js: exclusive and shared locks on one scope. A promise is the list of the jobs, numbered
-- in the order of the calls, that it settles after; `Promise.resolve()` is the empty one. A job is a
-- callback with the promise whose `then` invokes it.
pub mod Order
mod Tests
use node_zmq_raft.Prelude.{ℕ, suc, Bool, true, false, List, [], ◌∷◌, ◌++◌, Option, none, some}

abbrev pub JobPromise : Type 0
JobPromise = List ℕ

-- The entry of a scope in `lockedScopes`; `shared` is null after an exclusive call.
pub record Lock : Type 0 where
  pub exclusive : JobPromise
  pub shared : Option JobPromise

pub record Job : Type 0 where
  pub id : ℕ
  pub is_exclusive : Bool
  pub after : JobPromise

-- A shared call on a scope that has an entry, by what its `shared` is.
abbrev pub join_shared : JobPromise → Option JobPromise → ℕ → JobPromise × Lock
join_shared exclusive none id = (exclusive, record { exclusive = id ∷ []; shared = some exclusive })
join_shared exclusive (some promise) id =
    (promise, record { exclusive = exclusive ++ id ∷ []; shared = some promise })

-- The promise a call waits for, and the lock it leaves; `id` is the number of its callback's job.
unfoldable pub lock_shared : Option Lock → ℕ → JobPromise × Lock
lock_shared none id = ([], record { exclusive = id ∷ []; shared = some [] })
lock_shared (some lock) id = join_shared lock.exclusive lock.shared id

unfoldable pub lock_exclusive : Option Lock → ℕ → JobPromise × Lock
lock_exclusive none id = ([], record { exclusive = id ∷ []; shared = none })
lock_exclusive (some lock) id = (lock.exclusive, record { exclusive = id ∷ []; shared = none })

abbrev pub lock_call : Bool → Option Lock → ℕ → JobPromise × Lock
lock_call true = lock_exclusive
lock_call false = lock_shared

-- The jobs of calls in sequence; `true` is an exclusive call.
unfoldable pub lock_calls : Option Lock → (id : ℕ) → List Bool → List Job
unfolding lock_shared lock_exclusive
lock_calls lock id [] = []
lock_calls lock id (is_exclusive ∷ calls) =
    let (after, next) = lock_call is_exclusive lock id in
    record { id = id; is_exclusive = is_exclusive; after = after }
    ∷ lock_calls (some next) (suc id) calls
