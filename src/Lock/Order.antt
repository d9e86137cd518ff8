-- ===== src/Lock/Order.antt =====
-- What lib/utils/lock.js guarantees of the order of callbacks.
use node_zmq_raft.Prelude.{
  ℕ, suc, ◌≤◌, ◌≡◌, refl, sym, subst, Bool, true, false, ◌||◌, List, [], ◌∷◌, ◌++◌, Option, none,
  some, arith,
}
use node_zmq_raft.Lock.{
  Lock, Job, JobPromise, lock_shared, join_shared, lock_exclusive, lock_call, lock_calls,
}

-- When each job's callback is invoked and when what it returns completes.
module _ (begins ends : ℕ → ℕ) where
  unfoldable pub SettledBy : JobPromise → ℕ → Type 0
  SettledBy [] time = Unit {0}
  SettledBy (id ∷ promise) time = (ends id ≤ time) × SettledBy promise time

  -- A callback is invoked when the promise it waits for has settled, and completes after that.
  unfoldable pub IsSchedule : List Job → Type 0
  IsSchedule [] = Unit {0}
  IsSchedule (job ∷ jobs) =
      SettledBy job.after (begins job.id) × (begins job.id ≤ ends job.id) × IsSchedule jobs

  -- The jobs of earlier calls have completed before, but for two shared ones.
  unfoldable pub WaitsFor : List Job → Job → Type 0
  WaitsFor [] job = Unit {0}
  WaitsFor (earlier ∷ past) job =
      ((earlier.is_exclusive || job.is_exclusive) ≡ true → ends earlier.id ≤ begins job.id)
      × WaitsFor past job

  unfoldable pub IsApart : (past jobs : List Job) → Type 0
  IsApart past [] = Unit {0}
  IsApart past (job ∷ jobs) = WaitsFor past job × IsApart (job ∷ past) jobs

  -- A promise that settles only after all jobs, or all exclusive ones.
  abbrev pub Covers : JobPromise → List Job → Type 0
  Covers promise [] = Unit {0}
  Covers promise (job ∷ jobs) =
      ((time : ℕ) → SettledBy promise time → ends job.id ≤ time) × Covers promise jobs

  abbrev pub CoversExclusive : JobPromise → List Job → Type 0
  CoversExclusive promise [] = Unit {0}
  CoversExclusive promise (job ∷ jobs) =
      (job.is_exclusive ≡ true → (time : ℕ) → SettledBy promise time → ends job.id ≤ time)
      × CoversExclusive promise jobs

  abbrev pub CoversShared : Option JobPromise → List Job → Type 0
  CoversShared none past = Unit {0}
  CoversShared (some promise) past = CoversExclusive promise past

  unfoldable pub IsHeld : Option Lock → List Job → Type 0
  IsHeld none past = past ≡ []
  IsHeld (some lock) past = Covers lock.exclusive past × CoversShared lock.shared past

  pub Covers-exclusive :
      (promise : JobPromise) (past : List Job) → Covers promise past → CoversExclusive promise past
  Covers-exclusive promise [] c = tt
  Covers-exclusive promise (job ∷ past) (c, cs) = (λ e. c, Covers-exclusive promise past cs)

  -- A promise that settles no earlier covers as much.
  pub Covers-later :
      (promise later : JobPromise) (past : List Job)
      → ((time : ℕ) → SettledBy later time → (n : ℕ) × SettledBy promise n × (n ≤ time))
      → Covers promise past
      → Covers later past
  Covers-later promise later [] l c = tt
  Covers-later promise later (job ∷ past) l (c, cs) = (
    λ time s. (let (n, p, h) = l time s in omega (arith, c n p, h)),
    Covers-later promise later past l cs,
  )

  pub Covers-WaitsFor :
      (past : List Job) (job : Job)
      → SettledBy job.after (begins job.id)
      → Covers job.after past
      → WaitsFor past job
  unfolding WaitsFor
  Covers-WaitsFor [] job s c = tt
  Covers-WaitsFor (earlier ∷ past) job s (c, cs) =
      (λ e. c (begins job.id) s, Covers-WaitsFor past job s cs)

  pub CoversExclusive-WaitsFor :
      (past : List Job) (job : Job)
      → job.is_exclusive ≡ false
      → SettledBy job.after (begins job.id)
      → CoversExclusive job.after past
      → WaitsFor past job
  unfolding WaitsFor
  CoversExclusive-WaitsFor [] job n s c = tt
  CoversExclusive-WaitsFor (earlier ∷ past) job n s (c, cs) =
      (λ e. c (ground (arith, e, n)) (begins job.id) s, CoversExclusive-WaitsFor past job n s cs)

  pub SettledBy-append :
      (p q : JobPromise) (time : ℕ) → SettledBy (p ++ q) time → SettledBy p time × SettledBy q time
  unfolding SettledBy
  SettledBy-append [] q time s = (tt, s)
  SettledBy-append (id ∷ p) q time (h, s) = let (a, b) = SettledBy-append p q time s in ((h, a), b)

  -- What a call that waits for a promise and leaves a lock keeps.
  abbrev pub IsCall : Bool → List Job → ℕ → JobPromise × Lock → Type 0
  IsCall is_exclusive past id out =
      SettledBy out.0 (begins id)
      → begins id ≤ ends id
      → WaitsFor past (record { id = id; is_exclusive = is_exclusive; after = out.0 })
        × IsHeld (some out.1)
            (record { id = id; is_exclusive = is_exclusive; after = out.0 } ∷ past)

  pub join_shared-IsCall :
      (exclusive : JobPromise) (shared : Option JobPromise) (past : List Job) (id : ℕ)
      → Covers exclusive past
      → CoversShared shared past
      → IsCall false past id (join_shared exclusive shared id)
  unfolding IsHeld SettledBy
  join_shared-IsCall exclusive none past id c cs s h =
      let job : Job = record { id = id; is_exclusive = false; after = exclusive } in
      (
        Covers-WaitsFor past job s c,
        (
          (
            λ time t. t.0,
            Covers-later exclusive (id ∷ []) past (λ time t. (begins id, s, omega (arith, h, t.0)))
                c,
          ),
          (λ e. absurd (ground (arith, e)), Covers-exclusive exclusive past c),
        ),
      )
  join_shared-IsCall exclusive (some promise) past id c cs s h =
      let job : Job = record { id = id; is_exclusive = false; after = promise } in
      (
        CoversExclusive-WaitsFor past job refl s cs,
        (
          (
            λ time t. (SettledBy-append exclusive (id ∷ []) time t).1.0,
            Covers-later exclusive (exclusive ++ id ∷ []) past
                (λ time t. (time, (SettledBy-append exclusive (id ∷ []) time t).0, omega arith)) c,
          ),
          (λ e. absurd (ground (arith, e)), cs),
        ),
      )

  pub lock_call-IsCall :
      (is_exclusive : Bool) (lock : Option Lock) (past : List Job) (id : ℕ)
      → IsHeld lock past
      → IsCall is_exclusive past id (lock_call is_exclusive lock id)
  unfolding lock_shared lock_exclusive IsHeld SettledBy WaitsFor
  lock_call-IsCall true none past id e s h =
      subst (λ xs. IsCall true xs id (lock_call true none id)) (sym e)
        (λ t l. (tt, ((λ time r. r.0, tt), tt))) s h
  lock_call-IsCall false none past id e s h =
      subst (λ xs. IsCall false xs id (lock_call false none id)) (sym e)
        (λ t l. (tt, ((λ time r. r.0, tt), (λ f. absurd (ground (arith, f)), tt)))) s h
  lock_call-IsCall true (some lock) past id (c, cs) s h = (
    Covers-WaitsFor past (record { id = id; is_exclusive = true; after = lock.exclusive }) s c,
    (
      (
        λ time t. t.0,
        Covers-later lock.exclusive (id ∷ []) past (λ time t. (begins id, s, omega (arith, h, t.0)))
            c,
      ),
      tt,
    ),
  )
  lock_call-IsCall false (some lock) past id (c, cs) s h =
      join_shared-IsCall lock.exclusive lock.shared past id c cs s h

  pub lock_calls-IsApart_after :
      (calls : List Bool) (lock : Option Lock) (past : List Job) (id : ℕ)
      → IsHeld lock past
      → IsSchedule (lock_calls lock id calls)
      → IsApart past (lock_calls lock id calls)
  unfolding lock_calls IsSchedule IsApart
  lock_calls-IsApart_after [] lock past id held s = tt
  lock_calls-IsApart_after (is_exclusive ∷ calls) lock past id held (s, h, rest) =
      let (waits, next) = lock_call-IsCall is_exclusive lock past id held s h in
      (
        waits,
        lock_calls-IsApart_after calls (some (lock_call is_exclusive lock id).1)
            (record {
              id = id;
              is_exclusive = is_exclusive;
              after = (lock_call is_exclusive lock id).0;
            }
              ∷ past)
            (suc id) next rest,
      )

  -- Over any calls on a scope, whenever each callback is invoked after the promise that it waits for has
  -- settled and completes after its own invocation, a callback is invoked only after those of all earlier
  -- calls have completed when it is exclusive, and after those of the earlier exclusive calls when shared.
  pub lock_calls-IsApart :
      (calls : List Bool)
      → IsSchedule (lock_calls none 0 calls)
      → IsApart [] (lock_calls none 0 calls)
  unfolding IsHeld
  lock_calls-IsApart calls s = lock_calls-IsApart_after calls none [] 0 refl s
