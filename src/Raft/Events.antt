-- ===== src/Raft/Events.antt =====
-- A handler's step that keeps the promises of Raft's persistent state, and how such steps compose.
use node_zmq_raft.Prelude.{
  ℕ, ◌≤◌, ◌≡◌, refl, ap, sym, ◌∙◌, subst, List, ◌++◌, Option, some, String, arith,
}
use node_zmq_raft.Raft.{Raft, Outcome, done, thrown, after, effects, prepend, and_then, Effect}
use node_zmq_raft.Raft.State.{stored, stored-append, Settled}

-- The term does not go back, a vote stays the vote of its term, the commit index does not go back, and
-- the store holds the vote and the term that the state has.
pub record IsSafe (s : Raft) (o : Outcome) : Type 0 where
  pub term_up : s.current_term ≤ (after o).current_term
  pub vote_kept :
      (after o).current_term ≡ s.current_term
      → (id : String) → s.voted_for ≡ some id
      → (after o).voted_for ≡ some id
  pub commit_up : s.commit_index ≤ (after o).commit_index
  pub in_store :
      stored (effects o) (s.voted_for, s.current_term)
      ≡ ((after o).voted_for, (after o).current_term)

stored_pair :
    (v w : Option String) (t u : ℕ) → v ≡ w → t ≡ u → ◌≡◌ {A = Option String × ℕ} (v, t) (w, u)
stored_pair v w t u e f = ap (λ x. (x, t)) e ∙ ap (λ x. (w, x)) f

-- A step that changes neither and stores nothing.
pub quiet-IsSafe :
    (s s' : Raft) (es : List Effect)
    → s'.current_term ≡ s.current_term
    → s'.voted_for ≡ s.voted_for
    → s.commit_index ≤ s'.commit_index
    → stored es (s.voted_for, s.current_term) ≡ (s.voted_for, s.current_term)
    → IsSafe s (done s' es)
quiet-IsSafe s s' es t v c w = record {
  term_up = omega arith;
  vote_kept = λ e id h. v ∙ h;
  commit_up = c;
  in_store =
      w ∙ stored_pair s.voted_for s'.voted_for s.current_term s'.current_term (sym v) (sym t);
}

pub quiet_thrown-IsSafe :
    (s s' : Raft) (es : List Effect)
    → s'.current_term ≡ s.current_term
    → s'.voted_for ≡ s.voted_for
    → s.commit_index ≤ s'.commit_index
    → stored es (s.voted_for, s.current_term) ≡ (s.voted_for, s.current_term)
    → IsSafe s (thrown s' es)
quiet_thrown-IsSafe s s' es t v c w = record {
  term_up = omega arith;
  vote_kept = λ e id h. v ∙ h;
  commit_up = c;
  in_store =
      w ∙ stored_pair s.voted_for s'.voted_for s.current_term s'.current_term (sym v) (sym t);
}

-- `_updateState` is such a step when it is given a higher term, or the same one and a vote that keeps
-- the one there is.
pub Settled-IsSafe :
    (s : Raft) (term : ℕ) (voted_for : Option String) (o : Outcome)
    → Settled s term voted_for o
    → s.current_term ≤ term
    → (term ≡ s.current_term → (id : String) → s.voted_for ≡ some id → voted_for ≡ some id)
    → IsSafe s o
unfolding Settled
Settled-IsSafe s term voted_for (done s' es) (i, t, v, l, c, w) up kept = record {
  term_up = omega arith;
  vote_kept = λ e id h. v ∙ kept (sym t ∙ e) id h;
  commit_up = omega arith;
  in_store = w ∙ stored_pair voted_for s'.voted_for term s'.current_term (sym v) (sym t);
}
Settled-IsSafe s term voted_for (thrown s' es) (alike, w) up kept =
    quiet_thrown-IsSafe s s' es alike.same_term alike.same_voted (omega (arith, alike.same_commit))
      w

-- The same from a state alike.
pub from_alike-IsSafe :
    (s s' : Raft) (o : Outcome)
    → s'.current_term ≡ s.current_term
    → s'.voted_for ≡ s.voted_for
    → s.commit_index ≤ s'.commit_index
    → IsSafe s' o
    → IsSafe s o
from_alike-IsSafe s s' o t v c h = record {
  term_up = omega (arith, h.term_up);
  vote_kept = λ e id k. h.vote_kept (e ∙ sym t) id (v ∙ k);
  commit_up = omega (arith, h.commit_up);
  in_store =
      ap (stored (effects o))
        (stored_pair s.voted_for s'.voted_for s.current_term s'.current_term (sym v) (sym t))
      ∙ h.in_store;
}

after-prepend : (es : List Effect) (o : Outcome) → after (prepend es o) ≡ after o
after-prepend es (done s fs) = refl
after-prepend es (thrown s fs) = refl

effects-prepend : (es : List Effect) (o : Outcome) → effects (prepend es o) ≡ es ++ effects o
effects-prepend es (done s fs) = refl
effects-prepend es (thrown s fs) = refl

chain :
    (s s' : Raft) (es fs : List Effect) (s'' : Raft)
    → IsSafe s (done s' es)
    → s'.current_term ≤ s''.current_term
    → (s''.current_term ≡ s'.current_term
        → (id : String) → s'.voted_for ≡ some id
        → s''.voted_for ≡ some id)
    → s'.commit_index ≤ s''.commit_index
    → stored fs (s'.voted_for, s'.current_term) ≡ (s''.voted_for, s''.current_term)
    → IsSafe s (done s'' (es ++ fs))
chain s s' es fs s'' h up kept commit w = record {
  term_up = omega (arith, h.term_up);
  vote_kept =
      λ e id k. kept (omega (arith, h.term_up)) id (h.vote_kept (omega (arith, h.term_up)) id k);
  commit_up = omega (arith, h.commit_up);
  in_store = stored-append es fs (s.voted_for, s.current_term) ∙ ap (stored fs) h.in_store ∙ w;
}

done_thrown : (s s' : Raft) (es : List Effect) → IsSafe s (done s' es) → IsSafe s (thrown s' es)
done_thrown s s' es h = record {
  term_up = h.term_up;
  vote_kept = h.vote_kept;
  commit_up = h.commit_up;
  in_store = h.in_store;
}

pub prepend-IsSafe :
    (s s' : Raft) (es : List Effect) (o : Outcome)
    → IsSafe s (done s' es)
    → IsSafe s' o
    → IsSafe s (prepend es o)
prepend-IsSafe s s' es (done s'' fs) h k =
    chain s s' es fs s'' h k.term_up k.vote_kept k.commit_up k.in_store
prepend-IsSafe s s' es (thrown s'' fs) h k =
    done_thrown s s'' (es ++ fs)
      (chain s s' es fs s'' h k.term_up k.vote_kept k.commit_up k.in_store)

pub and_then-IsSafe :
    (s : Raft) (o : Outcome) (f : Raft → Outcome)
    → IsSafe s o
    → ((s' : Raft) → IsSafe s' (f s'))
    → IsSafe s (and_then o f)
unfolding and_then
and_then-IsSafe s (done s' es) f h k = prepend-IsSafe s s' es (f s') h (k s')
and_then-IsSafe s (thrown s' es) f h k = h

-- What follows `_updateState` in a handler may use that the log and the commit index are untouched.
pub Settled-then-IsSafe :
    (s : Raft) (term : ℕ) (voted_for : Option String) (o : Outcome) (f : Raft → Outcome)
    → Settled s term voted_for o
    → s.current_term ≤ term
    → (term ≡ s.current_term → (id : String) → s.voted_for ≡ some id → voted_for ≡ some id)
    → ((s' : Raft) → s'.log ≡ s.log → s'.commit_index ≡ s.commit_index → IsSafe s' (f s'))
    → IsSafe s (and_then o f)
unfolding and_then Settled
Settled-then-IsSafe s term voted_for (thrown s' es) f h up kept next =
    Settled-IsSafe s term voted_for (thrown s' es) h up kept
Settled-then-IsSafe s term voted_for (done s' es) f h up kept next =
    prepend-IsSafe s s' es (f s') (Settled-IsSafe s term voted_for (done s' es) h up kept)
      (next s' (log_of h) (commit_of h))
  where
    log_of : Settled s term voted_for (done s' es) → s'.log ≡ s.log
    log_of h = h.3

    commit_of : Settled s term voted_for (done s' es) → s'.commit_index ≡ s.commit_index
    commit_of h = h.4

pub Settled-then-after {ℓ} :
    (Q : Raft → Type ℓ) (s : Raft) (term : ℕ) (voted_for : Option String) (o : Outcome)
    (f : Raft → Outcome)
    → Settled s term voted_for o
    → ((s' : Raft) → s'.log ≡ s.log → s'.commit_index ≡ s.commit_index → Q s')
    → ((s' : Raft) → s'.log ≡ s.log → s'.commit_index ≡ s.commit_index → Q (after (f s')))
    → Q (after (and_then o f))
unfolding and_then Settled
Settled-then-after Q s term voted_for (thrown s' es) f (alike, w) stops goes =
    stops s' alike.same_log alike.same_commit
Settled-then-after Q s term voted_for (done s' es) f (i, t, v, l, c, w) stops goes =
    subst Q (sym (after-prepend es (f s'))) (goes s' l c)
