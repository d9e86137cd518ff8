-- ===== src/Raft/Answering.antt =====
-- How `requestVoteHandler` of lib/server/raft_router.js answers, branch by branch.
use node_zmq_raft.Prelude.{
  ℕ, ◌≤◌, ◌<◌, ◌≡◌, refl, ap, sym, ◌∙◌, Bool, true, false, not, ◌&&◌, ◌||◌, List, [], ◌∷◌, ◌++◌,
  Option, none, some, String, arith, subst, ltb, ◌==◌, if◌then◌else◌, Bool-cases, inl, inr, ◌⊎◌,
}
use node_zmq_raft.Prelude.JsMap
use node_zmq_raft.Prelude.JsMap.{JsMap}
use node_zmq_raft.Raft.{
  Raft, Fsm, follower, Outcome, done, after, effects, and_then, Effect, vote_reply, update_state,
  leave, configure, settle, refuse_all, cancel_pending_rpcs, config_reply, emit_state, same_state,
  same_vote, is_candidate, is_leader, refresh_election_timeout,
}
use node_zmq_raft.Raft.Router.{up_to_date, is_waiting, may_grant, request_vote_handler}
use node_zmq_raft.Raft.State.{stored, stored-append, update_state-Settled, Settled}
use node_zmq_raft.Raft.Votes.{free_vote}

pub false≢true : false ≡ true → ⊥
false≢true e = cc

-- Whether a vote is granted among the effects.
unfoldable pub grants : List Effect → Bool
grants [] = false
grants (vote_reply term true ∷ es) = true
grants (e ∷ es) = grants es

grants-append : (es fs : List Effect) → grants es ≡ false → grants (es ++ fs) ≡ grants fs
unfolding grants
grants-append [] fs h = refl
grants-append (vote_reply term true ∷ es) fs h = absurd cc
grants-append (vote_reply term false ∷ es) fs h = grants-append es fs h
grants-append (e ∷ es) fs h = grants-append es fs h

grants-refuse_all : (m : JsMap (Option ℕ)) → grants (refuse_all m) ≡ false
unfolding grants
grants-refuse_all [] = refl
grants-refuse_all ((key, i) ∷ m) = grants-refuse_all m

grants-reply : (b : Bool) → grants (if b then config_reply 0 ∷ [] else []) ≡ false
unfolding grants
grants-reply true = refl
grants-reply false = refl

grants-leave : (s : Raft) → grants (leave s).1 ≡ false
unfolding leave cancel_pending_rpcs grants
grants-leave s = elim (Bool-cases (is_candidate s.state || is_leader s.state)) [
  | inl e ↦ rw e (
      grants-append (refuse_all s.update_requests) _ (grants-refuse_all s.update_requests)
      ∙ grants-reply s.config_update_reply)
  | inr e ↦ rw e refl
]

grants-settle :
    (prev s : Raft) (state : Fsm) (term : ℕ) (voted_for : Option String)
    → grants (settle prev s state term voted_for none).1 ≡ false
unfolding settle grants
grants-settle prev s state term voted_for =
    elim (Bool-cases (not (prev.current_term == term) || not (same_vote s.voted_for voted_for))) [
      | inl t ↦ rw t (
          grants-append
            (if not (same_state prev.state _) || not (prev.current_term == term)
              then emit_state _ term ∷ []
              else [])
            _ (emitted _ _))
      | inr t ↦ rw t (
          grants-append (if not (same_state prev.state _) then emit_state _ term ∷ [] else []) _
            (emitted _ _))
    ]
  where
    emitted : (b : Bool) (next : Fsm) → grants (if b then emit_state next term ∷ [] else []) ≡ false
    emitted true next = refl
    emitted false next = refl

-- `_updateState` without a configuration runs to its end, replies to no vote request, and leaves the
-- vote and the term it is given in the state and in the store.
update_state-done :
    (valid_url : String → Bool) (s : Raft) (state : Fsm) (term : ℕ) (voted_for : Option String)
    → (s' : Raft) × (es : List Effect) × (update_state valid_url s state term voted_for none
        ≡ done s' es)
      × (grants es ≡ false)
      × (s'.voted_for ≡ voted_for)
      × (s'.current_term ≡ term)
      × (stored es (s.voted_for, s.current_term) ≡ (voted_for, term))
unfolding update_state configure Settled grants
update_state-done valid_url s state term voted_for =
    let (i, t, v, l, c, w) = update_state-Settled valid_url s state term voted_for none in
    (
      (settle s (leave s).0 state term voted_for none).0,
      (leave s).1 ++ [] ++ (settle s (leave s).0 state term voted_for none).1,
      refl,
      grants-append ((leave s).1 ++ []) _ (grants-append (leave s).1 [] (grants-leave s))
          ∙ grants-settle s (leave s).0 state term voted_for,
      v,
      t,
      w,
    )

-- What a vote granted to a candidate means for the peer that grants it.
unfoldable pub Granted : Raft → Raft → List Effect → String → ℕ → ℕ → ℕ → Type 0
Granted s s' es id term last_index last_term =
    (JsMap.has s.cluster.peers id ≡ true)
    × (s.current_term ≤ term)
    × ((s.voted_for ≡ none) ⊎ ((s.voted_for ≡ some id) ⊎ (s.current_term < term)))
    × (up_to_date s.log last_index last_term ≡ true)
    × (s'.voted_for ≡ some id)
    × (s'.current_term ≡ term)
    × (stored es (s.voted_for, s.current_term) ≡ (some id, term))

grants-last :
    (es : List Effect) (term : ℕ) (granted : Bool)
    → grants es ≡ false
    → grants (es ++ vote_reply term granted ∷ []) ≡ granted
unfolding grants
grants-last es term true h = grants-append es (vote_reply term true ∷ []) h
grants-last es term false h = grants-append es (vote_reply term false ∷ []) h

grants-one : (term : ℕ) (granted : Bool) → grants (vote_reply term granted ∷ []) ≡ granted
unfolding grants
grants-one term true = refl
grants-one term false = refl

stored_reply :
    (term : ℕ) (b : Bool) (held : Option String × ℕ) → stored (vote_reply term b ∷ []) held ≡ held
unfolding stored
stored_reply term b held = refl

-- Whether a vote is granted, and what follows if it is.
unfoldable pub Answer : Raft → Outcome → String → ℕ → ℕ → ℕ → Bool → Type 0
Answer s o id term last_index last_term granted =
    (grants (effects o) ≡ granted)
    × (granted ≡ true → Granted s (after o) (effects o) id term last_index last_term)

refused :
    (s : Raft) (o : Outcome) (id : String) (term last_index last_term : ℕ)
    → grants (effects o) ≡ false
    → Answer s o id term last_index last_term false
unfolding Answer
refused s o id term last_index last_term h = (h, λ e. absurd (true≢false e))
  where
    true≢false : false ≡ true → ⊥
    true≢false e = cc

-- The branch that sets a new vote or term.
updated :
    (valid_url : String → Bool) (s s1 : Raft) (id : String) (term last_index last_term : ℕ)
    (granted : Bool)
    → s1.voted_for ≡ s.voted_for
    → s1.current_term ≡ s.current_term
    → JsMap.has s.cluster.peers id ≡ true
    → s.current_term ≤ term
    → (granted ≡ true → may_grant s id term last_index last_term ≡ true)
    → Answer s
        (and_then
          (update_state valid_url s1 follower term (if granted then some id else none) none)
          (λ s'. done s' (vote_reply term granted ∷ [])))
        id
        term
        last_index
        last_term
        granted
unfolding Answer Granted and_then
updated valid_url s s1 id term last_index last_term granted v t known low may =
    let (s', es, e, g, vote, now, held) =
      update_state-done valid_url s1 follower term (if granted then some id else none) in
    subst
      (λ o.
        Answer s (and_then o (λ s'. done s' (vote_reply term granted ∷ []))) id term last_index
          last_term granted)
      (sym e)
      (
        grants-last es term granted g,
        λ yes.
            let (current, free) = free_vote s id term last_index last_term (may yes) in
            (
              known,
              low,
              free,
              current,
              vote ∙ ap (λ b. if b then some id else none) yes,
              now,
              stored-append es (vote_reply term granted ∷ []) (s.voted_for, s.current_term)
                  ∙ kept term granted (stored es (s.voted_for, s.current_term))
                  ∙ ap (λ w. stored es (w, s.current_term)) (sym v)
                  ∙ ap (λ u. stored es (s1.voted_for, u)) (sym t)
                  ∙ held
                  ∙ ap (λ b. ((if b then some id else none), term)) yes,
            ),
      )
  where
    kept :
        (term : ℕ) (b : Bool) (held : Option String × ℕ)
        → stored (vote_reply term b ∷ []) held ≡ held
    kept term b held = stored_reply term b held

pub answers :
    (valid_url : String → Bool) (s : Raft) (id : String) (term last_index last_term : ℕ)
    → Answer s
        (request_vote_handler valid_url s id term last_index last_term)
        id
        term
        last_index
        last_term
        (JsMap.has s.cluster.peers id
          && (not (ltb term s.current_term)
              && (not (is_waiting s) && may_grant s id term last_index last_term)))
unfolding request_vote_handler refresh_election_timeout grants
answers valid_url s id term last_index last_term =
    elim (Bool-cases (JsMap.has s.cluster.peers id)) [
      | inr e ↦ rw e (refused s (done s []) id term last_index last_term refl)
      | inl e ↦ elim (Bool-cases (ltb term s.current_term)) [
        | inl t ↦
            rw (e, t)
              (refused s (done s (vote_reply s.current_term false ∷ [])) id term last_index
                last_term refl)
        | inr t ↦ elim (Bool-cases (is_waiting s)) [
          | inl u ↦
              rw (e, t, u)
                (refused s (done s (vote_reply s.current_term false ∷ [])) id term last_index
                  last_term refl)
          | inr u ↦ elim (Bool-cases (may_grant s id term last_index last_term)) [
            | inl g ↦
                rw (e, t, u, g)
                  (updated valid_url s (stopped s) id term last_index last_term true refl refl e
                    (low t) (λ yes. g))
            | inr g ↦ elim (Bool-cases (ltb s.current_term term)) [
              | inl w ↦
                  rw (e, t, u, g, w)
                    (updated valid_url s (stopped s) id term last_index last_term false refl refl e
                      (low t) (λ yes. absurd (false≢true yes)))
              | inr w ↦
                  rw (e, t, u, g, w)
                    (refused s (done s (vote_reply s.current_term false ∷ [])) id term last_index
                      last_term refl)
            ]
          ]
        ]
      ]
    ]
  where
    stopped : Raft → Raft
    stopped s = refresh_election_timeout (record s { follow_leader_id = none })

    low : ltb term s.current_term ≡ false → s.current_term ≤ term
    low t = ground arith

    false≢true : false ≡ true → ⊥
    false≢true e = cc
