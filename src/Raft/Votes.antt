-- ===== src/Raft/Votes.antt =====
-- The vote: `requestVoteHandler` of lib/server/raft_router.js.
use node_zmq_raft.Prelude.{
  ℕ, ◌≤◌, ◌<◌, ◌≡◌, refl, sym, ◌∙◌, Bool, true, false, ◌&&◌, ◌||◌, [], ◌∷◌, Option, none, some,
  String, arith, ltb, if◌then◌else◌, Bool-cases, inl, inr, ◌⊎◌, eq_iff,
}
use node_zmq_raft.Prelude.JsMap
use node_zmq_raft.Prelude.JsMap.{JsMap, same}
use node_zmq_raft.Raft.{
  Raft, done, vote_reply, update_state, follower, refresh_election_timeout, same_vote,
}
use node_zmq_raft.Raft.Router.{up_to_date, is_none, is_waiting, may_grant, request_vote_handler}
use node_zmq_raft.Raft.State.{stored, update_state-Settled}
use node_zmq_raft.Raft.Events.{
  IsSafe, quiet-IsSafe, Settled-IsSafe, from_alike-IsSafe, and_then-IsSafe,
}

free :
    (voted_for : Option String) (id : String) (newer current : Bool) (t u : ℕ)
    → newer ≡ ltb t u
    → ((is_none voted_for || (same_vote voted_for (some id) || newer)) && current) ≡ true
    → (current ≡ true) × ((voted_for ≡ none) ⊎ ((voted_for ≡ some id) ⊎ (t < u)))
free none id newer current t u e h = (h, inl refl)
free (some other) id newer current t u e h = ground (arith, eq_iff other id)

-- A vote is free for a candidate when none was given, or to this candidate, or the term is new.
pub free_vote :
    (s : Raft) (id : String) (term last_index last_term : ℕ)
    → may_grant s id term last_index last_term ≡ true
    → (up_to_date s.log last_index last_term ≡ true)
      × ((s.voted_for ≡ none) ⊎ ((s.voted_for ≡ some id) ⊎ (s.current_term < term)))
unfolding may_grant
free_vote s id term last_index last_term h =
    free s.voted_for id (ltb s.current_term term) (up_to_date s.log last_index last_term)
      s.current_term term refl h

vote_kept :
    (s : Raft) (id : String) (term last_index last_term : ℕ)
    → ltb term s.current_term ≡ false
    → (may_grant s id term last_index last_term || ltb s.current_term term) ≡ true
    → term ≡ s.current_term
    → (other : String) → s.voted_for ≡ some other
    → (if may_grant s id term last_index last_term then some id else none) ≡ some other
vote_kept s id term last_index last_term low h e other v =
    elim (Bool-cases (may_grant s id term last_index last_term)) [
      | inl g ↦ rw g (elim ((free_vote s id term last_index last_term g).1) [
        | inl n ↦ absurd (some≢none (sym v ∙ n))
        | inr w ↦ elim w [ inl same ↦ sym same ∙ v | inr newer ↦ absurd (omega arith) ]
      ])
      | inr g ↦ absurd (omega (arith, newer g))
    ]
  where
    newer : may_grant s id term last_index last_term ≡ false → s.current_term < term
    newer g = ground arith

    some≢none : some other ≡ none → ⊥
    some≢none q = cc

pub request_vote_handler-IsSafe :
    (valid_url : String → Bool) (s : Raft) (id : String) (term last_index last_term : ℕ)
    → IsSafe s (request_vote_handler valid_url s id term last_index last_term)
unfolding request_vote_handler refresh_election_timeout stored
request_vote_handler-IsSafe valid_url s id term last_index last_term =
    elim (Bool-cases (JsMap.has s.cluster.peers id)) [
      | inr e ↦ rw e (quiet-IsSafe s s [] refl refl (omega arith) refl)
      | inl e ↦ elim (Bool-cases (ltb term s.current_term)) [
        | inl t ↦
            rw (e, t)
              (quiet-IsSafe s s (vote_reply s.current_term false ∷ []) refl refl (omega arith) refl)
        | inr t ↦ elim (Bool-cases (is_waiting s)) [
          | inl u ↦
              rw (e, t, u)
                (quiet-IsSafe s s (vote_reply s.current_term false ∷ []) refl refl (omega arith)
                  refl)
          | inr u ↦
              elim (Bool-cases
                (may_grant s id term last_index last_term || ltb s.current_term term)) [
                  | inr w ↦
                      rw (e, t, u, w)
                        (quiet-IsSafe s s
                          (vote_reply s.current_term (may_grant s id term last_index last_term)
                            ∷ [])
                          refl refl (omega arith) refl)
                  | inl w ↦
                      rw (e, t, u, w)
                        (and_then-IsSafe s
                          (update_state valid_url
                            (refresh_election_timeout (record s { follow_leader_id = none }))
                            follower term
                            (if may_grant s id term last_index last_term then some id else none)
                            none)
                          (λ s'.
                            done s'
                              (vote_reply term (may_grant s id term last_index last_term) ∷ []))
                          (from_alike-IsSafe s
                            (refresh_election_timeout (record s { follow_leader_id = none })) _ refl
                            refl (omega arith)
                            (Settled-IsSafe
                              (refresh_election_timeout (record s { follow_leader_id = none })) term
                              _ _
                              (update_state-Settled valid_url
                                (refresh_election_timeout (record s { follow_leader_id = none }))
                                follower term _ none)
                              (omega (arith, low t))
                              (vote_kept s id term last_index last_term t w)))
                          (λ s'. quiet-IsSafe s' s' _ refl refl (omega arith) refl))
                ]
        ]
      ]
    ]
  where
    low : ltb term s.current_term ≡ false → s.current_term ≤ term
    low t = ground arith
