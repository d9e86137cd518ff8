-- ===== src/Raft/Granting.antt =====
-- When `requestVoteHandler` of lib/server/raft_router.js grants its vote.
use node_zmq_raft.Prelude.{
  ℕ, ◌≤◌, ◌<◌, ◌≡◌, refl, ap, sym, ◌∙◌, Bool, true, false, not, ◌&&◌, none, some, String, arith,
  ltb, Bool-cases, inl, inr, ◌⊎◌, eq_iff,
}
use node_zmq_raft.Prelude.JsMap
use node_zmq_raft.Prelude.JsMap.{JsMap}
use node_zmq_raft.Raft.{
  Raft, Fsm, client, follower, candidate, leader, after, effects, same_vote, is_candidate,
}
use node_zmq_raft.Cluster.{majority_has_voted}
use node_zmq_raft.FileLog.{Log}
use node_zmq_raft.Raft.Router.{up_to_date, is_waiting, may_grant, request_vote_handler}
use node_zmq_raft.Raft.State.{stored}
use node_zmq_raft.Raft.Answering.{false≢true, grants, Granted, Answer, answers}

-- What a vote needs, of the state and of the candidate.
pub record IsVotable (s : Raft) (id : String) (term last_index last_term : ℕ) : Type 0 where
  pub known : JsMap.has s.cluster.peers id ≡ true
  pub in_term : s.current_term ≤ term
  -- With the prevention of spiral elections, a candidate waits for a majority to answer its election.
  pub answered :
      s.prevent_spiral_elections ≡ true → s.state ≡ candidate → majority_has_voted s.cluster ≡ true
  pub vote_free : (s.voted_for ≡ none) ⊎ ((s.voted_for ≡ some id) ⊎ (s.current_term < term))
  pub log_current :
      (s.log.last_term < last_term)
      ⊎ ((last_term ≡ s.log.last_term) × (s.log.last_index ≤ last_index))

is_candidate-eq : (state : Fsm) → is_candidate state ≡ true → state ≡ candidate
is_candidate-eq client h = absurd (false≢true h)
is_candidate-eq follower h = absurd (false≢true h)
is_candidate-eq candidate h = refl
is_candidate-eq leader h = absurd (false≢true h)

is_waiting-answered :
    (s : Raft)
    → (s.prevent_spiral_elections ≡ true
        → s.state ≡ candidate
        → majority_has_voted s.cluster ≡ true)
    → is_waiting s ≡ false
unfolding is_waiting
is_waiting-answered s h = elim (Bool-cases s.prevent_spiral_elections) [
  | inr e ↦ ground (arith, e)
  | inl e ↦ elim (Bool-cases (is_candidate s.state)) [
    | inr f ↦ ground (arith, f)
    | inl f ↦ ground (arith, h e (is_candidate-eq s.state f))
  ]
]

answered-is_waiting :
    (s : Raft)
    → is_waiting s ≡ false
    → s.prevent_spiral_elections ≡ true
    → s.state ≡ candidate
    → majority_has_voted s.cluster ≡ true
unfolding is_waiting
answered-is_waiting s w p c = ground (arith, w, p, ap is_candidate c)

same_vote_self : (id : String) → same_vote (some id) (some id) ≡ true
same_vote_self id = (eq_iff id id).1 refl

may_grant-free :
    (s : Raft) (id : String) (term last_index last_term : ℕ)
    → (s.voted_for ≡ none) ⊎ ((s.voted_for ≡ some id) ⊎ (s.current_term < term))
    → up_to_date s.log last_index last_term ≡ true
    → may_grant s id term last_index last_term ≡ true
unfolding may_grant
may_grant-free s id term last_index last_term (inl v) u = rw (v, u) refl
may_grant-free s id term last_index last_term (inr (inl v)) u = rw (v, u, same_vote_self id) refl
may_grant-free s id term last_index last_term (inr (inr l)) u = ground (arith, u)

up_to_date-current :
    (log : Log) (last_index last_term : ℕ)
    → (log.last_term < last_term) ⊎ ((last_term ≡ log.last_term) × (log.last_index ≤ last_index))
    → up_to_date log last_index last_term ≡ true
unfolding up_to_date
up_to_date-current log last_index last_term (inl h) = ground arith
up_to_date-current log last_index last_term (inr (e, h)) = ground (arith, e)

current-up_to_date :
    (log : Log) (last_index last_term : ℕ)
    → up_to_date log last_index last_term ≡ true
    → (log.last_term < last_term) ⊎ ((last_term ≡ log.last_term) × (log.last_index ≤ last_index))
unfolding up_to_date
current-up_to_date log last_index last_term h = elim (Bool-cases (ltb log.last_term last_term)) [
  | inl e ↦ inl (ground (arith, e))
  | inr e ↦ inr (ground (arith, e, h), ground (arith, e, h))
]

IsVotable-answers :
    (s : Raft) (id : String) (term last_index last_term : ℕ)
    → IsVotable s id term last_index last_term
    → (JsMap.has s.cluster.peers id
        && (not (ltb term s.current_term)
            && (not (is_waiting s) && may_grant s id term last_index last_term)))
      ≡ true
IsVotable-answers s id term last_index last_term v =
    rw
      (
        v.known,
        is_waiting-answered s v.answered,
        may_grant-free s id term last_index last_term v.vote_free
            (up_to_date-current s.log last_index last_term v.log_current),
      )
      (ground (arith, v.in_term))

-- A vote is granted exactly when the candidate is a known peer, its term is not lower, the peer does not
-- wait, as a candidate that prevents spiral elections, for a majority to answer, the peer has not voted,
-- or has voted for the candidate, or the term is new, and the candidate's log does not end in a lower
-- term, or in the same term at a lower index. The peer then votes for that candidate in that term, and
-- its store holds the vote.
pub request_vote_handler-Granted :
    (valid_url : String → Bool) (s : Raft) (id : String) (term last_index last_term : ℕ)
    → (IsVotable s id term last_index last_term
        → grants (effects (request_vote_handler valid_url s id term last_index last_term)) ≡ true)
      × (grants (effects (request_vote_handler valid_url s id term last_index last_term)) ≡ true
          → IsVotable s id term last_index last_term
            × ((after (request_vote_handler valid_url s id term last_index last_term)).voted_for
                ≡ some id)
            × ((after (request_vote_handler valid_url s id term last_index last_term)).current_term
                ≡ term)
            × (stored
                  (effects (request_vote_handler valid_url s id term last_index last_term))
                  (s.voted_for, s.current_term)
                ≡ (some id, term)))
unfolding Answer Granted
request_vote_handler-Granted valid_url s id term last_index last_term =
    let (same, granted) = answers valid_url s id term last_index last_term in
    (
      (λ v. same ∙ IsVotable-answers s id term last_index last_term v),
      (λ g.
          let yes = sym same ∙ g in
          let (known, low, free, current, vote, now, held) = granted yes in
          (
            record {
              known = known;
              in_term = low;
              answered = answered-is_waiting s (ground (arith, yes));
              vote_free = free;
              log_current = current-up_to_date s.log last_index last_term current;
            },
            vote,
            now,
            held,
          )),
    )
