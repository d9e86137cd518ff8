-- ===== src/Raft/Timer.antt =====
-- The election timer across the changes of state of lib/server/raft_leader.js.
use node_zmq_raft.Prelude.{
  ℕ, ◌≡◌, refl, Bool, true, false, not, ◌||◌, [], Option, none, String, ◌==◌, Bool-cases, inl, inr,
}
use node_zmq_raft.Cluster.{is_member}
use node_zmq_raft.Raft.{
  Raft, follower, after, update_state, configure, settle, leave, refresh_election_timeout,
  is_client, is_leader, is_candidate, same_vote, cancel_pending_rpcs,
}
use node_zmq_raft.Raft.Leader.{become_follower}

settle-follower :
    (prev s : Raft) (term : ℕ) (voted_for : Option String)
    → is_member s.cluster s.peer_id ≡ true
    → (((settle prev s follower term voted_for none).0).state ≡ follower)
      × (((settle prev s follower term voted_for none).0).election_timeout ≡ s.election_timeout)
unfolding settle
settle-follower prev s term voted_for member =
    elim (Bool-cases (not (prev.current_term == term) || not (same_vote s.voted_for voted_for))) [
      | inl t ↦ rw (t, member) (refl, refl)
      | inr t ↦ rw (t, member) (refl, refl)
    ]

update_state-follower :
    (valid_url : String → Bool) (s : Raft) (term : ℕ) (voted_for : Option String)
    → is_member s.cluster s.peer_id ≡ true
    → ((after (update_state valid_url s follower term voted_for none)).state ≡ follower)
      × ((after (update_state valid_url s follower term voted_for none)).election_timeout
          ≡ s.election_timeout)
unfolding update_state configure leave cancel_pending_rpcs
update_state-follower valid_url s term voted_for member =
    elim (Bool-cases (is_candidate s.state || is_leader s.state)) [
      | inl e ↦ rw e (
          settle-follower s
            (record s { heartbeats = []; update_requests = []; config_update_reply = false }) term
            voted_for member)
      | inr e ↦ rw e (settle-follower s s term voted_for member)
    ]

-- A peer of the cluster that becomes a follower has its election timer running exactly when it was a
-- follower or a candidate: a leader, or a client, that becomes one is left without it.
pub become_follower-timer :
    (valid_url : String → Bool) (s : Raft) (term : ℕ)
    → is_member s.cluster s.peer_id ≡ true
    → ((after (become_follower valid_url s term)).state ≡ follower)
      × ((after (become_follower valid_url s term)).election_timeout
          ≡ not (is_client s.state || is_leader s.state))
unfolding become_follower refresh_election_timeout
become_follower-timer valid_url s term member =
    update_state-follower valid_url
      (refresh_election_timeout (record s { follow_leader_id = none })) term none member
