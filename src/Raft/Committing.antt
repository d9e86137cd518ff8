-- ===== src/Raft/Committing.antt =====
-- When a leader commits: `onAppendEntriesResponse` of lib/server/raft_leader.js.
use node_zmq_raft.Prelude.{
  ℕ, ◌+◌, ◌<◌, ◌≡◌, refl, Bool, true, false, not, ◌&&◌, List, Option, String, arith, ltb, ◌==◌,
  Bool-cases, inl, inr, ◌⊎◌,
}
use node_zmq_raft.Prelude.JsMap
use node_zmq_raft.Prelude.JsMap.{JsMap}
use node_zmq_raft.Cluster.{Peer, majority_has_log_index}
use node_zmq_raft.FileLog.{Log, Entry}
use node_zmq_raft.Raft.{Raft, Fsm, client, candidate, leader, after, is_leader, follower}
use node_zmq_raft.Raft.Leader.{next_after_conflict, on_append_entries_response}
use node_zmq_raft.Raft.CommitTo.{
  CommitsTo, update_follower-commit, become_follower-commit, commit-CommitsTo,
}

is_leader_eq : (state : Fsm) → is_leader state ≡ true → state ≡ leader
is_leader_eq client h = absurd cc
is_leader_eq follower h = absurd cc
is_leader_eq candidate h = absurd cc
is_leader_eq leader h = refl

-- What a change of the commit index needs: the peer leads, in the term in which the entries were sent,
-- the last of them is of that term and behind the commit index, and with this reply a majority of
-- each cluster stores it. The new commit index is that entry's, unless the change leaves the peer alone
-- in its cluster.
unfoldable pub MayCommit : Raft → Raft → ℕ → String → ℕ → ℕ → Bool → Type 0
MayCommit s s' sent id last last_term success =
    (s.state ≡ leader)
    × (s.current_term ≡ sent)
    × (success ≡ true)
    × (last_term ≡ s.current_term)
    × (s.commit_index < last)
    × (majority_has_log_index s.cluster last (JsMap.set s.match_index id last) ≡ true)
    × CommitsTo last s'

module _ (valid_url expired : String → Bool) (fits : Log → ℕ → Bool → List Entry)
    (encode : List Peer → List ℕ) (key : String) where
  -- A reply to an AppendEntries request changes the commit index only at a leader, in the term in which the
  -- entries were sent, when the last of them is of that term and behind the commit index and, with this
  -- reply, a majority of each cluster stores it. The commit index becomes that of this entry; only where
  -- the peer is then the one member of its cluster may it be the last index of its log, in its own term.
  pub on_append_entries_response-MayCommit :
      (s : Raft) (sent : ℕ) (id : String) (prev last last_term term : ℕ) (success : Bool)
      (conflict : Option ℕ)
      → ((after (
            on_append_entries_response valid_url expired fits encode key s sent id prev last
              last_term term success conflict)).commit_index
          ≡ s.commit_index)
        ⊎ MayCommit s
            (after (
              on_append_entries_response valid_url expired fits encode key s sent id prev last
                last_term term success conflict))
            sent
            id
            last
            last_term
            success
  unfolding on_append_entries_response MayCommit
  on_append_entries_response-MayCommit s sent id prev last last_term term true conflict =
      elim (Bool-cases (ltb s.current_term term)) [
        | inl e ↦ rw e (inl (become_follower-commit valid_url s term))
        | inr e ↦ elim (Bool-cases (not ((s.current_term == sent) && is_leader s.state))) [
          | inl t ↦ rw (e, t) (inl refl)
          | inr t ↦
              elim (Bool-cases (
                (last_term == sent)
                && (ltb s.commit_index last
                    && majority_has_log_index s.cluster last (JsMap.set s.match_index id last)))) [
                      | inr c ↦
                          rw (e, t, c) (inl (update_follower-commit fits _ id (last + 1) true))
                      | inl c ↦
                          rw (e, t, c)
                            (inr (
                              is_leader_eq s.state (leads t),
                              same_term t,
                              refl,
                              of_term t c,
                              behind c,
                              counted c,
                              commit-CommitsTo valid_url expired fits encode key matched id term
                                  last (last + 1),
                            ))
                    ]
        ]
      ]
    where
      matched : Raft
      matched = record s {
        match_index = JsMap.set s.match_index id last;
        match_term = JsMap.set s.match_term id last_term;
        next_index = JsMap.set s.next_index id (last + 1);
      }

      leads : not ((s.current_term == sent) && is_leader s.state) ≡ false → is_leader s.state ≡ true
      leads t = ground arith

      same_term :
          not ((s.current_term == sent) && is_leader s.state) ≡ false → s.current_term ≡ sent
      same_term t = ground arith

      of_term :
          not ((s.current_term == sent) && is_leader s.state) ≡ false
          → ((last_term == sent)
              && (ltb s.commit_index last
                  && majority_has_log_index s.cluster last (JsMap.set s.match_index id last)))
            ≡ true
          → last_term ≡ s.current_term
      of_term t c = ground arith

      behind :
          ((last_term == sent)
              && (ltb s.commit_index last
                  && majority_has_log_index s.cluster last (JsMap.set s.match_index id last)))
            ≡ true
          → s.commit_index < last
      behind c = ground arith

      counted :
          ((last_term == sent)
              && (ltb s.commit_index last
                  && majority_has_log_index s.cluster last (JsMap.set s.match_index id last)))
            ≡ true
          → majority_has_log_index s.cluster last (JsMap.set s.match_index id last) ≡ true
      counted c = ground arith
  on_append_entries_response-MayCommit s sent id prev last last_term term false conflict =
      elim (Bool-cases (ltb s.current_term term)) [
        | inl e ↦ rw e (inl (become_follower-commit valid_url s term))
        | inr e ↦ elim (Bool-cases (not ((s.current_term == sent) && is_leader s.state))) [
          | inl t ↦ rw (e, t) (inl refl)
          | inr t ↦
              rw (e, t)
                (inl (
                  update_follower-commit fits _ id (next_after_conflict s.log prev conflict) false))
        ]
      ]
