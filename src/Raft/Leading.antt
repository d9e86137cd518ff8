-- ===== src/Raft/Leading.antt =====
-- Elections and leading, lib/server/raft_leader.js, keep the promises of the persistent state.
use node_zmq_raft.Prelude.{
  ℕ, ◌+◌, ◌≤◌, ◌<◌, ◌≡◌, refl, ◌∙◌, Bool, true, false, not, ◌&&◌, List, [], ◌∷◌, Option, none, some,
  String, arith, ltb, leb, ◌==◌, if◌then◌else◌, Bool-cases, inl, inr, Result, ok, err,
}
use node_zmq_raft.Prelude.JsMap
use node_zmq_raft.Prelude.JsMap.{JsMap}
use node_zmq_raft.Cluster.{voting_start, vote, has_won_voting, is_sole_master}
use node_zmq_raft.FileLog
use node_zmq_raft.FileLog.{Log, Entry, append_entry}
use node_zmq_raft.Raft.{
  Raft, done, thrown, prepend, Effect, follower, candidate, leader, refresh_election_timeout,
  is_candidate,
}
use node_zmq_raft.Raft.Router.{is_waiting}
use node_zmq_raft.Raft.Leader.{
  send_snapshot, ask_votes, send_heartbeats, set_all, checkpoint, send_entries, is_armed,
  update_follower, update_one, update_idle, update_followers_now, finish, become_follower, lead,
  become_leader, on_election_timeout, on_vote_response,
}
use node_zmq_raft.Raft.State.{stored, stored-append, update_state-Settled}
use node_zmq_raft.Raft.Events.{
  IsSafe, quiet-IsSafe, quiet_thrown-IsSafe, Settled-IsSafe, from_alike-IsSafe, and_then-IsSafe,
  prepend-IsSafe,
}

-- A change of the state with effects that store nothing, and with a commit index not lower.
unfoldable pub Quiet : Raft → Raft × List Effect → Type 0
Quiet s (s', es) =
    (s'.current_term ≡ s.current_term)
    × (s'.voted_for ≡ s.voted_for)
    × (s.commit_index ≤ s'.commit_index)
    × ((held : Option String × ℕ) → stored es held ≡ held)

pub finish-IsSafe : (s : Raft) (p : Raft × List Effect) → Quiet s p → IsSafe s (finish p)
unfolding Quiet
finish-IsSafe s (s', es) (t, v, c, w) = quiet-IsSafe s s' es t v c (w (s.voted_for, s.current_term))

stored-ask_votes :
    (rpcs : JsMap String) (term : ℕ) (log : Log) (held : Option String × ℕ)
    → stored (ask_votes rpcs term log) held ≡ held
unfolding stored ask_votes
stored-ask_votes [] term log held = refl
stored-ask_votes ((id, url) ∷ rpcs) term log held = stored-ask_votes rpcs term log held

stored-send_heartbeats :
    (rpcs : JsMap String) (term : ℕ) (log : Log) (commit : ℕ) (held : Option String × ℕ)
    → stored (send_heartbeats rpcs term log commit) held ≡ held
unfolding stored send_heartbeats
stored-send_heartbeats [] term log commit held = refl
stored-send_heartbeats ((id, url) ∷ rpcs) term log commit held =
    stored-send_heartbeats rpcs term log commit held

module _ (fits : Log → ℕ → Bool → List Entry) where
  stored-send_entries :
      (s : Raft) (id : String) (next : ℕ) (many : Bool) (held : Option String × ℕ)
      → stored (send_entries fits s id next many) held ≡ held
  unfolding send_entries send_snapshot stored
  stored-send_entries s id next many held = elim (Bool-cases (ltb next s.log.first_index)) [
    | inl e ↦ rw e refl
    | inr e ↦ rw e refl
  ]

  pub update_follower-Quiet :
      (s : Raft) (id : String) (next : ℕ) (success : Bool)
      → Quiet s (update_follower fits s id next success)
  unfolding update_follower Quiet stored
  update_follower-Quiet s id next success = elim (Bool-cases (leb next s.log.last_index)) [
    | inl e ↦ rw e (refl, refl, omega arith, λ held. stored-send_entries s id next success held)
    | inr e ↦ rw e (elim (Bool-cases (is_armed (JsMap.get s.heartbeats id))) [
      | inl t ↦ rw t (refl, refl, omega arith, λ held. refl)
      | inr t ↦ rw t (refl, refl, omega arith, λ held. refl)
    ])
  ]

  update_one-Quiet :
      (s : Raft) (id : String) (next : Option ℕ) → Quiet s (update_one fits s id next)
  unfolding update_one Quiet stored
  update_one-Quiet s id none = (refl, refl, omega arith, λ held. refl)
  update_one-Quiet s id (some next) = update_follower-Quiet s id next true

  update_idle-Quiet : (beats : JsMap Bool) (s : Raft) → Quiet s (update_idle fits s beats)
  unfolding update_idle Quiet stored
  update_idle-Quiet [] s = (refl, refl, omega arith, λ held. refl)
  update_idle-Quiet ((id, armed) ∷ beats) s =
      let (t, v, c, w) = update_one-Quiet s id (JsMap.get s.next_index id) in
      let first = update_one fits s id (JsMap.get s.next_index id) in
      let (t', v', c', w') = update_idle-Quiet beats first.0 in
      (
        t' ∙ t,
        v' ∙ v,
        omega arith,
        λ held.
            stored-append first.1 (update_idle fits first.0 beats).1 held
            ∙ w' (stored first.1 held)
            ∙ w held,
      )

  pub update_followers_now-Quiet : (s : Raft) → Quiet s (update_followers_now fits s)
  unfolding update_followers_now Quiet stored
  update_followers_now-Quiet s = elim (Bool-cases (is_sole_master s.cluster)) [
    | inr e ↦ rw e (update_idle-Quiet s.heartbeats s)
    | inl e ↦
        elim (Bool-cases
          (ltb s.commit_index s.log.last_index && (s.log.last_term == s.current_term))) [
            | inl t ↦ rw (e, t) (refl, refl, higher t, λ held. refl)
            | inr t ↦ rw (e, t) (refl, refl, omega arith, λ held. refl)
          ]
  ]
    where
      higher :
          (ltb s.commit_index s.log.last_index && (s.log.last_term == s.current_term)) ≡ true
          → s.commit_index ≤ s.log.last_index
      higher t = ground arith

pub become_follower-IsSafe :
    (valid_url : String → Bool) (s : Raft) (term : ℕ)
    → s.current_term < term
    → IsSafe s (become_follower valid_url s term)
unfolding become_follower refresh_election_timeout
become_follower-IsSafe valid_url s term up =
    from_alike-IsSafe s (stopped s) _ refl refl (omega arith) (
      Settled-IsSafe (stopped s) term _ _
        (update_state-Settled valid_url (stopped s) follower term none none) (omega arith)
        (λ e id v. absurd (omega arith)))
  where
    stopped : Raft → Raft
    stopped s = refresh_election_timeout (record s { follow_leader_id = none })

module _ (valid_url expired : String → Bool) (fits : Log → ℕ → Bool → List Entry)
    (checkpoint_data : List ℕ) where
  lead-IsSafe : (s : Raft) → IsSafe s (lead valid_url expired fits checkpoint_data s)
  unfolding lead
  lead-IsSafe s =
      elim (Bool-cases
        (not (s.log.last_term == s.current_term) && ltb s.commit_index s.log.last_index)) [
          | inl e ↦
              rw e (go (append_entry expired s.log (checkpoint checkpoint_data s.current_term)))
          | inr e ↦ elim (Bool-cases (is_sole_master s.cluster)) [
            | inl t ↦
                rw (e, t)
                  (prepend-IsSafe s (started s) _ _ (sending s)
                    (finish-IsSafe (started s) _ (update_followers_now-Quiet fits (started s))))
            | inr t ↦ rw (e, t) (sending s)
          ]
        ]
    where
      started : Raft → Raft
      started s = record s {
        next_index = set_all s.rpcs s.next_index (s.log.last_index + 1);
        match_index = set_all s.rpcs s.match_index 0;
        match_term = set_all s.rpcs s.match_term 0;
      }

      sending :
          (s : Raft)
          → IsSafe s (done (started s) (send_heartbeats s.rpcs s.current_term s.log s.commit_index))
      sending s = quiet-IsSafe s (started s) _ refl refl (omega arith) (
          stored-send_heartbeats s.rpcs s.current_term s.log s.commit_index
            (s.voted_for, s.current_term))

      go :
          (r : Result FileLog.Error (Log × ℕ))
          → IsSafe s (elim r [
            | err e ↦
                thrown (started s) (send_heartbeats s.rpcs s.current_term s.log s.commit_index)
            | ok (log, index) ↦
                prepend
                  (send_heartbeats s.rpcs s.current_term s.log s.commit_index)
                  (finish (update_followers_now fits (record (started s) { log = log })))
          ])
      go (err e) = quiet_thrown-IsSafe s (started s) _ refl refl (omega arith) (
          stored-send_heartbeats s.rpcs s.current_term s.log s.commit_index
            (s.voted_for, s.current_term))
      go (ok (log, index)) = prepend-IsSafe s (started s) _ _ (sending s) (
          from_alike-IsSafe (started s) (record (started s) { log = log }) _ refl refl (omega arith)
            (finish-IsSafe (record (started s) { log = log }) _
              (update_followers_now-Quiet fits (record (started s) { log = log }))))

  pub become_leader-IsSafe :
      (s : Raft) → IsSafe s (become_leader valid_url expired fits checkpoint_data s)
  unfolding become_leader
  become_leader-IsSafe s = from_alike-IsSafe s (calm s) _ refl refl (omega arith) (
      and_then-IsSafe (calm s) _ _
        (Settled-IsSafe (calm s) s.current_term _ _
          (update_state-Settled valid_url (calm s) leader s.current_term s.voted_for none)
          (omega arith) (λ e id v. v))
        (λ s'. lead-IsSafe s'))
    where
      calm : Raft → Raft
      calm s = record s { election_timeout = false; follow_leader_id = none }

  -- An election timeout keeps the promises of the persistent state.
  pub on_election_timeout-IsSafe :
      (s : Raft) → IsSafe s (on_election_timeout valid_url expired fits checkpoint_data s)
  unfolding on_election_timeout refresh_election_timeout stored
  on_election_timeout-IsSafe s = elim (Bool-cases (is_waiting s)) [
    | inl e ↦ rw e (quiet-IsSafe s (refresh_election_timeout s) [] refl refl (omega arith) refl)
    | inr e ↦ rw e (
        from_alike-IsSafe s (held s) _ refl refl (omega arith) (
          and_then-IsSafe (held s) _ _
            (Settled-IsSafe (held s) (s.current_term + 1) _ _
              (update_state-Settled valid_url (held s) candidate (s.current_term + 1)
                (some s.peer_id) none)
              (omega arith) (λ e id v. absurd (omega arith)))
            (λ s'. go s')))
  ]
    where
      held : Raft → Raft
      held s = record s {
        paused = true;
        follow_leader_id = none;
        cluster = vote (voting_start s.cluster) s.peer_id true;
      }

      go :
          (s' : Raft)
          → IsSafe s' (
              if is_sole_master s'.cluster
              then become_leader valid_url expired fits checkpoint_data
                  (record s' { paused = false })
              else done
                  (record (refresh_election_timeout s') { paused = false })
                  (ask_votes s'.rpcs s'.current_term s'.log))
      go s' = elim (Bool-cases (is_sole_master s'.cluster)) [
        | inl t ↦ rw t (
            from_alike-IsSafe s' (record s' { paused = false }) _ refl refl (omega arith)
              (become_leader-IsSafe (record s' { paused = false })))
        | inr t ↦ rw t (
            quiet-IsSafe s' _ _ refl refl (omega arith)
              (stored-ask_votes s'.rpcs s'.current_term s'.log (s'.voted_for, s'.current_term)))
      ]

  -- The reply to a vote request keeps the promises of the persistent state.
  pub on_vote_response-IsSafe :
      (s : Raft) (sent : ℕ) (peer : String) (term : ℕ) (granted : Bool)
      → IsSafe s (on_vote_response valid_url expired fits checkpoint_data s sent peer term granted)
  unfolding on_vote_response stored
  on_vote_response-IsSafe s sent peer term granted = elim (Bool-cases (ltb s.current_term term)) [
    | inl e ↦ elim (Bool-cases (is_waiting (record s { cluster = vote s.cluster peer false }))) [
      | inl t ↦ rw (e, t) (quiet-IsSafe s _ [] refl refl (omega arith) refl)
      | inr t ↦
          rw (e, t)
            (from_alike-IsSafe s (record s { cluster = vote s.cluster peer false }) _ refl refl
              (omega arith)
              (become_follower-IsSafe valid_url (record s { cluster = vote s.cluster peer false })
                term (higher e)))
    ]
    | inr e ↦ elim (Bool-cases ((s.current_term == sent) && is_candidate s.state)) [
      | inr t ↦ rw (e, t) (quiet-IsSafe s s [] refl refl (omega arith) refl)
      | inl t ↦ elim (Bool-cases (has_won_voting (vote s.cluster peer granted))) [
        | inl u ↦
            rw (e, t, u)
              (from_alike-IsSafe s (record s { cluster = vote s.cluster peer granted }) _ refl refl
                (omega arith)
                (become_leader-IsSafe (record s { cluster = vote s.cluster peer granted })))
        | inr u ↦ rw (e, t, u) (quiet-IsSafe s _ [] refl refl (omega arith) refl)
      ]
    ]
  ]
    where
      higher : ltb s.current_term term ≡ true → s.current_term < term
      higher e = ground arith
