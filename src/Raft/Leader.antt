-- ===== src/Raft/Leader.antt =====
-- lib/server/raft_leader.js: elections, and how a leader follows the replies of its followers.
use node_zmq_raft.Prelude.{
  min, ℕ, ◌+◌, ◌-◌, Bool, true, false, not, ◌&&◌, List, [], ◌∷◌, ◌++◌, Option, none, some, String,
  ltb, leb, ◌==◌, if◌then◌else◌, ok, err,
}
use node_zmq_raft.Prelude.JsMap
use node_zmq_raft.Prelude.JsMap.{JsMap, same}
use node_zmq_raft.Cluster.{
  serialize_nc, plain, Peer, voting_start, vote, has_won_voting, is_sole_master, is_member,
  is_transitional, majority_has_log_index,
}
use node_zmq_raft.FileLog.{Log, Entry, Snapshot, term_at, is_term, append_entry}
use node_zmq_raft.Raft.{
  Raft, follower, candidate, leader, Outcome, done, thrown, and_then, prepend, Effect,
  send_request_vote, send_append_entries, send_install_snapshot, apply_to_state_machine,
  persist_config, persist_index, config_reply, ConfigUpdate, update_config, update_state,
  refresh_election_timeout, is_candidate, is_leader,
}
use node_zmq_raft.Raft.Router.{is_waiting}

-- `for(let [peerId, rpc] of this._rpcs) rpc.requestVote(payload)`
unfoldable pub ask_votes : JsMap String → ℕ → Log → List Effect
ask_votes [] term log = []
ask_votes ((id, url) ∷ rpcs) term log =
    send_request_vote id term log.last_index log.last_term ∷ ask_votes rpcs term log

-- The first, empty AppendEntries to each peer.
unfoldable pub send_heartbeats : JsMap String → ℕ → Log → ℕ → List Effect
send_heartbeats [] term log commit = []
send_heartbeats ((id, url) ∷ rpcs) term log commit =
    send_append_entries id term log.last_index (some log.last_term) commit []
    ∷ send_heartbeats rpcs term log commit

-- `map.set(followerId, value)` for each peer that has a channel
unfoldable pub set_all : JsMap String → JsMap ℕ → ℕ → JsMap ℕ
set_all [] m value = m
set_all ((id, url) ∷ rpcs) m value = set_all rpcs (JsMap.set m id value) value

-- The entry of `appendCheckpoint`; `data` is its text.
unfoldable pub checkpoint : List ℕ → ℕ → Entry
checkpoint bytes term = record { key = none; type = 2; term = term; bytes = bytes }

-- How many bytes of the snapshot go from a position on, which is not behind the last.
unfoldable pub chunk_size : Raft → Snapshot → ℕ → ℕ
chunk_size s snapshot position = min (snapshot.data_size - position) s.peer_msg_data_size

-- `sendInstallSnapshot`: a snapshot that was closed meanwhile starts again as the log's.
unfoldable pub send_snapshot : Raft → String → Snapshot → Bool → ℕ → List Effect
unfolding chunk_size
send_snapshot s follower_id snapshot closed position =
    let sent = if closed then s.log.snapshot else snapshot in
    let from = if closed then 0 else min position snapshot.data_size in
    send_install_snapshot follower_id s.current_term sent from (chunk_size s sent from) ∷ []

-- `timeout != null`
abbrev pub is_armed : Option Bool → Bool
is_armed none = false
is_armed (some armed) = armed

-- `readEntries` and `getEntry`, with how many entries fit in the follower's buffer as a parameter.
module _ (fits : Log → ℕ → Bool → List Entry) where
  -- `sendAppendEntries`
  unfoldable pub send_entries : Raft → String → ℕ → Bool → List Effect
  unfolding send_snapshot
  send_entries s follower_id next many =
      if ltb next s.log.first_index
      then send_snapshot s follower_id s.log.snapshot false 0
      else (let prev = next - 1 in
          let prev_term =
            (if is_term (JsMap.get s.match_index follower_id) prev
              then JsMap.get s.match_term follower_id
              else term_at s.log prev) in
          send_append_entries follower_id s.current_term prev prev_term s.commit_index
            (if ltb prev s.log.last_index then fits s.log next many else [])
          ∷ [])

  -- `updateFollower`
  unfoldable pub update_follower : Raft → String → ℕ → Bool → Raft × List Effect
  unfolding send_entries
  update_follower s follower_id next prev_success =
      if leb next s.log.last_index
      then (
        record s { heartbeats = JsMap.delete s.heartbeats follower_id },
        send_entries s follower_id next prev_success,
      )
      else if is_armed (JsMap.get s.heartbeats follower_id)
      then (s, [])
      else (record s { heartbeats = JsMap.set s.heartbeats follower_id true }, [])

  -- The timer of an idle follower.
  unfoldable pub on_heartbeat : Raft → String → ℕ → Bool → Outcome
  unfolding send_entries
  on_heartbeat s follower_id next prev_success =
      done (record s { heartbeats = JsMap.delete s.heartbeats follower_id })
        (send_entries s follower_id next prev_success)

  unfoldable pub update_one : Raft → String → Option ℕ → Raft × List Effect
  unfolding update_follower
  update_one s id none = (s, [])
  update_one s id (some next) = update_follower s id next true

  -- `updateFollower` for each peer with a heartbeat; while leading, each has a next index.
  unfoldable pub update_idle : Raft → JsMap Bool → Raft × List Effect
  unfolding update_one
  update_idle s [] = (s, [])
  update_idle s ((id, armed) ∷ beats) =
      let (s1, first) = update_one s id (JsMap.get s.next_index id) in
      let (s2, rest) = update_idle s1 beats in (s2, first ++ rest)

  -- `_updateFollowersNow`
  unfoldable pub update_followers_now : Raft → Raft × List Effect
  unfolding update_idle
  update_followers_now s =
      if is_sole_master s.cluster
      then (if ltb s.commit_index s.log.last_index && (s.log.last_term == s.current_term)
          then (
            record s { commit_index = s.log.last_index },
            apply_to_state_machine s.log.last_index ∷ [],
          )
          else (s, []))
      else update_idle s s.heartbeats

abbrev pub finish : Raft × List Effect → Outcome
finish (s, es) = done s es

module _ (valid_url : String → Bool) where
  unfoldable pub become_follower : Raft → ℕ → Outcome
  become_follower s term =
      update_state valid_url (refresh_election_timeout (record s { follow_leader_id = none }))
        follower term none none

module _ (valid_url expired : String → Bool) (fits : Log → ℕ → Bool → List Entry)
    (checkpoint_data : List ℕ) where
  -- `becomeLeader` behind `_updateState`, which leaves the log as it was.
  unfoldable pub lead : Raft → Outcome
  unfolding set_all send_heartbeats checkpoint
  lead s =
      let last = s.log.last_index in
      let s1 = record s {
        next_index = set_all s.rpcs s.next_index (last + 1);
        match_index = set_all s.rpcs s.match_index 0;
        match_term = set_all s.rpcs s.match_term 0;
      } in
      let sent = send_heartbeats s.rpcs s.current_term s.log s.commit_index in
      if not (s.log.last_term == s.current_term) && ltb s.commit_index last
      then elim (append_entry expired s1.log (checkpoint checkpoint_data s.current_term)) [
        | err e ↦ thrown s1 sent
        | ok (log, index) ↦
            prepend sent (finish (update_followers_now fits (record s1 { log = log })))
      ]
      else if is_sole_master s1.cluster
      then prepend sent (finish (update_followers_now fits s1))
      else done s1 sent

  unfoldable pub become_leader : Raft → Outcome
  unfolding lead
  become_leader s =
      and_then
        (update_state valid_url (record s { election_timeout = false; follow_leader_id = none })
          leader s.current_term s.voted_for none)
        lead

  unfoldable pub on_election_timeout : Raft → Outcome
  unfolding become_leader ask_votes
  on_election_timeout s =
      if is_waiting s
      then done (refresh_election_timeout s) []
      else (let cluster = vote (voting_start s.cluster) s.peer_id true in
          let held = record s { paused = true; follow_leader_id = none; cluster = cluster } in
          and_then
            (update_state valid_url held candidate (s.current_term + 1) (some s.peer_id) none)
            (λ s'.
              if is_sole_master s'.cluster
              then become_leader (record s' { paused = false })
              else done (record (refresh_election_timeout s') { paused = false })
                  (ask_votes s'.rpcs s'.current_term s'.log)))

  -- `onVoteResponse`: `sent` is the term of the request.
  unfoldable pub on_vote_response : Raft → ℕ → String → ℕ → Bool → Outcome
  unfolding become_leader become_follower
  on_vote_response s sent peer term granted =
      if ltb s.current_term term
      then (let s' = record s { cluster = vote s.cluster peer false } in
          if is_waiting s' then done s' [] else become_follower valid_url s' term)
      else if (s.current_term == sent) && is_candidate s.state
      then (let s' = record s { cluster = vote s.cluster peer granted } in
          if has_won_voting s'.cluster then become_leader s' else done s' [])
      else done s []

-- `conflictTermIndex !== undefined && conflictTermIndex < followerNextIndex`
unfoldable pub next_after_conflict : Log → ℕ → Option ℕ → ℕ
next_after_conflict log sent_prev none = sent_prev
next_after_conflict log sent_prev (some conflict) =
    if ltb conflict sent_prev
    then (if ltb conflict log.first_index then log.first_index - 1 else conflict)
    else sent_prev

-- The new entry goes to the follower that replied, if it stays a peer, and to the idle ones, and the
-- client that asked for the change has its reply.
unfoldable pub replicate_new :
    (Log → ℕ → Bool → List Entry) → Raft → List Effect → String → ℕ → ℕ → Outcome
unfolding update_follower update_followers_now
replicate_new fits s before follower_id next index =
    let (s1, to_follower) =
      (if is_member s.cluster follower_id
        then update_follower fits s follower_id next true
        else (s, [])) in
    let (s2, to_idle) = update_followers_now fits s1 in
    done (record s2 { config_update_reply = false })
      (before
        ++ persist_index index
          ∷ (to_follower
              ++ to_idle
              ++ (if s2.config_update_reply then config_reply 1 ∷ [] else [])))

-- `encode` is MessagePack's encoder, `key` the request key generated for the entry.
module _ (valid_url expired : String → Bool) (fits : Log → ℕ → Bool → List Entry)
    (encode : List Peer → List ℕ) (key : String) where
  -- The entry of the new cluster alone, once the transitional one is committed.
  unfoldable pub append_new_cluster : Raft → String → ℕ → ℕ → Outcome
  unfolding update_config serialize_nc append_entry replicate_new
  append_new_cluster s follower_id next transitional_index =
      let peers = serialize_nc s.cluster in
      let update : ConfigUpdate = record {
        config = plain peers;
        update_request = some key;
        index = none;
      } in
      let held = record s { paused = true } in
      elim (update_config valid_url held update) [
        | err e ↦ thrown held []
        | ok (s1, configured) ↦
            let before = configured ++ persist_config update ∷ [] in
            elim (append_entry expired s1.log
              (record { key = some key; type = 1; term = s1.current_term; bytes = encode peers })) [
                | err e ↦ thrown s1 before
                | ok (log, index) ↦
                    replicate_new fits
                      (record s1 { log = log; peers_index = some index; paused = false }) before
                      follower_id next index
              ]
      ]

  -- What a leader does once an entry of its term is stored by a majority.
  unfoldable pub commit : Raft → String → ℕ → ℕ → ℕ → Outcome
  unfolding append_new_cluster become_follower update_follower
  commit s follower_id term index next =
      let s' = record s { commit_index = index } in
      let apply = (if ltb s.last_applied index then apply_to_state_machine index ∷ [] else []) in
      if not (is_member s'.cluster s'.peer_id)
      then prepend apply (become_follower valid_url s' term)
      else elim (if is_transitional s'.cluster then s'.peers_index else none) [
        | none ↦ prepend apply (finish (update_follower fits s' follower_id next true))
        | some i ↦
            if leb i index
            then prepend apply (append_new_cluster s' follower_id next i)
            else prepend apply (finish (update_follower fits s' follower_id next true))
      ]

  -- `onAppendEntriesResponse`: `sent` is the term of the request, `prev` its previous index, `last` and
  -- `last_term` the index and term of the last entry it held, or of the previous one.
  unfoldable pub on_append_entries_response :
      Raft → ℕ → String → ℕ → ℕ → ℕ → ℕ → Bool → Option ℕ → Outcome
  unfolding commit become_follower update_follower next_after_conflict majority_has_log_index
  on_append_entries_response s sent follower_id prev last last_term term success conflict =
      if ltb s.current_term term
      then become_follower valid_url s term
      else if not ((s.current_term == sent) && is_leader s.state)
      then done s []
      else if success
      then (let s' = record s {
        match_index = JsMap.set s.match_index follower_id last;
        match_term = JsMap.set s.match_term follower_id last_term;
        next_index = JsMap.set s.next_index follower_id (last + 1);
      } in
          if (last_term == sent)
            && (ltb s'.commit_index last && majority_has_log_index s'.cluster last s'.match_index)
          then commit s' follower_id term last (last + 1)
          else finish (update_follower fits s' follower_id (last + 1) true))
      else (let next = next_after_conflict s.log prev conflict in
          finish (
            update_follower fits (record s { next_index = JsMap.set s.next_index follower_id next })
              follower_id next false))

  -- The reply to a chunk sent from `position`: the last chunk counts as entries up to the snapshot's
  -- index; after another one comes the next, or the one that the follower asks for.
  unfoldable pub on_install_snapshot_response :
      Raft → ℕ → String → Snapshot → Bool → ℕ → ℕ → Option ℕ → Outcome
  unfolding on_append_entries_response become_follower send_snapshot chunk_size
  on_install_snapshot_response s sent follower_id snapshot closed position term none =
      if position + chunk_size s snapshot position == snapshot.data_size
      then on_append_entries_response s sent follower_id snapshot.log_index snapshot.log_index
          snapshot.log_term term true none
      else if ltb s.current_term term
      then become_follower valid_url s term
      else if (s.current_term == sent) && is_leader s.state
      then done s
          (send_snapshot s follower_id snapshot closed (position + chunk_size s snapshot position))
      else done s []
  on_install_snapshot_response s sent follower_id snapshot closed position term (some reposition) =
      if ltb s.current_term term
      then become_follower valid_url s term
      else if (s.current_term == sent) && is_leader s.state
      then done s (send_snapshot s follower_id snapshot closed reposition)
      else done s []
