-- ===== src/Server.antt =====
-- lib/server/raft_server.js: how a peer answers clients' requests, and `_applyToStateMachine` of
-- lib/server/raft.js, which answers those that wait. A request whose entry is written while other
-- events happen is two steps: the request, and what follows the write.
pub mod Updates
pub mod Once
pub mod AtMostOnce
pub mod Truth
pub mod Truthful
pub mod Stream
pub mod Starting
pub mod Streaming
pub mod Delivery
pub mod Conversation
pub mod Completion
pub mod Confirming
pub mod Confirmed
pub mod Changes
mod Tests
mod StreamTests
use node_zmq_raft.Prelude.{
  ℕ, ◌+◌, ◌-◌, Bool, true, false, not, ◌&&◌, ◌||◌, List, [], ◌∷◌, ◌++◌, Option, none, some, String,
  length, ltb, leb, ◌==◌, if◌then◌else◌, Result, ok, err,
}
use node_zmq_raft.Prelude.JsMap
use node_zmq_raft.Prelude.JsMap.{JsMap}
use node_zmq_raft.Cluster
use node_zmq_raft.Cluster.{Config, Peer, plain, joint, tuples, join}
use node_zmq_raft.FileLog.{
  Error, Feed, Log, Entry, append_entry, get_rid, prune_index, feed_state_machine,
}
use node_zmq_raft.Raft.{
  Raft, Effect, is_leader, same_vote, update_config, refused_config, persist_config, persist_index,
  ConfigUpdate,
}
use node_zmq_raft.Raft.Leader.{update_followers_now}

-- An entry on its way to the log, in the leader's term when it was asked for.
pub record Append : Type 0 where
  pub key : String
  pub term : ℕ
  pub bytes : List ℕ

-- A peer, and the entries of clients that its log has still to write, the first one next.
pub record Serving : Type 0 where
  pub peer : Raft
  pub writing : List Append

-- What a leader tells of itself and its log.
pub record LogInfo : Type 0 where
  pub leads : Bool
  pub leader_id : Option String
  pub current_term : ℕ
  pub first_index : ℕ
  pub last_applied : ℕ
  pub commit_index : ℕ
  pub last_index : ℕ
  pub snapshot_size : ℕ
  pub prune_index : ℕ

-- Answers, by the key of the request.
pub data Answer : Type 0 where
  update_accepted : String → Answer
  update_applied : String → ℕ → Answer
  update_refused : String → Answer
  update_not_leader : String → Option String → Answer
  config_not_leader : String → Option String → Answer
  config_answered : String → (status : ℕ) → Option ℕ → Answer
  config_info : Bool → Option String → JsMap String → Answer
  log_info : LogInfo → Answer

pub record Served : Type 0 where
  pub serving : Serving
  pub answers : List Answer
  pub effects : List Effect

abbrev pub answer : Serving → List Answer → Served
answer v answers = record { serving = v; answers = answers; effects = [] }

abbrev pub is_given {ℓ} : {A : Type ℓ} → Option A → Bool
is_given none = false
is_given (some a) = true

-- `requestConfigHandler` and `requestLogInfoHandler`
abbrev pub known_leader : Raft → Option String
known_leader s = if is_leader s.state then some s.peer_id else s.follow_leader_id

unfoldable pub request_config_handler : Serving → Served
request_config_handler v =
    answer v
      (config_info (is_leader v.peer.state) (known_leader v.peer) v.peer.cluster.config_ary ∷ [])

unfoldable pub request_log_info_handler : Serving → Served
unfolding prune_index
request_log_info_handler v =
    let s = v.peer in
    answer v (
      log_info (record {
        leads = is_leader s.state;
        leader_id = known_leader s;
        current_term = s.current_term;
        first_index = s.log.first_index;
        last_applied = s.last_applied;
        commit_index = s.commit_index;
        last_index = s.log.last_index;
        snapshot_size = s.log.snapshot.data_size;
        prune_index = prune_index s.log;
      })
      ∷ [])

-- A request of an update: its key, the bytes of its id, its data.
pub record UpdateRequest : Type 0 where
  pub key : String
  pub id_length : ℕ
  pub bytes : List ℕ

abbrev pub wait_for : Serving → String → Option ℕ → Serving
wait_for v key index = record v {
  peer = record v.peer { update_requests = JsMap.set v.peer.update_requests key index };
}

-- `sane` is `checkRequestSanity`, which reads the clock, and `limit` is `maxLogEntryDataSize`.
module _ (sane : String → Bool) (limit : ℕ) where
  -- `requestUpdateHandler`, for a leader: by the index that the log has for the request.
  unfoldable pub leader_update : Serving → UpdateRequest → Option ℕ → Served
  leader_update v request none =
      if sane request.key
      then answer
          (record (wait_for v request.key none) {
            writing =
                v.writing
                ++ record { key = request.key; term = v.peer.current_term; bytes = request.bytes }
                  ∷ [];
          })
          (update_accepted request.key ∷ [])
      else answer v (update_refused request.key ∷ [])
  leader_update v request (some index) =
      if leb index v.peer.last_applied
      then answer v (update_applied request.key index ∷ [])
      else answer (wait_for v request.key (some index)) (update_accepted request.key ∷ [])

  unfoldable pub request_update_handler : Serving → UpdateRequest → Served
  unfolding leader_update get_rid
  request_update_handler v request =
      if (length request.bytes == 0) || ltb limit (length request.bytes)
      then answer v []
      else if not (request.id_length == 12)
      then answer v []
      else if not (is_leader v.peer.state)
      then answer v (update_not_leader request.key v.peer.follow_leader_id ∷ [])
      else if JsMap.has v.peer.update_requests request.key
      then answer v (update_accepted request.key ∷ [])
      else leader_update v request (get_rid v.peer.log request.key)

-- The requests that wait for an index that is applied, and the others.
unfoldable pub applied_answers : ℕ → JsMap (Option ℕ) → List Answer
applied_answers last [] = []
applied_answers last ((key, none) ∷ m) = applied_answers last m
applied_answers last ((key, some index) ∷ m) =
    let rest = applied_answers last m in
    if leb index last then update_applied key index ∷ rest else rest

unfoldable pub still_waiting : ℕ → JsMap (Option ℕ) → JsMap (Option ℕ)
still_waiting last [] = []
still_waiting last ((key, none) ∷ m) = (key, none) ∷ still_waiting last m
still_waiting last ((key, some index) ∷ m) =
    let rest = still_waiting last m in if leb index last then rest else (key, some index) ∷ rest

-- What follows the state machine's answer, which is the last index it has applied.
unfoldable pub after_apply : Serving → ℕ → Result Error Feed → Served
unfolding applied_answers still_waiting
after_apply v applied (err e) = answer v []
after_apply v applied (ok feed) =
    answer
      (record v {
        peer = record v.peer {
          last_applied = applied;
          update_requests = still_waiting applied v.peer.update_requests;
        };
      })
      (applied_answers applied v.peer.update_requests)

-- `_applyToStateMachine`
unfoldable pub apply_to_state_machine : Serving → ℕ → Served
unfolding feed_state_machine after_apply
apply_to_state_machine v applied =
    let s = v.peer in
    if ltb s.commit_index (s.last_applied + 1)
    then answer v []
    else after_apply v applied (feed_state_machine s.log s.last_applied s.commit_index)

module _ (expired : String → Bool) (fits : Log → ℕ → Bool → List Entry) where
  abbrev pub state_entry : Append → Entry
  state_entry next = record { key = some next.key; type = 0; term = next.term; bytes = next.bytes }

  -- What follows the write of an entry, at its index.
  unfoldable pub after_write : Serving → Append → ℕ → Served
  unfolding update_followers_now
  after_write v next index =
      let s = v.peer in
      if (next.term == s.current_term) && is_leader s.state
      then (if leb index s.last_applied
          then answer
              (record v {
                peer = record s { update_requests = JsMap.delete s.update_requests next.key };
              })
              (update_applied next.key index ∷ [])
          else (let (s', sent) = update_followers_now fits (record s {
            update_requests =
                if JsMap.has s.update_requests next.key
                then JsMap.set s.update_requests next.key (some index)
                else s.update_requests;
          }) in
              record { serving = record v { peer = s' }; answers = []; effects = sent }))
      else answer v []

  -- The log has refused the first entry that waits, or written it.
  unfoldable pub after_append : Serving → Append → List Append → Result Error (Log × ℕ) → Served
  unfolding after_write
  after_append v next rest (err e) = answer (record v { writing = rest }) []
  after_append v next rest (ok (log, index)) =
      after_write (record { peer = record v.peer { log = log }; writing = rest }) next index

  unfoldable pub write_next : Serving → List Append → Served
  unfolding append_entry after_append
  write_next v [] = answer v []
  write_next v (next ∷ rest) =
      after_append v next rest (append_entry expired v.peer.log (state_entry next))
