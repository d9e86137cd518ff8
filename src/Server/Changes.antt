-- ===== src/Server/Changes.antt =====
-- `configUpdateHandler` of lib/server/raft_server.js: a change of the membership asked by a client.
use node_zmq_raft.Prelude.{
  ℕ, Bool, true, false, not, List, [], ◌∷◌, ◌++◌, none, some, String, leb, ◌==◌, if◌then◌else◌, ok,
  err,
}
use node_zmq_raft.Cluster.{Config, Peer, joint, tuples, join}
use node_zmq_raft.FileLog.{Log, Entry, append_entry, get_rid}
use node_zmq_raft.Raft.{
  Raft, Effect, is_leader, same_vote, update_config, refused_config, persist_config, persist_index,
  ConfigUpdate,
}
use node_zmq_raft.Raft.Leader.{update_followers_now}
use node_zmq_raft.Server.{Serving, Served, answer, config_not_leader, config_answered}

-- A request of a change: its key, the bytes of its id, the members asked for.
pub record ConfigRequest : Type 0 where
  pub key : String
  pub id_length : ℕ
  pub peers : List Peer

abbrev pub refuse : Serving → String → ℕ → Served
refuse v key status = answer v (config_answered key status none ∷ [])

-- `encode_config` is MessagePack, `fits` as for the leader, `sane` and `expired` read the clock.
module _ (valid_url expired sane : String → Bool) (fits : Log → ℕ → Bool → List Entry)
    (encode_config : Config → List ℕ) where
  -- The joint configuration is written to the log, and its index kept.
  unfoldable pub append_joint : Raft → String → Config → Raft × List Effect
  unfolding append_entry update_followers_now
  append_joint s key peers =
      elim (append_entry expired s.log
        (record { key = some key; type = 1; term = s.current_term; bytes = encode_config peers })) [
          | err e ↦ (s, [])
          | ok (log, index) ↦
              (let (s', sent) =
                  update_followers_now fits
                    (record s { log = log; peers_index = some index; paused = false }) in
                (s', persist_index index ∷ sent))
        ]

  -- What follows the early answer: the change is marked, and the router paused while it is written.
  unfoldable pub begin_change : Serving → String → Config → Served
  unfolding update_config append_joint
  begin_change v key peers =
      let marked = record v.peer { config_update_reply = true; paused = true } in
      let change : ConfigUpdate = record {
        config = peers;
        update_request = some key;
        index = none;
      } in
      elim (update_config valid_url marked change) [
        | err e ↦ record {
          serving = record v { peer = refused_config valid_url marked (some change) };
          answers = config_answered key 1 none ∷ [];
          effects = [];
        }
        | ok (s, configured) ↦
            (let (s', sent) = append_joint s key peers in
              record {
                serving = record v { peer = s' };
                answers = config_answered key 1 none ∷ [];
                effects = configured ++ persist_config change ∷ sent;
              })
      ]

  -- A request that the log has not seen.
  unfoldable pub fresh_change : Serving → ConfigRequest → Served
  unfolding begin_change
  fresh_change v request =
      if not (sane request.key)
      then refuse v request.key 4
      else elim (join valid_url v.peer.cluster request.peers) [
        | err e ↦ refuse v request.key 2
        | ok none ↦ refuse v request.key 3
        | ok (some (old, new)) ↦ begin_change v request.key (joint (tuples old) (tuples new))
      ]

  -- A request that the log has at an index.
  unfoldable pub seen_change : Serving → ConfigRequest → ℕ → Served
  seen_change v request index =
      if leb index v.peer.commit_index
      then answer v (config_answered request.key 1 (some index) ∷ [])
      else if same_vote (some request.key) v.peer.peers_update_request
      then answer (record v { peer = record v.peer { config_update_reply = true } })
          (config_answered request.key 1 none ∷ [])
      else refuse v request.key 2

  unfoldable pub config_update_handler : Serving → ConfigRequest → Served
  unfolding fresh_change seen_change get_rid
  config_update_handler v request =
      let s = v.peer in
      if not (request.id_length == 12)
      then answer v []
      else if not (is_leader s.state)
      then answer v (config_not_leader request.key s.follow_leader_id ∷ [])
      else if s.config_update_reply
      then (if same_vote (some request.key) s.peers_update_request
          then refuse v request.key 1
          else refuse v request.key 3)
      else elim (get_rid s.log request.key) [
        | none ↦ fresh_change v request
        | some index ↦ seen_change v request index
      ]
