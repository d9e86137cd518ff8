-- ===== src/Raft.antt =====
-- lib/server/raft.js: the state of a peer and the methods the handlers of lib/server/raft_router.js and
-- lib/server/raft_leader.js share. A handler returns the state it leaves and, in order, the effects it
-- has outside of it: what it persists, replies, sends and emits.
pub mod Router
pub mod Leader
pub mod State
pub mod Events
pub mod Votes
pub mod Commit
pub mod ChunkReplies
pub mod Timer
pub mod History
pub mod Answering
pub mod Granting
pub mod CommitTo
pub mod Committing
mod Tests
pub mod Append
pub mod Appending
pub mod Handlers
pub mod Chunks
pub mod Leading
use node_zmq_raft.Prelude.{
  assert, ◌>>◌, ℕ, zero, suc, ◌+◌, ◌-◌, Bool, true, false, not, ◌&&◌, ◌||◌, List, [], ◌∷◌, ◌++◌,
  Option, none, some, String, length, ltb, leb, ◌==◌, if◌then◌else◌, Result, ok, err, ◌>>=◌,
}
use node_zmq_raft.Prelude.JsMap
use node_zmq_raft.Prelude.JsMap.{JsMap, same}
use node_zmq_raft.Cluster
use node_zmq_raft.Cluster.{
  Cluster, Config, JsSet, update_other_peers_map, reset_other_peers_map, is_member, is_transitional,
  replace, refused_replace,
}
use node_zmq_raft.FileLog.{Log, Entry, Snapshot}

pub data Fsm : Type 0 where
  client follower candidate leader : Fsm

abbrev pub is_client : Fsm → Bool
is_client state = elim state [ client ↦ true | _ ↦ false ]

abbrev pub is_follower : Fsm → Bool
is_follower state = elim state [ follower ↦ true | _ ↦ false ]

abbrev pub is_candidate : Fsm → Bool
is_candidate state = elim state [ candidate ↦ true | _ ↦ false ]

abbrev pub is_leader : Fsm → Bool
is_leader state = elim state [ leader ↦ true | _ ↦ false ]

abbrev pub same_state : Fsm → Fsm → Bool
same_state client b = is_client b
same_state follower b = is_follower b
same_state candidate b = is_candidate b
same_state leader b = is_leader b

abbrev pub same_vote : Option String → Option String → Bool
same_vote none none = true
same_vote none (some b) = false
same_vote (some a) none = false
same_vote (some a) (some b) = same a b

-- The peers of a config entry, the key of the request that made it, and its index.
pub record ConfigUpdate : Type 0 where
  pub config : Config
  pub update_request : Option String
  pub index : Option ℕ

-- The answer to an AppendEntries request: the term, success, and a conflict's index.
pub record AppendReply : Type 0 where
  pub reply_term : ℕ
  pub success : Bool
  pub conflict_index : Option ℕ

-- The replies that are kept for a request that comes again.
pub data Reply : Type 0 where
  append_reply : AppendReply → Reply
  snapshot_reply : ℕ → Option ℕ → Reply

pub data Effect : Type 0 where
  -- `_persistence.update`, with the vote and the term or with a configuration or its index alone
  persist : Option String → ℕ → Option ConfigUpdate → Effect
  persist_config : ConfigUpdate → Effect
  persist_index : ℕ → Effect
  emit_state : Fsm → ℕ → Effect
  emit_config : Config → Effect
  vote_reply : ℕ → Bool → Effect
  peer_reply : Reply → Effect
  -- requests to one peer: the term, then the last or previous index and term, ...
  send_request_vote : String → ℕ → ℕ → ℕ → Effect
  send_append_entries : String → ℕ → ℕ → Option ℕ → ℕ → List Entry → Effect
  send_install_snapshot : String → ℕ → Snapshot → ℕ → ℕ → Effect
  -- replies to clients' requests
  update_reply : String → Bool → Effect
  config_reply : ℕ → Effect
  apply_to_state_machine : ℕ → Effect

-- What `_rpcLastRequestIds` holds of a peer's last request.
pub record Cache : Type 0 where
  pub ident : String
  pub request_id : Option ℕ
  pub last_replied : Option Reply

pub record Raft : Type 0 where
  pub peer_id : String
  pub state : Fsm
  pub current_term : ℕ
  pub voted_for : Option String
  pub cluster : Cluster
  pub log : Log
  pub commit_index : ℕ
  pub last_applied : ℕ
  pub follow_leader_id : Option String
  pub next_index : JsMap ℕ
  pub match_index : JsMap ℕ
  pub match_term : JsMap ℕ
  pub peers_index : Option ℕ
  pub peers_update_request : Option String
  -- the peers that have a channel, and whether a heartbeat timer runs or is only marked
  pub rpcs : JsMap String
  pub rpc_last_request_ids : JsMap Cache
  pub heartbeats : JsMap Bool
  -- requests of clients that wait for a reply
  pub update_requests : JsMap (Option ℕ)
  pub config_update_reply : Bool
  -- whether the election timer runs, and whether the router is paused
  pub election_timeout : Bool
  pub paused : Bool
  pub tmp_snapshot : Option Snapshot
  pub tmp_snapshot_bytes_written : ℕ
  pub prevent_spiral_elections : Bool
  pub peer_msg_data_size : ℕ

-- A handler that ran to its end, or one that threw.
pub data Outcome : Type 0 where
  done thrown : Raft → List Effect → Outcome

abbrev pub after : Outcome → Raft
after (done s es) = s
after (thrown s es) = s

abbrev pub effects : Outcome → List Effect
effects (done s es) = es
effects (thrown s es) = es

abbrev pub prepend : List Effect → Outcome → Outcome
prepend es (done s fs) = done s (es ++ fs)
prepend es (thrown s fs) = thrown s (es ++ fs)

-- `promise.then(f)`
unfoldable pub and_then : Outcome → (Raft → Outcome) → Outcome
and_then (done s es) f = prepend es (f s)
and_then (thrown s es) f = thrown s es

-- `_refreshElectionTimeout`
unfoldable pub refresh_election_timeout : Raft → Raft
refresh_election_timeout s = record s {
  election_timeout = not (is_client s.state || is_leader s.state);
}

abbrev pub refuse_all : JsMap (Option ℕ) → List Effect
refuse_all [] = []
refuse_all ((key, i) ∷ m) = update_reply key false ∷ refuse_all m

-- `_cancelPendingRpcs` with `_clearClientRequests`
unfoldable pub cancel_pending_rpcs : Raft → Raft × List Effect
cancel_pending_rpcs s = (
  record s { heartbeats = []; update_requests = []; config_update_reply = false },
  refuse_all s.update_requests ++ (if s.config_update_reply then config_reply 0 ∷ [] else []),
)

-- `heartbeats.set(peerId, null)` for each peer that has no channel yet
abbrev pub mark_new : JsMap String → JsMap String → JsMap Bool → JsMap Bool
mark_new [] rpcs heartbeats = heartbeats
mark_new ((id, url) ∷ peers) rpcs heartbeats =
    mark_new peers rpcs (if JsMap.has rpcs id then heartbeats else JsMap.set heartbeats id false)

abbrev pub persist_if_config : Option ConfigUpdate → List Effect
persist_if_config none = []
persist_if_config (some update) = persist_config update ∷ []

-- The second half of `_updateState`: `prev` is the state before the configuration changed.
unfoldable pub settle :
    Raft → Raft → Fsm → ℕ → Option String → Option ConfigUpdate → Raft × List Effect
settle prev s state term voted_for config =
    let next = if is_follower state && not (is_member s.cluster s.peer_id) then client else state in
    let s' = record s {
      state = next;
      election_timeout = not (is_client next) && s.election_timeout;
    } in
    if not (prev.current_term == term) || not (same_vote s.voted_for voted_for)
    then (
      record s' { current_term = term; voted_for = voted_for },
      (if not (same_state prev.state next) || not (prev.current_term == term)
            then emit_state next term ∷ []
            else [])
          ++ persist voted_for term config ∷ [],
    )
    else (
      s',
      (if not (same_state prev.state next) then emit_state next term ∷ [] else [])
          ++ persist_if_config config,
    )

unfoldable pub leave : Raft → Raft × List Effect
unfolding cancel_pending_rpcs
leave s = if is_candidate s.state || is_leader s.state then cancel_pending_rpcs s else (s, [])

module _ (valid_url : String → Bool) where
  -- `_updateConfig`
  unfoldable pub update_config : Raft → ConfigUpdate → Result Cluster.Error (Raft × List Effect)
  update_config s update = do
    cluster ← replace valid_url s.cluster update.config
    let kept = update_other_peers_map cluster s.rpcs none
    let beats = update_other_peers_map cluster s.heartbeats none
    ok (
      record s {
        cluster = cluster;
        peers_update_request = update.update_request;
        peers_index = update.index;
        heartbeats = if is_leader s.state then mark_new cluster.peers kept beats else beats;
        rpcs = update_other_peers_map cluster s.rpcs (some (λ url id. url));
        rpc_last_request_ids =
            update_other_peers_map cluster s.rpc_last_request_ids
              (some (λ url id. record { ident = ""; request_id = none; last_replied = none }));
        next_index =
            if is_leader s.state
            then reset_other_peers_map cluster s.next_index (s.log.last_index + 1)
            else s.next_index;
        match_index =
            if is_leader s.state
            then reset_other_peers_map cluster s.match_index 0
            else s.match_index;
        match_term =
            if is_leader s.state
            then reset_other_peers_map cluster s.match_term 0
            else s.match_term;
      },
      emit_config update.config ∷ [],
    )

  unfoldable pub configure : Raft → Option ConfigUpdate → Result Cluster.Error (Raft × List Effect)
  unfolding update_config
  configure s none = ok (s, [])
  configure s (some update) = update_config s update

  -- The state where `_updateConfig` throws, which it does in `replace`.
  abbrev pub refused_config : Raft → Option ConfigUpdate → Raft
  refused_config s none = s
  refused_config s (some update) = record s {
    cluster = refused_replace valid_url s.cluster update.config;
  }

  -- `_updateState`
  unfoldable pub update_state : Raft → Fsm → ℕ → Option String → Option ConfigUpdate → Outcome
  unfolding configure settle leave refused_replace
  update_state s state term voted_for config =
      let (s1, cancelled) = leave s in
      elim (configure s1 config) [
        | err e ↦ thrown (refused_config s1 config) cancelled
        | ok (s2, configured) ↦
            (let (s3, settled) = settle s s2 state term voted_for config in
              done s3 (cancelled ++ configured ++ settled))
      ]

-- What the constructor refuses to start with, in its order.
pub data SanityError : Type 0 where
  no_request_key not_confirmed not_appended applied_above_log applied_below_log term_too_low :
      SanityError
  bad_first_snapshot snapshot_gap : SanityError

abbrev pub is_given {ℓ} : {A : Type ℓ} → Option A → Bool
is_given none = false
is_given (some a) = true

abbrev pub is_above : Option ℕ → ℕ → Bool
is_above none n = false
is_above (some i) n = ltb n i

-- The checks of the constructor on what the persistence, the log and the state machine hold.
unfoldable pub check_start :
    Cluster → Option String → Option ℕ → ℕ → ℕ → Log → Result SanityError (Unit {0})
check_start cluster update_request index current_term last_applied log = do
  assert (not (is_transitional cluster && not (is_given update_request))) no_request_key
  assert (not (is_given update_request && not (is_given index))) not_confirmed
  assert (not (is_above index log.last_index)) not_appended
  assert (leb last_applied log.last_index) applied_above_log
  assert (leb log.first_index (last_applied + 1)) applied_below_log
  assert (leb log.last_term current_term) term_too_low
  assert (not (log.snapshot.log_index == 0 && not (log.snapshot.log_term == 0))) bad_first_snapshot
  assert (log.snapshot.log_index == log.first_index - 1) snapshot_gap
