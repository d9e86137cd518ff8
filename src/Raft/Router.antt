-- ===== src/Raft/Router.antt =====
-- lib/server/raft_router.js: the handlers of the requests of other peers.
use node_zmq_raft.Prelude.{
  ℕ, suc, ◌+◌, Bool, true, false, not, ◌&&◌, ◌||◌, List, [], ◌∷◌, Option, none, some, String, ltb,
  leb, ◌==◌, if◌then◌else◌, Result, ok, err, ◌>>=◌, min,
}
use node_zmq_raft.Prelude.JsMap
use node_zmq_raft.Prelude.JsMap.{JsMap, same}
use node_zmq_raft.Cluster.{Config, majority_has_voted}
use node_zmq_raft.FileLog
use node_zmq_raft.FileLog.{Log, Entry, Snapshot, term_at, is_term, append_entries, install_snapshot}
use node_zmq_raft.Raft.{
  Raft, follower, Outcome, done, thrown, and_then, Effect, Reply, peer_reply, vote_reply,
  append_reply, snapshot_reply, apply_to_state_machine, AppendReply, Cache, ConfigUpdate,
  update_state, refresh_election_timeout, is_candidate, same_vote,
}

-- `candidateLastTerm > log.lastTerm || (candidateLastTerm === log.lastTerm && ...)`
unfoldable pub up_to_date : Log → ℕ → ℕ → Bool
up_to_date log last_index last_term =
    ltb log.last_term last_term || (last_term == log.last_term && leb log.last_index last_index)

abbrev pub is_none : Option String → Bool
is_none none = true
is_none (some id) = false

-- `preventSpiralElections && state === FSM_CANDIDATE && !cluster.majorityHasVoted()`
unfoldable pub is_waiting : Raft → Bool
is_waiting s =
    s.prevent_spiral_elections && (is_candidate s.state && not (majority_has_voted s.cluster))

unfoldable pub may_grant : Raft → String → ℕ → ℕ → ℕ → Bool
unfolding up_to_date
may_grant s candidate_id term last_index last_term =
    (is_none s.voted_for || (same_vote s.voted_for (some candidate_id) || ltb s.current_term term))
    && up_to_date s.log last_index last_term

module _ (valid_url : String → Bool) where
  unfoldable pub request_vote_handler : Raft → String → ℕ → ℕ → ℕ → Outcome
  unfolding is_waiting may_grant
  request_vote_handler s candidate_id term last_index last_term =
      if not (JsMap.has s.cluster.peers candidate_id)
      then done s []
      else if ltb term s.current_term
      then done s (vote_reply s.current_term false ∷ [])
      else if is_waiting s
      then done s (vote_reply s.current_term false ∷ [])
      else (let granted = may_grant s candidate_id term last_index last_term in
          if granted || ltb s.current_term term
          then and_then
              (update_state valid_url
                (refresh_election_timeout (record s { follow_leader_id = none })) follower term
                (if granted then some candidate_id else none) none)
              (λ s'. done s' (vote_reply term granted ∷ []))
          else done s (vote_reply s.current_term granted ∷ []))

-- `bounceDuplicateRequestCache`: what to reply to a request that was answered already, or the state
-- with an empty cache for this request.
pub data Bounce : Type 0 where
  bounced : List Effect → Bounce
  fresh : Raft → Bounce

abbrev pub same_id : Option ℕ → ℕ → Bool
same_id none i = false
same_id (some j) i = j == i

abbrev pub last_reply : Option Reply → List Effect
last_reply none = []
last_reply (some reply) = peer_reply reply ∷ []

unfoldable pub set_cache : Raft → String → Cache → Raft
set_cache s peer cache = record s {
  rpc_last_request_ids = JsMap.set s.rpc_last_request_ids peer cache;
}

-- `none` is the throw on a peer that has no cache.
unfoldable pub bounce_duplicate : Raft → String → String → ℕ → Option Bounce
unfolding set_cache
bounce_duplicate s peer ident request_id = elim (JsMap.get s.rpc_last_request_ids peer) [
  | none ↦ none
  | some cache ↦
      if same_id cache.request_id request_id && same cache.ident ident
      then some (bounced (last_reply cache.last_replied))
      else some (
          fresh (
            set_cache s peer
              (record { ident = ident; request_id = some request_id; last_replied = none })))
]

-- A reply, kept for a request that comes again while the peer still has a cache.
unfoldable pub keep_reply : Raft → String → String → ℕ → Reply → Raft
unfolding set_cache
keep_reply s peer ident request_id reply =
    if JsMap.has s.rpc_last_request_ids peer
    then set_cache s peer
        (record { ident = ident; request_id = some request_id; last_replied = some reply })
    else s

-- Where the terms match: the log and the commit index.
unfoldable pub append_matching :
    (String → Bool) → Raft → List Entry → ℕ → ℕ → Result FileLog.Error Raft
append_matching expired s entries prev_index commit = do
  log ← append_entries expired s.log entries (prev_index + 1)
  ok (record s {
    log = log;
    commit_index = if ltb s.commit_index commit then min commit log.last_index else s.commit_index;
  })

-- `sendReply` and what follows it: the election timer, the router and the state machine.
unfoldable pub finish_append : Raft → String → String → ℕ → AppendReply → Outcome
unfolding keep_reply refresh_election_timeout
finish_append s peer ident request_id answer =
    done
      (record (refresh_election_timeout
        (keep_reply s peer ident request_id (append_reply answer))) { paused = false })
      (peer_reply (append_reply answer)
        ∷ (if ltb s.last_applied s.commit_index
            then apply_to_state_machine s.commit_index ∷ []
            else []))

-- What follows `_updateState` in the handler: the entries appended, or the reply of a conflict.
unfoldable pub respond_append :
    (String → Bool) → Raft → String → String → ℕ → ℕ → ℕ → Bool → ℕ → List Entry → Outcome
unfolding append_matching finish_append
respond_append expired s peer ident request_id term prev_index true commit entries =
    elim (append_matching expired s entries prev_index commit) [
      | err e ↦ thrown s []
      | ok s' ↦
          finish_append s' peer ident request_id
            (record { reply_term = term; success = true; conflict_index = none })
    ]
respond_append expired s peer ident request_id term prev_index false commit entries =
    finish_append s peer ident request_id (record {
      reply_term = term;
      success = false;
      conflict_index =
          if ltb s.log.last_index prev_index then some (s.log.last_index + 1) else none;
    })

-- A request id of zero bytes in base64.
abbrev pub request_key : Option String → String
request_key none = "AAAAAAAAAAAAAAAA"
request_key (some key) = key

-- The last config entry of those to append, if it is newer than the one in use.
module _ (decode_config : List ℕ → Config) where
  unfoldable pub last_config : List Entry → ℕ → Option ConfigUpdate → Option ConfigUpdate
  last_config [] index found = found
  last_config (entry ∷ entries) index found = last_config entries (suc index) (
      if entry.type == 1
      then some (record {
        config = decode_config entry.bytes;
        update_request = some (request_key entry.key);
        index = some index;
      })
      else found)

  unfoldable pub is_newer : Option ℕ → Option ℕ → Bool
  is_newer (some i) (some known) = ltb known i
  is_newer i none = true
  is_newer none (some known) = true

  unfoldable pub config_to_use : Raft → List Entry → ℕ → Option ConfigUpdate
  unfolding last_config is_newer
  config_to_use s entries first = elim (last_config entries first none) [
    | none ↦ none
    | some update ↦ if is_newer update.index s.peers_index then some update else none
  ]

  module _ (valid_url expired : String → Bool) where
    -- The handler once the request is neither a duplicate nor of a lower term.
    unfoldable pub accept_append : Raft → String → String → ℕ → ℕ → ℕ → ℕ → ℕ → List Entry → Outcome
    unfolding respond_append config_to_use
    accept_append s peer ident request_id term prev_index prev_term commit entries =
        let held = record s {
          election_timeout = false;
          paused = true;
          follow_leader_id = some peer;
        } in
        let voted_for = if ltb s.current_term term then none else s.voted_for in
        let matches = is_term (term_at s.log prev_index) prev_term in
        if ltb prev_index s.commit_index
        then thrown held []
        else and_then
            (update_state valid_url held follower term voted_for
              (if matches then config_to_use s entries (prev_index + 1) else none))
            (λ s'.
              respond_append expired s' peer ident request_id term prev_index matches commit
                entries)

    unfoldable pub append_entry_handler :
        Raft → String → String → ℕ → ℕ → ℕ → ℕ → ℕ → List Entry → Outcome
    unfolding bounce_duplicate keep_reply accept_append
    append_entry_handler s leader_id ident request_id term prev_index prev_term commit entries =
        if not (JsMap.has s.cluster.peers leader_id)
        then done s []
        else elim (bounce_duplicate s leader_id ident request_id) [
          | none ↦ thrown s []
          | some (bounced replies) ↦ done s replies
          | some (fresh s') ↦
              if ltb term s'.current_term
              then (let reply = append_reply (record {
                reply_term = s'.current_term;
                success = false;
                conflict_index = none;
              }) in
                  done (keep_reply s' leader_id ident request_id reply) (peer_reply reply ∷ []))
              else accept_append s' leader_id ident request_id term prev_index prev_term commit
                  entries
        ]

-- Whether the chunk is of the temporary snapshot under way.
abbrev pub same_snapshot : Option Snapshot → Snapshot → Bool
same_snapshot none t = false
same_snapshot (some s) t =
    s.log_index == t.log_index && (s.log_term == t.log_term && s.data_size == t.data_size)

-- What a chunk at `position` of `size` bytes does to the temporary snapshot: the position asked for
-- instead, or the bytes written and, with the last of them, the snapshot installed.
unfoldable pub write_chunk : Raft → Snapshot → ℕ → ℕ → Result FileLog.Error (Raft × Option ℕ)
write_chunk s snapshot position size =
    if not (s.tmp_snapshot_bytes_written == position)
    then ok (s, some s.tmp_snapshot_bytes_written)
    else (let s' = record s { tmp_snapshot_bytes_written = position + size } in
        if position + size == snapshot.data_size
        then (do
          log ← install_snapshot s.log snapshot false
          ok (record s' { tmp_snapshot = none; log = log }, none))
        else ok (s', none))

module _ (valid_url : String → Bool) where
  unfoldable pub accept_snapshot : Raft → String → String → ℕ → ℕ → Snapshot → ℕ → ℕ → Outcome
  unfolding write_chunk keep_reply refresh_election_timeout
  accept_snapshot s peer ident request_id term snapshot position size =
      let held = record s {
        election_timeout = false;
        paused = true;
        follow_leader_id = some peer;
      } in
      let voted_for = if ltb s.current_term term then none else s.voted_for in
      let current =
        if same_snapshot held.tmp_snapshot snapshot
        then held
        else record held { tmp_snapshot = some snapshot; tmp_snapshot_bytes_written = 0 } in
      and_then (update_state valid_url current follower term voted_for none) (λ s'.
        elim (write_chunk s' snapshot position size) [
          | err e ↦ thrown s' []
          | ok (s'', reposition) ↦
              done
                (record (refresh_election_timeout
                  (keep_reply s'' peer ident request_id (snapshot_reply term reposition))) {
                    paused = false;
                  })
                (peer_reply (snapshot_reply term reposition) ∷ [])
        ])

  unfoldable pub install_snapshot_handler :
      Raft → String → String → ℕ → ℕ → Snapshot → ℕ → ℕ → Outcome
  unfolding bounce_duplicate keep_reply accept_snapshot
  install_snapshot_handler s leader_id ident request_id term snapshot position size =
      if not (JsMap.has s.cluster.peers leader_id)
      then done s []
      else elim (bounce_duplicate s leader_id ident request_id) [
        | none ↦ thrown s []
        | some (bounced replies) ↦ done s replies
        | some (fresh s') ↦
            if ltb term s'.current_term
            then done
                (keep_reply s' leader_id ident request_id (snapshot_reply s'.current_term none))
                (peer_reply (snapshot_reply s'.current_term none) ∷ [])
            else accept_snapshot s' leader_id ident request_id term snapshot position size
      ]
