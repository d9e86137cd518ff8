-- ===== src/Raft/Tests.antt =====
-- The theorems on lib/server/raft.js and its handlers at a peer of a cluster of three.

use node_zmq_raft.Cluster.{Cluster, Config, Peer, plain, is_member}
use node_zmq_raft.FileLog.{Entry, Snapshot, Log, create_new_log}
use node_zmq_raft.FileLog.Wellformed.{IsLog}
use node_zmq_raft.FileLog.Installing.{create_new_log-IsLog}
use node_zmq_raft.Raft.{Raft, follower, leader, Outcome, after, effects, Cache}
use node_zmq_raft.Raft.Router.{request_vote_handler, append_entry_handler}
use node_zmq_raft.Raft.Leader.{become_follower, on_append_entries_response}
use node_zmq_raft.Raft.State.{stored}
use node_zmq_raft.Raft.Appending.{Appended}
use node_zmq_raft.Raft.Handlers.{append_entry_handler-Appended}
use node_zmq_raft.Raft.Committing.{MayCommit, on_append_entries_response-MayCommit}
use node_zmq_raft.Raft.Answering.{grants}
use node_zmq_raft.Raft.Granting.{IsVotable, request_vote_handler-Granted}
use node_zmq_raft.Raft.History.{
  vote_request, append_request, Allowed, handle, History, start, handled, restarted, KeepsVote,
  handle-KeepsVote, one_vote_per_term,
}
use node_zmq_raft.Raft.Timer.{become_follower-timer}
use node_zmq_raft.Prelude.{
  ℕ, ◌≤◌, ◌≡◌, ◌⊎◌, refl, Bool, true, false, List, [], ◌∷◌, Option, none, some, String,
}
use node_zmq_raft.Prelude.JsMap

abbrev any_url : String → Bool
any_url url = true

abbrev never : String → Bool
never key = false

abbrev no_config : List ℕ → Config
no_config bytes = plain []

abbrev no_bytes : List Peer → List ℕ
no_bytes peers = []

abbrev nothing_fits : Log → ℕ → Bool → List Entry
nothing_fits log next many = []

abbrev three : Cluster
three = record {
  peer_id = "a";
  ocluster = ("a", "u1") ∷ ("b", "u2") ∷ ("c", "u3") ∷ [];
  ncluster = [];
  majority = 2;
  nc_majority = 0;
  voted = [];
  nc_voted = [];
  votes = 0;
  nc_votes = 0;
  peers = ("b", "u2") ∷ ("c", "u3") ∷ [];
  config_ary = ("a", "u1") ∷ ("b", "u2") ∷ ("c", "u3") ∷ [];
}

abbrev no_cache : Cache
no_cache = record { ident = ""; request_id = none; last_replied = none }

abbrev genesis : Snapshot
genesis = record { log_index = 0; log_term = 0; data_size = 0 }

abbrev calm : Raft
calm = record {
  peer_id = "a";
  state = follower;
  current_term = 1;
  voted_for = none;
  cluster = three;
  log = create_new_log genesis;
  commit_index = 0;
  last_applied = 0;
  follow_leader_id = none;
  next_index = [];
  match_index = [];
  match_term = [];
  peers_index = none;
  peers_update_request = none;
  rpcs = ("b", "u2") ∷ ("c", "u3") ∷ [];
  rpc_last_request_ids = ("b", no_cache) ∷ ("c", no_cache) ∷ [];
  heartbeats = [];
  update_requests = [];
  config_update_reply = false;
  election_timeout = true;
  paused = false;
  tmp_snapshot = none;
  tmp_snapshot_bytes_written = 0;
  prevent_spiral_elections = true;
  peer_msg_data_size = 64;
}

abbrev leading : Raft
leading = record calm {
  state = leader;
  voted_for = some "a";
  election_timeout = false;
  log = record (create_new_log genesis) { last_index = 1; last_term = 1; entries = entry ∷ [] };
  next_index = ("b", 2) ∷ ("c", 2) ∷ [];
  match_index = ("b", 0) ∷ ("c", 0) ∷ [];
  match_term = ("b", 0) ∷ ("c", 0) ∷ [];
}
  where
    entry : Entry
    entry = record { key = none; type = 2; term = 1; bytes = 9 ∷ [] }

abbrev entry : Entry
entry = record { key = some "k1"; type = 0; term = 2; bytes = 7 ∷ [] }

three-has-a : is_member three "a" ≡ true
unfolding is_member JsMap.has
three-has-a = refl

calm-IsLog : IsLog calm.log
calm-IsLog = create_new_log-IsLog genesis

-- A vote asked by "b" for term 2, and then a restart.
abbrev voted : Outcome
voted =
    handle no_config no_bytes any_url never nothing_fits (9 ∷ []) "k" calm (vote_request "b" 2 0 0)

vote-Allowed : Allowed calm (vote_request "b" 2 0 0)
unfolding Allowed
vote-Allowed = tt

append-Allowed : Allowed calm (append_request "b" "i" 1 2 0 0 1 (entry ∷ []))
unfolding Allowed
append-Allowed = calm-IsLog

abbrev kept : Option String × ℕ
kept = stored (effects voted) (calm.voted_for, calm.current_term)

abbrev reborn : Raft
reborn = record calm { voted_for = kept.0; current_term = kept.1 }

vote_then_restart :
    History no_config no_bytes any_url never nothing_fits
      (9 ∷ [])
      "k"
      (calm, (none, 1))
      (reborn, kept)
vote_then_restart =
    restarted calm (after voted) reborn (none, 1) kept refl
      (handled calm calm (none, 1) (none, 1) (vote_request "b" 2 0 0) vote-Allowed
        (start calm (none, 1)))

one_vote_per_term_example : KeepsVote calm reborn × (kept ≡ (reborn.voted_for, reborn.current_term))
one_vote_per_term_example =
    one_vote_per_term no_config no_bytes any_url never nothing_fits (9 ∷ []) "k" calm (reborn, kept)
      vote_then_restart

abbrev appended : Outcome
appended =
    handle no_config no_bytes any_url never nothing_fits (9 ∷ []) "k" calm
      (append_request "b" "i" 1 2 0 0 1 (entry ∷ []))

handle-KeepsVote_example :
    KeepsVote calm (after appended)
    × (0 ≤ (after appended).commit_index)
    × (stored (effects appended) (none, 1)
        ≡ ((after appended).voted_for, (after appended).current_term))
handle-KeepsVote_example =
    handle-KeepsVote no_config no_bytes any_url never nothing_fits (9 ∷ []) "k" calm
      (append_request "b" "i" 1 2 0 0 1 (entry ∷ [])) append-Allowed

request_vote_handler-Granted_example :
    (IsVotable calm "b" 2 0 0
      → grants (effects (request_vote_handler any_url calm "b" 2 0 0)) ≡ true)
    × (grants (effects (request_vote_handler any_url calm "b" 2 0 0)) ≡ true
        → IsVotable calm "b" 2 0 0
          × ((after (request_vote_handler any_url calm "b" 2 0 0)).voted_for ≡ some "b")
          × ((after (request_vote_handler any_url calm "b" 2 0 0)).current_term ≡ 2)
          × (stored
                (effects (request_vote_handler any_url calm "b" 2 0 0))
                (calm.voted_for, calm.current_term)
              ≡ (some "b", 2)))
request_vote_handler-Granted_example = request_vote_handler-Granted any_url calm "b" 2 0 0

append_entry_handler-Appended_example :
    Appended calm 0 0
      (entry ∷ [])
      (after (append_entry_handler no_config any_url never calm "b" "i" 1 2 0 0 1 (entry ∷ [])))
append_entry_handler-Appended_example =
    append_entry_handler-Appended no_config any_url never calm "b" "i" 1 2 0 0 1 (entry ∷ [])
      calm-IsLog

on_append_entries_response-MayCommit_example :
    ((after (
        on_append_entries_response any_url never nothing_fits no_bytes "k" leading 1 "b" 0 1 1 1
          true none)).commit_index
      ≡ 0)
    ⊎ MayCommit leading
        (after (
          on_append_entries_response any_url never nothing_fits no_bytes "k" leading 1 "b" 0 1 1 1
            true none))
        1
        "b"
        1
        1
        true
on_append_entries_response-MayCommit_example =
    on_append_entries_response-MayCommit any_url never nothing_fits no_bytes "k" leading 1 "b" 0 1 1
      1 true none

become_follower-timer_example :
    ((after (become_follower any_url leading 2)).state ≡ follower)
    × ((after (become_follower any_url leading 2)).election_timeout ≡ false)
become_follower-timer_example = become_follower-timer any_url leading 2 three-has-a
