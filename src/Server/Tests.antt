-- ===== src/Server/Tests.antt =====
-- The theorems on lib/server/raft_server.js at a leader of a cluster of three.
use node_zmq_raft.Cluster.{Cluster, is_sole_master}
use node_zmq_raft.FileLog.{
  Entry, Snapshot, Log, create_new_log, append_entry, write_entries, truncate, write, remember,
  get_rid, feed_state_machine,
}
use node_zmq_raft.FileLog.Installing.{create_new_log-IsLog}
use node_zmq_raft.Raft.{leader}
use node_zmq_raft.Raft.Leader.{update_followers_now, update_idle}
use node_zmq_raft.Server.{
  Serving, UpdateRequest, update_applied, request_update_handler, leader_update,
  apply_to_state_machine, after_apply, applied_answers, still_waiting, write_next, after_append,
  after_write,
}
use node_zmq_raft.Server.Updates.{Event, asked, wrote, applied, serve, serve_all}
use node_zmq_raft.Server.Once.{in_log, in_writing}
use node_zmq_raft.Server.Truth.{WaitsFor, IsTruthful, AnswersTrue}
use node_zmq_raft.Server.Truthful.{serve-AnswersTrue}
use node_zmq_raft.Prelude.{ℕ, ◌≡◌, refl, Bool, true, false, List, [], ◌∷◌, none, String}
use node_zmq_raft.Prelude.JsMap

abbrev always : String → Bool
always key = true

abbrev never : String → Bool
never key = false

abbrev nothing_fits : Log → ℕ → Bool → List Entry
nothing_fits log next many = []

abbrev three : Cluster
three = record {
  peer_id = "a";
  ocluster = ("a", "u1") ∷ ("b", "u2") ∷ ("c", "u3") ∷ [];
  ncluster = [];
  majority = 2;
  nc_majority = 0;
  voted = [];
  nc_voted = [];
  votes = 0;
  nc_votes = 0;
  peers = ("b", "u2") ∷ ("c", "u3") ∷ [];
  config_ary = ("a", "u1") ∷ ("b", "u2") ∷ ("c", "u3") ∷ [];
}

abbrev genesis : Snapshot
genesis = record { log_index = 0; log_term = 0; data_size = 0 }

abbrev idle : Serving
idle = record {
  peer = record {
    peer_id = "a";
    state = leader;
    current_term = 1;
    voted_for = none;
    cluster = three;
    log = create_new_log genesis;
    commit_index = 0;
    last_applied = 0;
    follow_leader_id = none;
    next_index = [];
    match_index = [];
    match_term = [];
    peers_index = none;
    peers_update_request = none;
    rpcs = [];
    rpc_last_request_ids = [];
    heartbeats = [];
    update_requests = [];
    config_update_reply = false;
    election_timeout = false;
    paused = false;
    tmp_snapshot = none;
    tmp_snapshot_bytes_written = 0;
    prevent_spiral_elections = true;
    peer_msg_data_size = 64;
  };
  writing = [];
}

abbrev request : UpdateRequest
request = record { key = "k1"; id_length = 12; bytes = 7 ∷ [] }

program : Unit {0}
unfolding is_sole_master create_new_log append_entry write_entries truncate write remember get_rid
    feed_state_machine update_followers_now update_idle request_update_handler leader_update
    apply_to_state_machine after_apply applied_answers still_waiting write_next after_append
    after_write serve serve_all in_log in_writing JsMap.get JsMap.has JsMap.set JsMap.delete
program = tt

-- A request that comes again before and after its entry is written.
abbrev again : List Event
again = asked request ∷ asked request ∷ wrote ∷ asked request ∷ applied 1 ∷ asked request ∷ []

abbrev last : Serving
last = serve_all always never 64 nothing_fits idle again

last_log : in_log "k1" last.peer.log.entries ≡ 1
unfolding program
last_log = refl

-- With its entry committed, the request that waits is answered with its index.
applied_answer :
    (apply_to_state_machine
      (record last { peer = record last.peer { commit_index = 1 } })
      1).answers
    ≡ update_applied "k1" 1 ∷ []
unfolding program
applied_answer = refl

idle-IsTruthful : IsTruthful idle
unfolding WaitsFor
idle-IsTruthful = record { logged = create_new_log-IsLog genesis; waits = tt }

serve-AnswersTrue_example : AnswersTrue (serve always never 64 nothing_fits idle (asked request))
serve-AnswersTrue_example =
    serve-AnswersTrue always never 64 nothing_fits idle (asked request) idle-IsTruthful
