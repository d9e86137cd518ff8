-- ===== src/Server/Updates.antt =====
-- Events of a serving leader, and what its steps leave as it is (lib/server/raft_server.js).
use node_zmq_raft.Prelude.{
  ℕ, ◌+◌, ◌≤◌, ◌≡◌, refl, ◌∙◌, Bool, true, false, List, [], ◌∷◌, Option, none, some, String, leb,
  ltb, ◌==◌, ok, arith, Bool-cases, ◌&&◌, inl, inr, suc,
}
use node_zmq_raft.Prelude.JsMap
use node_zmq_raft.Prelude.JsMap.{JsMap, same, Distinct, set-Distinct, delete-Distinct}
use node_zmq_raft.FileLog.{Log, Entry, append_entry, write_entries, truncate, write}
use node_zmq_raft.FileLog.Writing.{grow}
use node_zmq_raft.Raft.{Raft}
use node_zmq_raft.Raft.Leader.{
  update_followers_now, update_idle, update_one, update_follower, is_armed,
}
use node_zmq_raft.Cluster.{is_sole_master}
use node_zmq_raft.Server.{
  Serving, Served, UpdateRequest, request_update_handler, apply_to_state_machine, write_next,
}

-- What happens to a leader that serves clients: a request of an update, an entry written by the log,
-- an application of what is committed.
pub data Event : Type 0 where
  asked : UpdateRequest → Event
  wrote : Event
  applied : ℕ → Event

module _ (sane expired : String → Bool) (limit : ℕ) (fits : Log → ℕ → Bool → List Entry) where
  unfoldable pub serve : Serving → Event → Served
  unfolding request_update_handler apply_to_state_machine write_next
  serve v (asked request) = request_update_handler sane limit v request
  serve v wrote = write_next expired fits v v.writing
  serve v (applied last) = apply_to_state_machine v last

  unfoldable pub serve_all : Serving → List Event → Serving
  unfolding serve
  serve_all v [] = v
  serve_all v (event ∷ events) = serve_all (serve v event).serving events

-- What a message to the followers leaves.
pub record Untouched (s s' : Raft) : Type 0 where
  pub same_log : s'.log ≡ s.log
  pub same_requests : s'.update_requests ≡ s.update_requests
  pub same_applied : s'.last_applied ≡ s.last_applied

module _ (fits : Log → ℕ → Bool → List Entry) where
  update_follower-Untouched :
      (s : Raft) (id : String) (next : ℕ) (prev_success : Bool)
      → Untouched s (update_follower fits s id next prev_success).0
  unfolding update_follower
  update_follower-Untouched s id next prev_success = elim (Bool-cases (leb next s.log.last_index)) [
    | inl e ↦ rw e (record { same_log = refl; same_requests = refl; same_applied = refl })
    | inr e ↦ elim (Bool-cases (is_armed (JsMap.get s.heartbeats id))) [
      | inl d ↦ rw (e, d) (record { same_log = refl; same_requests = refl; same_applied = refl })
      | inr d ↦ rw (e, d) (record { same_log = refl; same_requests = refl; same_applied = refl })
    ]
  ]

  update_one-Untouched :
      (s : Raft) (id : String) (next : Option ℕ) → Untouched s (update_one fits s id next).0
  unfolding update_one
  update_one-Untouched s id none = record {
    same_log = refl;
    same_requests = refl;
    same_applied = refl;
  }
  update_one-Untouched s id (some next) = update_follower-Untouched s id next true

  Untouched-trans : {s s' s'' : Raft} → Untouched s s' → Untouched s' s'' → Untouched s s''
  Untouched-trans a b = record {
    same_log = b.same_log ∙ a.same_log;
    same_requests = b.same_requests ∙ a.same_requests;
    same_applied = b.same_applied ∙ a.same_applied;
  }

  update_idle-Untouched : (beats : JsMap Bool) (s : Raft) → Untouched s (update_idle fits s beats).0
  unfolding update_idle
  update_idle-Untouched [] s = record { same_log = refl; same_requests = refl; same_applied = refl }
  update_idle-Untouched ((id, armed) ∷ beats) s =
      Untouched-trans (update_one-Untouched s id (JsMap.get s.next_index id))
        (update_idle-Untouched beats (update_one fits s id (JsMap.get s.next_index id)).0)

  pub update_followers_now-Untouched : (s : Raft) → Untouched s (update_followers_now fits s).0
  unfolding update_followers_now
  update_followers_now-Untouched s = elim (Bool-cases (is_sole_master s.cluster)) [
    | inr e ↦ rw e (update_idle-Untouched s.heartbeats s)
    | inl e ↦
        elim (Bool-cases
          (ltb s.commit_index s.log.last_index && (s.log.last_term == s.current_term))) [
            | inl d ↦
                rw (e, d) (record { same_log = refl; same_requests = refl; same_applied = refl })
            | inr d ↦
                rw (e, d) (record { same_log = refl; same_requests = refl; same_applied = refl })
          ]
  ]

-- The log that an entry of a client is written to.
pub append_entry-grow :
    (expired : String → Bool) (log : Log) (entry : Entry)
    → log.first_index ≤ log.last_index + 1
    → leb entry.type 2 ≡ true
    → append_entry expired log entry ≡ ok (grow expired log entry, suc log.last_index)
unfolding append_entry write_entries truncate write grow
append_entry-grow expired log entry room known =
    let low : ltb (log.last_index + 1) log.first_index ≡ false = ground arith in
    let high : ltb (log.last_index + 1) (log.last_index + 1) ≡ false = ground arith in
    let at : (log.last_index + 1 == log.last_index + 1) ≡ true = ground arith in
    rw (known, low, high, at) refl
