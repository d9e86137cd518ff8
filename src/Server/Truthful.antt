-- ===== src/Server/Truthful.antt =====
-- Every answer of a serving peer with an index is true, on every event (lib/server/raft_server.js).
use node_zmq_raft.Prelude.{
  ℕ, suc, ◌+◌, ◌≡◌, refl, sym, subst, Bool, ◌||◌, ◌&&◌, List, [], ◌∷◌, Option, none, some, String,
  leb, ltb, ◌==◌, if◌then◌else◌, Result, ok, err, arith, Bool-cases, inl, inr, length,
}
use node_zmq_raft.Prelude.JsMap
use node_zmq_raft.Prelude.JsMap.{JsMap, same}
use node_zmq_raft.FileLog.{Log, Entry, Error, Feed, get_rid, feed_state_machine}
use node_zmq_raft.FileLog.Wellformed.{IsLog, KeyAt}
use node_zmq_raft.FileLog.Writing.{grow, grow-IsLog}
use node_zmq_raft.Raft.{Raft, is_leader}
use node_zmq_raft.Server.{
  Serving, UpdateRequest, Append, Answer, answer, request_update_handler, leader_update,
  apply_to_state_machine, after_apply, write_next, after_append, after_write,
}
use node_zmq_raft.Server.Updates.{
  Event, asked, wrote, applied, serve, Untouched, update_followers_now-Untouched, append_entry-grow,
}
use node_zmq_raft.Server.Once.{written_entry}
use node_zmq_raft.Server.Truth.{
  WaitsFor, IsTrue, AreTrue, IsTruthful, AnswersTrue, Remembered-get, set-WaitsFor, delete-WaitsFor,
  still_waiting-WaitsFor, applied_answers-AreTrue, WaitsFor-grow, grow-KeyAt,
}

-- Answers without an index say nothing of the log.
said :
    (v : Serving) (one : Answer)
    → IsTruthful v
    → IsTrue v.peer.log v.peer.last_applied one
    → AnswersTrue (answer v (one ∷ []))
unfolding AreTrue
said v one t true_one = (t, (true_one, tt))

module _ (sane : String → Bool) (limit : ℕ) where
  leader_update-AnswersTrue :
      (v : Serving) (request : UpdateRequest) (index : Option ℕ)
      → get_rid v.peer.log request.key ≡ index
      → IsTruthful v
      → AnswersTrue (leader_update sane limit v request index)
  unfolding leader_update get_rid AreTrue
  leader_update-AnswersTrue v request none e t = elim (Bool-cases (sane request.key)) [
    | inl d ↦ rw d (
      record {
        logged = t.logged;
        waits = set-WaitsFor v.peer.log request.key v.peer.update_requests none tt t.waits;
      },
      (tt, tt),
    )
    | inr d ↦ rw d (t, (tt, tt))
  ]
  leader_update-AnswersTrue v request (some index) e t =
      let at : KeyAt v.peer.log.entries v.peer.log.base request.key index =
        Remembered-get v.peer.log.entries v.peer.log.base v.peer.log.rdb request.key index
          t.logged.ids e in
      elim (Bool-cases (leb index v.peer.last_applied)) [
        | inl d ↦ rw d (t, ((at, ground arith), tt))
        | inr d ↦ rw d (
          record {
            logged = t.logged;
            waits =
                set-WaitsFor v.peer.log request.key v.peer.update_requests (some index) at t.waits;
          },
          (tt, tt),
        )
      ]

  request_update_handler-AnswersTrue :
      (v : Serving) (request : UpdateRequest)
      → IsTruthful v
      → AnswersTrue (request_update_handler sane limit v request)
  unfolding request_update_handler AreTrue
  request_update_handler-AnswersTrue v request t =
      elim (Bool-cases ((length request.bytes == 0) || ltb limit (length request.bytes))) [
        | inl a ↦ rw a (t, tt)
        | inr a ↦ elim (Bool-cases (request.id_length == 12)) [
          | inr b ↦ rw (a, b) (t, tt)
          | inl b ↦ elim (Bool-cases (is_leader v.peer.state)) [
            | inr c ↦ rw (a, b, c) (t, (tt, tt))
            | inl c ↦ elim (Bool-cases (JsMap.has v.peer.update_requests request.key)) [
              | inl d ↦ rw (a, b, c, d) (t, (tt, tt))
              | inr d ↦
                  rw (a, b, c, d)
                    (leader_update-AnswersTrue v request (get_rid v.peer.log request.key) refl t)
            ]
          ]
        ]
      ]

after_apply-AnswersTrue :
    (v : Serving) (last : ℕ) (r : Result Error Feed)
    → IsTruthful v
    → AnswersTrue (after_apply v last r)
unfolding after_apply AreTrue
after_apply-AnswersTrue v last (err e) t = (t, tt)
after_apply-AnswersTrue v last (ok feed) t = (
  record {
    logged = t.logged;
    waits = still_waiting-WaitsFor v.peer.log last v.peer.update_requests t.waits;
  },
  applied_answers-AreTrue v.peer.log last v.peer.update_requests t.waits,
)

apply_to_state_machine-AnswersTrue :
    (v : Serving) (last : ℕ) → IsTruthful v → AnswersTrue (apply_to_state_machine v last)
unfolding apply_to_state_machine AreTrue
apply_to_state_machine-AnswersTrue v last t =
    elim (Bool-cases (ltb v.peer.commit_index (v.peer.last_applied + 1))) [
      | inl e ↦ rw e (t, tt)
      | inr e ↦ rw e (
          after_apply-AnswersTrue v last
            (feed_state_machine v.peer.log v.peer.last_applied v.peer.commit_index) t)
    ]

Untouched-IsTruthful :
    (s s' : Raft) (writing : List Append)
    → Untouched s s'
    → IsTruthful (record { peer = s; writing = writing })
    → IsTruthful (record { peer = s'; writing = writing })
Untouched-IsTruthful s s' writing u t = record {
  logged = subst IsLog (sym u.same_log) t.logged;
  waits =
      subst (λ m. WaitsFor s'.log m) (sym u.same_requests)
        (subst (λ log. WaitsFor log s.update_requests) (sym u.same_log) t.waits);
}

module _ (expired : String → Bool) (fits : Log → ℕ → Bool → List Entry) where
  after_write-AnswersTrue :
      (v : Serving) (next : Append) (index : ℕ)
      → IsTruthful v
      → KeyAt v.peer.log.entries v.peer.log.base next.key index
      → AnswersTrue (after_write expired fits v next index)
  unfolding after_write AreTrue
  after_write-AnswersTrue v next index t at =
      elim (Bool-cases ((next.term == v.peer.current_term) && is_leader v.peer.state)) [
        | inr e ↦ rw e (t, tt)
        | inl e ↦ elim (Bool-cases (leb index v.peer.last_applied)) [
          | inl d ↦
              rw (e, d)
                (
                  record {
                    logged = t.logged;
                    waits = delete-WaitsFor v.peer.log next.key v.peer.update_requests t.waits;
                  },
                  ((at, ground arith), tt),
                )
          | inr d ↦
              let waiting : JsMap (Option ℕ) =
                if JsMap.has v.peer.update_requests next.key
                then JsMap.set v.peer.update_requests next.key (some index)
                else v.peer.update_requests in
              rw (e, d)
                (
                  Untouched-IsTruthful (record v.peer { update_requests = waiting }) _ v.writing
                      (update_followers_now-Untouched fits
                        (record v.peer { update_requests = waiting }))
                      (record { logged = t.logged; waits = marked }),
                  tt,
                )
        ]
      ]
    where
      marked : WaitsFor v.peer.log (
          if JsMap.has v.peer.update_requests next.key
          then JsMap.set v.peer.update_requests next.key (some index)
          else v.peer.update_requests)
      marked = elim (Bool-cases (JsMap.has v.peer.update_requests next.key)) [
        | inl h ↦
            rw h (set-WaitsFor v.peer.log next.key v.peer.update_requests (some index) at t.waits)
        | inr h ↦ rw h t.waits
      ]

  write_next-AnswersTrue :
      (v : Serving) (writing : List Append)
      → IsTruthful v
      → AnswersTrue (write_next expired fits v writing)
  unfolding write_next after_append AreTrue grow
  write_next-AnswersTrue v [] t = (t, tt)
  write_next-AnswersTrue v (next ∷ rest) t =
      let log = v.peer.log in
      let grown : Log = grow expired log (written_entry next) in
      subst (λ r. AnswersTrue (after_append expired fits v next rest r))
        (sym (
          append_entry-grow expired log (written_entry next)
            (omega (arith, t.logged.after_snapshot, t.logged.covers)) refl))
        (after_write-AnswersTrue (record { peer = record v.peer { log = grown }; writing = rest })
          next (suc log.last_index)
          (record {
            logged = grow-IsLog expired log (written_entry next) t.logged;
            waits = WaitsFor-grow expired log (written_entry next) v.peer.update_requests t.waits;
          })
          (grow-KeyAt expired log next t.logged))

module _ (sane expired : String → Bool) (limit : ℕ) (fits : Log → ℕ → Bool → List Entry) where
  -- From a well-formed log whose waiting requests wait for their own entries: after any event of a
  -- serving peer the same holds, and each answer with an index names an entry of the log that carries
  -- the request's id and is applied.
  pub serve-AnswersTrue :
      (v : Serving) (event : Event)
      → IsTruthful v
      → AnswersTrue (serve sane expired limit fits v event)
  unfolding serve
  serve-AnswersTrue v (asked request) t = request_update_handler-AnswersTrue sane limit v request t
  serve-AnswersTrue v wrote t = write_next-AnswersTrue expired fits v v.writing t
  serve-AnswersTrue v (applied last) t = apply_to_state_machine-AnswersTrue v last t
