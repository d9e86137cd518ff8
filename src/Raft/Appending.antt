-- ===== src/Raft/Appending.antt =====
-- What `appendEntryHandler` of lib/server/raft_router.js does to the log.
use node_zmq_raft.Prelude.{
  ℕ, ◌+◌, ◌≤◌, ◌≡◌, refl, ap, sym, ◌∙◌, subst, Bool, true, false, List, [], Option, none, some,
  String, arith, ltb, Bool-cases, inl, inr, ◌⊎◌, Result, ok, err,
}
use node_zmq_raft.Cluster.{Config}
use node_zmq_raft.FileLog
use node_zmq_raft.FileLog.{Log, Entry, Snapshot, term_at, is_term, append_entries}
use node_zmq_raft.FileLog.Wellformed.{IsLog}
use node_zmq_raft.FileLog.Writing.{Written}
use node_zmq_raft.Raft.{
  Raft, thrown, after, append_reply, AppendReply, follower, refresh_election_timeout,
}
use node_zmq_raft.Raft.Router.{append_matching, finish_append, respond_append, accept_append}
use node_zmq_raft.Raft.State.{update_state-Settled}
use node_zmq_raft.Raft.Events.{Settled-then-after}
use node_zmq_raft.Raft.Append.{append_matching-commit, keep_reply-Alike}

-- What a request to append may do to the log and the commit index: nothing, or, where the terms match
-- at the previous index and that is not before the commit index, the entries written behind it, with
-- the commit index not lower and inside the log.
unfoldable pub Appended : Raft → ℕ → ℕ → List Entry → Raft → Type 0
Appended s prev_index prev_term entries s' =
    ((s'.log ≡ s.log) × (s'.commit_index ≡ s.commit_index))
    ⊎ ((term_at s.log prev_index ≡ some prev_term)
        × (s.commit_index ≤ prev_index)
        × Written s.log s'.log entries (prev_index + 1)
        × (s.commit_index ≤ s'.commit_index)
        × (s'.commit_index ≤ (s'.log).last_index))

is_term_eq : (t : Option ℕ) (u : ℕ) → is_term t u ≡ true → t ≡ some u
is_term_eq none u h = absurd cc
is_term_eq (some t) u h = ap some (ground arith)

finish_append-log :
    (s : Raft) (peer ident : String) (request_id : ℕ) (answer : AppendReply)
    → ((after (finish_append s peer ident request_id answer)).log ≡ s.log)
      × ((after (finish_append s peer ident request_id answer)).commit_index ≡ s.commit_index)
unfolding finish_append refresh_election_timeout
finish_append-log s peer ident request_id answer =
    let alike = keep_reply-Alike s peer ident request_id (append_reply answer) in
    (alike.same_log, alike.same_commit)

respond_append-Appended :
    (expired : String → Bool) (s : Raft) (peer ident : String)
    (request_id term prev_index prev_term : ℕ) (matches : Bool) (commit : ℕ) (entries : List Entry)
    → IsLog s.log
    → s.commit_index ≤ prev_index
    → (matches ≡ true → term_at s.log prev_index ≡ some prev_term)
    → Appended s prev_index prev_term entries (
        after
          (respond_append expired s peer ident request_id term prev_index matches commit entries))
unfolding respond_append Appended
respond_append-Appended expired s peer ident request_id term prev_index prev_term false commit
      entries h g m =
    inl (finish_append-log s peer ident request_id _)
respond_append-Appended expired s peer ident request_id term prev_index prev_term true commit
      entries h g m =
    go (append_matching expired s entries prev_index commit) refl
  where
    go :
        (r : Result FileLog.Error Raft)
        → append_matching expired s entries prev_index commit ≡ r
        → Appended s prev_index prev_term entries (
            after (elim r [
              | err e ↦ thrown s []
              | ok s' ↦
                  finish_append s' peer ident request_id
                    (record { reply_term = term; success = true; conflict_index = none })
            ]))
    go (err e) k = inl (refl, refl)
    go (ok s') k =
        let (up, bound, t, v, w) =
          append_matching-commit expired s s' entries prev_index commit h g k in
        let (l, c) =
          finish_append-log s' peer ident request_id
            (record { reply_term = term; success = true; conflict_index = none }) in
        inr (
          m refl,
          g,
          subst (λ log. Written s.log log entries (prev_index + 1)) (sym l) w,
          omega (arith, c),
          subst
              (λ log.
                (after (
                  finish_append s' peer ident request_id (record {
                    reply_term = term;
                    success = true;
                    conflict_index = none;
                  }))).commit_index
                ≤ log.last_index)
              (sym l) (omega (arith, c)),
        )

pub kept-Appended :
    (s s' : Raft) (prev_index prev_term : ℕ) (entries : List Entry)
    → s'.log ≡ s.log
    → s'.commit_index ≡ s.commit_index
    → Appended s prev_index prev_term entries s'
unfolding Appended
kept-Appended s s' prev_index prev_term entries l c = inl (l, c)

pub Appended-from :
    (s s1 s' : Raft) (prev_index prev_term : ℕ) (entries : List Entry)
    → s1.log ≡ s.log
    → s1.commit_index ≡ s.commit_index
    → Appended s1 prev_index prev_term entries s'
    → Appended s prev_index prev_term entries s'
unfolding Appended
Appended-from s s1 s' prev_index prev_term entries l c (inl (x, y)) = inl (x ∙ l, y ∙ c)
Appended-from s s1 s' prev_index prev_term entries l c (inr (x, y, w, u, b)) = inr (
  ap (λ log. term_at log prev_index) (sym l) ∙ x,
  omega arith,
  subst (λ log. Written log s'.log entries (prev_index + 1)) l w,
  omega arith,
  b,
)

module _ (decode_config : List ℕ → Config) (valid_url expired : String → Bool) where
  pub accept_append-Appended :
      (s : Raft) (peer ident : String) (request_id term prev_index prev_term commit : ℕ)
      (entries : List Entry)
      → IsLog s.log
      → Appended s prev_index prev_term entries (
          after (
            accept_append decode_config valid_url expired s peer ident request_id term prev_index
              prev_term commit entries))
  unfolding accept_append
  accept_append-Appended s peer ident request_id term prev_index prev_term commit entries h =
      elim (Bool-cases (ltb prev_index s.commit_index)) [
        | inl e ↦ rw e (kept-Appended s (held s) prev_index prev_term entries refl refl)
        | inr e ↦ rw e (
            Settled-then-after (Appended s prev_index prev_term entries) (held s) term _ _ _
              (update_state-Settled valid_url (held s) follower term _ _)
              (λ s' l c. kept-Appended s s' prev_index prev_term entries l c)
              (λ s' l c. Appended-from s s' _ prev_index prev_term entries l c (
                respond_append-Appended expired s' peer ident request_id term prev_index prev_term _
                  commit entries (subst IsLog (sym l) h) (omega (arith, behind e))
                  (λ m.
                    ap (λ log. term_at log prev_index) l
                    ∙ is_term_eq (term_at s.log prev_index) prev_term m))))
      ]
    where
      held : Raft → Raft
      held s = record s { election_timeout = false; paused = true; follow_leader_id = some peer }

      behind : ltb prev_index s.commit_index ≡ false → s.commit_index ≤ prev_index
      behind e = ground arith
