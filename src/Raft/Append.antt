-- ===== src/Raft/Append.antt =====
-- `appendEntryHandler` and `installSnapshotHandler` of lib/server/raft_router.js.
use node_zmq_raft.Prelude.{
  ℕ, ◌+◌, ◌≤◌, ◌≡◌, refl, sym, ◌∙◌, subst, Bool, true, false, List, [], ◌∷◌, none, some, String,
  arith, ltb, if◌then◌else◌, Bool-cases, inl, inr, Result, ok, err, >>=-eq-ok, ok-injective, min,
}
use node_zmq_raft.Prelude.JsMap
use node_zmq_raft.Prelude.JsMap.{JsMap, same}
use node_zmq_raft.Cluster.{Config}
use node_zmq_raft.FileLog
use node_zmq_raft.FileLog.{Log, Entry, Snapshot, term_at, is_term, append_entries}
use node_zmq_raft.FileLog.Wellformed.{IsLog}
use node_zmq_raft.FileLog.Writing.{Written, append_entries-Written}
use node_zmq_raft.Raft.{
  Raft, thrown, Reply, append_reply, apply_to_state_machine, AppendReply, follower,
  refresh_election_timeout,
}
use node_zmq_raft.Raft.Router.{
  set_cache, keep_reply, append_matching, finish_append, respond_append, accept_append,
}
use node_zmq_raft.Raft.State.{stored, Alike, update_state-Settled}
use node_zmq_raft.Raft.Events.{
  IsSafe, quiet-IsSafe, quiet_thrown-IsSafe, from_alike-IsSafe, Settled-then-IsSafe,
}

pub keep_reply-Alike :
    (s : Raft) (peer ident : String) (request_id : ℕ) (reply : Reply)
    → Alike s (keep_reply s peer ident request_id reply)
unfolding keep_reply set_cache
keep_reply-Alike s peer ident request_id reply =
    elim (Bool-cases (JsMap.has s.rpc_last_request_ids peer)) [
      | inl e ↦ rw e (record {
        same_id = refl;
        same_term = refl;
        same_voted = refl;
        same_log = refl;
        same_commit = refl;
      })
      | inr e ↦ rw e (record {
        same_id = refl;
        same_term = refl;
        same_voted = refl;
        same_log = refl;
        same_commit = refl;
      })
    ]

-- A vote is dropped for a higher term, and else kept.
pub kept_or_newer :
    (s : Raft) (term : ℕ)
    → term ≡ s.current_term
    → (id : String) → s.voted_for ≡ some id
    → (if ltb s.current_term term then none else s.voted_for) ≡ some id
kept_or_newer s term e id v = rw (not_newer s.current_term term e) v
  where
    not_newer : (a b : ℕ) → b ≡ a → ltb a b ≡ false
    not_newer a b e = ground arith

finish_append-IsSafe :
    (s s0 : Raft) (peer ident : String) (request_id : ℕ) (answer : AppendReply)
    → s.current_term ≡ s0.current_term
    → s.voted_for ≡ s0.voted_for
    → s0.commit_index ≤ s.commit_index
    → IsSafe s0 (finish_append s peer ident request_id answer)
unfolding finish_append refresh_election_timeout stored
finish_append-IsSafe s s0 peer ident request_id answer t v c =
    let alike = keep_reply-Alike s peer ident request_id (append_reply answer) in
    quiet-IsSafe s0 _ _ (alike.same_term ∙ t) (alike.same_voted ∙ v)
      (omega (arith, alike.same_commit)) (applies (ltb s.last_applied s.commit_index))
  where
    applies :
        (b : Bool)
        → stored
            (if b then apply_to_state_machine s.commit_index ∷ [] else [])
            (s0.voted_for, s0.current_term)
          ≡ (s0.voted_for, s0.current_term)
    applies true = refl
    applies false = refl

-- What a matching append changes.
append_matching-eq :
    (expired : String → Bool) (s s' : Raft) (entries : List Entry) (prev_index commit : ℕ)
    → append_matching expired s entries prev_index commit ≡ ok s'
    → (s'.current_term ≡ s.current_term)
      × (s'.voted_for ≡ s.voted_for)
      × (append_entries expired s.log entries (prev_index + 1) ≡ ok s'.log)
      × (s'.commit_index
          ≡ (if ltb s.commit_index commit then min commit (s'.log).last_index else s.commit_index))
unfolding append_matching
append_matching-eq expired s s' entries prev_index commit h =
    let (log, e, w) = >>=-eq-ok (append_entries expired s.log entries (prev_index + 1)) _ h in
    subst
      (λ r.
        (r.current_term ≡ s.current_term)
        × (r.voted_for ≡ s.voted_for)
        × (append_entries expired s.log entries (prev_index + 1) ≡ ok r.log)
        × (r.commit_index ≡ (
            if ltb s.commit_index commit then min commit (r.log).last_index else s.commit_index)))
      (ok-injective w) (refl, refl, e, refl)

commit_grows :
    (before commit last now : ℕ)
    → before ≤ last
    → now ≡ (if ltb before commit then min commit last else before)
    → (before ≤ now) × (now ≤ last)
commit_grows before commit last now h e = ground arith

-- A matching append that is not refused leaves the commit index inside the log and not lower.
pub append_matching-commit :
    (expired : String → Bool) (s s' : Raft) (entries : List Entry) (prev_index commit : ℕ)
    → IsLog s.log
    → s.commit_index ≤ prev_index
    → append_matching expired s entries prev_index commit ≡ ok s'
    → (s.commit_index ≤ s'.commit_index)
      × (s'.commit_index ≤ (s'.log).last_index)
      × (s'.current_term ≡ s.current_term)
      × (s'.voted_for ≡ s.voted_for)
      × Written s.log s'.log entries (prev_index + 1)
unfolding Written
append_matching-commit expired s s' entries prev_index commit h g e =
    let (t, v, a, c) = append_matching-eq expired s s' entries prev_index commit e in
    let (low, high, w) = append_entries-Written expired s.log s'.log entries (prev_index + 1) h a in
    let (up, bound) =
      commit_grows s.commit_index commit (s'.log).last_index s'.commit_index (omega (arith, w.1))
        c in
    (up, bound, t, v, w)

respond_append-IsSafe :
    (expired : String → Bool) (s : Raft) (peer ident : String) (request_id term prev_index : ℕ)
    (matches : Bool) (commit : ℕ) (entries : List Entry)
    → IsLog s.log
    → s.commit_index ≤ prev_index
    → IsSafe s
        (respond_append expired s peer ident request_id term prev_index matches commit entries)
unfolding respond_append stored
respond_append-IsSafe expired s peer ident request_id term prev_index false commit entries h g =
    finish_append-IsSafe s s peer ident request_id _ refl refl (omega arith)
respond_append-IsSafe expired s peer ident request_id term prev_index true commit entries h g =
    go (append_matching expired s entries prev_index commit) refl
  where
    go :
        (r : Result FileLog.Error Raft)
        → append_matching expired s entries prev_index commit ≡ r
        → IsSafe s (elim r [
          | err e ↦ thrown s []
          | ok s' ↦
              finish_append s' peer ident request_id
                (record { reply_term = term; success = true; conflict_index = none })
        ])
    go (err e) k = quiet_thrown-IsSafe s s [] refl refl (omega arith) refl
    go (ok s') k =
        let (up, bound, t, v, w) =
          append_matching-commit expired s s' entries prev_index commit h g k in
        finish_append-IsSafe s' s peer ident request_id _ t v up

module _ (decode_config : List ℕ → Config) (valid_url expired : String → Bool) where
  pub accept_append-IsSafe :
      (s : Raft) (peer ident : String) (request_id term prev_index prev_term commit : ℕ)
      (entries : List Entry)
      → IsLog s.log
      → s.current_term ≤ term
      → IsSafe s (
          accept_append decode_config valid_url expired s peer ident request_id term prev_index
            prev_term commit entries)
  unfolding accept_append stored
  accept_append-IsSafe s peer ident request_id term prev_index prev_term commit entries h up =
      elim (Bool-cases (ltb prev_index s.commit_index)) [
        | inl e ↦ rw e (quiet_thrown-IsSafe s _ [] refl refl (omega arith) refl)
        | inr e ↦ rw e (
            from_alike-IsSafe s (held s) _ refl refl (omega arith) (
              Settled-then-IsSafe (held s) term _ _ _
                (update_state-Settled valid_url (held s) follower term _ _) up
                (kept_or_newer s term)
                (λ s' l c.
                  respond_append-IsSafe expired s' peer ident request_id term prev_index _ commit
                    entries (subst IsLog (sym l) h) (omega (arith, behind e)))))
      ]
    where
      held : Raft → Raft
      held s = record s { election_timeout = false; paused = true; follow_leader_id = some peer }

      behind : ltb prev_index s.commit_index ≡ false → s.commit_index ≤ prev_index
      behind e = ground arith
