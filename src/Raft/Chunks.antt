-- ===== src/Raft/Chunks.antt =====
-- `installSnapshotHandler` of lib/server/raft_router.js.
use node_zmq_raft.Prelude.{
  ℕ, ◌+◌, ◌≤◌, ◌≡◌, refl, ◌∙◌, subst, Bool, true, false, not, [], ◌∷◌, Option, none, some, String,
  arith, ltb, ◌==◌, if◌then◌else◌, Bool-cases, inl, inr, Result, ok, err, ◌>>=◌,
}
use node_zmq_raft.Prelude.JsMap
use node_zmq_raft.Prelude.JsMap.{JsMap, same}
use node_zmq_raft.FileLog
use node_zmq_raft.FileLog.{Log, Entry, Snapshot, term_at, is_term, install_snapshot}
use node_zmq_raft.Raft.{
  Raft, done, thrown, peer_reply, snapshot_reply, follower, refresh_election_timeout,
}
use node_zmq_raft.Raft.Router.{
  Bounce, bounced, fresh, bounce_duplicate, keep_reply, write_chunk, accept_snapshot,
  install_snapshot_handler, same_snapshot,
}
use node_zmq_raft.Raft.State.{stored, update_state-Settled}
use node_zmq_raft.Raft.Events.{
  IsSafe, quiet-IsSafe, quiet_thrown-IsSafe, Settled-IsSafe, from_alike-IsSafe, and_then-IsSafe,
}
use node_zmq_raft.Raft.Append.{keep_reply-Alike, kept_or_newer}
use node_zmq_raft.Raft.Handlers.{Bounced, bounce_duplicate-Bounced, low}

-- Writing a chunk leaves the term, the vote and the commit index.
unfoldable Untouched : Raft → Result FileLog.Error (Raft × Option ℕ) → Type 0
Untouched s (err e) = Unit {0}
Untouched s (ok (s', reposition)) =
    (s'.current_term ≡ s.current_term)
    × (s'.voted_for ≡ s.voted_for)
    × (s'.commit_index ≡ s.commit_index)

write_chunk-Untouched :
    (s : Raft) (snapshot : Snapshot) (position size : ℕ)
    → Untouched s (write_chunk s snapshot position size)
unfolding write_chunk Untouched
write_chunk-Untouched s snapshot position size =
    elim (Bool-cases (not (s.tmp_snapshot_bytes_written == position))) [
      | inl e ↦ rw e (refl, refl, refl)
      | inr e ↦ elim (Bool-cases (position + size == snapshot.data_size)) [
        | inl t ↦ rw (e, t) (installed (install_snapshot s.log snapshot false))
        | inr t ↦ rw (e, t) (refl, refl, refl)
      ]
    ]
  where
    installed :
        (r : Result FileLog.Error Log)
        → Untouched s (
            r >>= λ log. ok (
              record s {
                tmp_snapshot_bytes_written = position + size;
                tmp_snapshot = none;
                log = log;
              },
              none,
            ))
    installed (err e) = tt
    installed (ok log) = (refl, refl, refl)

write_chunk-eq :
    (s s' : Raft) (snapshot : Snapshot) (position size : ℕ) (reposition : Option ℕ)
    → write_chunk s snapshot position size ≡ ok (s', reposition)
    → (s'.current_term ≡ s.current_term)
      × (s'.voted_for ≡ s.voted_for)
      × (s'.commit_index ≡ s.commit_index)
unfolding Untouched
write_chunk-eq s s' snapshot position size reposition h =
    subst (Untouched s) h (write_chunk-Untouched s snapshot position size)

module _ (valid_url : String → Bool) where
  accept_snapshot-IsSafe :
      (s : Raft) (peer ident : String) (request_id term : ℕ) (snapshot : Snapshot)
      (position size : ℕ)
      → s.current_term ≤ term
      → IsSafe s (accept_snapshot valid_url s peer ident request_id term snapshot position size)
  unfolding accept_snapshot refresh_election_timeout stored
  accept_snapshot-IsSafe s peer ident request_id term snapshot position size up =
      elim (Bool-cases (same_snapshot s.tmp_snapshot snapshot)) [
        | inl e ↦ rw e (
            from_alike-IsSafe s (held s) _ refl refl (omega arith) (
              and_then-IsSafe (held s) _ _
                (Settled-IsSafe (held s) term _ _
                  (update_state-Settled valid_url (held s) follower term _ none) up
                  (kept_or_newer s term))
                (λ s'. go s' (write_chunk s' snapshot position size) refl)))
        | inr e ↦ rw e (
            from_alike-IsSafe s (new s) _ refl refl (omega arith) (
              and_then-IsSafe (new s) _ _
                (Settled-IsSafe (new s) term _ _
                  (update_state-Settled valid_url (new s) follower term _ none) up
                  (kept_or_newer s term))
                (λ s'. go s' (write_chunk s' snapshot position size) refl)))
      ]
    where
      held : Raft → Raft
      held s = record s { election_timeout = false; paused = true; follow_leader_id = some peer }

      new : Raft → Raft
      new s = record (held s) { tmp_snapshot = some snapshot; tmp_snapshot_bytes_written = 0 }

      go :
          (s' : Raft) (r : Result FileLog.Error (Raft × Option ℕ))
          → write_chunk s' snapshot position size ≡ r
          → IsSafe s' (elim r [
            | err e ↦ thrown s' []
            | ok (s'', reposition) ↦
                done
                  (record (refresh_election_timeout
                    (keep_reply s'' peer ident request_id (snapshot_reply term reposition))) {
                      paused = false;
                    })
                  (peer_reply (snapshot_reply term reposition) ∷ [])
          ])
      go s' (err e) k = quiet_thrown-IsSafe s' s' [] refl refl (omega arith) refl
      go s' (ok (s'', reposition)) k =
          let (t, v, c) = write_chunk-eq s' s'' snapshot position size reposition k in
          let alike = keep_reply-Alike s'' peer ident request_id (snapshot_reply term reposition) in
          quiet-IsSafe s' _ _ (alike.same_term ∙ t) (alike.same_voted ∙ v)
            (omega (arith, alike.same_commit, c)) refl

  -- A chunk of a snapshot keeps the promises of the persistent state, whatever it brings.
  pub install_snapshot_handler-IsSafe :
      (s : Raft) (leader_id ident : String) (request_id term : ℕ) (snapshot : Snapshot)
      (position size : ℕ)
      → IsSafe s (
          install_snapshot_handler valid_url s leader_id ident request_id term snapshot position
            size)
  unfolding install_snapshot_handler Bounced stored
  install_snapshot_handler-IsSafe s leader_id ident request_id term snapshot position size =
      elim (Bool-cases (JsMap.has s.cluster.peers leader_id)) [
        | inr e ↦ rw e (quiet-IsSafe s s [] refl refl (omega arith) refl)
        | inl e ↦ rw e (
            go (bounce_duplicate s leader_id ident request_id)
              (bounce_duplicate-Bounced s leader_id ident request_id))
      ]
    where
      go :
          (b : Option Bounce)
          → Bounced s b
          → IsSafe s (elim b [
            | none ↦ thrown s []
            | some (bounced replies) ↦ done s replies
            | some (fresh s') ↦
                if ltb term s'.current_term
                then done
                    (keep_reply s' leader_id ident request_id (snapshot_reply s'.current_term none))
                    (peer_reply (snapshot_reply s'.current_term none) ∷ [])
                else accept_snapshot valid_url s' leader_id ident request_id term snapshot position
                    size
          ])
      go none b = quiet_thrown-IsSafe s s [] refl refl (omega arith) refl
      go (some (bounced es)) b =
          quiet-IsSafe s s es refl refl (omega arith) (b (s.voted_for, s.current_term))
      go (some (fresh s')) b = elim (Bool-cases (ltb term s'.current_term)) [
        | inl t ↦ rw t (
            let alike = keep_reply-Alike s' leader_id ident request_id _ in
            quiet-IsSafe s _ _ (alike.same_term ∙ b.same_term) (alike.same_voted ∙ b.same_voted)
              (omega (arith, alike.same_commit, b.same_commit)) refl)
        | inr t ↦ rw t (
            from_alike-IsSafe s s' _ b.same_term b.same_voted (omega (arith, b.same_commit)) (
              accept_snapshot-IsSafe s' leader_id ident request_id term snapshot position size
                (low term s'.current_term t)))
      ]
