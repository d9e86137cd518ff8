-- ===== src/Raft/ChunkReplies.antt =====
-- The replies to `sendInstallSnapshot` of lib/server/raft_leader.js.
use node_zmq_raft.Prelude.{
  ℕ, ◌+◌, ◌<◌, ◌≡◌, refl, Bool, true, ◌&&◌, List, [], Option, none, some, String, arith, ltb, ◌==◌,
  if◌then◌else◌, Bool-cases, inl, inr,
}
use node_zmq_raft.Cluster.{Peer, is_member}
use node_zmq_raft.FileLog.{Snapshot, Log, Entry}
use node_zmq_raft.Raft.{done, Raft, is_leader}
use node_zmq_raft.Raft.Leader.{
  become_follower, chunk_size, send_snapshot, on_install_snapshot_response,
}
use node_zmq_raft.Raft.State.{stored}
use node_zmq_raft.Raft.Events.{IsSafe, quiet-IsSafe}
use node_zmq_raft.Raft.Leading.{become_follower-IsSafe}
use node_zmq_raft.Raft.Commit.{on_append_entries_response-IsSafe}

module _ (valid_url expired : String → Bool) (fits : Log → ℕ → Bool → List Entry)
    (encode : List Peer → List ℕ) (key : String) where
  stored-send_snapshot :
      (s : Raft) (id : String) (snapshot : Snapshot) (closed : Bool) (position : ℕ)
      (held : Option String × ℕ)
      → stored (send_snapshot s id snapshot closed position) held ≡ held
  unfolding send_snapshot stored
  stored-send_snapshot s id snapshot closed position held = refl

  next_chunk-IsSafe :
      (s : Raft) (sent : ℕ) (id : String) (snapshot : Snapshot) (closed : Bool) (next term : ℕ)
      → IsSafe s (
          if ltb s.current_term term
          then become_follower valid_url s term
          else if (s.current_term == sent) && is_leader s.state
          then done s (send_snapshot s id snapshot closed next)
          else done s [])
  unfolding stored
  next_chunk-IsSafe s sent id snapshot closed next term =
      elim (Bool-cases (ltb s.current_term term)) [
        | inl e ↦ rw e (become_follower-IsSafe valid_url s term (higher e))
        | inr e ↦ elim (Bool-cases ((s.current_term == sent) && is_leader s.state)) [
          | inl t ↦
              rw (e, t)
                (quiet-IsSafe s s _ refl refl (omega arith)
                  (stored-send_snapshot s id snapshot closed next (s.voted_for, s.current_term)))
          | inr t ↦ rw (e, t) (quiet-IsSafe s s [] refl refl (omega arith) refl)
        ]
      ]
    where
      higher : ltb s.current_term term ≡ true → s.current_term < term
      higher e = ground arith

  -- The reply to a chunk of a snapshot keeps the promises of the persistent state, as long as the leader
  -- is a member of its cluster.
  pub on_install_snapshot_response-IsSafe :
      (s : Raft) (sent : ℕ) (id : String) (snapshot : Snapshot) (closed : Bool) (position term : ℕ)
      (reposition : Option ℕ)
      → is_member s.cluster s.peer_id ≡ true
      → IsSafe s (
          on_install_snapshot_response valid_url expired fits encode key s sent id snapshot closed
            position term reposition)
  unfolding on_install_snapshot_response
  on_install_snapshot_response-IsSafe s sent id snapshot closed position term (some reposition)
        member =
      next_chunk-IsSafe s sent id snapshot closed reposition term
  on_install_snapshot_response-IsSafe s sent id snapshot closed position term none member =
      elim (Bool-cases (position + chunk_size s snapshot position == snapshot.data_size)) [
        | inl e ↦ rw e (
            on_append_entries_response-IsSafe valid_url expired fits encode key s sent id
              snapshot.log_index snapshot.log_index snapshot.log_term term true none member)
        | inr e ↦ rw e (
            next_chunk-IsSafe s sent id snapshot closed (position + chunk_size s snapshot position)
              term)
      ]
