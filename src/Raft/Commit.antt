-- ===== src/Raft/Commit.antt =====
-- `onAppendEntriesResponse` of lib/server/raft_leader.js.
use node_zmq_raft.Prelude.{
  ℕ, ◌+◌, ◌≤◌, ◌<◌, ◌≡◌, refl, ap, ◌∙◌, Bool, true, false, not, ◌&&◌, List, [], ◌∷◌, ◌++◌, Option,
  none, some, String, arith, ltb, leb, ◌==◌, if◌then◌else◌, Bool-cases, inl, inr, Result, ok, err,
}
use node_zmq_raft.Prelude.JsMap
use node_zmq_raft.Prelude.JsMap.{JsMap}
use node_zmq_raft.Cluster
use node_zmq_raft.Cluster.{
  serialize_nc, Peer, plain, is_member, is_transitional, majority_has_log_index,
}
use node_zmq_raft.FileLog
use node_zmq_raft.FileLog.{Snapshot, Log, Entry, append_entry}
use node_zmq_raft.Raft.{
  Raft, Outcome, thrown, prepend, Effect, is_leader, ConfigUpdate, update_config, persist_config,
  persist_index, config_reply, apply_to_state_machine,
}
use node_zmq_raft.Raft.Leader.{
  update_follower, update_followers_now, finish, replicate_new, append_new_cluster, commit,
  next_after_conflict, on_append_entries_response,
}
use node_zmq_raft.Raft.State.{stored, stored-append, Alike, update_config-Alike}
use node_zmq_raft.Raft.Events.{
  IsSafe, quiet-IsSafe, quiet_thrown-IsSafe, from_alike-IsSafe, prepend-IsSafe,
}
use node_zmq_raft.Raft.Leading.{
  Quiet, finish-IsSafe, update_follower-Quiet, update_followers_now-Quiet, become_follower-IsSafe,
}

module _ (valid_url expired : String → Bool) (fits : Log → ℕ → Bool → List Entry)
    (encode : List Peer → List ℕ) (key : String) where
  -- The last part of the step: the follower, if it stays a peer, and the idle ones.
  to_follower-Quiet :
      (s : Raft) (id : String) (next : ℕ)
      → Quiet s (if is_member s.cluster id then update_follower fits s id next true else (s, []))
  unfolding Quiet stored
  to_follower-Quiet s id next = elim (Bool-cases (is_member s.cluster id)) [
    | inl e ↦ rw e (update_follower-Quiet fits s id next true)
    | inr e ↦ rw e (refl, refl, omega arith, λ held. refl)
  ]

  stored-reply :
      (b : Bool) (held : Option String × ℕ)
      → stored (if b then config_reply 1 ∷ [] else []) held ≡ held
  unfolding stored
  stored-reply true held = refl
  stored-reply false held = refl

  replicate_new-IsSafe :
      (s s2 : Raft) (before : List Effect) (id : String) (next index : ℕ)
      → s2.current_term ≡ s.current_term
      → s2.voted_for ≡ s.voted_for
      → s2.commit_index ≡ s.commit_index
      → stored before (s.voted_for, s.current_term) ≡ (s.voted_for, s.current_term)
      → IsSafe s (replicate_new fits s2 before id next index)
  unfolding replicate_new Quiet stored
  replicate_new-IsSafe s s2 before id next index t v c w =
      let first : Raft × List Effect =
        (if is_member s2.cluster id then update_follower fits s2 id next true else (s2, [])) in
      let rest = update_followers_now fits first.0 in
      let (t', v', c', w') = to_follower-Quiet s2 id next in
      let (t'', v'', c'', w'') = update_followers_now-Quiet fits first.0 in
      let held : Option String × ℕ = (s.voted_for, s.current_term) in
      quiet-IsSafe s _ _ (t'' ∙ t' ∙ t) (v'' ∙ v' ∙ v) (omega arith) (
        stored-append before (persist_index index ∷ (first.1 ++ rest.1 ++ _)) held
        ∙ ap (stored (first.1 ++ rest.1 ++ _)) w
        ∙ stored-append (first.1 ++ rest.1) _ held
        ∙ stored-reply (rest.0).config_update_reply (stored (first.1 ++ rest.1) held)
        ∙ stored-append first.1 rest.1 held
        ∙ w'' (stored first.1 held)
        ∙ w' held)

  append_new_cluster-IsSafe :
      (s : Raft) (id : String) (next transitional : ℕ)
      → IsSafe s (append_new_cluster valid_url expired fits encode key s id next transitional)
  unfolding append_new_cluster stored
  append_new_cluster-IsSafe s id next transitional =
      go (update_config valid_url held update)
        (λ s1 es h. update_config-Alike valid_url held s1 update es (s.voted_for, s.current_term) h)
    where
      held : Raft
      held = record s { paused = true }

      update : ConfigUpdate
      update = record {
        config = plain (serialize_nc s.cluster);
        update_request = some key;
        index = none;
      }

      entry : Raft → Entry
      entry s1 = record {
        key = some key;
        type = 1;
        term = s1.current_term;
        bytes = encode (serialize_nc s.cluster);
      }

      appended :
          (s1 : Raft) (es : List Effect)
          → Alike held s1
          → stored es (s.voted_for, s.current_term) ≡ (s.voted_for, s.current_term)
          → (r : Result FileLog.Error (Log × ℕ))
          → IsSafe s (elim r [
            | err e ↦ thrown s1 (es ++ persist_config update ∷ [])
            | ok (log, index) ↦
                replicate_new fits
                  (record s1 { log = log; peers_index = some index; paused = false })
                  (es ++ persist_config update ∷ [])
                  id
                  next
                  index
          ])
      appended s1 es alike w (err e) =
          quiet_thrown-IsSafe s s1 _ alike.same_term alike.same_voted
            (omega (arith, alike.same_commit))
            (stored-append es (persist_config update ∷ []) (s.voted_for, s.current_term) ∙ w)
      appended s1 es alike w (ok (log, index)) =
          replicate_new-IsSafe s (record s1 { log = log; peers_index = some index; paused = false })
            (es ++ persist_config update ∷ []) id next index alike.same_term alike.same_voted
            alike.same_commit
            (stored-append es (persist_config update ∷ []) (s.voted_for, s.current_term) ∙ w)

      go :
          (r : Result Cluster.Error (Raft × List Effect))
          → ((s1 : Raft) (es : List Effect)
              → r ≡ ok (s1, es)
              → Alike held s1
                × (stored es (s.voted_for, s.current_term) ≡ (s.voted_for, s.current_term)))
          → IsSafe s (elim r [
            | err e ↦ thrown held []
            | ok (s1, configured) ↦ elim (append_entry expired s1.log (entry s1)) [
              | err e ↦ thrown s1 (configured ++ persist_config update ∷ [])
              | ok (log, index) ↦
                  replicate_new fits
                    (record s1 { log = log; peers_index = some index; paused = false })
                    (configured ++ persist_config update ∷ [])
                    id
                    next
                    index
            ]
          ])
      go (err e) k = quiet_thrown-IsSafe s held [] refl refl (omega arith) refl
      go (ok (s1, es)) k =
          let (alike, w) = k s1 es refl in
          appended s1 es alike w (append_entry expired s1.log (entry s1))

  commit-IsSafe :
      (s : Raft) (id : String) (term index next : ℕ)
      → s.commit_index ≤ index
      → is_member s.cluster s.peer_id ≡ true
      → IsSafe s (commit valid_url expired fits encode key s id term index next)
  unfolding commit stored
  commit-IsSafe s id term index next up member =
      rw member (go (if is_transitional s.cluster then s.peers_index else none))
    where
      raised : Raft
      raised = record s { commit_index = index }

      apply : List Effect
      apply = if ltb s.last_applied index then apply_to_state_machine index ∷ [] else []

      applied :
          (b : Bool)
          → stored
              (if b then apply_to_state_machine index ∷ [] else [])
              (s.voted_for, s.current_term)
            ≡ (s.voted_for, s.current_term)
      applied true = refl
      applied false = refl

      lifted : (o : Outcome) → IsSafe raised o → IsSafe s (prepend apply o)
      lifted o h =
          prepend-IsSafe s raised apply o
            (quiet-IsSafe s raised apply refl refl up (applied (ltb s.last_applied index))) h

      go :
          (i : Option ℕ)
          → IsSafe s (elim i [
            | none ↦ prepend apply (finish (update_follower fits raised id next true))
            | some i ↦
                if leb i index
                then prepend apply
                    (append_new_cluster valid_url expired fits encode key raised id next i)
                else prepend apply (finish (update_follower fits raised id next true))
          ])
      go none = lifted _ (finish-IsSafe raised _ (update_follower-Quiet fits raised id next true))
      go (some i) = elim (Bool-cases (leb i index)) [
        | inl e ↦ rw e (lifted _ (append_new_cluster-IsSafe raised id next i))
        | inr e ↦
            rw e
              (lifted _ (finish-IsSafe raised _ (update_follower-Quiet fits raised id next true)))
      ]

  -- The reply to an AppendEntries request keeps the promises of the persistent state, as long as the
  -- leader is a member of its cluster.
  pub on_append_entries_response-IsSafe :
      (s : Raft) (sent : ℕ) (id : String) (prev last last_term term : ℕ) (success : Bool)
      (conflict : Option ℕ)
      → is_member s.cluster s.peer_id ≡ true
      → IsSafe s (
          on_append_entries_response valid_url expired fits encode key s sent id prev last last_term
            term success conflict)
  unfolding on_append_entries_response stored
  on_append_entries_response-IsSafe s sent id prev last last_term term success conflict member =
      elim (Bool-cases (ltb s.current_term term)) [
        | inl e ↦ rw e (become_follower-IsSafe valid_url s term (higher s.current_term term e))
        | inr e ↦ elim (Bool-cases (not ((s.current_term == sent) && is_leader s.state))) [
          | inl t ↦ rw (e, t) (quiet-IsSafe s s [] refl refl (omega arith) refl)
          | inr t ↦ rw (e, t) (replied success)
        ]
      ]
    where
      higher : (a b : ℕ) → ltb a b ≡ true → a < b
      higher a b e = ground arith

      matched : Raft
      matched = record s {
        match_index = JsMap.set s.match_index id last;
        match_term = JsMap.set s.match_term id last_term;
        next_index = JsMap.set s.next_index id (last + 1);
      }

      committing : Bool
      committing =
          (last_term == sent)
          && (ltb s.commit_index last && majority_has_log_index s.cluster last matched.match_index)

      later : committing ≡ true → s.commit_index ≤ last
      later c = ground arith

      retried : Raft
      retried = record s {
        next_index = JsMap.set s.next_index id (next_after_conflict s.log prev conflict);
      }

      replied :
          (success : Bool)
          → IsSafe s (
              if success
              then (if committing
                  then commit valid_url expired fits encode key matched id term last (last + 1)
                  else finish (update_follower fits matched id (last + 1) true))
              else finish
                  (update_follower fits retried id (next_after_conflict s.log prev conflict) false))
      replied true = elim (Bool-cases committing) [
        | inl c ↦ rw c (
            from_alike-IsSafe s matched _ refl refl (omega arith)
              (commit-IsSafe matched id term last (last + 1) (later c) member))
        | inr c ↦ rw c (
            from_alike-IsSafe s matched _ refl refl (omega arith)
              (finish-IsSafe matched _ (update_follower-Quiet fits matched id (last + 1) true)))
      ]
      replied false = from_alike-IsSafe s retried _ refl refl (omega arith) (
          finish-IsSafe retried _
            (update_follower-Quiet fits retried id (next_after_conflict s.log prev conflict) false))
