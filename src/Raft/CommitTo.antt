-- ===== src/Raft/CommitTo.antt =====
-- Up to where a leader commits: what follows the commit in lib/server/raft_leader.js changes the commit
-- index no more, unless the peer is alone in the cluster it goes over to.
use node_zmq_raft.Prelude.{
  ℕ, ◌≡◌, refl, ◌∙◌, sym, subst, Bool, true, false, ◌&&◌, List, [], ◌∷◌, ◌++◌, Option, none, some,
  String, arith, ltb, leb, ◌==◌, if◌then◌else◌, Bool-cases, inl, inr, ◌⊎◌, Result, ok, err,
}
use node_zmq_raft.Prelude.JsMap
use node_zmq_raft.Prelude.JsMap.{JsMap}
use node_zmq_raft.Cluster
use node_zmq_raft.Cluster.{Peer, plain, serialize_nc, is_member, is_transitional, is_sole_master}
use node_zmq_raft.FileLog
use node_zmq_raft.FileLog.{Log, Entry, append_entry}
use node_zmq_raft.Raft.{
  Raft, Outcome, done, thrown, after, prepend, Effect, ConfigUpdate, update_config, persist_config,
  apply_to_state_machine, follower, refresh_election_timeout,
}
use node_zmq_raft.Raft.Leader.{
  is_armed, become_follower, update_follower, update_one, update_idle, update_followers_now, finish,
  replicate_new, append_new_cluster, commit,
}
use node_zmq_raft.Raft.State.{Settled, update_state-Settled, Alike, update_config-Alike}

Settled-commit :
    (s : Raft) (term : ℕ) (voted_for : Option String) (o : Outcome)
    → Settled s term voted_for o
    → (after o).commit_index ≡ s.commit_index
unfolding Settled
Settled-commit s term voted_for (done s' es) (i, t, v, l, c, w) = c
Settled-commit s term voted_for (thrown s' es) (alike, w) = alike.same_commit

pub become_follower-commit :
    (valid_url : String → Bool) (s : Raft) (term : ℕ)
    → (after (become_follower valid_url s term)).commit_index ≡ s.commit_index
unfolding become_follower refresh_election_timeout
become_follower-commit valid_url s term =
    Settled-commit (refresh_election_timeout (record s { follow_leader_id = none })) term none _ (
      update_state-Settled valid_url
        (refresh_election_timeout (record s { follow_leader_id = none })) follower term none none)

pub update_follower-commit :
    (fits : Log → ℕ → Bool → List Entry) (s : Raft) (id : String) (next : ℕ) (success : Bool)
    → (after (finish (update_follower fits s id next success))).commit_index ≡ s.commit_index
unfolding update_follower
update_follower-commit fits s id next success = elim (Bool-cases (leb next s.log.last_index)) [
  | inl e ↦ rw e refl
  | inr e ↦ rw e (elim (Bool-cases (is_armed (JsMap.get s.heartbeats id))) [
    | inl t ↦ rw t refl
    | inr t ↦ rw t refl
  ])
]

-- The commit index is the one given, or the peer is the only member of its cluster and has committed all
-- of its log, which ends in its own term.
unfoldable pub CommitsTo : ℕ → Raft → Type 0
CommitsTo index s =
    (s.commit_index ≡ index)
    ⊎ ((is_sole_master s.cluster ≡ true)
        × (s.log.last_term ≡ s.current_term)
        × (s.commit_index ≡ s.log.last_index))

after-prepend : (es : List Effect) (o : Outcome) → after (prepend es o) ≡ after o
after-prepend es (done s fs) = refl
after-prepend es (thrown s fs) = refl

module _ (fits : Log → ℕ → Bool → List Entry) where
  update_idle-commit :
      (s : Raft) (beats : JsMap Bool) → (update_idle fits s beats).0.commit_index ≡ s.commit_index
  unfolding update_idle
  update_idle-commit s [] = refl
  update_idle-commit s ((id, armed) ∷ beats) =
      update_idle-commit (update_one fits s id (JsMap.get s.next_index id)).0 beats
      ∙ one (JsMap.get s.next_index id)
    where
      one : (next : Option ℕ) → (update_one fits s id next).0.commit_index ≡ s.commit_index
      one none = unfold update_one in refl
      one (some next) = unfold update_one in update_follower-commit fits s id next true

  update_followers_now-CommitsTo :
      (s : Raft) → CommitsTo s.commit_index (update_followers_now fits s).0
  unfolding update_followers_now CommitsTo
  update_followers_now-CommitsTo s = elim (Bool-cases (is_sole_master s.cluster)) [
    | inr e ↦ rw e (inl (update_idle-commit s s.heartbeats))
    | inl e ↦
        elim (Bool-cases
          (ltb s.commit_index s.log.last_index && (s.log.last_term == s.current_term))) [
            | inl t ↦ rw (e, t) (inr (e, ground (arith, t), refl))
            | inr t ↦ rw (e, t) (inl refl)
          ]
  ]

  to_follower-commit :
      (s : Raft) (id : String) (next : ℕ)
      → (if is_member s.cluster id
          then update_follower fits s id next true
          else (s, [])).0.commit_index
        ≡ s.commit_index
  to_follower-commit s id next = elim (Bool-cases (is_member s.cluster id)) [
    | inl e ↦ rw e (update_follower-commit fits s id next true)
    | inr e ↦ rw e refl
  ]

  replicate_new-CommitsTo :
      (s : Raft) (before : List Effect) (id : String) (next index : ℕ)
      → CommitsTo s.commit_index (after (replicate_new fits s before id next index))
  unfolding replicate_new CommitsTo
  replicate_new-CommitsTo s before id next index = elim (update_followers_now-CommitsTo first) [
    | inl c ↦ inl (c ∙ to_follower-commit s id next)
    | inr sole ↦ inr sole
  ]
    where
      first : Raft
      first = (if is_member s.cluster id then update_follower fits s id next true else (s, [])).0

module _ (valid_url expired : String → Bool) (fits : Log → ℕ → Bool → List Entry)
    (encode : List Peer → List ℕ) (key : String) where
  append_new_cluster-CommitsTo :
      (s : Raft) (id : String) (next transitional : ℕ)
      → CommitsTo s.commit_index
          (after (append_new_cluster valid_url expired fits encode key s id next transitional))
  unfolding append_new_cluster CommitsTo
  append_new_cluster-CommitsTo s id next transitional =
      go (update_config valid_url held update)
        (λ s1 es h. (update_config-Alike valid_url held s1 update es (none, 0) h).0)
    where
      held : Raft
      held = record s { paused = true }

      update : ConfigUpdate
      update = record {
        config = plain (serialize_nc s.cluster);
        update_request = some key;
        index = none;
      }

      entry : Raft → Entry
      entry s1 = record {
        key = some key;
        type = 1;
        term = s1.current_term;
        bytes = encode (serialize_nc s.cluster);
      }

      appended :
          (s1 : Raft) (before : List Effect)
          → Alike held s1
          → (r : Result FileLog.Error (Log × ℕ))
          → CommitsTo s.commit_index (
              after (elim r [
                | err e ↦ thrown s1 before
                | ok (log, index) ↦
                    replicate_new fits
                      (record s1 { log = log; peers_index = some index; paused = false })
                      before
                      id
                      next
                      index
              ]))
      appended s1 before alike (err e) = inl alike.same_commit
      appended s1 before alike (ok (log, index)) =
          subst
            (λ n. CommitsTo n (
              after (
                replicate_new fits
                  (record s1 { log = log; peers_index = some index; paused = false }) before id next
                  index)))
            alike.same_commit
            (replicate_new-CommitsTo fits
              (record s1 { log = log; peers_index = some index; paused = false }) before id next
              index)

      go :
          (r : Result Cluster.Error (Raft × List Effect))
          → ((s1 : Raft) (es : List Effect) → r ≡ ok (s1, es) → Alike held s1)
          → CommitsTo s.commit_index (
              after (elim r [
                | err e ↦ thrown held []
                | ok (s1, configured) ↦ elim (append_entry expired s1.log (entry s1)) [
                  | err e ↦ thrown s1 (configured ++ persist_config update ∷ [])
                  | ok (log, index) ↦
                      replicate_new fits
                        (record s1 { log = log; peers_index = some index; paused = false })
                        (configured ++ persist_config update ∷ [])
                        id
                        next
                        index
                ]
              ]))
      go (err e) k = inl refl
      go (ok (s1, es)) k =
          appended s1 (es ++ persist_config update ∷ []) (k s1 es refl)
            (append_entry expired s1.log (entry s1))

  pub commit-CommitsTo :
      (s : Raft) (id : String) (term index next : ℕ)
      → CommitsTo index (after (commit valid_url expired fits encode key s id term index next))
  unfolding commit CommitsTo
  commit-CommitsTo s id term index next = elim (Bool-cases (is_member s.cluster s.peer_id)) [
    | inr e ↦ rw e (
        lifted (become_follower valid_url raised term)
          (inl (become_follower-commit valid_url raised term)))
    | inl e ↦ rw e (go (if is_transitional s.cluster then s.peers_index else none))
  ]
    where
      raised : Raft
      raised = record s { commit_index = index }

      apply : List Effect
      apply = if ltb s.last_applied index then apply_to_state_machine index ∷ [] else []

      lifted : (o : Outcome) → CommitsTo index (after o) → CommitsTo index (after (prepend apply o))
      lifted o h = subst (CommitsTo index) (sym (after-prepend apply o)) h

      go :
          (i : Option ℕ)
          → CommitsTo index (
              after (elim i [
                | none ↦ prepend apply (finish (update_follower fits raised id next true))
                | some i ↦
                    if leb i index
                    then prepend apply
                        (append_new_cluster valid_url expired fits encode key raised id next i)
                    else prepend apply (finish (update_follower fits raised id next true))
              ]))
      go none =
          lifted (finish (update_follower fits raised id next true))
            (inl (update_follower-commit fits raised id next true))
      go (some i) = elim (Bool-cases (leb i index)) [
        | inl e ↦ rw e (
            lifted (append_new_cluster valid_url expired fits encode key raised id next i)
              (append_new_cluster-CommitsTo raised id next i))
        | inr e ↦ rw e (
            lifted (finish (update_follower fits raised id next true))
              (inl (update_follower-commit fits raised id next true)))
      ]
