-- ===== src/Raft/Handlers.antt =====
-- The whole handlers of lib/server/raft_router.js for AppendEntries and InstallSnapshot.
use node_zmq_raft.Prelude.{
  ℕ, ◌≤◌, ◌≡◌, refl, sym, ◌∙◌, subst, Bool, false, ◌&&◌, List, [], ◌∷◌, Option, none, some, String,
  arith, ltb, if◌then◌else◌, Bool-cases, inl, inr,
}
use node_zmq_raft.Prelude.JsMap
use node_zmq_raft.Prelude.JsMap.{JsMap, same}
use node_zmq_raft.Cluster.{Config}
use node_zmq_raft.FileLog.{Entry}
use node_zmq_raft.FileLog.Wellformed.{IsLog}
use node_zmq_raft.Raft.{Raft, done, thrown, after, Reply, peer_reply, append_reply, Cache}
use node_zmq_raft.Raft.Router.{
  Bounce, bounced, fresh, last_reply, set_cache, bounce_duplicate, keep_reply, accept_append,
  same_id, append_entry_handler,
}
use node_zmq_raft.Raft.State.{stored, Alike}
use node_zmq_raft.Raft.Events.{IsSafe, quiet-IsSafe, quiet_thrown-IsSafe, from_alike-IsSafe}
use node_zmq_raft.Raft.Append.{keep_reply-Alike, accept_append-IsSafe}
use node_zmq_raft.Raft.Appending.{accept_append-Appended, Appended, kept-Appended, Appended-from}

stored-last_reply :
    (r : Option Reply) (held : Option String × ℕ) → stored (last_reply r) held ≡ held
unfolding stored
stored-last_reply none held = refl
stored-last_reply (some r) held = refl

-- What the debounce cache says of a request, and that it changes nothing but the cache.
unfoldable pub Bounced : Raft → Option Bounce → Type 0
Bounced s none = Unit {0}
Bounced s (some (bounced es)) = (held : Option String × ℕ) → stored es held ≡ held
Bounced s (some (fresh s')) = Alike s s'

pub bounce_duplicate-Bounced :
    (s : Raft) (peer ident : String) (request_id : ℕ)
    → Bounced s (bounce_duplicate s peer ident request_id)
unfolding bounce_duplicate set_cache Bounced
bounce_duplicate-Bounced s peer ident request_id = go (JsMap.get s.rpc_last_request_ids peer)
  where
    go :
        (c : Option Cache)
        → Bounced s (elim c [
          | none ↦ none
          | some cache ↦
              if same_id cache.request_id request_id && same cache.ident ident
              then some (bounced (last_reply cache.last_replied))
              else some (
                  fresh (
                    set_cache s peer (record {
                      ident = ident;
                      request_id = some request_id;
                      last_replied = none;
                    })))
        ])
    go none = tt
    go (some cache) =
        elim (Bool-cases (same_id cache.request_id request_id && same cache.ident ident)) [
          | inl e ↦ rw e (λ held. stored-last_reply cache.last_replied held)
          | inr e ↦ rw e (record {
            same_id = refl;
            same_term = refl;
            same_voted = refl;
            same_log = refl;
            same_commit = refl;
          })
        ]

pub low : (a b : ℕ) → ltb a b ≡ false → b ≤ a
low a b t = ground arith

module _ (decode_config : List ℕ → Config) (valid_url expired : String → Bool) where
  -- A request to append keeps the promises of the persistent state, whatever it brings: the term and
  -- the commit index do not go back, the vote of a term stays, and the store holds both.
  pub append_entry_handler-IsSafe :
      (s : Raft) (leader_id ident : String) (request_id term prev_index prev_term commit : ℕ)
      (entries : List Entry)
      → IsLog s.log
      → IsSafe s (
          append_entry_handler decode_config valid_url expired s leader_id ident request_id term
            prev_index prev_term commit entries)
  unfolding append_entry_handler Bounced stored
  append_entry_handler-IsSafe s leader_id ident request_id term prev_index prev_term commit entries
        h =
      elim (Bool-cases (JsMap.has s.cluster.peers leader_id)) [
        | inr e ↦ rw e (quiet-IsSafe s s [] refl refl (omega arith) refl)
        | inl e ↦ rw e (
            go (bounce_duplicate s leader_id ident request_id)
              (bounce_duplicate-Bounced s leader_id ident request_id))
      ]
    where
      go :
          (b : Option Bounce)
          → Bounced s b
          → IsSafe s (elim b [
            | none ↦ thrown s []
            | some (bounced replies) ↦ done s replies
            | some (fresh s') ↦
                if ltb term s'.current_term
                then (let reply = append_reply (record {
                  reply_term = s'.current_term;
                  success = false;
                  conflict_index = none;
                }) in
                    done (keep_reply s' leader_id ident request_id reply) (peer_reply reply ∷ []))
                else accept_append decode_config valid_url expired s' leader_id ident request_id
                    term prev_index prev_term commit entries
          ])
      go none b = quiet_thrown-IsSafe s s [] refl refl (omega arith) refl
      go (some (bounced es)) b =
          quiet-IsSafe s s es refl refl (omega arith) (b (s.voted_for, s.current_term))
      go (some (fresh s')) b = elim (Bool-cases (ltb term s'.current_term)) [
        | inl t ↦ rw t (
            let alike = keep_reply-Alike s' leader_id ident request_id _ in
            quiet-IsSafe s _ _ (alike.same_term ∙ b.same_term) (alike.same_voted ∙ b.same_voted)
              (omega (arith, alike.same_commit, b.same_commit)) refl)
        | inr t ↦ rw t (
            from_alike-IsSafe s s' _ b.same_term b.same_voted (omega (arith, b.same_commit)) (
              accept_append-IsSafe decode_config valid_url expired s' leader_id ident request_id
                term prev_index prev_term commit entries (subst IsLog (sym b.same_log) h)
                (low term s'.current_term t)))
      ]

  -- A request to append leaves the log and the commit index as they are, or its previous entry is in
  -- the log with its term, not before the commit index, and its entries stand behind that one and
  -- nothing else does; the commit index is then not lower, and inside the log.
  pub append_entry_handler-Appended :
      (s : Raft) (leader_id ident : String) (request_id term prev_index prev_term commit : ℕ)
      (entries : List Entry)
      → IsLog s.log
      → Appended s prev_index prev_term entries (
          after (
            append_entry_handler decode_config valid_url expired s leader_id ident request_id term
              prev_index prev_term commit entries))
  unfolding append_entry_handler Bounced
  append_entry_handler-Appended s leader_id ident request_id term prev_index prev_term commit
        entries h =
      elim (Bool-cases (JsMap.has s.cluster.peers leader_id)) [
        | inr e ↦ rw e (kept-Appended s s prev_index prev_term entries refl refl)
        | inl e ↦ rw e (
            go (bounce_duplicate s leader_id ident request_id)
              (bounce_duplicate-Bounced s leader_id ident request_id))
      ]
    where
      go :
          (b : Option Bounce)
          → Bounced s b
          → Appended s prev_index prev_term entries (
              after (elim b [
                | none ↦ thrown s []
                | some (bounced replies) ↦ done s replies
                | some (fresh s') ↦
                    if ltb term s'.current_term
                    then (let reply = append_reply (record {
                      reply_term = s'.current_term;
                      success = false;
                      conflict_index = none;
                    }) in
                        done
                          (keep_reply s' leader_id ident request_id reply)
                          (peer_reply reply ∷ []))
                    else accept_append decode_config valid_url expired s' leader_id ident request_id
                        term prev_index prev_term commit entries
              ]))
      go none b = kept-Appended s s prev_index prev_term entries refl refl
      go (some (bounced es)) b = kept-Appended s s prev_index prev_term entries refl refl
      go (some (fresh s')) b = elim (Bool-cases (ltb term s'.current_term)) [
        | inl t ↦ rw t (
            let alike = keep_reply-Alike s' leader_id ident request_id _ in
            kept-Appended s _ prev_index prev_term entries (alike.same_log ∙ b.same_log)
              (alike.same_commit ∙ b.same_commit))
        | inr t ↦ rw t (
            Appended-from s s' _ prev_index prev_term entries b.same_log b.same_commit (
              accept_append-Appended decode_config valid_url expired s' leader_id ident request_id
                term prev_index prev_term commit entries (subst IsLog (sym b.same_log) h)))
      ]
