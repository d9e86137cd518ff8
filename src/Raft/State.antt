-- ===== src/Raft/State.antt =====
-- What `_updateState` of lib/server/raft.js changes, keeps and persists.
use node_zmq_raft.Prelude.{
  ℕ, ◌≡◌, refl, ap, sym, ◌∙◌, Bool, true, false, not, ◌||◌, List, [], ◌∷◌, ◌++◌, Option, none, some,
  String, ◌==◌, if◌then◌else◌, Result, ok, err, >>=-eq-ok, ok-injective, Bool-cases, inl, inr,
  eq_iff, arith,
}
use node_zmq_raft.Prelude.JsMap.{JsMap, same}
use node_zmq_raft.Cluster
use node_zmq_raft.Cluster.{replace}
use node_zmq_raft.Raft.{
  Raft, Fsm, Outcome, done, thrown, Effect, persist, ConfigUpdate, refuse_all, cancel_pending_rpcs,
  update_config, refused_config, configure, settle, leave, update_state, same_vote, is_candidate,
  is_leader, same_state, emit_state, config_reply, persist_if_config,
}

-- What the effects leave in the store, which held a vote and a term.
unfoldable pub stored : List Effect → Option String × ℕ → Option String × ℕ
stored [] held = held
stored (persist voted_for term config ∷ es) held = stored es (voted_for, term)
stored (e ∷ es) held = stored es held

pub stored-append :
    (es fs : List Effect) (held : Option String × ℕ)
    → stored (es ++ fs) held ≡ stored fs (stored es held)
unfolding stored
stored-append [] fs held = refl
stored-append (persist v t c ∷ es) fs held = stored-append es fs (v, t)
stored-append (e ∷ es) fs held = stored-append es fs held

-- Two states of a peer with the same vote, term, log and indexes.
pub record Alike (s s' : Raft) : Type 0 where
  pub same_id : s'.peer_id ≡ s.peer_id
  pub same_term : s'.current_term ≡ s.current_term
  pub same_voted : s'.voted_for ≡ s.voted_for
  pub same_log : s'.log ≡ s.log
  pub same_commit : s'.commit_index ≡ s.commit_index

stored-refuse_all :
    (m : JsMap (Option ℕ)) (held : Option String × ℕ) → stored (refuse_all m) held ≡ held
unfolding stored
stored-refuse_all [] held = refl
stored-refuse_all ((key, i) ∷ m) held = stored-refuse_all m held

leave-Alike :
    (s : Raft) (held : Option String × ℕ) → Alike s (leave s).0 × (stored (leave s).1 held ≡ held)
unfolding leave cancel_pending_rpcs stored
leave-Alike s held = elim (Bool-cases (is_candidate s.state || is_leader s.state)) [
  | inl e ↦ rw e (
    record {
      same_id = refl;
      same_term = refl;
      same_voted = refl;
      same_log = refl;
      same_commit = refl;
    },
    stored-append (refuse_all s.update_requests) _ held
        ∙ clients s.config_update_reply (stored (refuse_all s.update_requests) held)
        ∙ stored-refuse_all s.update_requests held,
  )
  | inr e ↦ rw e (
    record {
      same_id = refl;
      same_term = refl;
      same_voted = refl;
      same_log = refl;
      same_commit = refl;
    },
    refl,
  )
]
  where
    clients :
        (b : Bool) (held : Option String × ℕ)
        → stored (if b then config_reply 0 ∷ [] else []) held ≡ held
    clients true held = refl
    clients false held = refl

module _ (valid_url : String → Bool) where
  pub update_config-Alike :
      (s s' : Raft) (update : ConfigUpdate) (es : List Effect) (held : Option String × ℕ)
      → update_config valid_url s update ≡ ok (s', es)
      → Alike s s' × (stored es held ≡ held)
  unfolding update_config stored
  update_config-Alike s s' update es held h =
      let (cluster, e, w) = >>=-eq-ok (replace valid_url s.cluster update.config) _ h in
      let same = ok-injective w in
      (
        record {
          same_id = sym (ap (λ p. (p.0).peer_id) same);
          same_term = sym (ap (λ p. (p.0).current_term) same);
          same_voted = sym (ap (λ p. (p.0).voted_for) same);
          same_log = sym (ap (λ p. (p.0).log) same);
          same_commit = sym (ap (λ p. (p.0).commit_index) same);
        },
        sym (ap (λ p. stored p.1 held) same),
      )

  configure-Alike :
      (s s' : Raft) (config : Option ConfigUpdate) (es : List Effect) (held : Option String × ℕ)
      → configure valid_url s config ≡ ok (s', es)
      → Alike s s' × (stored es held ≡ held)
  unfolding configure stored
  configure-Alike s s' none es held h =
      let same = ok-injective h in
      (
        record {
          same_id = sym (ap (λ p. (p.0).peer_id) same);
          same_term = sym (ap (λ p. (p.0).current_term) same);
          same_voted = sym (ap (λ p. (p.0).voted_for) same);
          same_log = sym (ap (λ p. (p.0).log) same);
          same_commit = sym (ap (λ p. (p.0).commit_index) same);
        },
        sym (ap (λ p. stored p.1 held) same),
      )
  configure-Alike s s' (some update) es held h = update_config-Alike s s' update es held h

refused_config-Alike :
    (valid_url : String → Bool) (s s1 : Raft) (config : Option ConfigUpdate)
    → Alike s s1
    → Alike s (refused_config valid_url s1 config)
refused_config-Alike valid_url s s1 none a = a
refused_config-Alike valid_url s s1 (some update) a = record {
  same_id = a.same_id;
  same_term = a.same_term;
  same_voted = a.same_voted;
  same_log = a.same_log;
  same_commit = a.same_commit;
}

same_vote_eq : (a b : Option String) → same_vote a b ≡ true → a ≡ b
same_vote_eq none none h = refl
same_vote_eq none (some b) h = absurd cc
same_vote_eq (some a) none h = absurd cc
same_vote_eq (some a) (some b) h = ap some ((eq_iff a b).0 h)

stored-emit :
    (b : Bool) (state : Fsm) (term : ℕ) (held : Option String × ℕ)
    → stored (if b then emit_state state term ∷ [] else []) held ≡ held
unfolding stored
stored-emit true state term held = refl
stored-emit false state term held = refl

stored-persist_if_config :
    (config : Option ConfigUpdate) (held : Option String × ℕ)
    → stored (persist_if_config config) held ≡ held
unfolding stored
stored-persist_if_config none held = refl
stored-persist_if_config (some update) held = refl

-- What became of a state and its store: the term and the vote as asked for, or, when the handler
-- threw, as they were; the log and the commit index untouched.
unfoldable pub Settled : Raft → ℕ → Option String → Outcome → Type 0
Settled s term voted_for (done s' es) =
    (s'.peer_id ≡ s.peer_id)
    × (s'.current_term ≡ term)
    × (s'.voted_for ≡ voted_for)
    × (s'.log ≡ s.log)
    × (s'.commit_index ≡ s.commit_index)
    × (stored es (s.voted_for, s.current_term) ≡ (voted_for, term))
Settled s term voted_for (thrown s' es) =
    Alike s s' × (stored es (s.voted_for, s.current_term) ≡ (s.voted_for, s.current_term))

settle-stored :
    (prev s : Raft) (state : Fsm) (term : ℕ) (voted_for : Option String)
    (config : Option ConfigUpdate)
    → prev.current_term ≡ s.current_term
    → Settled s term voted_for (
        done
          (settle prev s state term voted_for config).0
          (settle prev s state term voted_for config).1)
unfolding settle Settled stored
settle-stored prev s state term voted_for config e =
    elim (Bool-cases (not (prev.current_term == term) || not (same_vote s.voted_for voted_for))) [
      | inl t ↦ rw t (
        refl,
        refl,
        refl,
        refl,
        refl,
        stored-append
            (if not (same_state prev.state _) || not (prev.current_term == term)
              then emit_state _ term ∷ []
              else [])
            (persist voted_for term config ∷ []) (s.voted_for, s.current_term),
      )
      | inr t ↦ rw t (
        refl,
        sym e ∙ unchanged_term t,
        unchanged_vote t,
        refl,
        refl,
        stored-append (if not (same_state prev.state _) then emit_state _ term ∷ [] else [])
              (persist_if_config config) (s.voted_for, s.current_term)
            ∙ stored-persist_if_config config _
            ∙ stored-emit (not (same_state prev.state _)) _ term (s.voted_for, s.current_term)
            ∙ ap (λ v. (v, s.current_term)) (unchanged_vote t)
            ∙ ap (λ t. (voted_for, t)) (sym e ∙ unchanged_term t),
      )
    ]
  where
    unchanged_term :
        (not (prev.current_term == term) || not (same_vote s.voted_for voted_for)) ≡ false
        → prev.current_term ≡ term
    unchanged_term t = ground arith

    unchanged_vote :
        (not (prev.current_term == term) || not (same_vote s.voted_for voted_for)) ≡ false
        → s.voted_for ≡ voted_for
    unchanged_vote t = same_vote_eq s.voted_for voted_for (ground arith)

stored_at :
    (es : List Effect) (v w : Option String) (t u : ℕ)
    → v ≡ w
    → t ≡ u
    → stored es (v, t) ≡ stored es (w, u)
stored_at es v w t u e f = ap (λ x. stored es (x, t)) e ∙ ap (λ x. stored es (w, x)) f

-- `_updateState` sets the term and the vote it is given, unless the configuration is refused, and
-- leaves in the store what it leaves in the state.
pub update_state-Settled :
    (valid_url : String → Bool) (s : Raft) (state : Fsm) (term : ℕ) (voted_for : Option String)
    (config : Option ConfigUpdate)
    → Settled s term voted_for (update_state valid_url s state term voted_for config)
unfolding update_state Settled
update_state-Settled valid_url s state term voted_for config =
    go (leave s).0 (leave s).1 (leave-Alike s (s.voted_for, s.current_term))
      (configure valid_url (leave s).0 config) refl
  where
    go :
        (s1 : Raft) (es : List Effect)
        → Alike s s1 × (stored es (s.voted_for, s.current_term) ≡ (s.voted_for, s.current_term))
        → (r : Result Cluster.Error (Raft × List Effect)) → configure valid_url s1 config ≡ r
        → Settled s term voted_for (elim r [
          | err e ↦ thrown (refused_config valid_url s1 config) es
          | ok (s2, configured) ↦
              done
                (settle s s2 state term voted_for config).0
                (es ++ configured ++ (settle s s2 state term voted_for config).1)
        ])
    go s1 es (alike, kept) (err e) h = (refused_config-Alike valid_url s s1 config alike, kept)
    go s1 es (alike, kept) (ok (s2, fs)) h =
        let (more, same) =
          configure-Alike valid_url s1 s2 config fs (s.voted_for, s.current_term) h in
        let settled = settle s s2 state term voted_for config in
        let (i, t, v, l, c, w) =
          settle-stored s s2 state term voted_for config (sym (more.same_term ∙ alike.same_term)) in
        (
          i ∙ more.same_id ∙ alike.same_id,
          t,
          v,
          l ∙ more.same_log ∙ alike.same_log,
          c ∙ more.same_commit ∙ alike.same_commit,
          stored-append (es ++ fs) settled.1 (s.voted_for, s.current_term)
              ∙ ap (stored settled.1)
                  (stored-append es fs (s.voted_for, s.current_term) ∙ ap (stored fs) kept ∙ same)
              ∙ stored_at settled.1 s.voted_for s2.voted_for s.current_term s2.current_term
                  (sym (more.same_voted ∙ alike.same_voted))
                  (sym (more.same_term ∙ alike.same_term))
              ∙ w,
        )
