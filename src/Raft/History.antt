-- ===== src/Raft/History.antt =====
-- Sequences of events at one peer, restarts included: the messages of lib/server/raft_router.js, the
-- replies and timeouts of lib/server/raft_leader.js.
use node_zmq_raft.Prelude.{
  ℕ, ◌≤◌, ◌<◌, ◌≡◌, ◌⊎◌, inl, inr, Bool-cases, Option-cases, ltb, ltb→lt, false, refl, ap, sym, ◌∙◌,
  Bool, true, List, Option, none, some, String, arith,
}
use node_zmq_raft.Cluster.{Peer, Config, is_member}
use node_zmq_raft.FileLog.{Log, Entry, Snapshot}
use node_zmq_raft.FileLog.Wellformed.{IsLog}
use node_zmq_raft.Raft.{Raft, Outcome, after, effects}
use node_zmq_raft.Raft.Router.{request_vote_handler, append_entry_handler, install_snapshot_handler}
use node_zmq_raft.Raft.Leader.{
  on_election_timeout, on_vote_response, on_append_entries_response, on_install_snapshot_response,
}
use node_zmq_raft.Raft.State.{stored}
use node_zmq_raft.Raft.Events.{IsSafe}
use node_zmq_raft.Raft.Votes.{request_vote_handler-IsSafe}
use node_zmq_raft.Raft.Handlers.{append_entry_handler-IsSafe}
use node_zmq_raft.Raft.Chunks.{install_snapshot_handler-IsSafe}
use node_zmq_raft.Raft.Leading.{on_election_timeout-IsSafe, on_vote_response-IsSafe}
use node_zmq_raft.Raft.Commit.{on_append_entries_response-IsSafe}
use node_zmq_raft.Raft.ChunkReplies.{on_install_snapshot_response-IsSafe}

-- A message, a reply or a timeout.
pub data Event : Type 0 where
  vote_request : String → ℕ → ℕ → ℕ → Event
  append_request : String → String → ℕ → ℕ → ℕ → ℕ → ℕ → List Entry → Event
  snapshot_request : String → String → ℕ → ℕ → Snapshot → ℕ → ℕ → Event
  election_timeout : Event
  vote_response : ℕ → String → ℕ → Bool → Event
  snapshot_response : ℕ → String → Snapshot → Bool → ℕ → ℕ → Option ℕ → Event
  append_response : ℕ → String → ℕ → ℕ → ℕ → ℕ → Bool → Option ℕ → Event

-- What is asked of the state when an event comes.
unfoldable pub Allowed : Raft → Event → Type 0
Allowed s (append_request leader_id ident request_id term prev_index prev_term commit entries) =
    IsLog s.log
Allowed s (append_response sent id prev last last_term term success conflict) =
    is_member s.cluster s.peer_id ≡ true
Allowed s (snapshot_response sent id snapshot closed position term reposition) =
    is_member s.cluster s.peer_id ≡ true
Allowed s event = Unit {0}

-- The later vote and term keep the earlier ones: the term is newer, or it is the same and the vote,
-- if there was one, too.
unfoldable pub KeepsVote : Raft → Raft → Type 0
KeepsVote s s' =
    (s.current_term < s'.current_term)
    ⊎ ((s'.current_term ≡ s.current_term) × ((s.voted_for ≡ none) ⊎ (s'.voted_for ≡ s.voted_for)))

keeps :
    (s s' : Raft)
    → s.current_term ≤ s'.current_term
    → (s'.current_term ≡ s.current_term
        → (id : String) → s.voted_for ≡ some id
        → s'.voted_for ≡ some id)
    → KeepsVote s s'
unfolding KeepsVote
keeps s s' up kept = elim (Bool-cases (ltb s.current_term s'.current_term)) [
  | inl e ↦ inl (ltb→lt s.current_term s'.current_term e)
  | inr e ↦ inr (
    level e,
    elim (Option-cases s.voted_for) [
      | inl n ↦ inl n
      | inr (id, v) ↦ inr (kept (level e) id v ∙ sym v)
    ],
  )
]
  where
    level : ltb s.current_term s'.current_term ≡ false → s'.current_term ≡ s.current_term
    level e = ground arith

module _ (decode : List ℕ → Config) (encode : List Peer → List ℕ)
    (valid_url expired : String → Bool) (fits : Log → ℕ → Bool → List Entry)
    (checkpoint_data : List ℕ) (key : String) where
  -- The handler of an event.
  unfoldable pub handle : Raft → Event → Outcome
  handle s (vote_request id term last_index last_term) =
      request_vote_handler valid_url s id term last_index last_term
  handle s (append_request leader_id ident request_id term prev_index prev_term commit entries) =
      append_entry_handler decode valid_url expired s leader_id ident request_id term prev_index
        prev_term commit entries
  handle s (snapshot_request leader_id ident request_id term snapshot position size) =
      install_snapshot_handler valid_url s leader_id ident request_id term snapshot position size
  handle s election_timeout = on_election_timeout valid_url expired fits checkpoint_data s
  handle s (vote_response sent peer term granted) =
      on_vote_response valid_url expired fits checkpoint_data s sent peer term granted
  handle s (snapshot_response sent id snapshot closed position term reposition) =
      on_install_snapshot_response valid_url expired fits encode key s sent id snapshot closed
        position term reposition
  handle s (append_response sent id prev last last_term term success conflict) =
      on_append_entries_response valid_url expired fits encode key s sent id prev last last_term
        term success conflict

  handle-IsSafe : (s : Raft) (event : Event) → Allowed s event → IsSafe s (handle s event)
  unfolding handle Allowed
  handle-IsSafe s (vote_request id term last_index last_term) a =
      request_vote_handler-IsSafe valid_url s id term last_index last_term
  handle-IsSafe s
        (append_request leader_id ident request_id term prev_index prev_term commit entries) a =
      append_entry_handler-IsSafe decode valid_url expired s leader_id ident request_id term
        prev_index prev_term commit entries a
  handle-IsSafe s (snapshot_request leader_id ident request_id term snapshot position size) a =
      install_snapshot_handler-IsSafe valid_url s leader_id ident request_id term snapshot position
        size
  handle-IsSafe s election_timeout a =
      on_election_timeout-IsSafe valid_url expired fits checkpoint_data s
  handle-IsSafe s (vote_response sent peer term granted) a =
      on_vote_response-IsSafe valid_url expired fits checkpoint_data s sent peer term granted
  handle-IsSafe s (snapshot_response sent id snapshot closed position term reposition) a =
      on_install_snapshot_response-IsSafe valid_url expired fits encode key s sent id snapshot
        closed position term reposition a
  handle-IsSafe s (append_response sent id prev last last_term term success conflict) a =
      on_append_entries_response-IsSafe valid_url expired fits encode key s sent id prev last
        last_term term success conflict a

  -- An event, handled to its end, leaves the term or raises it, and the vote of a term that stays; it does
  -- not lower the commit index; and what it stores is the vote and the term that it leaves. A request to
  -- append comes at a peer with a well-formed log, and a reply to an append or to a chunk of a snapshot at
  -- a peer that is a member of its cluster; the other events come at any peer.
  pub handle-KeepsVote :
      (s : Raft) (event : Event)
      → Allowed s event
      → KeepsVote s (after (handle s event))
        × (s.commit_index ≤ (after (handle s event)).commit_index)
        × (stored (effects (handle s event)) (s.voted_for, s.current_term)
            ≡ ((after (handle s event)).voted_for, (after (handle s event)).current_term))
  handle-KeepsVote s event a =
      let safe = handle-IsSafe s event a in
      (keeps s (after (handle s event)) safe.term_up safe.vote_kept, safe.commit_up, safe.in_store)

  -- A peer and its store after some events and restarts; a peer restarts with the vote and the term
  -- that its store holds, whatever else it starts with.
  pub data History : Raft × (Option String × ℕ) → Raft × (Option String × ℕ) → Type 0 where
    start : (s : Raft) (held : Option String × ℕ) → History (s, held) (s, held)
    handled :
        (s s' : Raft) (held held' : Option String × ℕ) (event : Event)
        → Allowed s' event
        → History (s, held) (s', held')
        → History (s, held) (after (handle s' event), stored (effects (handle s' event)) held')
    restarted :
        (s s' s'' : Raft) (held held' : Option String × ℕ)
        → (s''.voted_for, s''.current_term) ≡ held'
        → History (s, held) (s', held')
        → History (s, held) (s'', held')

  -- What a peer remembers of an earlier state: the term is not lower, and a vote of the same term is
  -- the same vote; and its store holds both.
  unfoldable pub Remembers : Raft × (Option String × ℕ) → Raft × (Option String × ℕ) → Type 0
  Remembers (s, held) (s', held') =
      (s.current_term ≤ s'.current_term)
      × (s'.current_term ≡ s.current_term
          → (id : String) → s.voted_for ≡ some id
          → s'.voted_for ≡ some id)
      × (held' ≡ (s'.voted_for, s'.current_term))

  handled-Remembers :
      (s s' : Raft) (held held' : Option String × ℕ) (event : Event)
      → Allowed s' event
      → Remembers (s, held) (s', held')
      → Remembers (s, held) (after (handle s' event), stored (effects (handle s' event)) held')
  unfolding Remembers
  handled-Remembers s s' held held' event a (t, v, h) =
      let safe = handle-IsSafe s' event a in
      (
        omega (arith, safe.term_up),
        (λ e id k.
            safe.vote_kept (omega (arith, safe.term_up)) id (v (omega (arith, safe.term_up)) id k)),
        ap (stored (effects (handle s' event))) h ∙ safe.in_store,
      )

  restarted-Remembers :
      (s s' s'' : Raft) (held held' : Option String × ℕ)
      → (s''.voted_for, s''.current_term) ≡ held'
      → Remembers (s, held) (s', held')
      → Remembers (s, held) (s'', held')
  unfolding Remembers
  restarted-Remembers s s' s'' held held' e (t, v, h) =
      let same_term = ap (λ p. p.1) (e ∙ h) in
      let same_vote = ap (λ p. p.0) (e ∙ h) in
      (omega arith, (λ f id k. same_vote ∙ v (sym same_term ∙ f) id k), sym e)

  first_state :
      (s : Raft) → Remembers (s, (s.voted_for, s.current_term)) (s, (s.voted_for, s.current_term))
  unfolding Remembers
  first_state s = (omega arith, (λ e id k. k), refl)

  all_Remember :
      (s : Raft) (now : Raft × (Option String × ℕ))
      → History (s, (s.voted_for, s.current_term)) now
      → Remembers (s, (s.voted_for, s.current_term)) now
  all_Remember s now (start s0 held) = first_state s
  all_Remember s now (handled s0 s' held held' event a h) =
      handled-Remembers s s' held held' event a (all_Remember s (s', held') h)
  all_Remember s now (restarted s0 s' s'' held held' e h) =
      restarted-Remembers s s' s'' held held' e (all_Remember s (s', held') h)

  -- Over a sequence of requests, replies and timeouts, each handled to its end before the next, and of
  -- restarts from its store, a peer's term does not go back and in one term it votes for at most one
  -- candidate; and the store holds the vote and the term. This is as long as the peer is a member of its
  -- cluster whenever it handles a reply to an append or to a chunk of a snapshot, and its log is
  -- well-formed whenever it handles a request to append.
  pub one_vote_per_term :
      (s : Raft) (now : Raft × (Option String × ℕ))
      → History (s, (s.voted_for, s.current_term)) now
      → KeepsVote s now.0 × (now.1 ≡ ((now.0).voted_for, (now.0).current_term))
  unfolding Remembers
  one_vote_per_term s now h = let (t, v, w) = all_Remember s now h in (keeps s now.0 t v, w)
