-- ===== src/Server/Conversation.antt =====
-- A stream of `requestEntriesHandler` of lib/server/raft_server.js over chunks from the log and
-- confirmations from the client, in any order.
use node_zmq_raft.Prelude.{
  ℕ, suc, ◌+◌, ◌≤◌, ◌≡◌, refl, sym, ap, ◌∙◌, subst, true, List, [], ◌∷◌, ◌++◌, append_assoc,
  append-nil, length, Option, if◌then◌else◌, arith, Bool-cases, inl, inr,
}
use node_zmq_raft.Server.Stream.{Stream, Chunk, new_stream, on_data, on_end, request}
use node_zmq_raft.Server.Streaming.{chunks, total, total-append, IsNumbered, IsInOrder}
use node_zmq_raft.Server.Delivery.{
  idle-IsInOrder, same-IsInOrder, on_data-IsInOrder, request-IsInOrder,
}

-- The log delivers a chunk or is done, or the client confirms up to an index and asks for a count.
pub data Event (A : Type 0) : Type 0 where
  arrived : List A → Event A
  ended : Event A
  confirmed : ℕ → Option ℕ → Event A

module _ {A : Type 0} where
  -- The chunks that arrive, and how many confirmations there are.
  abbrev pub arrivals : List (Event A) → List (List A)
  arrivals [] = []
  arrivals (arrived entries ∷ events) = entries ∷ arrivals events
  arrivals (ended ∷ events) = arrivals events
  arrivals (confirmed prev_index count ∷ events) = arrivals events

  abbrev pub confirmations : List (Event A) → ℕ
  confirmations [] = 0
  confirmations (arrived entries ∷ events) = confirmations events
  confirmations (ended ∷ events) = confirmations events
  confirmations (confirmed prev_index count ∷ events) = suc (confirmations events)

  pub arrivals-cons :
      (event : Event A) (events : List (Event A))
      → arrivals (event ∷ events) ≡ arrivals (event ∷ []) ++ arrivals events
  arrivals-cons (arrived entries) events = refl
  arrivals-cons ended events = refl
  arrivals-cons (confirmed prev_index count) events = refl

  pub confirmations-cons :
      (event : Event A) (events : List (Event A))
      → confirmations (event ∷ events) ≡ confirmations (event ∷ []) + confirmations events
  confirmations-cons (arrived entries) events = omega arith
  confirmations-cons ended events = omega arith
  confirmations-cons (confirmed prev_index count) events = omega arith

module _ {A : Type 0} (size : A → ℕ) (large limit : ℕ) where
  unfoldable pub take_event : Stream A → Event A → Stream A × List (Chunk A)
  unfolding on_data on_end request
  take_event s (arrived entries) = on_data size large limit s entries
  take_event s ended = (on_end s, [])
  take_event s (confirmed prev_index count) =
      let (next, replies, handled) = request limit s prev_index count in (next, replies)

  -- A stream that is not active any more has no listeners and takes no confirmation.
  unfoldable pub stream_step : Stream A → Event A → Stream A × List (Chunk A)
  unfolding take_event
  stream_step s event = if s.active then take_event s event else (s, [])

  unfoldable pub stream_run : Stream A → List (Event A) → Stream A × List (Chunk A)
  unfolding stream_step
  stream_run s [] = (s, [])
  stream_run s (event ∷ events) =
      let (next, replies) = stream_step s event in
      let (final, more) = stream_run next events in (final, replies ++ more)

module _ {A : Type 0} (size : A → ℕ) (large limit start last : ℕ) where
  -- A stream and what it has sent, with the chunks delivered and the confirmations.
  unfoldable pub IsGood : Stream A × List (Chunk A) → List (Chunk A) → List (List A) → ℕ → Type 0
  IsGood out replies delivered held =
      IsInOrder limit start last out.0 (replies ++ out.1) delivered held

  pub take_event-IsGood :
      (s : Stream A) (replies : List (Chunk A)) (delivered : List (List A)) (held : ℕ)
      → (event : Event A) → 1 ≤ limit
      → s.active ≡ true
      → IsInOrder limit start last s replies delivered held
      → IsGood
          (take_event size large limit s event)
          replies
          (delivered ++ arrivals (event ∷ []))
          (held + confirmations (event ∷ []))
  unfolding take_event on_end IsGood
  take_event-IsGood s replies delivered held (arrived entries) h e o =
      subst (IsGood (on_data size large limit s entries) replies (delivered ++ entries ∷ []))
        (omega arith)
        (on_data-IsInOrder size large limit start last s replies delivered held entries e o)
  take_event-IsGood s replies delivered held ended h e o =
      subst (λ rs. IsInOrder limit start last (on_end s) rs (delivered ++ []) (held + 0))
        (sym (append-nil replies))
        (subst (λ ds. IsInOrder limit start last (on_end s) replies ds (held + 0))
          (sym (append-nil delivered))
          (subst (IsInOrder limit start last (on_end s) replies delivered) (omega arith)
            (same-IsInOrder limit start last s (on_end s) replies delivered held refl o)))
  take_event-IsGood s replies delivered held (confirmed prev_index count) h e o =
      subst
        (λ ds.
          IsInOrder limit start last (request limit s prev_index count).0
            (replies ++ (request limit s prev_index count).1) ds (held + 1))
        (sym (append-nil delivered))
        (subst
          (IsInOrder limit start last (request limit s prev_index count).0
            (replies ++ (request limit s prev_index count).1) delivered)
          (omega arith)
          (request-IsInOrder size large limit start last s replies delivered held prev_index count h
            e o))

  pub stream_step-IsGood :
      (s : Stream A) (replies : List (Chunk A)) (delivered : List (List A)) (held : ℕ)
      → (event : Event A) → 1 ≤ limit
      → IsInOrder limit start last s replies delivered held
      → IsGood
          (stream_step size large limit s event)
          replies
          (delivered ++ arrivals (event ∷ []))
          (held + confirmations (event ∷ []))
  unfolding stream_step IsGood
  stream_step-IsGood s replies delivered held event h o = elim (Bool-cases s.active) [
    | inl e ↦
        subst
          (λ b.
            IsGood (if b then take_event size large limit s event else (s, [])) replies
              (delivered ++ arrivals (event ∷ [])) (held + confirmations (event ∷ [])))
          (sym e) (take_event-IsGood s replies delivered held event h e o)
    | inr e ↦
        subst
          (λ b.
            IsGood (if b then take_event size large limit s event else (s, [])) replies
              (delivered ++ arrivals (event ∷ [])) (held + confirmations (event ∷ [])))
          (sym e)
          (idle-IsInOrder limit start last s replies delivered (arrivals (event ∷ [])) held
            (held + confirmations (event ∷ [])) (omega arith) e o)
  ]

  pub stream_run-IsGood :
      (s : Stream A) (replies : List (Chunk A)) (delivered : List (List A)) (held : ℕ)
      → (events : List (Event A)) → 1 ≤ limit
      → IsInOrder limit start last s replies delivered held
      → IsGood
          (stream_run size large limit s events)
          replies
          (delivered ++ arrivals events)
          (held + confirmations events)
  unfolding stream_run IsGood
  stream_run-IsGood s replies delivered held [] h o =
      subst (λ rs. IsInOrder limit start last s rs (delivered ++ []) (held + 0))
        (sym (append-nil replies))
        (subst (λ ds. IsInOrder limit start last s replies ds (held + 0))
          (sym (append-nil delivered))
          (subst (IsInOrder limit start last s replies delivered) (omega arith) o))
  stream_run-IsGood s replies delivered held (event ∷ events) h o =
      subst
        (λ rs.
          IsInOrder limit start last final.0 rs (delivered ++ arrivals (event ∷ events))
            (held + confirmations (event ∷ events)))
        (append_assoc replies next.1 final.1)
        (subst
          (λ ds.
            IsInOrder limit start last final.0 ((replies ++ next.1) ++ final.1) ds
              (held + confirmations (event ∷ events)))
          (append_assoc delivered (arrivals (event ∷ [])) (arrivals events)
            ∙ ap (λ ds. delivered ++ ds) (sym (arrivals-cons event events)))
          (subst
            (IsInOrder limit start last final.0 ((replies ++ next.1) ++ final.1)
              ((delivered ++ arrivals (event ∷ [])) ++ arrivals events))
            (omega (arith, confirmations-cons event events))
            (stream_run-IsGood next.0 (replies ++ next.1) (delivered ++ arrivals (event ∷ []))
              (held + confirmations (event ∷ [])) events h
              (stream_step-IsGood s replies delivered held event h o))))
    where
      next : Stream A × List (Chunk A)
      next = stream_step size large limit s event

      final : Stream A × List (Chunk A)
      final = stream_run size large limit next.0 events

  pub new_stream-IsInOrder : IsInOrder limit start last (new_stream {A = A} start last) [] [] 0
  unfolding IsNumbered
  new_stream-IsInOrder = record {
    rest = [];
    first_ones = refl;
    numbered = tt;
    same_last = refl;
    up_to = omega arith;
    within = omega arith;
    live = inr (refl, omega arith, omega arith);
  }

  -- Over any chunks from the log and any confirmations, the replies are the first chunks the log has
  -- delivered, in order, each with the index of its last entry and whether that is the last one; and at
  -- most the limit of the pipeline, which is not 0, goes out beyond what was confirmed.
  pub replies_in_order :
      (events : List (Event A))
      → 1 ≤ limit
      → (rest : List (List A)) × (chunks
              (stream_run size large limit (new_stream start last) events).1
            ++ rest
          ≡ arrivals events)
        × IsNumbered start last (stream_run size large limit (new_stream start last) events).1
        × (length (stream_run size large limit (new_stream start last) events).1
            ≤ limit + confirmations events)
  unfolding IsGood
  replies_in_order events h =
      let o : IsInOrder limit start last
          (stream_run size large limit (new_stream start last) events).0
          (stream_run size large limit (new_stream start last) events).1 (arrivals events)
          (0 + confirmations events) =
        stream_run-IsGood (new_stream start last) [] [] 0 events h new_stream-IsInOrder in
      (o.rest, o.first_ones, o.numbered, omega (arith, o.within))

  -- The assertion of `pipe`: a stream does not go beyond its last index, unless the log delivers more than
  -- it was asked for.
  asserted :
      (events : List (Event A))
      → 1 ≤ limit
      → start + total (arrivals events) ≤ last
      → (stream_run size large limit (new_stream start last) events).0.prev_index ≤ last
  unfolding IsGood
  asserted events h few =
      let o : IsInOrder limit start last
          (stream_run size large limit (new_stream start last) events).0
          (stream_run size large limit (new_stream start last) events).1 (arrivals events)
          (0 + confirmations events) =
        stream_run-IsGood (new_stream start last) [] [] 0 events h new_stream-IsInOrder in
      omega (
        arith,
        o.up_to,
        few,
        sym (
              total-append (chunks (stream_run size large limit (new_stream start last) events).1)
                o.rest)
            ∙ ap total o.first_ones,
      )
