-- ===== src/Server/Confirmed.antt =====
-- Which confirmations a stream of `requestEntriesHandler` of lib/server/raft_server.js takes.
use node_zmq_raft.Prelude.{
  ℕ, suc, ◌+◌, ◌-◌, ◌≤◌, ◌≡◌, refl, sym, ap, ◌∙◌, subst, true, false, ◌&&◌, List, [], ◌∷◌, ◌++◌,
  append_assoc, append-nil, length, drop, leb, ◌==◌, map, Option, if◌then◌else◌, arith, Bool-cases,
  ◌⊎◌, inl, inr,
}
use node_zmq_raft.Server.Stream.{
  Stream, Chunk, new_stream, pipe, pipe_loop, cancel, on_data, on_end, request, is_zero,
}
use node_zmq_raft.Server.Streaming.{chunks, total, total-append, IsInOrder}
use node_zmq_raft.Server.Delivery.{IsLive, active-IsLive}
use node_zmq_raft.Server.Confirming.{
  indexes, length-indexes, indexes-cons, last_indexes, length-last_indexes, last_indexes-append,
  numbered-last_indexes, begins_other, length-chunks,
}
use node_zmq_raft.Server.Conversation.{
  Event, arrived, ended, confirmed, arrivals, confirmations, arrivals-cons, take_event, stream_step,
  stream_run, IsGood, stream_run-IsGood, new_stream-IsInOrder,
}

module _ {A : Type 0} (limit start : ℕ) where
  -- An active stream: the chunks confirmed and those queued are the ones delivered, and the indexes
  -- confirmed are those of the chunks confirmed.
  unfoldable pub IsConfirmed : Stream A → List (List A) → List ℕ → Type 0
  IsConfirmed s delivered indexes =
      (s.active ≡ false)
      ⊎ ((done : List (List A)) × (done ++ s.queue ≡ delivered)
          × (s.first_queued ≡ suc (start + total done))
          × (indexes ≡ last_indexes start done))

  pipe-IsConfirmed :
      (s : Stream A) (delivered : List (List A)) (indexes : List ℕ)
      → IsConfirmed s delivered indexes
      → IsConfirmed (pipe limit s).0 delivered indexes
  unfolding pipe cancel IsConfirmed
  pipe-IsConfirmed s delivered indexes c =
      elim (Bool-cases ((out.1 == s.last_index) && leb (length s.queue) 1)) [
        | inl t ↦ rw t (inl refl)
        | inr f ↦ rw f c
      ]
    where
      out : ℕ × ℕ × List (Chunk A)
      out = pipe_loop limit s.last_index (drop s.next_to_send s.queue) s.next_to_send s.prev_index

  request-IsConfirmed :
      (s : Stream A) (delivered : List (List A)) (indexes : List ℕ) (prev_index : ℕ)
      (count : Option ℕ)
      → IsConfirmed s delivered indexes
      → s.active ≡ true
      → IsConfirmed (request limit s prev_index count).0 delivered (indexes ++ prev_index ∷ [])
  unfolding request cancel IsConfirmed
  request-IsConfirmed s delivered indexes prev_index count (inl a) active =
      absurd (ground (arith, a, active))
  request-IsConfirmed s delivered indexes prev_index count (inr (done, d, first, i)) active =
      by_queue s.queue refl
    where
      by_queue :
          (queue : List (List A))
          → s.queue ≡ queue
          → IsConfirmed (request limit s prev_index count).0 delivered (indexes ++ prev_index ∷ [])
      by_queue [] q = rw q (inl refl)
      by_queue (entries ∷ queue) q = elim (Bool-cases (is_zero count)) [
        | inl z ↦ rw (q, z) (inl refl)
        | inr z ↦ elim (Bool-cases (prev_index == s.first_queued + length entries - 1)) [
          | inr f ↦ rw (q, z, f) (inl refl)
          | inl f ↦
              rw (q, z, f)
                (pipe-IsConfirmed taken delivered (indexes ++ prev_index ∷ [])
                  (inr (done ++ entries ∷ [], rest, next, more f)))
        ]
      ]
        where
          taken : Stream A
          taken = record s {
            queue = queue;
            next_to_send = s.next_to_send - 1;
            first_queued = s.first_queued + length entries;
          }

          rest : (done ++ entries ∷ []) ++ queue ≡ delivered
          rest = append_assoc done (entries ∷ []) queue ∙ ap (λ xs. done ++ xs) (sym q) ∙ d

          next : s.first_queued + length entries ≡ suc (start + total (done ++ entries ∷ []))
          next = omega (arith, first, total-append done (entries ∷ []))

          same :
              (prev_index == s.first_queued + length entries - 1) ≡ true
              → prev_index ≡ start + total done + length entries
          same f = ground (arith, f, first)

          more :
              (prev_index == s.first_queued + length entries - 1) ≡ true
              → indexes ++ prev_index ∷ [] ≡ last_indexes start (done ++ entries ∷ [])
          more f =
              ap (λ xs. xs ++ prev_index ∷ []) i
              ∙ ap (λ n. last_indexes start done ++ n ∷ []) (same f)
              ∙ sym (last_indexes-append start done (entries ∷ []))

module _ {A : Type 0} (size : A → ℕ) (large limit start : ℕ) where
  take_event-IsConfirmed :
      (s : Stream A) (delivered : List (List A)) (known : List ℕ) (event : Event A)
      → IsConfirmed limit start s delivered known
      → s.active ≡ true
      → IsConfirmed limit start
          (take_event size large limit s event).0
          (delivered ++ arrivals (event ∷ []))
          (known ++ indexes (event ∷ []))
  unfolding take_event on_data on_end IsConfirmed
  take_event-IsConfirmed s delivered known (arrived entries) (inl a) active =
      absurd (ground (arith, a, active))
  take_event-IsConfirmed s delivered known (arrived entries) (inr (done, d, first, i)) active =
      pipe-IsConfirmed limit start (record s { queue = s.queue ++ entries ∷ [] })
        (delivered ++ entries ∷ []) (known ++ [])
        (inr (
          done,
          sym (append_assoc done s.queue (entries ∷ [])) ∙ ap (λ xs. xs ++ entries ∷ []) d,
          first,
          append-nil known ∙ i,
        ))
  take_event-IsConfirmed s delivered known ended c active =
      subst (λ ds. IsConfirmed limit start s ds (known ++ [])) (sym (append-nil delivered))
        (subst (IsConfirmed limit start s delivered) (sym (append-nil known)) c)
  take_event-IsConfirmed s delivered known (confirmed prev_index count) c active =
      subst
        (λ ds.
          IsConfirmed limit start (request limit s prev_index count).0 ds
            (known ++ prev_index ∷ []))
        (sym (append-nil delivered))
        (request-IsConfirmed limit start s delivered known prev_index count c active)

  stream_step-IsConfirmed :
      (s : Stream A) (delivered : List (List A)) (known : List ℕ) (event : Event A)
      → IsConfirmed limit start s delivered known
      → IsConfirmed limit start
          (stream_step size large limit s event).0
          (delivered ++ arrivals (event ∷ []))
          (known ++ indexes (event ∷ []))
  unfolding stream_step IsConfirmed
  stream_step-IsConfirmed s delivered known event c = elim (Bool-cases s.active) [
    | inr e ↦
        subst
          (λ b.
            IsConfirmed limit start (if b then take_event size large limit s event else (s, [])).0
              (delivered ++ arrivals (event ∷ [])) (known ++ indexes (event ∷ [])))
          (sym e) (inl e)
    | inl e ↦
        subst
          (λ b.
            IsConfirmed limit start (if b then take_event size large limit s event else (s, [])).0
              (delivered ++ arrivals (event ∷ [])) (known ++ indexes (event ∷ [])))
          (sym e) (take_event-IsConfirmed s delivered known event c e)
  ]

  stream_run-IsConfirmed :
      (s : Stream A) (delivered : List (List A)) (known : List ℕ) (events : List (Event A))
      → IsConfirmed limit start s delivered known
      → IsConfirmed limit start
          (stream_run size large limit s events).0
          (delivered ++ arrivals events)
          (known ++ indexes events)
  unfolding stream_run
  stream_run-IsConfirmed s delivered known [] c =
      subst (λ ds. IsConfirmed limit start s ds (known ++ [])) (sym (append-nil delivered))
        (subst (IsConfirmed limit start s delivered) (sym (append-nil known)) c)
  stream_run-IsConfirmed s delivered known (event ∷ events) c =
      subst (λ ds. IsConfirmed limit start final ds (known ++ indexes (event ∷ events)))
        (append_assoc delivered (arrivals (event ∷ [])) (arrivals events)
          ∙ ap (λ xs. delivered ++ xs) (sym (arrivals-cons event events)))
        (subst
          (IsConfirmed limit start final ((delivered ++ arrivals (event ∷ [])) ++ arrivals events))
          (append_assoc known (indexes (event ∷ [])) (indexes events)
            ∙ ap (λ xs. known ++ xs) (sym (indexes-cons event events)))
          (stream_run-IsConfirmed (stream_step size large limit s event).0
            (delivered ++ arrivals (event ∷ [])) (known ++ indexes (event ∷ [])) events
            (stream_step-IsConfirmed s delivered known event c)))
    where
      final : Stream A
      final = (stream_run size large limit (stream_step size large limit s event).0 events).0

  -- A stream that is not active any more sends nothing.
  stream_run-idle :
      (s : Stream A) (events : List (Event A))
      → s.active ≡ false
      → stream_run size large limit s events ≡ (s, [])
  unfolding stream_run stream_step
  stream_run-idle s [] e = refl
  stream_run-idle s (event ∷ events) e =
      subst (λ b. resume (if b then take_event size large limit s event else (s, [])) ≡ (s, []))
        (sym e) (stream_run-idle s events e)
    where
      resume : Stream A × List (Chunk A) → Stream A × List (Chunk A)
      resume (next, replies) =
          let (final, more) = stream_run size large limit next events in (final, replies ++ more)

  -- With a pipeline of one chunk or more, over any deliveries and confirmations: while the stream is
  -- active, the indexes confirmed are, in order, those of the first replies sent; once it is not, nothing
  -- more is sent whatever comes. So an index confirmed out of turn, or twice, or before its reply, ends
  -- the stream.
  pub confirmed_in_turn :
      (last : ℕ) (events : List (Event A))
      → 1 ≤ limit
      → ((stream_run size large limit (new_stream start last) events).0.active ≡ true
          → (unconfirmed : List ℕ) × (indexes events ++ unconfirmed
              ≡ map
                  (λ reply. reply.last_index)
                  (stream_run size large limit (new_stream start last) events).1))
        × ((stream_run size large limit (new_stream start last) events).0.active ≡ false
            → (more : List (Event A))
            → (stream_run size large limit
                (stream_run size large limit (new_stream start last) events).0
                more).1
              ≡ [])
  unfolding IsConfirmed IsGood IsLive
  confirmed_in_turn last events h = (
    (λ e. elim going [
      | inl f ↦ absurd (ground (arith, e, f))
      | inr (done, d, first, i) ↦
          let l : IsLive limit start last out.0 out.1 o.rest (0 + confirmations events) =
            active-IsLive limit start last out.0 out.1 (arrivals events) (0 + confirmations events)
              e o in
          let (c, s) = begins_other done (chunks out.1) out.0.queue o.rest (d ∙ sym o.first_ones) (
            omega (
              arith,
              l.2,
              length-chunks out.1,
              length-last_indexes start done,
              ap length i,
              length-indexes events,
            )) in
          (
            last_indexes (start + total done) c,
            ap (λ xs. xs ++ last_indexes (start + total done) c) i
                ∙ sym (last_indexes-append start done c)
                ∙ ap (last_indexes start) s
                ∙ sym (numbered-last_indexes start last out.1 o.numbered),
          )
    ]),
    (λ e more. ap (λ p. p.1) (stream_run-idle out.0 more e)),
  )
    where
      out : Stream A × List (Chunk A)
      out = stream_run size large limit (new_stream start last) events

      o : IsInOrder limit start last out.0 out.1 (arrivals events) (0 + confirmations events)
      o =
          stream_run-IsGood size large limit start last (new_stream start last) [] [] 0 events h
            (new_stream-IsInOrder size large limit start last)

      going : IsConfirmed limit start out.0 (arrivals events) (indexes events)
      going =
          stream_run-IsConfirmed (new_stream start last) [] [] events
            (inr ([], refl, omega arith, refl))
