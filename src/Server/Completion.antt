-- ===== src/Server/Completion.antt =====
-- When a stream of `requestEntriesHandler` of lib/server/raft_server.js has sent everything, to a client
-- that confirms what it gets.
use node_zmq_raft.Prelude.{
  ℕ, zero, suc, ◌+◌, ◌-◌, ◌≤◌, ◌≡◌, refl, sym, ap, ◌∙◌, subst, Bool, true, false, not, ◌&&◌, ◌||◌,
  List, [], ◌∷◌, ◌++◌, append-nil, length, drop, length-append, leb, ◌==◌, Option, if◌then◌else◌,
  arith, Bool-cases, ◌⊎◌, inl, inr,
}
use node_zmq_raft.Server.Stream.{
  Stream, Chunk, new_stream, pipe, pipe_loop, cancel, on_data, on_end, request, is_zero,
}
use node_zmq_raft.Server.Streaming.{chunks, total, total-append, IsInOrder}
use node_zmq_raft.Server.Delivery.{IsLive, active-IsLive}
use node_zmq_raft.Server.Conversation.{
  Event, arrived, ended, confirmed, arrivals, confirmations, take_event, stream_step, stream_run,
  arrivals-cons, confirmations-cons, IsGood, stream_run-IsGood, new_stream-IsInOrder,
}

module _ {A : Type 0} where
  abbrev pub all_full : List (List A) → Bool
  all_full [] = true
  all_full (entries ∷ more) = leb 1 (length entries) && all_full more

  -- A confirmation of the first chunk of the queue, with a count other than 0.
  abbrev pub is_next : (first : ℕ) → List (List A) → ℕ → Option ℕ → Bool
  is_next first [] prev_index count = false
  is_next first (entries ∷ queue) prev_index count =
      (prev_index == first + length entries - 1) && not (is_zero count)

  pub empty_rest :
      (xs rest : List (List A)) → all_full (xs ++ rest) ≡ true → total rest ≡ 0 → rest ≡ []
  empty_rest [] [] h e = refl
  empty_rest [] (entries ∷ more) h e = absurd (ground (arith, h, e))
  empty_rest (x ∷ xs) rest h e = empty_rest xs rest (ground (arith, h)) e

  pub drop-all : (n : ℕ) (xs : List (List A)) → length xs ≤ n → drop n xs ≡ []
  drop-all zero [] h = refl
  drop-all zero (x ∷ xs) h = absurd (omega arith)
  drop-all (suc n) [] h = refl
  drop-all (suc n) (x ∷ xs) h = drop-all n xs (omega arith)

  -- An inactive stream has sent its last index; an active one holds what is not confirmed of `n` chunks.
  unfoldable pub IsGoing : Stream A → (n held : ℕ) → Type 0
  IsGoing s n held =
      ((s.active ≡ false) × (s.prev_index ≡ s.last_index))
      ⊎ ((s.active ≡ true) × (length s.queue + held ≡ n))

  pub pipe-IsGoing :
      (limit : ℕ) (s : Stream A) (n held : ℕ)
      → s.active ≡ true
      → length s.queue + held ≡ n
      → IsGoing (pipe limit s).0 n held
  unfolding pipe cancel IsGoing
  pipe-IsGoing limit s n held a e =
      elim (Bool-cases ((out.1 == s.last_index) && leb (length s.queue) 1)) [
        | inl t ↦ rw t (inl (refl, ground (arith, t)))
        | inr f ↦ rw f (inr (a, e))
      ]
    where
      out : ℕ × ℕ × List (Chunk A)
      out = pipe_loop limit s.last_index (drop s.next_to_send s.queue) s.next_to_send s.prev_index

module _ {A : Type 0} (size : A → ℕ) (large limit : ℕ) where
  -- The log delivers no empty chunk, and the client of an active stream confirms the next one.
  unfoldable pub fits : Stream A → Event A → Bool
  fits s (arrived entries) = leb 1 (length entries)
  fits s ended = true
  fits s (confirmed prev_index count) =
      not s.active || is_next s.first_queued s.queue prev_index count

  unfoldable pub follows : Stream A → List (Event A) → Bool
  follows s [] = true
  follows s (event ∷ events) =
      fits s event && follows (stream_step size large limit s event).0 events

  pub request-IsGoing :
      (s : Stream A) (n held prev_index : ℕ) (count : Option ℕ)
      → s.active ≡ true
      → is_next s.first_queued s.queue prev_index count ≡ true
      → length s.queue + held ≡ n
      → IsGoing (request limit s prev_index count).0 n (suc held)
  unfolding request IsGoing
  request-IsGoing s n held prev_index count a h e = by_queue s.queue refl
    where
      by_queue :
          (queue : List (List A))
          → s.queue ≡ queue
          → IsGoing (request limit s prev_index count).0 n (suc held)
      by_queue [] q =
          absurd
            (ground (arith, subst (λ xs. is_next s.first_queued xs prev_index count ≡ true) q h))
      by_queue (entries ∷ queue) q = rw q (
          rw zero_not (
            rw matches (pipe-IsGoing limit shifted n (suc held) a (omega (arith, e, ap length q)))))
        where
          shifted : Stream A
          shifted = record s {
            queue = queue;
            next_to_send = s.next_to_send - 1;
            first_queued = s.first_queued + length entries;
          }

          next : is_next s.first_queued (entries ∷ queue) prev_index count ≡ true
          next = subst (λ xs. is_next s.first_queued xs prev_index count ≡ true) q h

          matches : (prev_index == s.first_queued + length entries - 1) ≡ true
          matches = ground (arith, next)

          zero_not : is_zero count ≡ false
          zero_not = ground (arith, next)

  pub take_event-IsGoing :
      (s : Stream A) (event : Event A) (n held : ℕ)
      → s.active ≡ true
      → fits s event ≡ true
      → length s.queue + held ≡ n
      → IsGoing
          (take_event size large limit s event).0
          (n + length (arrivals (event ∷ [])))
          (held + confirmations (event ∷ []))
  unfolding take_event on_data on_end fits IsGoing
  take_event-IsGoing s (arrived entries) n held a f e =
      pipe-IsGoing limit (record s { queue = s.queue ++ entries ∷ [] }) (n + 1) (held + 0) a
        (omega (arith, e, length-append s.queue (entries ∷ [])))
  take_event-IsGoing s ended n held a f e = inr (a, omega (arith, e))
  take_event-IsGoing s (confirmed prev_index count) n held a f e =
      subst (λ k. IsGoing (request limit s prev_index count).0 k (held + 1)) (omega arith)
        (subst (IsGoing (request limit s prev_index count).0 n) (omega arith)
          (request-IsGoing s n held prev_index count a (ground (arith, a, f)) e))

  pub stream_step-IsGoing :
      (s : Stream A) (event : Event A) (n held : ℕ)
      → fits s event ≡ true
      → IsGoing s n held
      → IsGoing
          (stream_step size large limit s event).0
          (n + length (arrivals (event ∷ [])))
          (held + confirmations (event ∷ []))
  unfolding stream_step IsGoing
  stream_step-IsGoing s event n held f (inl (a, e)) =
      subst
        (λ b.
          IsGoing (if b then take_event size large limit s event else (s, [])).0
            (n + length (arrivals (event ∷ []))) (held + confirmations (event ∷ [])))
        (sym a) (inl (a, e))
  stream_step-IsGoing s event n held f (inr (a, e)) =
      subst
        (λ b.
          IsGoing (if b then take_event size large limit s event else (s, [])).0
            (n + length (arrivals (event ∷ []))) (held + confirmations (event ∷ [])))
        (sym a) (take_event-IsGoing s event n held a f e)

  pub stream_run-IsGoing :
      (s : Stream A) (events : List (Event A)) (n held : ℕ)
      → follows s events ≡ true
      → IsGoing s n held
      → IsGoing
          (stream_run size large limit s events).0
          (n + length (arrivals events))
          (held + confirmations events)
  unfolding stream_run follows
  stream_run-IsGoing s [] n held f g =
      subst (λ k. IsGoing s k (held + 0)) (omega arith) (subst (IsGoing s n) (omega arith) g)
  stream_run-IsGoing s (event ∷ events) n held f g =
      subst (λ k. IsGoing final k (held + confirmations (event ∷ events)))
        (omega (
          arith,
          ap length (arrivals-cons event events)
              ∙ length-append (arrivals (event ∷ [])) (arrivals events),
        ))
        (subst (IsGoing final (n + length (arrivals (event ∷ [])) + length (arrivals events)))
          (omega (arith, confirmations-cons event events))
          (stream_run-IsGoing (stream_step size large limit s event).0 events
            (n + length (arrivals (event ∷ []))) (held + confirmations (event ∷ []))
            (ground (arith, f)) (stream_step-IsGoing s event n held (ground (arith, f)) g)))
    where
      final : Stream A
      final = (stream_run size large limit (stream_step size large limit s event).0 events).0

  pub follows-all_full :
      (s : Stream A) (events : List (Event A))
      → follows s events ≡ true
      → all_full (arrivals events) ≡ true
  unfolding follows fits
  follows-all_full s [] f = refl
  follows-all_full s (event ∷ events) f =
      by_event event (ground (arith, f))
        (follows-all_full (stream_step size large limit s event).0 events (ground (arith, f)))
    where
      by_event :
          (e : Event A)
          → fits s e ≡ true
          → all_full (arrivals events) ≡ true
          → all_full (arrivals (e ∷ events)) ≡ true
      by_event (arrived entries) h t = ground (arith, h, t)
      by_event ended h t = t
      by_event (confirmed prev_index count) h t = t

  -- When the log has delivered all it was asked for, in chunks that are not empty, and the client has
  -- confirmed them one by one but for as many as the pipeline holds, which are not 0, then every chunk
  -- was sent, in order, over whatever interleaving of deliveries and confirmations.
  pub all_sent :
      (start last : ℕ) (events : List (Event A))
      → 1 ≤ limit
      → follows (new_stream start last) events ≡ true
      → start + total (arrivals events) ≡ last
      → length (arrivals events) ≤ limit + confirmations events
      → chunks (stream_run size large limit (new_stream start last) events).1 ≡ arrivals events
  unfolding IsGood IsGoing IsLive
  all_sent start last events h f t c =
      sym (append-nil (chunks out.1))
      ∙ ap (λ rest. chunks out.1 ++ rest)
          (sym (elim going [
            | inl (a, e) ↦
                empty_rest (chunks out.1) o.rest
                  (subst (λ xs. all_full xs ≡ true) (sym o.first_ones)
                    (follows-all_full (new_stream start last) events f))
                  (omega (
                    arith,
                    e,
                    t,
                    o.up_to,
                    o.same_last,
                    sym (total-append (chunks out.1) o.rest) ∙ ap total o.first_ones,
                  ))
            | inr (a, e) ↦
                let l : IsLive limit start last out.0 out.1 o.rest (0 + confirmations events) =
                  active-IsLive limit start last out.0 out.1 (arrivals events)
                    (0 + confirmations events) a o in
                l.0 ∙ drop-all out.0.next_to_send out.0.queue (omega (arith, e, l.1, c))
          ]))
      ∙ o.first_ones
    where
      out : Stream A × List (Chunk A)
      out = stream_run size large limit (new_stream start last) events

      o : IsInOrder limit start last out.0 out.1 (arrivals events) (0 + confirmations events)
      o =
          stream_run-IsGood size large limit start last (new_stream start last) [] [] 0 events h
            (new_stream-IsInOrder size large limit start last)

      going : IsGoing out.0 (0 + length (arrivals events)) (0 + confirmations events)
      going = stream_run-IsGoing (new_stream start last) events 0 0 f (inr (refl, omega arith))
