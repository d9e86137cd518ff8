-- ===== src/Server/Delivery.antt =====
-- What a stream of `requestEntriesHandler` of lib/server/raft_server.js sends over any chunks from the
-- log and any confirmations from the client.
use node_zmq_raft.Prelude.{
  ℕ, zero, suc, ◌+◌, ◌-◌, ◌≤◌, ◌≡◌, refl, sym, ap, ◌∙◌, subst, min, true, false, not, ◌&&◌, List,
  [], ◌∷◌, ◌++◌, append_assoc, append-nil, length, drop, length-append, leb, ◌==◌, Option, arith,
  Bool-cases, inl, inr,
}
use node_zmq_raft.Server.Stream.{Stream, Chunk, pipe, cancel, on_data, request, is_zero}
use node_zmq_raft.Server.Streaming.{chunks, total, IsNumbered, IsInOrder, pipe-IsInOrder}

module _ {A : Type 0} where
  pub drop-append_one :
      (n : ℕ) (xs : List (List A)) (x : List A)
      → n ≤ length xs
      → drop n (xs ++ x ∷ []) ≡ drop n xs ++ x ∷ []
  drop-append_one zero xs x h = refl
  drop-append_one (suc n) [] x h = absurd (omega arith)
  drop-append_one (suc n) (y ∷ xs) x h = drop-append_one n xs x (omega arith)

  pub drop-shift :
      (n : ℕ) (x : List A) (xs : List (List A)) → 1 ≤ n → drop n (x ∷ xs) ≡ drop (n - 1) xs
  drop-shift zero x xs h = absurd (omega arith)
  drop-shift (suc n) x xs h = ap (λ k. drop k xs) less
    where
      less : n ≡ suc n - 1
      less = omega arith

module _ {A : Type 0} (limit start last : ℕ) where
  -- An event that changes nothing of a stream that is not active.
  pub idle-IsInOrder :
      (s : Stream A) (replies : List (Chunk A)) (delivered more : List (List A)) (held now : ℕ)
      → held ≤ now
      → s.active ≡ false
      → IsInOrder limit start last s replies delivered held
      → IsInOrder limit start last s (replies ++ []) (delivered ++ more) now
  idle-IsInOrder s replies delivered more held now h e o = record {
    rest = o.rest ++ more;
    first_ones =
        ap (λ cs. chunks cs ++ (o.rest ++ more)) (append-nil replies)
        ∙ sym (append_assoc (chunks replies) o.rest more)
        ∙ ap (λ cs. cs ++ more) o.first_ones;
    numbered = subst (λ rs. IsNumbered start last rs) (sym (append-nil replies)) o.numbered;
    same_last = o.same_last;
    up_to = o.up_to ∙ same_total;
    within = omega (arith, h, o.within, ap length (append-nil replies));
    live = inl e;
  }
    where
      same_total : start + total (chunks replies) ≡ start + total (chunks (replies ++ []))
      same_total = ap (λ rs. start + total (chunks rs)) (sym (append-nil replies))

  -- Only the fields that `IsInOrder` does not read change.
  pub same-IsInOrder :
      (s t : Stream A) (replies : List (Chunk A)) (delivered : List (List A)) (held : ℕ)
      → t ≡ record s { reading = t.reading; paused = t.paused }
      → IsInOrder limit start last s replies delivered held
      → IsInOrder limit start last t replies delivered held
  same-IsInOrder s t replies delivered held e o =
      subst (λ u. IsInOrder limit start last u replies delivered held) (sym e)
        (record {
          rest = o.rest;
          first_ones = o.first_ones;
          numbered = o.numbered;
          same_last = o.same_last;
          up_to = o.up_to;
          within = o.within;
          live = o.live;
        })

  -- A stream that is cancelled without a reply.
  pub cancel-IsInOrder :
      (s t : Stream A) (replies : List (Chunk A)) (delivered : List (List A)) (held now : ℕ)
      → held ≤ now
      → t.last_index ≡ s.last_index
      → t.prev_index ≡ s.prev_index
      → IsInOrder limit start last s replies delivered held
      → IsInOrder limit start last (cancel t) (replies ++ []) delivered now
  unfolding cancel
  cancel-IsInOrder s t replies delivered held now h e p o = record {
    rest = o.rest;
    first_ones = ap (λ cs. chunks cs ++ o.rest) (append-nil replies) ∙ o.first_ones;
    numbered = subst (λ rs. IsNumbered start last rs) (sym (append-nil replies)) o.numbered;
    same_last = e ∙ o.same_last;
    up_to = p ∙ o.up_to ∙ same_total;
    within = omega (arith, h, o.within, ap length (append-nil replies));
    live = inl refl;
  }
    where
      same_total : start + total (chunks replies) ≡ start + total (chunks (replies ++ []))
      same_total = ap (λ rs. start + total (chunks rs)) (sym (append-nil replies))

  unfoldable pub IsLive : Stream A → List (Chunk A) → List (List A) → ℕ → Type 0
  IsLive s replies rest held =
      (rest ≡ drop s.next_to_send s.queue)
      × (s.next_to_send ≡ min limit (length s.queue))
      × (length replies ≡ s.next_to_send + held)

  pub active-IsLive :
      (s : Stream A) (replies : List (Chunk A)) (delivered : List (List A)) (held : ℕ)
      → s.active ≡ true
      → (o : IsInOrder limit start last s replies delivered held) → IsLive s replies o.rest held
  unfolding IsLive
  active-IsLive s replies delivered held e o = elim o.live [
    | inl f ↦ absurd (ground (arith, e, f))
    | inr l ↦ l
  ]

module _ {A : Type 0} (size : A → ℕ) (large limit start last : ℕ) where
  pub on_data-IsInOrder :
      (s : Stream A) (replies : List (Chunk A)) (delivered : List (List A)) (held : ℕ)
      → (entries : List A) → s.active ≡ true
      → IsInOrder limit start last s replies delivered held
      → IsInOrder limit start last
          (on_data size large limit s entries).0
          (replies ++ (on_data size large limit s entries).1)
          (delivered ++ entries ∷ [])
          held
  unfolding on_data IsLive
  on_data-IsInOrder s replies delivered held entries e o =
      same-IsInOrder limit start last (pipe limit more).0 (on_data size large limit s entries).0
        (replies ++ (pipe limit more).1) (delivered ++ entries ∷ []) held refl
        (pipe-IsInOrder limit start last more replies (delivered ++ entries ∷ []) held first_ones
          o.numbered o.same_last (omega (arith, l.1))
          (omega (arith, l.1, length-append s.queue (entries ∷ []))) o.up_to l.2)
    where
      more : Stream A
      more = record s { queue = s.queue ++ entries ∷ [] }

      l : IsLive limit start last s replies o.rest held
      l = active-IsLive limit start last s replies delivered held e o

      first_ones :
          chunks replies ++ drop s.next_to_send (s.queue ++ entries ∷ [])
          ≡ delivered ++ entries ∷ []
      first_ones =
          ap (λ cs. chunks replies ++ cs)
            (drop-append_one s.next_to_send s.queue entries (omega (arith, l.1))
              ∙ ap (λ cs. cs ++ entries ∷ []) (sym l.0))
          ∙ sym (append_assoc (chunks replies) o.rest (entries ∷ []))
          ∙ ap (λ cs. cs ++ entries ∷ []) o.first_ones

  pub request-IsInOrder :
      (s : Stream A) (replies : List (Chunk A)) (delivered : List (List A)) (held : ℕ)
      → (prev_index : ℕ) (count : Option ℕ) → 1 ≤ limit
      → s.active ≡ true
      → IsInOrder limit start last s replies delivered held
      → IsInOrder limit start last
          (request limit s prev_index count).0
          (replies ++ (request limit s prev_index count).1)
          delivered
          (suc held)
  unfolding request IsLive
  request-IsInOrder s replies delivered held prev_index count h e o = by_queue s.queue refl
    where
      l : IsLive limit start last s replies o.rest held
      l = active-IsLive limit start last s replies delivered held e o

      cancelled :
          (t : Stream A)
          → t.last_index ≡ s.last_index
          → t.prev_index ≡ s.prev_index
          → IsInOrder limit start last (cancel t) (replies ++ []) delivered (suc held)
      cancelled t same p =
          cancel-IsInOrder limit start last s t replies delivered held (suc held) (omega arith) same
            p o

      by_queue :
          (queue : List (List A))
          → s.queue ≡ queue
          → IsInOrder limit start last
              (request limit s prev_index count).0
              (replies ++ (request limit s prev_index count).1)
              delivered
              (suc held)
      by_queue [] q = rw q (cancelled (record s { queue = [] }) refl refl)
      by_queue (entries ∷ queue) q = elim (Bool-cases (is_zero count)) [
        | inl z ↦ rw q (rw z (cancelled shifted refl refl))
        | inr z ↦ elim (Bool-cases (prev_index == confirmed.first_queued - 1)) [
          | inr f ↦ rw q (rw z (rw f (cancelled confirmed refl refl)))
          | inl f ↦ rw q (
              rw z (
                rw f (
                  same-IsInOrder limit start last (pipe limit confirmed).0
                    (record (pipe limit confirmed).0 {
                      paused =
                          (pipe limit confirmed).0.paused
                          && not (
                              (pipe limit confirmed).0.reading
                              && leb (length (pipe limit confirmed).0.queue)
                                  (pipe limit confirmed).0.next_to_send);
                    })
                    (replies ++ (pipe limit confirmed).1) delivered (suc held) refl
                    (pipe-IsInOrder limit start last confirmed replies delivered (suc held)
                      first_ones o.numbered o.same_last (omega (arith, l.1))
                      (omega (arith, l.1, sent)) o.up_to (omega (arith, l.2, sent))))))
        ]
      ]
        where
          shifted : Stream A
          shifted = record s { queue = queue; next_to_send = s.next_to_send - 1 }

          confirmed : Stream A
          confirmed = record shifted { first_queued = s.first_queued + length entries }

          sent : (1 ≤ s.next_to_send) × (s.next_to_send - 1 ≤ length queue)
          sent = (omega (arith, l.1, h, ap length q), omega (arith, l.1, h, ap length q))

          first_ones : chunks replies ++ drop (s.next_to_send - 1) queue ≡ delivered
          first_ones =
              ap (λ cs. chunks replies ++ cs)
                (sym (drop-shift s.next_to_send entries queue sent.0)
                  ∙ ap (drop s.next_to_send) (sym q)
                  ∙ sym l.0)
              ∙ o.first_ones
