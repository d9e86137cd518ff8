-- ===== src/Server/Streaming.antt =====
-- What `pipe` of lib/server/raft_server.js sends: the chunks of the queue in order, with the index of
-- the last entry of each.
use node_zmq_raft.Prelude.{
  ℕ, zero, suc, ◌+◌, ◌-◌, ◌≤◌, ◌≡◌, refl, ap, ◌∙◌, subst, min, false, ◌&&◌, List, [], ◌∷◌, ◌++◌,
  append_assoc, length, drop, length-drop, length-append, ltb, leb, ◌==◌, arith, Bool-cases, ◌⊎◌,
  inl, inr,
}
use node_zmq_raft.Server.Stream.{Stream, Chunk, pipe_loop, pipe, cancel}

module _ {A : Type 0} where
  abbrev pub total : List (List A) → ℕ
  total [] = 0
  total (entries ∷ more) = length entries + total more

  abbrev pub chunks : List (Chunk A) → List (List A)
  chunks [] = []
  chunks (reply ∷ replies) = reply.entries ∷ chunks replies

  -- The replies follow each other from an index on, and tell the last one.
  unfoldable pub IsNumbered : (start last : ℕ) → List (Chunk A) → Type 0
  IsNumbered start last [] = Unit {0}
  IsNumbered start last (reply ∷ replies) =
      (reply.last_index ≡ start + length reply.entries)
      × (reply.is_last ≡ (reply.last_index == last))
      × IsNumbered reply.last_index last replies

  pub chunks-append : (xs ys : List (Chunk A)) → chunks (xs ++ ys) ≡ chunks xs ++ chunks ys
  chunks-append [] ys = refl
  chunks-append (x ∷ xs) ys = ap (◌∷◌ x.entries) (chunks-append xs ys)

  pub total-append : (xs ys : List (List A)) → total (xs ++ ys) ≡ total xs + total ys
  total-append [] ys = omega arith
  total-append (x ∷ xs) ys = omega (arith, total-append xs ys)

  pub append-IsNumbered :
      (xs ys : List (Chunk A)) (start last : ℕ)
      → IsNumbered start last xs
      → IsNumbered (start + total (chunks xs)) last ys
      → IsNumbered start last (xs ++ ys)
  unfolding IsNumbered
  append-IsNumbered [] ys start last a b = subst (λ n. IsNumbered n last ys) (omega arith) b
  append-IsNumbered (x ∷ xs) ys start last (c, d, a) b = (
    c,
    d,
    append-IsNumbered xs ys x.last_index last a
        (subst (λ n. IsNumbered n last ys) (omega (arith, c)) b),
  )

  pub drop-drop : (n m : ℕ) (xs : List (List A)) → n ≤ m → drop (m - n) (drop n xs) ≡ drop m xs
  drop-drop zero m xs h = ap (λ k. drop k xs) (same m)
    where
      same : (k : ℕ) → k - 0 ≡ k
      same k = omega arith
  drop-drop (suc n) zero xs h = absurd (omega arith)
  drop-drop (suc n) (suc m) [] h = drop-nil (suc m - suc n)
    where
      drop-nil : (k : ℕ) → drop {A = List A} k [] ≡ []
      drop-nil zero = refl
      drop-nil (suc k) = refl
  drop-drop (suc n) (suc m) (x ∷ xs) h =
      ap (λ k. drop k (drop n xs)) less ∙ drop-drop n m xs (omega arith)
    where
      less : suc m - suc n ≡ m - n
      less = omega arith

  -- What the loop has sent of the chunks it was given.
  pub record IsPiped (limit last : ℕ) (unsent : List (List A)) (next prev : ℕ)
      (out : ℕ × ℕ × List (Chunk A)) : Type 0 where
    pub counted : out.0 ≡ min limit (next + length unsent)
    pub each : out.0 ≡ next + length out.2
    pub in_order : chunks out.2 ++ drop (out.0 - next) unsent ≡ unsent
    pub up_to : out.1 ≡ prev + total (chunks out.2)
    pub numbered : IsNumbered prev last out.2

  pub pipe_loop-IsPiped :
      (limit last : ℕ) (unsent : List (List A)) (next prev : ℕ)
      → next ≤ limit
      → IsPiped limit last unsent next prev (pipe_loop limit last unsent next prev)
  unfolding pipe_loop IsNumbered
  pipe_loop-IsPiped limit last [] next prev h = record {
    counted = omega arith;
    each = omega arith;
    in_order = ap (λ n. drop {A = List A} n []) (none_new next);
    up_to = omega arith;
    numbered = tt;
  }
    where
      none_new : (n : ℕ) → n - n ≡ 0
      none_new n = omega arith
  pipe_loop-IsPiped limit last (entries ∷ unsent) next prev h = elim (Bool-cases (ltb next limit)) [
    | inr e ↦ rw e (record {
      counted = ground arith;
      each = omega arith;
      in_order = ap (λ n. drop n (entries ∷ unsent)) (none_new next);
      up_to = omega arith;
      numbered = tt;
    })
    | inl e ↦
        let rest : IsPiped limit last unsent (suc next) (prev + length entries)
            (pipe_loop limit last unsent (suc next) (prev + length entries)) =
          pipe_loop-IsPiped limit last unsent (suc next) (prev + length entries) (ground arith) in
        rw e (record {
          counted = omega (arith, rest.counted);
          each = omega (arith, rest.each);
          in_order = ap (◌∷◌ entries) (
              ap
                (λ n.
                  chunks (pipe_loop limit last unsent (suc next) (prev + length entries)).2
                  ++ drop n (entries ∷ unsent))
                (one_more (pipe_loop limit last unsent (suc next) (prev + length entries)).0
                  (ground (arith, rest.counted)))
              ∙ rest.in_order);
          up_to = omega (arith, rest.up_to);
          numbered = (refl, refl, rest.numbered);
        })
  ]
    where
      none_new : (n : ℕ) → n - n ≡ 0
      none_new n = omega arith

      one_more : (n : ℕ) → suc next ≤ n → n - next ≡ suc (n - suc next)
      one_more n l = omega arith

-- What a stream has sent since it began behind an index, of the chunks the log delivered: they are the
-- first ones, in order, and only so many are not confirmed. While it is active, it has sent as much of
-- its queue as the limit lets it.
pub record IsInOrder {A : Type 0} (limit start last : ℕ) (s : Stream A) (replies : List (Chunk A))
    (delivered : List (List A)) (confirmed : ℕ) : Type 0 where
  pub rest : List (List A)
  pub first_ones : chunks replies ++ rest ≡ delivered
  pub numbered : IsNumbered start last replies
  pub same_last : s.last_index ≡ last
  pub up_to : s.prev_index ≡ start + total (chunks replies)
  pub within : length replies ≤ limit + confirmed
  pub live :
      (s.active ≡ false)
      ⊎ ((rest ≡ drop s.next_to_send s.queue)
          × (s.next_to_send ≡ min limit (length s.queue))
          × (length replies ≡ s.next_to_send + confirmed))

module _ {A : Type 0} (limit start last : ℕ) where
  pub pipe-IsInOrder :
      (s : Stream A) (replies : List (Chunk A)) (delivered : List (List A)) (confirmed : ℕ)
      → chunks replies ++ drop s.next_to_send s.queue ≡ delivered
      → IsNumbered start last replies
      → s.last_index ≡ last
      → s.next_to_send ≤ limit
      → s.next_to_send ≤ length s.queue
      → s.prev_index ≡ start + total (chunks replies)
      → length replies ≡ s.next_to_send + confirmed
      → IsInOrder limit start last
          (pipe limit s).0
          (replies ++ (pipe limit s).1)
          delivered
          confirmed
  unfolding pipe cancel
  pipe-IsInOrder s replies delivered confirmed first_ones numbered same_last window queued up_to
        held =
      elim (Bool-cases ((out.1 == s.last_index) && leb (length s.queue) 1)) [
        | inl e ↦ rw e (record {
          rest = left;
          first_ones = sent;
          numbered = told;
          same_last = same_last;
          up_to = reached;
          within = omega (arith, opened, filled);
          live = inl refl;
        })
        | inr e ↦ rw e (record {
          rest = left;
          first_ones = sent;
          numbered = told;
          same_last = same_last;
          up_to = reached;
          within = omega (arith, opened, filled);
          live = inr (behind, filled, opened);
        })
      ]
    where
      unsent : List (List A)
      unsent = drop s.next_to_send s.queue

      out : ℕ × ℕ × List (Chunk A)
      out = pipe_loop limit s.last_index unsent s.next_to_send s.prev_index

      piped : IsPiped limit s.last_index unsent s.next_to_send s.prev_index out
      piped = pipe_loop-IsPiped limit s.last_index unsent s.next_to_send s.prev_index window

      left : List (List A)
      left = drop (out.0 - s.next_to_send) unsent

      sent : chunks (replies ++ out.2) ++ left ≡ delivered
      sent =
          ap (λ cs. cs ++ left) (chunks-append replies out.2)
          ∙ append_assoc (chunks replies) (chunks out.2) left
          ∙ ap (λ cs. chunks replies ++ cs) piped.in_order
          ∙ first_ones

      told : IsNumbered start last (replies ++ out.2)
      told = append-IsNumbered replies out.2 start last numbered (
          subst (λ n. IsNumbered n last out.2) up_to
            (subst (λ n. IsNumbered s.prev_index n out.2) same_last piped.numbered))

      filled : out.0 ≡ min limit (length s.queue)
      filled = omega (arith, piped.counted, length-drop s.next_to_send s.queue, window, queued)

      behind : left ≡ drop out.0 s.queue
      behind =
          drop-drop s.next_to_send out.0 s.queue
            (omega (arith, piped.counted, length-drop s.next_to_send s.queue, window, queued))

      reached : out.1 ≡ start + total (chunks (replies ++ out.2))
      reached = omega (
        arith,
        piped.up_to,
        up_to,
        ap total (chunks-append replies out.2) ∙ total-append (chunks replies) (chunks out.2),
      )

      opened : length (replies ++ out.2) ≡ out.0 + confirmed
      opened = omega (arith, piped.each, held, length-append replies out.2)
