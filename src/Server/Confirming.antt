-- ===== src/Server/Confirming.antt =====
-- The indexes of the chunks that a stream of `requestEntriesHandler` of lib/server/raft_server.js sends
-- and of those that its client confirms.
use node_zmq_raft.Prelude.{
  ℕ, suc, ◌+◌, ◌≤◌, ◌≡◌, refl, ap, ◌∙◌, List, [], ◌∷◌, ◌++◌, length, map, arith,
}
use node_zmq_raft.Server.Stream.{Chunk}
use node_zmq_raft.Server.Streaming.{chunks, total, IsNumbered}
use node_zmq_raft.Server.Conversation.{Event, arrived, ended, confirmed, confirmations}

module _ {A : Type 0} where
  -- The indexes that the client confirms.
  abbrev pub indexes : List (Event A) → List ℕ
  indexes [] = []
  indexes (arrived entries ∷ events) = indexes events
  indexes (ended ∷ events) = indexes events
  indexes (confirmed prev_index count ∷ events) = prev_index ∷ indexes events

  pub length-indexes : (events : List (Event A)) → length (indexes events) ≡ confirmations events
  length-indexes [] = refl
  length-indexes (arrived entries ∷ events) = length-indexes events
  length-indexes (ended ∷ events) = length-indexes events
  length-indexes (confirmed prev_index count ∷ events) = ap suc (length-indexes events)

  pub indexes-cons :
      (event : Event A) (events : List (Event A))
      → indexes (event ∷ events) ≡ indexes (event ∷ []) ++ indexes events
  indexes-cons (arrived entries) events = refl
  indexes-cons ended events = refl
  indexes-cons (confirmed prev_index count) events = refl

  -- The indexes of the last entries of chunks that follow an index.
  abbrev pub last_indexes : ℕ → List (List A) → List ℕ
  last_indexes start [] = []
  last_indexes start (entries ∷ more) =
      (start + length entries) ∷ last_indexes (start + length entries) more

  pub length-last_indexes :
      (start : ℕ) (xs : List (List A)) → length (last_indexes start xs) ≡ length xs
  length-last_indexes start [] = refl
  length-last_indexes start (x ∷ xs) = ap suc (length-last_indexes (start + length x) xs)

  pub last_indexes-append :
      (start : ℕ) (xs ys : List (List A))
      → last_indexes start (xs ++ ys) ≡ last_indexes start xs ++ last_indexes (start + total xs) ys
  last_indexes-append start [] ys = ap (λ n. last_indexes n ys) (omega arith)
  last_indexes-append start (x ∷ xs) ys = ap (◌∷◌ (start + length x)) (
      last_indexes-append (start + length x) xs ys
      ∙ ap (λ n. last_indexes (start + length x) xs ++ last_indexes n ys) (omega arith))

  pub numbered-last_indexes :
      (start last : ℕ) (replies : List (Chunk A))
      → IsNumbered start last replies
      → map (λ reply. reply.last_index) replies ≡ last_indexes start (chunks replies)
  unfolding IsNumbered
  numbered-last_indexes start last [] n = refl
  numbered-last_indexes start last (reply ∷ replies) (e, d, n) =
      ap (λ i. i ∷ map (λ r. r.last_index) replies) e
      ∙ ap (◌∷◌ (start + length reply.entries)) (
          numbered-last_indexes reply.last_index last replies n
          ∙ ap (λ i. last_indexes i (chunks replies)) e)

  -- Of two beginnings of a list the shorter one begins the longer one.
  pub begins_other :
      (xs ys a b : List (List A))
      → xs ++ a ≡ ys ++ b
      → length xs ≤ length ys
      → (c : List (List A)) × (xs ++ c ≡ ys)
  begins_other [] ys a b e h = (ys, refl)
  begins_other (x ∷ xs) [] a b e h = absurd (omega arith)
  begins_other (x ∷ xs) (y ∷ ys) a b e h =
      let (c, r) = begins_other xs ys a b (tails e) (omega arith) in (c, heads c e r)
    where
      tails : x ∷ (xs ++ a) ≡ y ∷ (ys ++ b) → xs ++ a ≡ ys ++ b
      tails k = cc

      heads :
          (c : List (List A))
          → x ∷ (xs ++ a) ≡ y ∷ (ys ++ b)
          → xs ++ c ≡ ys
          → x ∷ (xs ++ c) ≡ y ∷ ys
      heads c k r = cc

  pub length-chunks : (replies : List (Chunk A)) → length (chunks replies) ≡ length replies
  length-chunks [] = refl
  length-chunks (reply ∷ replies) = ap suc (length-chunks replies)
