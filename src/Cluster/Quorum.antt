-- ===== src/Cluster/Quorum.antt =====
-- The log index that a majority holds, and the overlap of the quorums that Raft rests on.
use node_zmq_raft.Cluster.{
  Cluster, index_loop, majority_has_log_index, less_if, reaches, keys, majority_of, is_member,
  voting_start, has_won_voting,
}
use node_zmq_raft.Cluster.Count.{count_if, count_if-ext, count_if-at, count_if-both, overlap}
use node_zmq_raft.Cluster.Voting.{Ballots, run_votes, run_votes-votes, grants}
use node_zmq_raft.Cluster.Membership.{IsConfigured}
use node_zmq_raft.Prelude.{
  ℕ, ◌+◌, ◌≤◌, ◌<◌, ◌≡◌, ◌∙◌, ap, Bool, true, false, ◌&&◌, ◌||◌, [], ◌∷◌, String, length, arith,
  eq_iff, if◌then◌else◌, inl, inr, Bool-cases, leb, ◌==◌,
}
use node_zmq_raft.Prelude.JsMap.{JsMap, same, has, get, Distinct}

-- The peers of a list that are members and whose match index reaches `i`.
reached_members : JsMap String → ℕ → JsMap ℕ → JsMap String → ℕ
reached_members members i match_index ps =
    count_if (λ k. has members k && reaches i (get match_index k)) ps

-- One round, as arithmetic: `x` and `y` are the counts over the peers that are left.
loop_step :
    (r a b : Bool) (n k x y : ℕ) (rest : Bool)
    → (n == 0 && k == 0) ≡ false
    → ((less_if (r && a) n == 0 && less_if (r && b) k == 0) ≡ false
        → rest ≡ (leb (less_if (r && a) n) x && leb (less_if (r && b) k) y))
    → (if r && (less_if (r && a) n == 0 && less_if (r && b) k == 0) then true else rest)
      ≡ (leb n ((if a && r then 1 else 0) + x) && leb k ((if b && r then 1 else 0) + y))
loop_step false false false n k x y rest h ih = ground (arith, ih h)
loop_step false false true n k x y rest h ih = ground (arith, ih h)
loop_step false true false n k x y rest h ih = ground (arith, ih h)
loop_step false true true n k x y rest h ih = ground (arith, ih h)
loop_step true false false n k x y rest h ih = ground (arith, ih h)
loop_step true a b n k x y rest h ih = elim (Bool-cases (less_if a n == 0 && less_if b k == 0)) [
  | inl e ↦ rw e (ground (arith, e))
  | inr e ↦ rw (e, ih e) (ground arith)
]

-- The early exit of the loop changes nothing: it answers whether both counts are reached.
index_loop-counts :
    (c : Cluster) (i : ℕ) (mi : JsMap ℕ) (ps : JsMap String) (n k : ℕ)
    → (n == 0 && k == 0) ≡ false
    → index_loop c i mi (keys ps) n k
      ≡ (leb n (reached_members c.ocluster i mi ps) && leb k (reached_members c.ncluster i mi ps))
unfolding index_loop reached_members count_if
index_loop-counts c i mi [] n k h = ground arith
index_loop-counts c i mi ((p, u) ∷ ps) n k h =
    loop_step (reaches i (get mi p)) (has c.ocluster p) (has c.ncluster p) n k _ _ _ h
      (index_loop-counts c i mi ps _ _)

-- Who holds the index as far as the leader knows: itself, and whose match index reaches it.
unfoldable pub holds : Cluster → ℕ → JsMap ℕ → String → Bool
holds c i mi k = same c.peer_id k || reaches i (get mi k)

-- The peers counted by the loop, and this peer, are the members that hold the index.
holders :
    (c : Cluster) (i : ℕ) (mi : JsMap ℕ) (members : JsMap String)
    → IsConfigured c
    → Distinct members
    → ((k : String) → has members k ≡ true → is_member c k ≡ true)
    → count_if (holds c i mi) members
      ≡ (if has members c.peer_id then 1 else 0) + reached_members members i mi c.peers
unfolding reached_members holds
holders c i mi members v d m = others ∙ self
  where
    other : String → Bool
    other k = has c.peers k && reaches i (get mi k)

    others :
        count_if (holds c i mi) members
        ≡ (if has members c.peer_id then 1 else 0) + count_if other members
    others = elim (Bool-cases (has members c.peer_id)) [
      | inl e ↦ rw e (
          count_if-at other (holds c i mi) c.peer_id members d e
            (ground (arith, v.p_members c.peer_id, eq_iff c.peer_id c.peer_id))
            (ground (arith, eq_iff c.peer_id c.peer_id))
            (λ k h g. ground (arith, v.p_members k, m k g, h))
          ∙ omega arith)
      | inr e ↦ rw e (
          count_if-ext (holds c i mi) other members
            (λ k h. ground (arith, v.p_members k, m k h, eq_iff c.peer_id k))
          ∙ omega arith)
    ]

    self :
        (if has members c.peer_id then 1 else 0) + count_if other members
        ≡ (if has members c.peer_id then 1 else 0) + reached_members members i mi c.peers
    self =
        ap (λ (t : ℕ). (if has members c.peer_id then 1 else 0) + t)
          (count_if-both (λ k. reaches i (get mi k)) members c.peers d v.p_distinct)

enough :
    (a b : Bool) (n k x y : ℕ) (rest : Bool)
    → ((less_if a n == 0 && less_if b k == 0) ≡ false
        → rest ≡ (leb (less_if a n) x && leb (less_if b k) y))
    → (if less_if a n == 0 && less_if b k == 0 then true else rest)
      ≡ (leb n ((if a then 1 else 0) + x) && leb k ((if b then 1 else 0) + y))
enough a b n k x y rest ih = elim (Bool-cases (less_if a n == 0 && less_if b k == 0)) [
  | inl e ↦ rw e (ground (arith, e))
  | inr e ↦ rw (e, ih e) (ground arith)
]

-- `majorityHasLogIndex` answers exactly whether, in the old cluster and in the new one, as many
-- members hold the index as the majority asks, where this peer is counted as a holder.
pub majority_has_log_index-counts :
    (c : Cluster) (i : ℕ) (mi : JsMap ℕ)
    → IsConfigured c
    → majority_has_log_index c i mi ≡ (
        leb c.majority (count_if (holds c i mi) c.ocluster)
        && leb c.nc_majority (count_if (holds c i mi) c.ncluster))
unfolding majority_has_log_index
majority_has_log_index-counts c i mi v =
    rw
      (
        holders c i mi c.ocluster v v.o_distinct (λ k h. unfold is_member in ground arith),
        holders c i mi c.ncluster v v.n_distinct (λ k h. unfold is_member in ground arith),
      )
      (enough (has c.ocluster c.peer_id) (has c.ncluster c.peer_id) c.majority c.nc_majority _ _ _
        (index_loop-counts c i mi c.peers _ _))

majorities : (n x y : ℕ) → majority_of n ≤ x → majority_of n ≤ y → n < x + y
unfolding majority_of
majorities n x y h k = omega arith

won-votes :
    (c : Cluster) (bs : Ballots)
    → IsConfigured c
    → has_won_voting (run_votes (voting_start c) bs) ≡ true
    → majority_of (length c.ocluster) ≤ count_if (grants bs) c.ocluster
unfolding has_won_voting
won-votes c bs v w =
    let (o, n, m, _) = run_votes-votes c bs v.o_distinct v.n_distinct in
    ground (arith, o, m, v.o_majority, w)

-- Two candidates of one cluster that have both won share a member whose first ballot they both
-- had; as a member votes once in a term, two leaders of a term are one.
pub won_votings_overlap :
    (c d : Cluster) (bs cs : Ballots)
    → IsConfigured c
    → IsConfigured d
    → c.ocluster ≡ d.ocluster
    → has_won_voting (run_votes (voting_start c) bs) ≡ true
    → has_won_voting (run_votes (voting_start d) cs) ≡ true
    → (k : String) × (has c.ocluster k ≡ true) × (grants bs k ≡ true) × (grants cs k ≡ true)
won_votings_overlap c d bs cs v w e h g =
    overlap (grants bs) (grants cs) c.ocluster
      (majorities (length c.ocluster) _ _ (won-votes c bs v h) (rw (← e) at (won-votes d cs w g)))

-- An index that a leader may commit and a later won voting share a member: some member whose first
-- ballot elects the new leader holds the index.
pub commit_voting_overlap :
    (c d : Cluster) (i : ℕ) (mi : JsMap ℕ) (bs : Ballots)
    → IsConfigured c
    → IsConfigured d
    → c.ocluster ≡ d.ocluster
    → majority_has_log_index c i mi ≡ true
    → has_won_voting (run_votes (voting_start d) bs) ≡ true
    → (k : String) × (has c.ocluster k ≡ true) × (holds c i mi k ≡ true) × (grants bs k ≡ true)
commit_voting_overlap c d i mi bs v w e h g = overlap (holds c i mi) (grants bs) c.ocluster (
    majorities (length c.ocluster) _ _
      (ground (arith, majority_has_log_index-counts c i mi v, v.o_majority, h))
      (rw (← e) at (won-votes d bs w g)))
