-- ===== src/Cluster/Voting.antt =====
-- Voting: what the counters of `vote` count, and that two majorities share a voter.
use node_zmq_raft.Cluster.{Cluster, JsSet, add, cast, vote, voting_start}
use node_zmq_raft.Cluster.Count.{count_if, count_if-ext, count_if-none, count_if-at}
use node_zmq_raft.Prelude.{
  ℕ, suc, ◌+◌, ◌≡◌, ◌∙◌, ap, refl, Bool, true, false, not, ◌&&◌, List, [], ◌∷◌, String, arith,
  eq_iff, if◌then◌else◌, inl, inr, Bool-cases,
}
use node_zmq_raft.Prelude.JsMap.{JsMap, same, has, Distinct, has-set}

-- The calls of `vote` since the voting started, the first one first.
abbrev pub Ballots : Type 0
Ballots = List (String × Bool)

unfoldable pub run_votes : Cluster → Ballots → Cluster
run_votes c [] = c
run_votes c ((id, granted) ∷ bs) = run_votes (vote c id granted) bs

-- Whether the first ballot of `id` grants its vote: the later ones do not count.
unfoldable pub grants : Ballots → String → Bool
grants [] id = false
grants ((j, granted) ∷ bs) id = if same j id then granted else grants bs id

unfoldable pub has_cast : Ballots → String → Bool
has_cast [] id = false
has_cast ((j, granted) ∷ bs) id = if same j id then true else has_cast bs id

cast_all : JsMap String → Ballots → JsSet × ℕ → JsSet × ℕ
cast_all members [] s = s
cast_all members ((id, granted) ∷ bs) s = cast_all members bs (cast members id granted s)

-- Who counts, once `voted` have voted: the first ballot grants, and was not cast before.
abbrev counts : JsSet → Ballots → String → Bool
counts voted bs k = not (has voted k) && grants bs k

counts-skip :
    (members : JsMap String) (id : String) (granted : Bool) (bs : Ballots) (voted : JsSet)
    → (has members id && not (has voted id)) ≡ false
    → count_if (counts voted bs) members ≡ count_if (counts voted ((id, granted) ∷ bs)) members
unfolding grants
counts-skip members id granted bs voted e =
    count_if-ext (counts voted bs) (counts voted ((id, granted) ∷ bs)) members
      (λ k h. ground (arith, eq_iff id k))

counts-refused :
    (members : JsMap String) (id : String) (bs : Ballots) (voted : JsSet)
    → count_if (counts (add voted id) bs) members
      ≡ count_if (counts voted ((id, false) ∷ bs)) members
unfolding grants
counts-refused members id bs voted =
    count_if-ext (counts (add voted id) bs) (counts voted ((id, false) ∷ bs)) members
      (λ k h. ground (arith, eq_iff id k, has-set voted id k tt))

counts-granted :
    (members : JsMap String) (id : String) (bs : Ballots) (voted : JsSet)
    → Distinct members
    → (has members id && not (has voted id)) ≡ true
    → count_if (counts voted ((id, true) ∷ bs)) members
      ≡ suc (count_if (counts (add voted id) bs) members)
unfolding grants
counts-granted members id bs voted d e =
    count_if-at (counts (add voted id) bs) (counts voted ((id, true) ∷ bs)) id members d
      (ground arith) (ground (arith, eq_iff id id, has-set voted id id tt))
      (ground (arith, eq_iff id id)) (λ k h g. ground (arith, has-set voted id k tt))

cast-fresh :
    (members : JsMap String) (id : String) (granted : Bool) (voted : JsSet) (votes : ℕ)
    → (has members id && not (has voted id)) ≡ true
    → cast members id granted (voted, votes) ≡ (add voted id, if granted then suc votes else votes)
unfolding cast
cast-fresh members id granted voted votes e = rw e

cast-void :
    (members : JsMap String) (id : String) (granted : Bool) (voted : JsSet) (votes : ℕ)
    → (has members id && not (has voted id)) ≡ false
    → cast members id granted (voted, votes) ≡ (voted, votes)
unfolding cast
cast-void members id granted voted votes e = rw e

-- One half of the state after the ballots: the votes are those of members whose first ballot grants
-- one, and who had not voted before.
cast_all-votes :
    (members : JsMap String) (bs : Ballots) (voted : JsSet) (votes : ℕ)
    → Distinct members
    → (cast_all members bs (voted, votes)).1 ≡ votes + count_if (counts voted bs) members
unfolding cast_all
cast_all-votes members [] voted votes d =
    omega (arith, count_if-none (counts voted []) members (λ k. unfold grants in ground arith))
cast_all-votes members ((id, true) ∷ bs) voted votes d =
    elim (Bool-cases (has members id && not (has voted id))) [
      | inl e ↦
          ap (λ s. (cast_all members bs s).1) (cast-fresh members id true voted votes e)
          ∙ omega (
            arith,
            cast_all-votes members bs (add voted id) (suc votes) d,
            counts-granted members id bs voted d e,
          )
      | inr e ↦
          ap (λ s. (cast_all members bs s).1) (cast-void members id true voted votes e)
          ∙ omega (
            arith,
            cast_all-votes members bs voted votes d,
            counts-skip members id true bs voted e,
          )
    ]
cast_all-votes members ((id, false) ∷ bs) voted votes d =
    elim (Bool-cases (has members id && not (has voted id))) [
      | inl e ↦
          ap (λ s. (cast_all members bs s).1) (cast-fresh members id false voted votes e)
          ∙ omega (
            arith,
            cast_all-votes members bs (add voted id) votes d,
            counts-refused members id bs voted,
          )
      | inr e ↦
          ap (λ s. (cast_all members bs s).1) (cast-void members id false voted votes e)
          ∙ omega (
            arith,
            cast_all-votes members bs voted votes d,
            counts-skip members id false bs voted e,
          )
    ]

-- A voting run goes through its two halves side by side, and changes nothing else.
run_votes-halves :
    (c : Cluster) (bs : Ballots)
    → let o = cast_all c.ocluster bs (c.voted, c.votes) in
      let n = cast_all c.ncluster bs (c.nc_voted, c.nc_votes) in
      run_votes c bs ≡ record c { voted = o.0; votes = o.1; nc_voted = n.0; nc_votes = n.1 }
unfolding run_votes cast_all vote
run_votes-halves c [] = refl
run_votes-halves c ((id, granted) ∷ bs) = run_votes-halves (vote c id granted) bs

-- After `votingStart` and any ballots, the two counters hold the number of members of the old and of
-- the new cluster whose first ballot granted the vote; ballots of strangers and repeated ballots
-- count nothing. Membership and majorities stay as they were.
pub run_votes-votes :
    (c : Cluster) (bs : Ballots)
    → Distinct c.ocluster
    → Distinct c.ncluster
    → ((run_votes (voting_start c) bs).votes ≡ count_if (grants bs) c.ocluster)
      × ((run_votes (voting_start c) bs).nc_votes ≡ count_if (grants bs) c.ncluster)
      × ((run_votes (voting_start c) bs).majority ≡ c.majority)
      × ((run_votes (voting_start c) bs).nc_majority ≡ c.nc_majority)
unfolding voting_start has
run_votes-votes c bs d n = rw (run_votes-halves (voting_start c) bs) (
  cast_all-votes c.ocluster bs [] 0 d ∙ omega arith,
  cast_all-votes c.ncluster bs [] 0 n ∙ omega arith,
  refl,
  refl,
)
