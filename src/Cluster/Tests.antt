-- ===== src/Cluster/Tests.antt =====
-- The theorems on lib/common/cluster_configuration.js at a cluster of three, and its growth.
use node_zmq_raft.Cluster.{
  Cluster, plain, Peer, tuple, replace, install, update_peers, parse_peers, parse_loop, check_peer,
  id_and_url, consistent, majority_of, merge_map, voting_start, vote, cast, has_won_voting,
  index_loop, majority_has_log_index, update_other_peers_map, reset_other_peers_map,
}
use node_zmq_raft.Cluster.Count.{count_if}
use node_zmq_raft.Cluster.Voting.{Ballots, run_votes, grants, run_votes-votes}
use node_zmq_raft.Cluster.Membership.{
  IsConfigured, IsPeerMap, parse_peers-IsPeerMap, replace-IsConfigured,
}
use node_zmq_raft.Cluster.Quorum.{
  holds, majority_has_log_index-counts, won_votings_overlap, commit_voting_overlap,
}
use node_zmq_raft.Cluster.PeerMaps.{or_value, get-update_other_peers_map, get-reset_other_peers_map}
use node_zmq_raft.Prelude.{
  ℕ, ◌<◌, ◌≡◌, refl, Bool, true, false, ◌&&◌, List, [], ◌∷◌, none, some, String, ok, length, leb,
  if◌then◌else◌,
}
use node_zmq_raft.Prelude.JsMap
use node_zmq_raft.Prelude.JsMap.{JsMap, get, has, Distinct}

abbrev any_url : String → Bool
any_url url = true

abbrev blank : Cluster
blank = record {
  peer_id = "a";
  ocluster = [];
  ncluster = [];
  majority = 0;
  nc_majority = 0;
  voted = [];
  nc_voted = [];
  votes = 0;
  nc_votes = 0;
  peers = [];
  config_ary = [];
}

abbrev peers_given : List Peer
peers_given =
    tuple (some "a") (some "u1") ∷ tuple (some "b") (some "u2") ∷ tuple (some "c") (some "u3") ∷ []

abbrev members : JsMap String
members = ("a", "u1") ∷ ("b", "u2") ∷ ("c", "u3") ∷ []

abbrev three : Cluster
three = record blank {
  ocluster = members;
  majority = 2;
  peers = ("b", "u2") ∷ ("c", "u3") ∷ [];
  config_ary = members;
}

parse_three : parse_peers any_url peers_given none ≡ ok members
unfolding parse_peers parse_loop check_peer id_and_url consistent JsMap.has JsMap.set JsMap.get
parse_three = refl

replace-three : replace any_url blank (plain peers_given) ≡ ok three
unfolding replace install update_peers majority_of merge_map parse_peers parse_loop check_peer
    id_and_url consistent JsMap.has JsMap.set JsMap.get JsMap.delete
replace-three = refl

parse_peers-IsPeerMap_example : IsPeerMap any_url none members × (0 < length members)
parse_peers-IsPeerMap_example = parse_peers-IsPeerMap any_url peers_given none parse_three

replace-IsConfigured_example : IsConfigured three
replace-IsConfigured_example = replace-IsConfigured any_url blank (plain peers_given) replace-three

three-IsConfigured : IsConfigured three
three-IsConfigured = replace-IsConfigured any_url blank (plain peers_given) replace-three

members-Distinct : Distinct members
unfolding JsMap.has
members-Distinct = (refl, (refl, (refl, tt)))

abbrev ballots : Ballots
ballots = ("a", true) ∷ ("c", false) ∷ ("b", true) ∷ []

run_votes-votes_example :
    ((run_votes (voting_start three) ballots).votes ≡ count_if (grants ballots) members)
    × ((run_votes (voting_start three) ballots).nc_votes ≡ count_if (grants ballots) three.ncluster)
    × ((run_votes (voting_start three) ballots).majority ≡ 2)
    × ((run_votes (voting_start three) ballots).nc_majority ≡ 0)
run_votes-votes_example = run_votes-votes three ballots members-Distinct tt

abbrev stored_at : JsMap ℕ
stored_at = ("b", 5) ∷ ("c", 1) ∷ []

majority_has_log_index-counts_example : majority_has_log_index three 4 stored_at ≡ (
    leb 2 (count_if (holds three 4 stored_at) members)
    && leb 0 (count_if (holds three 4 stored_at) three.ncluster))
majority_has_log_index-counts_example =
    majority_has_log_index-counts three 4 stored_at three-IsConfigured

abbrev other_ballots : Ballots
other_ballots = ("b", true) ∷ ("c", true) ∷ []

won : has_won_voting (run_votes (voting_start three) ballots) ≡ true
unfolding has_won_voting run_votes voting_start vote cast JsMap.has JsMap.set
won = refl

other_won : has_won_voting (run_votes (voting_start three) other_ballots) ≡ true
unfolding has_won_voting run_votes voting_start vote cast JsMap.has JsMap.set
other_won = refl

stored_by_two : majority_has_log_index three 4 stored_at ≡ true
unfolding majority_has_log_index index_loop JsMap.has JsMap.get
stored_by_two = refl

won_votings_overlap_example :
    (k : String) × (has members k ≡ true)
    × (grants ballots k ≡ true)
    × (grants other_ballots k ≡ true)
won_votings_overlap_example =
    won_votings_overlap three three ballots other_ballots three-IsConfigured three-IsConfigured refl
      won other_won

commit_voting_overlap_example :
    (k : String) × (has members k ≡ true)
    × (holds three 4 stored_at k ≡ true)
    × (grants other_ballots k ≡ true)
commit_voting_overlap_example =
    commit_voting_overlap three three 4 stored_at other_ballots three-IsConfigured
      three-IsConfigured refl stored_by_two other_won

abbrev lengths : String → String → ℕ
lengths url id = 7

get-update_other_peers_map_example :
    get (update_other_peers_map three stored_at (some lengths)) "b" ≡ elim (get three.peers "b") [
      | none ↦ none
      | some url ↦ some (or_value (get stored_at "b") (lengths url "b"))
    ]
get-update_other_peers_map_example = get-update_other_peers_map three stored_at lengths "b"

stored_at-Distinct : Distinct stored_at
unfolding JsMap.has
stored_at-Distinct = (refl, (refl, tt))

get-reset_other_peers_map_example :
    get (reset_other_peers_map three stored_at 0) "c"
    ≡ (if has three.peers "c" then some (or_value (get stored_at "c") 0) else none)
get-reset_other_peers_map_example =
    get-reset_other_peers_map three stored_at 0 "c" stored_at-Distinct
