-- ===== src/Cluster.antt =====
-- lib/common/cluster_configuration.js, with `parsePeers`, `majorityOf` and `mergeMaps` of
-- lib/utils/helpers.js: peer membership, its transition, and voting.
-- Whether a text is a peer url (`validatePeerUrlFormat`, on node's url parser) is a parameter.
mod Count
pub mod Voting
pub mod Membership
pub mod Quorum
pub mod PeerMaps
mod Tests
use node_zmq_raft.Prelude.{
  ℕ, zero, suc, ◌+◌, ◌-◌, ◌/◌, Bool, true, false, not, ◌&&◌, ◌||◌, List, [], ◌∷◌, ◌++◌, map, Option,
  none, some, String, length, leb, ◌==◌, if◌then◌else◌, Result, ok, err, assert, ◌>>=◌, ◌>>◌,
}
use node_zmq_raft.Prelude.JsMap
use node_zmq_raft.Prelude.JsMap.{JsMap, same}

-- A peer as it is given: an url, a tuple [id, url], or an object; `none` is `undefined`. Ids and
-- urls of another type than string, which the code refuses, are `undefined` here too.
pub data Peer : Type 0 where
  text : String → Peer
  tuple : Option String → Option String → Peer
  object : Option String → Option String → Peer
  other : Peer

pub data Error : Type 0 where
  bad_peer bad_id repeated_id bad_url repeated_url inconsistent no_peers parsing_error : Error
  no_change : Error

-- `a === undefined ? b : a`
abbrev pub or_else : Option String → Option String → Option String
or_else none b = b
or_else (some a) b = some a

unfoldable pub id_and_url : Peer → Result Error (Option String × Option String)
id_and_url (text s) = ok (some s, some s)
id_and_url (tuple id url) = ok (id, or_else url id)
id_and_url (object id url) = ok (or_else id url, or_else url (or_else id url))
id_and_url other = err bad_peer

-- A set of strings, as the keys of a map.
abbrev pub JsSet : Type 0
JsSet = JsMap (Unit {0})

abbrev pub add : JsSet → String → JsSet
add s k = JsMap.set s k tt

abbrev pub keys {ℓ} : {V : Type ℓ} → JsMap V → List String
keys [] = []
keys ((k, v) ∷ m) = k ∷ keys m

abbrev pub has_value : JsMap String → String → Bool
has_value [] u = false
has_value ((k, v) ∷ m) u = if same v u then true else has_value m u

-- `old.get(id) === peer`
abbrev pub is_same_url : Option String → String → Bool
is_same_url none u = false
is_same_url (some v) u = same v u

unfoldable pub consistent : Option (JsMap String) → String → String → Bool
consistent none id url = true
consistent (some old) id url =
    (not (JsMap.has old id) && not (has_value old url)) || is_same_url (JsMap.get old id) url

abbrev pub is_non_empty : Option String → Bool
is_non_empty none = false
is_non_empty (some s) = not (same s "")

module _ (valid_url : String → Bool) where
  -- What is asserted of one peer, when those before it are in `result`, their urls in `urls`.
  unfoldable pub check_peer :
      Option (JsMap String)
      → JsMap String
      → JsSet
      → Option String × Option String
      → Result Error (String × String)
  unfolding consistent
  check_peer old result urls (none, url) = err bad_id
  check_peer old result urls (some id, none) =
      if same id ""
      then err bad_id
      else if JsMap.has result id
      then err repeated_id
      else err bad_url
  check_peer old result urls (some id, some url) = do
    assert (not (same id "")) bad_id
    assert (not (JsMap.has result id)) repeated_id
    assert (valid_url url) bad_url
    assert (not (JsMap.has urls url)) repeated_url
    assert (consistent old id url) inconsistent
    ok (id, url)

  unfoldable pub parse_loop :
      Option (JsMap String) → List Peer → JsMap String → JsSet → Result Error (JsMap String)
  unfolding id_and_url check_peer
  parse_loop old [] result urls = ok result
  parse_loop old (peer ∷ peers) result urls = do
    parts ← id_and_url peer
    (id, url) ← check_peer old result urls parts
    parse_loop old peers (JsMap.set result id url) (add urls url)

  unfoldable pub parse_peers : List Peer → Option (JsMap String) → Result Error (JsMap String)
  unfolding parse_loop
  parse_peers peers old = do
    result ← parse_loop old peers [] []
    assert (not (length result == 0)) no_peers
    ok result

unfoldable pub majority_of : ℕ → ℕ
majority_of count = count / 2 + 1

-- `map.forEach((v, k) => target.set(k, v))`
unfoldable pub merge_map {ℓ} : {V : Type ℓ} → JsMap V → JsMap V → JsMap V
merge_map target [] = target
merge_map target ((k, v) ∷ m) = merge_map (JsMap.set target k v) m

pub record Cluster : Type 0 where
  pub peer_id : String
  pub ocluster : JsMap String
  pub ncluster : JsMap String
  pub majority : ℕ
  pub nc_majority : ℕ
  pub voted : JsSet
  pub nc_voted : JsSet
  pub votes : ℕ
  pub nc_votes : ℕ
  pub peers : JsMap String
  pub config_ary : List (String × String)

-- A configuration as it is given and stored.
pub data Config : Type 0 where
  plain : List Peer → Config
  joint : List Peer → List Peer → Config
  malformed : Config

unfoldable pub update_peers : Cluster → Cluster
unfolding merge_map
update_peers c =
    let merged = merge_map (merge_map [] c.ocluster) c.ncluster in
    record c { peers = JsMap.delete merged c.peer_id; config_ary = merged }

unfoldable pub is_member : Cluster → String → Bool
is_member c id = JsMap.has c.ocluster id || JsMap.has c.ncluster id

-- `ocluster.get(peerId) || ncluster.get(peerId)`
unfoldable pub get_url : Cluster → String → Option String
get_url c id = or_else (JsMap.get c.ocluster id) (JsMap.get c.ncluster id)

unfoldable pub is_transitional : Cluster → Bool
is_transitional c = not (c.nc_majority == 0)

unfoldable pub is_sole_master : Cluster → Bool
is_sole_master c = length c.peers == 0

-- The new maps and majorities of `replace`, before `_updatePeers`.
unfoldable pub install : Cluster → JsMap String → JsMap String → ℕ → Cluster
unfolding update_peers majority_of
install c o n nc =
    update_peers
      (record c { ocluster = o; ncluster = n; majority = majority_of (length o); nc_majority = nc })

-- `Array.from(map)`, as a configuration is given
unfoldable pub tuples : JsMap String → List Peer
tuples [] = []
tuples ((id, url) ∷ m) = tuple (some id) (some url) ∷ tuples m

unfoldable pub serialize : Cluster → Config
unfolding tuples
serialize c =
    if length c.ncluster == 0
    then plain (tuples c.ocluster)
    else joint (tuples c.ocluster) (tuples c.ncluster)

unfoldable pub serialize_nc : Cluster → List Peer
unfolding tuples
serialize_nc c = tuples c.ncluster

module _ (valid_url : String → Bool) where
  unfoldable pub replace : Cluster → Config → Result Error Cluster
  unfolding install
  replace c (plain peers) = do o ← parse_peers valid_url peers none; ok (install c o [] 0)
  replace c (joint old new) = do
    o ← parse_peers valid_url old none
    n ← parse_peers valid_url new (some o)
    ok (install c o n (majority_of (length n)))
  replace c malformed = err parsing_error

  -- What `replace` leaves where it throws: the old peers of a joint configuration are in place before
  -- the new ones are parsed.
  unfoldable pub refused_replace : Cluster → Config → Cluster
  refused_replace c (joint old new) = elim (parse_peers valid_url old none) [
    | err e ↦ c
    | ok o ↦ record c { ocluster = o }
  ]
  refused_replace c peers = c

  unfoldable pub create : String → Config → Result Error Cluster
  unfolding replace
  create id cfg =
      replace
        (record {
          peer_id = id;
          ocluster = [];
          ncluster = [];
          majority = 0;
          nc_majority = 0;
          voted = [];
          nc_voted = [];
          votes = 0;
          nc_votes = 0;
          peers = [];
          config_ary = [];
        })
        cfg

  -- `ncluster.every((pair, idx) => ocluster[idx][0] === pair[0])`, at equal lengths
  abbrev pub same_ids : JsMap String → JsMap String → Bool
  same_ids [] n = true
  same_ids (o ∷ os) [] = true
  same_ids ((j, u) ∷ os) ((k, v) ∷ ns) = same j k && same_ids os ns

  -- `null`, here `none`, while a transition is under way; else the two clusters to join.
  unfoldable pub join : Cluster → List Peer → Result Error (Option (JsMap String × JsMap String))
  join c cfg = if not (c.nc_majority == 0) then ok none else (do
    n ← parse_peers valid_url cfg (some c.ocluster)
    if (length c.ocluster == length n) && same_ids c.ocluster n
        then err no_change
        else ok (some (c.ocluster, n)))

unfoldable pub voting_start : Cluster → Cluster
voting_start c = record c { voted = []; nc_voted = []; votes = 0; nc_votes = 0 }

-- One half of `vote`: the set of those who voted and the count of the votes granted.
unfoldable pub cast : JsMap String → String → Bool → JsSet × ℕ → JsSet × ℕ
cast members id granted (voted, votes) =
    if JsMap.has members id && not (JsMap.has voted id)
    then (add voted id, if granted then suc votes else votes)
    else (voted, votes)

unfoldable pub vote : Cluster → String → Bool → Cluster
unfolding cast
vote c id granted =
    let (voted', votes') = cast c.ocluster id granted (c.voted, c.votes) in
    let (nc_voted', nc_votes') = cast c.ncluster id granted (c.nc_voted, c.nc_votes) in
    record c { voted = voted'; votes = votes'; nc_voted = nc_voted'; nc_votes = nc_votes' }

unfoldable pub majority_has_voted : Cluster → Bool
majority_has_voted c = leb c.majority (length c.voted) && leb c.nc_majority (length c.nc_voted)

unfoldable pub has_won_voting : Cluster → Bool
has_won_voting c = leb c.majority c.votes && leb c.nc_majority c.nc_votes

-- `matchIndex.get(peerId) >= logIndex`, where `undefined` is not
abbrev pub reaches : ℕ → Option ℕ → Bool
reaches i none = false
reaches i (some m) = leb i m

-- `if (map.has(peerId)) --count`. Only `count <= 0` is asked, so the count may stop at 0.
abbrev pub less_if : Bool → ℕ → ℕ
less_if true n = n - 1
less_if false n = n

unfoldable pub index_loop : Cluster → ℕ → JsMap ℕ → List String → ℕ → ℕ → Bool
index_loop c i match_index [] majority nc_majority = false
index_loop c i match_index (p ∷ ps) majority nc_majority =
    let reached = reaches i (JsMap.get match_index p) in
    let majority' = less_if (reached && JsMap.has c.ocluster p) majority in
    let nc_majority' = less_if (reached && JsMap.has c.ncluster p) nc_majority in
    let rest = index_loop c i match_index ps majority' nc_majority' in
    if reached && (majority' == 0 && nc_majority' == 0) then true else rest

unfoldable pub majority_has_log_index : Cluster → ℕ → JsMap ℕ → Bool
unfolding index_loop
majority_has_log_index c i match_index =
    let majority = less_if (JsMap.has c.ocluster c.peer_id) c.majority in
    let nc_majority = less_if (JsMap.has c.ncluster c.peer_id) c.nc_majority in
    if majority == 0 && nc_majority == 0
    then true
    else index_loop c i match_index (keys c.peers) majority nc_majority

-- `updateOtherPeersMap`: the destructor is called on the values dropped.
module _ {ℓ} {V : Type ℓ} where
  unfoldable pub keep_peers : JsMap String → JsMap V → JsMap V
  keep_peers peers [] = []
  keep_peers peers ((k, v) ∷ m) =
      if JsMap.has peers k then (k, v) ∷ keep_peers peers m else keep_peers peers m

  unfoldable pub add_missing : (String → String → V) → JsMap String → JsMap V → JsMap V
  add_missing factory [] m = m
  add_missing factory ((k, url) ∷ ps) m =
      add_missing factory ps (if JsMap.has m k then m else JsMap.set m k (factory url k))

  unfoldable pub update_other_peers_map : Cluster → JsMap V → Option (String → String → V) → JsMap V
  unfolding keep_peers add_missing
  update_other_peers_map c m none = keep_peers c.peers m
  update_other_peers_map c m (some factory) = add_missing factory c.peers (keep_peers c.peers m)

  -- `let upd = map.get(id); if (!map.delete(id)) upd = value; map.set(id, upd)`
  abbrev pub reinsert : JsMap V → String → V → JsMap V
  reinsert m k value =
      JsMap.set (JsMap.delete m k) k (elim (JsMap.get m k) [ none ↦ value | some v ↦ v ])

  unfoldable pub reinsert_all : JsMap String → V → JsMap V → JsMap V
  reinsert_all [] value m = m
  reinsert_all ((k, url) ∷ ps) value m = reinsert_all ps value (reinsert m k value)

  unfoldable pub reset_other_peers_map : Cluster → JsMap V → V → JsMap V
  unfolding keep_peers reinsert_all
  reset_other_peers_map c m value = keep_peers c.peers (reinsert_all c.peers value m)

  unfoldable pub create_other_peers_map : Cluster → Option (String → String → V) → JsMap V
  unfolding update_other_peers_map
  create_other_peers_map c factory = update_other_peers_map c [] factory
