-- ===== src/Cluster/Membership.antt =====
-- What `replace` makes of a configuration that it accepts.
use node_zmq_raft.Cluster.{
  Cluster, Config, plain, joint, malformed, no_peers, Peer, JsSet, add, id_and_url, check_peer,
  consistent, parse_loop, parse_peers, majority_of, merge_map, update_peers, install, replace,
  is_member, has_value,
}
use node_zmq_raft.Prelude.{
  ℕ, ◌<◌, ◌≡◌, ◌∙◌, refl, Bool, true, false, not, ◌&&◌, ◌||◌, List, [], ◌∷◌, Option, none, some,
  String, length, arith, eq_iff, if◌then◌else◌, ◌==◌, ok, ◌>>◌, assert, >>=-eq-ok, ok-injective,
  subst, sym,
}
use node_zmq_raft.Prelude.JsMap.{
  JsMap, same, has, set, Distinct, has-set, set-Distinct, has-delete, delete-Distinct,
}

has-merge_map {ℓ} :
    {V : Type ℓ} (t m : JsMap V) (k : String) → has (merge_map t m) k ≡ (has t k || has m k)
unfolding merge_map has
has-merge_map t [] k = ground arith
has-merge_map t ((j, v) ∷ m) k = ground (arith, has-merge_map (set t j v) m k, has-set t j k v)

merge_map-Distinct {ℓ} : {V : Type ℓ} (t m : JsMap V) → Distinct t → Distinct (merge_map t m)
unfolding merge_map
merge_map-Distinct t [] d = d
merge_map-Distinct t ((j, v) ∷ m) d = merge_map-Distinct (set t j v) m (set-Distinct t j v d)

-- What every configuration has: maps with no key twice, the two majorities, and as `peers` the
-- members of both clusters but for this peer.
pub record IsConfigured (c : Cluster) : Type 0 where
  pub o_distinct : Distinct c.ocluster
  pub n_distinct : Distinct c.ncluster
  pub o_majority : c.majority ≡ majority_of (length c.ocluster)
  pub n_majority :
      c.nc_majority ≡ (if length c.ncluster == 0 then 0 else majority_of (length c.ncluster))
  pub p_distinct : Distinct c.peers
  pub p_members : (k : String) → has c.peers k ≡ (is_member c k && not (same c.peer_id k))

some_peers :
    (r : JsMap String) {m : JsMap String}
    → (assert (not (length r == 0)) no_peers >> ok r) ≡ ok m
    → (r ≡ m) × (0 < length r)
some_peers r e = ground arith

module _ (valid_url : String → Bool) where
  -- Every id is a text that is not empty, every url is valid and agrees with the old peers, and no
  -- id and no url stands twice.
  abbrev pub IsPeerMap : Option (JsMap String) → JsMap String → Type 0
  IsPeerMap old [] = Unit {0}
  IsPeerMap old ((id, url) ∷ m) =
      (same id "" ≡ false)
      × (valid_url url ≡ true)
      × (consistent old id url ≡ true)
      × (has m id ≡ false)
      × (has_value m url ≡ false)
      × IsPeerMap old m

  IsPeerMap-Distinct :
      (old : Option (JsMap String)) (m : JsMap String) → IsPeerMap old m → Distinct m
  IsPeerMap-Distinct old [] h = tt
  IsPeerMap-Distinct old ((id, url) ∷ m) h = (h.3, IsPeerMap-Distinct old m h.5)

  has_value-set :
      (m : JsMap String) (id url u : String)
      → has m id ≡ false
      → has_value (set m id url) u ≡ (if same url u then true else has_value m u)
  unfolding set has
  has_value-set [] id url u h = refl
  has_value-set ((j, v) ∷ m) id url u h = ground (arith, has_value-set m id url u)

  -- What the checks of one peer establish.
  abbrev IsFresh : Option (JsMap String) → JsMap String → JsSet → String → String → Type 0
  IsFresh old r urls id url =
      (same id "" ≡ false)
      × (valid_url url ≡ true)
      × (consistent old id url ≡ true)
      × (has r id ≡ false)
      × (has urls url ≡ false)

  check_peer-IsFresh :
      (old : Option (JsMap String)) (r : JsMap String) (urls : JsSet)
      (parts : Option String × Option String) {id url : String}
      → check_peer valid_url old r urls parts ≡ ok (id, url)
      → IsFresh old r urls id url
  unfolding check_peer
  check_peer-IsFresh old r urls (none, url) e = cc
  check_peer-IsFresh old r urls (some id, none) e = ground arith
  check_peer-IsFresh old r urls (some id, some url) e = ground arith

  set-IsPeerMap :
      (old : Option (JsMap String)) (m : JsMap String) (id url : String)
      → IsPeerMap old m
      → (same id "" ≡ false)
      → (valid_url url ≡ true)
      → (consistent old id url ≡ true)
      → (has m id ≡ false)
      → (has_value m url ≡ false)
      → IsPeerMap old (set m id url)
  unfolding set has
  set-IsPeerMap old [] id url g a b c d e = (a, b, c, refl, refl, tt)
  set-IsPeerMap old ((j, v) ∷ m) id url g a b c d e = ground (
    arith,
    eq_iff j id,
    eq_iff id j,
    eq_iff v url,
    eq_iff url v,
    has-set m id j url,
    has_value-set m id url v,
    set-IsPeerMap old m id url,
  )

  abbrev Holds : JsSet → JsMap String → Type 0
  Holds urls m = (u : String) → has urls u ≡ has_value m u

  Holds-set :
      (urls : JsSet) (m : JsMap String) (id url : String)
      → has m id ≡ false
      → Holds urls m
      → Holds (add urls url) (set m id url)
  Holds-set urls m id url f h u =
      ground (arith, has-set urls url u tt, has_value-set m id url u f, h u)

  parse_loop-IsPeerMap :
      (old : Option (JsMap String)) (ps : List Peer) (r : JsMap String) (urls : JsSet)
      {m : JsMap String}
      → IsPeerMap old r
      → Holds urls r
      → parse_loop valid_url old ps r urls ≡ ok m
      → IsPeerMap old m
  unfolding parse_loop
  parse_loop-IsPeerMap old [] r urls g h e = subst (IsPeerMap old) (ok-injective e) g
  parse_loop-IsPeerMap old (p ∷ ps) r urls g h e =
      let (parts, e₁, f) = >>=-eq-ok (id_and_url p) _ e in
      let ((id, url), e₂, f₂) = >>=-eq-ok (check_peer valid_url old r urls parts) _ f in
      let fresh = check_peer-IsFresh old r urls parts e₂ in
      parse_loop-IsPeerMap old ps (set r id url) (add urls url)
        (set-IsPeerMap old r id url g fresh.0 fresh.1 fresh.2 fresh.3 (sym (h url) ∙ fresh.4))
        (Holds-set urls r id url fresh.3 h) f₂

  -- What `parsePeers` accepts is a map of peers, and is not empty.
  pub parse_peers-IsPeerMap :
      (ps : List Peer) (old : Option (JsMap String)) {m : JsMap String}
      → parse_peers valid_url ps old ≡ ok m
      → IsPeerMap old m × (0 < length m)
  unfolding parse_peers
  parse_peers-IsPeerMap ps old e =
      let (r, e₁, f) = >>=-eq-ok (parse_loop valid_url old ps [] []) _ e in
      let (same_map, some_peer) = some_peers r f in
      subst (λ k. IsPeerMap old k × (0 < length k)) same_map
        (parse_loop-IsPeerMap old ps [] [] tt (λ u. unfold has in refl) e₁, some_peer)

install-IsConfigured :
    (c : Cluster) (o n : JsMap String) (nc : ℕ)
    → Distinct o
    → Distinct n
    → nc ≡ (if length n == 0 then 0 else majority_of (length n))
    → IsConfigured (install c o n nc)
unfolding install update_peers is_member has
install-IsConfigured c o n nc d e h = record {
  o_distinct = d;
  n_distinct = e;
  o_majority = refl;
  n_majority = h;
  p_distinct = delete-Distinct _ c.peer_id (merge_map-Distinct _ n (merge_map-Distinct [] o tt));
  p_members = λ k. ground (
    arith,
    has-delete (merge_map (merge_map [] o) n) c.peer_id k
        (merge_map-Distinct _ n (merge_map-Distinct [] o tt)),
    has-merge_map (merge_map [] o) n k,
    has-merge_map [] o k,
  );
}

module _ (valid_url : String → Bool) where
  -- Whatever `replace` accepts, the result is configured.
  pub replace-IsConfigured :
      (c : Cluster) (cfg : Config) {d : Cluster} → replace valid_url c cfg ≡ ok d → IsConfigured d
  unfolding replace
  replace-IsConfigured c (plain peers) e =
      let (o, e₁, f) = >>=-eq-ok (parse_peers valid_url peers none) _ e in
      subst IsConfigured (ok-injective f) (
        install-IsConfigured c o [] 0
          (IsPeerMap-Distinct valid_url none o (parse_peers-IsPeerMap valid_url peers none e₁).0) tt
          refl)
  replace-IsConfigured c (joint old new) e =
      let (o, e₁, f) = >>=-eq-ok (parse_peers valid_url old none) _ e in
      let (n, e₂, g) = >>=-eq-ok (parse_peers valid_url new (some o)) _ f in
      let given = parse_peers-IsPeerMap valid_url new (some o) e₂ in
      subst IsConfigured (ok-injective g) (
        install-IsConfigured c o n (majority_of (length n))
          (IsPeerMap-Distinct valid_url none o (parse_peers-IsPeerMap valid_url old none e₁).0)
          (IsPeerMap-Distinct valid_url (some o) n given.0) (ground (arith, given.1)))
  replace-IsConfigured c malformed e = cc
