-- ===== src/Cluster/PeerMaps.antt =====
-- The per-peer maps of a server (`nextIndex`, `matchIndex`, rpc sockets, ...) after the membership
-- has changed.
use node_zmq_raft.Cluster.{
  Cluster, keep_peers, add_missing, update_other_peers_map, reinsert, reinsert_all,
  reset_other_peers_map,
}
use node_zmq_raft.Prelude.{
  ◌≡◌, refl, [], ◌∷◌, Option, none, some, String, arith, eq_iff, if◌then◌else◌,
}
use node_zmq_raft.Prelude.JsMap.{
  JsMap, same, has, get, set, delete, Distinct, has-get, get-set, get-delete, set-Distinct,
  delete-Distinct,
}

module _ {ℓ} {V : Type ℓ} where
  -- `a`, or `b` where it is `undefined`
  abbrev pub or_value : Option V → V → V
  or_value none b = b
  or_value (some a) b = a

  get-keep_peers :
      (peers : JsMap String) (m : JsMap V) (k : String)
      → get (keep_peers peers m) k ≡ (if has peers k then get m k else none)
  unfolding keep_peers get
  get-keep_peers peers [] k = ground arith
  get-keep_peers peers ((j, v) ∷ m) k = ground (arith, eq_iff j k, get-keep_peers peers m k)

  get-add_missing :
      (f : String → String → V) (ps : JsMap String) (m : JsMap V) (k : String)
      → get (add_missing f ps m) k ≡ elim (get m k) [
        | some v ↦ some v
        | none ↦ elim (get ps k) [ none ↦ none | some url ↦ some (f url k) ]
      ]
  unfolding add_missing get
  get-add_missing f [] m k = ground arith
  get-add_missing f ((j, url) ∷ ps) m k = ground (
    arith,
    eq_iff j k,
    has-get m j,
    get-set m j k (f url j),
    get-add_missing f ps m k,
    get-add_missing f ps (set m j (f url j)) k,
  )

  -- After `updateOtherPeersMap` the keys are the other peers: a value that was there is kept, a
  -- missing one made by the factory from the peer's url, and every other one dropped.
  pub get-update_other_peers_map :
      (c : Cluster) (m : JsMap V) (f : String → String → V) (k : String)
      → get (update_other_peers_map c m (some f)) k
        ≡ elim (get c.peers k) [ none ↦ none | some url ↦ some (or_value (get m k) (f url k)) ]
  unfolding update_other_peers_map
  get-update_other_peers_map c m f k = ground (
    arith,
    get-add_missing f c.peers (keep_peers c.peers m) k,
    get-keep_peers c.peers m k,
    has-get c.peers k,
  )

  get-reinsert :
      (m : JsMap V) (k : String) (value : V) (j : String)
      → Distinct m
      → get (reinsert m k value) j ≡ (if same k j then some (or_value (get m k) value) else get m j)
  get-reinsert m k value j d =
      ground (arith, get-set (delete m k) k j (or_value (get m k) value), get-delete m k j d)

  reinsert-Distinct :
      (m : JsMap V) (k : String) (value : V) → Distinct m → Distinct (reinsert m k value)
  reinsert-Distinct m k value d = set-Distinct (delete m k) k _ (delete-Distinct m k d)

  get-reinsert_all :
      (ps : JsMap String) (value : V) (m : JsMap V) (k : String)
      → Distinct m
      → get (reinsert_all ps value m) k
        ≡ (if has ps k then some (or_value (get m k) value) else get m k)
  unfolding reinsert_all has
  get-reinsert_all [] value m k d = refl
  get-reinsert_all ((j, url) ∷ ps) value m k d = ground (
    arith,
    eq_iff j k,
    get-reinsert m j value k d,
    get-reinsert_all ps value (reinsert m j value) k (reinsert-Distinct m j value d),
  )

  -- After `resetOtherPeersMap` the keys are the other peers: a value that was there is kept, and a
  -- missing one is the given value.
  pub get-reset_other_peers_map :
      (c : Cluster) (m : JsMap V) (value : V) (k : String)
      → Distinct m
      → get (reset_other_peers_map c m value) k
        ≡ (if has c.peers k then some (or_value (get m k) value) else none)
  unfolding reset_other_peers_map
  get-reset_other_peers_map c m value k d = ground (
    arith,
    get-keep_peers c.peers (reinsert_all c.peers value m) k,
    get-reinsert_all c.peers value m k d,
  )
