-- ===== src/Cluster/Count.antt =====
-- Counting the members of a cluster that satisfy a test, and the quorums that must overlap.
use node_zmq_raft.Prelude.{
  ℕ, suc, ◌+◌, ◌≤◌, ◌<◌, ◌≡◌, refl, sym, Bool, true, false, ◌&&◌, [], ◌∷◌, String, length, arith,
  eq_iff, if◌then◌else◌, inl, inr, Bool-cases,
}
use text.Mathlib.TextPositions.{eq_refl}
use node_zmq_raft.Prelude.JsMap.{JsMap, same, has, Distinct}

module _ {ℓ} {V : Type ℓ} where
  unfoldable pub count_if : (String → Bool) → JsMap V → ℕ
  count_if p [] = 0
  count_if p ((k, v) ∷ m) = (if p k then 1 else 0) + count_if p m

  pub count_if-le : (p : String → Bool) (m : JsMap V) → count_if p m ≤ length m
  unfolding count_if
  count_if-le p [] = omega arith
  count_if-le p ((k, v) ∷ m) = ground (arith, count_if-le p m)

  has-head : (k : String) (v : V) (m : JsMap V) → has ((k, v) ∷ m) k ≡ true
  unfolding has
  has-head k v m = rw (eq_refl k)

  has-tail : (j k : String) (v : V) (m : JsMap V) → has m j ≡ true → has ((k, v) ∷ m) j ≡ true
  unfolding has
  has-tail j k v m h = ground arith

  pub count_if-none :
      (p : String → Bool) (m : JsMap V) → ((k : String) → p k ≡ false) → count_if p m ≡ 0
  unfolding count_if
  count_if-none p [] h = refl
  count_if-none p ((k, v) ∷ m) h = ground (arith, h k, count_if-none p m h)

  -- Tests that agree on the keys count the same.
  pub count_if-ext :
      (p q : String → Bool) (m : JsMap V)
      → ((k : String) → has m k ≡ true → p k ≡ q k)
      → count_if p m ≡ count_if q m
  unfolding count_if has
  count_if-ext p q [] h = refl
  count_if-ext p q ((k, v) ∷ m) h =
      ground (arith, h k (has-head k v m), count_if-ext p q m (λ j e. h j (has-tail j k v m e)))

  apart : (i j : String) (m : JsMap V) → has m i ≡ false → has m j ≡ true → same i j ≡ false
  apart i j m h g = ground (arith, eq_iff i j)

  -- A test changed at one key of the map, where it was false, counts one more.
  pub count_if-at :
      (p q : String → Bool) (i : String) (m : JsMap V)
      → Distinct m
      → has m i ≡ true
      → p i ≡ false
      → q i ≡ true
      → ((k : String) → same i k ≡ false → has m k ≡ true → p k ≡ q k)
      → count_if q m ≡ suc (count_if p m)
  unfolding count_if has
  count_if-at p q i [] d h pi qi agree = cc
  count_if-at p q i ((k, v) ∷ m) d h pi qi agree = elim (Bool-cases (same k i)) [
    | inl e ↦
        let gone : has m i ≡ false = ground (arith, eq_iff k i) in
        ground (
          arith,
          eq_iff k i,
          count_if-ext p q m (λ j f. agree j (apart i j m gone f) (has-tail j k v m f)),
        )
    | inr e ↦ ground (
      arith,
      agree k (ground (arith, eq_iff k i, eq_iff i k)) (has-head k v m),
      count_if-at p q i m d.1 (ground arith) pi qi (λ j f g. agree j f (has-tail j k v m g)),
    )
  ]

  -- Where two tests count more than there are keys, some key satisfies both.
  pub overlap :
      (p q : String → Bool) (m : JsMap V)
      → length m < count_if p m + count_if q m
      → (k : String) × (has m k ≡ true) × (p k ≡ true) × (q k ≡ true)
  overlap p q [] h = absurd (unfold count_if in omega arith)
  overlap p q ((k, v) ∷ m) h = elim (Bool-cases (p k && q k)) [
    | inl e ↦ (k, has-head k v m, ground arith, ground arith)
    | inr e ↦
        let (j, a, b, c) = overlap p q m (unfold count_if in ground arith) in
        (j, has-tail j k v m a, b, c)
  ]

  -- Keys of two maps that both satisfy a test, counted from either side.
  pub count_if-both :
      (p : String → Bool) (m n : JsMap V)
      → Distinct m
      → Distinct n
      → count_if (λ k. has n k && p k) m ≡ count_if (λ k. has m k && p k) n
  unfolding count_if has
  count_if-both p [] n d e = sym (count_if-none (λ k. false) n (λ k. refl))
  count_if-both p ((i, v) ∷ m) n d e = elim (Bool-cases (has n i && p i)) [
    | inl t ↦ rw t (
        ground (
          arith,
          count_if-both p m n d.1 e,
          count_if-at (λ k. has m k && p k) (λ k. (if same i k then true else has m k) && p k) i n e
              (ground arith) (ground (arith, d.0)) (ground (arith, eq_iff i i))
              (λ k h g. ground (arith, h)),
        ))
    | inr t ↦ rw t (
        ground (
          arith,
          count_if-both p m n d.1 e,
          count_if-ext (λ k. has m k && p k) (λ k. (if same i k then true else has m k) && p k) n
              (λ k h. ground (arith, eq_iff i k, d.0)),
        ))
  ]
