-- ===== src/LogEntry/LastConfig.antt =====
-- `lastConfigOffsetOf` finds the last configuration entry, and what a sane request id promises.
use node_zmq_raft.LogEntry.{
  read_type_of, last_config_loop, last_config_offset_of, has_request_expired, check_request_sanity,
  sane, Error,
}
use node_zmq_raft.Prelude.{
  ℕ, zero, suc, ◌+◌, ◌<◌, ◌≤◌, ◌≡◌, ◌≢◌, true, false, List, [], Option, none, some, length, get_or,
  arith, ◌==◌, Result, ok, Bool-cases, inl, inr, if◌then◌else◌, ◌⊎◌, subst, sym, ap, ◌∙◌,
  ok-injective, >>=-eq-ok, ==_iff,
}

-- What the answer of the search says of the first `n` entries.
unfoldable pub IsLastConfig : List (List ℕ) → ℕ → Option ℕ → Type 0
IsLastConfig entries n none = (k : ℕ) → k < n → read_type_of (get_or entries k []) ≢ ok 1
IsLastConfig entries n (some i) =
    (i < n)
    × (read_type_of (get_or entries i []) ≡ ok 1)
    × ((k : ℕ) → i < k → k < n → read_type_of (get_or entries k []) ≢ ok 1)

extend :
    (entries : List (List ℕ)) (n k : ℕ)
    → read_type_of (get_or entries n []) ≢ ok 1
    → k < suc n
    → (k < n → read_type_of (get_or entries k []) ≢ ok 1)
    → read_type_of (get_or entries k []) ≢ ok 1
extend entries n k h lt below = elim (le_or_eq k n lt) [
  | inl l ↦ below l
  | inr e ↦ subst (λ j. read_type_of (get_or entries j []) ≢ ok 1) (sym e) h
]
  where
    le_or_eq : (k n : ℕ) → k < suc n → (k < n) ⊎ (k ≡ n)
    le_or_eq k n l = ground arith

step :
    (entries : List (List ℕ)) (n : ℕ) (r : Option ℕ)
    → read_type_of (get_or entries n []) ≢ ok 1
    → IsLastConfig entries n r
    → IsLastConfig entries (suc n) r
unfolding IsLastConfig
step entries n none h ih = λ k lt. extend entries n k h lt (ih k)
step entries n (some i) h (a, b, c) = (omega arith, b, λ k l m. extend entries n k h m (c k l))

tests_eq : (a b : ℕ) → (a == b) ≡ true → a ≡ b
tests_eq a b h = ground arith

found :
    (entries : List (List ℕ)) (n type : ℕ)
    → read_type_of (get_or entries n []) ≡ ok type
    → (type == 1) ≡ true
    → IsLastConfig entries (suc n) (some n)
unfolding IsLastConfig
found entries n type e t =
    (omega arith, e ∙ ap ok (tests_eq type 1 t), λ k l m. absurd (omega arith))

none_below : (entries : List (List ℕ)) → IsLastConfig entries 0 none
unfolding IsLastConfig
none_below entries = λ k lt. absurd (omega arith)

not_config : (type : ℕ) (r : Result Error ℕ) → r ≡ ok type → (type == 1) ≡ false → r ≢ ok 1
not_config type r e t h = ground (arith, ok-injective (sym e ∙ h), ==_iff type 1)

loop :
    (entries : List (List ℕ)) (n : ℕ) (r : Option ℕ)
    → last_config_loop entries n ≡ ok r
    → IsLastConfig entries n r
unfolding last_config_loop
loop entries zero r h = subst (IsLastConfig entries 0) (ok-injective h) (none_below entries)
loop entries (suc n) r h =
    let (type, e, rest) =
      >>=-eq-ok (read_type_of (get_or entries n []))
        (λ type. if type == 1 then ok (some n) else last_config_loop entries n) h in
    elim (Bool-cases (type == 1)) [
      | inl t ↦
          subst (IsLastConfig entries (suc n))
            (ok-injective
              (sym (ap (λ b. if b then ok (some n) else last_config_loop entries n) t) ∙ rest))
            (found entries n type e t)
      | inr t ↦ step entries n r (not_config type (read_type_of (get_or entries n [])) e t) (
          loop entries n r
            (sym (ap (λ b. if b then ok (some n) else last_config_loop entries n) t) ∙ rest))
    ]

-- `lastConfigOffsetOf` gives the place of the last configuration entry: that entry is one, and none
-- behind it is; without a result no entry is a configuration.
pub last_config_offset_of-IsLastConfig :
    (entries : List (List ℕ)) (r : Option ℕ)
    → last_config_offset_of entries ≡ ok r
    → IsLastConfig entries (length entries) r
unfolding last_config_offset_of
last_config_offset_of-IsLastConfig entries r h = loop entries (length entries) r h

-- A request id that passes the sanity check at `now` is not expired then, nor at any later time up to
-- the past margin.
pub sane-unexpired :
    (ttl past future now later seconds : ℕ)
    → check_request_sanity (some ttl) past future now seconds ≡ sane
    → now ≤ later
    → later ≤ now + past
    → has_request_expired (some ttl) later seconds ≡ false
unfolding check_request_sanity has_request_expired
sane-unexpired ttl past future now later seconds h l m = ground arith
