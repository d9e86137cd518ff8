-- ===== src/FileLog/Search.antt =====
-- `bSearch` of lib/server/filelog.js, over names that are compared as their numbers are: names of one
-- length, in hexadecimal.
use node_zmq_raft.Prelude.{
  ℕ, zero, suc, ◌+◌, ◌-◌, ◌/◌, ◌<◌, ◌≤◌, ◌≡◌, refl, true, false, List, [], ◌∷◌, Option, none, some,
  length, get_or, ltb, leb, ◌==◌, arith, if◌then◌else◌, ◌⊎◌, inl, inr, Bool-cases, subst, sym,
  leb→le,
}

-- `while(lo < hi)`: where it ends, the place looked at last.
unfoldable pub search_loop : ℕ → List ℕ → ℕ → ℕ → ℕ → ℕ
search_loop zero entries searched lo hi = lo
search_loop (suc fuel) entries searched lo hi =
    let mid = (lo + hi + 1) / 2 in
    let above = search_loop fuel entries searched mid hi in
    let under = search_loop fuel entries searched lo (mid - 1) in
    if ltb lo hi then (if ltb searched (get_or entries mid 0) then under else above) else mid

unfoldable pub b_search : List ℕ → ℕ → Option ℕ
unfolding search_loop
b_search entries searched =
    if length entries == 0
    then none
    else (let found =
          get_or entries (search_loop (length entries) entries searched 0 (length entries - 1)) 0 in
        if leb found searched then some found else none)

abbrev pub entry_at : List ℕ → ℕ → ℕ
entry_at entries i = get_or entries i 0

unfoldable pub IsSorted : List ℕ → Type 0
IsSorted entries = (i j : ℕ) → i ≤ j → j < length entries → entry_at entries i ≤ entry_at entries j

-- Everything behind a place is greater than what is searched.
unfoldable pub AboveFrom : List ℕ → ℕ → ℕ → Type 0
AboveFrom entries searched r = (k : ℕ) → r < k → k < length entries → searched < entry_at entries k

smaller : (a b : ℕ) → ltb a b ≡ true → a < b
smaller a b t = ground arith

not_above : (a b : ℕ) → ltb a b ≡ false → b ≤ a
not_above a b u = ground arith

-- Where a search that may still go up to `hi` may end.
unfoldable pub EndsAt : List ℕ → ℕ → ℕ → ℕ → Type 0
EndsAt entries searched hi r =
    (r ≤ hi) × AboveFrom entries searched r × ((r ≡ 0) ⊎ (entry_at entries r ≤ searched))

above_mid :
    (entries : List ℕ) (searched mid : ℕ)
    → IsSorted entries
    → searched < entry_at entries mid
    → AboveFrom entries searched (mid - 1)
unfolding IsSorted AboveFrom
above_mid entries searched mid sorted l k m n = omega (arith, sorted mid k (omega arith) n)

widen :
    (entries : List ℕ) (searched lo hi r : ℕ)
    → lo ≤ hi
    → EndsAt entries searched lo r
    → EndsAt entries searched hi r
unfolding EndsAt
widen entries searched lo hi r l (a, b, c) = (omega arith, b, c)

single :
    (entries : List ℕ) (searched r hi : ℕ)
    → r ≡ hi
    → AboveFrom entries searched hi
    → (r ≡ 0) ⊎ (entry_at entries r ≤ searched)
    → EndsAt entries searched hi r
unfolding EndsAt
single entries searched r hi e a b = (omega arith, subst (AboveFrom entries searched) (sym e) a, b)

loop-EndsAt :
    (fuel : ℕ) (entries : List ℕ) (searched lo hi : ℕ)
    → IsSorted entries
    → lo ≤ hi
    → hi - lo ≤ fuel
    → AboveFrom entries searched hi
    → (lo ≡ 0) ⊎ (entry_at entries lo ≤ searched)
    → EndsAt entries searched hi (search_loop fuel entries searched lo hi)
unfolding search_loop
loop-EndsAt zero entries searched lo hi sorted l f a b =
    single entries searched lo hi (omega arith) a b
loop-EndsAt (suc fuel) entries searched lo hi sorted l f a b = elim (Bool-cases (ltb lo hi)) [
  | inl t ↦ elim (Bool-cases (ltb searched (entry_at entries ((lo + hi + 1) / 2)))) [
    | inl u ↦
        rw (t, u)
          (widen entries searched ((lo + hi + 1) / 2 - 1) hi _ (omega (arith, smaller lo hi t)) (
            loop-EndsAt fuel entries searched lo ((lo + hi + 1) / 2 - 1) sorted
              (omega (arith, smaller lo hi t)) (omega (arith, smaller lo hi t))
              (above_mid entries searched ((lo + hi + 1) / 2) sorted
                (smaller searched (entry_at entries ((lo + hi + 1) / 2)) u))
              b))
    | inr u ↦
        rw (t, u)
          (loop-EndsAt fuel entries searched ((lo + hi + 1) / 2) hi sorted (omega arith)
            (omega (arith, smaller lo hi t)) a
            (inr (not_above searched (entry_at entries ((lo + hi + 1) / 2)) u)))
  ]
  | inr t ↦ rw t (
      single entries searched ((lo + hi + 1) / 2) hi (omega (arith, not_above lo hi t)) a (
        subst (λ r. (r ≡ 0) ⊎ (entry_at entries r ≤ searched)) (omega (arith, not_above lo hi t))
          b))
]

-- What the search says of the names: the closest not above, or that all are above.
unfoldable pub IsClosest : List ℕ → ℕ → Option ℕ → Type 0
IsClosest entries searched none = (k : ℕ) → k < length entries → searched < entry_at entries k
IsClosest entries searched (some found) =
    (found ≤ searched)
    × (r : ℕ) × (r < length entries)
    × (entry_at entries r ≡ found)
    × AboveFrom entries searched r

last_above : (entries : List ℕ) (searched : ℕ) → AboveFrom entries searched (length entries - 1)
unfolding AboveFrom
last_above entries searched k l m = absurd (omega arith)

suc_not_zero : (n : ℕ) → (suc n == 0) ≡ false
suc_not_zero n = ground arith

decide :
    (entries : List ℕ) (searched r : ℕ)
    → 0 < length entries
    → EndsAt entries searched (length entries - 1) r
    → IsClosest entries searched
        (if leb (entry_at entries r) searched then some (entry_at entries r) else none)
unfolding IsClosest EndsAt AboveFrom IsSorted
decide entries searched r pos (a, b, c) = elim (Bool-cases (leb (entry_at entries r) searched)) [
  | inl t ↦ rw t (leb→le (entry_at entries r) searched t, r, omega arith, refl, b)
  | inr t ↦ rw t (λ k l. elim c [
    | inl z ↦ first t k l z (b k)
    | inr small ↦ absurd (omega (arith, over (entry_at entries r) searched t))
  ])
]
  where
    over : (a s : ℕ) → leb a s ≡ false → s < a
    over a s t = ground arith

    first :
        leb (entry_at entries r) searched ≡ false
        → (k : ℕ) → k < length entries
        → r ≡ 0
        → (r < k → k < length entries → searched < entry_at entries k)
        → searched < entry_at entries k
    first t zero l z rest =
        subst (λ i. searched < entry_at entries i) z (over (entry_at entries r) searched t)
    first t (suc k) l z rest = rest (omega arith) l

-- In sorted names the search finds the last one that is not above what is searched, or nothing
-- when all are.
pub b_search-IsClosest :
    (entries : List ℕ) (searched : ℕ)
    → IsSorted entries
    → IsClosest entries searched (b_search entries searched)
unfolding b_search IsClosest
b_search-IsClosest [] searched sorted = λ k l. absurd (omega arith)
b_search-IsClosest (x ∷ entries) searched sorted = rw (suc_not_zero (length entries)) (
    decide (x ∷ entries) searched
      (search_loop (length (x ∷ entries)) (x ∷ entries) searched 0 (length (x ∷ entries) - 1))
      (omega arith)
      (loop-EndsAt (length (x ∷ entries)) (x ∷ entries) searched 0 (length (x ∷ entries) - 1) sorted
        (omega arith) (omega arith) (last_above (x ∷ entries) searched) (inl refl)))
