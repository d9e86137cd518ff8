-- ===== src/IndexFile/Sizes.antt =====
-- `countEntriesFitSize` of lib/common/indexfile.js: the most entries that fit.
use node_zmq_raft.Prelude.{
  ℕ, zero, suc, ◌+◌, ◌-◌, ◌/◌, ◌<◌, ◌≤◌, ◌≡◌, refl, arith, ◌∙◌, sym, true, false, ◌==◌, ltb, ok, ap,
  Bool-cases, subst, lt→ltb, inl, inr, ◌⊎◌, some, Option,
}
use node_zmq_raft.IndexFile.{
  IndexFile, before, span, get_byte_size, exceeds, fit_loop, count_from, count_entries_fit_size,
}
use node_zmq_raft.IndexFile.Entries.{before-le, IsWritten-fewer}
use node_zmq_raft.IndexFile.Committed.{IsCommitted}
use node_zmq_raft.IndexFile.Reading.{get_byte_size-at}

exceeds-ltb :
    (size maxlength : ℕ)
    → maxlength < 2147483648
    → exceeds (some size) maxlength ≡ ltb maxlength size
unfolding exceeds
exceeds-ltb size maxlength h = ground arith

-- The branches of the loop.
module _ (f : IndexFile) (index maxlength fuel lo above : ℕ) where
  fit_loop-done :
      ltb (suc lo) above ≡ false
      → fit_loop f index maxlength (suc fuel) lo above ≡ some ((lo + above) / 2)
  unfolding fit_loop
  fit_loop-done e = rw e refl

  fit_loop-lower :
      ltb (suc lo) above ≡ true
      → exceeds (get_byte_size f index ((lo + above) / 2)) maxlength ≡ true
      → fit_loop f index maxlength (suc fuel) lo above
        ≡ fit_loop f index maxlength fuel lo ((lo + above) / 2)
  unfolding fit_loop
  fit_loop-lower e d = rw (e, d) refl

  fit_loop-upper :
      ltb (suc lo) above ≡ true
      → exceeds (get_byte_size f index ((lo + above) / 2)) maxlength ≡ false
      → fit_loop f index maxlength (suc fuel) lo above
        ≡ fit_loop f index maxlength fuel ((lo + above) / 2) above
  unfolding fit_loop
  fit_loop-upper e d = rw (e, d) refl

module _ (f : IndexFile) (i total maxlength : ℕ) (c : IsCommitted f)
    (inside : i + total ≤ f.next_at) (few : total < 2147483648)
    (small : maxlength < 2147483648) where
  abbrev size : ℕ → ℕ
  size n = span f.offsets i n

  size-le : (m n : ℕ) → m ≤ n → n ≤ total → size m ≤ size n
  size-le m n h k = omega (
    arith,
    before-le f.offsets (i + n) (IsWritten-fewer (i + n) (omega arith) c.written).increasing (i + m)
        (omega arith),
  )

  test-eq :
      (n : ℕ)
      → n ≤ total
      → exceeds (get_byte_size f (f.index + i) n) maxlength ≡ ltb maxlength (size n)
  test-eq n h =
      ap (λ o. exceeds o maxlength) (get_byte_size-at f i n (omega arith) (omega arith))
      ∙ exceeds-ltb (size n) maxlength small

  -- Where the loop ends: at 1 or at a count that fits, and one more does not fit.
  abbrev EndsAt : ℕ → ℕ → ℕ → Type 0
  EndsAt lo above n =
      (lo ≤ n) × (n < above) × (maxlength < size (suc n)) × ((n ≡ 1) ⊎ (size n ≤ maxlength))

  -- The loop ends within the fuel.
  unfoldable Ends : ℕ → ℕ → Option ℕ → Type 0
  Ends lo above result = (n : ℕ) × (result ≡ some n) × EndsAt lo above n

  fit_loop-Ends :
      (fuel lo above : ℕ)
      → lo < above
      → above ≤ lo + fuel
      → above ≤ total
      → maxlength < size above
      → (lo ≡ 1) ⊎ (size lo ≤ maxlength)
      → Ends lo above (fit_loop f (f.index + i) maxlength fuel lo above)
  unfolding Ends
  fit_loop-Ends zero lo above h k l over fits = absurd (omega arith)
  fit_loop-Ends (suc fuel) lo above h k l over fits = elim (Bool-cases (ltb (suc lo) above)) [
    | inr single ↦
        let mid : (lo + above) / 2 ≡ lo = ground arith in
        (
          lo,
          fit_loop-done f (f.index + i) maxlength fuel lo above single ∙ ap some mid,
          (omega arith, h, subst (λ n. maxlength < size n) (ground arith) over, fits),
        )
    | inl more ↦
        let mid : ℕ = (lo + above) / 2 in
        let inner : (lo < mid) × (mid < above) = ground arith in
        elim (Bool-cases (ltb maxlength (size mid))) [
          | inl big ↦
              let (n, r, (a, b, d, e)) : Ends lo mid
                  (fit_loop f (f.index + i) maxlength fuel lo mid) =
                fit_loop-Ends fuel lo mid inner.0 (omega arith) (omega arith) (ground arith) fits in
              (
                n,
                fit_loop-lower f (f.index + i) maxlength fuel lo above more
                      (test-eq mid (omega arith) ∙ big)
                    ∙ r,
                (a, omega arith, d, e),
              )
          | inr fit ↦
              let (n, r, (a, b, d, e)) : Ends mid above
                  (fit_loop f (f.index + i) maxlength fuel mid above) =
                fit_loop-Ends fuel mid above inner.1 (omega arith) l over (inr (ground arith)) in
              (
                n,
                fit_loop-upper f (f.index + i) maxlength fuel lo above more
                      (test-eq mid (omega arith) ∙ fit)
                    ∙ r,
                (omega arith, b, d, e),
              )
        ]
  ]

  -- The first `n` entries fit, and there are no more of them, or one more does not fit.
  abbrev pub IsMost : ℕ → Type 0
  IsMost n = (n ≤ total) × (size n ≤ maxlength) × ((n ≡ total) ⊎ (maxlength < size (suc n)))

  found : Option ℕ
  found = fit_loop f (f.index + i) maxlength (suc total) 1 total

  size-zero : size 0 ≡ 0
  size-zero = ap (λ n. before f.offsets n - before f.offsets i) same ∙ omega arith
    where
      same : i + 0 ≡ i
      same = omega arith

  -- Either not even one fits, or as many as are found.
  abbrev Found : ℕ → Type 0
  Found n =
      (n ≤ total)
      × (((n ≡ 1) × (maxlength < size 1)) ⊎ ((size n ≤ maxlength) × (maxlength < size (suc n))))

  EndsAt-Found : (n : ℕ) → EndsAt 1 total n → Found n
  EndsAt-Found n (a, b, d, e) = elim (Bool-cases (ltb maxlength (size n))) [
    | inl big ↦ (
      omega arith,
      inl (elim e [
        | inl one ↦ (one, subst (λ m. maxlength < size m) one (ground arith))
        | inr fit ↦ absurd (ground arith)
      ]),
    )
    | inr fit ↦ (omega arith, inr (ground arith, d))
  ]

  found-Found : maxlength < size total → (n : ℕ) × (found ≡ some n) × Found n
  unfolding found Ends
  found-Found over = elim (Bool-cases (ltb 1 total)) [
    | inl more ↦
        let (n, r, e) : Ends 1 total (fit_loop f (f.index + i) maxlength (suc total) 1 total) =
          fit_loop-Ends (suc total) 1 total (ground arith) (omega arith) (omega arith) over
            (inl refl) in
        (n, r, EndsAt-Found n e)
    | inr few ↦
        let one : total ≡ 1 = only few in
        (
          total,
          fit_loop-done f (f.index + i) maxlength total 1 total (ground (arith, one))
              ∙ ap some (omega (arith, one)),
          (omega arith, inl (one, subst (λ n. maxlength < size n) one over)),
        )
  ]
    where
      none_left : (total == 0) ≡ true → size total ≡ size 0
      none_left e = ap size (ground arith)

      only : ltb 1 total ≡ false → total ≡ 1
      only few = elim (Bool-cases (total == 0)) [
        | inl empty ↦ absurd (omega (arith, size-zero, none_left empty))
        | inr filled ↦ ground arith
      ]

  sized :
      count_entries_fit_size f (f.index + i) total maxlength
      ≡ count_from f (f.index + i) total maxlength (some (size total))
  unfolding count_entries_fit_size
  sized =
      ap (count_from f (f.index + i) total maxlength)
        (get_byte_size-at f i total inside (omega arith))

  count_from-fit :
      ltb maxlength (size total) ≡ false
      → count_from f (f.index + i) total maxlength (some (size total)) ≡ ok total
  unfolding count_from
  count_from-fit e = rw (exceeds-ltb (size total) maxlength small ∙ e) refl

  count_from-none :
      (n : ℕ)
      → ltb maxlength (size total) ≡ true
      → found ≡ some n
      → maxlength < size n
      → n ≤ total
      → count_from f (f.index + i) total maxlength (some (size total)) ≡ ok 0
  unfolding count_from found
  count_from-none n e r h k =
      rw
        (exceeds-ltb (size total) maxlength small ∙ e, r, test-eq n k ∙ lt→ltb maxlength (size n) h)
        refl

  count_from-some :
      (n : ℕ)
      → ltb maxlength (size total) ≡ true
      → found ≡ some n
      → size n ≤ maxlength
      → n ≤ total
      → count_from f (f.index + i) total maxlength (some (size total)) ≡ ok n
  unfolding count_from found
  count_from-some n e r h k =
      let fit : ltb maxlength (size n) ≡ false = ground arith in
      rw (exceeds-ltb (size total) maxlength small ∙ e, r, test-eq n k ∙ fit) refl

  -- For entries that are all in a well-formed file, fewer than 2^31, and a size below 2^31: the function
  -- ends and gives a count, the first entries up to it fit in the size, and it is all of them or one more
  -- does not fit.
  pub count_entries_fit_size-IsMost :
      (n : ℕ) × (count_entries_fit_size f (f.index + i) total maxlength ≡ ok n) × IsMost n
  unfolding count_entries_fit_size
  count_entries_fit_size-IsMost = elim (Bool-cases (ltb maxlength (size total))) [
    | inr fit ↦ (total, sized ∙ count_from-fit fit, (omega arith, ground arith, inl refl))
    | inl over ↦
        let (n, r, (few, found_case)) : (n : ℕ) × (found ≡ some n) × Found n =
          found-Found (ground arith) in
        elim found_case [
          | inl (one, big) ↦ (
            0,
            sized ∙ count_from-none n over r (subst (λ n. maxlength < size n) (sym one) big) few,
            (omega arith, omega (arith, size-zero), inr big),
          )
          | inr (fit, more) ↦ (n, sized ∙ count_from-some n over r fit few, (few, fit, inr more))
        ]
  ]
