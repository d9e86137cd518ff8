-- ===== src/Table/Slots.antt =====
-- What filling and copying leave of a typed array.
use node_zmq_raft.Table.{slot, set_slot, fill_slots, copy_slots}
use node_zmq_raft.Prelude.{
  ℕ, zero, suc, ◌+◌, ◌%◌, ◌^◌, ◌<◌, ◌≤◌, ◌≡◌, ◌≢◌, refl, ap, List, [], ◌∷◌, length, set, ◌==◌,
  arith, length-set, ◌⊎◌, inl, inr, Bool-cases,
}

pub get_or-set_self : (xs : List ℕ) (i v : ℕ) → i < length xs → slot (set xs i v) i ≡ v
get_or-set_self [] i v h = absurd (omega arith)
get_or-set_self (x ∷ xs) zero v h = refl
get_or-set_self (x ∷ xs) (suc i) v h = get_or-set_self xs i v (omega arith)

pub get_or-set_ne : (xs : List ℕ) (i j v : ℕ) → i ≢ j → slot (set xs i v) j ≡ slot xs j
get_or-set_ne [] i j v h = refl
get_or-set_ne (x ∷ xs) zero zero v h = absurd (h refl)
get_or-set_ne (x ∷ xs) zero (suc j) v h = refl
get_or-set_ne (x ∷ xs) (suc i) zero v h = refl
get_or-set_ne (x ∷ xs) (suc i) (suc j) v h = get_or-set_ne xs i j v (λ e. h (ap suc e))

-- A slot beyond the table reads as 0.
pub get_or-beyond : (xs : List ℕ) (i : ℕ) → length xs ≤ i → slot xs i ≡ 0
get_or-beyond [] i h = refl
get_or-beyond (x ∷ xs) zero h = absurd (omega arith)
get_or-beyond (x ∷ xs) (suc i) h = get_or-beyond xs i (omega arith)

pub get_or-set_zero : (xs : List ℕ) (i : ℕ) → slot (set xs i 0) i ≡ 0
get_or-set_zero [] i = refl
get_or-set_zero (x ∷ xs) zero = refl
get_or-set_zero (x ∷ xs) (suc i) = get_or-set_zero xs i

pub length-set_slot : (xs : List ℕ) (i v : ℕ) → length (set_slot xs i v) ≡ length xs
unfolding set_slot
length-set_slot xs i v = length-set xs i (v % 2 ^ 32)

pub slot-set_slot :
    (xs : List ℕ) (i v : ℕ) → i < length xs → v < 4294967296 → slot (set_slot xs i v) i ≡ v
unfolding set_slot
slot-set_slot xs i v h small = omega (arith, get_or-set_self xs i (v % 4294967296) h)

pub slot-set_slot_ne : (xs : List ℕ) (i j v : ℕ) → i ≢ j → slot (set_slot xs i v) j ≡ slot xs j
unfolding set_slot
slot-set_slot_ne xs i j v h = get_or-set_ne xs i j (v % 2 ^ 32) h

-- What a fill leaves.
pub length-fill_slots :
    (n : ℕ) (xs : List ℕ) (start : ℕ) → length (fill_slots xs start n) ≡ length xs
unfolding fill_slots
length-fill_slots zero xs start = refl
length-fill_slots (suc n) xs start =
    omega (arith, length-fill_slots n (set xs start 0) (suc start), length-set xs start 0)

pub slot-fill_outside :
    (n : ℕ) (xs : List ℕ) (start i : ℕ)
    → (i < start) ⊎ (start + n ≤ i)
    → slot (fill_slots xs start n) i ≡ slot xs i
unfolding fill_slots
slot-fill_outside zero xs start i h = refl
slot-fill_outside (suc n) xs start i h =
    ground (arith, slot-fill_outside n (set xs start 0) (suc start) i, get_or-set_ne xs start i 0)

pub slot-fill_inside :
    (n : ℕ) (xs : List ℕ) (start i : ℕ)
    → start ≤ i
    → i < start + n
    → slot (fill_slots xs start n) i ≡ 0
unfolding fill_slots
slot-fill_inside zero xs start i h k = absurd (omega arith)
slot-fill_inside (suc n) xs start i h k = elim (Bool-cases (i == start)) [
  | inl e ↦
      ground (arith, slot-fill_outside n (set xs start 0) (suc start) i, get_or-set_zero xs start)
  | inr e ↦ slot-fill_inside n (set xs start 0) (suc start) i (ground arith) (omega arith)
]

-- What a copy leaves.
pub length-copy_slots :
    (n : ℕ) (source target : List ℕ) (start : ℕ)
    → length (copy_slots source target start n) ≡ length target
unfolding copy_slots
length-copy_slots zero source target start = refl
length-copy_slots (suc n) source target start = omega (
  arith,
  length-copy_slots n source (set target start (slot source start)) (suc start),
  length-set target start (slot source start),
)

pub slot-copy_outside :
    (n : ℕ) (source target : List ℕ) (start i : ℕ)
    → (i < start) ⊎ (start + n ≤ i)
    → slot (copy_slots source target start n) i ≡ slot target i
unfolding copy_slots
slot-copy_outside zero source target start i h = refl
slot-copy_outside (suc n) source target start i h = ground (
  arith,
  slot-copy_outside n source (set target start (slot source start)) (suc start) i,
  get_or-set_ne target start i (slot source start),
)

pub slot-copy_inside :
    (n : ℕ) (source target : List ℕ) (start i : ℕ)
    → start ≤ i
    → i < start + n
    → i < length target
    → slot (copy_slots source target start n) i ≡ slot source i
unfolding copy_slots
slot-copy_inside zero source target start i h k l = absurd (omega arith)
slot-copy_inside (suc n) source target start i h k l = elim (Bool-cases (i == start)) [
  | inl e ↦ ground (
    arith,
    slot-copy_outside n source (set target start (slot source start)) (suc start) i,
    get_or-set_self target start (slot source start),
  )
  | inr e ↦
      slot-copy_inside n source (set target start (slot source start)) (suc start) i (ground arith)
        (omega arith) (ground (arith, length-set target start (slot source start)))
]
