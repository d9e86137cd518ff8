-- ===== src/Bufconv/Positive.antt =====
-- What `writeBufIntLE` writes for a number that is not negative: its bytes, and one more 0 where
-- the top bit of the last is set.
use node_zmq_raft.Bufconv.{write_positive, pad_sign}
use node_zmq_raft.Bufconv.Bytes.{decode, set_next, snoc-append, length-snoc}
use node_zmq_raft.Prelude.{
  ℕ, zero, suc, ◌+◌, ◌*◌, ◌/◌, ◌%◌, ◌^◌, ◌<◌, ◌≤◌, ◌≡◌, refl, sym, ap, ◌∙◌, List, [], ◌∷◌, ◌++◌,
  length, arith, leb, if◌then◌else◌, drop, inl, inr, Bool-cases, true, false,
}
use native.Mathlib.Nat.{div-div-eq-div-mul, pow-suc}

-- The bytes of v but for the last, and the last, where `n` bytes are free behind the first.
unfoldable pub positive_low : ℕ → ℕ → List ℕ
positive_low zero v = []
positive_low (suc n) v =
    let rest = positive_low n (v / 256) in
    if leb 256 v then (v % 256) ∷ rest else if leb 128 v then (v % 256) ∷ [] else []

unfoldable pub positive_last : ℕ → ℕ → ℕ
positive_last zero v = v % 256
positive_last (suc n) v =
    let rest = positive_last n (v / 256) in
    if leb 256 v then rest else if leb 128 v then 0 else v % 256

positive_low-large :
    (n v : ℕ) → leb 256 v ≡ true → positive_low (suc n) v ≡ (v % 256) ∷ positive_low n (v / 256)
unfolding positive_low
positive_low-large n v e = rw e

positive_last-large :
    (n v : ℕ) → leb 256 v ≡ true → positive_last (suc n) v ≡ positive_last n (v / 256)
unfolding positive_last
positive_last-large n v e = rw e

pub length-positive_low : (n v : ℕ) → length (positive_low n v) ≤ n
unfolding positive_low
length-positive_low zero v = omega arith
length-positive_low (suc n) v = ground (arith, length-positive_low n (v / 256))

pub positive_last-sign : (n v : ℕ) → v < 128 * 256 ^ n → positive_last n v < 128
unfolding positive_last
positive_last-sign zero v h = omega arith
positive_last-sign (suc n) v h = ground (arith, positive_last-sign n (v / 256), pow-suc 256 n)

digit :
    (d l k b v : ℕ) → d + l * 256 ^ k ≡ v / 256 → b ≡ v % 256 → b + 256 * d + l * 256 ^ suc k ≡ v
digit d l k b v e h = omega (arith, e, ap (λ (t : ℕ). l * t) (pow-suc 256 k))

pub decode-positive :
    (n v : ℕ)
    → v < 128 * 256 ^ n
    → decode (positive_low n v) + positive_last n v * 256 ^ length (positive_low n v) ≡ v
unfolding positive_low positive_last decode
decode-positive zero v h = omega arith
decode-positive (suc n) v h = elim (Bool-cases (leb 256 v)) [
  | inl e ↦
      rw (positive_low-large n v e, positive_last-large n v e)
        (digit _ _ (length (positive_low n (v / 256))) (v % 256) v
          (decode-positive n (v / 256) (omega (arith, pow-suc 256 n))) refl)
  | inr e ↦ ground arith
]

-- The buffer with the bytes of v in it, behind `pre`, and the offset of the last of them.
abbrev pub with_positive : ℕ → ℕ → List ℕ → List ℕ → List ℕ × ℕ
with_positive n v pre post = (
  pre ++ (positive_low n v ++ positive_last n v ∷ drop (length (positive_low n v)) post),
  length pre + length (positive_low n v),
)

-- The loop of the writer and the padding, once the byte of the quotient v is in its place.
abbrev pub finish : ℕ → ℕ → ℕ → ℕ → List ℕ → List ℕ → List ℕ × ℕ
finish n value p v pre post = pad_sign (length pre + n) (
    if leb 256 v
    then write_positive n value (p * 256) v (pre ++ (v % 256) ∷ post) (length pre)
    else (pre ++ (v % 256) ∷ post, length pre, v))

with_positive-large :
    (n v : ℕ) (pre : List ℕ) (y : ℕ) (post : List ℕ)
    → leb 256 v ≡ true
    → with_positive n (v / 256) (pre ++ (v % 256) ∷ []) post
      ≡ with_positive (suc n) v pre (y ∷ post)
with_positive-large n v pre y post e =
    rw (positive_low-large n v e, positive_last-large n v e)
      (ground (
        arith,
        snoc-append pre (v % 256) (
            positive_low n (v / 256)
            ++ positive_last n (v / 256) ∷ drop (length (positive_low n (v / 256))) post),
        length-snoc pre (v % 256),
      ))

finish_small :
    (n value p v : ℕ) (pre : List ℕ) (post : List ℕ)
    → leb 256 v ≡ false
    → n ≤ length post
    → finish n value p v pre post ≡ with_positive n v pre post
unfolding pad_sign positive_low positive_last
finish_small zero value p v pre post e h = rw e (ground arith)
finish_small (suc n) value p v pre [] e h = absurd (omega arith)
finish_small (suc n) value p v pre (y ∷ post) e h =
    rw e (ground (arith, set_next pre (v % 256) y 0 post))

finish_next :
    (n value p v : ℕ) (pre : List ℕ) (y : ℕ) (post : List ℕ)
    → leb 256 v ≡ true
    → v ≡ value / p
    → finish (suc n) value p v pre (y ∷ post)
      ≡ finish n value (p * 256) (v / 256) (pre ++ (v % 256) ∷ []) post
unfolding write_positive
finish_next n value p v pre y post e q =
    let low : value / (p * 256) ≡ v / 256 =
      sym (div-div-eq-div-mul value p 256) ∙ ap (λ (t : ℕ). t / 256) (sym q) in
    rw
      (
        e,
        low,
        set_next pre (v % 256) y (v / 256 % 256) post,
        snoc-append pre (v % 256) ((v / 256 % 256) ∷ post),
        length-snoc pre (v % 256),
      )
      (ground arith)

pub finish_lem :
    (n value p v : ℕ) (pre : List ℕ) (post : List ℕ)
    → v ≡ value / p
    → n ≤ length post
    → finish n value p v pre post ≡ with_positive n v pre post
finish_lem zero value p v pre post q h =
    unfold write_positive pad_sign positive_low positive_last in ground arith
finish_lem (suc n) value p v pre [] q h = absurd (omega arith)
finish_lem (suc n) value p v pre (y ∷ post) q h = elim (Bool-cases (leb 256 v)) [
  | inl e ↦
      finish_next n value p v pre y post e q
      ∙ finish_lem n value (p * 256) (v / 256) (pre ++ (v % 256) ∷ []) post
          (ap (λ (t : ℕ). t / 256) q ∙ div-div-eq-div-mul value p 256) (omega arith)
      ∙ with_positive-large n v pre y post e
  | inr e ↦ finish_small (suc n) value p v pre (y ∷ post) e h
]
