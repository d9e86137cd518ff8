-- ===== src/Bufconv/Signed.antt =====
-- What `writeBufIntLE` writes: two's complement, lowest byte first, with the sign in the last byte.
use node_zmq_raft.Bufconv.{write_negative}
use node_zmq_raft.Bufconv.Bytes.{decode, set_next, snoc-append, length-snoc}
use node_zmq_raft.Prelude.{
  ℕ, zero, suc, ◌+◌, ◌-◌, ◌*◌, ◌/◌, ◌%◌, ◌^◌, ◌<◌, ◌≤◌, ◌≡◌, refl, sym, ap, ◌∙◌, List, [], ◌∷◌,
  ◌++◌, length, arith, leb, if◌then◌else◌, drop, inl, inr, Bool-cases, true, false, ◌==◌, ◌&&◌, not,
}
use native.Mathlib.Nat.{div-div-eq-div-mul, pow-suc}

-- The bytes of -c but for the last, and the last.
unfoldable pub negative_low : ℕ → ℕ → List ℕ
negative_low zero c = []
negative_low (suc n) c =
    let rest = negative_low n ((c + 255) / 256) in
    if leb c 128 then [] else ((256 - c % 256) % 256) ∷ rest

unfoldable pub negative_last : ℕ → ℕ → ℕ
negative_last zero c = (256 - c % 256) % 256
negative_last (suc n) c =
    let rest = negative_last n ((c + 255) / 256) in
    if leb c 128 then (256 - c % 256) % 256 else rest

pub negative_low-large :
    (n c : ℕ)
    → leb c 128 ≡ false
    → negative_low (suc n) c ≡ ((256 - c % 256) % 256) ∷ negative_low n ((c + 255) / 256)
unfolding negative_low
negative_low-large n c e = rw e

pub negative_last-large :
    (n c : ℕ) → leb c 128 ≡ false → negative_last (suc n) c ≡ negative_last n ((c + 255) / 256)
unfolding negative_last
negative_last-large n c e = rw e

ceiling_shrinks : (n c : ℕ) → c ≤ 128 * 256 ^ suc n → (c + 255) / 256 ≤ 128 * 256 ^ n
ceiling_shrinks n c h = omega (arith, pow-suc 256 n)

pub length-negative_low : (n c : ℕ) → length (negative_low n c) ≤ n
unfolding negative_low
length-negative_low zero c = omega arith
length-negative_low (suc n) c = ground (arith, length-negative_low n ((c + 255) / 256))

pub negative_last-sign :
    (n c : ℕ) → 0 < c → c ≤ 128 * 256 ^ n → (128 ≤ negative_last n c) × (negative_last n c < 256)
unfolding negative_last
negative_last-sign zero c p h = omega arith
negative_last-sign (suc n) c p h =
    ground (arith, negative_last-sign n ((c + 255) / 256), ceiling_shrinks n c h)

-- Two's complement: the bytes and c add up to the next power of 256.
abbrev Complements : ℕ → ℕ → Type 0
Complements n c =
    decode (negative_low n c) + negative_last n c * 256 ^ length (negative_low n c) + c
    ≡ 256 ^ suc (length (negative_low n c))

carry :
    (b d l k c c' : ℕ)
    → b + c ≡ 256 * c'
    → d + l * 256 ^ k + c' ≡ 256 ^ suc k
    → b + 256 * d + l * 256 ^ suc k + c ≡ 256 ^ suc (suc k)
carry b d l k c c' e h =
    omega (arith, h, pow-suc 256 (suc k), ap (λ (t : ℕ). l * t) (pow-suc 256 k))

pub decode-negative : (n c : ℕ) → 0 < c → c ≤ 128 * 256 ^ n → Complements n c
unfolding negative_low negative_last decode
decode-negative zero c p h = omega arith
decode-negative (suc n) c p h = elim (Bool-cases (leb c 128)) [
  | inl e ↦ ground arith
  | inr e ↦
      rw (negative_low-large n c e, negative_last-large n c e)
        (carry ((256 - c % 256) % 256) _ _ (length (negative_low n ((c + 255) / 256))) c
          ((c + 255) / 256) (omega arith)
          (decode-negative n ((c + 255) / 256) (omega arith) (ceiling_shrinks n c h)))
]

-- The state of the loop at `mul = 256 * p`: `q + sub` is m / p rounded up.
abbrev pub RoundsUp : ℕ → ℕ → ℕ → ℕ → Type 0
RoundsUp m p q sub = (m ≤ (q + sub) * p) × ((q + sub) * p < m + p) × (sub ≤ 1)

-- One round: the carry that the code keeps, and its test for the last byte.
abbrev next_sub : ℕ → ℕ → ℕ
next_sub q sub = if sub == 0 && not (q % 256 == 0) then 1 else sub

ceiling_step : (q sub : ℕ) → sub ≤ 1 → q / 256 + next_sub q sub ≡ (q + sub + 255) / 256
ceiling_step q sub h = ground arith

scale_le : (a b p : ℕ) → a ≤ b → a * p ≤ b * p
scale_le a b p h = grind arith

RoundsUp-step :
    (m p q sub : ℕ) → RoundsUp m p q sub → RoundsUp m (p * 256) (q / 256) (next_sub q sub)
RoundsUp-step m p q sub (lo, hi, one) = rw (ceiling_step q sub one) (
  omega (
    arith,
    scale_le (q + sub) (256 * c) p (omega arith),
    scale_le (256 * c) (q + sub + 255) p (omega arith),
  ),
  omega (
    arith,
    scale_le (q + sub) (256 * c) p (omega arith),
    scale_le (256 * c) (q + sub + 255) p (omega arith),
  ),
  ground arith,
)
  where
    c : ℕ
    c = (q + sub + 255) / 256

last_test : (m p q sub : ℕ) → RoundsUp m p q sub → leb m (128 * p) ≡ leb (q + sub) 128
last_test m p q sub (lo, hi, one) =
    ground (arith, scale_le (q + sub) 128 p, scale_le 129 (q + sub) p)

abbrev pub complement : ℕ → ℕ
complement c = (256 - c % 256) % 256

complement_byte : (q sub : ℕ) → sub ≤ 1 → (512 - q % 256 - sub) % 256 ≡ complement (q + sub)
complement_byte q sub h = omega arith

-- One round of the loop.
write_negative_round :
    (n m p q sub : ℕ) (pre : List ℕ) (x y : ℕ) (post : List ℕ)
    → q ≡ m / p
    → RoundsUp m p q sub
    → let c = (q + sub + 255) / 256 in
      write_negative (suc n) m (p * 256) q sub (pre ++ x ∷ y ∷ post) (length pre) ≡ (
        if leb c 128
        then (pre ++ x ∷ complement c ∷ post, length pre + 1)
        else write_negative n m
            (p * 256 * 256)
            (q / 256)
            (next_sub q sub)
            (pre ++ x ∷ complement c ∷ post)
            (length pre + 1))
unfolding write_negative
write_negative_round n m p q sub pre x y post e r =
    let low : m / (p * 256) ≡ q / 256 =
      sym (div-div-eq-div-mul m p 256) ∙ ap (λ (t : ℕ). t / 256) (sym e) in
    rw (
      low,
      last_test m (p * 256) (q / 256) (next_sub q sub) (RoundsUp-step m p q sub r),
      complement_byte (q / 256) (next_sub q sub) (RoundsUp-step m p q sub r).2,
      ceiling_step q sub r.2,
      set_next pre x y (complement ((q + sub + 255) / 256)) post,
    )

-- The buffer with the bytes of -c in it, behind `pre` and `x`, and the offset of the last of them.
abbrev pub with_negative : ℕ → ℕ → List ℕ → ℕ → List ℕ → List ℕ × ℕ
with_negative n c pre x post = (
  pre ++ x ∷ (negative_low n c ++ negative_last n c ∷ drop (suc (length (negative_low n c))) post),
  length pre + suc (length (negative_low n c)),
)

pub with_negative-large :
    (n c : ℕ) (pre : List ℕ) (x y : ℕ) (post : List ℕ)
    → leb c 128 ≡ false
    → with_negative n ((c + 255) / 256) (pre ++ x ∷ []) (complement c) post
      ≡ with_negative (suc n) c pre x (y ∷ post)
with_negative-large n c pre x y post e =
    rw (negative_low-large n c e, negative_last-large n c e)
      (ground (
        arith,
        snoc-append pre x (
            complement c
            ∷ (negative_low n ((c + 255) / 256)
                ++ negative_last n ((c + 255) / 256)
                  ∷ drop (suc (length (negative_low n ((c + 255) / 256)))) post)),
        length-snoc pre x,
      ))

with_negative-small :
    (n c : ℕ) (pre : List ℕ) (x y : ℕ) (post : List ℕ)
    → leb c 128 ≡ true
    → with_negative n c pre x (y ∷ post) ≡ (pre ++ x ∷ complement c ∷ post, length pre + 1)
unfolding negative_low negative_last
with_negative-small zero c pre x y post e = refl
with_negative-small (suc n) c pre x y post e = rw e

write_negative_next :
    (n m p q sub : ℕ) (pre : List ℕ) (x y : ℕ) (post : List ℕ)
    → q ≡ m / p
    → RoundsUp m p q sub
    → write_negative
        (suc n)
        m
        (p * 256 * 256)
        (q / 256)
        (next_sub q sub)
        ((pre ++ x ∷ []) ++ complement ((q + sub + 255) / 256) ∷ post)
        (length (pre ++ x ∷ []))
      ≡ with_negative n
          ((q / 256 + next_sub q sub + 255) / 256)
          (pre ++ x ∷ [])
          (complement ((q + sub + 255) / 256))
          post
    → write_negative (suc (suc n)) m (p * 256) q sub (pre ++ x ∷ y ∷ post) (length pre)
      ≡ with_negative (suc n) ((q + sub + 255) / 256) pre x (y ∷ post)
write_negative_next n m p q sub pre x y post e r ih =
    write_negative_round (suc n) m p q sub pre x y post e r ∙ elim (Bool-cases (leb c 128)) [
      | inl t ↦ rw t (sym (with_negative-small (suc n) c pre x y post t))
      | inr t ↦ rw t (
          cc (
            ih,
            snoc-append pre x (complement c ∷ post),
            length-snoc pre x,
            ceiling_step q sub r.2,
            with_negative-large n c pre x y post t,
          ))
    ]
  where
    c : ℕ
    c = (q + sub + 255) / 256

-- The loop of the writer for -m.
pub write_negative-splice :
    (n m p q sub : ℕ) (pre : List ℕ) (x : ℕ) (post : List ℕ)
    → q ≡ m / p
    → RoundsUp m p q sub
    → n < length post
    → write_negative (suc n) m (p * 256) q sub (pre ++ x ∷ post) (length pre)
      ≡ with_negative n ((q + sub + 255) / 256) pre x post
write_negative-splice n m p q sub pre x [] e r h = absurd (omega arith)
write_negative-splice zero m p q sub pre x (y ∷ post) e r h =
    write_negative_round 0 m p q sub pre x y post e r
    ∙ elim (Bool-cases (leb ((q + sub + 255) / 256) 128)) [
      | inl t ↦ rw t (sym (with_negative-small 0 ((q + sub + 255) / 256) pre x y post t))
      | inr t ↦ rw t (unfold write_negative negative_low negative_last in refl)
    ]
write_negative-splice (suc n) m p q sub pre x (y ∷ post) e r h =
    write_negative_next n m p q sub pre x y post e r (
      write_negative-splice n m (p * 256) (q / 256) (next_sub q sub) (pre ++ x ∷ [])
        (complement ((q + sub + 255) / 256)) post
        (ap (λ (t : ℕ). t / 256) e ∙ div-div-eq-div-mul m p 256) (RoundsUp-step m p q sub r)
        (omega arith))
