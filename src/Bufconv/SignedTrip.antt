-- ===== src/Bufconv/SignedTrip.antt =====
-- `readBufIntLE` reads back what `writeBufIntLE` wrote.
use node_zmq_raft.Bufconv.{
  max_allowed_integer, end_of, check_range, write_sign_bytes, write_negative, write_buf_int_le,
  read_low, add_sign, read_buf_int_le,
}
use node_zmq_raft.Bufconv.Bytes.{decode, set-append, get_or-append, snoc-append, length-snoc}
use node_zmq_raft.Bufconv.Positive.{
  positive_low, length-positive_low, positive_last, positive_last-sign, decode-positive, finish_lem,
}
use node_zmq_raft.Bufconv.Signed.{
  negative_low, length-negative_low, negative_last, negative_last-sign, decode-negative,
  write_negative-splice, complement, negative_low-large, negative_last-large,
}
use node_zmq_raft.Prelude.{
  ℕ, suc, ◌+◌, ◌-◌, ◌*◌, ◌%◌, ◌^◌, ◌<◌, ◌≤◌, ◌≡◌, ap, ◌∙◌, List, [], ◌∷◌, ◌++◌, get_or, length,
  arith, ltb, leb, drop, none, some, ok, length-append, append_assoc, inl, inr, Bool-cases, true,
  false,
}
use node_zmq_raft.Prelude.Int.{ℤ, pos, negsuc}
use native.Mathlib.Nat.{add-zero, mod-eq_of_lt, pow-suc, pow-le-pow_right}

-- What the two functions accept.
abbrev pub IsSafe : ℤ → Type 0
IsSafe (pos n) = n ≤ max_allowed_integer
IsSafe (negsuc k) = suc k ≤ max_allowed_integer

abbrev pub low_bytes : ℕ → ℤ → List ℕ
low_bytes n (pos v) = positive_low n v
low_bytes n (negsuc k) = negative_low n (suc k)

abbrev pub sign_byte : ℕ → ℤ → ℕ
sign_byte n (pos v) = positive_last n v
sign_byte n (negsuc k) = negative_last n (suc k)

safe-lt : (n v : ℕ) → 6 ≤ n → v ≤ max_allowed_integer → v < 128 * 256 ^ n
safe-lt n v h s = omega (arith, pow-le-pow_right {n = 256} (omega arith) {i = 6} h)

safe-le : (n c : ℕ) → 6 ≤ n → c ≤ max_allowed_integer → c ≤ 128 * 256 ^ n
safe-le n c h s = omega (arith, safe-lt n c h s)

read_low-decode :
    (bs pre : List ℕ) (s : ℕ) (post : List ℕ) (val mul : ℕ)
    → read_low (length bs) (pre ++ (bs ++ s ∷ post)) (length pre) val mul
      ≡ (val + mul * decode bs, mul * 256 ^ length bs, length pre + length bs)
unfolding read_low decode
read_low-decode [] pre s post val mul = ground arith
read_low-decode (b ∷ bs) pre s post val mul = ground (
  arith,
  get_or-append pre b 0 (bs ++ s ∷ post),
  read_low-decode bs (pre ++ b ∷ []) s post (val + b * mul) (mul * 256),
  snoc-append pre b (bs ++ s ∷ post),
  length-snoc pre b,
  ap (λ (t : ℕ). mul * t) (pow-suc 256 (length bs)),
)

add_sign-safe :
    (n : ℕ) (value : ℤ)
    → 6 ≤ n
    → IsSafe value
    → add_sign (decode (low_bytes n value)) (256 ^ length (low_bytes n value)) (sign_byte n value)
      ≡ ok (some value)
unfolding add_sign check_range
add_sign-safe n (pos v) h s =
    ground (arith, decode-positive n v (safe-lt n v h s), positive_last-sign n v (safe-lt n v h s))
add_sign-safe n (negsuc k) h s = ground (
  arith,
  decode-negative n (suc k) (omega arith) (safe-le n (suc k) h s),
  negative_last-sign n (suc k) (omega arith) (safe-le n (suc k) h s),
  pow-suc 256 (length (negative_low n (suc k))),
)

sub_left : (a b : ℕ) → a + b - a ≡ b
sub_left a b = omega arith

more : (k : ℕ) → leb (suc k) 128 ≡ false → ltb 128 (suc k) ≡ true
more k e = ground arith

write_negative_bytes :
    (k : ℕ) (pre : List ℕ) (x : ℕ) (post : List ℕ)
    → write_sign_bytes (negsuc k) (length pre + length post) (pre ++ x ∷ post) (length pre) ≡ (
      pre
          ++ (negative_low (length post) (suc k)
              ++ negative_last (length post) (suc k)
                ∷ drop (length (negative_low (length post) (suc k))) post),
      length pre + length (negative_low (length post) (suc k)),
    )
unfolding write_sign_bytes
write_negative_bytes k pre x [] =
    rw (set-append pre x (complement (suc k)) [])
      (unfold write_negative negative_low negative_last in ground arith)
write_negative_bytes k pre x (y ∷ post) =
    rw (set-append pre x (complement (suc k)) (y ∷ post), sub_left (length pre) (suc (length post)))
      (elim (Bool-cases (leb (suc k) 128)) [
        | inl e ↦ unfold negative_low negative_last in ground (arith, e)
        | inr e ↦
            rw
              (
                more k e,
                negative_low-large (length post) (suc k) e,
                negative_last-large (length post) (suc k) e,
              )
              (rw (add-zero (suc k)) at (
                write_negative-splice (length post) (suc k) 1 (suc k) 0 pre (complement (suc k))
                  (y ∷ post) (omega arith) (omega arith) (omega arith)))
      ])

write_sign_bytes-splice :
    (value : ℤ) (pre : List ℕ) (x : ℕ) (post : List ℕ)
    → write_sign_bytes value (length pre + length post) (pre ++ x ∷ post) (length pre) ≡ (
      pre
          ++ (low_bytes (length post) value
              ++ sign_byte (length post) value
                ∷ drop (length (low_bytes (length post) value)) post),
      length pre + length (low_bytes (length post) value),
    )
unfolding write_sign_bytes
write_sign_bytes-splice (pos v) pre x post =
    rw (set-append pre x (v % 256) post, sub_left (length pre) (length post))
      (finish_lem (length post) v 1 v pre post (omega arith) (omega arith))
write_sign_bytes-splice (negsuc k) pre x post = write_negative_bytes k pre x post

check_range-safe : (value : ℤ) → IsSafe value → check_range value ≡ ok tt
unfolding check_range
check_range-safe (pos n) h = ground arith
check_range-safe (negsuc k) h = ground arith

end_offset :
    (pre : List ℕ) (x : ℕ) (post : List ℕ) → length (pre ++ x ∷ post) - 1 ≡ length pre + length post
end_offset pre x post = omega (arith, length-append pre (x ∷ post))

in_buffer :
    (pre : List ℕ) (x : ℕ) (post : List ℕ) → leb (length (pre ++ x ∷ post)) (length pre) ≡ false
in_buffer pre x post = ground (arith, length-append pre (x ∷ post))

sub_end : (a k : ℕ) → a + suc k - 1 - a ≡ k
sub_end a k = omega arith

stop_end :
    (pre bs : List ℕ) (s : ℕ) (post : List ℕ)
    → length pre + suc (length bs) < 2 ^ 31
    → end_of (length (pre ++ (bs ++ s ∷ post))) (some (length pre + suc (length bs)))
      ≡ length pre + suc (length bs)
stop_end pre bs s post h =
    ground (arith, length-append pre (bs ++ s ∷ post), length-append bs (s ∷ post))

-- `readBufIntLE` up to the end of some bytes: the low ones decoded, and the sign from the last.
read-add_sign :
    (pre bs : List ℕ) (s : ℕ) (post : List ℕ)
    → length pre + suc (length bs) < 2 ^ 31
    → read_buf_int_le (pre ++ (bs ++ s ∷ post)) (length pre) (some (length pre + suc (length bs)))
      ≡ add_sign (decode bs) (256 ^ length bs) s
unfolding read_buf_int_le
read-add_sign pre bs s post h =
    rw
      (
        mod-eq_of_lt small,
        stop_end pre bs s post h,
        sub_end (length pre) (length bs),
        read_low-decode bs pre s post 0 1,
        at_last,
      )
      (ground arith)
  where
    small : length pre < 2 ^ 32
    small = omega arith

    at_last : get_or (pre ++ (bs ++ s ∷ post)) (length pre + length bs) 0 ≡ s
    at_last =
        rw (← append_assoc pre bs (s ∷ post), ← length-append pre bs)
          (get_or-append (pre ++ bs) s 0 post)

low_bytes-le : (n : ℕ) (value : ℤ) → length (low_bytes n value) ≤ n
low_bytes-le n (pos v) = length-positive_low n v
low_bytes-le n (negsuc k) = length-negative_low n (suc k)

module _ (value : ℤ) (pre : List ℕ) (x : ℕ) (post : List ℕ)
    (fits : length pre + suc (length post) < 2 ^ 31) (room : 6 ≤ length post)
    (safe : IsSafe value) where
  -- `writeBufIntLE` without a stop writes the low bytes and the sign byte of a safe integer, leaves the
  -- bytes around them, and `readBufIntLE` reads the integer back. The buffer is shorter than 2 ^ 31 bytes,
  -- and seven are there to write.
  pub read-write_int :
      let low = low_bytes (length post) value in
      let last = sign_byte (length post) value in
      let written = pre ++ (low ++ last ∷ drop (length low) post) in
      let end = length pre + suc (length low) in
      (write_buf_int_le value (pre ++ x ∷ post) (length pre) none ≡ ok (written, end))
      × (read_buf_int_le written (length pre) (some end) ≡ ok (some value))
  unfolding write_buf_int_le
  read-write_int = (
    rw
        (
          check_range-safe value safe,
          mod-eq_of_lt small,
          end_offset pre x post,
          write_sign_bytes-splice value pre x post,
          in_buffer pre x post,
        )
        (ground arith),
    read-add_sign pre (low_bytes (length post) value) _ _
          (omega (arith, low_bytes-le (length post) value))
        ∙ add_sign-safe (length post) value room safe,
  )
    where
      small : length pre < 2 ^ 32
      small = omega arith
