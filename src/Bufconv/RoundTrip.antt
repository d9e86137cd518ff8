-- ===== src/Bufconv/RoundTrip.antt =====
-- `readBufUIntLE` reads back what `writeBufUIntLE` wrote.
use node_zmq_raft.Bufconv.{max_allowed_integer, write_buf_uint_le, read_buf_uint_le}
use node_zmq_raft.Bufconv.Bytes.{
  decode, encode, decode-encode, length-encode-le, field, decode-field, length-field,
  length-encode-bound,
}
use node_zmq_raft.Bufconv.Unsigned.{write-encode, write-field, read-decode}
use node_zmq_raft.Prelude.{
  ℕ, suc, ◌+◌, ◌-◌, ◌/◌, ◌%◌, ◌^◌, ◌<◌, ◌≤◌, ◌≡◌, List, [], ◌∷◌, ◌++◌, length, arith, drop, none,
  some, ok, ltb, if◌then◌else◌,
}
use native.Mathlib.Nat.{pow-le-pow_right, le_trans}

safe-lt : (n : ℕ) (v : ℕ) → 6 ≤ n → v ≤ max_allowed_integer → v < 256 ^ suc n
safe-lt n v h s =
    le_trans {m = 256 ^ 7} (omega arith)
      (pow-le-pow_right {n = 256} (omega arith) {i = 7} (omega arith))

module _ (value : ℕ) (pre : List ℕ) (x : ℕ) (post : List ℕ)
    (fits : length pre + suc (length post) < 2 ^ 31) where
  -- `writeBufUIntLE` without a stop writes a safe integer in at most seven bytes, leaves the bytes
  -- around them, and `readBufUIntLE` reads the integer back from these. The buffer is shorter than 2 ^ 31
  -- bytes, and seven are there to write.
  pub read-write_uint :
      value ≤ max_allowed_integer
      → 6 ≤ length post
      → (bytes : List ℕ) × (length bytes ≤ 7)
        × (write_buf_uint_le value (pre ++ x ∷ post) (length pre) none
            ≡ ok (pre ++ (bytes ++ drop (length bytes - 1) post), length pre + length bytes))
        × (read_buf_uint_le
              (pre ++ (bytes ++ drop (length bytes - 1) post))
              (length pre)
              (some (length pre + length bytes))
            ≡ ok (some value))
  unfolding encode decode
  read-write_uint small room = (
    encode (suc (length post)) value,
    length-encode-bound (suc (length post)) 6 value (omega arith),
    write-encode value pre x post fits small,
    back,
  )
    where
      n : ℕ
      n = length post

      tail : List ℕ
      tail = if ltb value 256 then [] else encode n (value / 256)

      back :
          read_buf_uint_le
            (pre ++ (encode (suc n) value ++ drop (length (encode (suc n) value) - 1) post))
            (length pre)
            (some (length pre + length (encode (suc n) value)))
          ≡ ok (some value)
      back = ground (
        arith,
        read-decode pre (value % 256) tail (drop (length tail) post),
        decode-encode (suc n) value (safe-lt n value room small),
        length-encode-le (suc n) value,
      )

  -- With a stop, `writeBufUIntLE` fills the bytes up to it, and `readBufUIntLE` reads a safe integer that
  -- fits in them back from the same bytes. The buffer is shorter than 2 ^ 31 bytes and holds the stop.
  pub read-write_field :
      (m : ℕ)
      → value ≤ max_allowed_integer
      → m ≤ length post
      → value < 256 ^ suc m
      → (write_buf_uint_le value (pre ++ x ∷ post) (length pre) (some (length pre + suc m))
          ≡ ok (pre ++ (field (suc m) value ++ drop m post), length pre + suc m))
        × (read_buf_uint_le
              (pre ++ (field (suc m) value ++ drop m post))
              (length pre)
              (some (length pre + suc m))
            ≡ ok (some value))
  unfolding field decode
  read-write_field m small room wide = (
    write-field value pre x post fits m small room,
    ground (
      arith,
      decode-field (suc m) value wide,
      length-field m (value / 256),
      read-decode pre (value % 256) (field m (value / 256)) (drop m post),
    ),
  )
