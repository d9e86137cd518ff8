-- ===== src/Bufconv/Tests.antt =====
-- Runs of the codec on small inputs.
use node_zmq_raft.Bufconv.{
  write_buf_uint_le, read_buf_uint_le, write_buf_int_le, read_buf_int_le, check_range,
  write_sign_bytes, add_sign,
}
use node_zmq_raft.Bufconv.Bytes.{field}
use node_zmq_raft.Bufconv.RoundTrip.{read-write_uint, read-write_field}
use node_zmq_raft.Bufconv.SignedTrip.{low_bytes, sign_byte, read-write_int}
use node_zmq_raft.Prelude.{
  suc, ◌+◌, ◌-◌, ◌≤◌, ◌++◌, length, drop, arith, ℕ, ◌≡◌, refl, List, [], ◌∷◌, none, some, ok,
}
use node_zmq_raft.Prelude.Int.{pos, negsuc}

abbrev zeros : List ℕ
zeros = 9 ∷ 9 ∷ 9 ∷ 9 ∷ 9 ∷ 9 ∷ 9 ∷ 9 ∷ []

abbrev six : List ℕ
six = 9 ∷ 9 ∷ 9 ∷ 9 ∷ 9 ∷ 9 ∷ []

write_300 : write_buf_uint_le 300 zeros 1 none ≡ ok (9 ∷ 44 ∷ 1 ∷ 9 ∷ 9 ∷ 9 ∷ 9 ∷ 9 ∷ [], 3)
unfolding write_buf_uint_le
write_300 = refl

write_neg_256 :
    write_buf_int_le (negsuc 255) zeros 0 none ≡ ok (0 ∷ 255 ∷ 9 ∷ 9 ∷ 9 ∷ 9 ∷ 9 ∷ 9 ∷ [], 2)
unfolding write_buf_int_le check_range write_sign_bytes
write_neg_256 = refl

write_neg_129 :
    write_buf_int_le (negsuc 128) zeros 0 none ≡ ok (127 ∷ 255 ∷ 9 ∷ 9 ∷ 9 ∷ 9 ∷ 9 ∷ 9 ∷ [], 2)
unfolding write_buf_int_le check_range write_sign_bytes
write_neg_129 = refl

write_pos_200 :
    write_buf_int_le (pos 200) zeros 0 none ≡ ok (200 ∷ 0 ∷ 9 ∷ 9 ∷ 9 ∷ 9 ∷ 9 ∷ 9 ∷ [], 2)
unfolding write_buf_int_le check_range write_sign_bytes
write_pos_200 = refl

read_neg_129 : read_buf_int_le (127 ∷ 255 ∷ []) 0 none ≡ ok (some (negsuc 128))
unfolding read_buf_int_le add_sign check_range
read_neg_129 = refl

read-write_uint_example :
    (bytes : List ℕ) × (length bytes ≤ 7)
    × (write_buf_uint_le 300 (9 ∷ 9 ∷ six) 1 none
        ≡ ok (9 ∷ (bytes ++ drop (length bytes - 1) six), 1 + length bytes))
    × (read_buf_uint_le (9 ∷ (bytes ++ drop (length bytes - 1) six)) 1 (some (1 + length bytes))
        ≡ ok (some 300))
read-write_uint_example =
    read-write_uint 300 (9 ∷ []) 9 six (omega arith) (omega arith) (omega arith)

read-write_field_example :
    (write_buf_uint_le 300 (9 ∷ 9 ∷ six) 1 (some (1 + suc 3))
      ≡ ok ((9 ∷ []) ++ (field (suc 3) 300 ++ drop 3 six), 1 + suc 3))
    × (read_buf_uint_le ((9 ∷ []) ++ (field (suc 3) 300 ++ drop 3 six)) 1 (some (1 + suc 3))
        ≡ ok (some 300))
read-write_field_example =
    read-write_field 300 (9 ∷ []) 9 six (omega arith) 3 (omega arith) (omega arith) (omega arith)

read-write_int_example :
    let low = low_bytes 6 (negsuc 299) in
    let last = sign_byte 6 (negsuc 299) in
    let written = (9 ∷ []) ++ (low ++ last ∷ drop (length low) six) in
    (write_buf_int_le (negsuc 299) (9 ∷ 9 ∷ six) 1 none ≡ ok (written, 1 + suc (length low)))
    × (read_buf_int_le written 1 (some (1 + suc (length low))) ≡ ok (some (negsuc 299)))
read-write_int_example =
    read-write_int (negsuc 299) (9 ∷ []) 9 six (omega arith) (omega arith) (omega arith)
