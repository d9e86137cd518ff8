-- ===== src/Bufconv/Unsigned.antt =====
-- What `writeBufUIntLE` writes, and that `readBufUIntLE` reads it back.
use node_zmq_raft.Bufconv.{
  max_allowed_integer, write_quotients, zero_fill, write_buf_uint_le, read_more, read_buf_uint_le,
}
use node_zmq_raft.Bufconv.Bytes.{
  decode, encode, field, field-zero, encode-small, encode-large, set-append, get_or-append,
  set_next, get_or_next, snoc-append, length-snoc,
}
use node_zmq_raft.Prelude.{
  ℕ, zero, suc, ◌+◌, ◌-◌, ◌*◌, ◌/◌, ◌%◌, ◌^◌, ◌<◌, ◌≤◌, ◌≡◌, List, [], ◌∷◌, ◌++◌, length, arith,
  ltb, drop, replicate, none, some, ok, length-append, inl, inr, Bool-cases, true, false,
}
use native.Mathlib.Nat.{div-div-eq-div-mul}

-- The loop of the writer, on a buffer that is cut at the offset.
write_quotients-splice :
    (n value mul : ℕ) (pre : List ℕ) (x : ℕ) (post : List ℕ)
    → n ≤ length post
    → write_quotients n value mul (pre ++ x ∷ post) (length pre) ≡ (
      pre ++ x ∷ (encode n (value / mul) ++ drop (length (encode n (value / mul))) post),
      length pre + length (encode n (value / mul)),
    )
unfolding write_quotients encode
write_quotients-splice zero value mul pre x post h = ground arith
write_quotients-splice (suc n) value mul pre x [] h = absurd (omega arith)
write_quotients-splice (suc n) value mul pre x (y ∷ post) h = ground (
  arith,
  set_next pre x y (value / mul % 256) post,
  write_quotients-splice n value (mul * 256) (pre ++ x ∷ []) (value / mul % 256) post,
  div-div-eq-div-mul value mul 256,
  snoc-append pre x (value / mul % 256 ∷ post),
  snoc-append pre x (
      value / mul % 256
      ∷ (encode n (value / mul / 256) ++ drop (length (encode n (value / mul / 256))) post)),
  length-snoc pre x,
)

zero_fill-splice :
    (n : ℕ) (pre : List ℕ) (x : ℕ) (post : List ℕ)
    → n ≤ length post
    → zero_fill n (pre ++ x ∷ post) (length pre)
      ≡ (pre ++ x ∷ (replicate n 0 ++ drop n post), length pre + n)
unfolding zero_fill
zero_fill-splice zero pre x post h = ground arith
zero_fill-splice (suc n) pre x [] h = absurd (omega arith)
zero_fill-splice (suc n) pre x (y ∷ post) h = ground (
  arith,
  set_next pre x y 0 post,
  zero_fill-splice n (pre ++ x ∷ []) 0 post,
  snoc-append pre x (0 ∷ post),
  snoc-append pre x (0 ∷ (replicate n 0 ++ drop n post)),
  length-snoc pre x,
)

-- The loop of the reader.
read_more-decode :
    (bs pre : List ℕ) (x : ℕ) (post : List ℕ) (val mul : ℕ)
    → read_more (length bs) (pre ++ x ∷ (bs ++ post)) (length pre) val mul
      ≡ val + 256 * mul * decode bs
unfolding read_more decode
read_more-decode [] pre x post val mul = omega arith
read_more-decode (b ∷ bs) pre x post val mul = ground (
  arith,
  get_or_next pre x b 0 (bs ++ post),
  read_more-decode bs (pre ++ x ∷ []) b post (val + b * (mul * 256)) (mul * 256),
  snoc-append pre x (b ∷ (bs ++ post)),
  length-snoc pre x,
)

-- `readBufUIntLE` up to the end of some bytes decodes them.
pub read-decode :
    (pre : List ℕ) (x : ℕ) (bs post : List ℕ)
    → length pre + suc (length bs) < 2 ^ 31
    → decode (x ∷ bs) ≤ max_allowed_integer
    → read_buf_uint_le (pre ++ x ∷ (bs ++ post)) (length pre) (some (length pre + suc (length bs)))
      ≡ ok (some (decode (x ∷ bs)))
unfolding read_buf_uint_le decode
read-decode pre x bs post fits h = ground (
  arith,
  length-append pre (x ∷ (bs ++ post)),
  length-append bs post,
  get_or-append pre x 0 (bs ++ post),
  read_more-decode bs pre x post x 1,
)

-- Zeros behind the bytes that the loop wrote.
abbrev Pads : ℕ → ℕ → List ℕ → ℕ → List ℕ → Type 0
Pads n q pre x post =
    zero_fill (n - length (encode n q)) (pre ++ x ∷ (encode n q ++ drop (length (encode n q)) post))
      (length pre + length (encode n q))
    ≡ (pre ++ x ∷ (field n q ++ drop n post), length pre + n)

pad_small :
    (n q : ℕ) (pre : List ℕ) (x y : ℕ) (post : List ℕ)
    → ltb q 256 ≡ true
    → n ≤ length post
    → Pads (suc n) q pre x (y ∷ post)
unfolding field
pad_small n q pre x y post e h = rw (encode-small n q e) (
    ground (
      arith,
      zero_fill-splice n (pre ++ x ∷ []) (q % 256) post,
      field-zero n,
      snoc-append pre x ((q % 256) ∷ post),
      snoc-append pre x ((q % 256) ∷ (field n (q / 256) ++ drop n post)),
      length-snoc pre x,
    ))

pad_large :
    (n q : ℕ) (pre : List ℕ) (x y : ℕ) (post : List ℕ)
    → ltb q 256 ≡ false
    → Pads n (q / 256) (pre ++ x ∷ []) (q % 256) post
    → Pads (suc n) q pre x (y ∷ post)
unfolding field
pad_large n q pre x y post e ih = rw (encode-large n q e) (
    ground (
      arith,
      ih,
      snoc-append pre x
          ((q % 256) ∷ (encode n (q / 256) ++ drop (length (encode n (q / 256))) post)),
      snoc-append pre x ((q % 256) ∷ (field n (q / 256) ++ drop n post)),
      length-snoc pre x,
    ))

pad_field : (n q : ℕ) (pre : List ℕ) (x : ℕ) (post : List ℕ) → n ≤ length post → Pads n q pre x post
unfolding encode field zero_fill
pad_field zero q pre x post h = ground arith
pad_field (suc n) q pre x [] h = absurd (omega arith)
pad_field (suc n) q pre x (y ∷ post) h = elim (Bool-cases (ltb q 256)) [
  | inl e ↦ pad_small n q pre x y post e (omega arith)
  | inr e ↦
      pad_large n q pre x y post e
        (pad_field n (q / 256) (pre ++ x ∷ []) (q % 256) post (omega arith))
]

module _ (value : ℕ) (pre : List ℕ) (x : ℕ) (post : List ℕ)
    (fits : length pre + suc (length post) < 2 ^ 31) where
  pub write-encode :
      value ≤ max_allowed_integer
      → write_buf_uint_le value (pre ++ x ∷ post) (length pre) none
        ≡ ok (
          pre
              ++ (encode (suc (length post)) value
                  ++ drop (length (encode (suc (length post)) value) - 1) post),
          length pre + length (encode (suc (length post)) value),
        )
  unfolding write_buf_uint_le encode
  write-encode h = ground (
    arith,
    length-append pre (x ∷ post),
    set-append pre x (value % 256) post,
    write_quotients-splice (length post) value 256 pre (value % 256) post,
  )

  -- With `stop`, `m + 1` bytes on, the value is written as a field of exactly that width.
  pub write-field :
      (m : ℕ)
      → value ≤ max_allowed_integer
      → m ≤ length post
      → write_buf_uint_le value (pre ++ x ∷ post) (length pre) (some (length pre + suc m))
        ≡ ok (pre ++ (field (suc m) value ++ drop m post), length pre + suc m)
  unfolding write_buf_uint_le field
  write-field m h w = ground (
    arith,
    length-append pre (x ∷ post),
    set-append pre x (value % 256) post,
    write_quotients-splice m value 256 pre (value % 256) post,
    pad_field m (value / 256) pre (value % 256) post,
    zero_fill-splice m pre (value % 256) post,
    field-zero m,
  )
