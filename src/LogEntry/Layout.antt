-- ===== src/LogEntry/Layout.antt =====
-- The layout of an entry, and that the readers find what `LogEntry.build` put in.
use node_zmq_raft.Bufconv.{max_allowed_integer, write_buf_uint_le, read_buf_uint_le}
use node_zmq_raft.Bufconv.Unsigned.{write-field, read-decode}
use node_zmq_raft.Bufconv.Bytes.{field, length-field, decode-field, snoc-append, length-snoc}
use node_zmq_raft.LogEntry.{
  RequestId, no_id, buffer, text, overlay, request_bytes, build, read_type_of, read_term_of,
  read_request_id_of, read_data_of, is_entry,
}
use Prim.Native.String.{count}
use node_zmq_raft.Prelude.{
  ℕ, ◌+◌, ◌%◌, ◌^◌, ◌≤◌, ◌<◌, ◌≡◌, refl, true, List, [], ◌∷◌, ◌++◌, some, String, length, take,
  drop, arith, ok, length-append, length-take, length-drop, take-append_at, drop-append_at,
  get_or-append_at, ap, ok-injective, le→leb, ◌∙◌, sym, append_assoc, ◌/◌, replicate, ◌⊎◌, inl, inr,
}

length-overlay : (bytes under : List ℕ) → length (overlay bytes under) ≡ length under
length-overlay [] under = refl
length-overlay (b ∷ bytes) [] = refl
length-overlay (b ∷ bytes) (j ∷ under) = omega (arith, length-overlay bytes under)

overlay-whole : (bytes under : List ℕ) → length bytes ≡ length under → overlay bytes under ≡ bytes
overlay-whole [] [] h = refl
overlay-whole [] (j ∷ under) h = absurd (omega arith)
overlay-whole (b ∷ bytes) [] h = absurd (omega arith)
overlay-whole (b ∷ bytes) (j ∷ under) h = ap (◌∷◌ b) (overlay-whole bytes under (omega arith))

-- The bytes that a request id stands for.
module _ (from_hex from_base64 : String → List ℕ) where
  unfoldable pub IsId : RequestId → List ℕ → Type 0
  IsId no_id id = id ≡ replicate 12 0
  IsId (buffer bytes) id = id ≡ bytes
  IsId (text s) id = ((count s ≡ 24) × (id ≡ from_hex s)) ⊎ ((count s ≡ 16) × (id ≡ from_base64 s))

mod_small : (n : ℕ) → n < 256 → n % 256 ≡ n
mod_small n h = omega arith

-- The term written over the seven bytes behind the type.
write_term :
    (request : List ℕ) (type term : ℕ) (gap bytes : List ℕ)
    → length request ≡ 12
    → length gap ≡ 7
    → term ≤ max_allowed_integer
    → length bytes < 2 ^ 30
    → write_buf_uint_le term (request ++ type ∷ (gap ++ bytes)) 13 (some 20)
      ≡ ok (request ++ type ∷ (field 7 term ++ bytes), 20)
write_term request type term [] bytes h g small fits = absurd (omega arith)
write_term request type term (x ∷ gap) bytes h g small fits = ground (
  arith,
  length-snoc request type,
  length-append gap bytes,
  snoc-append request type (x ∷ (gap ++ bytes)),
  snoc-append request type (field 7 term ++ bytes),
  drop-append_at gap bytes 6 (omega arith),
  write-field term (request ++ type ∷ []) x (gap ++ bytes)
      (omega (arith, length-snoc request type, length-append gap bytes)) 6 small
      (omega (arith, length-append gap bytes)),
)

-- What the readers find in bytes laid out like an entry.
module _ (request : List ℕ) (type term : ℕ) (bytes : List ℕ) (len : length request ≡ 12) where
  length-layout : length (request ++ type ∷ (field 7 term ++ bytes)) ≡ 20 + length bytes
  length-layout = omega (
    arith,
    length-append request (type ∷ (field 7 term ++ bytes)),
    length-append (field 7 term) bytes,
    length-field 7 term,
  )

  layout-is_entry : is_entry (request ++ type ∷ (field 7 term ++ bytes)) ≡ true
  layout-is_entry =
      le→leb 20 (length (request ++ type ∷ (field 7 term ++ bytes))) (omega (arith, length-layout))

  read_type_of-layout : read_type_of (request ++ type ∷ (field 7 term ++ bytes)) ≡ ok type
  unfolding read_type_of
  read_type_of-layout =
      rw (layout-is_entry, get_or-append_at request type 0 (field 7 term ++ bytes) 12 len)

  read_request_id_of-layout :
      read_request_id_of (request ++ type ∷ (field 7 term ++ bytes)) ≡ ok request
  unfolding read_request_id_of
  read_request_id_of-layout =
      rw (layout-is_entry, take-append_at request (type ∷ (field 7 term ++ bytes)) 12 len)

  split :
      (request ++ type ∷ []) ++ (field 7 term ++ bytes) ≡ request ++ type ∷ (field 7 term ++ bytes)
  split = snoc-append request type (field 7 term ++ bytes)

  drop-layout : drop 20 (request ++ type ∷ (field 7 term ++ bytes)) ≡ bytes
  drop-layout =
      ap (drop 20) (
        sym (snoc-append request type (field 7 term ++ bytes))
        ∙ sym (append_assoc (request ++ type ∷ []) (field 7 term) bytes))
      ∙ drop-append_at ((request ++ type ∷ []) ++ field 7 term) bytes 20 (
          omega (
            arith,
            length-append (request ++ type ∷ []) (field 7 term),
            length-snoc request type,
            length-field 7 term,
          ))

  read_data_of-layout : read_data_of (request ++ type ∷ (field 7 term ++ bytes)) ≡ ok bytes
  unfolding read_data_of
  read_data_of-layout = rw (layout-is_entry, drop-layout)

  read_field :
      term ≤ max_allowed_integer
      → read_buf_uint_le (request ++ type ∷ (field 7 term ++ bytes)) 13 (some 20) ≡ ok (some term)
  unfolding field
  read_field small = ground (
    arith,
    snoc-append request type (field 7 term ++ bytes),
    length-snoc request type,
    length-field 6 (term / 256),
    decode-field 7 term (omega arith),
    read-decode (request ++ type ∷ []) (term % 256) (field 6 (term / 256)) bytes,
  )

  read_term_of-layout :
      term ≤ max_allowed_integer
      → read_term_of (request ++ type ∷ (field 7 term ++ bytes)) ≡ ok (some term)
  unfolding read_term_of
  read_term_of-layout small = rw (layout-is_entry, read_field small)

module _ (from_hex from_base64 : String → List ℕ) (junk : List ℕ) (header : length junk ≡ 20) where
  length-request_bytes :
      (r : RequestId) {bytes : List ℕ}
      → request_bytes from_hex from_base64 junk r ≡ ok bytes
      → length bytes ≡ 12
  unfolding request_bytes
  length-request_bytes no_id e = omega (arith, ap length (ok-injective e))
  length-request_bytes (buffer b) e =
      ground (arith, length-overlay (take 12 b) (take 12 junk), length-take 12 junk)
  length-request_bytes (text s) e = ground (
    arith,
    length-overlay (take 12 (from_hex s)) (take 12 junk),
    length-overlay (take 12 (from_base64 s)) (take 12 junk),
    length-take 12 junk,
  )

  request_bytes-id :
      (r : RequestId) (id : List ℕ)
      → IsId from_hex from_base64 r id
      → 12 ≤ length id
      → request_bytes from_hex from_base64 junk r ≡ ok (take 12 id)
  unfolding request_bytes IsId
  request_bytes-id no_id id e h = ap (λ b. ok (take 12 b)) (sym e)
  request_bytes-id (buffer b) id e h =
      rw
        (
          ← e,
          le→leb 12 (length id) h,
          overlay-whole (take 12 id) (take 12 junk)
              (omega (arith, length-take 12 id, length-take 12 junk)),
        )
        refl
  request_bytes-id (text s) id (inl (n, e)) h =
      rw
        (
          n,
          ← e,
          overlay-whole (take 12 id) (take 12 junk)
              (omega (arith, length-take 12 id, length-take 12 junk)),
        )
        refl
  request_bytes-id (text s) id (inr (n, e)) h =
      rw
        (
          n,
          ← e,
          overlay-whole (take 12 id) (take 12 junk)
              (omega (arith, length-take 12 id, length-take 12 junk)),
        )
        refl

  build-layout :
      (r : RequestId) (type term : ℕ) (bytes request : List ℕ)
      → request_bytes from_hex from_base64 junk r ≡ ok request
      → term ≤ max_allowed_integer
      → length bytes < 2 ^ 30
      → build from_hex from_base64 junk r type term bytes
        ≡ ok (request ++ (type % 256) ∷ (field 7 term ++ bytes))
  unfolding build
  build-layout r type term bytes request e small fits = rw (
    e,
    write_term request (type % 256) term (drop 13 junk) bytes (length-request_bytes r e)
        (omega (arith, length-drop 13 junk)) small fits,
  )

  -- An entry built with a request id, no id counting as twelve bytes 0, a type of one byte, a safe integer
  -- as its term and data shorter than 2 ^ 30 bytes, is read back whole: the readers find the type, the
  -- term, the first twelve bytes of the id and the data. The id is a buffer, or a text of 24 or 16
  -- characters decoded from hex or base64, of at least twelve bytes.
  pub build_readers :
      (r : RequestId) (type term : ℕ) (bytes id : List ℕ)
      → IsId from_hex from_base64 r id
      → 12 ≤ length id
      → type < 256
      → term ≤ max_allowed_integer
      → length bytes < 2 ^ 30
      → (entry : List ℕ) × (build from_hex from_base64 junk r type term bytes ≡ ok entry)
        × (length entry ≡ 20 + length bytes)
        × (read_type_of entry ≡ ok type)
        × (read_term_of entry ≡ ok (some term))
        × (read_request_id_of entry ≡ ok (take 12 id))
        × (read_data_of entry ≡ ok bytes)
  build_readers r type term bytes id given long small_type small fits =
      let e : request_bytes from_hex from_base64 junk r ≡ ok (take 12 id) =
        request_bytes-id r id given long in
      let len = length-request_bytes r e in
      let same_type = mod_small type small_type in
      (
        take 12 id ++ (type % 256) ∷ (field 7 term ++ bytes),
        build-layout r type term bytes (take 12 id) e small fits,
        length-layout (take 12 id) (type % 256) term bytes len,
        read_type_of-layout (take 12 id) (type % 256) term bytes len ∙ ap ok same_type,
        read_term_of-layout (take 12 id) (type % 256) term bytes len small,
        read_request_id_of-layout (take 12 id) (type % 256) term bytes len,
        read_data_of-layout (take 12 id) (type % 256) term bytes len,
      )
