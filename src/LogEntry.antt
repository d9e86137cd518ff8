-- ===== src/LogEntry.antt =====
-- lib/common/log_entry.js: the byte layout of a log entry, its readers, and the age checks of
-- request ids. A buffer is the list of its bytes.
--
--   0 request id, 12 bytes | 12 type, 1 byte | 13 term, 7 bytes, lowest first | 20 data
pub mod Layout
pub mod LastConfig
mod Tests
use node_zmq_raft.Bufconv
use node_zmq_raft.Bufconv.{write_buf_uint_le, read_buf_uint_le}
use node_zmq_raft.Prelude.{
  ℕ, zero, suc, ◌+◌, ◌*◌, ◌%◌, Bool, true, false, List, [], ◌∷◌, ◌++◌, Option, none, some, String,
  length, get_or, take, drop, replicate, ltb, leb, ◌==◌, if◌then◌else◌, Result, ok, err, ◌>>=◌,
}
use Prim.Native.String.{count}

abbrev pub request_log_entry_length : ℕ
request_log_entry_length = 12

abbrev pub type_log_entry_offset : ℕ
type_log_entry_offset = 12

abbrev pub term_log_entry_offset : ℕ
term_log_entry_offset = 13

abbrev pub log_entry_header_size : ℕ
log_entry_header_size = 20

abbrev pub log_entry_type_state : ℕ
log_entry_type_state = 0

abbrev pub log_entry_type_config : ℕ
log_entry_type_config = 1

abbrev pub log_entry_type_checkpoint : ℕ
log_entry_type_checkpoint = 2

pub data Error : Type 0 where
  not_an_entry bad_request_id term_too_large : Error

-- A request id as `LogEntry.build` takes it.
pub data RequestId : Type 0 where
  no_id : RequestId
  buffer : List ℕ → RequestId
  text : String → RequestId

-- What `writeBufUIntLE` throws, as an error of this module.
abbrev pub lift {ℓ} : {A : Type ℓ} → Result Bufconv.Error A → Result Error A
lift (ok a) = ok a
lift (err e) = err term_too_large

-- The first list written over the head of the second.
abbrev pub overlay : List ℕ → List ℕ → List ℕ
overlay [] under = under
overlay (b ∷ bytes) [] = []
overlay (b ∷ bytes) (j ∷ under) = b ∷ overlay bytes under

-- `junk` is the header as `Buffer.allocUnsafe` leaves it; the two functions are node's decoders.
module _ (from_hex from_base64 : String → List ℕ) (junk : List ℕ) where
  -- The twelve bytes at the head of the entry.
  unfoldable pub request_bytes : RequestId → Result Error (List ℕ)
  request_bytes no_id = ok (replicate request_log_entry_length 0)
  request_bytes (buffer bytes) =
      if leb request_log_entry_length (length bytes)
      then ok (overlay (take request_log_entry_length bytes) (take request_log_entry_length junk))
      else err bad_request_id
  request_bytes (text s) =
      if count s == 24
      then ok (
          overlay (take request_log_entry_length (from_hex s)) (take request_log_entry_length junk))
      else if count s == 16
      then ok (
          overlay (take request_log_entry_length (from_base64 s))
            (take request_log_entry_length junk))
      else err bad_request_id

  -- `LogEntry.build`: the request id, the type, the term as a field of seven bytes, the data.
  unfoldable pub build : RequestId → ℕ → ℕ → List ℕ → Result Error (List ℕ)
  build request_id type term bytes = do
    request ← request_bytes request_id
    (entry, end) ← lift (
        write_buf_uint_le term
          (request ++ (type % 256) ∷ (drop term_log_entry_offset junk ++ bytes))
          term_log_entry_offset (some log_entry_header_size))
    ok entry

abbrev pub is_entry : List ℕ → Bool
is_entry entry = leb log_entry_header_size (length entry)

unfoldable pub read_type_of : List ℕ → Result Error ℕ
read_type_of entry =
    if is_entry entry then ok (get_or entry type_log_entry_offset 0) else err not_an_entry

unfoldable pub read_term_of : List ℕ → Result Error (Option ℕ)
read_term_of entry =
    if is_entry entry
    then lift (read_buf_uint_le entry term_log_entry_offset (some log_entry_header_size))
    else err not_an_entry

unfoldable pub read_request_id_of : List ℕ → Result Error (List ℕ)
read_request_id_of entry =
    if is_entry entry then ok (take request_log_entry_length entry) else err not_an_entry

unfoldable pub read_data_of : List ℕ → Result Error (List ℕ)
read_data_of entry =
    if is_entry entry then ok (drop log_entry_header_size entry) else err not_an_entry

-- `while (i--) if (readTypeOf(entries[i]) === LOG_ENTRY_TYPE_CONFIG) return i`
unfoldable pub last_config_loop : List (List ℕ) → ℕ → Result Error (Option ℕ)
unfolding read_type_of
last_config_loop entries zero = ok none
last_config_loop entries (suc i) =
    let rest = last_config_loop entries i in
    do
      type ← read_type_of (get_or entries i [])
      if type == log_entry_type_config then ok (some i) else rest

unfoldable pub last_config_offset_of : List (List ℕ) → Result Error (Option ℕ)
unfolding last_config_loop
last_config_offset_of entries = last_config_loop entries (length entries)

-- `makeHasRequestExpired`, where `seconds` is the age in the request id and `now` the clock, in ms.
-- What the source takes from `now` is added to the other side here.
unfoldable pub has_request_expired : Option ℕ → ℕ → ℕ → Bool
has_request_expired none now seconds = false
has_request_expired (some ttl) now seconds = ltb (seconds * 1000 + ttl) now

pub data Sanity : Type 0 where
  too_old sane too_new : Sanity

-- `makeCheckRequestSanity`: -1, 0 and 1.
unfoldable pub check_request_sanity : Option ℕ → ℕ → ℕ → ℕ → ℕ → Sanity
check_request_sanity none past future now seconds = sane
check_request_sanity (some ttl) past future now seconds =
    if ltb (seconds * 1000 + ttl) (now + past)
    then too_old
    else if ltb (now + future) (seconds * 1000)
    then too_new
    else sane
