-- ===== src/LogEntry/Tests.antt =====
-- The theorems on lib/common/log_entry.js at small entries.
use node_zmq_raft.LogEntry.{
  buffer, build, read_type_of, read_term_of, read_request_id_of, read_data_of, last_config_loop,
  last_config_offset_of, has_request_expired, check_request_sanity, sane,
}
use node_zmq_raft.LogEntry.Layout.{IsId, build_readers}
use node_zmq_raft.LogEntry.LastConfig.{
  IsLastConfig, last_config_offset_of-IsLastConfig, sane-unexpired,
}
use node_zmq_raft.Prelude.{
  ℕ, ◌+◌, ◌≡◌, refl, false, List, [], ◌∷◌, some, String, ok, length, replicate, arith,
}

abbrev no_bytes : String → List ℕ
no_bytes s = []

abbrev junk : List ℕ
junk = replicate 20 255

-- A request id of fourteen bytes, of which an entry keeps twelve.
abbrev long_id : List ℕ
long_id = 1 ∷ 2 ∷ 3 ∷ 4 ∷ 5 ∷ 6 ∷ 7 ∷ 8 ∷ 9 ∷ 10 ∷ 11 ∷ 12 ∷ 13 ∷ 14 ∷ []

long_id-IsId : IsId no_bytes no_bytes (buffer long_id) long_id
unfolding IsId
long_id-IsId = refl

build_readers_example :
    (entry : List ℕ) × (build no_bytes no_bytes junk (buffer long_id) 1 300 (9 ∷ []) ≡ ok entry)
    × (length entry ≡ 20 + 1)
    × (read_type_of entry ≡ ok 1)
    × (read_term_of entry ≡ ok (some 300))
    × (read_request_id_of entry ≡ ok (1 ∷ 2 ∷ 3 ∷ 4 ∷ 5 ∷ 6 ∷ 7 ∷ 8 ∷ 9 ∷ 10 ∷ 11 ∷ 12 ∷ []))
    × (read_data_of entry ≡ ok (9 ∷ []))
build_readers_example =
    build_readers no_bytes no_bytes junk refl (buffer long_id) 1 300 (9 ∷ []) long_id long_id-IsId
      (omega arith) (omega arith) (omega arith) (omega arith)

abbrev of_type : ℕ → List ℕ
of_type type =
    0 ∷ 0 ∷ 0 ∷ 0 ∷ 0 ∷ 0 ∷ 0 ∷ 0 ∷ 0 ∷ 0 ∷ 0 ∷ 0 ∷ type ∷ 1 ∷ 0 ∷ 0 ∷ 0 ∷ 0 ∷ 0 ∷ 0 ∷ 5 ∷ []

abbrev entries : List (List ℕ)
entries = of_type 1 ∷ of_type 0 ∷ of_type 1 ∷ of_type 2 ∷ []

last_is_two : last_config_offset_of entries ≡ ok (some 2)
unfolding last_config_offset_of last_config_loop read_type_of
last_is_two = refl

last_config_offset_of-IsLastConfig_example : IsLastConfig entries 4 (some 2)
last_config_offset_of-IsLastConfig_example =
    last_config_offset_of-IsLastConfig entries (some 2) last_is_two

ten_is_sane : check_request_sanity (some 8000) 1000 1000 10000 10 ≡ sane
unfolding check_request_sanity
ten_is_sane = refl

sane-unexpired_example : has_request_expired (some 8000) 11000 10 ≡ false
sane-unexpired_example =
    sane-unexpired 8000 1000 1000 10000 11000 10 ten_is_sane (omega arith) (omega arith)
