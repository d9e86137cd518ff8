-- ===== src/Server/Starting.antt =====
-- How `requestEntriesHandler` of lib/server/raft_server.js starts: the range of a new stream.
use node_zmq_raft.Prelude.{ℕ, ◌+◌, ◌≤◌, ◌<◌, ◌≡◌, min, ◌⊎◌, Bool, true, false, Option, none, some}
use node_zmq_raft.Server.Stream.{
  Start, not_leader, ignored, snapshot_first, up_to_date, started, new_stream,
}

-- The last index to send: the last applied, or the count's end when that comes first.
unfoldable pub IsLast : (last_applied prev_index : ℕ) → Option ℕ → ℕ → Type 0
IsLast last_applied prev_index none last = last ≡ last_applied
IsLast last_applied prev_index (some n) last = last ≡ min last_applied (prev_index + n)

module _ (A : Type 0) (leads busy : Bool) (first_index last_applied prev_index : ℕ)
    (count : Option ℕ) where
  -- What each start tells of the request; no two of them can hold of one request.
  unfoldable pub IsRightStart : Start A → Type 0
  IsRightStart not_leader = leads ≡ false
  IsRightStart ignored = (leads ≡ true) × ((count ≡ some 0) ⊎ (busy ≡ true))
  IsRightStart snapshot_first =
      (leads ≡ true) × (count ≡ some 0 → ⊥) × (busy ≡ false) × (prev_index + 1 < first_index)
  IsRightStart (up_to_date last) =
      (leads ≡ true)
      × (count ≡ some 0 → ⊥)
      × (busy ≡ false)
      × (first_index ≤ prev_index + 1)
      × (last_applied ≤ prev_index)
      × (last ≡ last_applied)
  IsRightStart (started s) =
      (leads ≡ true)
      × (count ≡ some 0 → ⊥)
      × (busy ≡ false)
      × (first_index ≤ prev_index + 1)
      × (prev_index < last_applied)
      × IsLast last_applied prev_index count s.last_index
      × (s ≡ new_stream prev_index s.last_index)
