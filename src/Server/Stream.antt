-- ===== src/Server/Stream.antt =====
-- `requestEntriesHandler` of lib/server/raft_server.js: the entries of the log, streamed to a client
-- that confirms what it has got. The chunks come from the log's read stream; `A` is an entry.
use node_zmq_raft.Prelude.{
  ℕ, suc, ◌+◌, ◌-◌, Bool, true, false, not, ◌&&◌, ◌||◌, List, [], ◌∷◌, ◌++◌, Option, none, some,
  length, drop, ltb, leb, ◌==◌, if◌then◌else◌,
}

-- A reply with entries: whether it is the last one, the index of its last entry, the entries.
pub record Chunk (A : Type 0) : Type 0 where
  pub is_last : Bool
  pub last_index : ℕ
  pub entries : List A

-- `prev_index` is that of the last entry sent, `first_queued` that of the first one not confirmed;
-- the first `next_to_send` chunks of the queue are sent. `active` tells that the stream is one of the
-- pending requests, `reading` that the log still delivers, and `paused` that it is held back.
pub record Stream (A : Type 0) : Type 0 where
  pub prev_index : ℕ
  pub last_index : ℕ
  pub first_queued : ℕ
  pub queue : List (List A)
  pub next_to_send : ℕ
  pub active : Bool
  pub reading : Bool
  pub paused : Bool

-- How a request starts: no leader, nothing to do, a snapshot first, nothing more, or a stream.
pub data Start (A : Type 0) : Type 0 where
  not_leader : Start A
  ignored : Start A
  snapshot_first : Start A
  up_to_date : ℕ → Start A
  started : Stream A → Start A

-- The last index that will be sent.
unfoldable pub last_to_send : (prev_index last_applied : ℕ) → Option ℕ → ℕ
last_to_send prev_index last_applied none = last_applied
last_to_send prev_index last_applied (some count) =
    if ltb last_applied (prev_index + count) then last_applied else prev_index + count

abbrev pub is_zero : Option ℕ → Bool
is_zero none = false
is_zero (some count) = count == 0

module _ {A : Type 0} where
  abbrev pub new_stream : (prev_index last_index : ℕ) → Stream A
  new_stream prev_index last_index = record {
    prev_index = prev_index;
    last_index = last_index;
    first_queued = prev_index + 1;
    queue = [];
    next_to_send = 0;
    active = true;
    reading = true;
    paused = false;
  }

  -- A request that is not part of a stream; `busy` tells of too many streams.
  unfoldable pub start_stream :
      (leads busy : Bool) (first_index last_applied prev_index : ℕ) → Option ℕ → Start A
  unfolding last_to_send
  start_stream leads busy first_index last_applied prev_index count =
      let last = last_to_send prev_index last_applied count in
      if not leads
      then not_leader
      else if is_zero count || busy
      then ignored
      else if ltb (prev_index + 1) first_index
      then snapshot_first
      else if ltb last (prev_index + 1)
      then up_to_date last
      else started (new_stream prev_index last)

  unfoldable pub cancel : Stream A → Stream A
  cancel s = record s { active = false; reading = false }

  -- The `while` of `pipe` over the chunks not sent: how many are sent then, the last index sent, and
  -- the replies. `limit` is `requestEntriesPipelines`.
  unfoldable pub pipe_loop :
      (limit last : ℕ) → List (List A) → (next prev : ℕ) → ℕ × ℕ × List (Chunk A)
  pipe_loop limit last [] next prev = (next, prev, [])
  pipe_loop limit last (entries ∷ unsent) next prev =
      let sent = prev + length entries in
      let (n, p, replies) = pipe_loop limit last unsent (suc next) sent in
      if ltb next limit
      then (n, p, record { is_last = sent == last; last_index = sent; entries = entries } ∷ replies)
      else (next, prev, [])

  -- The assertion that `prev_index` is not above `last_index` is left out: it fails only when the log
  -- delivers more than it was asked for.
  unfoldable pub pipe : ℕ → Stream A → Stream A × List (Chunk A)
  unfolding pipe_loop cancel
  pipe limit s =
      let (next, prev, replies) =
        pipe_loop limit s.last_index (drop s.next_to_send s.queue) s.next_to_send s.prev_index in
      let piped = record s { next_to_send = next; prev_index = prev } in
      if (prev == s.last_index) && leb (length s.queue) 1
      then (cancel piped, replies)
      else (piped, replies)

  -- `size` measures an entry, `large` is `requestEntriesEntrySizeLimitPipeline`.
  abbrev pub one_large : (size : A → ℕ) (large : ℕ) → List A → Bool
  one_large size large [] = false
  one_large size large (entry ∷ []) = ltb large (size entry)
  one_large size large (entry ∷ another ∷ more) = false

  unfoldable pub on_data :
      (size : A → ℕ) (large limit : ℕ) → Stream A → List A → Stream A × List (Chunk A)
  unfolding pipe
  on_data size large limit s entries =
      let (piped, replies) = pipe limit (record s { queue = s.queue ++ entries ∷ [] }) in
      let held =
        piped.reading
        && (ltb piped.next_to_send (length piped.queue)
            || (leb 1 piped.next_to_send && one_large size large entries)) in
      (record piped { paused = held || piped.paused }, replies)

  unfoldable pub on_end : Stream A → Stream A
  on_end s = record s { reading = false }

  -- A confirmation of what came up to `prev_index`; the last component tells whether it is handled.
  -- With an empty queue the source counts down to -1 and cancels.
  unfoldable pub request : ℕ → Stream A → ℕ → Option ℕ → Stream A × List (Chunk A) × Bool
  unfolding pipe cancel
  request limit s prev_index count = elim s.queue [
    | [] ↦ (cancel s, [], is_zero count)
    | entries ∷ queue ↦
        let shifted = record s { queue = queue; next_to_send = s.next_to_send - 1 } in
        let confirmed = record shifted { first_queued = s.first_queued + length entries } in
        let (piped, replies) = pipe limit confirmed in
        let pulled = piped.reading && leb (length piped.queue) piped.next_to_send in
        if is_zero count
        then (cancel shifted, [], true)
        else if not (prev_index == confirmed.first_queued - 1)
        then (cancel confirmed, [], false)
        else (record piped { paused = piped.paused && not pulled }, replies, true)
  ]

  -- The handler: the pending stream of the request, when there is one, what is sent, and how the request
  -- starts where the pending stream does not handle it.
  unfoldable pub request_entries :
      (limit : ℕ) (leads busy : Bool) (first_index last_applied : ℕ)
      → Option (Stream A)
      → (prev_index : ℕ) → Option ℕ
      → Option (Stream A) × List (Chunk A) × Start A
  unfolding request start_stream
  request_entries limit leads busy first_index last_applied none prev_index count =
      (none, [], start_stream leads busy first_index last_applied prev_index count)
  request_entries limit leads busy first_index last_applied (some s) prev_index count =
      let (next, replies, handled) = request limit s prev_index count in
      if not leads
      then (some s, [], not_leader)
      else if handled
      then (some next, replies, ignored)
      else (some next, replies, start_stream leads busy first_index last_applied prev_index count)
