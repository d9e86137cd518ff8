-- ===== src/Server/StreamTests.antt =====
-- The theorems on the streams of lib/server/raft_server.js, with a pipeline of one chunk.
use node_zmq_raft.Server.Stream.{
  Chunk, last_to_send, new_stream, start_stream, cancel, pipe_loop, pipe, on_data, on_end, request,
}
use node_zmq_raft.Server.Streaming.{chunks, IsNumbered}
use node_zmq_raft.Server.Conversation.{
  Event, arrived, ended, confirmed, take_event, stream_step, stream_run, replies_in_order,
}
use node_zmq_raft.Server.Confirmed.{confirmed_in_turn}
use node_zmq_raft.Server.Completion.{fits, follows, all_sent}
use node_zmq_raft.Prelude.{
  ℕ, ◌≤◌, ◌≡◌, refl, true, false, List, [], ◌∷◌, ◌++◌, none, length, map, arith,
}

-- The two entries are delivered and confirmed one after the other, one chunk at a time.
abbrev conversation : List (Event ℕ)
conversation =
    arrived (7 ∷ []) ∷ arrived (8 ∷ []) ∷ ended ∷ confirmed 1 none ∷ confirmed 2 none ∷ []

abbrev weight : ℕ → ℕ
weight entry = 0

streaming : Unit {0}
unfolding last_to_send start_stream cancel pipe_loop pipe on_data on_end request take_event
    stream_step stream_run fits follows
streaming = tt

-- The second chunk waits for the confirmation of the first; the stream ends with the second sent.
second_last :
    map (λ c. c.is_last) (stream_run weight 5 1 (new_stream 0 2) conversation).1 ≡ false ∷ true ∷ []
unfolding streaming
second_last = refl

follows_all : follows weight 5 1 (new_stream 0 2) conversation ≡ true
unfolding streaming
follows_all = refl

all_sent_example :
    chunks (stream_run weight 5 1 (new_stream 0 2) conversation).1 ≡ (7 ∷ []) ∷ (8 ∷ []) ∷ []
all_sent_example = all_sent weight 5 1 0 2 conversation (omega arith) follows_all refl (omega arith)

replies_in_order_example :
    (rest : List (List ℕ)) × (chunks (stream_run weight 5 1 (new_stream 0 2) conversation).1 ++ rest
      ≡ (7 ∷ []) ∷ (8 ∷ []) ∷ [])
    × IsNumbered 0 2 (stream_run weight 5 1 (new_stream 0 2) conversation).1
    × (length (stream_run weight 5 1 (new_stream 0 2) conversation).1 ≤ 3)
replies_in_order_example = replies_in_order weight 5 1 0 2 conversation (omega arith)

-- After the first of the two confirmations, the stream still waits for the second.
abbrev half : List (Event ℕ)
half = arrived (7 ∷ []) ∷ arrived (8 ∷ []) ∷ arrived (9 ∷ []) ∷ confirmed 1 none ∷ []

half_active : (stream_run weight 5 1 (new_stream 0 3) half).0.active ≡ true
unfolding streaming
half_active = refl

-- The same index confirmed again ends it.
twice_ended :
    (stream_run weight 5 1 (new_stream 0 3) (half ++ confirmed 1 none ∷ [])).0.active ≡ false
unfolding streaming
twice_ended = refl

confirmed_in_turn_example :
    ((stream_run weight 5 1 (new_stream 0 3) half).0.active ≡ true
      → (unconfirmed : List ℕ) × (1 ∷ unconfirmed
          ≡ map
              (λ (reply : Chunk ℕ). reply.last_index)
              (stream_run weight 5 1 (new_stream 0 3) half).1))
    × ((stream_run weight 5 1 (new_stream 0 3) half).0.active ≡ false
        → (more : List (Event ℕ))
        → (stream_run weight 5 1 (stream_run weight 5 1 (new_stream 0 3) half).0 more).1 ≡ [])
confirmed_in_turn_example = confirmed_in_turn weight 5 1 0 3 half (omega arith)
