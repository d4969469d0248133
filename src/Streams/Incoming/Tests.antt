-- ===== src/Streams/Incoming/Tests.antt =====
-- streams_map_incoming.go: the calls of a peer that may have two streams.
use x_fec.Base.{ℕ, ◌+◌, ◌-◌, ◌≤◌, ◌≡◌, refl, List, [], ◌∷◌, length}
use x_fec.Streams.Incoming.{
  IncomingStreamsMap, new_incoming_streams_map, accept_stream, delete_stream, get_or_open_stream,
}
use x_fec.Streams.Incoming.Runs.{Call, accept, close, open_stream, delete, run, run-IsBounded}

abbrev new_stream : ℕ → ℕ
new_stream n = n

abbrev calls : List Call
calls = open_stream 1 ∷ open_stream 2 ∷ accept ∷ delete 1 ∷ []

abbrev more_calls : List Call
more_calls = open_stream 3 ∷ delete 2 ∷ accept ∷ close ∷ []

limit_raised : (run new_stream calls (new_incoming_streams_map 2)).max_stream ≡ 3
unfolding run accept_stream delete_stream get_or_open_stream new_incoming_streams_map
limit_raised = refl

run-IsBounded_example :
    let m : IncomingStreamsMap ℕ = run new_stream calls (new_incoming_streams_map 2) in
    let m' : IncomingStreamsMap ℕ = run new_stream more_calls m in
    (length m.streams + (m.max_stream + 1 - m.next_stream_to_open) ≤ 2)
    × (m.max_stream ≤ m'.max_stream)
run-IsBounded_example = run-IsBounded new_stream 2 calls more_calls
