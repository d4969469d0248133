-- ===== src/Streams/Outgoing/Tests.antt =====
-- streams_map_outgoing.go: two calls that wait for a limit of one stream.
use x_fec.Base.{ℕ, ◌≡◌, ◌≢◌, refl, Bool, true, false, [], ◌∷◌, some, ok, arith}
use x_fec.Base.Dict.{lookup}
use x_fec.Streams.Outgoing.{
  empty, full, is_above, OutgoingStreamsMap, new_outgoing_streams_map, open_stream_sync,
  set_max_stream, cancel,
}
use x_fec.Streams.Outgoing.Queue.{IsWaiting}
use x_fec.Streams.Outgoing.Waiting.{
  IsReached, starts, waits_for, raises, Works, IsReached-Works, cancel_loses_wakeup,
}

abbrev new_stream : ℕ → Bool → ℕ
new_stream num fec_protected = num

abbrev one_waits : OutgoingStreamsMap ℕ
one_waits = (open_stream_sync new_stream new_outgoing_streams_map false true).1.0

abbrev two_wait : OutgoingStreamsMap ℕ
two_wait = (open_stream_sync new_stream one_waits false false).1.0

abbrev notified_map : OutgoingStreamsMap ℕ
notified_map = record {
  streams = [];
  open_queue = (0, full) ∷ (1, empty) ∷ [];
  lowest_in_queue = 0;
  highest_in_queue = 2;
  next_stream = 1;
  max_stream = some 1;
  blocked_sent = true;
  closed = false;
}

notified_map_limit : set_max_stream two_wait 1 ≡ ok (notified_map, some 1)
unfolding set_max_stream open_stream_sync new_outgoing_streams_map
notified_map_limit = refl

notified_map-IsReached : IsReached new_stream notified_map
notified_map-IsReached =
    raises two_wait notified_map 1 (some 1) notified_map_limit
      (waits_for one_waits false false (waits_for new_outgoing_streams_map false true starts))

IsReached-Works_example : Works new_stream notified_map
IsReached-Works_example = IsReached-Works new_stream notified_map notified_map-IsReached

cancel_loses_wakeup_example :
    IsWaiting 1 (cancel notified_map 0).open_queue
    × ((i : ℕ) → lookup i (cancel notified_map 0).open_queue ≢ some full)
    × (is_above (cancel notified_map 0).next_stream (cancel notified_map 0).max_stream ≡ false)
cancel_loses_wakeup_example =
    cancel_loses_wakeup new_stream notified_map 0 1 notified_map-IsReached refl (λ e. ground arith)
      (omega arith) refl
