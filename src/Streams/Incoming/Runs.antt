-- ===== src/Streams/Incoming/Runs.antt =====
-- streams_map_incoming.go: sequences of calls on one map.
use x_fec.Base.{
  Bool-cases, inl, inr, ℕ, ◌+◌, ◌-◌, ◌≤◌, ◌≡◌, refl, List, [], ◌∷◌, none, some, ok, err, length,
  arith,
}
use x_fec.Base.Dict.{lookup}
use x_fec.Streams.Incoming.{
  IncomingStreamsMap, Changed, new_incoming_streams_map, delete_stream, accept_stream,
  get_or_open_stream, close_with_error,
}
use x_fec.Streams.Incoming.Bound.{
  IsBounded, Good, only_map, opened_map, accepted_stream, got_stream, deleted,
}

-- The calls that change the map.
pub data Call : Type 0 where
  accept close : Call
  open_stream delete : ℕ → Call

module _ {T : Type 0} where
  abbrev pub call : (ℕ → T) → Call → IncomingStreamsMap T → Changed T
  call new_stream accept m = only_map (accept_stream m)
  call new_stream (open_stream num) m = opened_map (get_or_open_stream new_stream m num)
  call new_stream (delete num) m = delete_stream m num
  call new_stream close m = close_with_error m

  closed_map : (m : IncomingStreamsMap T) → IsBounded m → Good m (close_with_error m)
  unfolding close_with_error
  closed_map m b = elim (Bool-cases m.closed) [
    | inl e ↦ simp e tt
    | inr e ↦ simp e (record {
      still_bounded = record { opened = b.opened; bounded = b.bounded };
      same_maximum = refl;
      limit = refl;
    })
  ]

  called :
      (new_stream : ℕ → T) (c : Call) (m : IncomingStreamsMap T)
      → IsBounded m
      → Good m (call new_stream c m)
  unfolding delete_stream
  called new_stream accept m b = accepted_stream m b
  called new_stream (open_stream num) m b = got_stream new_stream m num b
  called new_stream (delete num) m b = deleted m num (lookup num m.streams) refl b
  called new_stream close m b = closed_map m b

  -- The map after a sequence of calls; a call that fails changes nothing.
  abbrev pub after : IncomingStreamsMap T → Changed T → IncomingStreamsMap T
  after m (ok (m', frame)) = m'
  after m (err e) = m

  unfoldable pub run : (ℕ → T) → List Call → IncomingStreamsMap T → IncomingStreamsMap T
  run new_stream [] m = m
  run new_stream (c ∷ cs) m = run new_stream cs (after m (call new_stream c m))

  -- What every sequence of calls keeps.
  pub record KeepsTo (m : IncomingStreamsMap T) (m' : IncomingStreamsMap T) : Type 0 where
    pub still : IsBounded m'
    pub maximum : m'.max_num_streams ≡ m.max_num_streams
    pub grows : m.max_stream ≤ m'.max_stream

  after_call :
      (m : IncomingStreamsMap T) (r : Changed T) → IsBounded m → Good m r → KeepsTo m (after m r)
  after_call m (err e) b g = record { still = b; maximum = refl; grows = omega arith }
  after_call m (ok (m', none)) b g = record {
    still = g.still_bounded;
    maximum = g.same_maximum;
    grows = omega (arith, g.limit);
  }
  after_call m (ok (m', some n)) b g = record {
    still = g.still_bounded;
    maximum = g.same_maximum;
    grows = omega (arith, g.limit);
  }

  run_lem :
      (new_stream : ℕ → T) (cs : List Call) (m : IncomingStreamsMap T)
      → IsBounded m
      → KeepsTo m (run new_stream cs m)
  unfolding run
  run_lem new_stream [] m b = record { still = b; maximum = refl; grows = omega arith }
  run_lem new_stream (c ∷ cs) m b =
      let m1 : IncomingStreamsMap T = after m (call new_stream c m) in
      let k : KeepsTo m m1 = after_call m (call new_stream c m) b (called new_stream c m b) in
      let r : KeepsTo m1 (run new_stream cs m1) = run_lem new_stream cs m1 k.still in
      record {
        still = r.still;
        maximum = omega (arith, r.maximum, k.maximum);
        grows = omega (arith, r.grows, k.grows);
      }

  new-IsBounded : (n : ℕ) → IsBounded (new_incoming_streams_map {T = T} n)
  unfolding new_incoming_streams_map
  new-IsBounded n = record { opened = omega arith; bounded = omega arith }

  -- However the calls of the peer and of the application follow each other on a new map, the streams that
  -- exist and those that the peer may still open are together at most as many as the maximum that the map
  -- was made with, and the limit that the peer was given is never taken back.
  pub run-IsBounded :
      (new_stream : ℕ → T) (n : ℕ) (cs ds : List Call)
      → let m : IncomingStreamsMap T = run new_stream cs (new_incoming_streams_map n) in
        let m' : IncomingStreamsMap T = run new_stream ds m in
        (length m.streams + (m.max_stream + 1 - m.next_stream_to_open) ≤ n)
        × (m.max_stream ≤ m'.max_stream)
  unfolding new_incoming_streams_map
  run-IsBounded new_stream n cs ds =
      let r = run_lem new_stream cs (new_incoming_streams_map n) (new-IsBounded n) in
      let r' = run_lem new_stream ds (run new_stream cs (new_incoming_streams_map n)) r.still in
      (omega (arith, r.maximum, r.still.bounded, r.still.opened), r'.grows)
