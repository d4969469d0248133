-- ===== src/Streams/Incoming.antt =====
-- streams_map_incoming.go: the streams that the peer opens. The streams are of any type, and how one is made
-- is a parameter. A MAX_STREAMS frame that is queued is returned; `AcceptStream` is one round of its
-- loop, which waits where the answer is `waits`. Of the channel that wakes it only that it is closed with the
-- map is modelled; the mutex and the shutdown of the streams are not.
pub mod Bound
pub mod Runs
pub mod Tests
use x_fec.Base.{
  ℕ, zero, suc, ◌+◌, ◌-◌, List, Bool, true, false, ltb, leb, ◌==◌, if◌then◌else◌, Option, none,
  some, Result, ok, err, ◌>>=◌, length, [],
}
use x_fec.Base.Dict.{Dict, insert, lookup}
use x_fec.Base.Keys.{without}
use x_fec.Wire.Control.{max_stream_count}

pub record StreamEntry {ℓ} (T : Type ℓ) : Type ℓ where
  pub stream : T
  pub should_delete : Bool

pub record IncomingStreamsMap {ℓ} (T : Type ℓ) : Type ℓ where
  pub streams : Dict (StreamEntry T)
  pub next_stream_to_accept : ℕ
  pub next_stream_to_open : ℕ
  pub max_stream : ℕ
  pub max_num_streams : ℕ
  pub closed : Bool

pub data StreamsError : Type 0 where
  above_limit unknown_stream deleted_twice map_closed waits : StreamsError
  -- The panics.
  send_on_closed_channel close_of_closed_channel : StreamsError

-- The map with the frame that is queued.
abbrev pub Changed {ℓ} : Type ℓ → Type ℓ
Changed T = Result StreamsError (IncomingStreamsMap T × Option ℕ)

module _ {ℓ} {T : Type ℓ} where
  unfoldable pub new_incoming_streams_map : ℕ → IncomingStreamsMap T
  new_incoming_streams_map max_streams = record {
    streams = [];
    next_stream_to_accept = 1;
    next_stream_to_open = 1;
    max_stream = max_streams;
    max_num_streams = max_streams;
    closed = false;
  }

  -- The peer may open as many streams as are missing.
  unfoldable pub announce : IncomingStreamsMap T → IncomingStreamsMap T × Option ℕ
  announce m =
      let limit = m.next_stream_to_open + (m.max_num_streams - length m.streams) - 1 in
      if ltb (length m.streams) m.max_num_streams
      then (if leb limit max_stream_count
          then (record m { max_stream = limit }, some limit)
          else (m, none))
      else (m, none)

  unfoldable pub delete_entry : IncomingStreamsMap T → ℕ → Option (StreamEntry T) → Changed T
  unfolding announce
  delete_entry m num none = err unknown_stream
  delete_entry m num (some e) =
      if leb m.next_stream_to_accept num
      then (if e.should_delete
          then err deleted_twice
          else ok (
            record m { streams = insert num (record e { should_delete = true }) m.streams },
            none,
          ))
      else ok (announce (record m { streams = without num m.streams }))

  unfoldable pub delete_stream : IncomingStreamsMap T → ℕ → Changed T
  unfolding delete_entry
  delete_stream m num = delete_entry m num (lookup num m.streams)

  abbrev pub accepted : T → Changed T → Result StreamsError (T × (IncomingStreamsMap T × Option ℕ))
  accepted s (ok r) = ok (s, r)
  accepted s (err e) = err e

  unfoldable pub accept_entry :
      IncomingStreamsMap T
      → ℕ
      → Option (StreamEntry T)
      → Result StreamsError (T × (IncomingStreamsMap T × Option ℕ))
  unfolding delete_stream
  accept_entry m num none = err waits
  accept_entry m num (some e) =
      let m1 : IncomingStreamsMap T = record m { next_stream_to_accept = num + 1 } in
      accepted e.stream (if e.should_delete then delete_stream m1 num else ok (m1, none))

  unfoldable pub accept_stream :
      IncomingStreamsMap T → Result StreamsError (T × (IncomingStreamsMap T × Option ℕ))
  unfolding accept_entry
  accept_stream m =
      if m.closed
      then err map_closed
      else accept_entry m m.next_stream_to_accept (lookup m.next_stream_to_accept m.streams)

  -- A stream that waits for its deletion is not given out.
  abbrev pub usable : Option (StreamEntry T) → Option T
  usable none = none
  usable (some e) = if e.should_delete then none else some e.stream

  unfoldable pub close_with_error : IncomingStreamsMap T → Changed T
  close_with_error m =
      if m.closed then err close_of_closed_channel else ok (record m { closed = true }, none)

  module _ (new_stream : ℕ → T) where
    -- `n` streams from a number on.
    unfoldable pub open_from : ℕ → ℕ → Dict (StreamEntry T) → Dict (StreamEntry T)
    open_from zero num streams = streams
    open_from (suc n) num streams =
        open_from n (num + 1)
          (insert num (record { stream = new_stream num; should_delete = false }) streams)

    unfoldable pub get_or_open_stream :
        IncomingStreamsMap T → ℕ → Result StreamsError (Option T × IncomingStreamsMap T)
    unfolding open_from
    get_or_open_stream m num =
        let streams = open_from (num + 1 - m.next_stream_to_open) m.next_stream_to_open m.streams in
        if ltb m.max_stream num
        then err above_limit
        else if ltb num m.next_stream_to_open
        then ok (usable (lookup num m.streams), m)
        else if m.closed
        then err send_on_closed_channel
        else ok (
          usable (lookup num streams),
          record m { streams = streams; next_stream_to_open = num + 1 },
        )
