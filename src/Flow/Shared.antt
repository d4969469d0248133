-- ===== src/Flow/Shared.antt =====
-- internal/flowcontrol: a connection's controller and those of its streams, over time. An event that
-- the callers rule out (Flow.Moves) is passed over, and an error ends the connection. When 0-RTT is
-- rejected (dropEncryptionLevel in connection.go) the streams go and the connection's controller is reset.
use x_fec.Base.{
  ◌+◌, false, if◌then◌else◌, ltb, ◌||◌, Result, ok, err, Bool-cases, inl, inr, ℕ, ◌≤◌, ◌≡◌, refl,
  List, [], ◌∷◌, Bool, Option, none, some, arith, set, All, get_elem?, sum, sum-set, sum-append,
  All-append, ◌++◌, All-set, All-get,
}
use x_fec.Flow.{FlowError, BaseFlowController, update_send_window, is_set}
use x_fec.Flow.Connection.{new_connection_flow_controller, connection_get_window_update, reset}
use x_fec.Flow.Stream.{new_stream_flow_controller}
use x_fec.Flow.Moves.{Tracked, Fits, Event, Outcome, is_possible, happens, Passes, happens-Passes}
use x_fec.Flow.Window.{due_or_not}
use x_fec.Flow.Rounding.{threshold-le}

pub record Shared : Type 0 where
  pub connection : BaseFlowController
  pub streams : List Tracked

-- An event of the stream with a number; a new limit for the connection, an announcement of the
-- connection's, a rejection of 0-RTT; a new stream, with the arguments of its controller.
pub data Happening : Type 0 where
  on : ℕ → Event → Happening
  raises_connection : ℕ → Happening
  updates_connection rejects_zero_rtt : Happening
  opens : ℕ → ℕ → ℕ → ℕ → Happening

-- The connection's counts are the sums over its streams, and everything fits the windows.
pub record Balanced (t : Shared) : Type 0 where
  pub all_received :
      t.connection.highest_received ≡ sum (λ s. s.controller.base.highest_received) t.streams
  pub all_read :
      t.connection.bytes_read ≡ sum (λ s. s.controller.base.bytes_read + s.given_up) t.streams
  pub all_sent : t.connection.bytes_sent ≡ sum (λ s. s.controller.base.bytes_sent) t.streams
  pub streams_fit : All Fits t.streams
  pub connection_received : t.connection.highest_received ≤ t.connection.receive_window
  pub connection_sent : t.connection.bytes_sent ≤ t.connection.send_window

abbrev pub if_passed : List Tracked → ℕ → Outcome → Option Shared
if_passed ss i (none, (s, c)) = some (record { connection = c; streams = set ss i s })
if_passed ss i (some e, r) = none

-- The streams go with the connection's reset.
abbrev pub without_streams : Result FlowError BaseFlowController → Option Shared
without_streams (ok c) = some (record { connection = c; streams = [] })
without_streams (err e) = none

abbrev pub Holds : Option Shared → Type 0
Holds none = Unit
Holds (some t) = Balanced t

abbrev pub opened : ℕ → ℕ → ℕ → ℕ → Tracked
opened sid window max_window send = record {
  controller = new_stream_flow_controller sid window max_window send;
  given_up = 0;
  is_abandoned = false;
}

module _ (share : ℕ → ℕ → ℕ → ℕ) (allow : ℕ → Bool) (now rtt : ℕ) where
  abbrev pub at_stream : Shared → ℕ → Event → Option Tracked → Option Shared
  at_stream t i x none = some t
  at_stream t i x (some s) =
      if is_possible s t.connection x
      then if_passed t.streams i (happens share allow now rtt s t.connection x)
      else some t

  unfoldable pub step : Shared → Happening → Option Shared
  step t (on i x) = at_stream t i x (get_elem? t.streams i)
  step t (raises_connection n) =
      some (record t { connection = (update_send_window t.connection n).1 })
  step t updates_connection =
      some (record t {
        connection = (connection_get_window_update share allow now rtt t.connection).1;
      })
  step t (opens sid window max_window send) =
      some (record t { streams = t.streams ++ opened sid window max_window send ∷ [] })
  step t rejects_zero_rtt = without_streams (reset t.connection)

  passed-Balanced :
      (t : Shared) (i : ℕ) (s : Tracked) (r : Outcome)
      → get_elem? t.streams i ≡ some s
      → Passes share allow now rtt s t.connection r
      → Balanced t
      → Holds (if_passed t.streams i r)
  passed-Balanced t i s (some e, r) g p b = tt
  passed-Balanced t i s (none, (s', c')) g p b =
      let m = p refl in
      let f = m.stream_fits in
      record {
        all_received = omega (
          arith,
          m.received_moves,
          b.all_received,
          sum-set (λ (s : Tracked). s.controller.base.highest_received) t.streams i s s' g,
        );
        all_read = omega (
          arith,
          m.read_moves,
          b.all_read,
          sum-set (λ (s : Tracked). s.controller.base.bytes_read + s.given_up) t.streams i s s' g,
        );
        all_sent = omega (
          arith,
          m.sent_moves,
          b.all_sent,
          sum-set (λ (s : Tracked). s.controller.base.bytes_sent) t.streams i s s' g,
        );
        streams_fit = All-set Fits t.streams i s' b.streams_fit f;
        connection_received = m.connection_received b.connection_received;
        connection_sent = m.connection_sent b.connection_sent;
      }

  at_stream-Balanced :
      (t : Shared) (i : ℕ) (x : Event) (o : Option Tracked)
      → get_elem? t.streams i ≡ o
      → Balanced t
      → Holds (at_stream t i x o)
  at_stream-Balanced t i x none g b = b
  at_stream-Balanced t i x (some s) g b = elim (Bool-cases (is_possible s t.connection x)) [
    | inr e ↦ rw e b
    | inl e ↦ rw e (
        passed-Balanced t i s (happens share allow now rtt s t.connection x) g
          (happens-Passes share allow now rtt s t.connection x
            (All-get Fits t.streams i s b.streams_fit g) e)
          b)
  ]

  reset-Balanced : (t : Shared) → Balanced t → Holds (without_streams (reset t.connection))
  unfolding reset
  reset-Balanced t b =
      elim (Bool-cases (
        ltb 0 t.connection.bytes_read
        || ltb 0 t.connection.highest_received
        || is_set t.connection.epoch_start_time)) [
          | inl e ↦ rw e tt
          | inr e ↦ rw e (record {
            all_received = ground arith;
            all_read = ground arith;
            all_sent = refl;
            streams_fit = tt;
            connection_received = b.connection_received;
            connection_sent = omega arith;
          })
        ]

  pub step-Balanced : (t : Shared) (x : Happening) → Balanced t → Holds (step t x)
  unfolding step update_send_window new_stream_flow_controller connection_get_window_update
  step-Balanced t (on i x) b = at_stream-Balanced t i x (get_elem? t.streams i) refl b
  step-Balanced t (raises_connection n) b = record {
    all_received = ground arith;
    all_read = ground arith;
    all_sent = ground arith;
    streams_fit = b.streams_fit;
    connection_received = ground arith;
    connection_sent = ground arith;
  }
  step-Balanced t updates_connection b =
      let u = due_or_not share (some allow) now rtt t.connection in
      let l = threshold-le t.connection.receive_window_size in
      record {
        all_received = ground arith;
        all_read = ground arith;
        all_sent = ground arith;
        streams_fit = b.streams_fit;
        connection_received = ground arith;
        connection_sent = ground arith;
      }
  step-Balanced t rejects_zero_rtt b = reset-Balanced t b
  step-Balanced t (opens sid window max_window send) b =
      let n = opened sid window max_window send in
      record {
        all_received = omega (
          arith,
          b.all_received,
          sum-append (λ (s : Tracked). s.controller.base.highest_received) t.streams (n ∷ []),
        );
        all_read = omega (
          arith,
          b.all_read,
          sum-append (λ (s : Tracked). s.controller.base.bytes_read + s.given_up) t.streams
              (n ∷ []),
        );
        all_sent = omega (
          arith,
          b.all_sent,
          sum-append (λ (s : Tracked). s.controller.base.bytes_sent) t.streams (n ∷ []),
        );
        streams_fit = All-append Fits t.streams (n ∷ []) b.streams_fit (
          record {
            read_received = ground arith;
            received_allowed = ground arith;
            sent_allowed = ground arith;
            none_given_up = inr refl;
          },
          tt,
        );
        connection_received = b.connection_received;
        connection_sent = b.connection_sent;
      }

module _ (share : ℕ → ℕ → ℕ → ℕ) (allow : ℕ → Bool) where
  abbrev pub then_run : (Shared → Option Shared) → Option Shared → Option Shared
  then_run next none = none
  then_run next (some t) = next t

  -- A row of events, each with the time and the smoothed RTT, up to the first error.
  unfoldable pub run : List (ℕ × ℕ × Happening) → Shared → Option Shared
  run [] t = some t
  run ((now, rtt, x) ∷ xs) t = then_run (run xs) (step share allow now rtt t x)

  carried :
      (f : Shared → Option Shared)
      → ((t : Shared) → Balanced t → Holds (f t))
      → (o : Option Shared) → Holds o
      → Holds (then_run f o)
  carried f h none b = tt
  carried f h (some t) b = h t b

  run-Holds : (xs : List (ℕ × ℕ × Happening)) (t : Shared) → Balanced t → Holds (run xs t)
  unfolding run
  run-Holds [] t b = b
  run-Holds ((now, rtt, x) ∷ xs) t b =
      carried (run xs) (λ t. run-Holds xs t) (step share allow now rtt t x)
        (step-Balanced share allow now rtt t x b)

  abbrev pub new_shared : ℕ → ℕ → Shared
  new_shared window max_window = record {
    connection = new_connection_flow_controller window max_window;
    streams = [];
  }

  -- From a new connection, through any row of events of its streams and of its own that goes without an error, at
  -- any times, in which no stream reads more than arrived, sends more than SendWindowSize, or reads or
  -- is abandoned after it was abandoned: the connection has received and sent as many bytes as its streams together, and
  -- has read as many as they have read and, by being abandoned, given up; and neither a stream nor the
  -- connection has received more than the limit it announced, or sent more than the limit it was given. When
  -- 0-RTT is rejected, the connection goes on without streams.
  pub run-Balanced :
      (window max_window : ℕ) (xs : List (ℕ × ℕ × Happening))
      → Holds (run xs (new_shared window max_window))
  unfolding new_connection_flow_controller
  run-Balanced window max_window xs = run-Holds xs (new_shared window max_window) (ground arith)
