-- ===== src/Flow/Moves.antt =====
-- internal/flowcontrol: one event, for a connection's controller and a stream's. The callers of the
-- controllers rule some events out: a stream (receive_stream.go) reads at most what arrived, is abandoned
-- once, and reads nothing after that; it sends (send_stream.go) at most what SendWindowSize lets it.
use x_fec.Base.{ℕ, ◌+◌, ◌-◌, ◌≤◌, ◌≡◌, Bool, true, leb, ◌&&◌, not, Option, none, ◌⊎◌, arith}
use x_fec.Flow.{FlowError, BaseFlowController, update_send_window, base_get_window_update}
use x_fec.Flow.Stream.{
  StreamFlowController, update_highest_received, stream_add_bytes_read, stream_add_bytes_sent,
  stream_send_window_size, stream_get_window_update, abandon, multiplied,
}
use x_fec.Flow.Rounding.{threshold-le}
use x_fec.Flow.Receive.{update_highest_received_lem}
use x_fec.Flow.Window.{ensure_minimum_window_size_same, due_or_not}

-- A stream's controller, with the bytes that the connection counts as read since the stream was abandoned.
pub record Tracked : Type 0 where
  pub controller : StreamFlowController
  pub given_up : ℕ
  pub is_abandoned : Bool

abbrev pub base_of : Tracked → BaseFlowController
base_of t = t.controller.base

-- The counts fit the windows.
pub record Fits (t : Tracked) : Type 0 where
  pub read_received : t.controller.base.bytes_read + t.given_up ≤ t.controller.base.highest_received
  pub received_allowed : t.controller.base.highest_received ≤ t.controller.base.receive_window
  pub sent_allowed : t.controller.base.bytes_sent ≤ t.controller.base.send_window
  pub none_given_up : (t.is_abandoned ≡ true) ⊎ (t.given_up ≡ 0)

-- A stream and the connection before and after: both counts move by the same amounts.
pub record Moves (t : Tracked) (c : BaseFlowController) (t' : Tracked) (c' : BaseFlowController)
    : Type 0 where
  pub received_moves :
      c'.highest_received + t.controller.base.highest_received
      ≡ c.highest_received + t'.controller.base.highest_received
  pub read_moves :
      c'.bytes_read + (t.controller.base.bytes_read + t.given_up)
      ≡ c.bytes_read + (t'.controller.base.bytes_read + t'.given_up)
  pub sent_moves :
      c'.bytes_sent + t.controller.base.bytes_sent ≡ c.bytes_sent + t'.controller.base.bytes_sent
  pub stream_fits : Fits t'
  pub connection_received :
      c.highest_received ≤ c.receive_window → c'.highest_received ≤ c'.receive_window
  pub connection_sent : c.bytes_sent ≤ c.send_window → c'.bytes_sent ≤ c'.send_window

-- What happens to a stream: data arrives, is read, is sent; a new limit arrives; a limit is announced; the stream is
-- abandoned.
pub data Event : Type 0 where
  received : ℕ → Bool → Event
  reads sends raises : ℕ → Event
  updates abandons : Event

-- Whether the callers let an event happen.
abbrev pub is_possible : Tracked → BaseFlowController → Event → Bool
is_possible t c (received offset final) = true
is_possible t c (reads n) =
    not t.is_abandoned && leb n (t.controller.base.highest_received - t.controller.base.bytes_read)
is_possible t c (sends n) = leb n (stream_send_window_size t.controller c)
is_possible t c (raises n) = true
is_possible t c updates = true
is_possible t c abandons = not t.is_abandoned

abbrev pub Outcome : Type 0
Outcome = Option FlowError × (Tracked × BaseFlowController)

abbrev pub with_controller :
    Tracked → StreamFlowController × BaseFlowController → Tracked × BaseFlowController
with_controller t r = (record t { controller = r.0 }, r.1)

module _ (share : ℕ → ℕ → ℕ → ℕ) (allow : ℕ → Bool) (now rtt : ℕ) where
  unfoldable pub happens : Tracked → BaseFlowController → Event → Outcome
  happens t c (received offset final) =
      let r = update_highest_received t.controller c offset final in (r.0, with_controller t r.1)
  happens t c (reads n) = (none, with_controller t (stream_add_bytes_read now t.controller c n).1)
  happens t c (sends n) = (none, with_controller t (stream_add_bytes_sent t.controller c n))
  happens t c (raises n) = (
    none,
    with_controller t
        (record t.controller { base = (update_send_window t.controller.base n).1 }, c),
  )
  happens t c updates =
      (none, with_controller t (stream_get_window_update share allow now rtt t.controller c).1)
  happens t c abandons = (
    none,
    (
      record t {
        given_up = t.controller.base.highest_received - t.controller.base.bytes_read;
        is_abandoned = true;
      },
      (abandon now t.controller c).1,
    ),
  )

  -- A possible event without an error.
  abbrev pub Passes : Tracked → BaseFlowController → Outcome → Type 0
  Passes t c r = r.0 ≡ none → Moves t c r.1.0 r.1.1

  received-Passes :
      (t : Tracked) (c : BaseFlowController) (offset : ℕ) (final : Bool)
      → Fits t
      → Passes t c (happens t c (received offset final))
  unfolding happens
  received-Passes t c offset final f e =
      let l = update_highest_received_lem t.controller c offset final in ground arith

  reads-Passes :
      (t : Tracked) (c : BaseFlowController) (n : ℕ)
      → Fits t
      → is_possible t c (reads n) ≡ true
      → Passes t c (happens t c (reads n))
  unfolding happens stream_add_bytes_read
  reads-Passes t c n f p e = ground arith

  sends-Passes :
      (t : Tracked) (c : BaseFlowController) (n : ℕ)
      → Fits t
      → is_possible t c (sends n) ≡ true
      → Passes t c (happens t c (sends n))
  unfolding happens stream_add_bytes_sent stream_send_window_size
  sends-Passes t c n f p e = ground arith

  raises-Passes :
      (t : Tracked) (c : BaseFlowController) (n : ℕ) → Fits t → Passes t c (happens t c (raises n))
  unfolding happens update_send_window
  raises-Passes t c n f e = ground arith

  updates-Passes :
      (t : Tracked) (c : BaseFlowController) → Fits t → Passes t c (happens t c updates)
  unfolding happens stream_get_window_update
  updates-Passes t c f e =
      let u = due_or_not share none now rtt t.controller.base in
      let m = ensure_minimum_window_size_same allow now c (
        multiplied
          (base_get_window_update share none now rtt t.controller.base).1.receive_window_size) in
      let l = threshold-le t.controller.base.receive_window_size in ground arith

  abandons-Passes :
      (t : Tracked) (c : BaseFlowController)
      → Fits t
      → is_possible t c abandons ≡ true
      → Passes t c (happens t c abandons)
  unfolding happens abandon
  abandons-Passes t c f p e = ground arith

  pub happens-Passes :
      (t : Tracked) (c : BaseFlowController) (x : Event)
      → Fits t
      → is_possible t c x ≡ true
      → Passes t c (happens t c x)
  happens-Passes t c (received offset final) f p = received-Passes t c offset final f
  happens-Passes t c (reads n) f p = reads-Passes t c n f p
  happens-Passes t c (sends n) f p = sends-Passes t c n f p
  happens-Passes t c (raises n) f p = raises-Passes t c n f
  happens-Passes t c updates f p = updates-Passes t c f
  happens-Passes t c abandons f p = abandons-Passes t c f p
