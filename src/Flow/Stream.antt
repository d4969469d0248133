-- ===== src/Flow/Stream.antt =====
-- internal/flowcontrol/stream_flow_controller.go. The connection's controller, which the streams
-- share, is passed in and out.
use x_fec.Base.{
  ℕ, ◌-◌, ◌*◌, ◌/◌, Bool, true, false, ltb, leb, ◌==◌, ◌&&◌, not, if◌then◌else◌, Option, none, some,
  min,
}
use x_fec.Flow.{
  FlowError, flow_control_error, final_size_error, BaseFlowController, base_add_bytes_read,
  has_window_update, check_flow_control_violation, base_get_window_update, send_window_size,
  base_add_bytes_sent, to_float,
}
use x_fec.Flow.Connection.{
  increment_highest_received, connection_add_bytes_read, ensure_minimum_window_size,
}

pub record StreamFlowController : Type 0 where
  pub base : BaseFlowController
  pub stream_id : ℕ
  pub received_final_offset : Bool

unfoldable pub new_stream_flow_controller : ℕ → ℕ → ℕ → ℕ → StreamFlowController
new_stream_flow_controller stream_id receive_window max_receive_window initial_send_window =
    record {
      base = record {
        bytes_sent = 0;
        send_window = initial_send_window;
        last_blocked_at = 0;
        bytes_read = 0;
        highest_received = 0;
        receive_window = receive_window;
        receive_window_size = receive_window;
        max_receive_window_size = max_receive_window;
        epoch_start_time = none;
        epoch_start_offset = 0;
      };
      stream_id = stream_id;
      received_final_offset = false;
    }

-- A stream and the connection, with the answer of an operation.
abbrev pub Both : Type 0 → Type 0
Both A = A × (StreamFlowController × BaseFlowController)

-- The offset is higher than any before.
unfoldable pub advance : StreamFlowController → BaseFlowController → ℕ → Both (Option FlowError)
unfolding check_flow_control_violation increment_highest_received
advance s c offset =
    let b : BaseFlowController = s.base in
    let b1 : BaseFlowController = record b { highest_received = offset } in
    let s1 : StreamFlowController = record s { base = b1 } in
    if check_flow_control_violation b1
    then (some flow_control_error, (s1, c))
    else let r = increment_highest_received c (offset - b.highest_received) in (r.0, (s1, r.1))

unfoldable pub update_highest_received :
    StreamFlowController → BaseFlowController → ℕ → Bool → Both (Option FlowError)
unfolding advance
update_highest_received s c offset final =
    let highest = s.base.highest_received in
    let s1 : StreamFlowController =
      if final then record s { received_final_offset = true } else s in
    if s.received_final_offset && final && not (offset == highest)
    then (some final_size_error, (s, c))
    else if s.received_final_offset && ltb highest offset
    then (some final_size_error, (s, c))
    else if offset == highest
    then (none, (s1, c))
    else if leb offset highest
    then (if final then some final_size_error else none, (s1, c))
    else advance s1 c offset

unfoldable pub should_queue_window_update : StreamFlowController → Bool
unfolding has_window_update
should_queue_window_update s = not s.received_final_offset && has_window_update s.base

-- What is queued for the stream, and for the connection.
unfoldable pub stream_add_bytes_read :
    ℕ → StreamFlowController → BaseFlowController → ℕ → Both (Bool × Bool)
unfolding base_add_bytes_read should_queue_window_update connection_add_bytes_read
stream_add_bytes_read now s c n =
    let s1 : StreamFlowController = record s { base = base_add_bytes_read now s.base n } in
    let r = connection_add_bytes_read now c n in ((should_queue_window_update s1, r.0), (s1, r.1))

unfoldable pub abandon : ℕ → StreamFlowController → BaseFlowController → Bool × BaseFlowController
unfolding connection_add_bytes_read
abandon now s c =
    let unread = s.base.highest_received - s.base.bytes_read in
    if ltb 0 unread then connection_add_bytes_read now c unread else (false, c)

unfoldable pub stream_add_bytes_sent :
    StreamFlowController → BaseFlowController → ℕ → StreamFlowController × BaseFlowController
unfolding base_add_bytes_sent
stream_add_bytes_sent s c n =
    (record s { base = base_add_bytes_sent s.base n }, base_add_bytes_sent c n)

unfoldable pub stream_send_window_size : StreamFlowController → BaseFlowController → ℕ
unfolding send_window_size
stream_send_window_size s c = min (send_window_size s.base) (send_window_size c)

-- `float64(size) * 1.5` as a whole number.
unfoldable pub multiplied : ℕ → ℕ
multiplied size = to_float (to_float size * 3) / 2

module _ (share : ℕ → ℕ → ℕ → ℕ) (allow : ℕ → Bool) where
  unfoldable pub stream_get_window_update :
      ℕ → ℕ → StreamFlowController → BaseFlowController → Both ℕ
  unfolding ensure_minimum_window_size
  stream_get_window_update now rtt s c =
      let r = base_get_window_update share none now rtt s.base in
      let s1 : StreamFlowController = record s { base = r.1 } in
      if s.received_final_offset then (0, (s, c)) else (
        r.0,
        (
          s1,
          if ltb s.base.receive_window_size s1.base.receive_window_size
              then ensure_minimum_window_size allow now c (multiplied s1.base.receive_window_size)
              else c,
        ),
      )
