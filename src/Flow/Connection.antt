-- ===== src/Flow/Connection.antt =====
-- internal/flowcontrol/connection_flow_controller.go. The callback that allows an increase is never nil:
-- connection.go always passes one. An operation that queues a window update answers true.
use x_fec.Base.{
  ℕ, ◌+◌, ◌-◌, Bool, ltb, ◌&&◌, ◌||◌, if◌then◌else◌, Option, none, some, min, Result, ok, err,
}
use x_fec.Flow.{
  FlowError, flow_control_error, reset_after_reading, BaseFlowController, base_add_bytes_read,
  has_window_update, check_flow_control_violation, base_get_window_update,
  start_new_auto_tuning_epoch, is_set,
}

unfoldable pub new_connection_flow_controller : ℕ → ℕ → BaseFlowController
new_connection_flow_controller receive_window max_receive_window = record {
  bytes_sent = 0;
  send_window = 0;
  last_blocked_at = 0;
  bytes_read = 0;
  highest_received = 0;
  receive_window = receive_window;
  receive_window_size = receive_window;
  max_receive_window_size = max_receive_window;
  epoch_start_time = none;
  epoch_start_offset = 0;
}

-- The controller is changed where there is an error, too.
unfoldable pub increment_highest_received :
    BaseFlowController → ℕ → Option FlowError × BaseFlowController
unfolding check_flow_control_violation
increment_highest_received c increment =
    let c1 : BaseFlowController = record c { highest_received = c.highest_received + increment } in
    (if check_flow_control_violation c1 then some flow_control_error else none, c1)

unfoldable pub connection_add_bytes_read : ℕ → BaseFlowController → ℕ → Bool × BaseFlowController
unfolding base_add_bytes_read has_window_update
connection_add_bytes_read now c n =
    let c1 = base_add_bytes_read now c n in (has_window_update c1, c1)

unfoldable pub reset : BaseFlowController → Result FlowError BaseFlowController
reset c =
    if ltb 0 c.bytes_read || ltb 0 c.highest_received || is_set c.epoch_start_time
    then err reset_after_reading
    else ok (record c { bytes_sent = 0; last_blocked_at = 0 })

module _ (share : ℕ → ℕ → ℕ → ℕ) (allow : ℕ → Bool) where
  unfoldable pub connection_get_window_update : ℕ → ℕ → BaseFlowController → ℕ × BaseFlowController
  connection_get_window_update now rtt c = base_get_window_update share (some allow) now rtt c

unfoldable pub ensure_minimum_window_size :
    (ℕ → Bool) → ℕ → BaseFlowController → ℕ → BaseFlowController
unfolding start_new_auto_tuning_epoch
ensure_minimum_window_size allow now c inc =
    let new_size = min inc c.max_receive_window_size in
    let delta = new_size - c.receive_window_size in
    if ltb c.receive_window_size inc
    then start_new_auto_tuning_epoch now
        (if ltb 0 delta && allow delta then record c { receive_window_size = new_size } else c)
    else c
