-- ===== src/Flow/Tests.antt =====
-- internal/flowcontrol: runs at concrete inputs.
use x_fec.Base.{
  ◌+◌, ◌^◌, ℕ, ◌*◌, ◌/◌, ◌≡◌, refl, List, [], ◌∷◌, true, false, none, some, arith, ◌⊎◌,
}
use x_fec.Flow.{BaseFlowController, base_get_window_update, flow_control_error, final_size_error}
use x_fec.Flow.Connection.{new_connection_flow_controller}
use x_fec.Flow.Stream.{StreamFlowController, new_stream_flow_controller, update_highest_received}
use x_fec.Flow.Send.{SendOp, asks, reports, Ascends, reports-Ascends}
use x_fec.Flow.Window.{MuchLeft, LittleLeft, base_get_window_update_lem}
use x_fec.Flow.Receive.{
  Conflicts, Consistent, Exceeds, Allowed, Accepted, update_highest_received_lem,
}
use x_fec.Flow.Moves.{Event, received, reads, updates, abandons}
use x_fec.Flow.Shared.{
  Happening, on, raises_connection, updates_connection, opens, run, new_shared, Holds, run-Balanced,
}

abbrev connection : BaseFlowController
connection = record {
  bytes_sent = 0;
  send_window = 0;
  last_blocked_at = 0;
  bytes_read = 900;
  highest_received = 950;
  receive_window = 1000;
  receive_window_size = 1000;
  max_receive_window_size = 1500;
  epoch_start_time = some 5;
  epoch_start_offset = 0;
}

abbrev share : ℕ → ℕ → ℕ → ℕ
share bytes size rtt = 4 * bytes * rtt / size

abbrev send_ops : List SendOp
send_ops =
    SendOp.raises 10 ∷ SendOp.sends 10 ∷ asks ∷ asks ∷ SendOp.raises 12 ∷ SendOp.sends 2 ∷ asks ∷ []

reports_run : reports connection send_ops ≡ 10 ∷ 12 ∷ []
unfolding reports x_fec.Flow.base_add_bytes_sent x_fec.Flow.update_send_window
    x_fec.Flow.is_newly_blocked x_fec.Flow.send_window_size
reports_run = refl

reports-Ascends_example : Ascends 0 (reports connection send_ops)
reports-Ascends_example = reports-Ascends connection send_ops (omega arith)

base_get_window_update_lem_example :
    MuchLeft connection (base_get_window_update share none 20 8 connection)
    ⊎ LittleLeft connection (base_get_window_update share none 20 8 connection)
base_get_window_update_lem_example =
    base_get_window_update_lem share none 20 8 connection (omega arith)

-- The window size grows to its maximum.
base_get_window_update_run : (base_get_window_update share none 20 8 connection).0 ≡ 2400
unfolding base_get_window_update x_fec.Flow.has_window_update x_fec.Flow.threshold
    x_fec.Flow.to_float x_fec.Flow.maybe_adjust_window_size x_fec.Flow.increase_window_size
    x_fec.Flow.start_new_auto_tuning_epoch
base_get_window_update_run = refl

abbrev stream : StreamFlowController
stream = new_stream_flow_controller 4 300 600 100

update_highest_received_lem_example :
    (let r = update_highest_received stream connection 60 true in
      (Conflicts stream 60 true
        × (r.0 ≡ some final_size_error)
        × (r.1.0.base ≡ stream.base)
        × (r.1.1 ≡ connection))
      ⊎ ((Consistent stream 60 true
            × Exceeds stream connection 60
            × (r.0 ≡ some flow_control_error))
          ⊎ (Consistent stream 60 true
              × Allowed stream connection 60
              × (r.0 ≡ none)
              × Accepted stream connection 60 true r.1.0 r.1.1)))
update_highest_received_lem_example = update_highest_received_lem stream connection 60 true

-- 60 bytes are more than the 50 that are left for the connection.
update_highest_received_run :
    (update_highest_received stream connection 60 true).0 ≡ some flow_control_error
unfolding update_highest_received x_fec.Flow.Stream.advance
    x_fec.Flow.Connection.increment_highest_received x_fec.Flow.check_flow_control_violation
    new_stream_flow_controller
update_highest_received_run = refl

abbrev happenings : List (ℕ × ℕ × Happening)
happenings =
    (1, 8, opens 0 300 600 100)
    ∷ (1, 8, opens 4 300 600 100)
    ∷ (2, 8, raises_connection 150)
    ∷ (3, 8, on 0 (received 200 false))
    ∷ (4, 8, on 1 (received 250 true))
    ∷ (5, 8, on 0 (reads 180))
    ∷ (6, 8, on 0 updates)
    ∷ (7, 8, on 0 (Event.sends 90))
    ∷ (7, 8, on 1 (Event.sends 90))
    ∷ (8, 8, updates_connection)
    ∷ (9, 8, on 1 abandons)
    ∷ (9, 8, on 1 (reads 1))
    ∷ []

run-Balanced_example :
    Holds (run share (λ delta. true) happenings (new_shared share (λ delta. true) 500 700))
run-Balanced_example = run-Balanced share (λ delta. true) 500 700 happenings

-- The connection counts what the second stream gives up as read.
run_read :
    elim (run share (λ delta. true) happenings (new_shared share (λ delta. true) 500 700))
      as (λ o. ℕ) [ none ↦ 0 | some t ↦ t.connection.bytes_read ]
    ≡ 430
unfolding run x_fec.Flow.Shared.step x_fec.Flow.Moves.happens x_fec.Flow.Stream.abandon
    x_fec.Flow.Stream.stream_add_bytes_read x_fec.Flow.Stream.stream_add_bytes_sent
    x_fec.Flow.Stream.stream_send_window_size x_fec.Flow.Stream.stream_get_window_update
    x_fec.Flow.Stream.multiplied x_fec.Flow.Connection.connection_get_window_update
    update_highest_received x_fec.Flow.Stream.advance new_stream_flow_controller
    x_fec.Flow.update_send_window new_connection_flow_controller
    x_fec.Flow.Connection.increment_highest_received x_fec.Flow.check_flow_control_violation
    base_get_window_update x_fec.Flow.has_window_update x_fec.Flow.threshold x_fec.Flow.to_float
    x_fec.Flow.maybe_adjust_window_size x_fec.Flow.increase_window_size
    x_fec.Flow.start_new_auto_tuning_epoch
run_read = refl

-- Half a unit is rounded to the even number.
to_float_run : x_fec.Flow.to_float (2 ^ 53 + 1) ≡ 2 ^ 53
unfolding x_fec.Flow.to_float x_fec.Flow.round_from x_fec.Flow.round_to
to_float_run = refl

to_float_run_up : x_fec.Flow.to_float (2 ^ 53 + 3) ≡ 2 ^ 53 + 4
unfolding x_fec.Flow.to_float x_fec.Flow.round_from x_fec.Flow.round_to
to_float_run_up = refl
