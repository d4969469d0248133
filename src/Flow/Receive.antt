-- ===== src/Flow/Receive.antt =====
-- internal/flowcontrol/stream_flow_controller.go: the answer to a frame that carries data or a final size.
use x_fec.Base.{ℕ, ◌+◌, ◌-◌, ◌<◌, ◌≤◌, ◌≡◌, Bool, true, ◌||◌, none, some, arith, ◌⊎◌, max}
use x_fec.Flow.{flow_control_error, final_size_error, BaseFlowController}
use x_fec.Flow.Connection.{increment_highest_received}
use x_fec.Flow.Stream.{StreamFlowController, advance, update_highest_received}

-- A final size below what arrived, or data behind a known final size.
abbrev pub Conflicts : StreamFlowController → ℕ → Bool → Type 0
Conflicts s offset final =
    ((final ≡ true) × (offset < s.base.highest_received))
    ⊎ ((s.received_final_offset ≡ true) × (s.base.highest_received < offset))

abbrev pub Consistent : StreamFlowController → ℕ → Bool → Type 0
Consistent s offset final =
    (final ≡ true → s.base.highest_received ≤ offset)
    × (s.received_final_offset ≡ true → offset ≤ s.base.highest_received)

-- How many bytes an offset adds to what was received.
abbrev pub increment : StreamFlowController → ℕ → ℕ
increment s offset = offset - s.base.highest_received

abbrev pub Exceeds : StreamFlowController → BaseFlowController → ℕ → Type 0
Exceeds s c offset =
    (s.base.highest_received < offset)
    × ((s.base.receive_window < offset)
        ⊎ (c.receive_window < c.highest_received + increment s offset))

abbrev pub Allowed : StreamFlowController → BaseFlowController → ℕ → Type 0
Allowed s c offset =
    (offset ≤ s.base.highest_received)
    ⊎ ((offset ≤ s.base.receive_window)
        × (c.highest_received + increment s offset ≤ c.receive_window))

-- The state after data that was accepted.
pub record Accepted (s : StreamFlowController) (c : BaseFlowController) (offset : ℕ) (final : Bool)
    (s' : StreamFlowController) (c' : BaseFlowController) : Type 0 where
  pub stream_highest :
      s'.base ≡ record s.base { highest_received = max s.base.highest_received offset }
  pub connection_highest :
      c' ≡ record c { highest_received = c.highest_received + increment s offset }
  pub final_known : s'.received_final_offset ≡ (s.received_final_offset || final)
  pub same_id : s'.stream_id ≡ s.stream_id

-- A frame is a final size error exactly when its offset conflicts with a final size, the frame's own or
-- one known before, and then leaves both controllers' counts alone; otherwise it is a flow control
-- error exactly when the data it adds exceeds the stream's or the connection's window; otherwise
-- the stream's highest offset is the larger one, the connection's total grows by the difference, and a
-- final size is known from then on; nothing else changes.
pub update_highest_received_lem :
    (s : StreamFlowController) (c : BaseFlowController) (offset : ℕ) (final : Bool)
    → (let r = update_highest_received s c offset final in
        (Conflicts s offset final
          × (r.0 ≡ some final_size_error)
          × (r.1.0.base ≡ s.base)
          × (r.1.1 ≡ c))
        ⊎ ((Consistent s offset final × Exceeds s c offset × (r.0 ≡ some flow_control_error))
            ⊎ (Consistent s offset final
                × Allowed s c offset
                × (r.0 ≡ none)
                × Accepted s c offset final r.1.0 r.1.1)))
unfolding update_highest_received advance increment_highest_received
update_highest_received_lem s c offset final = ground arith
