-- ===== src/Flow/Window.antt =====
-- internal/flowcontrol/base_flow_controller.go: the windows that the receiving side grants.
use x_fec.Base.{
  ℕ, ◌+◌, ◌*◌, ◌/◌, ◌^◌, ◌<◌, ◌≤◌, ◌≡◌, Bool, Option, arith, inl, inr, ◌⊎◌, max, Bool-cases,
}
use x_fec.Flow.{
  BaseFlowController, threshold, has_window_update, increase_window_size, maybe_adjust_window_size,
  base_get_window_update, start_new_auto_tuning_epoch,
}
use x_fec.Flow.Rounding.{threshold_exact}
use x_fec.Flow.Connection.{ensure_minimum_window_size}

-- A controller with another window size and another epoch.
pub record Resized (c c' : BaseFlowController) : Type 0 where
  pub same_read : c'.bytes_read ≡ c.bytes_read
  pub same_window : c'.receive_window ≡ c.receive_window
  pub same_highest : c'.highest_received ≡ c.highest_received
  pub same_sending : (c'.bytes_sent ≡ c.bytes_sent) × (c'.send_window ≡ c.send_window)
  pub grows : c.receive_window_size ≤ c'.receive_window_size
  pub doubled : c'.receive_window_size ≤ 2 * c.receive_window_size
  pub capped : c'.receive_window_size ≤ max c.receive_window_size c.max_receive_window_size

-- No update is due, and nothing changes; or the new window is a whole window size behind what was read.
pub record NoUpdate (c : BaseFlowController) (r : ℕ × BaseFlowController) : Type 0 where
  pub no_offset : r.0 ≡ 0
  pub unchanged : r.1 ≡ c
  pub much_left : c.bytes_read + threshold c.receive_window_size < c.receive_window

pub record Update (c : BaseFlowController) (r : ℕ × BaseFlowController) : Type 0 where
  pub little_left : c.receive_window ≤ c.bytes_read + threshold c.receive_window_size
  pub announced : r.0 ≡ r.1.receive_window
  pub full_window : r.1.receive_window ≡ c.bytes_read + r.1.receive_window_size
  pub larger : c.receive_window_size ≤ r.1.receive_window_size
  pub at_most_doubled : r.1.receive_window_size ≤ 2 * c.receive_window_size
  pub capped_size : r.1.receive_window_size ≤ max c.receive_window_size c.max_receive_window_size
  pub same_sent : (r.1.bytes_sent ≡ c.bytes_sent) × (r.1.send_window ≡ c.send_window)
  pub same_received : (r.1.bytes_read ≡ c.bytes_read) × (r.1.highest_received ≡ c.highest_received)

-- More than three quarters of the window size are left, or at most as many.
pub record MuchLeft (c : BaseFlowController) (r : ℕ × BaseFlowController) : Type 0 where
  pub no_update : NoUpdate c r
  pub consumed_less : c.bytes_read + c.receive_window_size * 3 / 4 < c.receive_window

pub record LittleLeft (c : BaseFlowController) (r : ℕ × BaseFlowController) : Type 0 where
  pub update : Update c r
  pub consumed : c.receive_window ≤ c.bytes_read + c.receive_window_size * 3 / 4
  pub more_credit : c.receive_window + c.receive_window_size / 4 ≤ r.1.receive_window

module _ (share : ℕ → ℕ → ℕ → ℕ) (allow : Option (ℕ → Bool)) where
  increased : (c : BaseFlowController) → Resized c (increase_window_size share allow c)
  unfolding increase_window_size
  increased c = ground arith

  adjusted :
      (now rtt : ℕ) (c : BaseFlowController)
      → Resized c (maybe_adjust_window_size share allow now rtt c)
  unfolding maybe_adjust_window_size start_new_auto_tuning_epoch
  adjusted now rtt c = let i = increased c in ground arith

  -- The two outcomes, for sizes of any number of bits.
  pub due_or_not :
      (now rtt : ℕ) (c : BaseFlowController)
      → NoUpdate c (base_get_window_update share allow now rtt c)
        ⊎ Update c (base_get_window_update share allow now rtt c)
  unfolding base_get_window_update has_window_update
  due_or_not now rtt c =
      let a = adjusted now rtt c in
      elim (Bool-cases (has_window_update c)) [
        | inl e ↦ inr (ground arith)
        | inr e ↦ inl (ground arith)
      ]

  -- For a window size below 2^51, whatever the clock, the RTT and the callback say: an update is given exactly
  -- when at most three quarters of the window size are left, also when they are exactly left; it then
  -- leaves a whole window size to the sender, moves the limit up by at least a quarter of the old size, and the size
  -- neither shrinks, nor more than doubles, nor passes the maximum by its growth. Without an update nothing
  -- changes.
  pub base_get_window_update_lem :
      (now rtt : ℕ) (c : BaseFlowController)
      → c.receive_window_size < 2 ^ 51
      → MuchLeft c (base_get_window_update share allow now rtt c)
        ⊎ LittleLeft c (base_get_window_update share allow now rtt c)
  base_get_window_update_lem now rtt c h =
      let t = threshold_exact c.receive_window_size h in
      elim (due_or_not now rtt c) [
        | inl n ↦ inl (record { no_update = n; consumed_less = omega (arith, t, n.much_left) })
        | inr u ↦ inr (record {
          update = u;
          consumed = omega (arith, t, u.little_left);
          more_credit = omega (arith, t, u.little_left, u.full_window, u.larger);
        })
      ]

-- A larger connection window size leaves the windows and the counts alone.
pub ensure_minimum_window_size_same :
    (allow : ℕ → Bool) (now : ℕ) (c : BaseFlowController) (inc : ℕ)
    → (c.bytes_read ≡ (ensure_minimum_window_size allow now c inc).bytes_read)
      × (c.receive_window ≡ (ensure_minimum_window_size allow now c inc).receive_window)
      × (c.highest_received ≡ (ensure_minimum_window_size allow now c inc).highest_received)
      × (c.bytes_sent ≡ (ensure_minimum_window_size allow now c inc).bytes_sent)
      × (c.send_window ≡ (ensure_minimum_window_size allow now c inc).send_window)
unfolding ensure_minimum_window_size start_new_auto_tuning_epoch
ensure_minimum_window_size_same allow now c inc =
    (ground arith, ground arith, ground arith, ground arith, ground arith)
