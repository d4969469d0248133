-- ===== src/Flow.antt =====
-- internal/flowcontrol/base_flow_controller.go. A `ByteCount` is a natural number: where the source
-- subtracts, a negative difference and 0 take the same branch. `time.Now()` and the smoothed RTT are
-- arguments, in nanoseconds; the `float64` product of the auto-tuning is the parameter `share`. The
-- products of a size by 0.75 and by 1.5 are rounded the way float64 does it, for sizes below 2^63.
pub mod Connection
pub mod Rounding
pub mod Stream
pub mod Send
pub mod Window
pub mod Receive
pub mod Moves
pub mod Shared
pub mod Tests
use x_fec.Base.{
  ℕ, zero, suc, ◌+◌, ◌-◌, ◌*◌, ◌/◌, ◌%◌, ◌^◌, Bool, true, false, ltb, leb, ◌==◌, ◌&&◌, ◌||◌, not,
  if◌then◌else◌, Option, none, some, min,
}

pub data FlowError : Type 0 where
  flow_control_error final_size_error reset_after_reading : FlowError

-- The zero time is `none`.
pub record BaseFlowController : Type 0 where
  pub bytes_sent : ℕ
  pub send_window : ℕ
  pub last_blocked_at : ℕ
  pub bytes_read : ℕ
  pub highest_received : ℕ
  pub receive_window : ℕ
  pub receive_window_size : ℕ
  pub max_receive_window_size : ℕ
  pub epoch_start_time : Option ℕ
  pub epoch_start_offset : ℕ

unfoldable pub send_window_size : BaseFlowController → ℕ
send_window_size c = if ltb c.send_window c.bytes_sent then 0 else c.send_window - c.bytes_sent

-- The offset is `none` where the source answers false.
unfoldable pub is_newly_blocked : BaseFlowController → Option ℕ × BaseFlowController
unfolding send_window_size
is_newly_blocked c =
    if not (send_window_size c == 0) || c.send_window == c.last_blocked_at
    then (none, c)
    else (some c.send_window, record c { last_blocked_at = c.send_window })

unfoldable pub base_add_bytes_sent : BaseFlowController → ℕ → BaseFlowController
base_add_bytes_sent c n = record c { bytes_sent = c.bytes_sent + n }

unfoldable pub update_send_window : BaseFlowController → ℕ → Bool × BaseFlowController
update_send_window c offset =
    if ltb c.send_window offset then (true, record c { send_window = offset }) else (false, c)

unfoldable pub start_new_auto_tuning_epoch : ℕ → BaseFlowController → BaseFlowController
start_new_auto_tuning_epoch now c = record c {
  epoch_start_time = some now;
  epoch_start_offset = c.bytes_read;
}

unfoldable pub base_add_bytes_read : ℕ → BaseFlowController → ℕ → BaseFlowController
unfolding start_new_auto_tuning_epoch
base_add_bytes_read now c n =
    let c1 : BaseFlowController =
      if c.bytes_read == 0 then start_new_auto_tuning_epoch now c else c in
    record c1 { bytes_read = c1.bytes_read + n }

-- The nearest multiple of a unit, of two the even one.
unfoldable pub round_to : ℕ → ℕ → ℕ
round_to unit n =
    let low = n / unit in
    let rest = 2 * (n % unit) in
    if ltb rest unit || (rest == unit && low % 2 == 0) then low * unit else (low + 1) * unit

-- `float64(n)` keeps 53 bits. The unit is doubled until they are enough, which 12 rounds do for
-- three times a number below 2^63.
unfoldable pub round_from : ℕ → ℕ → ℕ → ℕ
round_from zero unit n = n
round_from (suc k) unit n =
    let further = round_from k (2 * unit) n in
    if ltb n (2 ^ 53 * unit) then round_to unit n else further

unfoldable pub to_float : ℕ → ℕ
to_float n = if ltb n (2 ^ 53) then n else round_from 12 2 n

-- `float64(size) * 0.75` as a whole number: to divide by a power of two does not round.
unfoldable pub threshold : ℕ → ℕ
threshold size = to_float (to_float size * 3) / 4

unfoldable pub has_window_update : BaseFlowController → Bool
has_window_update c = leb (c.receive_window - c.bytes_read) (threshold c.receive_window_size)

unfoldable pub check_flow_control_violation : BaseFlowController → Bool
check_flow_control_violation c = ltb c.receive_window c.highest_received

-- A nil callback allows every increase.
abbrev pub allows : Option (ℕ → Bool) → ℕ → Bool
allows none delta = true
allows (some f) delta = f delta

abbrev pub is_set : Option ℕ → Bool
is_set none = false
is_set (some t) = true

-- `now.Sub` of the zero time is the longest duration.
abbrev pub is_before : Option ℕ → ℕ → ℕ → Bool
is_before none now duration = false
is_before (some start) now duration = ltb (now - start) duration

module _ (share : ℕ → ℕ → ℕ → ℕ) where
  unfoldable pub increase_window_size : Option (ℕ → Bool) → BaseFlowController → BaseFlowController
  increase_window_size allow c =
      let new_size = min (2 * c.receive_window_size) c.max_receive_window_size in
      if ltb c.receive_window_size new_size && allows allow (new_size - c.receive_window_size)
      then record c { receive_window_size = new_size }
      else c

  unfoldable pub maybe_adjust_window_size :
      Option (ℕ → Bool) → ℕ → ℕ → BaseFlowController → BaseFlowController
  unfolding increase_window_size start_new_auto_tuning_epoch
  maybe_adjust_window_size allow now rtt c =
      let bytes_read_in_epoch = c.bytes_read - c.epoch_start_offset in
      if leb bytes_read_in_epoch (c.receive_window_size / 2) || rtt == 0
      then c
      else start_new_auto_tuning_epoch now (
          if is_before c.epoch_start_time now (share bytes_read_in_epoch c.receive_window_size rtt)
          then increase_window_size allow c
          else c)

  unfoldable pub base_get_window_update :
      Option (ℕ → Bool) → ℕ → ℕ → BaseFlowController → ℕ × BaseFlowController
  unfolding has_window_update maybe_adjust_window_size
  base_get_window_update allow now rtt c =
      if not (has_window_update c)
      then (0, c)
      else let c1 = maybe_adjust_window_size allow now rtt c in
        let window = c1.bytes_read + c1.receive_window_size in
        (window, record c1 { receive_window = window })
