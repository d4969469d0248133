-- ===== src/Fec/Errors.antt =====
-- The errors of internal/fec, and the panics that its code can meet.
use x_fec.Base.{ℕ}
use x_fec.Base.Int.{ℤ}

pub data Error : Type 0 where
  wrong_block : Error
  not_complete : Error
  xor_parity_count : ℕ → Error
  payload_too_big : Error
  not_recoverable : Error
  still_incomplete : Error
  missing_symbol : Error
  small_capacity : Error
  encoder_failed : Error
  unknown_scheme : ℕ → Error
  negative_counts : ℤ → ℤ → Error
  -- Panics: an index or a slice bound out of range, a nil block, a division by zero.
  out_of_range nil_block division_by_zero : Error
  -- A loop that does not end.
  endless : Error
