-- ===== src/Fec/Scheme.antt =====
-- internal/fec/scheme.go: what the manager asks of a scheme.
use x_fec.Base.{ℕ, List, Result}
use x_fec.Wire.Symbols.{RepairFrame}
use x_fec.Fec.Errors.{Error}
use x_fec.Fec.Block.{Block}

-- Both methods get a pointer to the block and may write to it.
pub record BlockFecScheme : Type 0 where
  pub repair_symbols : Block → Block × Result Error (List RepairFrame)
  pub recover_symbol_payloads : Block → Block × Result Error (List ℕ)
