-- ===== src/ConnId/Manager/Tests.antt =====
-- conn_id_manager.go: runs at concrete inputs.
use x_fec.Base.{ℕ, List, [], ◌∷◌, arith}
use x_fec.Wire.Connection.{NewConnectionIdFrame}
use x_fec.ConnId.Manager.{new_conn_id_manager}
use x_fec.ConnId.Manager.Safety.{
  Event, arrives, asks, sends, completes, run, Keeps, IsValid, run-Keeps,
}

abbrev frame : ℕ → ℕ → NewConnectionIdFrame
frame seq prior = record {
  sequence_number = seq;
  retire_prior_to = prior;
  connection_id = 7 ∷ seq ∷ [];
  stateless_reset_token = 9 ∷ seq ∷ [];
}

-- The second frame overtakes the first, and the third retires what is in use.
abbrev events : List Event
events =
    arrives 0 (frame 2 0) (omega arith)
    ∷ arrives 0 (frame 1 0) (omega arith)
    ∷ completes
    ∷ asks 12
    ∷ sends
    ∷ arrives 40 (frame 3 2) (omega arith)
    ∷ asks 5
    ∷ []

run-Keeps_example : Keeps IsValid (run events (new_conn_id_manager (1 ∷ 2 ∷ [])))
run-Keeps_example = run-Keeps (1 ∷ 2 ∷ []) events
