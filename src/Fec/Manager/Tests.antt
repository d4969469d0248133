-- ===== src/Fec/Manager/Tests.antt =====
-- Runs of the manager, and the theorems at concrete inputs.
use x_fec.Base.{[], ◌∷◌, true, ok, ◌≡◌, refl, arith, some, none, inl}
use x_fec.Wire.Symbols.{SourceSymbolFrame, RepairFrame}
use x_fec.Fec.Block.{Block, is_recoverable}
use x_fec.Fec.Manager.{
  Manager, put_status, entry, collecting, processed, xor_scheme, sid_to_block_id,
  add_source_symbol_frame, handle_repair_frame, handle_source_symbol_frame, new_endpoint,
}
use x_fec.Fec.Manager.Laws.{IsWellFormed, operations-IsWellFormed}
use x_fec.Fec.Manager.Once.{run, receives, repairs, recovers, Ignores, results_once}
use x_fec.Fec.Manager.XorPair.{IsFresh}
use x_fec.Fec.Manager.EndToEnd.{xor_pair_recovers}
use x_fec.Fec.Manager.RepairFirst.{repair_first_waits}

abbrev idle : Manager
idle = record {
  scheme = xor_scheme;
  next_sid = 0;
  num_tot_source_symbols = 2;
  num_tot_repair_symbols = 1;
  block_statuses = [];
}

abbrev long_symbol : SourceSymbolFrame
long_symbol = record { ssid = 6; payload = record { bytes = 1 ∷ 2 ∷ 3 ∷ []; spare = [] } }

abbrev short_symbol : SourceSymbolFrame
short_symbol = record { ssid = 7; payload = record { bytes = 250 ∷ []; spare = [] } }

abbrev repair_symbol : RepairFrame
repair_symbol = record {
  metadata = record { block_id = 3; parity_id = 0 };
  payload = 251 ∷ 2 ∷ 3 ∷ 0 ∷ 2 ∷ [];
}

new_endpoint_1 : new_endpoint (λ n m. none) 1 ≡ ok (some idle)
unfolding new_endpoint
new_endpoint_1 = refl

idle-IsFresh : IsFresh idle 3
idle-IsFresh = record { two = refl; one = refl; small = omega arith; unseen = refl }

xor_pair_recovers_example :
    (repair : RepairFrame) × ((add_source_symbol_frame
        (add_source_symbol_frame idle long_symbol).0
        short_symbol).1
      ≡ ok (repair ∷ []))
    × ((handle_source_symbol_frame idle long_symbol).1 ≡ ok (1 ∷ 2 ∷ 3 ∷ []))
    × ((handle_repair_frame (handle_source_symbol_frame idle long_symbol).0 repair).1
        ≡ ok (250 ∷ []))
xor_pair_recovers_example =
    xor_pair_recovers idle idle 3 long_symbol short_symbol long_symbol short_symbol idle-IsFresh
      refl idle-IsFresh refl (inl (refl, refl)) (inl (refl, refl)) (omega arith) (omega arith)

repair_first_waits_example :
    (b : Block) × ((handle_source_symbol_frame
        (handle_repair_frame idle repair_symbol).0
        long_symbol).1
      ≡ ok (1 ∷ 2 ∷ 3 ∷ []))
    × (entry (handle_source_symbol_frame (handle_repair_frame idle repair_symbol).0 long_symbol).0 3
        ≡ collecting b)
    × (is_recoverable b ≡ true)
repair_first_waits_example =
    repair_first_waits idle 3 long_symbol repair_symbol idle-IsFresh refl (omega arith)
      (omega arith)

idle-IsWellFormed : IsWellFormed idle
idle-IsWellFormed id h = absurd (ground arith)

operations-IsWellFormed_example :
    IsWellFormed (add_source_symbol_frame idle long_symbol).0
    × IsWellFormed (handle_repair_frame idle repair_symbol).0
    × IsWellFormed (handle_source_symbol_frame idle long_symbol).0
operations-IsWellFormed_example =
    operations-IsWellFormed idle long_symbol repair_symbol idle-IsWellFormed

abbrev half_there : Manager
half_there = (handle_source_symbol_frame idle long_symbol).0

short_symbol_recovered : (handle_repair_frame half_there repair_symbol).1 ≡ ok (250 ∷ [])
unfolding handle_source_symbol_frame handle_repair_frame x_fec.Fec.Manager.on_entry entry
    x_fec.Fec.Manager.with_block sid_to_block_id x_fec.Fec.Manager.receive_source
    x_fec.Fec.Block.add_source_symbol x_fec.Fec.Block.new_block x_fec.Fec.Block.is_complete
    x_fec.Fec.Manager.repair_block x_fec.Fec.Block.add_repair_symbol is_recoverable
    x_fec.Fec.Xor.recover_symbol_payloads x_fec.Fec.Xor.recovered x_fec.Fec.Xor.recovered_symbol
    x_fec.Fec.Xor.xor_repairs x_fec.Fec.Xor.xor_repair x_fec.Fec.Xor.xor_sources x_fec.Fec.Xor.fill
    x_fec.Fec.Xor.finish x_fec.Fec.Xor.index x_fec.Fec.Xor.recovered_payload x_fec.Fec.Xor.slice_to
    x_fec.Fec.Xor.xor x_fec.Fec.Xor.xor_at
short_symbol_recovered = refl

results_once_example :
    Ignores
      (run
        (receives short_symbol ∷ repairs repair_symbol ∷ [])
        (handle_repair_frame half_there repair_symbol).0)
      3
results_once_example =
    results_once half_there 3 (repairs repair_symbol)
      (receives short_symbol ∷ repairs repair_symbol ∷ [])
      (recovers repair_symbol 250 [] refl short_symbol_recovered)
