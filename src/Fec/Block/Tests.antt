-- ===== src/Fec/Block/Tests.antt =====
-- The theorems about blocks at concrete inputs.
use x_fec.Base.{[], ◌∷◌, true, ok, ◌≡◌, refl, arith, ◌↔◌}
use x_fec.Base.Int.{pos}
use x_fec.Wire.Symbols.{SourceSymbolFrame}
use x_fec.Fec.Block.{Block, add_source_symbol, is_complete}
use x_fec.Fec.Block.Laws.{
  IsValid, add_source_symbol-IsValid, is_complete-HasAll, HasAll, grown, Stored,
}

abbrev symbol_6 : SourceSymbolFrame
symbol_6 = record { ssid = 6; payload = record { bytes = 1 ∷ 2 ∷ 3 ∷ []; spare = [] } }

-- Block 3 of two symbols, with the second of them.
abbrev half : Block
half = record {
  id = 3;
  ssid_to_source_payload = (7, record { bytes = 250 ∷ []; spare = [] }) ∷ [];
  pid_to_repair_payload = [];
  smallest_ssid = 6;
  largest_ssid = 7;
  tot_num_source_symbols = 2;
  tot_num_repair_symbols = 1;
  biggest_source_symbol_len_so_far = pos 1;
}

half-IsValid : IsValid half 1
half-IsValid = record {
  keys = omega arith;
  distinct = (refl, tt);
  fits = omega arith;
  biggest = refl;
}

add_source_symbol-IsValid_example :
    (b : Block) × (add_source_symbol half symbol_6 ≡ ok b)
    × IsValid b (grown half 1 symbol_6)
    × Stored half symbol_6 b
add_source_symbol-IsValid_example =
    add_source_symbol-IsValid half 1 symbol_6 half-IsValid (omega arith, omega arith)

is_complete-HasAll_example : (is_complete half ≡ true) ↔ HasAll half
is_complete-HasAll_example = is_complete-HasAll half 1 half-IsValid refl
