-- ===== src/Fec/Xor/Tests.antt =====
-- The exclusive-or scheme on a block of two symbols.
use x_fec.Base.{ℕ, ◌<◌, List, [], ◌∷◌, true, ok, ◌≡◌, refl, arith, length}
use x_fec.Base.Dict.{Dict}
use x_fec.Base.Int.{pos}
use x_fec.Wire.{Slice}
use x_fec.Wire.Symbols.{RepairFrame, SourceSymbolFrame}
use x_fec.Fec.Block.{Block, is_complete, new_block, add_source_symbol}
use x_fec.Fec.Block.Laws.{IsValid}
use x_fec.Fec.Xor.{repair_symbols, recover_symbol_payloads}
use x_fec.Fec.Xor.Sum.{byte_at, sum_at}
use x_fec.Fec.Xor.Added.{add_all, repair_symbols-add_all}
use x_fec.Fec.Xor.Restore.{recover-repair_symbols}
use mathlib.Core.List.Perm

abbrev long_payload : Slice
long_payload = record { bytes = 1 ∷ 2 ∷ 3 ∷ []; spare = [] }

abbrev short_payload : Slice
short_payload = record { bytes = 250 ∷ []; spare = [] }

abbrev repair : RepairFrame
repair = record {
  metadata = record { block_id = 3; parity_id = 0 };
  payload = 251 ∷ 2 ∷ 3 ∷ 0 ∷ 2 ∷ [];
}

abbrev block : Dict Slice → Dict (List ℕ) → Block
block sources repairs = record {
  id = 3;
  ssid_to_source_payload = sources;
  pid_to_repair_payload = repairs;
  smallest_ssid = 6;
  largest_ssid = 7;
  tot_num_source_symbols = 2;
  tot_num_repair_symbols = 1;
  biggest_source_symbol_len_so_far = pos 3;
}

abbrev sent : Block
sent = block ((6, long_payload) ∷ (7, short_payload) ∷ []) []

abbrev arrived : Block
arrived = block ((6, long_payload) ∷ []) ((0, repair.payload) ∷ [])

sent-IsValid : IsValid sent 3
sent-IsValid = record {
  keys = omega arith;
  distinct = (refl, (refl, tt));
  fits = omega arith;
  biggest = refl;
}

arrived-IsValid : IsValid arrived 3
arrived-IsValid = record {
  keys = omega arith;
  distinct = (refl, tt);
  fits = omega arith;
  biggest = refl;
}

is_complete-sent : is_complete sent ≡ true
unfolding is_complete
is_complete-sent = refl

repair_symbols-sent : repair_symbols sent ≡ ok (repair ∷ [])
unfolding repair_symbols is_complete x_fec.Fec.Xor.make_repair x_fec.Fec.Xor.xor_sources
    x_fec.Fec.Xor.xor x_fec.Fec.Xor.xor_repair x_fec.Fec.Xor.xor_at
repair_symbols-sent = refl

recover-repair_symbols_example :
    ((recover_symbol_payloads arrived).1 ≡ ok (250 ∷ []))
    × (is_complete (recover_symbol_payloads arrived).0 ≡ true)
recover-repair_symbols_example =
    recover-repair_symbols sent arrived repair short_payload 3 0 sent-IsValid (omega arith) refl
      is_complete-sent repair_symbols-sent arrived-IsValid refl refl (omega arith) refl
      (Perm.swap _ _ _)

abbrev added : List SourceSymbolFrame
added =
    record { ssid = 6; payload = long_payload } ∷ record { ssid = 7; payload = short_payload } ∷ []

add_all-sent : add_all (new_block 3 2 1) added ≡ ok sent
unfolding add_all new_block add_source_symbol
add_all-sent = refl

repair_symbols-add_all_example :
    (payload : List ℕ) × (repair_symbols sent
      ≡ ok (record { metadata = record { block_id = 3; parity_id = 0 }; payload = payload } ∷ []))
    × (length payload ≡ 5)
    × ((i : ℕ) → i < 5 → byte_at payload i ≡ sum_at 3 (long_payload ∷ short_payload ∷ []) i)
repair_symbols-add_all_example =
    repair_symbols-add_all 3 2 added sent add_all-sent is_complete-sent (omega arith)
