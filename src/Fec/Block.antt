-- ===== src/Fec/Block.antt =====
-- internal/fec/block.go: the source and repair symbols of one block that have arrived.
pub mod Laws
pub mod Tests
use x_fec.Base.{
  ℕ, ◌+◌, ◌-◌, ◌*◌, ◌%◌, ◌^◌, List, [], Bool, ◌&&◌, ◌||◌, Result, ok, err, leb, ltb, ◌==◌,
  if◌then◌else◌, length, not,
}
use x_fec.Base.Dict.{Dict, has, insert}
use x_fec.Base.Int.{ℤ, pos, sub_ℕ, ltb_ℤ}
use x_fec.Varint.{u64}
use x_fec.Wire.{Slice}
use x_fec.Wire.Symbols.{SourceSymbolFrame, RepairFrame}
use x_fec.Fec.Errors.{Error, wrong_block}

-- The two bytes of a repair payload that hold the length.
abbrev pub repair_payload_metadata_len : ℕ
repair_payload_metadata_len = 2

pub record Block : Type 0 where
  pub id : ℕ
  pub ssid_to_source_payload : Dict Slice
  pub pid_to_repair_payload : Dict (List ℕ)
  pub smallest_ssid : ℕ
  pub largest_ssid : ℕ
  pub tot_num_source_symbols : ℕ
  pub tot_num_repair_symbols : ℕ
  pub biggest_source_symbol_len_so_far : ℤ

-- IDs are `uint64`. The count is computed in `int`, which wraps at the same 64 bits; read as a
-- natural number it is below 2^63 for every count that `NewManager` accepts.
unfoldable pub new_block : ℕ → ℕ → ℕ → Block
new_block id tot_num_source_symbols tot_num_repair_symbols =
    let smallest = u64 (id * tot_num_source_symbols) in
    let largest = u64 (u64 (smallest + tot_num_source_symbols) + 2 ^ 64 - 1) in
    record {
      id = id;
      ssid_to_source_payload = [];
      pid_to_repair_payload = [];
      smallest_ssid = smallest;
      largest_ssid = largest;
      tot_num_source_symbols = u64 (largest + 2 ^ 64 - smallest + 1);
      tot_num_repair_symbols = tot_num_repair_symbols;
      biggest_source_symbol_len_so_far = pos 0;
    }

-- The first of two frames with one identifier stays.
store_source : Block → SourceSymbolFrame → Block
store_source b f = if has f.ssid b.ssid_to_source_payload then b else record b {
  ssid_to_source_payload = insert f.ssid f.payload b.ssid_to_source_payload;
  biggest_source_symbol_len_so_far =
      if ltb_ℤ b.biggest_source_symbol_len_so_far (pos (length f.payload.bytes))
      then pos (length f.payload.bytes)
      else b.biggest_source_symbol_len_so_far;
}

unfoldable pub add_source_symbol : Block → SourceSymbolFrame → Result Error Block
unfolding store_source
add_source_symbol b f =
    if ltb f.ssid b.smallest_ssid || ltb b.largest_ssid f.ssid
    then err wrong_block
    else ok (store_source b f)

-- The biggest length is overwritten by what the repair payload says; it is negative for a payload
-- of less than two bytes.
store_repair : Block → RepairFrame → Block
store_repair b f = if has f.metadata.parity_id b.pid_to_repair_payload then b else record b {
  pid_to_repair_payload = insert f.metadata.parity_id f.payload b.pid_to_repair_payload;
  biggest_source_symbol_len_so_far = sub_ℕ (length f.payload) repair_payload_metadata_len;
}

unfoldable pub add_repair_symbol : Block → RepairFrame → Result Error Block
unfolding store_repair
add_repair_symbol b f =
    if not (b.id == f.metadata.block_id) then err wrong_block else ok (store_repair b f)

unfoldable pub is_recoverable : Block → Bool
is_recoverable b =
    leb b.tot_num_source_symbols (length b.ssid_to_source_payload + length b.pid_to_repair_payload)

unfoldable pub is_complete : Block → Bool
is_complete b = length b.ssid_to_source_payload == b.tot_num_source_symbols
