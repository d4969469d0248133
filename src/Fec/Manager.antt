-- ===== src/Fec/Manager.antt =====
-- internal/fec/manager.go: the blocks of one connection, for the sender and for the receiver. The
-- mutex of `NextSSID` makes the call one step.
pub mod Laws
pub mod Elsewhere
pub mod Closing
pub mod Once
pub mod XorPair
pub mod EndToEnd
pub mod RepairFirst
pub mod Tests
use x_fec.Base.{
  ℕ, ◌+◌, ◌/◌, ◌%◌, ◌^◌, List, [], ◌∷◌, Bool, true, false, ◌||◌, Result, ok, err, ◌==◌,
  if◌then◌else◌, Option, none, some,
}
use x_fec.Base.Dict.{Dict, has, insert, lookup}
use x_fec.Base.Int.{ℤ, pos, negsuc}
use x_fec.Varint.{u64}
use x_fec.Wire.Symbols.{SourceSymbolFrame, RepairFrame}
use x_fec.Fec.Errors.{
  Error, unknown_scheme, negative_counts, nil_block, division_by_zero, encoder_failed,
}
use x_fec.Fec.Block.{
  Block, new_block, add_source_symbol, add_repair_symbol, is_complete, is_recoverable,
}
use x_fec.Fec.Scheme.{BlockFecScheme}
use x_fec.Fec.Xor as Xor
use x_fec.Fec.ReedSolomon.{Encoder, reed_solomon_scheme}

-- A block is nil once it is processed.
pub record BlockStatus : Type 0 where
  pub block : Option Block
  pub is_processed : Bool

pub record Manager : Type 0 where
  pub scheme : BlockFecScheme
  pub next_sid : ℕ
  pub num_tot_source_symbols : ℕ
  pub num_tot_repair_symbols : ℕ
  pub block_statuses : Dict BlockStatus

unfoldable pub new_manager : BlockFecScheme → ℤ → ℤ → Result Error Manager
new_manager scheme (pos n) (pos m) = ok (record {
  scheme = scheme;
  next_sid = 0;
  num_tot_source_symbols = n;
  num_tot_repair_symbols = m;
  block_statuses = [];
})
new_manager scheme (negsuc n) m = err (negative_counts (negsuc n) m)
new_manager scheme (pos n) (negsuc m) = err (negative_counts (pos n) (negsuc m))

abbrev pub xor_scheme : BlockFecScheme
xor_scheme = record {
  repair_symbols = λ b. (b, Xor.repair_symbols b);
  recover_symbol_payloads = Xor.recover_symbol_payloads;
}

abbrev some_manager : Result Error Manager → Result Error (Option Manager)
some_manager (ok m) = ok (some m)
some_manager (err e) = err e

-- `NewSender` and `NewReceiver`, which are the same but for the interface that they return: no
-- manager for scheme 0. `reedsolomon.New` is the parameter `make`.
unfoldable pub new_endpoint : (ℕ → ℕ → Option Encoder) → ℕ → Result Error (Option Manager)
unfolding new_manager
new_endpoint make id =
    if id == 0
    then ok none
    else if id == 1
    then some_manager (new_manager xor_scheme (pos 2) (pos 1))
    else if id == 2
    then elim (make 20 10) [
      | none ↦ err encoder_failed
      | some enc ↦ some_manager (new_manager (reed_solomon_scheme enc) (pos 20) (pos 10))
    ]
    else err (unknown_scheme id)

unfoldable pub next_ssid : Manager → Manager × ℕ
next_ssid m = (record m { next_sid = u64 (m.next_sid + 1) }, m.next_sid)

-- The division panics for a count of zero.
unfoldable pub sid_to_block_id : Manager → ℕ → Result Error ℕ
sid_to_block_id m sid =
    if m.num_tot_source_symbols == 0
    then err division_by_zero
    else ok (sid / m.num_tot_source_symbols)

abbrev pub put_status : Manager → ℕ → Option Block → Bool → Manager
put_status m id b done = record m {
  block_statuses = insert id (record { block = b; is_processed = done }) m.block_statuses;
}

-- The entry of a block is made on its first symbol.
unfoldable pub with_block : Manager → ℕ → Manager
with_block m id =
    if has id m.block_statuses
    then m
    else put_status m id (some (new_block id m.num_tot_source_symbols m.num_tot_repair_symbols))
        false

-- The block that still collects, if the entry has one: nothing for a processed block, a fault for a
-- nil block that is not processed.
pub data Entry : Type 0 where
  collecting : Block → Entry
  processed nil : Entry

unfoldable pub entry : Manager → ℕ → Entry
entry m id = elim (lookup id m.block_statuses) [
  | none ↦ nil
  | some s ↦
      if s.is_processed then processed else elim s.block [ none ↦ nil | some b ↦ collecting b ]
]

-- What the handlers share: a processed block ignores the symbol, with nil for a result.
unfoldable pub on_entry :
    {A : Type 0} → Manager → ℕ → A → (Block → Manager × Result Error A) → Manager × Result Error A
on_entry m id none_to_give k = elim (entry m id) [
  | processed ↦ (m, ok none_to_give)
  | nil ↦ (m, err nil_block)
  | collecting b ↦ k b
]

-- What the scheme did with the block: on success it is dropped, and after an error it stays as the
-- scheme left it.
abbrev pub settled {ℓ} :
    {A : Type ℓ} → Manager → ℕ → Block × Result Error A → Manager × Result Error A
settled m id (b, err e) = (put_status m id (some b) false, err e)
settled m id (b, ok a) = (put_status m id none true, ok a)

-- `AddSourceSymbolFrame` behind the first lines, on the block.
unfoldable pub add_to_block :
    Manager → ℕ → SourceSymbolFrame → Block → Manager × Result Error (List RepairFrame)
add_to_block m id f b = elim (add_source_symbol b f) [
  | err e ↦ (m, err e)
  | ok b' ↦
      if is_complete b'
      then settled m id (m.scheme.repair_symbols b')
      else (put_status m id (some b') false, ok [])
]

unfoldable pub add_source_symbol_frame :
    Manager → SourceSymbolFrame → Manager × Result Error (List RepairFrame)
add_source_symbol_frame m f = elim (sid_to_block_id m f.ssid) [
  | err e ↦ (m, err e)
  | ok id ↦ let m' = with_block m id in on_entry m' id [] (add_to_block m' id f)
]

-- `HandleRepairFrame` behind the first lines, on the block.
unfoldable pub repair_block : Manager → RepairFrame → Block → Manager × Result Error (List ℕ)
repair_block m f b = elim (add_repair_symbol b f) [
  | err e ↦ (m, err e)
  | ok b' ↦
      if is_recoverable b'
      then settled m f.metadata.block_id (m.scheme.recover_symbol_payloads b')
      else (put_status m f.metadata.block_id (some b') false, ok [])
]

unfoldable pub handle_repair_frame : Manager → RepairFrame → Manager × Result Error (List ℕ)
handle_repair_frame m f =
    let m' = with_block m f.metadata.block_id in
    on_entry m' f.metadata.block_id [] (repair_block m' f)

-- `HandleSourceSymbolFrame` behind the first lines, on the block.
unfoldable pub receive_source :
    Manager → ℕ → SourceSymbolFrame → Block → Manager × Result Error (List ℕ)
receive_source m id f b = elim (add_source_symbol b f) [
  | err e ↦ (m, err e)
  | ok b' ↦ (
    if is_complete b' then put_status m id none true else put_status m id (some b') false,
    ok f.payload.bytes,
  )
]

unfoldable pub handle_source_symbol_frame :
    Manager → SourceSymbolFrame → Manager × Result Error (List ℕ)
handle_source_symbol_frame m f = elim (sid_to_block_id m f.ssid) [
  | err e ↦ (m, err e)
  | ok id ↦ let m' = with_block m id in on_entry m' id [] (receive_source m' id f)
]
