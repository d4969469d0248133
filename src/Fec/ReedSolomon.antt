-- ===== src/Fec/ReedSolomon.antt =====
-- internal/fec/reed_solomon.go: the scheme over github.com/klauspost/reedsolomon. The encoder of that
-- library is a parameter; a shard of no bytes is a missing one, and the shards that the library makes
-- have no spare capacity.
use x_fec.Base.{
  ℕ, zero, suc, ◌+◌, ◌*◌, ◌/◌, ◌%◌, ◌^◌, List, [], ◌∷◌, ◌++◌, Result, ok, err, ◌>>=◌, leb, ltb,
  if◌then◌else◌, length, not, get_or, set, take, drop, replicate, bit_or, Option, none, some,
}
use x_fec.Base.Dict.{Dict, has, insert, lookup}
use x_fec.Base.Int.{ℤ, pos, negsuc, suc_ℤ, ltb_ℤ}
use x_fec.Varint.{u8, u64}
use x_fec.Wire.{Slice}
use x_fec.Wire.Symbols.{RepairFrame}
use x_fec.Fec.Errors.{
  Error, not_complete, payload_too_big, not_recoverable, missing_symbol, small_capacity,
  encoder_failed, out_of_range,
}
use x_fec.Fec.Block.{Block, is_complete, is_recoverable}
use x_fec.Fec.Scheme.{BlockFecScheme}
use x_fec.Fec.Xor.{max_fec_packet_buffer_size, make_repair, index}

-- `Encode` fills the parity shards; `ReconstructData` fills the missing data shards.
pub record Encoder : Type 0 where
  pub encode : List (List ℕ) → Option (List (List ℕ))
  pub reconstruct_data : List (List ℕ) → Option (List (List ℕ))

-- `shardPayload[i] = v`
unfoldable pub store_at : List ℕ → ℤ → ℕ → Result Error (List ℕ)
store_at buf (pos i) v = if ltb i (length buf) then ok (set buf i v) else err out_of_range
store_at buf (negsuc i) v = err out_of_range

-- `payload[:n]`, which reaches into the array behind the slice.
unfoldable pub reslice : Slice → ℤ → Result Error (List ℕ)
reslice p (pos n) =
    if ltb (length p.bytes + length p.spare) n
    then err small_capacity
    else ok (take n (p.bytes ++ p.spare))
reslice p (negsuc n) = err out_of_range

-- The length, in two bytes behind the biggest payload.
unfoldable pub shard_of : Slice → ℤ → Result Error (List ℕ)
shard_of p biggest = do
  shard ← reslice p (suc_ℤ (suc_ℤ biggest))
  let n = length p.bytes % 2 ^ 16
  shard ← store_at shard biggest (u8 (n / 2 ^ 8))
  store_at shard (suc_ℤ biggest) (u8 n)

-- The slice of the map shares the array with the shard, and so sees what was written.
unfoldable pub written_back : Slice → List ℕ → Slice
written_back p shard =
    let array = shard ++ drop (length shard) (p.bytes ++ p.spare) in
    record { bytes = take (length p.bytes) array; spare = drop (length p.bytes) array }

unfoldable pub add_length_to_source_symbol_payload : Block → ℕ → Block × Result Error (List ℕ)
add_length_to_source_symbol_payload b ssid = elim (lookup ssid b.ssid_to_source_payload) [
  | none ↦ (b, err missing_symbol)
  | some p ↦ elim (shard_of p b.biggest_source_symbol_len_so_far) [
    | err e ↦ (b, err e)
    | ok shard ↦ (
      record b {
        ssid_to_source_payload = insert ssid (written_back p shard) b.ssid_to_source_payload;
      },
      ok shard,
    )
  ]
]

-- The loop over the source symbols of a complete block, with `k` rounds left.
unfoldable pub source_shards : ℕ → ℕ → Block → Block × Result Error (List (List ℕ))
source_shards zero ssid b = (b, ok [])
source_shards (suc k) ssid b =
    let (b', shard) = add_length_to_source_symbol_payload b ssid in
    let rest = source_shards k (u64 (ssid + 1)) b' in
    elim shard [ err e ↦ (b', err e) | ok s ↦ (rest.0, rest.1 >>= λ ss. ok (s ∷ ss)) ]

abbrev repair_frames : ℕ → ℕ → ℕ → List (List ℕ) → List RepairFrame
repair_frames zero i id shards = []
repair_frames (suc k) i id shards =
    record { metadata = record { block_id = id; parity_id = i }; payload = get_or shards i [] }
    ∷ repair_frames k (i + 1) id shards

-- The parity shards of the encoder become the repair frames.
unfoldable pub encoded : Encoder → Block → List (List ℕ) → Result Error (List RepairFrame)
encoded enc b sources = do
  empty ← make_repair b.biggest_source_symbol_len_so_far
  elim (enc.encode (sources ++ replicate b.tot_num_repair_symbols empty)) [
    | none ↦ err encoder_failed
    | some shards ↦
        ok (repair_frames b.tot_num_repair_symbols 0 b.id (drop b.tot_num_source_symbols shards))
  ]

unfoldable pub repair_symbols : Encoder → Block → Block × Result Error (List RepairFrame)
repair_symbols enc b =
    if not (is_complete b)
    then (b, err not_complete)
    else if ltb_ℤ (pos max_fec_packet_buffer_size) b.biggest_source_symbol_len_so_far
    then (b, err payload_too_big)
    else let (b', sources) = source_shards b.tot_num_source_symbols b.smallest_ssid b in
      (b', sources >>= encoded enc b')

-- The loop over the source symbols that are there, with `k` rounds left: the shards, empty for a
-- missing symbol, and the indices of those.
unfoldable pub present_shards : ℕ → ℕ → ℕ → Block → Block × Result Error (List (List ℕ) × List ℕ)
present_shards zero i ssid b = (b, ok ([], []))
present_shards (suc k) i ssid b =
    let absent = present_shards k (i + 1) (u64 (ssid + 1)) b in
    let (b', shard) = add_length_to_source_symbol_payload b ssid in
    let rest = present_shards k (i + 1) (u64 (ssid + 1)) b' in
    if has ssid b.ssid_to_source_payload
    then elim shard [ err e ↦ (b', err e) | ok s ↦ (rest.0, rest.1 >>= λ r. ok (s ∷ r.0, r.1)) ]
    else (absent.0, absent.1 >>= λ r. ok ([] ∷ r.0, i ∷ r.1))

-- The loop over the repair symbols: the peer chose the parity identifiers, and an index behind the
-- shards panics.
unfoldable pub place_parity : ℕ → List (List ℕ) → Dict (List ℕ) → Result Error (List (List ℕ))
place_parity tot shards [] = ok shards
place_parity tot shards ((pid, payload) ∷ rest) =
    if ltb (u64 (tot + pid)) (length shards)
    then place_parity tot (set shards (u64 (tot + pid)) payload) rest
    else err out_of_range

-- The payload of a reconstructed shard, by the length behind the biggest one.
unfoldable pub shard_payload : List ℕ → ℤ → Result Error (List ℕ)
shard_payload shard biggest = do
  high ← index shard biggest
  low ← index shard (suc_ℤ biggest)
  let n = bit_or (high * 2 ^ 8 % 2 ^ 16) low
  if leb n (length shard) then ok (take n shard) else err out_of_range

-- The payloads of the missing symbols, one after the other.
unfoldable pub missing_payloads : List ℕ → List (List ℕ) → ℤ → Result Error (List ℕ)
missing_payloads [] shards biggest = ok []
missing_payloads (i ∷ is) shards biggest = do
  p ← shard_payload (get_or shards i []) biggest
  ps ← missing_payloads is shards biggest
  ok (p ++ ps)

unfoldable pub reconstructed : Encoder → Block → List (List ℕ) × List ℕ → Result Error (List ℕ)
reconstructed enc b (sources, missing) = do
  shards ←
      place_parity b.tot_num_source_symbols (sources ++ replicate b.tot_num_repair_symbols [])
        b.pid_to_repair_payload
  elim (enc.reconstruct_data shards) [
    | none ↦ err encoder_failed
    | some full ↦ missing_payloads missing full b.biggest_source_symbol_len_so_far
  ]

unfoldable pub recover_symbol_payloads : Encoder → Block → Block × Result Error (List ℕ)
recover_symbol_payloads enc b =
    if not (is_recoverable b)
    then (b, err not_recoverable)
    else if is_complete b
    then (b, ok [])
    else let (b', sources) = present_shards b.tot_num_source_symbols 0 b.smallest_ssid b in
      (b', sources >>= reconstructed enc b')

abbrev pub reed_solomon_scheme : Encoder → BlockFecScheme
reed_solomon_scheme enc = record {
  repair_symbols = repair_symbols enc;
  recover_symbol_payloads = recover_symbol_payloads enc;
}
