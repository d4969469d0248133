-- ===== src/Fec/Xor.antt =====
-- internal/fec/xor.go: the scheme with one repair symbol, the exclusive or of the source symbols.
pub mod Sum
pub mod Recovery
pub mod Restore
pub mod Added
pub mod Tests
use x_fec.Base.{
  ℕ, zero, suc, ◌+◌, ◌-◌, ◌*◌, ◌/◌, ◌%◌, ◌^◌, List, [], ◌∷◌, Bool, true, false, Result, ok, err,
  ◌>>=◌, leb, ltb, ◌==◌, if◌then◌else◌, length, not, get_or, set, take, drop, replicate, bit_xor,
  bit_or,
}
use x_fec.Base.Dict.{Dict, has, insert, values}
use x_fec.Base.Int.{ℤ, pos, negsuc, suc_ℤ, ltb_ℤ}
use x_fec.Varint.{u8}
use x_fec.Wire.{Slice}
use x_fec.Wire.Symbols.{RepairFrame, max_packet_buffer_size}
use x_fec.Fec.Errors.{
  Error, not_complete, xor_parity_count, payload_too_big, not_recoverable, still_incomplete,
  out_of_range, endless,
}
use x_fec.Fec.Block.{Block, is_complete, is_recoverable, repair_payload_metadata_len}

-- A packet buffer less the 18 bytes that the headers can add.
abbrev pub max_fec_packet_buffer_size : ℕ
max_fec_packet_buffer_size = max_packet_buffer_size - 18

-- `for i := 0; i < len(payload); i++ { buf[i] = buf[i] ^ payload[i] }`, from where it stands.
unfoldable pub xor_repair : List ℕ → List ℕ → Result Error (List ℕ)
xor_repair buf [] = ok buf
xor_repair [] (p ∷ payload) = err out_of_range
xor_repair (x ∷ buf) (p ∷ payload) = xor_repair buf payload >>= λ rest. ok (bit_xor x p ∷ rest)

-- `buf[i] ^= v`
unfoldable pub xor_at : List ℕ → ℤ → ℕ → Result Error (List ℕ)
xor_at buf (pos i) v =
    if ltb i (length buf) then ok (set buf i (bit_xor (get_or buf i 0) v)) else err out_of_range
xor_at buf (negsuc i) v = err out_of_range

-- The length is a `uint16`; `byte(n & 0xFF)` is the remainder by 256.
unfoldable pub xor : List ℕ → List ℕ → ℤ → Result Error (List ℕ)
xor xor_so_far payload biggest = do
  buf ← xor_repair xor_so_far payload
  let n = length payload % 2 ^ 16
  buf ← xor_at buf biggest (u8 (n / 2 ^ 8))
  xor_at buf (suc_ℤ biggest) (u8 n)

-- The loops over the two maps.
unfoldable pub xor_sources : List ℕ → List Slice → ℤ → Result Error (List ℕ)
xor_sources buf [] biggest = ok buf
xor_sources buf (p ∷ ps) biggest = xor buf p.bytes biggest >>= λ buf'. xor_sources buf' ps biggest

unfoldable pub xor_repairs : List ℕ → List (List ℕ) → Result Error (List ℕ)
xor_repairs buf [] = ok buf
xor_repairs buf (p ∷ ps) = xor_repair buf p >>= λ buf'. xor_repairs buf' ps

-- `make([]byte, RepairPayloadMetadataLen + n)` panics below zero.
unfoldable pub make_repair : ℤ → Result Error (List ℕ)
make_repair (pos n) = ok (replicate (repair_payload_metadata_len + n) 0)
make_repair (negsuc zero) = ok (replicate 1 0)
make_repair (negsuc (suc zero)) = ok []
make_repair (negsuc (suc (suc n))) = err out_of_range

unfoldable pub repair_symbols : Block → Result Error (List RepairFrame)
repair_symbols b =
    if not (is_complete b)
    then err not_complete
    else if not (b.tot_num_repair_symbols == 1)
    then err (xor_parity_count b.tot_num_repair_symbols)
    else if ltb_ℤ (pos max_fec_packet_buffer_size) b.biggest_source_symbol_len_so_far
    then err payload_too_big
    else make_repair b.biggest_source_symbol_len_so_far >>= λ empty.
        xor_sources empty (values b.ssid_to_source_payload) b.biggest_source_symbol_len_so_far
        >>= λ xor_so_far. ok (
            record { metadata = record { block_id = b.id; parity_id = 0 }; payload = xor_so_far }
            ∷ [])

-- `buf[i]`
unfoldable pub index : List ℕ → ℤ → Result Error ℕ
index buf (pos i) = if ltb i (length buf) then ok (get_or buf i 0) else err out_of_range
index buf (negsuc i) = err out_of_range

-- `buf[:n]`: the array keeps what stands behind.
unfoldable pub slice_to : List ℕ → ℕ → Result Error Slice
slice_to buf n =
    if leb n (length buf)
    then ok (record { bytes = take n buf; spare = drop n buf })
    else err out_of_range

-- `for ssid := smallest; ssid <= largest; ssid++`, with the number of rounds: each identifier with
-- no payload gets the one that was recovered.
unfoldable pub fill : ℕ → ℕ → Slice → Dict Slice → Dict Slice
fill zero ssid p m = m
fill (suc k) ssid p m = fill k (ssid + 1) p (if has ssid m then m else insert ssid p m)

-- The buffer from which the payload is cut.
unfoldable pub recovered_symbol : Block → Result Error (List ℕ)
recovered_symbol b = do
  buf ← xor_repairs (replicate max_packet_buffer_size 0) (values b.pid_to_repair_payload)
  xor_sources buf (values b.ssid_to_source_payload) b.biggest_source_symbol_len_so_far

-- The payload by the length that stands behind the biggest one.
unfoldable pub recovered_payload : List ℕ → ℤ → Result Error Slice
recovered_payload buf biggest = do
  high ← index buf biggest
  low ← index buf (suc_ℤ biggest)
  slice_to buf (bit_or (high * 2 ^ 8 % 2 ^ 16) low)

-- A loop up to the greatest `uint64` would not end.
unfoldable pub finish : Block → Slice → Block × Result Error (List ℕ)
finish b p =
    if b.largest_ssid == 2 ^ 64 - 1
    then (b, err endless)
    else let b' : Block = record b {
      ssid_to_source_payload =
          fill (b.largest_ssid + 1 - b.smallest_ssid) b.smallest_ssid p b.ssid_to_source_payload;
    } in
      if is_complete b' then (b', ok p.bytes) else (b', err still_incomplete)

-- The payload that the symbols of the block give.
unfoldable pub recovered : Block → Result Error Slice
recovered b = do buf ← recovered_symbol b; recovered_payload buf b.biggest_source_symbol_len_so_far

-- The map is filled in place, before the check at the end.
unfoldable pub recover_symbol_payloads : Block → Block × Result Error (List ℕ)
recover_symbol_payloads b =
    if not (is_recoverable b)
    then (b, err not_recoverable)
    else if is_complete b
    then (b, ok [])
    else elim (recovered b) [ err e ↦ (b, err e) | ok p ↦ finish b p ]
