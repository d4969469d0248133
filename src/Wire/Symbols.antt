-- ===== src/Wire/Symbols.antt =====
-- internal/wire/fec_repair_frame.go, fec_source_symbol_frame.go and fec_window_frame.go: the frames
-- that this repository adds to QUIC.
pub mod RoundTrip
pub mod Tests
use x_fec.Base.{
  ℕ, ◌+◌, ◌-◌, ◌%◌, ◌^◌, List, [], ◌++◌, Result, ok, err, ◌>>=◌, ltb, ◌==◌, if◌then◌else◌, length,
  replicate, not, ◌&&◌,
}
use x_fec.Wire.{
  Error, eof, make_panic, Parsed, Slice, read_varint, append_varint, len_varint, read_full,
  read_payload,
}

abbrev pub max_packet_buffer_size : ℕ
max_packet_buffer_size = 1452

abbrev pub repair_frame_type : ℕ
repair_frame_type = 0x32a80fec

abbrev pub source_symbol_frame_type : ℕ
source_symbol_frame_type = 0x32a80fec55

abbrev pub fec_window_frame_type : ℕ
fec_window_frame_type = 0x32a80fecc0

pub record BlockMetadata : Type 0 where
  pub block_id : ℕ
  pub parity_id : ℕ

pub record RepairFrame : Type 0 where
  pub metadata : BlockMetadata
  pub payload : List ℕ

pub parse_repair_frame : List ℕ → Parsed RepairFrame
parse_repair_frame r = do
  (block_id, r) ← read_varint r
  (parity_id, r) ← read_varint r
  (payload_len, r) ← read_varint r
  (payload, r) ← read_payload payload_len r
  ok (
    record { metadata = record { block_id = block_id; parity_id = parity_id }; payload = payload },
    r,
  )

pub append_repair_frame : List ℕ → RepairFrame → Result Error (List ℕ)
append_repair_frame b f = do
  b ← append_varint b repair_frame_type
  b ← append_varint b f.metadata.block_id
  b ← append_varint b f.metadata.parity_id
  b ← append_varint b (length f.payload)
  ok (b ++ f.payload)

pub length_repair_frame : RepairFrame → Result Error ℕ
length_repair_frame f = do
  t ← len_varint repair_frame_type
  i ← len_varint f.metadata.block_id
  p ← len_varint f.metadata.parity_id
  l ← len_varint (length f.payload)
  ok (t + i + p + l + length f.payload)

pub record SourceSymbolFrame : Type 0 where
  pub ssid : ℕ
  pub payload : Slice

-- The bytes behind the payload, up to the capacity that the parser allocates.
abbrev pub fresh_spare : ℕ → List ℕ
fresh_spare n = if n == 0 then [] else replicate (max_packet_buffer_size - n) 0

-- The payload of a source symbol after its length `n`.
-- `make([]byte, payloadLen, MaxPacketBufferSize)` panics if the length is above the capacity.
pub read_symbol_payload : ℕ → List ℕ → Parsed Slice
read_symbol_payload n r =
    if ltb (length r) n
    then err eof
    else if not (n == 0) && ltb max_packet_buffer_size n
    then err make_panic
    else read_payload n r >>= λ (p, r'). ok (record { bytes = p; spare = fresh_spare n }, r')

pub parse_source_symbol_frame : List ℕ → Parsed SourceSymbolFrame
parse_source_symbol_frame r = do
  (sid, r) ← read_varint r
  (payload_len, r) ← read_varint r
  (payload, r) ← read_symbol_payload payload_len r
  ok (record { ssid = sid; payload = payload }, r)

pub append_source_symbol_frame : List ℕ → SourceSymbolFrame → Result Error (List ℕ)
append_source_symbol_frame b f = do
  b ← append_varint b source_symbol_frame_type
  b ← append_varint b f.ssid
  b ← append_varint b (length f.payload.bytes)
  ok (b ++ f.payload.bytes)

pub header_len_source_symbol_frame : SourceSymbolFrame → Result Error ℕ
header_len_source_symbol_frame f = do
  t ← len_varint source_symbol_frame_type
  i ← len_varint f.ssid
  l ← len_varint (length f.payload.bytes)
  ok (t + i + l)

pub length_source_symbol_frame : SourceSymbolFrame → Result Error ℕ
length_source_symbol_frame f = do
  t ← len_varint source_symbol_frame_type
  i ← len_varint f.ssid
  l ← len_varint (length f.payload.bytes)
  ok (t + i + l + length f.payload.bytes)

pub record FecWindowFrame : Type 0 where
  pub epoch : ℕ
  pub size : ℕ

-- The epoch is a `uint16` and the size a `uint32`: the conversions drop the higher bits.
pub parse_fec_window_frame : List ℕ → Parsed FecWindowFrame
parse_fec_window_frame r = do
  (epoch, r) ← read_varint r
  (size, r) ← read_varint r
  ok (record { epoch = epoch % 2 ^ 16; size = size % 2 ^ 32 }, r)

pub append_fec_window_frame : List ℕ → FecWindowFrame → Result Error (List ℕ)
append_fec_window_frame b f = do
  b ← append_varint b fec_window_frame_type
  b ← append_varint b f.epoch
  append_varint b f.size

pub length_fec_window_frame : FecWindowFrame → Result Error ℕ
length_fec_window_frame f = do
  t ← len_varint fec_window_frame_type
  e ← len_varint f.epoch
  s ← len_varint f.size
  ok (t + e + s)
