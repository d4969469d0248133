-- ===== src/Wire/Symbols/RoundTrip.antt =====
-- internal/wire: parsing of the three FEC frames against their Append and Length.
use x_fec.Base.{ℕ, ◌+◌, ◌≤◌, ◌<◌, ◌^◌, List, ◌++◌, ok, ◌≡◌, ap, arith, length, length-append, sym}
use x_fec.Varint.{max_var_int8}
use x_fec.Varint.Codec.{encoding}
use x_fec.Wire.Codec.{
  append_varint-encoding, read_varint-encoding, len_varint-encoding, read_payload_prefix,
  RoundTrips,
}
use x_fec.Wire.Symbols.{
  RepairFrame, parse_repair_frame, append_repair_frame, length_repair_frame, repair_frame_type,
  FecWindowFrame, parse_fec_window_frame, append_fec_window_frame, length_fec_window_frame,
  fec_window_frame_type, SourceSymbolFrame, parse_source_symbol_frame, append_source_symbol_frame,
  length_source_symbol_frame, source_symbol_frame_type, fresh_spare, read_symbol_payload,
  header_len_source_symbol_frame, max_packet_buffer_size,
}
use mathlib.Core.List.{append_assoc}

-- A window frame whose epoch fits 16 bits and whose size fits 32 is read back as it was written.
pub fec_window_frame-RoundTrips :
    (b rest : List ℕ) (f : FecWindowFrame)
    → f.epoch < 2 ^ 16
    → f.size < 2 ^ 32
    → RoundTrips
        (encoding fec_window_frame_type)
        append_fec_window_frame
        length_fec_window_frame
        parse_fec_window_frame
        f
        b
        rest
unfolding append_fec_window_frame length_fec_window_frame parse_fec_window_frame
fec_window_frame-RoundTrips b rest f he hs = (
  encoding f.epoch ++ encoding f.size,
  simp (
    append_varint-encoding _ fec_window_frame_type (omega arith),
    append_varint-encoding _ f.epoch (omega arith),
    append_varint-encoding _ f.size (omega arith),
    append_assoc,
  ),
  simp
      (
        len_varint-encoding fec_window_frame_type (omega arith),
        len_varint-encoding f.epoch (omega arith),
        len_varint-encoding f.size (omega arith),
        length-append,
      )
      (ground arith),
  simp
      (
        append_assoc,
        read_varint-encoding f.epoch _ (omega arith),
        read_varint-encoding f.size _ (omega arith),
      )
      (ground arith),
)

-- A repair frame whose IDs and payload length a varint can hold is read back as it was written.
pub repair_frame-RoundTrips :
    (b rest : List ℕ) (f : RepairFrame)
    → f.metadata.block_id ≤ max_var_int8
    → f.metadata.parity_id ≤ max_var_int8
    → length f.payload ≤ max_var_int8
    → RoundTrips
        (encoding repair_frame_type)
        append_repair_frame
        length_repair_frame
        parse_repair_frame
        f
        b
        rest
unfolding append_repair_frame length_repair_frame parse_repair_frame
repair_frame-RoundTrips b rest f hb hp hl = (
  encoding f.metadata.block_id
      ++ (encoding f.metadata.parity_id ++ (encoding (length f.payload) ++ f.payload)),
  simp (
    append_varint-encoding _ repair_frame_type (omega arith),
    append_varint-encoding _ f.metadata.block_id hb,
    append_varint-encoding _ f.metadata.parity_id hp,
    append_varint-encoding _ (length f.payload) hl,
    append_assoc,
  ),
  simp
      (
        len_varint-encoding repair_frame_type (omega arith),
        len_varint-encoding f.metadata.block_id hb,
        len_varint-encoding f.metadata.parity_id hp,
        len_varint-encoding (length f.payload) hl,
        length-append,
      )
      (ground arith),
  simp (
    append_assoc,
    read_varint-encoding f.metadata.block_id _ hb,
    read_varint-encoding f.metadata.parity_id _ hp,
    read_varint-encoding (length f.payload) _ hl,
    read_payload_prefix f.payload rest,
  ),
)

-- The frame as the parser allocates it: the same identifier and bytes, with a fresh array behind.
abbrev pub received : SourceSymbolFrame → SourceSymbolFrame
received f = record {
  ssid = f.ssid;
  payload = record { bytes = f.payload.bytes; spare = fresh_spare (length f.payload.bytes) };
}

read_symbol_payload_prefix :
    (p rest : List ℕ)
    → length p ≤ max_packet_buffer_size
    → read_symbol_payload (length p) (p ++ rest)
      ≡ ok (record { bytes = p; spare = fresh_spare (length p) }, rest)
unfolding read_symbol_payload
read_symbol_payload_prefix p rest h =
    rw (read_payload_prefix p rest) (ground (arith, length-append p rest))

-- A source symbol frame with a payload of at most 1452 bytes is read back with its identifier and
-- its bytes, and with an array of 1452 bytes behind a payload that is not empty. `Length` is the
-- number of bytes written, and `HeaderLen` that number less the payload.
pub source_symbol_frame_round_trip :
    (b rest : List ℕ) (f : SourceSymbolFrame)
    → f.ssid ≤ max_var_int8
    → length f.payload.bytes ≤ max_packet_buffer_size
    → (body : List ℕ) × (append_source_symbol_frame b f
        ≡ ok (b ++ (encoding source_symbol_frame_type ++ body)))
      × (length_source_symbol_frame f ≡ ok (length (encoding source_symbol_frame_type ++ body)))
      × (h : ℕ) × (header_len_source_symbol_frame f ≡ ok h)
      × (h + length f.payload.bytes ≡ length (encoding source_symbol_frame_type ++ body))
      × (parse_source_symbol_frame (body ++ rest) ≡ ok (received f, rest))
unfolding append_source_symbol_frame length_source_symbol_frame parse_source_symbol_frame
    header_len_source_symbol_frame
source_symbol_frame_round_trip b rest f hs hl =
    let n = length f.payload.bytes in
    let t = encoding source_symbol_frame_type in
    let lens = len_varint-encoding source_symbol_frame_type (omega arith) in
    let size : length (t ++ (encoding f.ssid ++ (encoding n ++ f.payload.bytes)))
        ≡ length t + length (encoding f.ssid) + length (encoding n) + n =
      simp length-append (omega arith) in
    (
      encoding f.ssid ++ (encoding n ++ f.payload.bytes),
      simp (
        append_varint-encoding _ source_symbol_frame_type (omega arith),
        append_varint-encoding _ f.ssid hs,
        append_varint-encoding _ n (omega arith),
        append_assoc,
      ),
      simp (lens, len_varint-encoding f.ssid hs, len_varint-encoding n (omega arith))
          (ap ok (sym size)),
      length t + length (encoding f.ssid) + length (encoding n),
      simp (lens, len_varint-encoding f.ssid hs, len_varint-encoding n (omega arith)),
      sym size,
      simp (
        append_assoc,
        read_varint-encoding f.ssid _ hs,
        read_varint-encoding n _ (omega arith),
        read_symbol_payload_prefix f.payload.bytes rest hl,
      ),
    )
