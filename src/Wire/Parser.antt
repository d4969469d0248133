-- ===== src/Wire/Parser.antt =====
-- internal/wire/frame_parser.go, ping_frame.go and handshake_done_frame.go. The parser's cached reader is
-- not modelled, and neither is the offset in a packet that could not be parsed.
pub mod RoundTrip
pub mod Frames
pub mod Others
pub mod All
pub mod Padding
pub mod Levels
pub mod Tests
use x_fec.Base.{
  ℕ, zero, suc, ◌+◌, ◌-◌, List, [], ◌∷◌, ◌++◌, Bool, true, false, bit_and, ◌==◌, ◌||◌, ◌&&◌, not,
  if◌then◌else◌, Option, none, some, Result, ok, err, ◌>>=◌, length,
}
use x_fec.Wire.{Error, unknown_frame_type, not_allowed_at_encryption_level, Parsed, read_varint}
use x_fec.Wire.Control.{
  MaxDataFrame, parse_max_data_frame, append_max_data_frame, length_max_data_frame,
  DataBlockedFrame, parse_data_blocked_frame, append_data_blocked_frame, length_data_blocked_frame,
  MaxStreamDataFrame, parse_max_stream_data_frame, append_max_stream_data_frame,
  length_max_stream_data_frame, StreamDataBlockedFrame, parse_stream_data_blocked_frame,
  append_stream_data_blocked_frame, length_stream_data_blocked_frame, MaxStreamsFrame,
  parse_max_streams_frame, append_max_streams_frame, length_max_streams_frame, StreamsBlockedFrame,
  parse_streams_blocked_frame, append_streams_blocked_frame, length_streams_blocked_frame,
  StopSendingFrame, parse_stop_sending_frame, append_stop_sending_frame, length_stop_sending_frame,
  ResetStreamFrame, parse_reset_stream_frame, append_reset_stream_frame, length_reset_stream_frame,
  RetireConnectionIdFrame, parse_retire_connection_id_frame, append_retire_connection_id_frame,
  length_retire_connection_id_frame,
}
use x_fec.Wire.Data.{
  CryptoFrame, parse_crypto_frame, append_crypto_frame, length_crypto_frame, NewTokenFrame,
  parse_new_token_frame, append_new_token_frame, length_new_token_frame, PathFrame,
  parse_path_frame, append_path_challenge_frame, append_path_response_frame, length_path_frame,
  DatagramFrame, parse_datagram_frame, append_datagram_frame, length_datagram_frame,
}
use x_fec.Wire.Stream.{StreamFrame, parse_stream_frame, append_stream_frame, length_stream_frame}
use x_fec.Wire.Connection.{
  NewConnectionIdFrame, parse_new_connection_id_frame, append_new_connection_id_frame,
  length_new_connection_id_frame, ConnectionCloseFrame, parse_connection_close_frame,
  append_connection_close_frame, length_connection_close_frame,
}
use x_fec.Wire.Symbols.{
  RepairFrame, parse_repair_frame, append_repair_frame, length_repair_frame, SourceSymbolFrame,
  parse_source_symbol_frame, append_source_symbol_frame, length_source_symbol_frame, FecWindowFrame,
  parse_fec_window_frame, append_fec_window_frame, length_fec_window_frame,
}
use x_fec.Wire.Ack.{AckFrame, parse_ack_frame, append_ack_frame, length_ack_frame, reset_ack_frame}

pub data Frame : Type 0 where
  ping handshake_done : Frame
  ack : AckFrame → Frame
  reset_stream : ResetStreamFrame → Frame
  stop_sending : StopSendingFrame → Frame
  crypto : CryptoFrame → Frame
  new_token : NewTokenFrame → Frame
  stream : StreamFrame → Frame
  max_data : MaxDataFrame → Frame
  max_stream_data : MaxStreamDataFrame → Frame
  max_streams : MaxStreamsFrame → Frame
  data_blocked : DataBlockedFrame → Frame
  stream_data_blocked : StreamDataBlockedFrame → Frame
  streams_blocked : StreamsBlockedFrame → Frame
  new_connection_id : NewConnectionIdFrame → Frame
  retire_connection_id : RetireConnectionIdFrame → Frame
  path_challenge path_response : PathFrame → Frame
  connection_close : ConnectionCloseFrame → Frame
  repair : RepairFrame → Frame
  source_symbol : SourceSymbolFrame → Frame
  fec_window : FecWindowFrame → Frame
  datagram : DatagramFrame → Frame

-- internal/protocol/encryption_level.go. Another level panics.
pub data EncryptionLevel : Type 0 where
  initial handshake zero_rtt one_rtt : EncryptionLevel

pub record FrameParser : Type 0 where
  pub ack_delay_exponent : ℕ
  pub supports_datagrams : Bool
  pub ack_frame : AckFrame

unfoldable pub new_frame_parser : Bool → FrameParser
new_frame_parser supports_datagrams = record {
  ack_delay_exponent = 0;
  supports_datagrams = supports_datagrams;
  ack_frame = record { ack_ranges = []; delay_time = 0; ect0 = 0; ect1 = 0; ecnce = 0 };
}

unfoldable pub set_ack_delay_exponent : FrameParser → ℕ → FrameParser
set_ack_delay_exponent p exponent = record p { ack_delay_exponent = exponent }

-- A transport error with the code FRAME_ENCODING_ERROR, and with the type of the frame if it was read.
pub data TransportError : Type 0 where
  frame_encoding_error : Option ℕ → Error → TransportError

abbrev pub append_ping_frame : List ℕ → Result Error (List ℕ)
append_ping_frame b = ok (b ++ 0x1 ∷ [])

abbrev pub append_handshake_done_frame : List ℕ → Result Error (List ℕ)
append_handshake_done_frame b = ok (b ++ 0x1e ∷ [])

-- The method `Append` of each frame, and `Length`.
abbrev pub append_frame : List ℕ → Frame → Result Error (List ℕ)
append_frame b ping = append_ping_frame b
append_frame b handshake_done = append_handshake_done_frame b
append_frame b (ack f) = append_ack_frame b f
append_frame b (reset_stream f) = append_reset_stream_frame b f
append_frame b (stop_sending f) = append_stop_sending_frame b f
append_frame b (crypto f) = append_crypto_frame b f
append_frame b (new_token f) = append_new_token_frame b f
append_frame b (stream f) = append_stream_frame b f
append_frame b (max_data f) = append_max_data_frame b f
append_frame b (max_stream_data f) = append_max_stream_data_frame b f
append_frame b (max_streams f) = append_max_streams_frame b f
append_frame b (data_blocked f) = append_data_blocked_frame b f
append_frame b (stream_data_blocked f) = append_stream_data_blocked_frame b f
append_frame b (streams_blocked f) = append_streams_blocked_frame b f
append_frame b (new_connection_id f) = append_new_connection_id_frame b f
append_frame b (retire_connection_id f) = append_retire_connection_id_frame b f
append_frame b (path_challenge f) = append_path_challenge_frame b f
append_frame b (path_response f) = append_path_response_frame b f
append_frame b (connection_close f) = append_connection_close_frame b f
append_frame b (repair f) = append_repair_frame b f
append_frame b (source_symbol f) = append_source_symbol_frame b f
append_frame b (fec_window f) = append_fec_window_frame b f
append_frame b (datagram f) = append_datagram_frame b f

abbrev pub length_frame : Frame → Result Error ℕ
length_frame ping = ok 1
length_frame handshake_done = ok 1
length_frame (ack f) = length_ack_frame f
length_frame (reset_stream f) = length_reset_stream_frame f
length_frame (stop_sending f) = length_stop_sending_frame f
length_frame (crypto f) = length_crypto_frame f
length_frame (new_token f) = length_new_token_frame f
length_frame (stream f) = length_stream_frame f
length_frame (max_data f) = length_max_data_frame f
length_frame (max_stream_data f) = length_max_stream_data_frame f
length_frame (max_streams f) = length_max_streams_frame f
length_frame (data_blocked f) = length_data_blocked_frame f
length_frame (stream_data_blocked f) = length_stream_data_blocked_frame f
length_frame (streams_blocked f) = length_streams_blocked_frame f
length_frame (new_connection_id f) = length_new_connection_id_frame f
length_frame (retire_connection_id f) = length_retire_connection_id_frame f
length_frame (path_challenge f) = length_path_frame f
length_frame (path_response f) = length_path_frame f
length_frame (connection_close f) = length_connection_close_frame f
length_frame (repair f) = length_repair_frame f
length_frame (source_symbol f) = length_source_symbol_frame f
length_frame (fec_window f) = length_fec_window_frame f
length_frame (datagram f) = length_datagram_frame f

-- A frame as a value of the interface `Frame`.
abbrev pub framed : {F : Type 0} → (F → Frame) → Parsed F → Parsed Frame
framed c (ok (f, r)) = ok (c f, r)
framed c (err e) = err e

abbrev pub ack_exponent : FrameParser → EncryptionLevel → ℕ
ack_exponent p one_rtt = p.ack_delay_exponent
ack_exponent p level = 3

-- Types that are two names of one frame carry the name to its parser.
unfoldable pub parse_by_type : FrameParser → List ℕ → ℕ → EncryptionLevel → Parsed Frame
parse_by_type p r typ level =
    if bit_and typ 0xf8 == 0x8
    then framed stream (parse_stream_frame typ r)
    else if typ == 0x1
    then ok (ping, r)
    else if typ == 0x2 || typ == 0x3
    then framed ack (parse_ack_frame (reset_ack_frame p.ack_frame) r typ (ack_exponent p level))
    else if typ == 0x4
    then framed reset_stream (parse_reset_stream_frame r)
    else if typ == 0x5
    then framed stop_sending (parse_stop_sending_frame r)
    else if typ == 0x6
    then framed crypto (parse_crypto_frame r)
    else if typ == 0x7
    then framed new_token (parse_new_token_frame r)
    else if typ == 0x10
    then framed max_data (parse_max_data_frame r)
    else if typ == 0x11
    then framed max_stream_data (parse_max_stream_data_frame r)
    else if typ == 0x12 || typ == 0x13
    then framed max_streams (parse_max_streams_frame typ r)
    else if typ == 0x14
    then framed data_blocked (parse_data_blocked_frame r)
    else if typ == 0x15
    then framed stream_data_blocked (parse_stream_data_blocked_frame r)
    else if typ == 0x16 || typ == 0x17
    then framed streams_blocked (parse_streams_blocked_frame typ r)
    else if typ == 0x18
    then framed new_connection_id (parse_new_connection_id_frame r)
    else if typ == 0x19
    then framed retire_connection_id (parse_retire_connection_id_frame r)
    else if typ == 0x1a
    then framed path_challenge (parse_path_frame r)
    else if typ == 0x1b
    then framed path_response (parse_path_frame r)
    else if typ == 0x1c || typ == 0x1d
    then framed connection_close (parse_connection_close_frame typ r)
    else if typ == 0x1e
    then ok (handshake_done, r)
    else if typ == 0x32a80fec
    then framed repair (parse_repair_frame r)
    else if typ == 0x32a80fec55
    then framed source_symbol (parse_source_symbol_frame r)
    else if typ == 0x32a80fecc0
    then framed fec_window (parse_fec_window_frame r)
    else if (typ == 0x30 || typ == 0x31) && p.supports_datagrams
    then framed datagram (parse_datagram_frame typ r)
    else err unknown_frame_type

abbrev pub is_handshake_frame : Frame → Bool
is_handshake_frame (crypto f) = true
is_handshake_frame (ack f) = true
is_handshake_frame (connection_close f) = true
is_handshake_frame ping = true
is_handshake_frame f = false

abbrev pub is_allowed_in_zero_rtt : Frame → Bool
is_allowed_in_zero_rtt (crypto f) = false
is_allowed_in_zero_rtt (ack f) = false
is_allowed_in_zero_rtt (connection_close f) = false
is_allowed_in_zero_rtt (new_token f) = false
is_allowed_in_zero_rtt (path_response f) = false
is_allowed_in_zero_rtt (retire_connection_id f) = false
is_allowed_in_zero_rtt f = true

abbrev pub is_allowed_at_enc_level : Frame → EncryptionLevel → Bool
is_allowed_at_enc_level f initial = is_handshake_frame f
is_allowed_at_enc_level f handshake = is_handshake_frame f
is_allowed_at_enc_level f zero_rtt = is_allowed_in_zero_rtt f
is_allowed_at_enc_level f one_rtt = true

abbrev pub allowed : EncryptionLevel → Parsed Frame → Parsed Frame
allowed level (ok (f, r)) =
    if is_allowed_at_enc_level f level then ok (f, r) else err not_allowed_at_encryption_level
allowed level (err e) = err e

unfoldable pub parse_frame : FrameParser → List ℕ → ℕ → EncryptionLevel → Parsed Frame
unfolding parse_by_type
parse_frame p r typ level = allowed level (parse_by_type p r typ level)

-- No frame, or a frame, and the bytes behind.
abbrev pub Next : Type 0
Next = Result TransportError (Option Frame × List ℕ)

abbrev pub finished : ℕ → Parsed Frame → Next
finished typ (ok (f, r)) = ok (some f, r)
finished typ (err e) = err (frame_encoding_error (some typ) e)

-- A PADDING frame is skipped, and `continue` reads on behind it.
abbrev pub skip_padding : Bool → Next → List ℕ → (List ℕ → Next) → Next
skip_padding true frame r continue = continue r
skip_padding false frame r continue = frame

abbrev pub after_type : FrameParser → EncryptionLevel → (List ℕ → Next) → Parsed ℕ → Next
after_type p level continue (err e) = err (frame_encoding_error none e)
after_type p level continue (ok (typ, r)) =
    skip_padding (typ == 0x0) (finished typ (parse_frame p r typ level)) r continue

-- The loop has as many rounds as there are bytes.
unfoldable pub parse_loop : ℕ → FrameParser → EncryptionLevel → List ℕ → Next
parse_loop n p level [] = ok (none, [])
parse_loop zero p level (b ∷ r) = ok (none, b ∷ r)
parse_loop (suc n) p level (b ∷ r) = after_type p level (parse_loop n p level) (read_varint (b ∷ r))

unfoldable pub parse_next : FrameParser → List ℕ → EncryptionLevel → Next
parse_next p r level = parse_loop (length r) p level r

-- `ParseNext` answers how many bytes were read.
abbrev pub counted : List ℕ → Next → Result TransportError (ℕ × Option Frame)
counted r (ok (f, r')) = ok (length r - length r', f)
counted r (err e) = err e
