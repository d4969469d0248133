-- ===== src/Wire/Parser/Frames.antt =====
-- internal/wire/frame_parser.go: the frames, each written and read at the 1-RTT level.
use x_fec.Base.{ℕ, ◌+◌, ◌≤◌, ◌<◌, ◌^◌, ◌≡◌, refl, List, [], ◌∷◌, true, false, ◌⊎◌, length}
use x_fec.Varint.{max_var_int8}
use x_fec.Wire.Parser.{
  Frame, ping, handshake_done, ack, reset_stream, stop_sending, crypto, new_token, stream, max_data,
  max_stream_data, max_streams, data_blocked, stream_data_blocked, streams_blocked,
  new_connection_id, retire_connection_id, path_challenge, path_response, connection_close, repair,
  source_symbol, fec_window, datagram, FrameParser, parse_by_type,
}
use x_fec.Wire.Parser.RoundTrip.{Passes, passes, small_type}
use x_fec.Wire.Control
use x_fec.Wire.Control.{StreamType, uni, bidi, max_stream_count}
use x_fec.Wire.Control.RoundTrip as RtControl
use x_fec.Wire.Data
use x_fec.Wire.Data.RoundTrip as RtData
use x_fec.Wire.Stream.{max_byte_count}
use x_fec.Wire.Connection
use x_fec.Wire.Connection.{max_conn_id_len, connection_close_byte}
use x_fec.Wire.Connection.RoundTrip as RtConnection
use x_fec.Wire.Ack.RoundTrip as Ack
use x_fec.Wire.Symbols.{max_packet_buffer_size}

-- What a frame needs to be written and read: its numbers have varints, a frame with no length ends the
-- packet, and the like.
abbrev pub Valid : FrameParser → List ℕ → Frame → Type 0
Valid p rest (reset_stream f) =
    (f.stream_id ≤ max_var_int8) × (f.error_code ≤ max_var_int8) × (f.final_size ≤ max_var_int8)
Valid p rest (stop_sending f) = (f.stream_id ≤ max_var_int8) × (f.error_code ≤ max_var_int8)
Valid p rest (crypto f) = (f.offset ≤ max_var_int8) × (length f.contents ≤ max_var_int8)
Valid p rest (new_token f) = (1 ≤ length f.token) × (length f.token ≤ max_var_int8)
Valid p rest (max_data f) = f.maximum_data ≤ max_var_int8
Valid p rest (max_stream_data f) =
    (f.stream_id ≤ max_var_int8) × (f.maximum_stream_data ≤ max_var_int8)
Valid p rest (data_blocked f) = f.maximum_data ≤ max_var_int8
Valid p rest (stream_data_blocked f) =
    (f.stream_id ≤ max_var_int8) × (f.maximum_stream_data ≤ max_var_int8)
Valid p rest (new_connection_id f) =
    (f.sequence_number ≤ max_var_int8)
    × (f.retire_prior_to ≤ f.sequence_number)
    × (1 ≤ length f.connection_id)
    × (length f.connection_id ≤ max_conn_id_len)
    × (length f.stateless_reset_token ≡ 16)
Valid p rest (retire_connection_id f) = f.sequence_number ≤ max_var_int8
Valid p rest ping = Unit
Valid p rest handshake_done = Unit
Valid p rest (ack f) = Ack.IsValid f × (p.ack_delay_exponent ≡ 3)
Valid p rest (max_streams f) = f.max_stream_num ≤ max_stream_count
Valid p rest (streams_blocked f) = f.stream_limit ≤ max_stream_count
Valid p rest (path_challenge f) = length f.contents ≡ 8
Valid p rest (path_response f) = length f.contents ≡ 8
Valid p rest (connection_close f) =
    (f.error_code ≤ max_var_int8)
    × (f.frame_type ≤ max_var_int8)
    × (length f.reason_phrase ≤ max_var_int8)
    × ((f.is_application_error ≡ false) ⊎ (f.frame_type ≡ 0))
Valid p rest (stream f) =
    (f.stream_id ≤ max_var_int8)
    × (f.offset + length f.contents ≤ max_byte_count)
    × (length f.contents ≤ max_packet_buffer_size)
    × ((f.fin ≡ true) ⊎ (1 ≤ length f.contents))
    × ((f.data_len_present ≡ true) ⊎ (rest ≡ []))
    × (f.fec_protected ≡ false)
Valid p rest (repair f) =
    (f.metadata.block_id ≤ max_var_int8)
    × (f.metadata.parity_id ≤ max_var_int8)
    × (length f.payload ≤ max_var_int8)
Valid p rest (source_symbol f) =
    (f.ssid ≤ max_var_int8) × (length f.payload.bytes ≤ max_packet_buffer_size)
Valid p rest (fec_window f) = (f.epoch < 2 ^ 16) × (f.size < 2 ^ 32)
Valid p rest (datagram f) =
    (length f.contents ≤ max_var_int8)
    × ((f.data_len_present ≡ true) ⊎ (rest ≡ []))
    × (f.fec_protected ≡ false)
    × (p.supports_datagrams ≡ true)

pub reset_stream-Passes :
    (p : FrameParser) (b rest : List ℕ) (f : Control.ResetStreamFrame)
    → Valid p rest (reset_stream f)
    → Passes p b rest (reset_stream f) (reset_stream f)
unfolding parse_by_type
reset_stream-Passes p b rest f h =
    passes p reset_stream (0x4 ∷ []) 0x4 Control.append_reset_stream_frame
      Control.length_reset_stream_frame Control.parse_reset_stream_frame f b rest
      (λ r. small_type 0x4 r refl) refl (λ r. refl) refl refl
      (RtControl.reset_stream_frame-RoundTrips b rest f (h.0) (h.1) (h.2))

pub stop_sending-Passes :
    (p : FrameParser) (b rest : List ℕ) (f : Control.StopSendingFrame)
    → Valid p rest (stop_sending f)
    → Passes p b rest (stop_sending f) (stop_sending f)
unfolding parse_by_type
stop_sending-Passes p b rest f h =
    passes p stop_sending (0x5 ∷ []) 0x5 Control.append_stop_sending_frame
      Control.length_stop_sending_frame Control.parse_stop_sending_frame f b rest
      (λ r. small_type 0x5 r refl) refl (λ r. refl) refl refl
      (RtControl.stop_sending_frame-RoundTrips b rest f (h.0) (h.1))

pub crypto-Passes :
    (p : FrameParser) (b rest : List ℕ) (f : Data.CryptoFrame)
    → Valid p rest (crypto f)
    → Passes p b rest (crypto f) (crypto f)
unfolding parse_by_type
crypto-Passes p b rest f h =
    passes p crypto (0x6 ∷ []) 0x6 Data.append_crypto_frame Data.length_crypto_frame
      Data.parse_crypto_frame f b rest (λ r. small_type 0x6 r refl) refl (λ r. refl) refl refl
      (RtData.crypto_frame-RoundTrips b rest f (h.0) (h.1))

pub new_token-Passes :
    (p : FrameParser) (b rest : List ℕ) (f : Data.NewTokenFrame)
    → Valid p rest (new_token f)
    → Passes p b rest (new_token f) (new_token f)
unfolding parse_by_type
new_token-Passes p b rest f h =
    passes p new_token (0x7 ∷ []) 0x7 Data.append_new_token_frame Data.length_new_token_frame
      Data.parse_new_token_frame f b rest (λ r. small_type 0x7 r refl) refl (λ r. refl) refl refl
      (RtData.new_token_frame-RoundTrips b rest f (h.0) (h.1))

pub max_data-Passes :
    (p : FrameParser) (b rest : List ℕ) (f : Control.MaxDataFrame)
    → Valid p rest (max_data f)
    → Passes p b rest (max_data f) (max_data f)
unfolding parse_by_type
max_data-Passes p b rest f h =
    passes p max_data (0x10 ∷ []) 0x10 Control.append_max_data_frame Control.length_max_data_frame
      Control.parse_max_data_frame f b rest (λ r. small_type 0x10 r refl) refl (λ r. refl) refl refl
      (RtControl.max_data_frame-RoundTrips b rest f h)

pub max_stream_data-Passes :
    (p : FrameParser) (b rest : List ℕ) (f : Control.MaxStreamDataFrame)
    → Valid p rest (max_stream_data f)
    → Passes p b rest (max_stream_data f) (max_stream_data f)
unfolding parse_by_type
max_stream_data-Passes p b rest f h =
    passes p max_stream_data (0x11 ∷ []) 0x11 Control.append_max_stream_data_frame
      Control.length_max_stream_data_frame Control.parse_max_stream_data_frame f b rest
      (λ r. small_type 0x11 r refl) refl (λ r. refl) refl refl
      (RtControl.max_stream_data_frame-RoundTrips b rest f (h.0) (h.1))

pub data_blocked-Passes :
    (p : FrameParser) (b rest : List ℕ) (f : Control.DataBlockedFrame)
    → Valid p rest (data_blocked f)
    → Passes p b rest (data_blocked f) (data_blocked f)
unfolding parse_by_type
data_blocked-Passes p b rest f h =
    passes p data_blocked (0x14 ∷ []) 0x14 Control.append_data_blocked_frame
      Control.length_data_blocked_frame Control.parse_data_blocked_frame f b rest
      (λ r. small_type 0x14 r refl) refl (λ r. refl) refl refl
      (RtControl.data_blocked_frame-RoundTrips b rest f h)

pub stream_data_blocked-Passes :
    (p : FrameParser) (b rest : List ℕ) (f : Control.StreamDataBlockedFrame)
    → Valid p rest (stream_data_blocked f)
    → Passes p b rest (stream_data_blocked f) (stream_data_blocked f)
unfolding parse_by_type
stream_data_blocked-Passes p b rest f h =
    passes p stream_data_blocked (0x15 ∷ []) 0x15 Control.append_stream_data_blocked_frame
      Control.length_stream_data_blocked_frame Control.parse_stream_data_blocked_frame f b rest
      (λ r. small_type 0x15 r refl) refl (λ r. refl) refl refl
      (RtControl.stream_data_blocked_frame-RoundTrips b rest f (h.0) (h.1))

pub new_connection_id-Passes :
    (p : FrameParser) (b rest : List ℕ) (f : Connection.NewConnectionIdFrame)
    → Valid p rest (new_connection_id f)
    → Passes p b rest (new_connection_id f) (new_connection_id f)
unfolding parse_by_type
new_connection_id-Passes p b rest f h =
    passes p new_connection_id (0x18 ∷ []) 0x18 Connection.append_new_connection_id_frame
      Connection.length_new_connection_id_frame Connection.parse_new_connection_id_frame f b rest
      (λ r. small_type 0x18 r refl) refl (λ r. refl) refl refl
      (RtConnection.new_connection_id_frame-RoundTrips b rest f (h.0) (h.1) (h.2) (h.3) (h.4))

pub retire_connection_id-Passes :
    (p : FrameParser) (b rest : List ℕ) (f : Control.RetireConnectionIdFrame)
    → Valid p rest (retire_connection_id f)
    → Passes p b rest (retire_connection_id f) (retire_connection_id f)
unfolding parse_by_type
retire_connection_id-Passes p b rest f h =
    passes p retire_connection_id (0x19 ∷ []) 0x19 Control.append_retire_connection_id_frame
      Control.length_retire_connection_id_frame Control.parse_retire_connection_id_frame f b rest
      (λ r. small_type 0x19 r refl) refl (λ r. refl) refl refl
      (RtControl.retire_connection_id_frame-RoundTrips b rest f h)
