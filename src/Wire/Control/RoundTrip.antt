-- ===== src/Wire/Control/RoundTrip.antt =====
-- internal/wire: parsing of the frames of numbers against their Append and Length.
use x_fec.Base.{ℕ, ◌≤◌, List, [], ◌∷◌, arith, length-append}
use x_fec.Varint.{max_var_int8}
use x_fec.Wire.Codec.{
  read_varint-encoding, len_varint-encoding, RoundTrips, encodings, append_all_typed,
}
use x_fec.Wire.Control.{
  MaxDataFrame, parse_max_data_frame, append_max_data_frame, length_max_data_frame,
  DataBlockedFrame, parse_data_blocked_frame, append_data_blocked_frame, length_data_blocked_frame,
  MaxStreamDataFrame, parse_max_stream_data_frame, append_max_stream_data_frame,
  length_max_stream_data_frame, StreamDataBlockedFrame, parse_stream_data_blocked_frame,
  append_stream_data_blocked_frame, length_stream_data_blocked_frame, StopSendingFrame,
  parse_stop_sending_frame, append_stop_sending_frame, length_stop_sending_frame, ResetStreamFrame,
  parse_reset_stream_frame, append_reset_stream_frame, length_reset_stream_frame,
  RetireConnectionIdFrame, parse_retire_connection_id_frame, append_retire_connection_id_frame,
  length_retire_connection_id_frame,
}
use mathlib.Core.List.{append_assoc}

-- A MAX_DATA frame whose number a varint can hold is read back as it was written, and its length is
-- the number of bytes written.
pub max_data_frame-RoundTrips :
    (b rest : List ℕ) (f : MaxDataFrame)
    → f.maximum_data ≤ max_var_int8
    → RoundTrips
        (0x10 ∷ [])
        append_max_data_frame
        length_max_data_frame
        parse_max_data_frame
        f
        b
        rest
unfolding append_max_data_frame length_max_data_frame parse_max_data_frame
max_data_frame-RoundTrips b rest f h0 = (
  encodings (f.maximum_data ∷ []),
  append_all_typed b 0x10 (f.maximum_data ∷ []) (h0, tt),
  simp (len_varint-encoding f.maximum_data h0, length-append) (ground arith),
  simp (append_assoc, read_varint-encoding f.maximum_data _ h0),
)

-- A DATA_BLOCKED frame whose number a varint can hold is read back as it was written, and its length is
-- the number of bytes written.
pub data_blocked_frame-RoundTrips :
    (b rest : List ℕ) (f : DataBlockedFrame)
    → f.maximum_data ≤ max_var_int8
    → RoundTrips
        (0x14 ∷ [])
        append_data_blocked_frame
        length_data_blocked_frame
        parse_data_blocked_frame
        f
        b
        rest
unfolding append_data_blocked_frame length_data_blocked_frame parse_data_blocked_frame
data_blocked_frame-RoundTrips b rest f h0 = (
  encodings (f.maximum_data ∷ []),
  append_all_typed b 0x14 (f.maximum_data ∷ []) (h0, tt),
  simp (len_varint-encoding f.maximum_data h0, length-append) (ground arith),
  simp (append_assoc, read_varint-encoding f.maximum_data _ h0),
)

-- A MAX_STREAM_DATA frame whose numbers a varint can hold is read back as it was written, and its length is
-- the number of bytes written.
pub max_stream_data_frame-RoundTrips :
    (b rest : List ℕ) (f : MaxStreamDataFrame)
    → f.stream_id ≤ max_var_int8
    → f.maximum_stream_data ≤ max_var_int8
    → RoundTrips
        (0x11 ∷ [])
        append_max_stream_data_frame
        length_max_stream_data_frame
        parse_max_stream_data_frame
        f
        b
        rest
unfolding append_max_stream_data_frame length_max_stream_data_frame parse_max_stream_data_frame
max_stream_data_frame-RoundTrips b rest f h0 h1 = (
  encodings (f.stream_id ∷ f.maximum_stream_data ∷ []),
  append_all_typed b 0x11 (f.stream_id ∷ f.maximum_stream_data ∷ []) (h0, (h1, tt)),
  simp
      (
        len_varint-encoding f.stream_id h0,
        len_varint-encoding f.maximum_stream_data h1,
        length-append,
      )
      (ground arith),
  simp (
    append_assoc,
    read_varint-encoding f.stream_id _ h0,
    read_varint-encoding f.maximum_stream_data _ h1,
  ),
)

-- A STREAM_DATA_BLOCKED frame whose numbers a varint can hold is read back as it was written, and its length is
-- the number of bytes written.
pub stream_data_blocked_frame-RoundTrips :
    (b rest : List ℕ) (f : StreamDataBlockedFrame)
    → f.stream_id ≤ max_var_int8
    → f.maximum_stream_data ≤ max_var_int8
    → RoundTrips
        (0x15 ∷ [])
        append_stream_data_blocked_frame
        length_stream_data_blocked_frame
        parse_stream_data_blocked_frame
        f
        b
        rest
unfolding append_stream_data_blocked_frame length_stream_data_blocked_frame
    parse_stream_data_blocked_frame
stream_data_blocked_frame-RoundTrips b rest f h0 h1 = (
  encodings (f.stream_id ∷ f.maximum_stream_data ∷ []),
  append_all_typed b 0x15 (f.stream_id ∷ f.maximum_stream_data ∷ []) (h0, (h1, tt)),
  simp
      (
        len_varint-encoding f.stream_id h0,
        len_varint-encoding f.maximum_stream_data h1,
        length-append,
      )
      (ground arith),
  simp (
    append_assoc,
    read_varint-encoding f.stream_id _ h0,
    read_varint-encoding f.maximum_stream_data _ h1,
  ),
)

-- A STOP_SENDING frame whose numbers a varint can hold is read back as it was written, and its length is
-- the number of bytes written.
pub stop_sending_frame-RoundTrips :
    (b rest : List ℕ) (f : StopSendingFrame)
    → f.stream_id ≤ max_var_int8
    → f.error_code ≤ max_var_int8
    → RoundTrips
        (0x5 ∷ [])
        append_stop_sending_frame
        length_stop_sending_frame
        parse_stop_sending_frame
        f
        b
        rest
unfolding append_stop_sending_frame length_stop_sending_frame parse_stop_sending_frame
stop_sending_frame-RoundTrips b rest f h0 h1 = (
  encodings (f.stream_id ∷ f.error_code ∷ []),
  append_all_typed b 0x5 (f.stream_id ∷ f.error_code ∷ []) (h0, (h1, tt)),
  simp (len_varint-encoding f.stream_id h0, len_varint-encoding f.error_code h1, length-append)
      (ground arith),
  simp
      (append_assoc, read_varint-encoding f.stream_id _ h0, read_varint-encoding f.error_code _ h1),
)

-- A RESET_STREAM frame whose numbers a varint can hold is read back as it was written, and its length is
-- the number of bytes written.
pub reset_stream_frame-RoundTrips :
    (b rest : List ℕ) (f : ResetStreamFrame)
    → f.stream_id ≤ max_var_int8
    → f.error_code ≤ max_var_int8
    → f.final_size ≤ max_var_int8
    → RoundTrips
        (0x4 ∷ [])
        append_reset_stream_frame
        length_reset_stream_frame
        parse_reset_stream_frame
        f
        b
        rest
unfolding append_reset_stream_frame length_reset_stream_frame parse_reset_stream_frame
reset_stream_frame-RoundTrips b rest f h0 h1 h2 = (
  encodings (f.stream_id ∷ f.error_code ∷ f.final_size ∷ []),
  append_all_typed b 0x4 (f.stream_id ∷ f.error_code ∷ f.final_size ∷ []) (h0, (h1, (h2, tt))),
  simp
      (
        len_varint-encoding f.stream_id h0,
        len_varint-encoding f.error_code h1,
        len_varint-encoding f.final_size h2,
        length-append,
      )
      (ground arith),
  simp (
    append_assoc,
    read_varint-encoding f.stream_id _ h0,
    read_varint-encoding f.error_code _ h1,
    read_varint-encoding f.final_size _ h2,
  ),
)

-- A RETIRE_CONNECTION_ID frame whose number a varint can hold is read back as it was written, and its length is
-- the number of bytes written.
pub retire_connection_id_frame-RoundTrips :
    (b rest : List ℕ) (f : RetireConnectionIdFrame)
    → f.sequence_number ≤ max_var_int8
    → RoundTrips
        (0x19 ∷ [])
        append_retire_connection_id_frame
        length_retire_connection_id_frame
        parse_retire_connection_id_frame
        f
        b
        rest
unfolding append_retire_connection_id_frame length_retire_connection_id_frame
    parse_retire_connection_id_frame
retire_connection_id_frame-RoundTrips b rest f h0 = (
  encodings (f.sequence_number ∷ []),
  append_all_typed b 0x19 (f.sequence_number ∷ []) (h0, tt),
  simp (len_varint-encoding f.sequence_number h0, length-append) (ground arith),
  simp (append_assoc, read_varint-encoding f.sequence_number _ h0),
)
