-- ===== src/Wire/Control.antt =====
-- internal/wire: the frames whose fields are numbers. `protocol.ByteCount`, `StreamID` and the like
-- are `int64`: a varint is below 2^62, so the conversions keep the number.
pub mod RoundTrip
pub mod Counts
use x_fec.Base.{ℕ, ◌+◌, ◌^◌, List, [], ◌∷◌, ◌++◌, Result, ok, err, ◌>>=◌, ltb, ◌==◌, if◌then◌else◌}
use x_fec.Wire.{Error, too_many_streams, Parsed, read_varint, append_varint, len_varint}

pub data StreamType : Type 0 where
  uni bidi : StreamType

abbrev pub max_stream_count : ℕ
max_stream_count = 2 ^ 60

pub record MaxDataFrame : Type 0 where
  pub maximum_data : ℕ

pub parse_max_data_frame : List ℕ → Parsed MaxDataFrame
parse_max_data_frame r = do (offset, r) ← read_varint r; ok (record { maximum_data = offset }, r)

pub append_max_data_frame : List ℕ → MaxDataFrame → Result Error (List ℕ)
append_max_data_frame b f = do b ← append_varint (b ++ 0x10 ∷ []) f.maximum_data; ok b

pub length_max_data_frame : MaxDataFrame → Result Error ℕ
length_max_data_frame f = do m ← len_varint f.maximum_data; ok (1 + m)

pub record DataBlockedFrame : Type 0 where
  pub maximum_data : ℕ

pub parse_data_blocked_frame : List ℕ → Parsed DataBlockedFrame
parse_data_blocked_frame r = do
  (offset, r) ← read_varint r
  ok (record { maximum_data = offset }, r)

pub append_data_blocked_frame : List ℕ → DataBlockedFrame → Result Error (List ℕ)
append_data_blocked_frame b f = do b ← append_varint (b ++ 0x14 ∷ []) f.maximum_data; ok b

pub length_data_blocked_frame : DataBlockedFrame → Result Error ℕ
length_data_blocked_frame f = do m ← len_varint f.maximum_data; ok (1 + m)

pub record MaxStreamDataFrame : Type 0 where
  pub stream_id : ℕ
  pub maximum_stream_data : ℕ

pub parse_max_stream_data_frame : List ℕ → Parsed MaxStreamDataFrame
parse_max_stream_data_frame r = do
  (sid, r) ← read_varint r
  (offset, r) ← read_varint r
  ok (record { stream_id = sid; maximum_stream_data = offset }, r)

pub append_max_stream_data_frame : List ℕ → MaxStreamDataFrame → Result Error (List ℕ)
append_max_stream_data_frame b f = do
  b ← append_varint (b ++ 0x11 ∷ []) f.stream_id
  b ← append_varint b f.maximum_stream_data
  ok b

pub length_max_stream_data_frame : MaxStreamDataFrame → Result Error ℕ
length_max_stream_data_frame f = do
  s ← len_varint f.stream_id
  m ← len_varint f.maximum_stream_data
  ok (1 + s + m)

pub record StreamDataBlockedFrame : Type 0 where
  pub stream_id : ℕ
  pub maximum_stream_data : ℕ

pub parse_stream_data_blocked_frame : List ℕ → Parsed StreamDataBlockedFrame
parse_stream_data_blocked_frame r = do
  (sid, r) ← read_varint r
  (offset, r) ← read_varint r
  ok (record { stream_id = sid; maximum_stream_data = offset }, r)

pub append_stream_data_blocked_frame : List ℕ → StreamDataBlockedFrame → Result Error (List ℕ)
append_stream_data_blocked_frame b f = do
  b ← append_varint (b ++ 0x15 ∷ []) f.stream_id
  b ← append_varint b f.maximum_stream_data
  ok b

pub length_stream_data_blocked_frame : StreamDataBlockedFrame → Result Error ℕ
length_stream_data_blocked_frame f = do
  s ← len_varint f.stream_id
  m ← len_varint f.maximum_stream_data
  ok (1 + s + m)

-- The type byte of the frame says which of the two stream types; any other leaves the zero value.
unfoldable pub max_streams_type : ℕ → StreamType
max_streams_type typ = if typ == 0x12 then bidi else uni

pub record MaxStreamsFrame : Type 0 where
  pub type : StreamType
  pub max_stream_num : ℕ

pub parse_max_streams_frame : ℕ → List ℕ → Parsed MaxStreamsFrame
parse_max_streams_frame typ r = do
  (n, r) ← read_varint r
  if ltb max_stream_count n
      then err (too_many_streams n)
      else ok (record { type = max_streams_type typ; max_stream_num = n }, r)

abbrev pub max_streams_byte : StreamType → ℕ
max_streams_byte bidi = 0x12
max_streams_byte uni = 0x13

pub append_max_streams_frame : List ℕ → MaxStreamsFrame → Result Error (List ℕ)
append_max_streams_frame b f = do
  b ← append_varint (b ++ max_streams_byte f.type ∷ []) f.max_stream_num
  ok b

pub length_max_streams_frame : MaxStreamsFrame → Result Error ℕ
length_max_streams_frame f = do n ← len_varint f.max_stream_num; ok (1 + n)

unfoldable pub streams_blocked_type : ℕ → StreamType
streams_blocked_type typ = if typ == 0x16 then bidi else uni

pub record StreamsBlockedFrame : Type 0 where
  pub type : StreamType
  pub stream_limit : ℕ

pub parse_streams_blocked_frame : ℕ → List ℕ → Parsed StreamsBlockedFrame
parse_streams_blocked_frame typ r = do
  (n, r) ← read_varint r
  if ltb max_stream_count n
      then err (too_many_streams n)
      else ok (record { type = streams_blocked_type typ; stream_limit = n }, r)

abbrev pub streams_blocked_byte : StreamType → ℕ
streams_blocked_byte bidi = 0x16
streams_blocked_byte uni = 0x17

pub append_streams_blocked_frame : List ℕ → StreamsBlockedFrame → Result Error (List ℕ)
append_streams_blocked_frame b f = do
  b ← append_varint (b ++ streams_blocked_byte f.type ∷ []) f.stream_limit
  ok b

pub length_streams_blocked_frame : StreamsBlockedFrame → Result Error ℕ
length_streams_blocked_frame f = do n ← len_varint f.stream_limit; ok (1 + n)

pub record StopSendingFrame : Type 0 where
  pub stream_id : ℕ
  pub error_code : ℕ

pub parse_stop_sending_frame : List ℕ → Parsed StopSendingFrame
parse_stop_sending_frame r = do
  (sid, r) ← read_varint r
  (code, r) ← read_varint r
  ok (record { stream_id = sid; error_code = code }, r)

pub append_stop_sending_frame : List ℕ → StopSendingFrame → Result Error (List ℕ)
append_stop_sending_frame b f = do
  b ← append_varint (b ++ 0x5 ∷ []) f.stream_id
  b ← append_varint b f.error_code
  ok b

pub length_stop_sending_frame : StopSendingFrame → Result Error ℕ
length_stop_sending_frame f = do
  s ← len_varint f.stream_id
  e ← len_varint f.error_code
  ok (1 + s + e)

pub record ResetStreamFrame : Type 0 where
  pub stream_id : ℕ
  pub error_code : ℕ
  pub final_size : ℕ

pub parse_reset_stream_frame : List ℕ → Parsed ResetStreamFrame
parse_reset_stream_frame r = do
  (sid, r) ← read_varint r
  (code, r) ← read_varint r
  (bo, r) ← read_varint r
  ok (record { stream_id = sid; error_code = code; final_size = bo }, r)

pub append_reset_stream_frame : List ℕ → ResetStreamFrame → Result Error (List ℕ)
append_reset_stream_frame b f = do
  b ← append_varint (b ++ 0x4 ∷ []) f.stream_id
  b ← append_varint b f.error_code
  b ← append_varint b f.final_size
  ok b

pub length_reset_stream_frame : ResetStreamFrame → Result Error ℕ
length_reset_stream_frame f = do
  s ← len_varint f.stream_id
  e ← len_varint f.error_code
  z ← len_varint f.final_size
  ok (1 + s + e + z)

pub record RetireConnectionIdFrame : Type 0 where
  pub sequence_number : ℕ

pub parse_retire_connection_id_frame : List ℕ → Parsed RetireConnectionIdFrame
parse_retire_connection_id_frame r = do
  (seq, r) ← read_varint r
  ok (record { sequence_number = seq }, r)

pub append_retire_connection_id_frame : List ℕ → RetireConnectionIdFrame → Result Error (List ℕ)
append_retire_connection_id_frame b f = do
  b ← append_varint (b ++ 0x19 ∷ []) f.sequence_number
  ok b

pub length_retire_connection_id_frame : RetireConnectionIdFrame → Result Error ℕ
length_retire_connection_id_frame f = do n ← len_varint f.sequence_number; ok (1 + n)
