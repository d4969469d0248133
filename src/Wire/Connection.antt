-- ===== src/Wire/Connection.antt =====
-- internal/wire: the NEW_CONNECTION_ID and CONNECTION_CLOSE frames.
pub mod RoundTrip
use x_fec.Base.{
  ℕ, ◌+◌, List, [], ◌∷◌, ◌++◌, Bool, true, false, Result, ok, err, ◌>>=◌, ltb, ◌==◌, if◌then◌else◌,
  length, not,
}
use x_fec.Wire.{
  Error, eof, Parsed, read_varint, append_varint, len_varint, read_full, unexpected_eof,
  retire_above_sequence, no_connection_id, connection_id_length,
}
use x_fec.Wire.Stream.{append_if, len_if}

abbrev pub max_conn_id_len : ℕ
max_conn_id_len = 20

pub record NewConnectionIdFrame : Type 0 where
  pub sequence_number : ℕ
  pub retire_prior_to : ℕ
  pub connection_id : List ℕ
  pub stateless_reset_token : List ℕ

-- `io.ReadFull` where an input that ends early is `io.EOF` however many bytes there were.
unfoldable pub read_exactly : ℕ → List ℕ → Parsed (List ℕ)
read_exactly n r = elim (read_full n r) [
  | ok a ↦ ok a
  | err unexpected_eof ↦ err eof
  | err e ↦ err e
]

unfoldable pub read_connection_id : ℕ → List ℕ → Parsed (List ℕ)
read_connection_id n r =
    if n == 0
    then ok ([], r)
    else if ltb max_conn_id_len n
    then err (connection_id_length n)
    else read_exactly n r

-- `r.ReadByte()`
unfoldable pub read_length_byte : List ℕ → Parsed ℕ
read_length_byte [] = err eof
read_length_byte (x ∷ r) = ok (x, r)

-- The connection ID behind its length, which is not zero.
unfoldable pub read_sized_connection_id : List ℕ → Parsed (List ℕ)
read_sized_connection_id r = do
  (n, r) ← read_length_byte r
  if n == 0 then err no_connection_id else read_connection_id n r

unfoldable pub parse_new_connection_id_frame : List ℕ → Parsed NewConnectionIdFrame
parse_new_connection_id_frame r = do
  (seq, r) ← read_varint r
  (ret, r) ← read_varint r
  if ltb seq ret then err (retire_above_sequence ret seq) else do
    (connection_id, r) ← read_sized_connection_id r
    (token, r) ← read_exactly 16 r
    ok (
      record {
        sequence_number = seq;
        retire_prior_to = ret;
        connection_id = connection_id;
        stateless_reset_token = token;
      },
      r,
    )

unfoldable pub append_new_connection_id_frame :
    List ℕ → NewConnectionIdFrame → Result Error (List ℕ)
append_new_connection_id_frame b f = do
  b ← append_varint (b ++ 0x18 ∷ []) f.sequence_number
  b ← append_varint b f.retire_prior_to
  if ltb max_conn_id_len (length f.connection_id)
      then err (connection_id_length (length f.connection_id))
      else ok (((b ++ length f.connection_id ∷ []) ++ f.connection_id) ++ f.stateless_reset_token)

unfoldable pub length_new_connection_id_frame : NewConnectionIdFrame → Result Error ℕ
length_new_connection_id_frame f = do
  s ← len_varint f.sequence_number
  p ← len_varint f.retire_prior_to
  ok (1 + s + p + 1 + length f.connection_id + 16)

pub record ConnectionCloseFrame : Type 0 where
  pub is_application_error : Bool
  pub error_code : ℕ
  pub frame_type : ℕ
  pub reason_phrase : List ℕ

-- The frame type stands in the frame if the error is not the application's.
unfoldable pub read_frame_type : Bool → List ℕ → Parsed ℕ
read_frame_type true r = ok (0, r)
read_frame_type false r = read_varint r

unfoldable pub read_reason : ℕ → List ℕ → Parsed (List ℕ)
read_reason n r = if ltb (length r) n then err eof else read_full n r

unfoldable pub parse_connection_close_frame : ℕ → List ℕ → Parsed ConnectionCloseFrame
parse_connection_close_frame typ r = do
  (error_code, r) ← read_varint r
  (frame_type, r) ← read_frame_type (typ == 0x1d) r
  (n, r) ← read_varint r
  (reason, r) ← read_reason n r
  ok (
    record {
      is_application_error = typ == 0x1d;
      error_code = error_code;
      frame_type = frame_type;
      reason_phrase = reason;
    },
    r,
  )

unfoldable pub length_connection_close_frame : ConnectionCloseFrame → Result Error ℕ
length_connection_close_frame f = do
  c ← len_varint f.error_code
  n ← len_varint (length f.reason_phrase)
  t ← len_if (not f.is_application_error) f.frame_type
  ok (1 + c + n + length f.reason_phrase + t)

abbrev pub connection_close_byte : Bool → ℕ
connection_close_byte true = 0x1d
connection_close_byte false = 0x1c

unfoldable pub append_connection_close_frame : List ℕ → ConnectionCloseFrame → Result Error (List ℕ)
append_connection_close_frame b f = do
  b ← append_varint (b ++ connection_close_byte f.is_application_error ∷ []) f.error_code
  b ← append_if (not f.is_application_error) b f.frame_type
  b ← append_varint b (length f.reason_phrase)
  ok (b ++ f.reason_phrase)
