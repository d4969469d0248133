-- ===== src/Wire/Stream.antt =====
-- internal/wire/stream_frame.go. Whether the data stands in a pooled buffer is not modelled; a pooled
-- buffer has room for 1452 bytes.
pub mod RoundTrip
pub mod Tests
pub mod Split
use x_fec.Base.{
  ℕ, ◌+◌, ◌-◌, ◌^◌, List, [], ◌∷◌, ◌++◌, Bool, true, false, Result, ok, err, ◌>>=◌, ltb, leb, ◌==◌,
  if◌then◌else◌, length, take, drop, not, bit_and, bit_xor, ◌&&◌, ◌||◌, Option, none, some,
}
use x_fec.Wire.{
  Error, eof, empty_stream_frame, offset_overflow, out_of_range, Parsed, read_varint, append_varint,
  len_varint, read_full,
}
use x_fec.Wire.Symbols.{max_packet_buffer_size}
use x_fec.Wire.Data.{fit_data}

abbrev pub min_stream_frame_buffer_size : ℕ
min_stream_frame_buffer_size = 128

abbrev pub max_byte_count : ℕ
max_byte_count = 4611686018427387903

pub record StreamFrame : Type 0 where
  pub stream_id : ℕ
  pub offset : ℕ
  pub contents : List ℕ
  pub fin : Bool
  pub data_len_present : Bool
  pub fec_protected : Bool

-- The flags of the frame type.
abbrev pub has_flag : ℕ → ℕ → Bool
has_flag typ bit = ltb 0 (bit_and typ bit)

unfoldable pub read_offset : Bool → List ℕ → Parsed ℕ
read_offset true r = read_varint r
read_offset false r = ok (0, r)

-- With no length the rest of the packet is data.
unfoldable pub read_data_len : Bool → List ℕ → Parsed ℕ
read_data_len true r = read_varint r
read_data_len false r = ok (length r, r)

-- The buffer, and the data that is read into it.
unfoldable pub read_data : ℕ → List ℕ → Parsed (List ℕ)
read_data n r =
    if not (ltb n min_stream_frame_buffer_size) && ltb max_packet_buffer_size n
    then err eof
    else if n == 0
    then ok ([], r)
    else read_full n r

unfoldable pub parse_stream_frame : ℕ → List ℕ → Parsed StreamFrame
parse_stream_frame typ r = do
  (stream_id, r) ← read_varint r
  (offset, r) ← read_offset (has_flag typ 0b100) r
  (n, r) ← read_data_len (has_flag typ 0b10) r
  (contents, r) ← read_data n r
  if ltb max_byte_count (offset + n)
      then err offset_overflow
      else ok (
        record {
          stream_id = stream_id;
          offset = offset;
          contents = contents;
          fin = has_flag typ 0b1;
          data_len_present = has_flag typ 0b10;
          fec_protected = false;
        },
        r,
      )

-- `typ ^= bit` if the flag is set.
abbrev pub flip_if : Bool → ℕ → ℕ → ℕ
flip_if flag bit typ = if flag then bit_xor typ bit else typ

abbrev pub stream_type_byte : StreamFrame → ℕ
stream_type_byte f =
    flip_if (not (f.offset == 0)) 0b100 (flip_if f.data_len_present 0b10 (flip_if f.fin 0b1 0x8))

abbrev pub append_if : Bool → List ℕ → ℕ → Result Error (List ℕ)
append_if true b i = append_varint b i
append_if false b i = ok b

unfoldable pub append_stream_frame : List ℕ → StreamFrame → Result Error (List ℕ)
append_stream_frame b f =
    if length f.contents == 0 && not f.fin
    then err empty_stream_frame
    else append_varint (b ++ stream_type_byte f ∷ []) f.stream_id >>= λ b1.
        append_if (not (f.offset == 0)) b1 f.offset >>= λ b2.
        append_if f.data_len_present b2 (length f.contents) >>= λ b3. ok (b3 ++ f.contents)

abbrev pub len_if : Bool → ℕ → Result Error ℕ
len_if true i = len_varint i
len_if false i = ok 0

unfoldable pub length_stream_frame : StreamFrame → Result Error ℕ
length_stream_frame f = do
  s ← len_varint f.stream_id
  o ← len_if (not (f.offset == 0)) f.offset
  n ← len_if f.data_len_present (length f.contents)
  ok (1 + s + o + n + length f.contents)

unfoldable pub max_data_len_stream : StreamFrame → ℕ → Result Error ℕ
max_data_len_stream f max_size = do
  s ← len_varint f.stream_id
  o ← len_if (not (f.offset == 0)) f.offset
  fit_data f.data_len_present (1 + s + o + (if f.data_len_present then 1 else 0)) max_size

-- The bytes that stay are copied into a pooled buffer.
unfoldable pub split_at : StreamFrame → ℕ → Result Error (Option StreamFrame × Bool × StreamFrame)
split_at f n =
    if ltb (length f.contents) n || ltb max_packet_buffer_size (length f.contents - n)
    then err out_of_range
    else ok (
      some (record {
        stream_id = f.stream_id;
        offset = f.offset;
        contents = take n f.contents;
        fin = false;
        data_len_present = f.data_len_present;
        fec_protected = false;
      }),
      true,
      record f { offset = f.offset + n; contents = drop n f.contents },
    )

-- The frame that was split off, whether splitting was required, and what is left in the frame.
unfoldable pub maybe_split_off_stream :
    StreamFrame → ℕ → Result Error (Option StreamFrame × Bool × StreamFrame)
maybe_split_off_stream f max_size = do
  l ← length_stream_frame f
  if leb l max_size then ok (none, false, f) else do
    n ← max_data_len_stream f max_size
    if n == 0 then ok (none, true, f) else split_at f n
