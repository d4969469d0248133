-- ===== src/Wire.antt =====
-- internal/wire: the parts that the frames share. A `bytes.Reader` is the list of the bytes that are
-- left, and a parser returns what it read with the bytes after it.
pub mod Codec
pub mod Symbols
pub mod Control
pub mod Data
pub mod Stream
pub mod Connection
pub mod Ack
pub mod Parser
use x_fec.Base.{
  ℕ, ◌-◌, List, [], ◌++◌, Result, ok, err, ◌>>=◌, leb, ltb, ◌==◌, if◌then◌else◌, length, take, drop,
}
use x_fec.Varint
use x_fec.Varint.{too_large}

pub data Error : Type 0 where
  varint : Varint.Error → Error
  unexpected_eof make_panic : Error
  too_many_streams : ℕ → Error
  empty_token empty_stream_frame offset_overflow : Error
  retire_above_sequence : ℕ → ℕ → Error
  no_connection_id : Error
  invalid_first_ack_range invalid_ack_ranges : Error
  unknown_frame_type not_allowed_at_encryption_level : Error
  connection_id_length : ℕ → Error
  -- A slice bound out of range, which panics.
  out_of_range : Error

-- io.EOF, which the varint reader returns too.
abbrev pub eof : Error
eof = varint Varint.eof

abbrev pub Parsed : Type 0 → Type 0
Parsed A = Result Error (A × List ℕ)

-- A slice: its elements, and those of the array behind it up to the capacity.
pub record Slice : Type 0 where
  pub bytes : List ℕ
  pub spare : List ℕ

abbrev pub lift {ℓ} : {A : Type ℓ} → Result Varint.Error A → Result Error A
lift (ok a) = ok a
lift (err e) = err (varint e)

abbrev pub read_varint : List ℕ → Parsed ℕ
read_varint r = lift (Varint.read r)

abbrev pub append_varint : List ℕ → ℕ → Result Error (List ℕ)
append_varint b i = lift (Varint.append b i)

abbrev pub len_varint : ℕ → Result Error ℕ
len_varint i = lift (Varint.len i)

-- `io.ReadFull` into a buffer of `n` bytes.
unfoldable pub read_full : ℕ → List ℕ → Parsed (List ℕ)
read_full n r =
    if leb n (length r)
    then ok (take n r, drop n r)
    else if length r == 0
    then err eof
    else err unexpected_eof

-- The payload of a frame after its length `n`: it must be there, and no read is made for none.
unfoldable pub read_payload : ℕ → List ℕ → Parsed (List ℕ)
unfolding read_full
read_payload n r =
    if ltb (length r) n then err eof else if n == 0 then ok ([], r) else read_full n r
