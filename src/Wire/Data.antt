-- ===== src/Wire/Data.antt =====
-- internal/wire: the frames that carry bytes, without STREAM.
pub mod Fit
pub mod RoundTrip
pub mod Split
pub mod Tests
use x_fec.Base.{
  ℕ, ◌+◌, ◌-◌, List, [], ◌∷◌, ◌++◌, Bool, true, false, Result, ok, err, ◌>>=◌, ltb, leb, ◌==◌,
  if◌then◌else◌, length, take, drop, not, bit_and, bit_xor, ◌&&◌, Option, none, some,
}
use x_fec.Wire.{
  Error, eof, empty_token, Parsed, read_varint, append_varint, len_varint, read_full, read_payload,
  varint, unexpected_eof, out_of_range,
}

pub record CryptoFrame : Type 0 where
  pub offset : ℕ
  pub contents : List ℕ

pub parse_crypto_frame : List ℕ → Parsed CryptoFrame
parse_crypto_frame r = do
  (offset, r) ← read_varint r
  (n, r) ← read_varint r
  (contents, r) ← read_payload n r
  ok (record { offset = offset; contents = contents }, r)

pub append_crypto_frame : List ℕ → CryptoFrame → Result Error (List ℕ)
append_crypto_frame b f = do
  b ← append_varint (b ++ 0x6 ∷ []) f.offset
  b ← append_varint b (length f.contents)
  ok (b ++ f.contents)

unfoldable pub length_crypto_frame : CryptoFrame → Result Error ℕ
length_crypto_frame f = do
  o ← len_varint f.offset
  n ← len_varint (length f.contents)
  ok (1 + o + n + length f.contents)

-- The end of each `MaxDataLen`: `header` bytes, one of them for the length. If the length takes two
-- bytes, the data has one byte less.
unfoldable pub fit_data : Bool → ℕ → ℕ → Result Error ℕ
fit_data with_length header max_size =
    if ltb max_size header
    then ok 0
    else if with_length
    then (len_varint (max_size - header) >>= λ l.
        ok (if l == 1 then max_size - header else max_size - header - 1))
    else ok (max_size - header)

unfoldable pub max_data_len_crypto : CryptoFrame → ℕ → Result Error ℕ
max_data_len_crypto f max_size = do o ← len_varint f.offset; fit_data true (1 + o + 1) max_size

-- The frame that was split off, whether splitting was required, and what is left in the frame.
unfoldable pub maybe_split_off_crypto :
    CryptoFrame → ℕ → Result Error (Option CryptoFrame × Bool × CryptoFrame)
maybe_split_off_crypto f max_size = do
  l ← length_crypto_frame f
  if leb l max_size then ok (none, false, f) else do
    n ← max_data_len_crypto f max_size
    if n == 0
        then ok (none, true, f)
        else if ltb (length f.contents) n
        then err out_of_range
        else ok (
          some (record { offset = f.offset; contents = take n f.contents }),
          true,
          record { offset = f.offset + n; contents = drop n f.contents },
        )

pub record NewTokenFrame : Type 0 where
  pub token : List ℕ

pub parse_new_token_frame : List ℕ → Parsed NewTokenFrame
parse_new_token_frame r = do
  (n, r) ← read_varint r
  if ltb (length r) n
      then err eof
      else if n == 0
      then err empty_token
      else read_full n r >>= λ (token, r'). ok (record { token = token }, r')

pub append_new_token_frame : List ℕ → NewTokenFrame → Result Error (List ℕ)
append_new_token_frame b f = do
  b ← append_varint (b ++ 0x7 ∷ []) (length f.token)
  ok (b ++ f.token)

pub length_new_token_frame : NewTokenFrame → Result Error ℕ
length_new_token_frame f = do n ← len_varint (length f.token); ok (1 + n + length f.token)

-- PATH_CHALLENGE and PATH_RESPONSE: eight bytes.
pub record PathFrame : Type 0 where
  pub contents : List ℕ

-- An input that ends early is `io.EOF` however many bytes there were.
pub parse_path_frame : List ℕ → Parsed PathFrame
parse_path_frame r = elim (read_full 8 r) [
  | err unexpected_eof ↦ err eof
  | err e ↦ err e
  | ok (p, r') ↦ ok (record { contents = p }, r')
]

pub append_path_challenge_frame : List ℕ → PathFrame → Result Error (List ℕ)
append_path_challenge_frame b f = ok ((b ++ 0x1a ∷ []) ++ f.contents)

pub append_path_response_frame : List ℕ → PathFrame → Result Error (List ℕ)
append_path_response_frame b f = ok ((b ++ 0x1b ∷ []) ++ f.contents)

pub length_path_frame : PathFrame → Result Error ℕ
length_path_frame f = ok (1 + 8)

pub record DatagramFrame : Type 0 where
  pub data_len_present : Bool
  pub contents : List ℕ
  pub fec_protected : Bool

unfoldable pub datagram_payload : Bool → List ℕ → Parsed (List ℕ)
datagram_payload true r = do
  (n, r) ← read_varint r
  if ltb (length r) n then err eof else read_full n r
datagram_payload false r = read_full (length r) r

unfoldable pub datagram_type_has_length : ℕ → Bool
datagram_type_has_length typ = ltb 0 (bit_and typ 0x1)

unfoldable pub parse_datagram_frame : ℕ → List ℕ → Parsed DatagramFrame
parse_datagram_frame typ r = do
  (contents, r) ← datagram_payload (datagram_type_has_length typ) r
  ok (
    record {
      data_len_present = datagram_type_has_length typ;
      contents = contents;
      fec_protected = false;
    },
    r,
  )

abbrev pub datagram_byte : Bool → ℕ
datagram_byte true = bit_xor 0x30 0b1
datagram_byte false = 0x30

-- The length stands before the data if it is present.
unfoldable pub append_datagram_frame : List ℕ → DatagramFrame → Result Error (List ℕ)
append_datagram_frame b f =
    let typed = b ++ datagram_byte f.data_len_present ∷ [] in
    if f.data_len_present
    then (append_varint typed (length f.contents) >>= λ written. ok (written ++ f.contents))
    else ok (typed ++ f.contents)

unfoldable pub max_data_len_datagram : DatagramFrame → ℕ → Result Error ℕ
max_data_len_datagram f max_size =
    fit_data f.data_len_present (if f.data_len_present then 2 else 1) max_size

unfoldable pub length_datagram_frame : DatagramFrame → Result Error ℕ
length_datagram_frame f =
    if f.data_len_present
    then (len_varint (length f.contents) >>= λ n. ok (1 + length f.contents + n))
    else ok (1 + length f.contents)
