-- ===== src/Varint.antt =====
-- quicvarint/varint.go: variable-length integers of 1, 2, 4 or 8 bytes. A byte slice is a list of
-- numbers, an `io.ByteReader` the list of the bytes that are left, and a panic an error.
pub mod Codec
pub mod Padded
mod Tests
use x_fec.Base.{
  ℕ, zero, suc, ◌+◌, ◌-◌, ◌*◌, ◌/◌, ◌%◌, ◌^◌, ◌<◌, bit_and, bit_or, List, [], ◌∷◌, ◌++◌, ◌&&◌, not,
  Result, ok, err, ◌>>=◌, leb, ltb, ◌==◌, if◌then◌else◌, replicate,
}

pub data Error : Type 0 where
  eof : Error
  too_large invalid_length cannot_encode : Error

abbrev pub max_var_int1 : ℕ
max_var_int1 = 63

abbrev pub max_var_int2 : ℕ
max_var_int2 = 16383

abbrev pub max_var_int4 : ℕ
max_var_int4 = 1073741823

abbrev pub max_var_int8 : ℕ
max_var_int8 = 4611686018427387903

-- The conversions to `uint8` and `uint64`.
abbrev pub u8 : ℕ → ℕ
u8 n = n % 2 ^ 8

abbrev pub u64 : ℕ → ℕ
u64 n = n % 2 ^ 64

abbrev pub IsByte : ℕ → Type 0
IsByte b = b < 256

abbrev pub Reading : Type 0 → Type 0
Reading A = Result Error (A × List ℕ)

unfoldable pub read_byte : List ℕ → Reading ℕ
read_byte [] = err eof
read_byte (b ∷ r) = ok (b, r)

-- The four bytes that an 8-byte number has after its fourth.
read_long : ℕ → ℕ → ℕ → ℕ → List ℕ → Reading ℕ
unfolding read_byte
read_long b1 b2 b3 b4 r = do
  (b5, r) ← read_byte r
  (b6, r) ← read_byte r
  (b7, r) ← read_byte r
  (b8, r) ← read_byte r
  ok (
    u64 (
        b8
        + b7 * 2 ^ 8
        + b6 * 2 ^ 16
        + b5 * 2 ^ 24
        + b4 * 2 ^ 32
        + b3 * 2 ^ 40
        + b2 * 2 ^ 48
        + b1 * 2 ^ 56),
    r,
  )

read_middle : ℕ → ℕ → ℕ → List ℕ → Reading ℕ
unfolding read_byte read_long
read_middle len b1 b2 r = do
  (b3, r) ← read_byte r
  (b4, r) ← read_byte r
  if len == 4
      then ok (u64 (b4 + b3 * 2 ^ 8 + b2 * 2 ^ 16 + b1 * 2 ^ 24), r)
      else read_long b1 b2 b3 b4 r

read_short : ℕ → ℕ → List ℕ → Reading ℕ
unfolding read_byte read_middle
read_short len b1 r = do
  (b2, r) ← read_byte r
  if len == 2 then ok (u64 (b2 + b1 * 2 ^ 8), r) else read_middle len b1 b2 r

-- The two top bits of the first byte give the length.
unfoldable pub read : List ℕ → Reading ℕ
unfolding read_byte read_short
read r = do
  (first, r) ← read_byte r
  let len = 2 ^ (bit_and first 0xc0 / 2 ^ 6)
  let b1 = bit_and first (0xff - 0xc0)
  if len == 1 then ok (b1, r) else read_short len b1 r

unfoldable pub append : List ℕ → ℕ → Result Error (List ℕ)
append b i =
    if leb i max_var_int1
    then ok (b ++ u8 i ∷ [])
    else if leb i max_var_int2
    then ok (b ++ bit_or (u8 (i / 2 ^ 8)) 0x40 ∷ u8 i ∷ [])
    else if leb i max_var_int4
    then ok (b ++ bit_or (u8 (i / 2 ^ 24)) 0x80 ∷ u8 (i / 2 ^ 16) ∷ u8 (i / 2 ^ 8) ∷ u8 i ∷ [])
    else if leb i max_var_int8
    then ok (
        b
        ++ bit_or (u8 (i / 2 ^ 56)) 0xc0
          ∷ u8 (i / 2 ^ 48)
          ∷ u8 (i / 2 ^ 40)
          ∷ u8 (i / 2 ^ 32)
          ∷ u8 (i / 2 ^ 24)
          ∷ u8 (i / 2 ^ 16)
          ∷ u8 (i / 2 ^ 8)
          ∷ u8 i
          ∷ [])
    else err too_large

unfoldable pub len : ℕ → Result Error ℕ
len i =
    if leb i max_var_int1
    then ok 1
    else if leb i max_var_int2
    then ok 2
    else if leb i max_var_int4
    then ok 4
    else if leb i max_var_int8
    then ok 8
    else err too_large

-- The loop that writes the `l` low bytes of `i`, highest first, with `k` rounds left.
big_endian : ℕ → ℕ → List ℕ → List ℕ
big_endian zero i b = b
big_endian (suc k) i b = big_endian k i (b ++ u8 (i / 2 ^ (8 * k)) ∷ [])

-- The first byte of the wider form, by its length.
marker : ℕ → ℕ
marker length = if length == 2 then 0x40 else if length == 4 then 0x80 else 0xc0

-- The `for j := 1; j < length-l` loop writes `length - l - 1` zeros.
unfoldable pub append_with_len : List ℕ → ℕ → ℕ → Result Error (List ℕ)
unfolding append len big_endian marker
append_with_len b i length =
    if not (length == 1) && not (length == 2) && not (length == 4) && not (length == 8)
    then err invalid_length
    else len i >>= λ l.
        if l == length
        then append b i
        else if ltb length l
        then err cannot_encode
        else ok (big_endian l i ((b ++ marker length ∷ []) ++ replicate (length - l - 1) 0))
