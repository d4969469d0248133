-- ===== src/Wire/Stream/RoundTrip.antt =====
-- internal/wire/stream_frame.go: parsing against Append and Length.
use x_fec.Base.{
  ℕ, ◌+◌, ◌≤◌, List, [], ◌∷◌, ◌++◌, Bool, true, false, ok, ◌≡◌, refl, arith, length, length-append,
  ltb, not, ◌==◌, ◌&&◌, sym, ap, ◌⊎◌, inl, inr, zero, suc, ltb,
}
use x_fec.Varint.{max_var_int8}
use x_fec.Varint.Codec.{encoding}
use x_fec.Wire.Codec.{
  append_varint-encoding, read_varint-encoding, len_varint-encoding, RoundTrips, read_full_prefix,
}
use x_fec.Wire.Symbols.{max_packet_buffer_size}
use x_fec.Wire.Stream.{
  StreamFrame, parse_stream_frame, append_stream_frame, length_stream_frame, stream_type_byte,
  read_data, read_offset, read_data_len, has_flag, max_byte_count, append_if, len_if, flip_if,
}
use mathlib.Core.List.{append_assoc, append-nil}

read_data_prefix :
    (p rest : List ℕ)
    → length p ≤ max_packet_buffer_size
    → read_data (length p) (p ++ rest) ≡ ok (p, rest)
unfolding read_data
read_data_prefix [] rest h = ground arith
read_data_prefix (x ∷ p) rest h = rw (read_full_prefix (x ∷ p) rest) (ground arith)

-- A number that is written if its flag is set.
abbrev pub part : Bool → ℕ → List ℕ
part true i = encoding i
part false i = []

pub append_if-part :
    (c : Bool) (b : List ℕ) (i : ℕ) → i ≤ max_var_int8 → append_if c b i ≡ ok (b ++ part c i)
append_if-part true b i h = append_varint-encoding b i h
append_if-part false b i h = ap ok (sym (append-nil b))

pub len_if-part : (c : Bool) (i : ℕ) → i ≤ max_var_int8 → len_if c i ≡ ok (length (part c i))
len_if-part true i h = len_varint-encoding i h
len_if-part false i h = refl

written : (i : ℕ) → not (suc i == 0) ≡ true
written i = ground arith

read_offset-part :
    (i : ℕ) (rest : List ℕ)
    → i ≤ max_var_int8
    → read_offset (not (i == 0)) (part (not (i == 0)) i ++ rest) ≡ ok (i, rest)
unfolding read_offset
read_offset-part zero rest h = refl
read_offset-part (suc i) rest h = rw (written i) (read_varint-encoding (suc i) rest h)

read_data_len-part :
    (c : Bool) (p rest : List ℕ)
    → length p ≤ max_var_int8
    → (c ≡ true) ⊎ (rest ≡ [])
    → read_data_len c (part c (length p) ++ (p ++ rest)) ≡ ok (length p, p ++ rest)
unfolding read_data_len
read_data_len-part true p rest hl h = read_varint-encoding (length p) (p ++ rest) hl
read_data_len-part false p rest hl (inl e) = absurd (ground arith)
read_data_len-part false p rest hl (inr e) =
    rw e (ap (λ n. ok (n, p ++ [])) (ap length (append-nil p)))

bits :
    (o d n : Bool)
    → let t = flip_if o 0b100 (flip_if d 0b10 (flip_if n 0b1 0x8)) in
      (has_flag t 0b100 ≡ o) × (has_flag t 0b10 ≡ d) × (has_flag t 0b1 ≡ n)
bits true true true = (refl, refl, refl)
bits true true false = (refl, refl, refl)
bits true false true = (refl, refl, refl)
bits true false false = (refl, refl, refl)
bits false true true = (refl, refl, refl)
bits false true false = (refl, refl, refl)
bits false false true = (refl, refl, refl)
bits false false false = (refl, refl, refl)

-- The type byte tells the three flags.
flags :
    (f : StreamFrame)
    → (has_flag (stream_type_byte f) 0b100 ≡ not (f.offset == 0))
      × (has_flag (stream_type_byte f) 0b10 ≡ f.data_len_present)
      × (has_flag (stream_type_byte f) 0b1 ≡ f.fin)
flags f = bits (not (f.offset == 0)) f.data_len_present f.fin

nonempty :
    (f : StreamFrame)
    → (f.fin ≡ true) ⊎ (1 ≤ length f.contents)
    → (length f.contents == 0 && not f.fin) ≡ false
nonempty f (inl e) = ground arith
nonempty f (inr l) = ground arith

ltb_max : (n : ℕ) → n ≤ max_byte_count → ltb max_byte_count n ≡ false
ltb_max n h = ground arith

-- A STREAM frame that is not FEC-protected, with data or the FIN flag, at most 1452 bytes of data
-- and an end of the data that a varint can hold is read back as it was written. Without a data
-- length it must end the packet.
pub stream_frame-RoundTrips :
    (b rest : List ℕ) (f : StreamFrame)
    → f.stream_id ≤ max_var_int8
    → f.offset + length f.contents ≤ max_byte_count
    → length f.contents ≤ max_packet_buffer_size
    → (f.fin ≡ true) ⊎ (1 ≤ length f.contents)
    → (f.data_len_present ≡ true) ⊎ (rest ≡ [])
    → f.fec_protected ≡ false
    → RoundTrips
        (stream_type_byte f ∷ [])
        append_stream_frame
        length_stream_frame
        (parse_stream_frame (stream_type_byte f))
        f
        b
        rest
unfolding append_stream_frame length_stream_frame parse_stream_frame
stream_frame-RoundTrips b rest f hs ho hl hd hr hp =
    let o = not (f.offset == 0) in
    let (e1, e2, e3) = flags f in
    (
      encoding f.stream_id
          ++ (part o f.offset ++ (part f.data_len_present (length f.contents) ++ f.contents)),
      simp (
        nonempty f hd,
        append_varint-encoding _ f.stream_id hs,
        append_if-part o _ f.offset (omega arith),
        append_if-part f.data_len_present _ (length f.contents) (omega arith),
        append_assoc,
      ),
      simp
          (
            len_varint-encoding f.stream_id hs,
            len_if-part o f.offset (omega arith),
            len_if-part f.data_len_present (length f.contents) (omega arith),
            length-append,
          )
          (ground arith),
      simp
          (
            append_assoc,
            read_varint-encoding f.stream_id _ hs,
            e1,
            e2,
            e3,
            read_offset-part f.offset _ (omega arith),
            read_data_len-part f.data_len_present f.contents rest (omega arith) hr,
            read_data_prefix f.contents rest hl,
            ltb_max (f.offset + length f.contents) ho,
          )
          (ap (λ c. ok (record f { fec_protected = c }, rest)) (sym hp)),
    )
