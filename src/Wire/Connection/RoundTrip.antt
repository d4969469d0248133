-- ===== src/Wire/Connection/RoundTrip.antt =====
-- internal/wire: parsing of NEW_CONNECTION_ID and CONNECTION_CLOSE against their Append and Length.
use x_fec.Base.{
  ℕ, ◌≤◌, List, [], ◌∷◌, ◌++◌, Bool, true, false, ok, ◌≡◌, refl, arith, length, length-append,
  subst, ◌⊎◌, inl, inr, not, ◌==◌, ap, sym,
}
use x_fec.Varint.{max_var_int8}
use x_fec.Varint.Codec.{encoding}
use x_fec.Wire.Codec.{
  append_varint-encoding, read_varint-encoding, len_varint-encoding, RoundTrips, read_full_prefix,
}
use x_fec.Wire.Connection.{
  NewConnectionIdFrame, parse_new_connection_id_frame, append_new_connection_id_frame,
  length_new_connection_id_frame, max_conn_id_len, read_exactly, read_sized_connection_id,
  ConnectionCloseFrame, parse_connection_close_frame, append_connection_close_frame,
  length_connection_close_frame, connection_close_byte, read_frame_type, read_reason,
  read_connection_id, read_length_byte,
}
use x_fec.Wire.Stream.RoundTrip.{part, append_if-part, len_if-part}
use mathlib.Core.List.{append_assoc}

read_exactly_prefix : (p rest : List ℕ) → read_exactly (length p) (p ++ rest) ≡ ok (p, rest)
unfolding read_exactly
read_exactly_prefix p rest = rw (read_full_prefix p rest, read_exactly) refl

read_token : (p rest : List ℕ) → length p ≡ 16 → read_exactly 16 (p ++ rest) ≡ ok (p, rest)
read_token p rest h =
    subst (λ n. read_exactly n (p ++ rest) ≡ ok (p, rest)) h (read_exactly_prefix p rest)

read_sized_prefix :
    (p rest : List ℕ)
    → 1 ≤ length p
    → length p ≤ max_conn_id_len
    → read_sized_connection_id (length p ∷ (p ++ rest)) ≡ ok (p, rest)
unfolding read_sized_connection_id read_connection_id read_length_byte
read_sized_prefix p rest lo hi = ground (arith, read_exactly_prefix p rest)

-- A NEW_CONNECTION_ID frame with a connection ID of 1 to 20 bytes, a reset token of 16 bytes, numbers
-- that a varint can hold and a "retire prior to" not above its sequence number is read back as it was
-- written, and its length is the number of bytes written.
pub new_connection_id_frame-RoundTrips :
    (b rest : List ℕ) (f : NewConnectionIdFrame)
    → f.sequence_number ≤ max_var_int8
    → f.retire_prior_to ≤ f.sequence_number
    → 1 ≤ length f.connection_id
    → length f.connection_id ≤ max_conn_id_len
    → length f.stateless_reset_token ≡ 16
    → RoundTrips
        (0x18 ∷ [])
        append_new_connection_id_frame
        length_new_connection_id_frame
        parse_new_connection_id_frame
        f
        b
        rest
unfolding append_new_connection_id_frame length_new_connection_id_frame
    parse_new_connection_id_frame
new_connection_id_frame-RoundTrips b rest f hs hr lo hi ht =
    let p = f.connection_id in
    let t = f.stateless_reset_token in
    (
      encoding f.sequence_number ++ (encoding f.retire_prior_to ++ (length p ∷ (p ++ t))),
      simp
          (
            append_varint-encoding _ f.sequence_number hs,
            append_varint-encoding _ f.retire_prior_to (omega arith),
            append_assoc,
          )
          (ground arith),
      simp
          (
            len_varint-encoding f.sequence_number hs,
            len_varint-encoding f.retire_prior_to (omega arith),
            length-append,
          )
          (ground arith),
      simp
          (
            append_assoc,
            read_varint-encoding f.sequence_number _ hs,
            read_varint-encoding f.retire_prior_to _ (omega arith),
            read_sized_prefix p (t ++ rest) lo hi,
            read_token t rest ht,
          )
          (ground arith),
    )

read_frame_type-part :
    (c : Bool) (i : ℕ) (rest : List ℕ)
    → i ≤ max_var_int8
    → (c ≡ false) ⊎ (i ≡ 0)
    → read_frame_type c (part (not c) i ++ rest) ≡ ok (i, rest)
unfolding read_frame_type
read_frame_type-part false i rest h e = read_varint-encoding i rest h
read_frame_type-part true i rest h (inl e) = absurd (ground arith)
read_frame_type-part true i rest h (inr e) = ap (λ n. ok (n, rest)) (sym e)

read_reason_prefix : (p rest : List ℕ) → read_reason (length p) (p ++ rest) ≡ ok (p, rest)
unfolding read_reason
read_reason_prefix p rest = rw (read_full_prefix p rest) (ground (arith, length-append p rest))

close_byte-type : (c : Bool) → (connection_close_byte c == 0x1d) ≡ c
close_byte-type true = refl
close_byte-type false = refl

-- A CONNECTION_CLOSE frame whose numbers and reason length a varint can hold, and whose frame type is 0
-- if the error is the application's, is read back as it was written, and its length is the number of
-- bytes written.
pub connection_close_frame-RoundTrips :
    (b rest : List ℕ) (f : ConnectionCloseFrame)
    → f.error_code ≤ max_var_int8
    → f.frame_type ≤ max_var_int8
    → length f.reason_phrase ≤ max_var_int8
    → (f.is_application_error ≡ false) ⊎ (f.frame_type ≡ 0)
    → RoundTrips
        (connection_close_byte f.is_application_error ∷ [])
        append_connection_close_frame
        length_connection_close_frame
        (parse_connection_close_frame (connection_close_byte f.is_application_error))
        f
        b
        rest
unfolding append_connection_close_frame length_connection_close_frame parse_connection_close_frame
connection_close_frame-RoundTrips b rest f hc ht hl e =
    let p = f.reason_phrase in
    let n = not f.is_application_error in
    (
      encoding f.error_code ++ (part n f.frame_type ++ (encoding (length p) ++ p)),
      simp (
        append_varint-encoding _ f.error_code hc,
        append_if-part n _ f.frame_type ht,
        append_varint-encoding _ (length p) hl,
        append_assoc,
      ),
      simp
          (
            len_varint-encoding f.error_code hc,
            len_if-part n f.frame_type ht,
            len_varint-encoding (length p) hl,
            length-append,
          )
          (ground arith),
      simp (
        append_assoc,
        read_varint-encoding f.error_code _ hc,
        close_byte-type f.is_application_error,
        read_frame_type-part f.is_application_error f.frame_type _ ht e,
        read_varint-encoding (length p) _ hl,
        read_reason_prefix p rest,
      ),
    )
