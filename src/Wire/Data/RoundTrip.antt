-- ===== src/Wire/Data/RoundTrip.antt =====
-- internal/wire: parsing of the frames with bytes against their Append and Length.
use x_fec.Base.{ℕ, ◌≤◌, List, [], ◌∷◌, ◌++◌, ok, ◌≡◌, refl, arith, length, length-append, subst}
use x_fec.Varint.{max_var_int8}
use x_fec.Varint.Codec.{encoding}
use x_fec.Wire.{read_full}
use x_fec.Wire.Codec.{
  append_varint-encoding, read_varint-encoding, len_varint-encoding, read_payload_prefix,
  RoundTrips, read_full_prefix,
}
use x_fec.Wire.Data.{
  CryptoFrame, parse_crypto_frame, append_crypto_frame, length_crypto_frame, NewTokenFrame,
  parse_new_token_frame, append_new_token_frame, length_new_token_frame, PathFrame,
  parse_path_frame, append_path_challenge_frame, append_path_response_frame, length_path_frame,
}
use mathlib.Core.List.{append_assoc}

-- A CRYPTO frame whose offset and length a varint can hold is read back as it was written.
pub crypto_frame-RoundTrips :
    (b rest : List ℕ) (f : CryptoFrame)
    → f.offset ≤ max_var_int8
    → length f.contents ≤ max_var_int8
    → RoundTrips (0x6 ∷ []) append_crypto_frame length_crypto_frame parse_crypto_frame f b rest
unfolding append_crypto_frame length_crypto_frame parse_crypto_frame
crypto_frame-RoundTrips b rest f ho hl = (
  encoding f.offset ++ (encoding (length f.contents) ++ f.contents),
  simp (
    append_varint-encoding _ f.offset ho,
    append_varint-encoding _ (length f.contents) hl,
    append_assoc,
  ),
  simp (len_varint-encoding f.offset ho, len_varint-encoding (length f.contents) hl, length-append)
      (ground arith),
  simp (
    append_assoc,
    read_varint-encoding f.offset _ ho,
    read_varint-encoding (length f.contents) _ hl,
    read_payload_prefix f.contents rest,
  ),
)

-- A NEW_TOKEN frame with a token that is not empty, and whose length a varint can hold, is read back
-- as it was written.
pub new_token_frame-RoundTrips :
    (b rest : List ℕ) (f : NewTokenFrame)
    → 1 ≤ length f.token
    → length f.token ≤ max_var_int8
    → RoundTrips
        (0x7 ∷ [])
        append_new_token_frame
        length_new_token_frame
        parse_new_token_frame
        f
        b
        rest
unfolding append_new_token_frame length_new_token_frame parse_new_token_frame
new_token_frame-RoundTrips b rest f h1 hl = (
  encoding (length f.token) ++ f.token,
  simp (append_varint-encoding _ (length f.token) hl, append_assoc),
  simp (len_varint-encoding (length f.token) hl, length-append) (ground arith),
  simp (append_assoc, read_varint-encoding (length f.token) _ hl, read_full_prefix f.token rest)
      (ground (arith, length-append f.token rest)),
)

path_frame_read :
    (f : PathFrame) (rest : List ℕ)
    → length f.contents ≡ 8
    → parse_path_frame (f.contents ++ rest) ≡ ok (f, rest)
unfolding parse_path_frame
path_frame_read f rest h =
    let e : read_full 8 (f.contents ++ rest) ≡ ok (f.contents, rest) =
      subst (λ n. read_full n (f.contents ++ rest) ≡ ok (f.contents, rest)) h
        (read_full_prefix f.contents rest) in
    rw (parse_path_frame, e) refl

-- The eight bytes of a PATH_CHALLENGE frame and those of a PATH_RESPONSE frame are read back as they
-- were written.
pub path_frames-RoundTrips :
    (b rest : List ℕ) (f : PathFrame)
    → length f.contents ≡ 8
    → RoundTrips (0x1a ∷ []) append_path_challenge_frame length_path_frame parse_path_frame f b rest
      × RoundTrips
          (0x1b ∷ [])
          append_path_response_frame
          length_path_frame
          parse_path_frame
          f
          b
          rest
unfolding append_path_challenge_frame append_path_response_frame length_path_frame
path_frames-RoundTrips b rest f h = (
  (f.contents, simp append_assoc, ground arith, path_frame_read f rest h),
  (f.contents, simp append_assoc, ground arith, path_frame_read f rest h),
)
