-- ===== src/Wire/Control/Counts.antt =====
-- internal/wire: parsing of MAX_STREAMS and STREAMS_BLOCKED against their Append and Length.
use x_fec.Base.{ℕ, ◌≤◌, List, [], ◌∷◌, ◌≡◌, refl, arith, length-append}
use x_fec.Wire.Codec.{
  read_varint-encoding, len_varint-encoding, RoundTrips, encodings, append_all_typed,
}
use x_fec.Wire.Control.{
  StreamType, uni, bidi, max_stream_count, MaxStreamsFrame, parse_max_streams_frame,
  append_max_streams_frame, length_max_streams_frame, max_streams_byte, max_streams_type,
  StreamsBlockedFrame, parse_streams_blocked_frame, append_streams_blocked_frame,
  length_streams_blocked_frame, streams_blocked_byte, streams_blocked_type,
}
use mathlib.Core.List.{append_assoc}

max_streams_type-byte : (t : StreamType) → max_streams_type (max_streams_byte t) ≡ t
unfolding max_streams_type
max_streams_type-byte uni = refl
max_streams_type-byte bidi = refl

-- With a count of streams of at most 2^60 the frame is read back as it was written, its stream type
-- by the type byte.
pub max_streams_frame-RoundTrips :
    (b rest : List ℕ) (f : MaxStreamsFrame)
    → f.max_stream_num ≤ max_stream_count
    → RoundTrips
        (max_streams_byte f.type ∷ [])
        append_max_streams_frame
        length_max_streams_frame
        (parse_max_streams_frame (max_streams_byte f.type))
        f
        b
        rest
unfolding append_max_streams_frame length_max_streams_frame parse_max_streams_frame
max_streams_frame-RoundTrips b rest f h = (
  encodings (f.max_stream_num ∷ []),
  append_all_typed b (max_streams_byte f.type) (f.max_stream_num ∷ []) (omega arith, tt),
  simp (len_varint-encoding f.max_stream_num (omega arith), length-append) (ground arith),
  simp
      (
        append_assoc,
        read_varint-encoding f.max_stream_num _ (omega arith),
        max_streams_type-byte f.type,
      )
      (ground arith),
)

streams_blocked_type-byte : (t : StreamType) → streams_blocked_type (streams_blocked_byte t) ≡ t
unfolding streams_blocked_type
streams_blocked_type-byte uni = refl
streams_blocked_type-byte bidi = refl

-- With a count of streams of at most 2^60 the frame is read back as it was written, its stream type
-- by the type byte.
pub streams_blocked_frame-RoundTrips :
    (b rest : List ℕ) (f : StreamsBlockedFrame)
    → f.stream_limit ≤ max_stream_count
    → RoundTrips
        (streams_blocked_byte f.type ∷ [])
        append_streams_blocked_frame
        length_streams_blocked_frame
        (parse_streams_blocked_frame (streams_blocked_byte f.type))
        f
        b
        rest
unfolding append_streams_blocked_frame length_streams_blocked_frame parse_streams_blocked_frame
streams_blocked_frame-RoundTrips b rest f h = (
  encodings (f.stream_limit ∷ []),
  append_all_typed b (streams_blocked_byte f.type) (f.stream_limit ∷ []) (omega arith, tt),
  simp (len_varint-encoding f.stream_limit (omega arith), length-append) (ground arith),
  simp
      (
        append_assoc,
        read_varint-encoding f.stream_limit _ (omega arith),
        streams_blocked_type-byte f.type,
      )
      (ground arith),
)
