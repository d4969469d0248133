-- ===== src/Wire/Stream/Tests.antt =====
-- A STREAM frame, written and split.
use x_fec.Base.{ℕ, [], ◌∷◌, ok, ◌≡◌, refl, arith, true, false, inl}
use x_fec.Wire.Codec.{RoundTrips}
use x_fec.Wire.Stream.{
  StreamFrame, parse_stream_frame, append_stream_frame, length_stream_frame, stream_type_byte,
}
use x_fec.Wire.Stream.RoundTrip.{stream_frame-RoundTrips}
use x_fec.Wire.Stream.Split.{IsOutcome, maybe_split_off_stream_lem}

abbrev hello : StreamFrame
hello = record {
  stream_id = 4;
  offset = 100;
  contents = 104 ∷ 101 ∷ 108 ∷ 108 ∷ 111 ∷ [];
  fin = true;
  data_len_present = true;
  fec_protected = false;
}

stream_frame-RoundTrips_example :
    RoundTrips
      (stream_type_byte hello ∷ [])
      append_stream_frame
      length_stream_frame
      (parse_stream_frame (stream_type_byte hello))
      hello
      (1 ∷ [])
      (9 ∷ [])
stream_frame-RoundTrips_example =
    stream_frame-RoundTrips (1 ∷ []) (9 ∷ []) hello (omega arith) (omega arith) (omega arith)
      (inl refl) (inl refl) refl

maybe_split_off_stream_lem_example :
    (l : ℕ) × (length_stream_frame hello ≡ ok l) × IsOutcome hello 8 l
maybe_split_off_stream_lem_example =
    maybe_split_off_stream_lem hello 8 (omega arith) (omega arith) (omega arith) (omega arith)
