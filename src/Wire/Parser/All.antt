-- ===== src/Wire/Parser/All.antt =====
-- internal/wire/frame_parser.go: STREAM, ACK and DATAGRAM frames, and all frames together.
use x_fec.Base.{
  ℕ, ◌≤◌, ◌≡◌, refl, sym, ◌∙◌, subst, List, [], ◌∷◌, ◌++◌, Bool, true, false, ◌==◌, ok, ◌⊎◌, inl,
  inr, arith, length, leb, length-append, not, if◌then◌else◌,
}
use mathlib.Core.List.{append_assoc, append-nil}
use x_fec.Varint.{max_var_int8}
use x_fec.Varint.Codec.{encoding}
use x_fec.Wire.{read_full}
use x_fec.Wire.Codec.{
  RoundTrips, read_varint-encoding, append_varint-encoding, len_varint-encoding, read_full_prefix,
}
use x_fec.Wire.Parser.{
  Frame, ping, handshake_done, ack, reset_stream, stop_sending, crypto, new_token, stream, max_data,
  max_stream_data, max_streams, data_blocked, stream_data_blocked, streams_blocked,
  new_connection_id, retire_connection_id, path_challenge, path_response, connection_close, repair,
  source_symbol, fec_window, datagram, one_rtt, FrameParser, framed, parse_by_type, parse_frame,
}
use x_fec.Wire.Parser.RoundTrip.{Passes, passes, small_type, parse_next_typed}
use x_fec.Wire.Parser.Frames.{
  Valid, reset_stream-Passes, stop_sending-Passes, crypto-Passes, new_token-Passes, max_data-Passes,
  max_stream_data-Passes, data_blocked-Passes, stream_data_blocked-Passes, new_connection_id-Passes,
  retire_connection_id-Passes,
}
use x_fec.Wire.Parser.Others.{
  plain-Passes, max_streams-Passes, streams_blocked-Passes, path-Passes, connection_close-Passes,
  fec-Passes, source_symbol-Passes,
}
use x_fec.Wire.Data.{
  DatagramFrame, parse_datagram_frame, append_datagram_frame, length_datagram_frame, datagram_byte,
  datagram_type_has_length, datagram_payload,
}
use x_fec.Wire.Stream.{
  StreamFrame, stream_type_byte, flip_if, parse_stream_frame, append_stream_frame,
  length_stream_frame,
}
use x_fec.Wire.Stream.RoundTrip.{stream_frame-RoundTrips}
use x_fec.Wire.Symbols
use x_fec.Wire.Symbols.{repair_frame_type, source_symbol_frame_type, fec_window_frame_type}
use x_fec.Wire.Symbols.RoundTrip.{received}
use x_fec.Wire.Ack.{AckFrame, parse_ack_frame, reset_ack_frame, has_ecn}
use x_fec.Wire.Ack.RoundTrip.{IsValid, ack_type, arriving, ack_frame-Written}

stream_type :
    (p : FrameParser) (o d n : Bool) (r : List ℕ)
    → let t = flip_if o 0b100 (flip_if d 0b10 (flip_if n 0b1 0x8)) in
      (leb t 63 ≡ true)
      × ((t == 0) ≡ false)
      × (parse_by_type p r t one_rtt ≡ framed stream (parse_stream_frame t r))
unfolding parse_by_type
stream_type p true true true r = (refl, refl, refl)
stream_type p true true false r = (refl, refl, refl)
stream_type p true false true r = (refl, refl, refl)
stream_type p true false false r = (refl, refl, refl)
stream_type p false true true r = (refl, refl, refl)
stream_type p false true false r = (refl, refl, refl)
stream_type p false false true r = (refl, refl, refl)
stream_type p false false false r = (refl, refl, refl)

module _ (p : FrameParser) (b rest : List ℕ) where
  stream-Passes :
      (f : StreamFrame) → Valid p rest (stream f) → Passes p b rest (stream f) (stream f)
  stream-Passes f h =
      let t = stream_type_byte f in
      let q = stream_type p (not (f.offset == 0)) f.data_len_present f.fin in
      passes p stream (t ∷ []) t append_stream_frame length_stream_frame (parse_stream_frame t) f b
        rest (λ r. small_type t r ((q r).0)) ((q []).1) (λ r. (q r).2) refl refl
        (stream_frame-RoundTrips b rest f (h.0) (h.1) (h.2) (h.3) (h.4) (h.5))

  -- What the parser makes of the bytes behind the type of an ACK frame.
  ack_type_lem :
      (e : Bool) (r : List ℕ)
      → let t : ℕ = if e then 0x3 else 0x2 in
        (leb t 63 ≡ true)
        × ((t == 0) ≡ false)
        × (parse_by_type p r t one_rtt
            ≡ framed ack (parse_ack_frame (reset_ack_frame p.ack_frame) r t p.ack_delay_exponent))
  unfolding parse_by_type
  ack_type_lem true r = (refl, refl, refl)
  ack_type_lem false r = (refl, refl, refl)

  ack-Passes :
      (f : AckFrame)
      → IsValid f
      → p.ack_delay_exponent ≡ 3
      → (n : ℕ) × (1 ≤ n) × (n ≤ length f.ack_ranges) × Passes p b rest (ack f) (ack (arriving f n))
  unfolding parse_frame reset_ack_frame
  ack-Passes f v x =
      let (n, w) = ack_frame-Written b rest f v in
      let q = ack_type_lem (has_ecn f) in
      (
        n,
        w.not_none,
        w.at_most_all,
        record {
          contents = ack_type f ∷ w.contents;
          appended = w.appended;
          measured = w.measured;
          parsed =
              parse_next_typed p (ack_type f ∷ (w.contents ++ rest)) (w.contents ++ rest)
                (ack_type f) one_rtt (small_type (ack_type f) (w.contents ++ rest) ((q []).0))
                ((q []).1)
              ∙ rw ((q (w.contents ++ rest)).2, x, w.read_back) refl;
        },
      )

  datagram_type :
      (d : Bool) (r : List ℕ)
      → p.supports_datagrams ≡ true
      → (leb (datagram_byte d) 63 ≡ true)
        × ((datagram_byte d == 0) ≡ false)
        × (datagram_type_has_length (datagram_byte d) ≡ d)
        × (parse_by_type p r (datagram_byte d) one_rtt
            ≡ framed datagram (parse_datagram_frame (datagram_byte d) r))
  unfolding parse_by_type datagram_type_has_length
  datagram_type true r s = (refl, refl, refl, rw s refl)
  datagram_type false r s = (refl, refl, refl, rw s refl)

  datagram_payload_prefix :
      (d : Bool) (c : List ℕ)
      → length c ≤ max_var_int8
      → (d ≡ true) ⊎ (rest ≡ [])
      → datagram_payload d ((if d then encoding (length c) else []) ++ (c ++ rest)) ≡ ok (c, rest)
  unfolding datagram_payload
  datagram_payload_prefix true c h e =
      simp (read_varint-encoding (length c) _ h, read_full_prefix c rest)
        (ground (arith, length-append c rest))
  datagram_payload_prefix false c h e = elim e [
    | inl t ↦ absurd (ground arith)
    | inr t ↦
        rw (t, append-nil c)
          (subst (λ l. read_full (length c) l ≡ ok (c, [])) (append-nil c) (read_full_prefix c []))
  ]

  datagram-RoundTrips :
      (d : Bool) (c : List ℕ)
      → length c ≤ max_var_int8
      → (d ≡ true) ⊎ (rest ≡ [])
      → p.supports_datagrams ≡ true
      → RoundTrips
          (datagram_byte d ∷ [])
          append_datagram_frame
          length_datagram_frame
          (parse_datagram_frame (datagram_byte d))
          (record { data_len_present = d; contents = c; fec_protected = false })
          b
          rest
  unfolding append_datagram_frame length_datagram_frame parse_datagram_frame
  datagram-RoundTrips d c h e s =
      let t = (datagram_type d [] s).2 in
      let g = datagram_payload_prefix d c h e in
      (
        (if d then encoding (length c) else []) ++ c,
        elim d
            as (λ d.
              append_datagram_frame b
                (record { data_len_present = d; contents = c; fec_protected = false })
              ≡ ok (
                  b
                  ++ ((datagram_byte d ∷ []) ++ ((if d then encoding (length c) else []) ++ c)))) [
                    | true ↦ simp (append_varint-encoding _ (length c) h, append_assoc)
                    | false ↦ simp (append_assoc)
                  ],
        elim d
            as (λ d.
              length_datagram_frame
                (record { data_len_present = d; contents = c; fec_protected = false })
              ≡ ok (
                  length
                    ((datagram_byte d ∷ []) ++ ((if d then encoding (length c) else []) ++ c)))) [
                      | true ↦ simp (len_varint-encoding (length c) h, length-append) (ground arith)
                      | false ↦ ground arith
                    ],
        rw (t, append_assoc (if d then encoding (length c) else []) c rest, g) refl,
      )

  datagram-Passes :
      (f : DatagramFrame) → Valid p rest (datagram f) → Passes p b rest (datagram f) (datagram f)
  datagram-Passes f h =
      let d = f.data_len_present in
      let q = λ (r : List ℕ). datagram_type d r (h.3) in
      passes p datagram (datagram_byte d ∷ []) (datagram_byte d) append_datagram_frame
        length_datagram_frame (parse_datagram_frame (datagram_byte d)) f b rest
        (λ r. small_type (datagram_byte d) r ((q r).0)) ((q []).1) (λ r. (q r).3) refl refl
        (subst
          (λ (x : Bool).
            RoundTrips (datagram_byte d ∷ []) append_datagram_frame length_datagram_frame
              (parse_datagram_frame (datagram_byte d)) (record f { fec_protected = x }) b rest)
          (sym (h.2)) (datagram-RoundTrips d f.contents (h.0) (h.1) (h.3)))

-- What arrives of a frame: of an ACK frame the ranges that were written and the delay in whole units, a source
-- symbol in a fresh array, and of the others the frame itself.
pub data Arrives : Frame → Frame → Type 0 where
  ack_arrives :
      {f : AckFrame} (n : ℕ)
      → 1 ≤ n
      → n ≤ length f.ack_ranges
      → Arrives (ack f) (ack (arriving f n))
  symbol_arrives :
      {f : Symbols.SourceSymbolFrame} → Arrives (source_symbol f) (source_symbol (received f))
  same : {f : Frame} → Arrives f f

-- A frame of any type whose fields are in the ranges that `Valid` lists (variable-length integers below 2^62, the
-- limits on lengths and counts) is written behind what the packet holds, in as many bytes as its length
-- says, and the parser reads at the 1-RTT level the frame that arrives, and leaves what follows. Further
-- conditions: a STREAM or DATAGRAM frame is not FEC-protected, since the flag is not written; one that has no length
-- is the last in the packet; for a DATAGRAM frame the parser supports datagrams; for an ACK frame its
-- exponent is 3, the one that is written with.
pub append_frame-parse_next :
    (p : FrameParser) (b rest : List ℕ) (f : Frame)
    → Valid p rest f
    → (f' : Frame) × Arrives f f' × Passes p b rest f f'
append_frame-parse_next p b rest (reset_stream f) h =
    (reset_stream f, same, reset_stream-Passes p b rest f h)
append_frame-parse_next p b rest (stop_sending f) h =
    (stop_sending f, same, stop_sending-Passes p b rest f h)
append_frame-parse_next p b rest (crypto f) h = (crypto f, same, crypto-Passes p b rest f h)
append_frame-parse_next p b rest (new_token f) h =
    (new_token f, same, new_token-Passes p b rest f h)
append_frame-parse_next p b rest (max_data f) h = (max_data f, same, max_data-Passes p b rest f h)
append_frame-parse_next p b rest (max_stream_data f) h =
    (max_stream_data f, same, max_stream_data-Passes p b rest f h)
append_frame-parse_next p b rest (data_blocked f) h =
    (data_blocked f, same, data_blocked-Passes p b rest f h)
append_frame-parse_next p b rest (stream_data_blocked f) h =
    (stream_data_blocked f, same, stream_data_blocked-Passes p b rest f h)
append_frame-parse_next p b rest (new_connection_id f) h =
    (new_connection_id f, same, new_connection_id-Passes p b rest f h)
append_frame-parse_next p b rest (retire_connection_id f) h =
    (retire_connection_id f, same, retire_connection_id-Passes p b rest f h)
append_frame-parse_next p b rest (max_streams f) h =
    (max_streams f, same, max_streams-Passes p b rest f h)
append_frame-parse_next p b rest (streams_blocked f) h =
    (streams_blocked f, same, streams_blocked-Passes p b rest f h)
append_frame-parse_next p b rest (connection_close f) h =
    (connection_close f, same, connection_close-Passes p b rest f h)
append_frame-parse_next p b rest (stream f) h = (stream f, same, stream-Passes p b rest f h)
append_frame-parse_next p b rest (datagram f) h = (datagram f, same, datagram-Passes p b rest f h)
append_frame-parse_next p b rest ping h = (ping, same, (plain-Passes p b rest).0)
append_frame-parse_next p b rest handshake_done h =
    (handshake_done, same, (plain-Passes p b rest).1)
append_frame-parse_next p b rest (path_challenge f) h =
    (path_challenge f, same, (path-Passes p b rest f h).0)
append_frame-parse_next p b rest (path_response f) h =
    (path_response f, same, (path-Passes p b rest f h).1)
append_frame-parse_next p b rest (repair f) h =
    (repair f, same, (fec-Passes p b rest f (record { epoch = 0; size = 0 })).0 h)
append_frame-parse_next p b rest (fec_window f) h = (
  fec_window f,
  same,
  (fec-Passes p b rest (record { metadata = record { block_id = 0; parity_id = 0 }; payload = [] })
        f).1
      h,
)
append_frame-parse_next p b rest (source_symbol f) h =
    (source_symbol (received f), symbol_arrives, source_symbol-Passes p b rest f h)
append_frame-parse_next p b rest (ack f) h =
    let (n, lo, hi, g) = ack-Passes p b rest f (h.0) (h.1) in
    (ack (arriving f n), ack_arrives n lo hi, g)
