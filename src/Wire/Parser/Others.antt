-- ===== src/Wire/Parser/Others.antt =====
-- internal/wire/frame_parser.go: the frames of several types, those of FEC, and all frames together.
use x_fec.Base.{ℕ, ◌≡◌, refl, ◌∙◌, List, [], ◌∷◌, ◌++◌, Bool, true, false, ◌==◌, arith, length, leb}
use mathlib.Core.List.{append_assoc}
use x_fec.Varint.Codec.{encoding}
use x_fec.Wire.Codec.{read_varint-encoding}
use x_fec.Wire.Parser.{
  ping, handshake_done, max_streams, streams_blocked, path_challenge, path_response,
  connection_close, repair, source_symbol, fec_window, one_rtt, FrameParser, framed, parse_by_type,
  parse_frame,
}
use x_fec.Wire.Parser.RoundTrip.{Passes, passes, small_type, parse_next_typed}
use x_fec.Wire.Parser.Frames.{Valid}
use x_fec.Wire.Control
use x_fec.Wire.Control.{
  StreamType, uni, bidi, max_stream_count, max_streams_byte, streams_blocked_byte,
}
use x_fec.Wire.Control.Counts.{max_streams_frame-RoundTrips, streams_blocked_frame-RoundTrips}
use x_fec.Wire.Data
use x_fec.Wire.Data.{
  DatagramFrame, parse_datagram_frame, append_datagram_frame, length_datagram_frame, datagram_byte,
  datagram_type_has_length, datagram_payload,
}
use x_fec.Wire.Data.RoundTrip.{path_frames-RoundTrips}
use x_fec.Wire.Connection
use x_fec.Wire.Connection.{connection_close_byte}
use x_fec.Wire.Connection.RoundTrip.{connection_close_frame-RoundTrips}
use x_fec.Wire.Symbols
use x_fec.Wire.Symbols.{repair_frame_type, source_symbol_frame_type, fec_window_frame_type}
use x_fec.Wire.Symbols.RoundTrip.{
  received, source_symbol_frame_round_trip, repair_frame-RoundTrips, fec_window_frame-RoundTrips,
}

module _ (p : FrameParser) (b rest : List ℕ) where
  pub plain-Passes : Passes p b rest ping ping × Passes p b rest handshake_done handshake_done
  unfolding parse_frame parse_by_type
  plain-Passes = (
    record {
      contents = 0x1 ∷ [];
      appended = refl;
      measured = refl;
      parsed = parse_next_typed p (0x1 ∷ rest) rest 0x1 one_rtt (small_type 0x1 rest refl) refl;
    },
    record {
      contents = 0x1e ∷ [];
      appended = refl;
      measured = refl;
      parsed = parse_next_typed p (0x1e ∷ rest) rest 0x1e one_rtt (small_type 0x1e rest refl) refl;
    },
  )

  max_streams_type :
      (t : StreamType) (r : List ℕ)
      → (leb (max_streams_byte t) 63 ≡ true)
        × ((max_streams_byte t == 0) ≡ false)
        × (parse_by_type p r (max_streams_byte t) one_rtt
            ≡ framed max_streams (Control.parse_max_streams_frame (max_streams_byte t) r))
  unfolding parse_by_type
  max_streams_type uni r = (refl, refl, refl)
  max_streams_type bidi r = (refl, refl, refl)

  pub max_streams-Passes :
      (f : Control.MaxStreamsFrame)
      → Valid p rest (max_streams f)
      → Passes p b rest (max_streams f) (max_streams f)
  max_streams-Passes f h =
      let t = f.type in
      passes p max_streams (max_streams_byte t ∷ []) (max_streams_byte t)
        Control.append_max_streams_frame Control.length_max_streams_frame
        (Control.parse_max_streams_frame (max_streams_byte t)) f b rest
        (λ r. small_type (max_streams_byte t) r ((max_streams_type t r).0))
        ((max_streams_type t []).1) (λ r. (max_streams_type t r).2) refl refl
        (max_streams_frame-RoundTrips b rest f h)

  streams_blocked_type :
      (t : StreamType) (r : List ℕ)
      → (leb (streams_blocked_byte t) 63 ≡ true)
        × ((streams_blocked_byte t == 0) ≡ false)
        × (parse_by_type p r (streams_blocked_byte t) one_rtt
            ≡ framed streams_blocked
                (Control.parse_streams_blocked_frame (streams_blocked_byte t) r))
  unfolding parse_by_type
  streams_blocked_type uni r = (refl, refl, refl)
  streams_blocked_type bidi r = (refl, refl, refl)

  pub streams_blocked-Passes :
      (f : Control.StreamsBlockedFrame)
      → Valid p rest (streams_blocked f)
      → Passes p b rest (streams_blocked f) (streams_blocked f)
  streams_blocked-Passes f h =
      let t = f.type in
      passes p streams_blocked (streams_blocked_byte t ∷ []) (streams_blocked_byte t)
        Control.append_streams_blocked_frame Control.length_streams_blocked_frame
        (Control.parse_streams_blocked_frame (streams_blocked_byte t)) f b rest
        (λ r. small_type (streams_blocked_byte t) r ((streams_blocked_type t r).0))
        ((streams_blocked_type t []).1) (λ r. (streams_blocked_type t r).2) refl refl
        (streams_blocked_frame-RoundTrips b rest f h)

  pub path-Passes :
      (f : Data.PathFrame)
      → length f.contents ≡ 8
      → Passes p b rest (path_challenge f) (path_challenge f)
        × Passes p b rest (path_response f) (path_response f)
  unfolding parse_by_type
  path-Passes f h = (
    passes p path_challenge (0x1a ∷ []) 0x1a Data.append_path_challenge_frame Data.length_path_frame
        Data.parse_path_frame f b rest (λ r. small_type 0x1a r refl) refl (λ r. refl) refl refl
        (path_frames-RoundTrips b rest f h).0,
    passes p path_response (0x1b ∷ []) 0x1b Data.append_path_response_frame Data.length_path_frame
        Data.parse_path_frame f b rest (λ r. small_type 0x1b r refl) refl (λ r. refl) refl refl
        (path_frames-RoundTrips b rest f h).1,
  )

  connection_close_type :
      (c : Bool) (r : List ℕ)
      → (leb (connection_close_byte c) 63 ≡ true)
        × ((connection_close_byte c == 0) ≡ false)
        × (parse_by_type p r (connection_close_byte c) one_rtt
            ≡ framed connection_close
                (Connection.parse_connection_close_frame (connection_close_byte c) r))
  unfolding parse_by_type
  connection_close_type true r = (refl, refl, refl)
  connection_close_type false r = (refl, refl, refl)

  pub connection_close-Passes :
      (f : Connection.ConnectionCloseFrame)
      → Valid p rest (connection_close f)
      → Passes p b rest (connection_close f) (connection_close f)
  connection_close-Passes f h =
      let c = f.is_application_error in
      passes p connection_close (connection_close_byte c ∷ []) (connection_close_byte c)
        Connection.append_connection_close_frame Connection.length_connection_close_frame
        (Connection.parse_connection_close_frame (connection_close_byte c)) f b rest
        (λ r. small_type (connection_close_byte c) r ((connection_close_type c r).0))
        ((connection_close_type c []).1) (λ r. (connection_close_type c r).2) refl refl
        (connection_close_frame-RoundTrips b rest f (h.0) (h.1) (h.2) (h.3))

  -- The types of the FEC frames have eight bytes.
  pub fec-Passes :
      (f : Symbols.RepairFrame) (w : Symbols.FecWindowFrame)
      → (Valid p rest (repair f) → Passes p b rest (repair f) (repair f))
        × (Valid p rest (fec_window w) → Passes p b rest (fec_window w) (fec_window w))
  unfolding parse_by_type
  fec-Passes f w = (
    λ h.
        passes p repair (encoding repair_frame_type) repair_frame_type Symbols.append_repair_frame
          Symbols.length_repair_frame Symbols.parse_repair_frame f b rest
          (λ r. read_varint-encoding repair_frame_type r (omega arith)) refl (λ r. refl) refl refl
          (repair_frame-RoundTrips b rest f (h.0) (h.1) (h.2)),
    λ h.
        passes p fec_window (encoding fec_window_frame_type) fec_window_frame_type
          Symbols.append_fec_window_frame Symbols.length_fec_window_frame
          Symbols.parse_fec_window_frame w b rest
          (λ r. read_varint-encoding fec_window_frame_type r (omega arith)) refl (λ r. refl) refl
          refl (fec_window_frame-RoundTrips b rest w (h.0) (h.1)),
  )

  pub source_symbol-Passes :
      (f : Symbols.SourceSymbolFrame)
      → Valid p rest (source_symbol f)
      → Passes p b rest (source_symbol f) (source_symbol (received f))
  unfolding parse_frame parse_by_type
  source_symbol-Passes f (hs, hl) =
      let (body, w, m, h, hd, sz, g) = source_symbol_frame_round_trip b rest f hs hl in
      let t = encoding source_symbol_frame_type in
      record {
        contents = t ++ body;
        appended = w;
        measured = m;
        parsed = rw (append_assoc t body rest) (
            parse_next_typed p (t ++ (body ++ rest)) (body ++ rest) source_symbol_frame_type one_rtt
              (read_varint-encoding source_symbol_frame_type (body ++ rest) (omega arith)) refl
            ∙ rw g refl);
      }
