-- ===== src/Wire/Parser/Tests.antt =====
-- internal/wire/frame_parser.go: runs at concrete inputs.
use x_fec.Base.{◌≡◌, refl, [], ◌∷◌, true, arith}
use x_fec.Wire.Parser.{Frame, path_challenge, FrameParser, one_rtt, initial, parse_next, parse_loop}
use x_fec.Wire.Parser.RoundTrip.{Passes}
use x_fec.Wire.Parser.All.{Arrives, append_frame-parse_next}
use x_fec.Wire.Parser.Padding.{parse_loop_enough}
use x_fec.Wire.Parser.Levels.{AtLevel, parse_next-AtLevel}

abbrev parser : FrameParser
parser = record {
  ack_delay_exponent = 3;
  supports_datagrams = true;
  ack_frame = record { ack_ranges = []; delay_time = 0; ect0 = 0; ect1 = 0; ecnce = 0 };
}

abbrev challenge : Frame
challenge = path_challenge (record { contents = 8 ∷ 7 ∷ 6 ∷ 5 ∷ 4 ∷ 3 ∷ 2 ∷ 1 ∷ [] })

append_frame-parse_next_example :
    (f' : Frame) × Arrives challenge f' × Passes parser (0x40 ∷ []) (0x1 ∷ 0x0 ∷ []) challenge f'
append_frame-parse_next_example =
    append_frame-parse_next parser (0x40 ∷ []) (0x1 ∷ 0x0 ∷ []) challenge refl

parse_loop_enough_example :
    parse_loop 9 parser one_rtt (0 ∷ 0 ∷ 0x1 ∷ []) ≡ parse_next parser (0 ∷ 0 ∷ 0x1 ∷ []) one_rtt
parse_loop_enough_example = parse_loop_enough 9 parser one_rtt (0 ∷ 0 ∷ 0x1 ∷ []) (omega arith)

parse_next-AtLevel_example :
    AtLevel initial (parse_next parser (0x1e ∷ []) one_rtt) (parse_next parser (0x1e ∷ []) initial)
parse_next-AtLevel_example = parse_next-AtLevel parser initial (0x1e ∷ []) refl
