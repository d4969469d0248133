-- ===== src/Wire/Symbols/Tests.antt =====
-- internal/wire: the source symbol frame, at a concrete input.
use x_fec.Base.{ℕ, ◌+◌, List, [], ◌∷◌, ◌++◌, ok, ◌≡◌, arith, length}
use x_fec.Varint.Codec.{encoding}
use x_fec.Wire.Symbols.{
  SourceSymbolFrame, parse_source_symbol_frame, append_source_symbol_frame,
  length_source_symbol_frame, source_symbol_frame_type, header_len_source_symbol_frame,
}
use x_fec.Wire.Symbols.RoundTrip.{source_symbol_frame_round_trip, received}

abbrev symbol : SourceSymbolFrame
symbol = record { ssid = 70000; payload = record { bytes = 5 ∷ 6 ∷ []; spare = [] } }

source_symbol_frame_round_trip_example :
    (body : List ℕ) × (append_source_symbol_frame (1 ∷ []) symbol
      ≡ ok (1 ∷ (encoding source_symbol_frame_type ++ body)))
    × (length_source_symbol_frame symbol ≡ ok (length (encoding source_symbol_frame_type ++ body)))
    × (h : ℕ) × (header_len_source_symbol_frame symbol ≡ ok h)
    × (h + 2 ≡ length (encoding source_symbol_frame_type ++ body))
    × (parse_source_symbol_frame (body ++ 9 ∷ []) ≡ ok (received symbol, 9 ∷ []))
source_symbol_frame_round_trip_example =
    source_symbol_frame_round_trip (1 ∷ []) (9 ∷ []) symbol (omega arith) (omega arith)
