-- ===== src/Lib.antt =====
-- The forward error correction of 0xFEC, a QUIC implementation in Go that protects packets by source
-- and repair symbols, the frames that carry it, and the parts of the transport below it that keep state
-- of their own: flow control, ECN validation, the histories of received and of sent packets, the
-- connection identifiers of the peer, and the maps of the streams of each side.
--
-- A sender wraps the data to protect in source symbol frames, numbered by source symbol IDs. Each
-- block of consecutive IDs gets repair symbols from the scheme of the connection. A receiver passes
-- up each source symbol that arrives, keeps it in its block, and asks the scheme for the lost symbols
-- once enough symbols of the block are there. The frames are encoded with the variable-length
-- integers of QUIC.
--
-- The parts, and the code that they model:
--   Varint         quicvarint/varint.go: Read, Append, AppendWithLen and Len.
--   Wire.Symbols   internal/wire/fec_repair_frame.go, fec_source_symbol_frame.go, fec_window_frame.go.
--   Wire.Control   internal/wire: MAX_DATA, DATA_BLOCKED, MAX_STREAM_DATA, STREAM_DATA_BLOCKED,
--                  MAX_STREAMS, STREAMS_BLOCKED, STOP_SENDING, RESET_STREAM, RETIRE_CONNECTION_ID.
--   Wire.Data      internal/wire: CRYPTO, NEW_TOKEN, PATH_CHALLENGE, PATH_RESPONSE, DATAGRAM.
--   Wire.Stream    internal/wire/stream_frame.go.
--   Fec.Block      internal/fec/block.go: newBlock, addSourceSymbol, addRepairSymbol, isRecoverable,
--                  isComplete.
--   Fec.Scheme     internal/fec/scheme.go, the interface between the manager and a scheme.
--   Fec.Xor        internal/fec/xor.go: repairSymbols and recoverSymbolPayloads.
--   Fec.ReedSolomon  internal/fec/reed_solomon.go, over a coder that is a parameter.
--   Fec.Manager    internal/fec/manager.go: NewSender, NewReceiver, NewManager, NextSSID,
--                  AddSourceSymbolFrame, HandleRepairFrame, HandleSourceSymbolFrame.
--   Wire.Connection  internal/wire/new_connection_id_frame.go, connection_close_frame.go.
--   Protocol       internal/protocol/packet_number.go and stream.go.
--   Ack.History    internal/ackhandler/received_packet_history.go: ReceivedPacket, DeleteBelow,
--                  AppendAckRanges, GetHighestAckRange, IsPotentiallyDuplicate.
--   Wire.Ack       internal/wire/ack_frame.go, ack_range.go.
--   Wire.Parser    internal/wire/frame_parser.go: ParseNext, the dispatch on the frame type and the
--                  encryption levels. The loop runs on as many rounds as there are bytes, which is
--                  enough, since each round reads at least one.
--   Flow           internal/flowcontrol: the base, connection and stream controllers. A stream's
--                  operation takes the connection's controller and gives it back. The clock, the
--                  smoothed RTT, the float product of the auto-tuning and the callback that allows
--                  an increase are arguments. Three quarters and one and a half of a window
--                  size are rounded as float64 does it.
--   Ack.Ecn        internal/ackhandler/ecn.go.
--   Util.RingBuffer internal/utils/ringbuffer/ringbuffer.go, over any type with a zero value.
--   Ack.Sent       internal/ackhandler/sent_packet_history.go and packet.go, all but Iterate.
--   ConnId.Manager conn_id_manager.go. The calls of the callbacks are a list of effects, and the random
--                  numbers are arguments.
--   Streams.Incoming streams_map_incoming.go, over any type of streams. Of the channel that wakes
--                  AcceptStream, only that it is closed with the map.
--   Streams.Outgoing streams_map_outgoing.go. OpenStreamSync is one step up to where it waits, and one
--                  step for each time that it goes on, or is cancelled. The loop of unblockOpenSync
--                  runs on as many rounds as its bounds have places.
-- A method parseX is parse_x here, X.Append is append_x, X.Length is length_x, X.MaxDataLen is
-- max_data_len_x. Go names are kept otherwise, in snake case.
--
-- How the code is modelled:
--   * A byte and an unsigned integer are natural numbers; wrap-around is written out (u8, u64, % 2 ^ w).
--     The signed length of the biggest symbol is an integer, since a short repair payload makes it
--     negative.
--   * A bytes.Reader is the list of bytes that are left. A slice is its elements, and where the
--     capacity matters also the elements of the array behind them (Wire.Slice).
--   * A Go map is an association list (Base.Dict). Where the code ranges over a map the order is that of
--     the list.
--   * Errors and panics are values of a sum type per component, so `ok` excludes both.
--   * A method that changes its receiver returns the new state with its result.
--   * Loops are structural recursion over the list, or over the number of rounds, which is computed from
--     the bounds in the code. The one loop that can run on forever, over the identifiers up to the
--     greatest uint64, is the error `endless`.
--
-- Not modelled: the coder of github.com/klauspost/reedsolomon, which is a parameter; the mutex of
-- NextSSID, whose call is one step; the pools of buffers; sockets, timers, the handshake, congestion
-- control, HTTP/3 and logging, which the parts above do not depend on.
pub mod Ack
pub mod Base
pub mod ConnId
pub mod Fec
pub mod Flow
pub mod Protocol
pub mod Streams
pub mod Util
pub mod Varint
pub mod Wire
