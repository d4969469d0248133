-- ===== src/Protocol/StreamId/Numbering.antt =====
-- internal/protocol/stream.go: identifiers, numbers, types and initiators.
use x_fec.Base.{ℕ, ◌+◌, ◌-◌, ◌*◌, ◌≤◌, ◌≡◌, arith, some}
use x_fec.Wire.Control.{StreamType, uni, bidi}
use x_fec.Protocol.StreamId.{
  Perspective, server, client, first_stream_id, stream_id_of, initiated_by, stream_type, stream_num,
}

-- The identifier of a stream number from 1 on gives back the number, the type and the initiator.
pub stream_id_of_lem :
    (s : ℕ) (t : StreamType) (p : Perspective)
    → 1 ≤ s
    → (id : ℕ) × (stream_id_of s t p ≡ some id)
      × (stream_num id ≡ s)
      × (stream_type id ≡ t)
      × (initiated_by id ≡ p)
unfolding stream_id_of first_stream_id initiated_by stream_type stream_num
stream_id_of_lem s bidi client h =
    (0 + 4 * (s - 1), ground arith, omega arith, ground arith, ground arith)
stream_id_of_lem s bidi server h =
    (1 + 4 * (s - 1), ground arith, omega arith, ground arith, ground arith)
stream_id_of_lem s uni client h =
    (2 + 4 * (s - 1), ground arith, omega arith, ground arith, ground arith)
stream_id_of_lem s uni server h =
    (3 + 4 * (s - 1), ground arith, omega arith, ground arith, ground arith)

-- Every identifier is that of its number, type and initiator.
pub stream_id_of-stream_num :
    (id : ℕ) → stream_id_of (stream_num id) (stream_type id) (initiated_by id) ≡ some id
unfolding stream_id_of first_stream_id initiated_by stream_type stream_num
stream_id_of-stream_num id = ground arith
