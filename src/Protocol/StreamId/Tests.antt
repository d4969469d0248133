-- ===== src/Protocol/StreamId/Tests.antt =====
-- The theorems about stream identifiers at concrete numbers.
use x_fec.Base.{ℕ, ◌≡◌, arith, some}
use x_fec.Wire.Control.{bidi}
use x_fec.Protocol.StreamId.{server, stream_id_of, initiated_by, stream_type, stream_num}
use x_fec.Protocol.StreamId.Numbering.{stream_id_of_lem}

stream_id_of_lem_example :
    (id : ℕ) × (stream_id_of 3 bidi server ≡ some id)
    × (stream_num id ≡ 3)
    × (stream_type id ≡ bidi)
    × (initiated_by id ≡ server)
stream_id_of_lem_example = stream_id_of_lem 3 bidi server (omega arith)
