-- ===== src/Protocol/StreamId.antt =====
-- internal/protocol/stream.go, for identifiers that are not negative and below 2^62, so that `int64`
-- does not wrap. The invalid identifier -1 is `none`.
pub mod Numbering
pub mod Tests
use x_fec.Base.{ℕ, ◌+◌, ◌-◌, ◌*◌, ◌/◌, ◌%◌, leb, ◌==◌, if◌then◌else◌, Option, none, some}
use x_fec.Wire.Control.{StreamType, uni, bidi}

pub data Perspective : Type 0 where
  server client : Perspective

unfoldable pub first_stream_id : StreamType → Perspective → ℕ
first_stream_id bidi client = 0
first_stream_id bidi server = 1
first_stream_id uni client = 2
first_stream_id uni server = 3

unfoldable pub stream_id_of : ℕ → StreamType → Perspective → Option ℕ
stream_id_of s stype pers = if s == 0 then none else some (first_stream_id stype pers + 4 * (s - 1))

unfoldable pub initiated_by : ℕ → Perspective
initiated_by s = if s % 2 == 0 then client else server

unfoldable pub stream_type : ℕ → StreamType
stream_type s = if leb 2 (s % 4) then uni else bidi

unfoldable pub stream_num : ℕ → ℕ
stream_num s = s / 4 + 1
