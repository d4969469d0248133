-- ===== src/Protocol/PacketNumber.antt =====
-- internal/protocol/packet_number.go, for packet numbers that are not negative. The greatest is below
-- 2^62, so `int64` does not wrap.
pub mod Decode
pub mod Tests
use x_fec.Base.{ℕ, ◌+◌, ◌-◌, ◌%◌, ◌^◌, ltb, ◌==◌, if◌then◌else◌}

-- The numbers that a length of one to four bytes tells apart; 0 for another length.
unfoldable pub epoch_size : ℕ → ℕ
epoch_size length =
    if length == 1
    then 256
    else if length == 2
    then 65536
    else if length == 3
    then 16777216
    else if length == 4
    then 4294967296
    else 0

-- `last & ^(epochDelta - 1)`, for a power of two.
unfoldable pub epoch_begin : ℕ → ℕ → ℕ
epoch_begin last size = if size == 0 then 0 else last - last % size

unfoldable pub delta : ℕ → ℕ → ℕ
delta a b = if ltb a b then b - a else a - b

unfoldable pub closest_to : ℕ → ℕ → ℕ → ℕ
closest_to target a b = if ltb (delta target a) (delta target b) then a else b

-- The number that is closest to the expected one, of those in the epoch, before and behind it.
unfoldable pub decode_in : ℕ → ℕ → ℕ → ℕ → ℕ
decode_in size epoch last wire =
    let previous = if ltb size epoch then epoch - size else 0 in
    closest_to (last + 1) (epoch + wire)
      (closest_to (last + 1) (previous + wire) (epoch + size + wire))

unfoldable pub decode_packet_number : ℕ → ℕ → ℕ → ℕ
decode_packet_number length last wire =
    decode_in (epoch_size length) (epoch_begin last (epoch_size length)) last wire

-- For a packet number that is not below the least one unacknowledged.
unfoldable pub packet_number_length_for_header : ℕ → ℕ → ℕ
packet_number_length_for_header packet_number least_unacked =
    let diff = packet_number - least_unacked in
    if ltb diff (2 ^ 15) then 2 else if ltb diff (2 ^ 23) then 3 else 4
