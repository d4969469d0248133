-- ===== src/Protocol/PacketNumber/Decode.antt =====
-- internal/protocol/packet_number.go: DecodePacketNumber and the length that the sender chooses.
use x_fec.Base.{ℕ, ◌+◌, ◌-◌, ◌*◌, ◌%◌, ◌^◌, ◌<◌, ◌≤◌, ◌≡◌, ◌⊎◌, inl, inr, arith}
use x_fec.Protocol.PacketNumber.{
  epoch_size, epoch_begin, delta, closest_to, decode_in, decode_packet_number,
  packet_number_length_for_header,
}

-- Twice the distance of `pn` from the number after `last` is below `size`.
abbrev pub IsNear : ℕ → ℕ → ℕ → Type 0
IsNear size last pn = (2 * (last + 1) < 2 * pn + size) × (2 * pn < 2 * (last + 1) + size)

decode_in_lem :
    (size epoch last wire pn : ℕ)
    → (epoch ≡ 0) ⊎ (size ≤ epoch)
    → epoch ≤ last
    → last < epoch + size
    → wire < size
    → IsNear size last pn
    → (pn ≡ epoch + wire)
      ⊎ ((pn ≡ epoch + size + wire) ⊎ ((size ≤ epoch) × (pn + size ≡ epoch + wire)))
    → decode_in size epoch last wire ≡ pn
unfolding decode_in closest_to delta
decode_in_lem size epoch last wire pn whole lo hi w near which = ground arith

-- The case of a length whose numbers are `size`.
decode_size :
    (size last pn : ℕ)
    → (size ≡ 256) ⊎ ((size ≡ 65536) ⊎ ((size ≡ 16777216) ⊎ (size ≡ 4294967296)))
    → IsNear size last pn
    → decode_in size (epoch_begin last size) last (pn % size) ≡ pn
unfolding epoch_begin
decode_size size last pn (inl e) near = rw e (
    decode_in_lem 256 (last - last % 256) last (pn % 256) pn (omega arith) (omega arith)
      (omega arith) (omega arith) (omega arith) (omega arith))
decode_size size last pn (inr (inl e)) near = rw e (
    decode_in_lem 65536 (last - last % 65536) last (pn % 65536) pn (omega arith) (omega arith)
      (omega arith) (omega arith) (omega arith) (omega arith))
decode_size size last pn (inr (inr (inl e))) near = rw e (
    decode_in_lem 16777216 (last - last % 16777216) last (pn % 16777216) pn (omega arith)
      (omega arith) (omega arith) (omega arith) (omega arith) (omega arith))
decode_size size last pn (inr (inr (inr e))) near = rw e (
    decode_in_lem 4294967296 (last - last % 4294967296) last (pn % 4294967296) pn (omega arith)
      (omega arith) (omega arith) (omega arith) (omega arith) (omega arith))

-- With a length of one to four bytes, a packet number less than half of the numbers of that length
-- away from the one that the receiver expects is found again from its low bytes.
pub decode_packet_number_lem :
    (length last pn : ℕ)
    → 1 ≤ length
    → length ≤ 4
    → IsNear (epoch_size length) last pn
    → decode_packet_number length last (pn % epoch_size length) ≡ pn
unfolding decode_packet_number
decode_packet_number_lem length last pn lo hi near =
    decode_size (epoch_size length) last pn (unfold epoch_size in ground arith) near

-- A sender cuts a packet number to the length that it chooses for the least unacknowledged number. If
-- the two are less than 2^31 apart, a receiver decodes the number, whichever number not above it the
-- receiver saw last, as long as that is the one before the least unacknowledged or a later one.
pub header_length_decodes :
    (pn least last : ℕ)
    → least ≤ pn
    → pn < least + 2 ^ 31
    → least ≤ last + 1
    → last ≤ pn
    → decode_packet_number
        (packet_number_length_for_header pn least)
        last
        (pn % epoch_size (packet_number_length_for_header pn least))
      ≡ pn
header_length_decodes pn least last le close lo hi =
    decode_packet_number_lem (packet_number_length_for_header pn least) last pn
      (unfold packet_number_length_for_header in ground arith)
      (unfold packet_number_length_for_header in ground arith)
      (unfold packet_number_length_for_header epoch_size in ground arith)
