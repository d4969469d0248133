-- ===== src/Protocol.antt =====
-- internal/protocol: packet numbers and stream identifiers.
pub mod PacketNumber
pub mod StreamId
