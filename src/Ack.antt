-- ===== src/Ack.antt =====
-- internal/ackhandler: the packets that were received and sent, and the validation of ECN.
pub mod History
pub mod Ecn
pub mod Sent
