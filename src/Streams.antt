-- ===== src/Streams.antt =====
-- The maps of the streams of a connection.
pub mod Incoming
pub mod Outgoing
