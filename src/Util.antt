-- ===== src/Util.antt =====
-- internal/utils: data structures that the other parts share.
pub mod RingBuffer
