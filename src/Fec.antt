-- ===== src/Fec.antt =====
-- internal/fec: block forward erasure correction, the code that this repository adds to quic-go.
-- `Block` collects the symbols of one block, `Xor` and `ReedSolomon` are the two schemes, and
-- `Manager` keeps the blocks of a connection.
pub mod Errors
pub mod Block
pub mod Scheme
pub mod Xor
pub mod ReedSolomon
pub mod Manager
