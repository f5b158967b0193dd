-- ===== src/Wire.antt =====
-- quic-go/internal/wire and the byte order of quic-go/internal/utils: reading and writing frames.
pub mod Bytes
pub mod Stream
pub mod Control
pub mod Float16
pub mod Ack
