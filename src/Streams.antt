-- ===== src/Streams.antt =====
-- quic-go: the streams of a session.
pub mod Sorter
pub mod Stream
pub mod Open
pub mod Framer
