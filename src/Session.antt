-- ===== src/Session.antt =====
-- quic-go: what a session sends, in which packets and on which path.
pub mod Numbers
pub mod Scheduler
pub mod Frames
pub mod Packer
