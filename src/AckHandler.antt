-- ===== src/AckHandler.antt =====
-- quic-go/ackhandler: which packets were received, and when to acknowledge them.
pub mod History
pub mod Received
pub mod Packet
pub mod Sent
