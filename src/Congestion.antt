-- ===== src/Congestion.antt =====
-- quic-go/congestion: how much a sender may have in flight.
pub mod Prr
pub mod SlowStart
pub mod RttStats
