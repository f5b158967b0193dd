-- ===== src/Sbd.antt =====
-- Shared-bottleneck detection: which paths share a bottleneck.
pub mod Grouping
