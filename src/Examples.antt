-- ===== src/Examples.antt =====
-- The theorems at concrete values, one module for each part of the program.
mod Wire
mod AckHandler
mod Sent
mod Streams
mod Transfer
mod Session
mod Flow
mod Sbd
mod Congestion
