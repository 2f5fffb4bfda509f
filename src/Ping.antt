-- ===== src/Ping.antt =====
-- The common part of ping and ping6 in iputils-ns: the sequence numbers and the table of received
-- ones (ping.h), and the statistics (ping_common.c).
pub mod Table
pub mod Flight
pub mod Stats
pub mod Pace
pub mod Fairness
pub mod Checksum
pub mod Counting
pub mod Root
mod Tests
