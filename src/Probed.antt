-- ===== src/Probed.antt =====
-- SLANG-probed, the prober for network quality: the time arithmetic of util.c, and the results of the
-- client, client.c, and the timestamps of tstamp.c and net.c.
pub mod Util
pub mod Fifo
pub mod Client
pub mod Results
pub mod Counted
pub mod Accounting
pub mod TripTime
pub mod Tstamp
pub mod Stamps
pub mod Sending
mod Tests
