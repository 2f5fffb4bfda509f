-- ===== src/Is.antt =====
-- The IS benchmark of NPB-CPUTests: the bucket sort of is.c.
pub mod Loops
pub mod Ranking
pub mod Counting
pub mod Tallies
pub mod Buckets
pub mod Ranks
pub mod Places
pub mod Sorted
mod Tests
