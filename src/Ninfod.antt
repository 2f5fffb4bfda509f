-- ===== src/Ninfod.antt =====
-- ninfod, the node information daemon of iputils-ns: names in the form of DNS (ninfod_name.c).
pub mod Compare
pub mod Ending
pub mod Stuck
pub mod Rounds
pub mod Matching
pub mod Encode
pub mod Encoding
pub mod Node
pub mod Grouped
pub mod Answering
mod Tests
