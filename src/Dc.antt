-- ===== src/Dc.antt =====
-- The DC benchmark of NPB-CPUTests: the red-black tree of rbt.c, in which a view of the data cube is
-- aggregated.
pub mod Row
pub mod Tree
pub mod Inorder
pub mod Insert
pub mod Order
pub mod Balance
pub mod Height
pub mod Disk
pub mod Written
pub mod Pool
pub mod Aggregate
pub mod Chunks
pub mod MergeLoop
pub mod Reading
pub mod Choosing
pub mod Pending
pub mod Absorb
pub mod MergeStep
pub mod Rounds
pub mod Merging
pub mod Formation
pub mod Runs
pub mod Forming
pub mod Saved
pub mod Saving
pub mod External
pub mod Groupby
mod Tests
mod ExternalTests
