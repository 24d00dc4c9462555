-- ===== src/S1.antt =====
-- The S1 interface (mme/S1): associations with eNodeBs and the connections of users.
pub mod Session
pub mod Store
pub mod Association
pub mod Machine
pub mod Links
pub mod Release
pub mod Empty
pub mod Consistency
pub mod Connection
pub mod Steps
pub mod Closing
pub mod Invariant
pub mod Ending
pub mod Laws
pub mod Served
pub mod SetupTests
pub mod Setup
mod Runs
