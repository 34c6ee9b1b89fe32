-- ===== src/Refs.antt =====
-- kailab/store, the refs of a repository and their history, and the calls that update several refs.
pub mod Tables
pub mod Batch
pub mod BatchLaws
pub mod Log
pub mod Updates
pub mod Swap
pub mod Sessions
pub mod Interleaved
pub mod Races
pub mod Alone
mod Tests
