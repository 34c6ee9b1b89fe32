-- ===== src/Registry.antt =====
-- kailab/repo/registry.go: the registry of open repositories with its LRU list.
pub mod State
pub mod Calls
pub mod Elements
pub mod Eviction
pub mod Shrinking
pub mod Capacity
pub mod Opening
pub mod Reaper
pub mod Sections
pub mod Kept
pub mod Closing
pub mod Histories
pub mod Lookup
mod Tests
pub mod Invariant
