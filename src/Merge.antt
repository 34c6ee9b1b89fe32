-- ===== src/Merge.antt =====
-- kai-core/merge: the 3-way merge of files by their semantic units.
pub mod Types
pub mod Units
pub mod Files
pub mod UnitLaws
pub mod FileLaws
pub mod Provenance
mod Tests
