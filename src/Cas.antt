-- ===== src/Cas.antt =====
-- kai-core/cas/cas.go: canonical JSON and the ids of nodes.
pub mod Json
pub mod Order
pub mod Ids
mod Tests
