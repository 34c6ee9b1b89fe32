-- ===== src/Segments.antt =====
-- kailab/pack/segment.go with the tables of kailab/store that it writes and reads.
pub mod Tables
pub mod Ingest
pub mod Integrity
pub mod Ingestion
pub mod RoundTrip
pub mod Panics
mod Tests
