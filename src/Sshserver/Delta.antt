-- ===== src/Sshserver/Delta.antt =====
-- kailab/sshserver/delta.go: deltas of git pack files.
pub mod Index
pub mod Encode
pub mod Generate
pub mod Sizes
pub mod Flags
pub mod CopyBytes
pub mod Copies
pub mod LargeCopies
pub mod Matches
pub mod Emits
pub mod Inserts
pub mod RoundTrip
mod Tests
