-- ===== src/Sshserver.antt =====
-- kailab/sshserver: the git wire protocol and packs.
pub mod Protocol
pub mod Delta
pub mod Unpack
