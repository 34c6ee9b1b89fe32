-- ===== src/Refs/BatchLaws.antt =====
-- kailab/api/routes.go, BatchUpdateRefs: the log behind a batch, its results, and the mirror of
-- snap.latest.
use kai_server.Common.Bytes.{Bytes}
