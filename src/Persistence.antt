-- ===== src/Persistence.antt =====
-- hiveguard-core/src/persistence: the write-ahead log and the state that is recovered from it.
pub mod Wal
pub mod Snapshot
pub mod State
