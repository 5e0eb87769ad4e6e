-- ===== src/Tests.antt =====
-- Runs of the definitions on concrete inputs, and the theorems at concrete inputs.
mod Hlc
mod Crdt
mod NetLib
mod Codec
mod BanStore
mod Wal
mod Whitelist
mod State
mod Sigma
mod AntiPoison
mod Membership
mod CtiCache
mod CratesLib
mod Signed
mod Trust
mod TextsLib
mod Gossip
mod Sync
mod Detectors
mod Scoring
mod Merkle
mod Format
