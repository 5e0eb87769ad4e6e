-- ===== src/Lib.antt =====
-- A verification of HiveGuard, an intrusion prevention daemon whose nodes exchange bans.
--
-- The program watches logs; detectors (hiveguard-core/src/detectors) raise signals on what they
-- see, a scoring engine (plugins/scoring-default) adds them up and decides on bans of networks. A
-- ban is stored in memory (hiveguard-core/src/ban_store.rs) behind a state manager
-- (persistence/state_manager.rs of the same crate), which keeps networks of the whitelist
-- (whitelist.rs) out, writes every change to a write-ahead log (persistence/wal.rs) before it
-- changes memory, and recovers from a snapshot and the log. Nodes replicate bans as CRDT records
-- (crdt.rs) stamped by hybrid logical clocks (hlc.rs), exchange what differs and count signed votes
-- before they apply a ban (hiveguard-net/src/gossip.rs), know each other through the peer manager
-- (hiveguard-net/src/peer.rs) and find failed nodes by SWIM rounds
-- (hiveguard-net/src/membership.rs). Rate limits and the quarantine test (anti_poison.rs) bound
-- what a peer can inject, and trust scores (trust.rs) what a reporter weighs. Reports of threat
-- intelligence are cached (hiveguard-cti/src/cache.rs). Conditions of Sigma rules are parsed and
-- evaluated on the selections that match an event (hiveguard-sigma/src/condition.rs).
--
-- Which file models what; a definition bears the name of the function or type it models:
--   Hlc          hlc.rs: HlcTimestamp and its order
--   Crdt         crdt.rs: CrdtBanRecord::{new, merge, is_active, tombstone, extend_ban}; `tombstone`
--                is `vote_tombstone`, since the field has the name too
--   Net, Models  ipnet's types, and models.rs
--   Detectors    detectors/ssh_bruteforce.rs, and what it uses of netkey.rs; Detectors/Counters:
--                detectors/smtp_bruteforce.rs and http_4xx_flood.rs; Detectors/PortScan:
--                detectors/port_scan.rs
--   BanStore     ban_store.rs: InMemoryBanStore and its BanStore implementation
--   Whitelist    whitelist.rs: WhitelistManager
--   Errors       errors.rs: HiveGuardError
--   Persistence.Wal    wal.rs: WalWriter (`open` is `open_writer`) and WalReader
--   Persistence.Snapshot  snapshot.rs: the snapshot file's bytes
--   Persistence.State  state_manager.rs: StateManager; `start` is `new` once the snapshot file is
--                decoded, `recover` its loading and replay; the operations that test addresses are in State/Ops
--   AntiPoison   anti_poison.rs: RateLimiter, check_quarantine, median
--   Crypto       what is used of blake3, ring and bincode; UTF-8
--   Hashcash     hashcash.rs: PowStamp
--   SignedRecord hiveguard-net/src/signed_record.rs: SignedBanRecord and SigningCache (`sign` of the
--                cache is `sign_cached`)
--   Trust        trust.rs: TrustScore and TrustManager
--   Peers        hiveguard-net/src/peer.rs: PeerManager
--   Gossip       hiveguard-net/src/gossip.rs: GossipEngine; the filter of received bans is in
--                Gossip/Filter
--   Merkle       hiveguard-net/src/merkle.rs: MerkleDigest
--   Scoring      plugins/scoring-default/src/lib.rs: DefaultScoringPlugin (`record` is `record_signal`)
--   Sync         hiveguard-net/src/sync.rs: SyncCoordinator; messages.rs: ClusterMessage (`sender_of` is
--                `sender_id`)
--   Membership   hiveguard-net/src/membership.rs: SwimMembership
--   CtiCache     hiveguard-cti/src/cache.rs: CtiCache
--   Sigma        hiveguard-sigma/src/condition.rs: the parser of conditions on tokens, and
--                evaluate_condition
--   Prelude      shared types, lists, maps, sorted sets, orders
--   Tests        runs on concrete inputs
--
-- How state and data are represented. Methods on `&mut self` take the state and return the new one,
-- with the result beside it. `Utc::now()` and the system clock are arguments, numbers of
-- milliseconds (seconds in CtiCache). A HashMap is an association list without repeated keys; where
-- a property depends on that, it is a hypothesis. A HashSet of strings is a sorted list. Counters
-- of fixed width wrap as in a build without overflow checks: 32-bit counters of the clock and of
-- the ban store, and 64-bit times of the clock, are written `% 2 ^ w`. Other sizes and counts are
-- numbers without a bound. Log messages and the texts of errors are left out.
--
-- Third-party code is a parameter with the laws that the source relies on: `NetLib` (ipnet's
-- containment, construction and truncation), `Codec` (postcard's encoding with its round trip,
-- crc32fast's hash below 2 ^ 32), `SnapshotCodec` (postcard's encoding of a snapshot with its
-- round trip, and the decoders of the older formats), `Blake3` (32 bytes), `Ed25519` (its
-- signatures verify), `Crates` (these with bincode's encodings), `Float` (the operations on f64,
-- without laws, and an order for each pass through a map of weights), `Texts` (the texts of
-- networks, which are distinct and without `#`, and of digests), `Rng` (the random choices: a
-- choice of several is among the given ones, and takes none twice). The log's file is its bytes,
-- and every write comes with what the disk does to it: success, or failure after any number of
-- bytes. The snapshot's file is its bytes where it is saved and where a start loads it, and its
-- decoded contents between the two; a snapshot that is saved replaces it whole.
--
-- Fuel: a stamp is mined on the number of attempts that the source allows. The replay of the log
-- runs on the length of the file plus one, and each round reads at least eight bytes; any larger
-- amount gives the same answer. The parser of conditions runs on the number of tokens plus one, and
-- each round of a loop and each parenthesis consumes a token. Everything else is recursion on a
-- list or on a bound that the source counts to.
--
-- Not modelled: the encoding of messages, certificates and transport, Sigma's tokenizer and rules,
-- the other detectors, parsers, queues, enforcement, the daemon's tasks and APIs, the plugin host
-- and plugins, configuration and user interface; and of the modelled parts what a power loss does to
-- writes that were not synced.
pub mod Prelude
pub mod Net
pub mod Models
pub mod Hlc
pub mod Crdt
pub mod BanStore
pub mod Whitelist
pub mod AntiPoison
pub mod CtiCache
pub mod Errors
pub mod Peers
pub mod Membership
pub mod Persistence
pub mod Sigma
pub mod Crypto
pub mod Hashcash
pub mod Detectors
pub mod Gossip
pub mod Merkle
pub mod Scoring
pub mod Sync
pub mod Trust
pub mod SignedRecord
mod Tests
