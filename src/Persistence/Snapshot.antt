-- ===== src/Persistence/Snapshot.antt =====
-- hiveguard-core/src/persistence/snapshot.rs: the snapshot file as bytes, in the format that is
-- written and the four that are read. postcard and bincode are a parameter.
use hiveguard.Prelude.{
  ℕ, ◌*◌, ◌≡◌, Bool, List, [], ◌∷◌, ◌++◌, Option, none, some, length, ltb, is_empty, if◌then◌else◌,
}
use hiveguard.Net.{IpNet}
use hiveguard.Models.{BanRecord}
use hiveguard.Crdt.{CrdtBanRecord}
use hiveguard.Crypto.{Bytes, bytes_beq}
use hiveguard.Errors.{HiveGuardError, Result, ok, err}
use hiveguard.Persistence.Wal.{read_exact}

pub record SnapshotDataV1 : Type 0 where
  pub bans : List BanRecord
  pub whitelist : List IpNet

pub record SnapshotDataV2 : Type 0 where
  pub bans : List BanRecord
  pub whitelist : List IpNet
  pub crdt_bans : List CrdtBanRecord

pub record SnapshotDataV4 : Type 0 where
  pub bans : List BanRecord
  pub whitelist : List IpNet
  pub crdt_bans : List CrdtBanRecord
  pub revocations : List (IpNet × ℕ)

pub record SnapshotResult : Type 0 where
  pub bans : List BanRecord
  pub whitelist : List IpNet
  pub crdt_bans : List CrdtBanRecord
  pub revocations : List (IpNet × ℕ)

-- What the source uses of postcard (an encoding that may fail, and decoders that return the rest),
-- and of bincode for the two oldest formats.
pub record SnapshotCodec : Type 0 where
  pub to_allocvec : SnapshotDataV4 → Option Bytes
  pub take_v4 : Bytes → Option (SnapshotDataV4 × Bytes)
  pub take_v2 : Bytes → Option (SnapshotDataV2 × Bytes)
  pub deserialize_v2 : Bytes → Option SnapshotDataV2
  pub deserialize_v1 : Bytes → Option SnapshotDataV1
  pub decode_encode :
      (contents : SnapshotDataV4) (payload : Bytes)
      → to_allocvec contents ≡ some payload
      → take_v4 payload ≡ some (contents, [])

-- `HVGD000`, and the number of the format.
unfoldable pub magic : ℕ → Bytes
magic digit = b'H' ∷ b'V' ∷ b'G' ∷ b'D' ∷ b'0' ∷ b'0' ∷ b'0' ∷ digit ∷ []

-- `SNAPSHOT_MAX_SIZE`: 256 MiB.
unfoldable pub snapshot_max_size : ℕ
snapshot_max_size = 256 * 1024 * 1024

unfoldable pub of_v4 : SnapshotDataV4 → SnapshotResult
of_v4 contents = record {
  bans = contents.bans;
  whitelist = contents.whitelist;
  crdt_bans = contents.crdt_bans;
  revocations = contents.revocations;
}

unfoldable pub of_v2 : SnapshotDataV2 → SnapshotResult
of_v2 contents = record {
  bans = contents.bans;
  whitelist = contents.whitelist;
  crdt_bans = contents.crdt_bans;
  revocations = [];
}

unfoldable pub of_v1 : SnapshotDataV1 → SnapshotResult
of_v1 contents = record {
  bans = contents.bans;
  whitelist = contents.whitelist;
  crdt_bans = [];
  revocations = [];
}

-- What was decoded, unless bytes are left over.
unfoldable pub whole :
    {A : Type 0} → (A → SnapshotResult) → Option (A × Bytes) → Result SnapshotResult
whole of none = Result.err HiveGuardError.storage
whole of (some (contents, tail)) =
    if is_empty tail then Result.ok (of contents) else Result.err HiveGuardError.storage

unfoldable pub decoded : {A : Type 0} → (A → SnapshotResult) → Option A → Result SnapshotResult
decoded of none = Result.err HiveGuardError.storage
decoded of (some contents) = Result.ok (of contents)

module _ (format : SnapshotCodec) where
  -- The bytes of the file, unless the encoding fails. `written` is whether every file operation
  -- succeeds: the file is written beside the old one and then takes its place, or the old one stays.
  unfoldable pub save_snapshot_with_revocations :
      Bool → List BanRecord → List IpNet → List CrdtBanRecord → List (IpNet × ℕ) → Result Bytes
  save_snapshot_with_revocations written bans whitelist crdt_bans revocations =
      elim (format.to_allocvec (record {
        bans = bans;
        whitelist = whitelist;
        crdt_bans = crdt_bans;
        revocations = revocations;
      })) [
        | none ↦ Result.err HiveGuardError.storage
        | some encoded ↦
            if written then Result.ok (magic b'4' ++ encoded) else Result.err HiveGuardError.io
      ]

  -- What follows the magic number.
  unfoldable pub decode_as : Bytes → Bytes → Result SnapshotResult
  decode_as found encoded =
      if bytes_beq found (magic b'4')
      then whole of_v4 (format.take_v4 encoded)
      else if bytes_beq found (magic b'3')
      then whole of_v2 (format.take_v2 encoded)
      else if bytes_beq found (magic b'2')
      then decoded of_v2 (format.deserialize_v2 encoded)
      else if bytes_beq found (magic b'1')
      then decoded of_v1 (format.deserialize_v1 encoded)
      else Result.err HiveGuardError.storage

  unfoldable pub load_snapshot_v2 : Bytes → Result SnapshotResult
  load_snapshot_v2 file =
      if ltb snapshot_max_size (length file)
      then Result.err HiveGuardError.storage
      else elim (read_exact 8 file) [
        | none ↦ Result.err HiveGuardError.io
        | some r ↦ decode_as r.0 r.1
      ]

  unfoldable pub save_snapshot_v2 :
      Bool → List BanRecord → List IpNet → List CrdtBanRecord → Result Bytes
  save_snapshot_v2 written bans whitelist crdt_bans =
      save_snapshot_with_revocations written bans whitelist crdt_bans []

  unfoldable pub save_snapshot : Bool → List BanRecord → List IpNet → Result Bytes
  save_snapshot written bans whitelist = save_snapshot_v2 written bans whitelist []

  unfoldable pub load_snapshot : Bytes → Result (List BanRecord × List IpNet)
  load_snapshot file = elim (load_snapshot_v2 file) [
    | err x ↦ Result.err x
    | ok result ↦ Result.ok (result.bans, result.whitelist)
  ]
