-- ===== src/Persistence/Wal.antt =====
-- hiveguard-core/src/persistence/wal.rs: the write-ahead log as a file of bytes.
-- A write may fail after any number of bytes of a record have reached the file; a read fails only at
-- the end of the file. postcard and crc32fast are a parameter.
pub mod Bytes
pub mod Replay
pub mod Torn
pub mod Log
pub mod Writer
pub mod Durable
use hiveguard.Prelude.{
  ℕ, zero, suc, ◌+◌, ◌*◌, ◌/◌, ◌%◌, ◌^◌, ◌<◌, ◌≡◌, Bool, true, false, List, [], ◌∷◌, ◌++◌, Option,
  none, some, length, take, ltb, ◌==◌, not, if◌then◌else◌, ◌>>=◌, ◌>>◌, guard, is_empty,
}
use hiveguard.Net.{IpNet}
use hiveguard.Models.{BanRecord}
use hiveguard.Crdt.{CrdtBanRecord}
use hiveguard.Errors.{HiveGuardError, Result}

pub data WalEntry : Type 0 where
  add_ban : BanRecord → WalEntry
  remove_ban : IpNet → WalEntry
  add_whitelist : IpNet → WalEntry
  remove_whitelist : IpNet → WalEntry
  add_crdt_ban : CrdtBanRecord → WalEntry
  tombstone_crdt_ban : IpNet → WalEntry
  revoke_ban : IpNet → ℕ → WalEntry

pub data WalSyncMode : Type 0 where
  fdatasync : WalSyncMode
  sync : WalSyncMode
  no_sync : WalSyncMode

-- What the source uses of postcard (an encoding that may fail, and a decoder that returns the rest)
-- and of crc32fast.
pub record Codec : Type 0 where
  pub to_allocvec : WalEntry → Option (List ℕ)
  pub take_from_bytes : List ℕ → Option (WalEntry × List ℕ)
  pub hash : List ℕ → ℕ
  pub decode_encode :
      (e : WalEntry) (payload : List ℕ)
      → to_allocvec e ≡ some payload
      → take_from_bytes payload ≡ some (e, [])
  pub hash_below : (payload : List ℕ) → hash payload < 2 ^ 32

-- `WAL_MAX_RECORD_SIZE`: 16 MiB.
unfoldable pub wal_max_record_size : ℕ
wal_max_record_size = 16 * 1024 * 1024

unfoldable pub to_le_bytes : ℕ → List ℕ
to_le_bytes n = n % 256 ∷ n / 256 % 256 ∷ n / 65536 % 256 ∷ n / 16777216 % 256 ∷ []

unfoldable pub from_le_bytes : List ℕ → ℕ
from_le_bytes [] = 0
from_le_bytes (b ∷ bs) = b + 256 * from_le_bytes bs

-- `read_exact`: the next `n` bytes and the rest, unless the file ends before.
unfoldable pub read_exact : ℕ → List ℕ → Option (List ℕ × List ℕ)
read_exact zero bs = some ([], bs)
read_exact (suc n) [] = none
read_exact (suc n) (b ∷ bs) = read_exact n bs >>= λ r. some (b ∷ r.0, r.1)

pub record WalWriter : Type 0 where
  pub file : List ℕ
  pub sync_mode : WalSyncMode
  pub write_failed : Bool

module _ (codec : Codec) where
  -- The bytes of a record.
  unfoldable pub record_bytes : List ℕ → List ℕ
  record_bytes payload =
      to_le_bytes (length payload) ++ (payload ++ to_le_bytes (codec.hash payload))

  -- The first half of an iteration: the payload of a record, and the bytes after it; `none` where
  -- the loop ends.
  unfoldable pub read_payload : List ℕ → Option (List ℕ × List ℕ)
  read_payload bytes = do
    head ← read_exact 4 bytes
    guard (not (ltb wal_max_record_size (from_le_bytes head.0)))
    body ← read_exact (from_le_bytes head.0) head.1
    tail ← read_exact 4 body.1
    guard (from_le_bytes tail.0 == codec.hash body.0)
    some (body.0, tail.1)

  -- The second half: the entry, the size of its record, and the bytes after it.
  unfoldable pub read_record : List ℕ → Option (WalEntry × (ℕ × List ℕ))
  read_record bytes = do
    frame ← read_payload bytes
    decoded ← codec.take_from_bytes frame.0
    guard (is_empty decoded.1)
    some (decoded.0, (4 + length frame.0 + 4, frame.1))

  -- The loop, on fuel: the entries, and the offset of the end of the last one.
  unfoldable pub replay_loop : ℕ → List ℕ → List WalEntry × ℕ
  replay_loop zero bytes = ([], 0)
  replay_loop (suc fuel) bytes = elim (read_record bytes) [
    | none ↦ ([], 0)
    | some r ↦ let rest = replay_loop fuel r.1.1 in (r.0 ∷ rest.0, r.1.0 + rest.1)
  ]

  -- Every iteration but the last reads at least 8 bytes.
  unfoldable pub replay_with_offset : List ℕ → List WalEntry × ℕ
  replay_with_offset bytes = replay_loop (suc (length bytes)) bytes

  unfoldable pub replay : List ℕ → List WalEntry
  replay bytes = (replay_with_offset bytes).0

  unfoldable pub replay_strict : List ℕ → Result (List WalEntry)
  replay_strict bytes =
      let r = replay_with_offset bytes in
      if not (r.1 == length bytes) then Result.err HiveGuardError.storage else Result.ok r.0

  -- The file is cut after its last valid record.
  unfoldable pub open_writer : List ℕ → WalSyncMode → WalWriter
  open_writer bytes mode =
      let valid_end = (replay_with_offset bytes).1 in
      record {
        file = if not (length bytes == valid_end) then take valid_end bytes else bytes;
        sync_mode = mode;
        write_failed = false;
      }

  -- The first argument is what the disk does: `none` writes and syncs the record, `some k` fails
  -- once `k` of its bytes are in the file.
  unfoldable pub append : Option ℕ → WalEntry → WalWriter → WalWriter × Result (Unit {0})
  append fault entry w =
      if w.write_failed
      then (w, Result.err HiveGuardError.storage)
      else elim (codec.to_allocvec entry) [
        | none ↦ (w, Result.err HiveGuardError.storage)
        | some payload ↦
            if ltb wal_max_record_size (length payload)
            then (w, Result.err HiveGuardError.storage)
            else elim fault [
              | none ↦ (record w { file = w.file ++ record_bytes payload }, Result.ok tt)
              | some k ↦ (
                record w { file = w.file ++ take k (record_bytes payload); write_failed = true },
                Result.err HiveGuardError.io,
              )
            ]
      ]

unfoldable pub truncate : WalWriter → WalWriter
truncate w = record w { file = []; write_failed = false }
