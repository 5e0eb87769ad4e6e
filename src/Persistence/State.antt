-- ===== src/Persistence/State.antt =====
-- hiveguard-core/src/persistence/state_manager.rs: the state that the daemon keeps, each change
-- written to the log before memory changes.
-- `disk` is what the disk will do: an outcome for each coming write, success once the list is used
-- up. `snapshot` is what the snapshot file holds once decoded; its bytes go through `take_snapshot`
-- and `new`, and their format is in Persistence/Snapshot.

pub mod Ops
pub mod Recovery
pub mod Restart
pub mod Tombstone
pub mod Admission
pub mod Done
pub mod Protected
pub mod Keyed
pub mod Reload
pub mod Snapshot
use Prim.Native.Nat.{max}
use hiveguard.Prelude.{
  ℕ, ◌+◌, ◌≡◌, Bool, true, false, not, ◌&&◌, ◌||◌, List, [], ◌∷◌, ◌++◌, map, Option, none, some,
  leb, ltb, any, find, filter, if◌then◌else◌,
}
use hiveguard.Prelude.Map.{HashMap, lookup, insert, is_some}
use hiveguard.Net.{IpNet, NetLib, net_eq, addr, beq}
use hiveguard.Models.{BanRecord}
use hiveguard.Crdt.{CrdtBanRecord, merge, is_active}
use hiveguard.BanStore
use hiveguard.BanStore.{InMemoryBanStore, covering_bans, get_all_bans}
use hiveguard.Whitelist
use hiveguard.Whitelist.{WhitelistManager, overlaps}
use hiveguard.Errors.{HiveGuardError, Result, ok, err}
use hiveguard.Crypto.{Bytes}
use hiveguard.Persistence.Snapshot.{
  SnapshotResult, SnapshotCodec, save_snapshot_with_revocations, load_snapshot_v2,
}
use hiveguard.Persistence.Wal.{
  WalEntry, WalWriter, Codec, WalSyncMode, append, replay, truncate, open_writer,
}

pub record Memory : Type 0 where
  pub ban_store : InMemoryBanStore
  pub whitelist : WhitelistManager
  pub crdt_store : HashMap IpNet CrdtBanRecord
  pub revocations : HashMap IpNet ℕ

pub record StateManager : Type 0 where
  pub memory : Memory
  pub wal_writer : WalWriter
  pub snapshot : Option SnapshotResult
  pub disk : List (Option ℕ)

pub data BanAdmission : Type 0 where
  added : BanAdmission
  extended : Option ℕ → BanAdmission
  already_covered : IpNet → Option ℕ → BanAdmission

-- `MIN_BAN_EXTENSION`: 5 minutes, in milliseconds.
abbrev pub min_ban_extension : ℕ
min_ban_extension = 300000

unfoldable pub empty_memory : Memory
empty_memory = record {
  ban_store = BanStore.new;
  whitelist = Whitelist.new;
  crdt_store = [];
  revocations = [];
}

-- `extend` on a map.
unfoldable pub insert_all {ℓ} : {V : Type ℓ} → List (IpNet × V) → HashMap IpNet V → HashMap IpNet V
insert_all [] m = m
insert_all ((k, v) ∷ kvs) m = insert_all kvs (insert k v m)

unfoldable pub add_bans : List BanRecord → InMemoryBanStore → InMemoryBanStore
add_bans [] s = s
add_bans (r ∷ rs) s = add_bans rs (BanStore.add_ban r s)

unfoldable pub add_nets : List IpNet → WhitelistManager → WhitelistManager
add_nets [] w = w
add_nets (n ∷ ns) w = add_nets ns (Whitelist.add n w)

-- The memory of a snapshot, or an empty one.
unfoldable pub load : Option SnapshotResult → Memory
load none = empty_memory
load (some snap) = record {
  ban_store = add_bans snap.bans BanStore.new;
  whitelist = add_nets snap.whitelist Whitelist.new;
  crdt_store = insert_all (map (λ r. (r.subject, r)) snap.crdt_bans) [];
  revocations = insert_all snap.revocations [];
}

-- Merges into the record that is there, and leaves it where the merge refuses.
unfoldable pub merge_into :
    CrdtBanRecord → HashMap IpNet CrdtBanRecord → HashMap IpNet CrdtBanRecord
merge_into r store = elim (lookup r.subject store) [
  | none ↦ insert r.subject r store
  | some existing ↦ elim (merge existing r) [
    | none ↦ store
    | some both ↦ insert r.subject both store
  ]
]

-- Sets the flag of the record that is there.
unfoldable pub set_tombstone : IpNet → HashMap IpNet CrdtBanRecord → HashMap IpNet CrdtBanRecord
set_tombstone n store = elim (lookup n store) [
  | none ↦ store
  | some existing ↦ insert n (record existing { tombstone = true }) store
]

-- `?` on a call: an error ends the caller too.
abbrev pub and_then {ℓ κ} :
    {A : Type ℓ} {B : Type κ}
    → StateManager × Result A
    → (A → StateManager → StateManager × Result B)
    → StateManager × Result B
and_then (s, ok a) k = k a s
and_then (s, err x) k = (s, Result.err x)

-- What the replay does with an entry.
unfoldable pub apply_entry : WalEntry → Memory → Memory
apply_entry (WalEntry.add_ban r) m = record m { ban_store = BanStore.add_ban r m.ban_store }
apply_entry (WalEntry.remove_ban n) m = record m {
  ban_store = (BanStore.remove_ban n m.ban_store).0;
}
apply_entry (WalEntry.add_whitelist n) m = record m { whitelist = Whitelist.add n m.whitelist }
apply_entry (WalEntry.remove_whitelist n) m = record m {
  whitelist = (Whitelist.remove n m.whitelist).0;
}
apply_entry (WalEntry.add_crdt_ban r) m = record m { crdt_store = merge_into r m.crdt_store }
apply_entry (WalEntry.tombstone_crdt_ban n) m = record m {
  crdt_store = set_tombstone n m.crdt_store;
}
apply_entry (WalEntry.revoke_ban n cutoff) m = record m {
  revocations = insert n cutoff m.revocations;
  ban_store = (BanStore.remove_ban n m.ban_store).0;
}

unfoldable pub apply_all : List WalEntry → Memory → Memory
apply_all [] m = m
apply_all (e ∷ es) m = apply_all es (apply_entry e m)

module _ (codec : Codec) where
  -- What a start finds: the snapshot, with the log on top.
  unfoldable pub recover : Option SnapshotResult → List ℕ → Memory
  recover snapshot wal = apply_all (replay codec wal) (load snapshot)

  -- The rest of `StateManager::new`, once the snapshot is decoded.
  unfoldable pub start :
      Option SnapshotResult → List ℕ → WalSyncMode → List (Option ℕ) → StateManager
  start snapshot wal mode disk = record {
    memory = recover snapshot wal;
    wal_writer = open_writer codec wal mode;
    snapshot = snapshot;
    disk = disk;
  }

  -- `StateManager::new`, with the bytes of the snapshot file if there is one.
  unfoldable pub new :
      SnapshotCodec → Option Bytes → List ℕ → WalSyncMode → List (Option ℕ) → Result StateManager
  new format none wal mode disk = Result.ok (start none wal mode disk)
  new format (some file) wal mode disk = elim (load_snapshot_v2 format file) [
    | err x ↦ Result.err HiveGuardError.storage
    | ok result ↦ Result.ok (start (some result) wal mode disk)
  ]

  unfoldable pub next_fault : List (Option ℕ) → Option ℕ
  next_fault [] = none
  next_fault (f ∷ fs) = f

  unfoldable pub later_faults : List (Option ℕ) → List (Option ℕ)
  later_faults [] = []
  later_faults (f ∷ fs) = fs

  -- `self.wal_writer.append(&entry)?` and what follows it.
  unfoldable pub logged {ℓ} :
      {A : Type ℓ}
      → WalEntry
      → (StateManager → StateManager × Result A)
      → StateManager
      → StateManager × Result A
  logged e k s =
      let w = append codec (next_fault s.disk) e s.wal_writer in
      let s' = record s { wal_writer = w.0; disk = later_faults s.disk } in
      elim w.1 [ ok u ↦ k s' | err x ↦ (s', Result.err x) ]

  unfoldable pub remove_ban : IpNet → StateManager → StateManager × Result Bool
  remove_ban n = logged (WalEntry.remove_ban n) (λ s.
      let m = s.memory in
      let r = BanStore.remove_ban n m.ban_store in
      (record s { memory = record m { ban_store = r.0 } }, Result.ok r.1))

  unfoldable pub remove_whitelist : IpNet → StateManager → StateManager × Result (Unit {0})
  remove_whitelist n = logged (WalEntry.remove_whitelist n) (λ s.
      let m = s.memory in
      (
        record s { memory = record m { whitelist = (Whitelist.remove n m.whitelist).0 } },
        Result.ok tt,
      ))

  unfoldable pub add_crdt_ban : CrdtBanRecord → StateManager → StateManager × Result (Unit {0})
  add_crdt_ban r = logged (WalEntry.add_crdt_ban r) (λ s.
      let m = s.memory in
      (record s { memory = record m { crdt_store = merge_into r m.crdt_store } }, Result.ok tt))

  unfoldable pub tombstone_crdt_ban : IpNet → StateManager → StateManager × Result Bool
  tombstone_crdt_ban n = logged (WalEntry.tombstone_crdt_ban n) (λ s.
      let m = s.memory in
      (
        record s { memory = record m { crdt_store = set_tombstone n m.crdt_store } },
        Result.ok (is_some (lookup n m.crdt_store)),
      ))

  unfoldable pub get_active_crdt_bans : ℕ → StateManager → List CrdtBanRecord
  get_active_crdt_bans time_ms s =
      filter (λ r. is_active r time_ms) (map (λ e. e.1) s.memory.crdt_store)

  -- The manager, the new bytes of the snapshot file if it is replaced, and the result. `saved` is
  -- whether the file operations of the save succeed, `emptied` whether the log is then truncated; an
  -- error in either ends the call.
  unfoldable pub take_snapshot :
      SnapshotCodec → Bool → Bool → StateManager → StateManager × Option Bytes × Result (Unit {0})
  take_snapshot format saved emptied s =
      let m = s.memory in
      let snap : SnapshotResult = record {
        bans = get_all_bans m.ban_store;
        whitelist = map (λ e. e.0) m.whitelist.entries;
        crdt_bans = map (λ e. e.1) m.crdt_store;
        revocations = m.revocations;
      } in
      let s' = record s { snapshot = some snap } in
      elim (save_snapshot_with_revocations format saved snap.bans snap.whitelist snap.crdt_bans
        snap.revocations) [
          | err x ↦ (s, none, Result.err x)
          | ok file ↦
              if not emptied
              then (s', some file, Result.err HiveGuardError.io)
              else (record s' { wal_writer = truncate s.wal_writer }, some file, Result.ok tt)
        ]
