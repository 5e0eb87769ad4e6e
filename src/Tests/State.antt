-- ===== src/Tests/State.antt =====
-- hiveguard-core/src/persistence/state_manager.rs: a run that a torn write cuts short, an admission,
-- and a tombstone that is undone.
use hiveguard.Prelude.{
  ◌++◌, ◌<◌, ◌⊎◌, ℕ, ◌≤◌, ◌≡◌, refl, arith, List, [], ◌∷◌, Option, none, some, true, false, length,
  any,
}
use hiveguard.Prelude.Map.{lookup}
use hiveguard.Net.{IpNet, net_eq}
use hiveguard.Models.{BanRecord, BanSource}
use hiveguard.Crdt.{CrdtBanRecord, merged}
use hiveguard.Hlc.{HlcTimestamp}
use hiveguard.Persistence.Wal.{WalEntry, WalSyncMode}
use hiveguard.Persistence.State.{
  Memory, StateManager, recover, start, apply_all, empty_memory, apply_entry,
}
use hiveguard.Persistence.State.{take_snapshot}
use hiveguard.Persistence.State.Snapshot
use hiveguard.Persistence.State.Reload.{Alike}
use hiveguard.Persistence.State.Restart
use hiveguard.Persistence.State.Restart.{Op, run}
use hiveguard.Net.{InNet, addr, prefix_len, beq}
use hiveguard.Prelude.{◌↔◌}
use hiveguard.Prelude.Map.{insert, remove as delete}
use hiveguard.Prelude.OrdSet.{union}
use hiveguard.Errors.{Result, HiveGuardError}
use hiveguard.Crypto.{Bytes}
use hiveguard.Persistence.State
use hiveguard.Persistence.Snapshot.{magic, snapshot_max_size, save_snapshot_with_revocations}
use hiveguard.Tests.Format.{format, encode, encode_nets}
use hiveguard.BanStore
use hiveguard.BanStore.{
  InMemoryBanStore, covering_bans, cover_from, cover_at, new_at, inc_prefix, inc_at,
}
use hiveguard.BanStore.Refine
use hiveguard.BanStore.Covering
use hiveguard.Persistence.State.{BanAdmission, remove_ban, next_fault, later_faults, logged}
use hiveguard.Persistence.State.Ops.{
  admit_ban, covered_by, is_current, outlasts, add_whitelist, revoke_bans_covered_by_whitelist,
  revoke_each, revoke_one,
}
use hiveguard.Persistence.State.Protected
use hiveguard.Persistence.State.Done.{bans, allowed}
use hiveguard.Whitelist
use hiveguard.Whitelist.{overlaps, nets_overlap}
use hiveguard.BanStore.{dec_prefix, dec_at, get_all_bans}
use hiveguard.Tests.Codec.{to_allocvec}
use hiveguard.Persistence.State.{load}
use hiveguard.Persistence.Wal.{
  open_writer, replay_with_offset, replay_loop, read_record, read_payload, read_exact, replay,
  append, wal_max_record_size,
}
use hiveguard.Persistence.State.Admission
use hiveguard.Persistence.State.Admission.{keeps}
use hiveguard.Persistence.State.Tombstone
use hiveguard.Tests.NetLib.{net_lib, contains, trunc}
use hiveguard.Tests.Codec.{codec}

abbrev ops : List Op
ops =
    Op.allow (IpNet.v4 134744072 32)
    ∷ Op.remove (IpNet.v4 167772160 8)
    ∷ Op.allow (IpNet.v4 134743044 32)
    ∷ []

-- The second write stops after six bytes.
abbrev disk : List (Option ℕ)
disk = none ∷ some 6 ∷ []

recover-run_example :
    (extra : List WalEntry) × (length extra ≤ 1)
    × (recover codec
          (run net_lib codec ops (start codec none [] WalSyncMode.sync disk)).snapshot
          (run net_lib codec ops (start codec none [] WalSyncMode.sync disk)).wal_writer.file
        ≡ apply_all extra
            (run net_lib codec ops (start codec none [] WalSyncMode.sync disk)).memory)
recover-run_example = Restart.recover-run net_lib codec none [] WalSyncMode.sync disk ops

-- The file that a snapshot is saved to after one network was whitelisted.
abbrev file : Bytes
file = magic b'4' ++ (134744072 ∷ 32 ∷ [])

abbrev final : StateManager
final =
    run net_lib codec (Op.allow (IpNet.v4 134744072 32) ∷ [])
      (start codec none [] WalSyncMode.sync [])

file_written : (take_snapshot codec format true true final).1 ≡ some file
unfolding take_snapshot save_snapshot_with_revocations format encode encode_nets run Restart.step
    start open_writer replay_with_offset replay_loop read_record read_payload read_exact recover
    replay apply_all load add_whitelist revoke_bans_covered_by_whitelist revoke_each next_fault
    later_faults logged append to_allocvec wal_max_record_size net_lib codec Whitelist.add
    Whitelist.new get_all_bans BanStore.new insert empty_memory magic any
file_written = refl

recover-take_snapshot_example :
    let restart =
      State.new codec format
        (some file)
        (take_snapshot codec format true true final).0.wal_writer.file
        WalSyncMode.sync
        [] in
    ((length file ≤ snapshot_max_size)
      × ((s' : StateManager) × (restart ≡ Result.ok s') × Alike s'.memory final.memory))
    ⊎ ((snapshot_max_size < length file) × (restart ≡ Result.err HiveGuardError.storage))
recover-take_snapshot_example =
    Snapshot.recover-take_snapshot net_lib codec format none [] WalSyncMode.sync WalSyncMode.sync []
      [] (Op.allow (IpNet.v4 134744072 32) ∷ []) file_written

-- 10.0.0.0/8, and 10.1.0.0/16 within it.
abbrev wide : BanRecord
wide = record {
  subject = IpNet.v4 167772160 8;
  created_at = 10;
  expires_at = none;
  severity = 5;
  reason = "test ban";
  evidence_hash = [];
  source = BanSource.manual_admin;
  geo_info = none;
}

abbrev narrow : BanRecord
narrow = record wide { subject = IpNet.v4 167837697 16; expires_at = some 100 }

abbrev store : InMemoryBanStore
store = Refine.run (Refine.Op.add wide ∷ []) BanStore.new

abbrev banned : StateManager
banned = record {
  memory = record empty_memory { ban_store = store };
  wal_writer = record { file = []; sync_mode = WalSyncMode.sync; write_failed = false };
  snapshot = none;
  disk = [];
}

admitted :
    (admit_ban net_lib codec narrow 50 banned).1
    ≡ Result.ok (BanAdmission.already_covered (IpNet.v4 167772160 8) none)
unfolding admit_ban covered_by covering_bans cover_from cover_at new_at is_current outlasts
    empty_memory Refine.run Refine.apply BanStore.new BanStore.add_ban inc_prefix inc_at insert
    lookup net_eq beq net_lib contains trunc
admitted = refl

store_size : length store.bans ≡ 1
unfolding Refine.run Refine.apply BanStore.new BanStore.add_ban inc_prefix inc_at insert lookup
store_size = refl

admit_ban_covers_example :
    any (keeps 50 narrow) (
      covering_bans net_lib narrow.subject
        (admit_ban net_lib codec narrow 50 banned).0.memory.ban_store)
    ≡ true
unfolding empty_memory is_current
admit_ban_covers_example =
    Admission.admit_ban_covers net_lib codec narrow 50 banned
      (Refine.run_refines (Refine.Op.add wide ∷ []) (omega arith) (omega arith)).0 (omega arith)
      (omega (arith, store_size)) refl admitted

-- 8.0.0.0/8 and 1.0.0.0/8, of which only the first overlaps 8.8.8.8/32.
abbrev hit : BanRecord
hit = record wide { subject = IpNet.v4 134217728 8 }

abbrev spared : BanRecord
spared = record wide { subject = IpNet.v4 16777216 8 }

abbrev two_bans : StateManager
two_bans = record banned {
  memory = record empty_memory {
    ban_store = Refine.run (Refine.Op.add hit ∷ Refine.Op.add spared ∷ []) BanStore.new;
  };
}

abbrev allow : StateManager × Result (List IpNet)
allow = add_whitelist net_lib codec (IpNet.v4 134744072 32) two_bans

revoked_one : allow.1 ≡ Result.ok (hit.subject ∷ [])
unfolding add_whitelist revoke_bans_covered_by_whitelist revoke_each revoke_one remove_ban
    next_fault later_faults logged append to_allocvec wal_max_record_size net_lib codec overlaps
    nets_overlap contains trunc Whitelist.add Whitelist.new get_all_bans BanStore.remove_ban
    dec_prefix dec_at Refine.run Refine.apply BanStore.new BanStore.add_ban inc_prefix inc_at new_at
    insert delete lookup net_eq beq empty_memory any addr
revoked_one = refl

spared_left : lookup spared.subject (bans allow.0) ≡ some spared
unfolding add_whitelist revoke_bans_covered_by_whitelist revoke_each revoke_one remove_ban
    next_fault later_faults logged append to_allocvec wal_max_record_size net_lib codec overlaps
    nets_overlap contains trunc Whitelist.add Whitelist.new get_all_bans BanStore.remove_ban
    dec_prefix dec_at Refine.run Refine.apply BanStore.new BanStore.add_ban inc_prefix inc_at new_at
    insert delete lookup net_eq beq empty_memory any addr
spared_left = refl

add_whitelist_protects_example : overlaps net_lib spared.subject (allowed allow.0) ≡ false
unfolding empty_memory
add_whitelist_protects_example =
    Protected.add_whitelist_protects net_lib codec (IpNet.v4 134744072 32) two_bans spared.subject
      spared
      (Refine.run_refines (Refine.Op.add hit ∷ Refine.Op.add spared ∷ []) (omega arith)
        (omega arith)).0
      revoked_one spared_left

abbrev clock : HlcTimestamp
clock = record { wall_time_ms = 1000; counter = 0; node_id_hash = 1 }

abbrev replicated : CrdtBanRecord
replicated = record {
  subject = IpNet.v4 167772161 32;
  first_seen = clock;
  ban_until = record clock { wall_time_ms = 90000 };
  severity = 10;
  reporters = "node-a" ∷ [];
  evidence_hash = [];
  reason = "scan";
  tombstone_reporters = [];
  tombstone = false;
  last_modified = clock;
}

abbrev with_record : Memory
with_record = record empty_memory { crdt_store = (IpNet.v4 167772161 32, replicated) ∷ [] }

tombstone_undone_example :
    (lookup replicated.subject
        (apply_entry (WalEntry.tombstone_crdt_ban replicated.subject) with_record).crdt_store
      ≡ some (record replicated { tombstone = true }))
    × (lookup replicated.subject
          (apply_entry
            (WalEntry.add_crdt_ban replicated)
            (apply_entry (WalEntry.tombstone_crdt_ban replicated.subject) with_record)).crdt_store
        ≡ some (merged (record replicated { tombstone = true }) replicated))
    × ((merged (record replicated { tombstone = true }) replicated).tombstone ≡ false)
unfolding lookup net_eq beq union empty_memory
tombstone_undone_example =
    Tombstone.tombstone_undone with_record replicated replicated refl refl (omega arith)

-- 10.0.0.0/8 has a ban; the covering bans of a network in it are that one.
covering_bans_iff_example :
    (any (λ r. is_current 50 r) (covering_bans net_lib narrow.subject store) ≡ false) ↔ (
      (m : IpNet) (r : BanRecord)
      → prefix_len m ≤ prefix_len narrow.subject
      → InNet m (addr narrow.subject)
      → lookup m store.bans ≡ some r
      → is_current 50 r ≡ false)
covering_bans_iff_example =
    Covering.covering_bans_iff net_lib (λ r. is_current 50 r) narrow.subject store
      (Refine.run_refines (Refine.Op.add wide ∷ []) (omega arith) (omega arith)).0 (omega arith)
