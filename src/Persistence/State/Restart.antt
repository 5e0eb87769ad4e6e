-- ===== src/Persistence/State/Restart.antt =====
-- Runs of operations, and what a restart makes of them.
use hiveguard.Prelude.{ℕ, ◌≤◌, ◌≡◌, refl, sym, ap, ◌∙◌, List, [], ◌∷◌, Option, length}
use hiveguard.Net.{IpNet, NetLib, net_eq}
use hiveguard.Models.{BanRecord}
use hiveguard.Crdt.{CrdtBanRecord}
use hiveguard.Persistence.Wal.{WalEntry, WalSyncMode, Codec, replay}
use hiveguard.Persistence.Wal.Writer.{recovered, open-Health}
use hiveguard.Persistence.Snapshot.{SnapshotResult}
use hiveguard.Persistence.State.{
  StateManager, apply_all, load, recover, start, remove_ban, remove_whitelist, add_crdt_ban,
  tombstone_crdt_ban,
}
use hiveguard.Persistence.State.Ops.{add_ban, admit_ban, revoke_ban, add_whitelist}
use hiveguard.Persistence.State.Recovery.{
  Synced, apply_all-append, add_ban-Synced, admit_ban-Synced, remove_ban-Synced, revoke_ban-Synced,
  add_whitelist-Synced, remove_whitelist-Synced, add_crdt_ban-Synced, tombstone_crdt_ban-Synced,
}

-- The calls that change the state; `now` is the time of the call.
pub data Op : Type 0 where
  add : BanRecord → Op
  admit : BanRecord → (now : ℕ) → Op
  remove : IpNet → Op
  revoke : IpNet → (now : ℕ) → Op
  allow : IpNet → Op
  disallow : IpNet → Op
  receive : CrdtBanRecord → Op
  lift : IpNet → Op

module _ (lib : NetLib) (codec : Codec) where
  unfoldable pub step : Op → StateManager → StateManager
  step (add r) s = (add_ban lib codec r s).0
  step (admit r now) s = (admit_ban lib codec r now s).0
  step (remove n) s = (remove_ban codec n s).0
  step (revoke n now) s = (revoke_ban lib codec n now s).0
  step (allow n) s = (add_whitelist lib codec n s).0
  step (disallow n) s = (remove_whitelist codec n s).0
  step (receive r) s = (add_crdt_ban codec r s).0
  step (lift n) s = (tombstone_crdt_ban codec n s).0

  -- Calls that fail are in the run: the caller goes on.
  unfoldable pub run : List Op → StateManager → StateManager
  run [] s = s
  run (o ∷ os) s = run os (step o s)

  step-Synced : (o : Op) (s : StateManager) → Synced codec s → Synced codec (step o s)
  unfolding step
  step-Synced (add r) s h = add_ban-Synced codec lib r s h
  step-Synced (admit r now) s h = admit_ban-Synced codec lib r now s h
  step-Synced (remove n) s h = remove_ban-Synced codec n s h
  step-Synced (revoke n now) s h = revoke_ban-Synced codec lib n now s h
  step-Synced (allow n) s h = add_whitelist-Synced codec lib n s h
  step-Synced (disallow n) s h = remove_whitelist-Synced codec n s h
  step-Synced (receive r) s h = add_crdt_ban-Synced codec r s h
  step-Synced (lift n) s h = tombstone_crdt_ban-Synced codec n s h

  pub run-Synced : (os : List Op) (s : StateManager) → Synced codec s → Synced codec (run os s)
  unfolding run
  run-Synced [] s h = h
  run-Synced (o ∷ os) s h = run-Synced os (step o s) (step-Synced o s h)

  pub start-Synced :
      (snapshot : Option SnapshotResult) (wal : List ℕ) (mode : WalSyncMode)
      (disk : List (Option ℕ))
      → Synced codec (start codec snapshot wal mode disk)
  unfolding start recover Synced
  start-Synced snapshot wal mode disk = (replay codec wal, open-Health codec wal mode, refl)

  -- Start on any snapshot and any log, corrupt ones included, and run any operations between two
  -- snapshots, with any writes failing at any byte. A restart from the files that are then on disk
  -- recovers exactly the memory before it, except that one more log entry may have been applied,
  -- whose write was not acknowledged.
  pub recover-run :
      (snapshot : Option SnapshotResult) (wal : List ℕ) (mode : WalSyncMode)
      (disk : List (Option ℕ)) (os : List Op)
      → (extra : List WalEntry) × (length extra ≤ 1)
        × (recover codec
              (run os (start codec snapshot wal mode disk)).snapshot
              (run os (start codec snapshot wal mode disk)).wal_writer.file
            ≡ apply_all extra (run os (start codec snapshot wal mode disk)).memory)
  unfolding recover Synced
  recover-run snapshot wal mode disk os =
      let s = run os (start codec snapshot wal mode disk) in
      let (es, h, m) =
        run-Synced os (start codec snapshot wal mode disk) (start-Synced snapshot wal mode disk) in
      let (extra, few, e) = recovered codec s.wal_writer es h in
      (
        extra,
        few,
        ap (λ l. apply_all l (load s.snapshot)) e
            ∙ apply_all-append es extra (load s.snapshot)
            ∙ ap (apply_all extra) (sym m),
      )
