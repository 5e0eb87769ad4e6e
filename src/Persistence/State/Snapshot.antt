-- ===== src/Persistence/State/Snapshot.antt =====
-- hiveguard-core/src/persistence/state_manager.rs: a snapshot, and the start from it.
use mathlib.Core.Path.{subst}
use hiveguard.Prelude.{
  ◌++◌, ◌≤◌, ◌<◌, ◌⊎◌, inl, inr, length, ltb, ltb→lt, ltb-false→le, Bool-cases, Option-cases,
  if◌then◌else◌, if_true, if_false, some_inj, ℕ, ◌≡◌, refl, sym, ap, ◌∙◌, arith, true, List, [],
  map, Option, some,
}
use hiveguard.Net.{NetLib, net_eq}
use hiveguard.BanStore.{get_all_bans}
use hiveguard.Persistence.Wal.{
  WalSyncMode, Codec, replay, replay_with_offset, replay_loop, truncate, read_record, read_payload,
  read_exact,
}
use hiveguard.Crypto.{Bytes, bytes_beq}
use hiveguard.Errors.{HiveGuardError, Result}
use hiveguard.Persistence.Snapshot.{
  SnapshotResult, SnapshotDataV4, SnapshotCodec, snapshot_max_size, magic, of_v4, whole, decode_as,
  load_snapshot_v2, save_snapshot_with_revocations,
}
use hiveguard.Persistence.State.{
  Memory, StateManager, new, start, recover, take_snapshot, load, apply_all,
}
use hiveguard.Persistence.State.Keyed.{Keyed, apply_all-Keyed}
use hiveguard.Persistence.State.Keyed.Load.{load-Keyed}
use hiveguard.Persistence.State.Recovery.{Synced}
use hiveguard.Persistence.State.Restart.{Op, run, run-Synced, start-Synced}
use hiveguard.Persistence.State.Reload.{Alike, saved, load-saved}

replay-nil : (codec : Codec) → replay codec [] ≡ []
unfolding replay replay_with_offset replay_loop read_record read_payload read_exact
replay-nil codec = refl

-- The contents of the file that holds a memory.
abbrev contents_of : Memory → SnapshotDataV4
contents_of m = record {
  bans = get_all_bans m.ban_store;
  whitelist = map (λ e. e.0) m.whitelist.entries;
  crdt_bans = map (λ e. e.1) m.crdt_store;
  revocations = m.revocations;
}

-- What is read from a file that was written.
load-save :
    (format : SnapshotCodec) (contents : SnapshotDataV4) (encoded : Bytes)
    → format.to_allocvec contents ≡ some encoded
    → load_snapshot_v2 format (magic b'4' ++ encoded) ≡ (
        if ltb snapshot_max_size (length (magic b'4' ++ encoded))
        then Result.err HiveGuardError.storage
        else Result.ok (of_v4 contents))
unfolding load_snapshot_v2 decode_as read_exact magic bytes_beq whole
load-save format contents encoded h =
    rw (load_snapshot_v2, decode_as, format.decode_encode contents encoded h) refl

saves :
    (codec : Codec) (format : SnapshotCodec) (s : StateManager) {file : Bytes}
    → (take_snapshot codec format true true s).1 ≡ some file
    → (load_snapshot_v2 format file ≡ (
        if ltb snapshot_max_size (length file)
        then Result.err HiveGuardError.storage
        else Result.ok (saved s.memory)))
      × ((take_snapshot codec format true true s).0.wal_writer.file ≡ [])
unfolding take_snapshot save_snapshot_with_revocations truncate of_v4
saves codec format s {file} h = elim (Option-cases (format.to_allocvec (contents_of s.memory))) [
  | inl fails ↦ absurd (ground (arith, h, fails))
  | inr (encoded, done) ↦
      let written : take_snapshot codec format true true s ≡ (
        record s { snapshot = some (saved s.memory); wal_writer = truncate s.wal_writer },
        some (magic b'4' ++ encoded),
        Result.ok tt,
      ) =
        rw (take_snapshot, save_snapshot_with_revocations, done) refl in
      let bytes : magic b'4' ++ encoded ≡ file = some_inj (sym (ap (λ t. t.1) written) ∙ h) in
      (
        subst
            (λ (l : Bytes). load_snapshot_v2 format l ≡ (
              if ltb snapshot_max_size (length l)
              then Result.err HiveGuardError.storage
              else Result.ok (saved s.memory)))
            bytes (load-save format (contents_of s.memory) encoded done),
        ap (λ t. t.0.wal_writer.file) written,
      )
]

new_refuses :
    (codec : Codec) (format : SnapshotCodec) (file : Bytes) (wal : List ℕ) (mode : WalSyncMode)
    (disk : List (Option ℕ)) {x : HiveGuardError}
    → load_snapshot_v2 format file ≡ Result.err x
    → new codec format (some file) wal mode disk ≡ Result.err HiveGuardError.storage
unfolding new
new_refuses codec format file wal mode disk h = rw (new, h) refl

new_loads :
    (codec : Codec) (format : SnapshotCodec) (file : Bytes) (wal : List ℕ) (mode : WalSyncMode)
    (disk : List (Option ℕ)) {result : SnapshotResult}
    → load_snapshot_v2 format file ≡ Result.ok result
    → new codec format (some file) wal mode disk
      ≡ Result.ok (start codec (some result) wal mode disk)
unfolding new
new_loads codec format file wal mode disk h = rw (new, h) refl

module _ (lib : NetLib) (codec : Codec) where
  run-Keyed :
      (snapshot : Option SnapshotResult) (wal : List ℕ) (mode : WalSyncMode)
      (disk : List (Option ℕ)) (os : List Op)
      → Keyed (run lib codec os (start codec snapshot wal mode disk)).memory
  unfolding Synced
  run-Keyed snapshot wal mode disk os =
      let s0 = start codec snapshot wal mode disk in
      let s = run lib codec os s0 in
      let (es, h, e) = run-Synced lib codec os s0 (start-Synced lib codec snapshot wal mode disk) in
      subst Keyed (sym e) (apply_all-Keyed es (load s.snapshot) (load-Keyed s.snapshot))

  -- Start on any snapshot and any log, run any operations, with any writes failing at any byte, and
  -- take a snapshot that is encoded, saved and empties the log. If the new snapshot file has at most
  -- 256 MiB, a restart from it and the emptied log succeeds and answers as before it: for every
  -- network the same ban, replicated record, whitelist entry and revocation, with the same protected
  -- networks. If it is larger, the restart fails.
  pub recover-take_snapshot :
      (format : SnapshotCodec) (snapshot : Option SnapshotResult) (wal : List ℕ)
      (mode later_mode : WalSyncMode) (disk later_disk : List (Option ℕ)) (os : List Op)
      {file : Bytes}
      → (take_snapshot codec format true true
          (run lib codec os (start codec snapshot wal mode disk))).1
        ≡ some file
      → let s = run lib codec os (start codec snapshot wal mode disk) in
        let t = (take_snapshot codec format true true s).0 in
        let restart = new codec format (some file) t.wal_writer.file later_mode later_disk in
        ((length file ≤ snapshot_max_size)
          × ((s' : StateManager) × (restart ≡ Result.ok s') × Alike s'.memory s.memory))
        ⊎ ((snapshot_max_size < length file) × (restart ≡ Result.err HiveGuardError.storage))
  unfolding start recover apply_all
  recover-take_snapshot format snapshot wal mode later_mode disk later_disk os {file} h =
      let s = run lib codec os (start codec snapshot wal mode disk) in
      let w = saves codec format s h in
      let snap = saved s.memory in
      let s' = start codec (some snap) [] later_mode later_disk in
      let same : Alike s'.memory s.memory =
        subst (λ es. Alike (apply_all es (load (some snap))) s.memory) (sym (replay-nil codec))
          (load-saved s.memory (run-Keyed snapshot wal mode disk os)) in
      elim (Bool-cases (ltb snapshot_max_size (length file))) [
        | inl large ↦ inr (
          ltb→lt snapshot_max_size (length file) large,
          new_refuses codec format file _ later_mode later_disk (w.0 ∙ if_true _ _ _ large),
        )
        | inr small ↦ inl (
          ltb-false→le snapshot_max_size (length file) small,
          (
            s',
            ap (λ t. new codec format (some file) t later_mode later_disk) w.1
                ∙ new_loads codec format file [] later_mode later_disk (w.0 ∙ if_false _ _ _ small),
            same,
          ),
        )
      ]
