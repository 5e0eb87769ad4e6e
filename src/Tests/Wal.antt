-- ===== src/Tests/Wal.antt =====
-- hiveguard-core/src/persistence/wal.rs: a log with a torn tail, opened, written and replayed.
use hiveguard.Prelude.{ℕ, ◌≤◌, ◌≡◌, List, [], ◌∷◌, ◌++◌, Option, none, some, length}
use hiveguard.Net.{IpNet}
use hiveguard.Errors.{Result}
use hiveguard.Persistence.Wal.{WalEntry, WalSyncMode, replay, replay_strict, open_writer}
use hiveguard.Persistence.Wal.Durable
use hiveguard.Persistence.Wal.Durable.{append_all}
use hiveguard.Tests.Codec.{codec}

-- The record of `remove_ban 9/8`, and the first bytes of another.
abbrev torn_log : List ℕ
torn_log = 3 ∷ 0 ∷ 0 ∷ 0 ∷ 0 ∷ 9 ∷ 8 ∷ 17 ∷ 0 ∷ 0 ∷ 0 ∷ 3 ∷ 0 ∷ 0 ∷ 0 ∷ 0 ∷ []

abbrev calls : List (Option ℕ × WalEntry)
calls =
    (none, WalEntry.add_whitelist (IpNet.v4 7 32))
    ∷ (some 5, WalEntry.remove_ban (IpNet.v4 1 16))
    ∷ (none, WalEntry.remove_ban (IpNet.v4 2 16))
    ∷ []

append_all-durable_example :
    (extra : List WalEntry) × (length extra ≤ 1)
    × (replay codec
          (append_all codec calls (open_writer codec torn_log WalSyncMode.fdatasync)).0.file
        ≡ (replay codec torn_log
            ++ (append_all codec calls (open_writer codec torn_log WalSyncMode.fdatasync)).1)
          ++ extra)
append_all-durable_example = Durable.append_all-durable codec torn_log WalSyncMode.fdatasync calls

replay_strict-open_writer_example :
    replay_strict codec (open_writer codec torn_log WalSyncMode.no_sync).file
    ≡ Result.ok (replay codec torn_log)
replay_strict-open_writer_example =
    Durable.replay_strict-open_writer codec torn_log WalSyncMode.no_sync
