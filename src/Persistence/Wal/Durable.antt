-- ===== src/Persistence/Wal/Durable.antt =====
-- What the log promises its caller.
use hiveguard.Prelude.{ℕ, ◌≤◌, ◌≡◌, sym, ap, ◌∙◌, arith, List, [], ◌∷◌, ◌++◌, Option, length}
use mathlib.Core.Path.{subst}
use mathlib.Core.List.{append_assoc, append-nil}
use hiveguard.Errors.{Result}
use hiveguard.Persistence.Wal.{
  WalEntry, WalSyncMode, WalWriter, Codec, replay_with_offset, replay, replay_strict, open_writer,
  append,
}
use hiveguard.Persistence.Wal.Log.{split, replay_with_offset-IsLog, read_record-nil}
use hiveguard.Persistence.Wal.Writer.{
  acked, Health, recovered, append-Health, open-Health, file_opened, replay-Split,
}

module _ (codec : Codec) where
  -- A run of writes, each with what the disk does: the writer, and the acknowledged entries.
  unfoldable pub append_all : List (Option ℕ × WalEntry) → WalWriter → WalWriter × List WalEntry
  append_all [] w = (w, [])
  append_all ((fault, e) ∷ calls) w =
      let r = append codec fault e w in
      let rest = append_all calls r.0 in (rest.0, acked e r.1 ++ rest.1)

  append_all-Health :
      (calls : List (Option ℕ × WalEntry)) (w : WalWriter) (es : List WalEntry)
      → Health codec w es
      → Health codec (append_all calls w).0 (es ++ (append_all calls w).1)
  unfolding append_all
  append_all-Health [] w es h = subst (Health codec w) (sym (append-nil es)) h
  append_all-Health ((fault, e) ∷ calls) w es h =
      let r = append codec fault e w in
      subst (Health codec (append_all calls r.0).0)
        (append_assoc es (acked e r.1) (append_all calls r.0).1)
        (append_all-Health calls r.0 (es ++ acked e r.1) (append-Health codec fault e w es h))

  -- Whatever bytes the log is opened on, corrupt ones included, and at whatever byte any write
  -- fails: a replay of the file that a run of writes leaves finds the entries that a replay found
  -- before, then every acknowledged entry in order, and after them at most one entry more, whose
  -- write was not acknowledged.
  pub append_all-durable :
      (bytes : List ℕ) (mode : WalSyncMode) (calls : List (Option ℕ × WalEntry))
      → (extra : List WalEntry) × (length extra ≤ 1)
        × (replay codec (append_all calls (open_writer codec bytes mode)).0.file
            ≡ (replay codec bytes ++ (append_all calls (open_writer codec bytes mode)).1) ++ extra)
  append_all-durable bytes mode calls =
      recovered codec (append_all calls (open_writer codec bytes mode)).0
        (replay codec bytes ++ (append_all calls (open_writer codec bytes mode)).1)
        (append_all-Health calls (open_writer codec bytes mode) (replay codec bytes)
          (open-Health codec bytes mode))

  -- Opening a log, whatever its bytes, keeps every entry that a replay finds, and leaves a file that
  -- the strict replay accepts in full.
  pub replay_strict-open_writer :
      (bytes : List ℕ) (mode : WalSyncMode)
      → replay_strict codec (open_writer codec bytes mode).file ≡ Result.ok (replay codec bytes)
  unfolding replay_strict
  replay_strict-open_writer bytes mode =
      let s = split codec bytes in
      let r : replay_with_offset codec s.valid ≡ (s.entries, length s.valid) =
        ap (replay_with_offset codec) (sym (append-nil s.valid))
        ∙ replay_with_offset-IsLog codec s.entries s.valid [] s.log (read_record-nil codec) in
      rw (file_opened codec bytes mode s) (rw r (rw (replay-Split codec bytes s) (ground arith)))
