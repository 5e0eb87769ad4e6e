-- ===== src/Persistence/Wal/Writer.antt =====
-- The writer against the replay: what was acknowledged is recovered.
use hiveguard.Prelude.{
  ℕ, zero, suc, ◌+◌, ◌≤◌, ◌≡◌, refl, sym, ap, ◌∙◌, arith, true, false, List, [], ◌∷◌, ◌++◌, Option,
  none, some, length, take, ltb, ◌==◌, Option-cases, Bool-cases, inl, inr,
}
use mathlib.Core.Path.{subst}
use mathlib.Core.List.{append-nil}
use native.Mathlib.Decide.{dec_lt}
use hiveguard.Errors.{Result, HiveGuardError, ok, err}
use hiveguard.Persistence.Wal.{
  WalEntry, WalSyncMode, WalWriter, Codec, wal_max_record_size, record_bytes, replay_with_offset,
  replay, open_writer, append,
}
use hiveguard.Persistence.Wal.Bytes.{take-append_short}
use hiveguard.Persistence.Wal.Replay.{record_bytes-IsRecord, frame_size}
use hiveguard.Persistence.Wal.Torn.{read_record_torn}
use hiveguard.Persistence.Wal.Log.{
  IsLog, Split, split, replay_with_offset-IsLog, IsLog-append, read_record-nil,
}

-- The entries that a call acknowledges.
unfoldable pub acked : WalEntry → Result (Unit {0}) → List WalEntry
acked e (ok u) = e ∷ []
acked e (err x) = []

take_all : (n : ℕ) (xs : List ℕ) → length xs ≤ n → take n xs ≡ xs
take_all zero [] h = refl
take_all zero (x ∷ xs) h = absurd (omega arith)
take_all (suc n) [] h = refl
take_all (suc n) (x ∷ xs) h = ap (λ l. x ∷ l) (take_all n xs (omega arith))

module _ (codec : Codec) where
  -- A writer whose file holds the entries, and perhaps one more after a failed write.
  pub data Health (w : WalWriter) (es : List WalEntry) : Type 0 where
    clean : w.write_failed ≡ false → IsLog codec es w.file → Health w es
    torn :
        w.write_failed ≡ true
        → (s : Split codec w.file) → (extra : List WalEntry) → length extra ≤ 1
        → s.entries ≡ es ++ extra
        → Health w es

  pub replay-Split : (bytes : List ℕ) (s : Split codec bytes) → replay codec bytes ≡ s.entries
  unfolding replay
  replay-Split bytes s =
      ap (λ b. (replay_with_offset codec b).0) s.whole
      ∙ ap (λ r. r.0) (replay_with_offset-IsLog codec s.entries s.valid s.tail s.log s.stop)

  log_split : (es : List WalEntry) (bytes : List ℕ) → IsLog codec es bytes → Split codec bytes
  log_split es bytes l = record {
    entries = es;
    valid = bytes;
    tail = [];
    whole = sym (append-nil bytes);
    log = l;
    stop = read_record-nil codec;
  }

  pub recovered :
      (w : WalWriter) (es : List WalEntry)
      → Health w es
      → (extra : List WalEntry) × (length extra ≤ 1) × (replay codec w.file ≡ es ++ extra)
  unfolding log_split
  recovered w es (clean f l) =
      ([], omega arith, replay-Split w.file (log_split es w.file l) ∙ sym (append-nil es))
  recovered w es (torn f s extra few e) = (extra, few, replay-Split w.file s ∙ e)

  single :
      (e : WalEntry) (payload : List ℕ)
      → codec.to_allocvec e ≡ some payload
      → ltb wal_max_record_size (length payload) ≡ false
      → IsLog codec (e ∷ []) (record_bytes codec payload)
  unfolding IsLog
  single e payload enc small = (
    record_bytes codec payload,
    [],
    sym (append-nil (record_bytes codec payload)),
    record_bytes-IsRecord codec e payload enc small,
    refl,
  )

  -- The file after a write that failed once `k` bytes were in it.
  failed_split :
      (k : ℕ) (e : WalEntry) (payload : List ℕ) (es : List WalEntry) (file : List ℕ)
      → codec.to_allocvec e ≡ some payload
      → ltb wal_max_record_size (length payload) ≡ false
      → IsLog codec es file
      → (s : Split codec (file ++ take k (record_bytes codec payload))) × (extra : List WalEntry)
        × (length extra ≤ 1)
        × (s.entries ≡ es ++ extra)
  unfolding log_split
  failed_split k e payload es file enc small l = elim (dec_lt k (4 + length payload + 4)) [
    | yes part ↦ (
      record {
        entries = es;
        valid = file;
        tail = take k (record_bytes codec payload);
        whole = refl;
        log = l;
        stop = read_record_torn codec k payload small part;
      },
      [],
      omega arith,
      sym (append-nil es),
    )
    | no all ↦
        let whole : take k (record_bytes codec payload) ≡ record_bytes codec payload =
          take_all k (record_bytes codec payload) (omega (arith, frame_size codec payload)) in
        (
          log_split (es ++ (e ∷ [])) (file ++ take k (record_bytes codec payload)) (
              rw whole (
                IsLog-append codec es (e ∷ []) file (record_bytes codec payload) l
                  (single e payload enc small))),
          e ∷ [],
          omega arith,
          refl,
        )
  ]

  append_written :
      (e : WalEntry) (payload : List ℕ) (w : WalWriter)
      → w.write_failed ≡ false
      → codec.to_allocvec e ≡ some payload
      → ltb wal_max_record_size (length payload) ≡ false
      → append codec none e w
        ≡ (record w { file = w.file ++ record_bytes codec payload }, Result.ok tt)
  unfolding append
  append_written e payload w f enc small = ground (arith, f, enc, small)

  append_failed :
      (k : ℕ) (e : WalEntry) (payload : List ℕ) (w : WalWriter)
      → w.write_failed ≡ false
      → codec.to_allocvec e ≡ some payload
      → ltb wal_max_record_size (length payload) ≡ false
      → append codec (some k) e w ≡ (
        record w { file = w.file ++ take k (record_bytes codec payload); write_failed = true },
        Result.err HiveGuardError.io,
      )
  unfolding append
  append_failed k e payload w f enc small = ground (arith, f, enc, small)

  written-Health :
      (fault : Option ℕ) (e : WalEntry) (payload : List ℕ) (w : WalWriter) (es : List WalEntry)
      → w.write_failed ≡ false
      → IsLog codec es w.file
      → codec.to_allocvec e ≡ some payload
      → ltb wal_max_record_size (length payload) ≡ false
      → Health (append codec fault e w).0 (es ++ acked e (append codec fault e w).1)
  unfolding acked
  written-Health none e payload w es f l enc small = rw (append_written e payload w f enc small) (
      clean f (
        IsLog-append codec es (e ∷ []) w.file (record_bytes codec payload) l
          (single e payload enc small)))
  written-Health (some k) e payload w es f l enc small =
      let (s, extra, few, same) = failed_split k e payload es w.file enc small l in
      rw (append_failed k e payload w f enc small)
        (torn refl s extra few (same ∙ ap (λ l. l ++ extra) (sym (append-nil es))))

  refused-Health :
      (fault : Option ℕ) (e : WalEntry) (w : WalWriter) (es : List WalEntry)
      → Health w es
      → append codec fault e w ≡ (w, Result.err HiveGuardError.storage)
      → Health (append codec fault e w).0 (es ++ acked e (append codec fault e w).1)
  unfolding acked
  refused-Health fault e w es h r = rw r (subst (Health w) (sym (append-nil es)) h)

  pub append-Health :
      (fault : Option ℕ) (e : WalEntry) (w : WalWriter) (es : List WalEntry)
      → Health w es
      → Health (append codec fault e w).0 (es ++ acked e (append codec fault e w).1)
  unfolding append
  append-Health fault e w es (torn f s extra few same) =
      refused-Health fault e w es (torn f s extra few same) (ground (arith, f))
  append-Health fault e w es (clean f l) = elim (Option-cases (codec.to_allocvec e)) [
    | inl enc ↦ refused-Health fault e w es (clean f l) (ground (arith, f, enc))
    | inr (payload, enc) ↦ elim (Bool-cases (ltb wal_max_record_size (length payload))) [
      | inl large ↦ refused-Health fault e w es (clean f l) (ground (arith, f, enc, large))
      | inr small ↦ written-Health fault e payload w es f l enc small
    ]
  ]

  -- Opening cuts the tail off.
  pub file_opened :
      (bytes : List ℕ) (mode : WalSyncMode) (s : Split codec bytes)
      → (open_writer codec bytes mode).file ≡ s.valid
  unfolding open_writer
  file_opened bytes mode s =
      let r : replay_with_offset codec bytes ≡ (s.entries, length s.valid) =
        ap (replay_with_offset codec) s.whole
        ∙ replay_with_offset-IsLog codec s.entries s.valid s.tail s.log s.stop in
      let cut : take (length s.valid) bytes ≡ s.valid =
        ap (take (length s.valid)) s.whole
        ∙ take-append_short (length s.valid) s.valid s.tail (omega arith)
        ∙ take_all (length s.valid) s.valid (omega arith) in
      rw r (elim (Bool-cases (length bytes == length s.valid)) [
        | inl same ↦ rw same (sym (take_all (length s.valid) bytes (ground (arith, same))) ∙ cut)
        | inr differ ↦ rw differ cut
      ])

  pub open-Health :
      (bytes : List ℕ) (mode : WalSyncMode)
      → Health (open_writer codec bytes mode) (replay codec bytes)
  unfolding open_writer
  open-Health bytes mode =
      let s = split codec bytes in
      clean refl (
        subst (IsLog codec (replay codec bytes)) (sym (file_opened bytes mode s))
          (subst (λ es. IsLog codec es s.valid) (sym (replay-Split bytes s)) s.log))
