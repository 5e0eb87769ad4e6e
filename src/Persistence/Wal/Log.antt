-- ===== src/Persistence/Wal/Log.antt =====
-- A file as the records it holds and a tail that is not one, and the replay of it.
use hiveguard.Prelude.{
  ℕ, zero, suc, ◌+◌, ◌≤◌, ◌<◌, ◌≡◌, refl, sym, ap, ◌∙◌, arith, List, [], ◌∷◌, ◌++◌, none, length,
  Option-cases, inl, inr, length-append,
}
use mathlib.Core.List.{append_assoc}
use hiveguard.Persistence.Wal.{
  WalEntry, Codec, read_exact, read_payload, read_record, replay_loop, replay_with_offset,
}
use hiveguard.Persistence.Wal.Replay.{IsRecord, read_record-IsRecord}

module _ (codec : Codec) where
  -- The bytes are the records of the entries, one after the other.
  unfoldable pub IsLog : List WalEntry → List ℕ → Type 0
  IsLog [] bytes = bytes ≡ []
  IsLog (e ∷ es) bytes =
      (pre : List ℕ) × (rest : List ℕ) × (bytes ≡ pre ++ rest)
      × IsRecord codec pre e
      × IsLog es rest

  pub read_record-nil : read_record codec [] ≡ none
  unfolding read_record read_payload read_exact
  read_record-nil = refl

  -- A record is not empty.
  length_pos : (pre : List ℕ) (e : WalEntry) → IsRecord codec pre e → 1 ≤ length pre
  length_pos [] e r = absurd (ground (arith, r [], read_record-nil))
  length_pos (b ∷ pre) e r = omega arith

  -- Any fuel above the size of the file is enough.
  replay_loop-IsLog :
      (fuel : ℕ) (es : List WalEntry) (bytes tail : List ℕ)
      → IsLog es bytes
      → read_record codec tail ≡ none
      → length bytes < fuel
      → replay_loop codec fuel (bytes ++ tail) ≡ (es, length bytes)
  unfolding replay_loop IsLog
  replay_loop-IsLog zero es bytes tail l t h = absurd (omega arith)
  replay_loop-IsLog (suc fuel) [] bytes tail l t h = rw l (rw (replay_loop, t) refl)
  replay_loop-IsLog (suc fuel) (e ∷ es) bytes tail (pre, rest, parts, r, l) t h =
      let size : length bytes ≡ length pre + length rest =
        ap length parts ∙ length-append pre rest in
      let more : length rest < fuel = omega (arith, length_pos pre e r) in
      let whole : bytes ++ tail ≡ pre ++ (rest ++ tail) =
        ap (λ b. b ++ tail) parts ∙ append_assoc pre rest tail in
      rw whole (
        rw (replay_loop, r (rest ++ tail))
          (rw (replay_loop-IsLog fuel es rest tail l t more) (ap (λ n. (e ∷ es, n)) (sym size))))

  -- The replay finds exactly the entries of the intact records.
  pub replay_with_offset-IsLog :
      (es : List WalEntry) (bytes tail : List ℕ)
      → IsLog es bytes
      → read_record codec tail ≡ none
      → replay_with_offset codec (bytes ++ tail) ≡ (es, length bytes)
  unfolding replay_with_offset
  replay_with_offset-IsLog es bytes tail l t =
      replay_loop-IsLog (suc (length (bytes ++ tail))) es bytes tail l t
        (omega (arith, length-append bytes tail))

  -- A file as the replay sees it.
  pub record Split (bytes : List ℕ) : Type 0 where
    pub entries : List WalEntry
    pub valid : List ℕ
    pub tail : List ℕ
    pub whole : bytes ≡ valid ++ tail
    pub log : IsLog entries valid
    pub stop : read_record codec tail ≡ none

  cons-Split :
      (bytes : List ℕ) (r : WalEntry × (ℕ × List ℕ))
      → (pre : List ℕ) × (bytes ≡ pre ++ r.1.1) × IsRecord codec pre r.0 × (length pre ≡ r.1.0)
      → Split r.1.1
      → Split bytes
  unfolding IsLog
  cons-Split bytes r (pre, parts, is, size) s = record {
    entries = r.0 ∷ s.entries;
    valid = pre ++ s.valid;
    tail = s.tail;
    whole = parts ∙ ap (λ l. pre ++ l) s.whole ∙ sym (append_assoc pre s.valid s.tail);
    log = (pre, s.valid, refl, is, s.log);
    stop = s.stop;
  }

  shorter :
      (bytes : List ℕ) (r : WalEntry × (ℕ × List ℕ)) (n : ℕ)
      → (pre : List ℕ) × (bytes ≡ pre ++ r.1.1) × IsRecord codec pre r.0 × (length pre ≡ r.1.0)
      → length bytes ≤ suc n
      → length r.1.1 ≤ n
  shorter bytes r n (pre, parts, is, size) h =
      omega (arith, ap length parts, length-append pre r.1.1, length_pos pre r.0 is)

  no_record : (bytes : List ℕ) → read_record codec bytes ≡ none → Split bytes
  unfolding IsLog
  no_record bytes stop = record {
    entries = [];
    valid = [];
    tail = bytes;
    whole = refl;
    log = refl;
    stop = stop;
  }

  length_zero : (bytes : List ℕ) → length bytes ≡ 0 → bytes ≡ []
  length_zero [] h = refl
  length_zero (b ∷ bytes) h = absurd (omega arith)

  split_below : (n : ℕ) (bytes : List ℕ) → length bytes ≤ n → Split bytes
  split_below zero bytes h = no_record bytes (rw (length_zero bytes (omega arith)) read_record-nil)
  split_below (suc n) bytes h = elim (Option-cases (read_record codec bytes)) [
    | inl stop ↦ no_record bytes stop
    | inr (r, hit) ↦
        let cut = read_record-IsRecord codec bytes hit in
        cons-Split bytes r cut (split_below n r.1.1 (shorter bytes r n cut h))
  ]

  -- Every file splits so.
  pub split : (bytes : List ℕ) → Split bytes
  split bytes = split_below (length bytes) bytes (omega arith)

  pub IsLog-append :
      (es ds : List WalEntry) (bytes more : List ℕ)
      → IsLog es bytes
      → IsLog ds more
      → IsLog (es ++ ds) (bytes ++ more)
  unfolding IsLog
  IsLog-append [] ds bytes more l m = rw l m
  IsLog-append (e ∷ es) ds bytes more (pre, rest, parts, r, l) m = (
    pre,
    rest ++ more,
    ap (λ b. b ++ more) parts ∙ append_assoc pre rest more,
    r,
    IsLog-append es ds rest more l m,
  )
