-- ===== src/AntiPoison/Exact.antt =====
-- What the rate limiter holds, against the calls it accepted.
use Prim.Native.String.{String}
use hiveguard.Prelude.{
  ℕ, ◌≤◌, ◌≡◌, refl, sym, ap, ◌∙◌, arith, true, false, not, ◌&&◌, List, [], ◌∷◌, ◌++◌, length,
  retain, count, leb, if◌then◌else◌, count-le-length, count-append, Bool-cases, inl, inr,
}
use hiveguard.Prelude.Eq.{string_eq}
use hiveguard.Prelude.Map.{Distinct, lookup, insert, is_some, insert-Distinct}
use hiveguard.AntiPoison.{RateLimiter, is_recent, cleanup, times_of, record_at, check_and_record}
use hiveguard.AntiPoison.Prune.{
  count-retain_later, count_later, prune-Distinct, times_of-prune, times_of-insert,
}

-- The accepted calls of a key within the window at a time.
unfoldable pub recent_calls : ℕ → ℕ → String → List (String × ℕ) → ℕ
recent_calls window now k calls = count (λ c. string_eq.beq c.0 k && is_recent now window c.1) calls

-- The times that the limiter holds are the accepted ones, as far as a time from `now` on can still
-- see them, and no key has more of them than the limit.
pub record Exact (limit window now : ℕ) (rl : RateLimiter) (accepted : List (String × ℕ))
    : Type 0 where
  pub limits : rl.max_per_window ≡ limit
  pub windows : rl.window ≡ window
  pub distinct : Distinct rl.entries
  pub seen :
      (k : String) (at : ℕ)
      → now ≤ at
      → recent_calls window at k accepted ≡ count (is_recent at window) (times_of k rl.entries)
  pub few : (k : String) → count (is_recent now window) (times_of k rl.entries) ≤ limit

cleanup-Exact :
    (limit window now later : ℕ) (rl : RateLimiter) (accepted : List (String × ℕ))
    → now ≤ later
    → Exact limit window now rl accepted
    → Exact limit window later (cleanup later rl) accepted
unfolding cleanup
cleanup-Exact limit window now later rl accepted l x =
    let pruned = λ (k : String) (at : ℕ) (h : later ≤ at).
      ap (count (is_recent at window)) (times_of-prune later rl.window k rl.entries x.distinct)
      ∙ ap (λ w. count (is_recent at window) (retain (is_recent later w) (times_of k rl.entries)))
          x.windows
      ∙ count-retain_later later at window (times_of k rl.entries) h in
    record {
      limits = x.limits;
      windows = x.windows;
      distinct = prune-Distinct later rl.window rl.entries x.distinct;
      seen = λ k at h. x.seen k at (omega arith) ∙ sym (pruned k at h);
      few = λ k. omega (
        arith,
        pruned k later (omega arith),
        x.few k,
        count_later now later window (times_of k rl.entries) l,
      );
    }

-- The limiter with new times at one key, and the calls that they stand for.
stored-Exact :
    (limit window now later : ℕ) (key : String) (ts : List ℕ) (rl : RateLimiter)
    (accepted calls : List (String × ℕ))
    → now ≤ later
    → Exact limit window now rl accepted
    → ((at : ℕ) → later ≤ at → recent_calls window at key calls ≡ count (is_recent at window) ts)
    → ((k : String) (at : ℕ)
        → string_eq.beq key k ≡ false
        → recent_calls window at k calls ≡ recent_calls window at k accepted)
    → count (is_recent later window) ts ≤ limit
    → Exact limit window later (record rl { entries = insert key ts rl.entries }) calls
stored-Exact limit window now later key ts rl accepted calls l x own others few = record {
  limits = x.limits;
  windows = x.windows;
  distinct = insert-Distinct key ts rl.entries x.distinct;
  seen = λ k at h. elim (Bool-cases (string_eq.beq key k)) [
    | inl same ↦
        ap (λ j. recent_calls window at j calls) (sym ((string_eq.beq_iff key k).0 same))
        ∙ own at h
        ∙ ap (count (is_recent at window)) (
            sym (
              times_of-insert key k ts rl.entries
              ∙ ap (λ b. if b then ts else times_of k rl.entries) same))
    | inr other ↦
        others k at other
        ∙ x.seen k at (omega arith)
        ∙ ap (count (is_recent at window)) (
            sym (
              times_of-insert key k ts rl.entries
              ∙ ap (λ b. if b then ts else times_of k rl.entries) other))
  ];
  few = λ k. elim (Bool-cases (string_eq.beq key k)) [
    | inl same ↦ omega (
      arith,
      few,
      ap (count (is_recent later window)) (
          times_of-insert key k ts rl.entries
          ∙ ap (λ b. if b then ts else times_of k rl.entries) same),
    )
    | inr other ↦ omega (
      arith,
      x.few k,
      count_later now later window (times_of k rl.entries) l,
      ap (count (is_recent later window)) (
          times_of-insert key k ts rl.entries
          ∙ ap (λ b. if b then ts else times_of k rl.entries) other),
    )
  ];
}

module _ (limit window now later : ℕ) (key : String) (rl : RateLimiter)
    (accepted : List (String × ℕ)) (l : now ≤ later) (x : Exact limit window now rl accepted) where
  kept : List ℕ
  kept = retain (is_recent later rl.window) (times_of key rl.entries)

  count-kept :
      (at : ℕ) → later ≤ at → recent_calls window at key accepted ≡ count (is_recent at window) kept
  unfolding kept
  count-kept at h =
      x.seen key at (omega arith)
      ∙ sym (count-retain_later later at window (times_of key rl.entries) h)
      ∙ ap (λ w. count (is_recent at window) (retain (is_recent later w) (times_of key rl.entries)))
          (sym x.windows)

  refused-Exact :
      leb rl.max_per_window (length kept) ≡ true
      → Exact limit window later (record rl { entries = insert key kept rl.entries }) accepted
  refused-Exact full =
      stored-Exact limit window now later key kept rl accepted accepted l x count-kept
        (λ k at n. refl)
        (omega (
          arith,
          sym (x.seen key later l) ∙ count-kept later (omega arith),
          x.few key,
          count_later now later window (times_of key rl.entries) l,
        ))

  accepted-Exact :
      leb rl.max_per_window (length kept) ≡ false
      → Exact limit window later
          (record rl { entries = insert key (kept ++ (later ∷ [])) rl.entries })
          ((key, later) ∷ accepted)
  unfolding recent_calls count
  accepted-Exact room =
      stored-Exact limit window now later key (kept ++ (later ∷ [])) rl accepted
        ((key, later) ∷ accepted) l x
        (λ at h. ground (
          arith,
          string_eq.beq_iff key key,
          count-kept at h,
          count-append (is_recent at window) kept (later ∷ []),
        ))
        (λ k at other. ground (arith, other))
        (ground (
          arith,
          room,
          x.limits,
          count-append (is_recent later window) kept (later ∷ []),
          count-le-length (is_recent later window) kept,
        ))

  record_at-Exact :
      Exact limit window later
        (record_at later key rl).0
        (if (record_at later key rl).1 then (key, later) ∷ accepted else accepted)
  unfolding record_at kept
  record_at-Exact = elim (Bool-cases (leb rl.max_per_window (length kept))) [
    | inl full ↦ rw (record_at, full) (refused-Exact full)
    | inr room ↦ rw (record_at, room) (accepted-Exact room)
  ]

pub check_and_record-Exact :
    (limit window now later : ℕ) (key : String) (rl : RateLimiter) (accepted : List (String × ℕ))
    → now ≤ later
    → Exact limit window now rl accepted
    → Exact limit window later
        (check_and_record later key rl).0
        (if (check_and_record later key rl).1 then (key, later) ∷ accepted else accepted)
unfolding check_and_record
check_and_record-Exact limit window now later key rl accepted l x =
    let cleaned = cleanup later rl in
    let c = cleanup-Exact limit window now later rl accepted l x in
    elim (Bool-cases
      (not (is_some (lookup key rl.entries)) && leb rl.max_keys (length rl.entries))) [
        | inr room ↦
            rw (check_and_record, room) (record_at-Exact limit window now later key rl accepted l x)
        | inl crowded ↦ elim (Bool-cases (leb rl.max_keys (length cleaned.entries))) [
          | inl full ↦ rw (check_and_record, crowded) (rw (check_and_record, full) c)
          | inr freed ↦
              rw (check_and_record, crowded)
                (rw (check_and_record, freed)
                  (record_at-Exact limit window later later key cleaned accepted (omega arith) c))
        ]
      ]
