-- ===== src/Detectors/Window.antt =====
-- The sliding window of the detectors, against the whole history of the failures.
use mathlib.Core.Path.{subst}
use hiveguard.Prelude.{
  ℕ, suc, ◌+◌, ◌≤◌, ◌≡◌, inl, inr, refl, sym, ap, ◌∙◌, arith, Bool, true, false, not, List, [], ◌∷◌,
  ◌++◌, Option, none, some, length, leb, ltb, count, count-append, All, All-append, All-weaken,
  Bool-cases, if◌then◌else◌, if_true, if_false,
}
use hiveguard.Prelude.Map.{insert, lookup-insert, is_some}
use hiveguard.Net.{IpAddr, addr_eq}
use hiveguard.Detectors.{Failures, prune_window, failures_of, hit}

-- The failures in order, the latest first: the source, the time, and whether the detector fired.
abbrev pub History : Type 0
History = List (IpAddr × (ℕ × Bool))

-- A failure counts within the window that ends at `now`.
abbrev pub is_live : ℕ → ℕ → ℕ → Bool
is_live window now t = not (ltb (t + window) now)

-- The failures of a source since the detector fired on it last.
unfoldable pub since : IpAddr → History → List ℕ
since ip [] = []
since ip ((j, (t, fired)) ∷ h) =
    let rest = since ip h in if addr_eq.beq j ip then if fired then [] else t ∷ rest else rest

abbrev IsAscending : List ℕ → Type 0
IsAscending [] = Unit
IsAscending (t ∷ ts) = All (λ u. t ≤ u) ts × IsAscending ts

count-prune_window :
    (w now at : ℕ) (ts : List ℕ)
    → now ≤ at
    → count (is_live w at) (prune_window w now ts) ≡ count (is_live w at) ts
unfolding prune_window count
count-prune_window w now at [] h = refl
count-prune_window w now at (t ∷ ts) h = ground (arith, count-prune_window w now at ts h)

All-live :
    (w now t : ℕ) (ts : List ℕ)
    → is_live w now t ≡ true
    → All (λ u. t ≤ u) ts
    → count (is_live w now) ts ≡ length ts
unfolding count
All-live w now t [] h a = refl
All-live w now t (u ∷ ts) h a = ground (arith, h, a.0, All-live w now t ts h a.1)

length-prune_window :
    (w now : ℕ) (ts : List ℕ)
    → IsAscending ts
    → length (prune_window w now ts) ≡ count (is_live w now) ts
unfolding prune_window count
length-prune_window w now [] a = refl
length-prune_window w now (t ∷ ts) a =
    ground (arith, length-prune_window w now ts a.1, All-live w now t ts)

prune_window-All :
    (P : ℕ → Type 0) (w now : ℕ) (ts : List ℕ) → All P ts → All P (prune_window w now ts)
unfolding prune_window
prune_window-All P w now [] h = tt
prune_window-All P w now (t ∷ ts) h = elim (Bool-cases (ltb (t + w) now)) [
  | inl old ↦ rw (old) (prune_window-All P w now ts h.1)
  | inr new ↦ rw (new) h
]

prune_window-IsAscending :
    (w now : ℕ) (ts : List ℕ) → IsAscending ts → IsAscending (prune_window w now ts)
unfolding prune_window
prune_window-IsAscending w now [] a = tt
prune_window-IsAscending w now (t ∷ ts) a = elim (Bool-cases (ltb (t + w) now)) [
  | inl old ↦ rw (old) (prune_window-IsAscending w now ts a.1)
  | inr new ↦ rw (new) a
]

append-IsAscending :
    (ts : List ℕ) (now : ℕ)
    → IsAscending ts
    → All (λ t. t ≤ now) ts
    → IsAscending (ts ++ (now ∷ []))
append-IsAscending [] now a h = (tt, tt)
append-IsAscending (t ∷ ts) now a h =
    (All-append (λ u. t ≤ u) ts (now ∷ []) a.0 (h.0, tt), append-IsAscending ts now a.1 h.1)

failures_of-insert :
    (ip j : IpAddr) (deque : List ℕ) (m : Failures)
    → failures_of j (insert ip deque m) ≡ (if addr_eq.beq ip j then deque else failures_of j m)
unfolding failures_of
failures_of-insert ip j deque m = elim (Bool-cases (addr_eq.beq ip j)) [
  | inl same ↦ rw (failures_of, lookup-insert ip j deque m, same) refl
  | inr other ↦ rw (failures_of, lookup-insert ip j deque m, other) refl
]

-- What the detector keeps counts as the history does, from a time on.
pub record Exact (w now : ℕ) (m : Failures) (h : History) : Type 0 where
  pub counts :
      (ip : IpAddr) (at : ℕ)
      → now ≤ at
      → count (is_live w at) (failures_of ip m) ≡ count (is_live w at) (since ip h)
  pub ascending : (ip : IpAddr) → IsAscending (failures_of ip m)
  pub past : (ip : IpAddr) → All (λ t. t ≤ now) (failures_of ip m)

abbrev outcome : Bool → Failures → Failures → ℕ → Failures × Option ℕ
outcome full m n k = if full then (m, some k) else (n, none)

fires_iff : (full : Bool) (m n : Failures) (k : ℕ) → is_some (outcome full m n k).1 ≡ full
fires_iff true m n k = refl
fires_iff false m n k = refl

-- The detector fires when this failure and those that count reach the threshold.
pub hit-fires :
    (w threshold before now : ℕ) (ip : IpAddr) (m : Failures) (h : History)
    → Exact w before m h
    → before ≤ now
    → is_some (hit w threshold ip now m).1
      ≡ leb threshold (suc (count (is_live w now) (since ip h)))
unfolding hit count
hit-fires w threshold before now ip m h x le =
    let old = failures_of ip m in
    let all = old ++ (now ∷ []) in
    let a =
      append-IsAscending old now (x.ascending ip)
        (All-weaken _ _ old (λ t i. omega (arith, i, le)) (x.past ip)) in
    let n : length (prune_window w now all) ≡ suc (count (is_live w now) (since ip h)) = ground (
      arith,
      length-prune_window w now all a,
      count-append (is_live w now) old (now ∷ []),
      x.counts ip now le,
    ) in
    fires_iff (leb threshold (length (prune_window w now all))) _ _ _ ∙ ap (leb threshold) n

-- The failures that a call leaves, by whether it fired.
abbrev left_by : Bool → List ℕ → List ℕ
left_by full deque = if full then [] else deque

failures_of-hit :
    (w threshold now : ℕ) (ip j : IpAddr) (m : Failures)
    → (let deque = prune_window w now (failures_of ip m ++ (now ∷ [])) in
        failures_of j (hit w threshold ip now m).0 ≡ (
          if addr_eq.beq ip j
          then left_by (leb threshold (length deque)) deque
          else failures_of j m))
unfolding hit
failures_of-hit w threshold now ip j m =
    let deque = prune_window w now (failures_of ip m ++ (now ∷ [])) in
    elim (Bool-cases (leb threshold (length deque))) [
      | inl full ↦ rw (hit, full) (failures_of-insert ip j [] m)
      | inr few ↦ rw (hit, few) (failures_of-insert ip j deque m)
    ]

-- A call keeps what the detector holds in step with the history.
pub hit-Exact :
    (w threshold before now : ℕ) (ip : IpAddr) (m : Failures) (h : History)
    → Exact w before m h
    → before ≤ now
    → Exact w now
        (hit w threshold ip now m).0
        ((ip, (now, is_some (hit w threshold ip now m).1)) ∷ h)
unfolding hit since count
hit-Exact w threshold before now ip m h x le =
    subst (λ b. Exact w now (hit w threshold ip now m).0 ((ip, (now, b)) ∷ h))
      (sym (fires_iff full _ _ _))
      (record {
        counts = λ j at later. elim (Bool-cases (addr_eq.beq ip j)) [
          | inl same ↦
              ap (count (is_live w at)) (holds j ∙ if_true _ _ _ same)
              ∙ left_counts full j at ((addr_eq.beq_iff ip j).0 same) later
              ∙ ap (count (is_live w at)) (sym (if_true _ _ _ same))
          | inr other ↦
              ap (count (is_live w at)) (holds j ∙ if_false _ _ _ other)
              ∙ x.counts j at (omega (arith, le, later))
              ∙ ap (count (is_live w at)) (sym (if_false _ _ _ other))
        ];
        ascending = λ j. elim (Bool-cases (addr_eq.beq ip j)) [
          | inl same ↦
              subst IsAscending (sym (holds j ∙ if_true _ _ _ same))
                (left_ascending full (prune_window-IsAscending w now all a))
          | inr other ↦ subst IsAscending (sym (holds j ∙ if_false _ _ _ other)) (x.ascending j)
        ];
        past = λ j. elim (Bool-cases (addr_eq.beq ip j)) [
          | inl same ↦ subst (All (λ t. t ≤ now)) (sym (holds j ∙ if_true _ _ _ same)) (
              left_past full (
                prune_window-All _ w now all
                  (All-append _ old (now ∷ []) (older ip) (omega arith, tt))))
          | inr other ↦ subst (All (λ t. t ≤ now)) (sym (holds j ∙ if_false _ _ _ other)) (older j)
        ];
      })
  where
    old : List ℕ
    old = failures_of ip m

    all : List ℕ
    all = old ++ (now ∷ [])

    deque : List ℕ
    deque = prune_window w now all

    full : Bool
    full = leb threshold (length deque)

    holds :
        (j : IpAddr)
        → failures_of j (hit w threshold ip now m).0
          ≡ (if addr_eq.beq ip j then left_by full deque else failures_of j m)
    holds j = failures_of-hit w threshold now ip j m

    older : (j : IpAddr) → All (λ t. t ≤ now) (failures_of j m)
    older j = All-weaken _ _ (failures_of j m) (λ t i. omega (arith, i, le)) (x.past j)

    a : IsAscending all
    a = append-IsAscending old now (x.ascending ip) (older ip)

    left_ascending : (b : Bool) → IsAscending deque → IsAscending (left_by b deque)
    left_ascending true i = tt
    left_ascending false i = i

    left_past : (b : Bool) → All (λ t. t ≤ now) deque → All (λ t. t ≤ now) (left_by b deque)
    left_past true i = tt
    left_past false i = i

    left_counts :
        (b : Bool) (j : IpAddr) (at : ℕ)
        → ip ≡ j
        → now ≤ at
        → count (is_live w at) (left_by b deque)
          ≡ count (is_live w at) (if b then [] else now ∷ since j h)
    left_counts true j at e later = refl
    left_counts false j at e later = ground (
      arith,
      count-prune_window w now at all later,
      count-append (is_live w at) old (now ∷ []),
      x.counts ip at (omega (arith, le, later)),
      ap (λ (k : IpAddr). count (is_live w at) (since k h)) e,
    )
