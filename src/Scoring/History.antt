-- ===== src/Scoring/History.antt =====
-- The scoring engine against the whole history of its signals.
use mathlib.Core.Path.{subst}
use hiveguard.Prelude.{
  ℕ, ◌≤◌, ◌≡◌, ◌⊎◌, inl, inr, refl, sym, ap, ◌∙◌, arith, Bool, true, List, [], ◌∷◌, ◌++◌, Option,
  none, some, retain, is_empty, Bool-cases, Option-cases, if◌then◌else◌, if_true, if_false,
}
use hiveguard.Prelude.Map.{
  HashMap, Distinct, lookup, insert, remove, lookup-insert, lookup-remove, insert-Distinct,
  remove-Distinct,
}
use hiveguard.Net.{IpAddr, addr, addr_eq}
use hiveguard.Models.{DetectionSignal}
use hiveguard.Scoring.{Config, DefaultScoringPlugin, is_current, prune_signals, bucket_of}

-- What happened, the latest first: a signal, or a decision on an address.
pub data Entry : Type 0 where
  recorded : DetectionSignal → Entry
  decided : IpAddr → Entry

-- The signals on an address since the last decision on it.
unfoldable pub since : IpAddr → List Entry → List DetectionSignal
since ip [] = []
since ip (Entry.recorded s ∷ h) =
    let rest = since ip h in if addr_eq.beq (addr s.source_ip) ip then rest ++ (s ∷ []) else rest
since ip (Entry.decided j ∷ h) = let rest = since ip h in if addr_eq.beq j ip then [] else rest

pub retain_later :
    (w now at : ℕ) (xs : List DetectionSignal)
    → now ≤ at
    → retain (is_current w at) (retain (is_current w now) xs) ≡ retain (is_current w at) xs
unfolding retain is_current
retain_later w now at [] h = refl
retain_later w now at (s ∷ xs) h = ground (arith, retain_later w now at xs h)

pub retain-append :
    (p : DetectionSignal → Bool) (xs ys : List DetectionSignal)
    → retain p (xs ++ ys) ≡ retain p xs ++ retain p ys
unfolding retain
retain-append p [] ys = refl
retain-append p (x ∷ xs) ys = ground (arith, retain-append p xs ys)

empty_of : (xs : List DetectionSignal) → is_empty xs ≡ true → xs ≡ []
empty_of [] h = refl
empty_of (x ∷ xs) h = absurd (ground (arith, h))

pub bucket_of-insert :
    (ip j : IpAddr) (b : List DetectionSignal) (m : HashMap IpAddr (List DetectionSignal))
    → bucket_of j (insert ip b m) ≡ (if addr_eq.beq ip j then b else bucket_of j m)
unfolding bucket_of
bucket_of-insert ip j b m = elim (Bool-cases (addr_eq.beq ip j)) [
  | inl same ↦ rw (bucket_of, lookup-insert ip j b m, same) refl
  | inr other ↦ rw (bucket_of, lookup-insert ip j b m, other) refl
]

bucket_of-remove :
    (ip j : IpAddr) (m : HashMap IpAddr (List DetectionSignal))
    → Distinct m
    → bucket_of j (remove ip m) ≡ (if addr_eq.beq ip j then [] else bucket_of j m)
unfolding bucket_of
bucket_of-remove ip j m d = elim (Bool-cases (addr_eq.beq ip j)) [
  | inl same ↦ rw (bucket_of, lookup-remove ip j m d, same) refl
  | inr other ↦ rw (bucket_of, lookup-remove ip j m d, other) refl
]

-- Pruning does nothing without signals, removes the address, or stores what is left.
prune-cases :
    (ip : IpAddr) (now : ℕ) (p : DefaultScoringPlugin)
    → (let kept = retain (is_current p.config.accumulation_window now) (bucket_of ip p.signals) in
        ((bucket_of ip p.signals ≡ []) × (prune_signals ip now p ≡ p))
        ⊎ ((kept ≡ []) × (prune_signals ip now p ≡ record p { signals = remove ip p.signals }))
        ⊎ (prune_signals ip now p ≡ record p { signals = insert ip kept p.signals }))
unfolding prune_signals bucket_of
prune-cases ip now p = elim (Option-cases (lookup ip p.signals)) [
  | inl absent ↦ inl (rw (bucket_of, absent) refl, rw (prune_signals, absent) refl)
  | inr (bucket, there) ↦
      let kept = retain (is_current p.config.accumulation_window now) bucket in
      elim (Bool-cases (is_empty kept)) [
        | inl gone ↦ inr (
            inl (
              ap
                    (λ (o : Option (List DetectionSignal)).
                      retain (is_current p.config.accumulation_window now)
                        (elim o [ none ↦ [] | some b ↦ b ]))
                    there
                  ∙ empty_of kept gone,
              rw (prune_signals, there, gone) refl,
            ))
        | inr left ↦ inr (inr (rw (prune_signals, bucket_of, there, left) refl))
      ]
]

-- What pruning leaves.
pub bucket_of-prune :
    (ip j : IpAddr) (now : ℕ) (p : DefaultScoringPlugin)
    → Distinct p.signals
    → bucket_of j (prune_signals ip now p).signals ≡ (
        if addr_eq.beq ip j
        then retain (is_current p.config.accumulation_window now) (bucket_of ip p.signals)
        else bucket_of j p.signals)
unfolding retain
bucket_of-prune ip j now p d =
    let kept = retain (is_current p.config.accumulation_window now) (bucket_of ip p.signals) in
    let at_j = λ (q : DefaultScoringPlugin). bucket_of j q.signals in
    elim (prune-cases ip now p) [
      | inl (none_there, e) ↦ ap at_j e ∙ elim (Bool-cases (addr_eq.beq ip j)) [
        | inl same ↦
            ap (λ k. bucket_of k p.signals) (sym ((addr_eq.beq_iff ip j).0 same))
            ∙ none_there
            ∙ ap (retain (is_current p.config.accumulation_window now)) (sym none_there)
            ∙ sym (if_true _ _ _ same)
        | inr other ↦ sym (if_false _ _ _ other)
      ]
      | inr (inl (gone, e)) ↦
          ap at_j e
          ∙ bucket_of-remove ip j p.signals d
          ∙ ap (λ b. if addr_eq.beq ip j then b else bucket_of j p.signals) (sym gone)
      | inr (inr e) ↦ ap at_j e ∙ bucket_of-insert ip j kept p.signals
    ]

pub prune-kept :
    (ip : IpAddr) (now : ℕ) (p : DefaultScoringPlugin)
    → Distinct p.signals
    → Distinct (prune_signals ip now p).signals × ((prune_signals ip now p).config ≡ p.config)
prune-kept ip now p d =
    let kept = retain (is_current p.config.accumulation_window now) (bucket_of ip p.signals) in
    let P = λ (q : DefaultScoringPlugin). Distinct q.signals × (q.config ≡ p.config) in
    elim (prune-cases ip now p) [
      | inl (nothing, e) ↦ subst P (sym e) (d, refl)
      | inr (inl (gone, e)) ↦ subst P (sym e) (remove-Distinct ip p.signals d, refl)
      | inr (inr e) ↦ subst P (sym e) (insert-Distinct ip kept p.signals d, refl)
    ]

-- The engine holds what counts of the history, from a time on.
pub record Exact (c : Config) (now : ℕ) (p : DefaultScoringPlugin) (h : List Entry) : Type 0 where
  pub config : p.config ≡ c
  pub distinct : Distinct p.signals
  pub agrees :
      (ip : IpAddr) (at : ℕ)
      → now ≤ at
      → retain (is_current c.accumulation_window at) (bucket_of ip p.signals)
        ≡ retain (is_current c.accumulation_window at) (since ip h)

pub prune-Exact :
    (c : Config) (before now : ℕ) (ip : IpAddr) (p : DefaultScoringPlugin) (h : List Entry)
    → before ≤ now
    → Exact c before p h
    → Exact c now (prune_signals ip now p) h
prune-Exact c before now ip p h le x =
    let w = c.accumulation_window in
    let k = prune-kept ip now p x.distinct in
    let cw = ap (λ (d : Config). d.accumulation_window) x.config in
    record {
      config = k.1 ∙ x.config;
      distinct = k.0;
      agrees = λ j at later.
          ap (retain (is_current w at)) (bucket_of-prune ip j now p x.distinct)
          ∙ elim (Bool-cases (addr_eq.beq ip j)) [
            | inl same ↦
                ap (retain (is_current w at)) (if_true _ _ (bucket_of j p.signals) same)
                ∙ ap
                    (λ v.
                      retain (is_current w at) (retain (is_current v now) (bucket_of ip p.signals)))
                    cw
                ∙ retain_later w now at (bucket_of ip p.signals) later
                ∙ ap (λ k. retain (is_current w at) (bucket_of k p.signals))
                    ((addr_eq.beq_iff ip j).0 same)
                ∙ x.agrees j at (omega (arith, le, later))
            | inr other ↦
                ap (retain (is_current w at)) (if_false _ _ (bucket_of j p.signals) other)
                ∙ x.agrees j at (omega (arith, le, later))
          ];
    }
