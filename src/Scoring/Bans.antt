-- ===== src/Scoring/Bans.antt =====
-- The ban that the scoring engine decides on.
use Prim.Native.Nat.{max}
use hiveguard.Prelude.{
  ℕ, ◌≤◌, ◌<◌, ◌≡◌, ◌⊎◌, inl, inr, refl, sym, arith, List, [], ◌∷◌, Option, none, some, ltb,
  Bool-cases, if◌then◌else◌, if_true, if_false, In, All, All-weaken,
}
use hiveguard.Net.{IpNet, prefix_len}
use hiveguard.Models.{Action, DetectionSignal}
use hiveguard.Detectors.{Display}
use hiveguard.Scoring.{Config, BanDecision, total_severity, ban_duration, widest, decide}

-- A ban that an action asks for is over by then.
abbrev pub Lasts : Action → ℕ → Type 0
Lasts (Action.ban d) n = d ≤ n
Lasts _ n = Unit

-- The decision does what the signals ask for: it covers the widest of their networks and lasts as
-- long as any of them asks.
pub record IsBan (c : Config) (bucket : List DetectionSignal) (b : BanDecision) : Type 0 where
  pub severe : c.ban_severity_threshold ≤ total_severity bucket
  pub wide : All (λ (s : DetectionSignal). prefix_len b.subject ≤ prefix_len s.source_ip) bucket
  pub asked : (s : DetectionSignal) × In s bucket × (s.source_ip ≡ b.subject)
  pub long : All (λ (s : DetectionSignal). Lasts s.suggested_action b.duration) bucket
  pub bounded : b.severity ≤ 255

widest-wide :
    (n : IpNet) (bucket : List DetectionSignal)
    → (prefix_len (widest n bucket) ≤ prefix_len n)
      × All (λ (s : DetectionSignal). prefix_len (widest n bucket) ≤ prefix_len s.source_ip) bucket
unfolding widest
widest-wide n [] = (omega arith, tt)
widest-wide n (s ∷ bucket) =
    let ih =
      widest-wide (if ltb (prefix_len s.source_ip) (prefix_len n) then s.source_ip else n) bucket in
    (ground (arith, ih.0), (ground (arith, ih.0), ih.1))

widest-cases :
    (n : IpNet) (bucket : List DetectionSignal)
    → (widest n bucket ≡ n)
      ⊎ ((s : DetectionSignal) × In s bucket × (s.source_ip ≡ widest n bucket))
unfolding widest
widest-cases n [] = inl refl
widest-cases n (s ∷ bucket) = elim (Bool-cases (ltb (prefix_len s.source_ip) (prefix_len n))) [
  | inl wider ↦ rw (wider) (elim (widest-cases s.source_ip bucket) [
    | inl e ↦ inr (s, inl refl, sym e)
    | inr (t, i, e) ↦ inr (t, inr i, e)
  ])
  | inr narrower ↦
      rw (narrower)
        (elim (widest-cases n bucket) [ inl e ↦ inl e | inr (t, i, e) ↦ inr (t, inr i, e) ])
]

-- The duration covers what an action asks for, if there is one.
abbrev LastsIn : Action → Option ℕ → Type 0
LastsIn (Action.ban d) none = ⊥
LastsIn (Action.ban d) (some n) = d ≤ n
LastsIn _ o = Unit

abbrev longer : Action → Option ℕ → Option ℕ
longer a rest = elim a [
  | Action.ban d ↦ elim rest [ none ↦ some d | some e ↦ some (max d e) ]
  | Action.observe ↦ rest
  | Action.escalate ↦ rest
]

longer-first : (a : Action) (rest : Option ℕ) → LastsIn a (longer a rest)
longer-first (Action.ban d) none = omega arith
longer-first (Action.ban d) (some e) = omega arith
longer-first Action.observe rest = tt
longer-first Action.escalate rest = tt

longer-rest : (a b : Action) (rest : Option ℕ) → LastsIn b rest → LastsIn b (longer a rest)
longer-rest (Action.ban d) (Action.ban e) none h = absurd h
longer-rest (Action.ban d) (Action.ban e) (some f) h = omega (arith, h)
longer-rest (Action.ban d) Action.observe rest h = tt
longer-rest (Action.ban d) Action.escalate rest h = tt
longer-rest Action.observe b rest h = h
longer-rest Action.escalate b rest h = h

ban_duration-long :
    (bucket : List DetectionSignal)
    → All (λ (s : DetectionSignal). LastsIn s.suggested_action (ban_duration bucket)) bucket
unfolding ban_duration
ban_duration-long [] = tt
ban_duration-long (s ∷ bucket) = (
  longer-first s.suggested_action (ban_duration bucket),
  All-weaken _ _ bucket
      (λ t h. longer-rest s.suggested_action t.suggested_action (ban_duration bucket) h)
      (ban_duration-long bucket),
)

lasts :
    (a : Action) (o : Option ℕ) (d : ℕ)
    → LastsIn a o
    → Lasts a (elim o [ none ↦ d | some longest ↦ longest ])
lasts (Action.ban e) none d h = absurd h
lasts (Action.ban e) (some n) d h = h
lasts Action.observe o d h = tt
lasts Action.escalate o d h = tt

module _ (d : Display) where
  -- The engine bans if there are signals and their severities, weighted by their confidences, reach
  -- the threshold. The ban is on a network that one of the signals names and that is as wide as any
  -- of theirs, it lasts as long as any of them asks, and its severity is at most 255.
  pub decide-IsBan :
      (c : Config) (now : ℕ) (s : DetectionSignal) (bucket : List DetectionSignal)
      → ((total_severity (s ∷ bucket) < c.ban_severity_threshold)
          × (decide d c now (s ∷ bucket) ≡ none))
        ⊎ ((b : BanDecision) × (decide d c now (s ∷ bucket) ≡ some b) × IsBan c (s ∷ bucket) b)
  unfolding decide
  decide-IsBan c now s bucket =
      let total = total_severity (s ∷ bucket) in
      elim (Bool-cases (ltb total c.ban_severity_threshold)) [
        | inl low ↦ inl (ground (arith, low), if_true _ _ _ low)
        | inr high ↦ inr (
          _,
          if_false _ _ _ high,
          record {
            severe = ground (arith, high);
            wide = ((widest-wide s.source_ip bucket).0, (widest-wide s.source_ip bucket).1);
            asked = elim (widest-cases s.source_ip bucket) [
              | inl e ↦ (s, inl refl, sym e)
              | inr (t, i, e) ↦ (t, inr i, e)
            ];
            long =
                All-weaken _ _ (s ∷ bucket)
                  (λ t h.
                    lasts t.suggested_action (ban_duration (s ∷ bucket)) c.default_ban_duration h)
                  (ban_duration-long (s ∷ bucket));
            bounded = omega arith;
          },
        )
      ]
