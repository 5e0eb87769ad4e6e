-- ===== src/Scoring.antt =====
-- plugins/scoring-default/src/lib.rs: the scoring engine, which bans an address when its signals add
-- up. A confidence is in hundredths; for these the source's sum of `f32` with its epsilon is the
-- exact product, rounded down. The sum of the severities is a number without a bound.
pub mod History
pub mod Decisions
pub mod Bans
use Prim.Native.Nat.{min, max}
use Prim.Native.String.{String, ◌++◌ as ◌+++◌}
use hiveguard.Prelude.{
  ℕ, ◌+◌, ◌*◌, ◌/◌, Bool, true, false, List, [], ◌∷◌, ◌++◌, map, Option, none, some, leb, ltb,
  retain, is_empty, if◌then◌else◌,
}
use hiveguard.Prelude.Map.{HashMap, lookup, insert, remove}
use hiveguard.Net.{IpAddr, IpNet, addr, addr_eq, prefix_len}
use hiveguard.Models.{Action, BanSource, DetectionSignal}
use hiveguard.Crypto.{Bytes}
use hiveguard.Detectors.{Display, ip_to_net}

pub record Config : Type 0 where
  pub accumulation_window : ℕ
  pub ban_severity_threshold : ℕ
  pub default_ban_duration : ℕ

pub record BanDecision : Type 0 where
  pub subject : IpNet
  pub duration : ℕ
  pub reason : String
  pub severity : ℕ
  pub evidence_hash : Bytes
  pub source : BanSource
  pub timestamp : ℕ

pub record DefaultScoringPlugin : Type 0 where
  pub config : Config
  pub signals : HashMap IpAddr (List DetectionSignal)

-- `timestamp >= now - window`
unfoldable pub is_current : ℕ → ℕ → DetectionSignal → Bool
is_current window now s = leb now (s.timestamp + window)

unfoldable pub prune_signals : IpAddr → ℕ → DefaultScoringPlugin → DefaultScoringPlugin
prune_signals ip now p = elim (lookup ip p.signals) [
  | none ↦ p
  | some bucket ↦
      let kept = retain (is_current p.config.accumulation_window now) bucket in
      if is_empty kept
      then record p { signals = remove ip p.signals }
      else record p { signals = insert ip kept p.signals }
]

-- The signals on an address, none if it has no entry.
unfoldable pub bucket_of : IpAddr → HashMap IpAddr (List DetectionSignal) → List DetectionSignal
bucket_of ip m = elim (lookup ip m) [ none ↦ [] | some bucket ↦ bucket ]

-- `record`
unfoldable pub record_signal : DetectionSignal → DefaultScoringPlugin → DefaultScoringPlugin
record_signal signal p =
    let ip = addr signal.source_ip in
    record p { signals = insert ip (bucket_of ip p.signals ++ (signal ∷ [])) p.signals }

unfoldable pub weighted_severity : DetectionSignal → ℕ
weighted_severity s = (s.severity * min s.confidence 100) / 100

unfoldable pub total_severity : List DetectionSignal → ℕ
total_severity [] = 0
total_severity (s ∷ bucket) = weighted_severity s + total_severity bucket

-- The longest of the bans that are asked for.
unfoldable pub ban_duration : List DetectionSignal → Option ℕ
ban_duration [] = none
ban_duration (s ∷ bucket) =
    let rest = ban_duration bucket in
    elim s.suggested_action [
      | Action.ban d ↦ elim rest [ none ↦ some d | some e ↦ some (max d e) ]
      | Action.observe ↦ rest
      | Action.escalate ↦ rest
    ]

-- `max_by_key`: the last of the most severe signals.
unfoldable pub best_signal : DetectionSignal → List DetectionSignal → DetectionSignal
best_signal s [] = s
best_signal s (t ∷ bucket) = best_signal (if leb s.severity t.severity then t else s) bucket

-- `min_by_key`: the first of the widest networks.
unfoldable pub widest : IpNet → List DetectionSignal → IpNet
widest n [] = n
widest n (s ∷ bucket) =
    widest (if ltb (prefix_len s.source_ip) (prefix_len n) then s.source_ip else n) bucket

module _ (d : Display) where
  -- What is decided on the signals that are left.
  unfoldable pub decide : Config → ℕ → List DetectionSignal → Option BanDecision
  decide c now [] = none
  decide c now (s ∷ bucket) =
      let total = total_severity (s ∷ bucket) in
      let best = best_signal s bucket in
      let subject = widest s.source_ip bucket in
      if ltb total c.ban_severity_threshold
      then none
      else some (record {
        subject = subject;
        duration = elim (ban_duration (s ∷ bucket)) [
          | none ↦ c.default_ban_duration
          | some longest ↦ longest
        ];
        reason =
            "Accumulated severity "
            +++ (d.of_number total
                +++ (" (threshold "
                    +++ (d.of_number c.ban_severity_threshold
                        +++ (") for " +++ d.of_net subject))));
        severity = min total 255;
        evidence_hash = best.evidence_hash;
        source = BanSource.local_detector best.detector_name;
        timestamp = now;
      })

  unfoldable pub evaluate :
      IpAddr → ℕ → DefaultScoringPlugin → DefaultScoringPlugin × Option BanDecision
  evaluate ip now p =
      let pruned = prune_signals ip now p in
      elim (lookup ip pruned.signals) [
        | none ↦ (pruned, none)
        | some bucket ↦ elim (decide pruned.config now bucket) [
          | none ↦ (pruned, none)
          | some decision ↦ (record pruned { signals = insert ip [] pruned.signals }, some decision)
        ]
      ]

unfoldable pub prune_each : ℕ → List IpAddr → DefaultScoringPlugin → DefaultScoringPlugin
prune_each now [] p = p
prune_each now (ip ∷ keys) p = prune_each now keys (prune_signals ip now p)

unfoldable pub decay : ℕ → DefaultScoringPlugin → DefaultScoringPlugin
decay now p = prune_each now (map (λ (e : IpAddr × List DetectionSignal). e.0) p.signals) p
