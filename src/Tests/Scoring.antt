-- ===== src/Tests/Scoring.antt =====
-- plugins/scoring-default/src/lib.rs: two signals on an address, one of them on its subnet.
use hiveguard.Prelude.{◌<◌, ◌≡◌, ◌⊎◌, refl, arith, List, [], ◌∷◌, none, some, retain}
use hiveguard.Net.{IpNet, IpAddr}
use hiveguard.Models.{Action, DetectionSignal}
use hiveguard.Scoring.{
  Config, BanDecision, DefaultScoringPlugin, is_current, evaluate, decide, total_severity,
}
use hiveguard.Scoring.History.{since}
use hiveguard.Scoring.Decisions
use hiveguard.Scoring.Decisions.{Op, run}
use hiveguard.Scoring.Bans
use hiveguard.Scoring.Bans.{IsBan}
use hiveguard.Tests.Detectors.{display}

abbrev config : Config
config = record {
  accumulation_window = 1800000;
  ban_severity_threshold = 100;
  default_ban_duration = 86400000;
}

abbrev start : DefaultScoringPlugin
start = record { config = config; signals = [] }

abbrev scan : DetectionSignal
scan = record {
  source_ip = IpNet.v4 256 24;
  severity = 80;
  confidence = 75;
  reason = "scan";
  evidence_hash = [];
  suggested_action = Action.ban 1000;
  detector_name = "port_scan";
  timestamp = 10;
}

abbrev flood : DetectionSignal
flood = record scan {
  source_ip = IpNet.v4 256 32;
  suggested_action = Action.observe;
  timestamp = 20;
}

abbrev ops : List Op
ops = Op.record_op flood ∷ Op.evaluate_op (IpAddr.v4 256) 15 ∷ Op.record_op scan ∷ []

evaluate-decide_example :
    (evaluate display (IpAddr.v4 256) 30 (run display ops start).0).1
    ≡ decide display config 30
        (retain (is_current 1800000 30) (since (IpAddr.v4 256) (run display ops start).1))
evaluate-decide_example =
    Decisions.evaluate-decide display start ops (IpAddr.v4 256) 30 refl
      (omega arith, (omega arith, (omega arith, (omega arith, tt))))

decide-IsBan_example :
    ((total_severity (scan ∷ flood ∷ []) < 100)
      × (decide display config 30 (scan ∷ flood ∷ []) ≡ none))
    ⊎ ((b : BanDecision) × (decide display config 30 (scan ∷ flood ∷ []) ≡ some b)
        × IsBan config (scan ∷ flood ∷ []) b)
decide-IsBan_example = Bans.decide-IsBan display config 30 scan (flood ∷ [])
