-- ===== src/Tests/Detectors.antt =====
-- hiveguard-core/src/detectors/ssh_bruteforce.rs: failed logins from two sources.
use hiveguard.Prelude.{ℕ, suc, ◌≡◌, refl, arith, List, [], ◌∷◌, leb, count}
use hiveguard.Net.{IpAddr}
use hiveguard.Models.{EventType, NormalizedEvent}
use hiveguard.Detectors.{Display, SshBruteforceDetector, with_config, process}
use hiveguard.Detectors.Window.{is_live, since}
use hiveguard.Detectors.PortScan
use hiveguard.Detectors.PortScan.Bounds
use hiveguard.Detectors.PortScan.Bounds.{IsBounded, run}
use hiveguard.Detectors.Signals
use hiveguard.Detectors.Signals.{is_bruteforce, watch, key_of}
use hiveguard.Tests.CratesLib.{blake3}
use hiveguard.Tests.NetLib.{net_lib}
use hiveguard.Tests.TextsLib.{to_string, strokes}

unfoldable pub display : Display
display = record { of_number = λ n. strokes n ""; of_addr = λ a. "address"; of_net = to_string }

abbrev start : SshBruteforceDetector
start = with_config 2 1000 86400000 3 500 172800000

abbrev failure : ℕ → ℕ → NormalizedEvent
failure source at = record {
  timestamp = at;
  source_ip = IpAddr.v4 source;
  event_type = EventType.auth_failure;
  source_name = "ssh";
  raw_line = "";
  metadata = [];
}

abbrev earlier : List NormalizedEvent
earlier =
    failure 6 30 ∷ record (failure 5 25) { event_type = EventType.auth_success } ∷ failure 5 20 ∷ []

process-fires_example :
    is_bruteforce
      (process net_lib blake3 display
        (failure 5 40)
        (watch net_lib blake3 display start earlier).0).1
    ≡ leb start.threshold (
        suc (
          count (is_live start.window 40) (
            since
              (key_of net_lib blake3 display start (failure 5 40))
              (watch net_lib blake3 display start earlier).1)))
unfolding with_config
process-fires_example =
    Signals.process-fires net_lib blake3 display start earlier (failure 5 40) refl
      (omega arith, (omega arith, (omega arith, (omega arith, tt)))) refl

abbrev scan : ℕ → NormalizedEvent
scan at = record (failure 5 at) {
  event_type = EventType.port_access;
  metadata = ("port", "22") ∷ [];
}

run-IsBounded_example : IsBounded (run net_lib blake3 display (scan 40 ∷ scan 30 ∷ []) PortScan.new)
run-IsBounded_example =
    Bounds.run-IsBounded net_lib blake3 display (scan 40 ∷ scan 30 ∷ []) PortScan.new
