-- ===== src/Detectors.antt =====
-- hiveguard-core/src/detectors: what the detectors share (netkey.rs, and the sliding window that
-- ssh_bruteforce.rs, smtp_bruteforce.rs and http_4xx_flood.rs each have), and these three.
pub mod Window
pub mod Signals
pub mod Counters
pub mod PortScan
use Prim.Native.String.{String, ◌++◌ as ◌+++◌}
use hiveguard.Prelude.{
  ℕ, ◌+◌, ◌*◌, Bool, true, false, ◌||◌, List, [], ◌∷◌, ◌++◌, Option, none, some, length, leb, ltb,
  ◌==◌, ◌>>=◌, if◌then◌else◌,
}
use Prim.Native.Nat.{min}
use hiveguard.Prelude.Eq.{string_eq}
use hiveguard.Prelude.Map.{HashMap, lookup, insert}
use hiveguard.Net.{IpAddr, IpNet, NetLib, addr, addr_eq}
use hiveguard.Models.{Action, DetectionSignal, EventType, NormalizedEvent}
use hiveguard.Crypto.{Bytes, Blake3, as_bytes}

-- The texts that messages put together.
pub record Display : Type 0 where
  pub of_number : ℕ → String
  pub of_addr : IpAddr → String
  pub of_net : IpNet → String

abbrev pub default_ipv6_prefix : ℕ
default_ipv6_prefix = 64

-- `source_key`; the prefixes are valid, so that the constructors of ipnet give the network.
unfoldable pub source_key : NetLib → IpAddr → ℕ → IpNet
source_key lib (IpAddr.v4 a) ipv6_prefix = IpNet.v4 a 32
source_key lib (IpAddr.v6 a) ipv6_prefix =
    let p = if ipv6_prefix == 0 || leb 128 ipv6_prefix then 128 else ipv6_prefix in
    lib.trunc (IpNet.v6 a p)

unfoldable pub subnet_of : NetLib → IpAddr → ℕ → ℕ → Option IpNet
subnet_of lib (IpAddr.v4 a) v4_prefix v6_prefix =
    if ltb 0 v4_prefix then (lib.new4 a (min v4_prefix 32) >>= λ n. some (lib.trunc n)) else none
subnet_of lib (IpAddr.v6 a) v4_prefix v6_prefix =
    if ltb 0 v6_prefix then (lib.new6 a (min v6_prefix 128) >>= λ n. some (lib.trunc n)) else none

-- The network of one address.
unfoldable pub ip_to_net : IpAddr → IpNet
ip_to_net (IpAddr.v4 a) = IpNet.v4 a 32
ip_to_net (IpAddr.v6 a) = IpNet.v6 a 128

-- The times of the failures of each source, the oldest first.
abbrev pub Failures : Type 0
Failures = HashMap IpAddr (List ℕ)

-- `front < now - window` is written `front + window < now`.
unfoldable pub prune_window : ℕ → ℕ → List ℕ → List ℕ
prune_window window now [] = []
prune_window window now (t ∷ deque) =
    let rest = prune_window window now deque in if ltb (t + window) now then rest else t ∷ deque

unfoldable pub failures_of : IpAddr → Failures → List ℕ
failures_of ip failures = elim (lookup ip failures) [ none ↦ [] | some deque ↦ deque ]

-- A failure is noted, and old ones are forgotten. If those that are left reach the threshold, they
-- are cleared, and their number is given.
unfoldable pub hit : ℕ → ℕ → IpAddr → ℕ → Failures → Failures × Option ℕ
hit window threshold ip now failures =
    let deque = prune_window window now (failures_of ip failures ++ (now ∷ [])) in
    if leb threshold (length deque)
    then (insert ip [] failures, some (length deque))
    else (insert ip deque failures, none)

unfoldable pub compute_evidence_hash : Blake3 → Display → IpAddr → String → Bytes
compute_evidence_hash blake3 d ip reason =
    blake3.hash (as_bytes (d.of_addr ip +++ (":" +++ reason)))

pub record SshBruteforceDetector : Type 0 where
  pub threshold : ℕ
  pub window : ℕ
  pub ban_duration : ℕ
  pub enum_threshold : ℕ
  pub enum_window : ℕ
  pub enum_ban_duration : ℕ
  pub failures : Failures
  pub enum_failures : Failures
  pub ipv6_prefix : ℕ

unfoldable pub with_config : ℕ → ℕ → ℕ → ℕ → ℕ → ℕ → SshBruteforceDetector
with_config threshold window ban_duration enum_threshold enum_window enum_ban_duration = record {
  threshold = threshold;
  window = window;
  ban_duration = ban_duration;
  enum_threshold = enum_threshold;
  enum_window = enum_window;
  enum_ban_duration = enum_ban_duration;
  failures = [];
  enum_failures = [];
  ipv6_prefix = default_ipv6_prefix;
}

unfoldable pub new : SshBruteforceDetector
new = with_config 5 300000 86400000 3 120000 172800000

abbrev pub is_auth_failure : EventType → Bool
is_auth_failure EventType.auth_failure = true
is_auth_failure _ = false

unfoldable pub is_invalid_user : NormalizedEvent → Bool
is_invalid_user event = elim (lookup "invalid_user" event.metadata) [
  | none ↦ false
  | some v ↦ string_eq.beq v "true"
]

module _ (lib : NetLib) (blake3 : Blake3) (d : Display) where
  -- A signal on a network that one of the detectors gives.
  unfoldable pub signal :
      String → String → IpNet → IpAddr → ℕ → ℕ → ℕ → ℕ → String → ℕ → DetectionSignal
  signal before after net ip severity confidence n ban_duration name now =
      let reason = before +++ (d.of_number n +++ (after +++ " in window")) in
      record {
        source_ip = net;
        severity = severity;
        confidence = confidence;
        reason = reason;
        evidence_hash = compute_evidence_hash blake3 d ip reason;
        suggested_action = Action.ban ban_duration;
        detector_name = name;
        timestamp = now;
      }

  unfoldable pub bruteforce_signal : SshBruteforceDetector → IpNet → ℕ → ℕ → DetectionSignal
  bruteforce_signal s key n now =
      signal "SSH brute-force: " (" failed logins from " +++ d.of_net key) key (addr key) 150 90 n
        s.ban_duration "ssh_bruteforce" now

  unfoldable pub enumeration_signal : SshBruteforceDetector → IpNet → ℕ → ℕ → DetectionSignal
  enumeration_signal s key n now =
      signal "SSH user enumeration: " (" invalid-user attempts from " +++ d.of_net key) key
        (addr key) 180 90 n s.enum_ban_duration "ssh_bruteforce" now

  -- The second tier, for the names of users that do not exist.
  unfoldable pub enumerate :
      IpNet → ℕ → SshBruteforceDetector → SshBruteforceDetector × Option DetectionSignal
  enumerate key now s =
      let noted = hit s.enum_window s.enum_threshold (addr key) now s.enum_failures in
      (record s { enum_failures = noted.0 }, noted.1 >>= λ n. some (enumeration_signal s key n now))

  -- `process` of SshBruteforceDetector
  unfoldable pub process :
      NormalizedEvent → SshBruteforceDetector → SshBruteforceDetector × Option DetectionSignal
  process event s =
      if is_auth_failure event.event_type
      then (let key = source_key lib event.source_ip s.ipv6_prefix in
          let noted = hit s.window s.threshold (addr key) event.timestamp s.failures in
          let s' = record s { failures = noted.0 } in
          elim noted.1 [
            | some n ↦ (s', some (bruteforce_signal s key n event.timestamp))
            | none ↦ if is_invalid_user event then enumerate key event.timestamp s' else (s', none)
          ])
      else (s, none)
