-- ===== src/Detectors/PortScan.antt =====
-- hiveguard-core/src/detectors/port_scan.rs: the detector of port scans, with its short, long and
-- subnet tiers. A port is noted with the time at which it was last seen.
pub mod Bounds
use Prim.Native.Char.{code}
use Prim.Native.Nat.{zero, suc, max, min}
use Prim.Native.String as Str
use Prim.Native.String.{String, ◌++◌ as ◌+++◌}
use hiveguard.Prelude.{
  ℕ, ◌+◌, ◌-◌, ◌*◌, ◌/◌, ◌%◌, ◌^◌, Bool, true, false, not, ◌&&◌, ◌||◌, List, [], ◌∷◌, ◌++◌, map,
  Option, none, some, length, leb, ltb, ◌==◌, any, retain, is_empty, ◌>>=◌, if◌then◌else◌,
}
use hiveguard.Prelude.Eq.{Eq, string_eq, nat_eq}
use hiveguard.Prelude.Map.{HashMap, lookup, insert, remove, is_some}
use hiveguard.Net.{IpAddr, IpNet, NetLib, addr, addr_eq, net_eq}
use hiveguard.Models.{Action, DetectionSignal, EventType, NormalizedEvent}
use hiveguard.Crypto.{Blake3, as_bytes}
use hiveguard.Detectors.{Display, source_key, subnet_of, default_ipv6_prefix}

abbrev pub Access : Type 0
Access = HashMap IpAddr (List (ℕ × ℕ))

abbrev pub SubnetAccess : Type 0
SubnetAccess = HashMap IpNet (List (ℕ × (IpAddr × ℕ)))

pub record PortScanDetector : Type 0 where
  pub window : ℕ
  pub threshold : ℕ
  pub ban_duration : ℕ
  pub port_access : Access
  pub long_window : ℕ
  pub long_threshold : ℕ
  pub long_ban_duration : ℕ
  pub long_access : Access
  pub max_tracked_ips : ℕ
  pub ipv6_prefix : ℕ
  pub long_subnet_v4_prefix : ℕ
  pub long_subnet_threshold : ℕ
  pub long_subnet_min_ips : ℕ
  pub long_subnet_access : SubnetAccess
  pub events : ℕ

unfoldable pub with_config : ℕ → ℕ → ℕ → PortScanDetector
with_config window threshold ban_duration = record {
  window = window;
  threshold = threshold;
  ban_duration = ban_duration;
  port_access = [];
  long_window = 21600000;
  long_threshold = 25;
  long_ban_duration = 604800000;
  long_access = [];
  max_tracked_ips = 50000;
  ipv6_prefix = default_ipv6_prefix;
  long_subnet_v4_prefix = 0;
  long_subnet_threshold = 40;
  long_subnet_min_ips = 3;
  long_subnet_access = [];
  events = 0;
}

unfoldable pub new : PortScanDetector
new = with_config 600000 6 172800000

unfoldable pub with_ipv6_prefix : ℕ → PortScanDetector → PortScanDetector
with_ipv6_prefix prefix s = record s { ipv6_prefix = prefix }

unfoldable pub with_long_subnet_tier : ℕ → ℕ → ℕ → PortScanDetector → PortScanDetector
with_long_subnet_tier v4_prefix threshold min_ips s = record s {
  long_subnet_v4_prefix = min v4_prefix 32;
  long_subnet_threshold = threshold;
  long_subnet_min_ips = max min_ips 1;
}

unfoldable pub with_long_tier : ℕ → ℕ → ℕ → PortScanDetector → PortScanDetector
with_long_tier window threshold ban_duration s = record s {
  long_window = window;
  long_threshold = threshold;
  long_ban_duration = ban_duration;
}

unfoldable pub with_max_tracked_ips : ℕ → PortScanDetector → PortScanDetector
with_max_tracked_ips limit s = record s { max_tracked_ips = max limit 1 }

-- `t > now - window`
unfoldable pub is_recent : ℕ → ℕ → ℕ → Bool
is_recent window now t = ltb now (t + window)

unfoldable pub cleanup_old_entries : IpAddr → ℕ → PortScanDetector → PortScanDetector
cleanup_old_entries ip now s = elim (lookup ip s.port_access) [
  | none ↦ s
  | some entries ↦
      let kept = retain (λ (e : ℕ × ℕ). is_recent s.window now e.1) entries in
      if is_empty kept
      then record s { port_access = remove ip s.port_access }
      else record s { port_access = insert ip kept s.port_access }
]

abbrev pub any_recent : ℕ → ℕ → IpAddr × List (ℕ × ℕ) → Bool
any_recent window now e = any (λ (x : ℕ × ℕ). is_recent window now x.1) e.1

abbrev pub any_recent_of_subnet : ℕ → ℕ → IpNet × List (ℕ × (IpAddr × ℕ)) → Bool
any_recent_of_subnet window now e = any (λ (x : ℕ × (IpAddr × ℕ)). is_recent window now x.1.1) e.1

unfoldable pub sweep : ℕ → PortScanDetector → PortScanDetector
sweep now s = record s {
  port_access = retain (any_recent s.window now) s.port_access;
  long_access = retain (any_recent s.long_window now) s.long_access;
  long_subnet_access = retain (any_recent_of_subnet s.long_window now) s.long_subnet_access;
}

-- Every 4096th event sweeps; the counter wraps.
unfoldable pub maybe_sweep : ℕ → PortScanDetector → PortScanDetector
maybe_sweep now s =
    let counted = record s { events = (s.events + 1) % 2 ^ 64 } in
    if s.events % 4096 == 4095 then sweep now counted else counted

-- One of the two maps of addresses.
unfoldable pub admit :
    (PortScanDetector → Access) → IpAddr → ℕ → PortScanDetector → PortScanDetector × Bool
admit which ip now s =
    if ltb (length (which s)) s.max_tracked_ips || is_some (lookup ip (which s))
    then (s, true)
    else (let swept = sweep now s in (swept, ltb (length (which swept)) swept.max_tracked_ips))

-- How many different elements there are, as `sort_unstable` and `dedup` tell.
unfoldable pub distinct {ℓ} : {A : Type ℓ} → ⦃e : Eq A⦄ → List A → List A
distinct [] = []
distinct ⦃e⦄ (x ∷ xs) = let rest = distinct xs in if any (e.beq x) xs then rest else x ∷ rest

-- `drain(..k)`
unfoldable pub drain {ℓ} : {A : Type ℓ} → ℕ → List A → List A
drain k [] = []
drain zero (x ∷ xs) = x ∷ xs
drain (suc k) (x ∷ xs) = drain k xs

unfoldable pub entries_of : IpAddr → Access → List (ℕ × ℕ)
entries_of ip m = elim (lookup ip m) [ none ↦ [] | some entries ↦ entries ]

-- `str::parse::<u16>`: decimal digits after an optional plus sign, below 2 ^ 16.
unfoldable pub parse_digits : ℕ → String → Option ℕ
parse_digits acc Str.[] = some acc
parse_digits acc (Str.◌∷◌ c s) =
    let next = acc * 10 + (code c - b'0') in
    let rest = parse_digits next s in
    if leb b'0' (code c) && leb (code c) b'9' && ltb next (2 ^ 16) then rest else none

unfoldable pub parse_u16 : String → Option ℕ
parse_u16 Str.[] = none
parse_u16 (Str.◌∷◌ c Str.[]) = parse_digits 0 (Str.◌∷◌ c Str.[])
parse_u16 (Str.◌∷◌ c (Str.◌∷◌ e s)) =
    if code c == b'+'
    then parse_digits 0 (Str.◌∷◌ e s)
    else parse_digits 0 (Str.◌∷◌ c (Str.◌∷◌ e s))

abbrev pub is_port_access : EventType → Bool
is_port_access EventType.port_access = true
is_port_access _ = false

module _ (lib : NetLib) (blake3 : Blake3) (d : Display) where
  unfoldable pub scan_signal : IpNet → String → String → String → ℕ → ℕ → DetectionSignal
  scan_signal net name evidence reason ban_duration now = record {
    source_ip = net;
    severity = 200;
    confidence = 90;
    reason = reason;
    evidence_hash = blake3.hash (as_bytes evidence);
    suggested_action = Action.ban ban_duration;
    detector_name = name;
    timestamp = now;
  }

  -- The minute of the epoch.
  abbrev minute : ℕ → String
  minute now = d.of_number (now / 60000)

  abbrev seconds : ℕ → String
  seconds window = d.of_number (window / 1000)

  unfoldable pub subnet_scan : IpNet → ℕ → ℕ → ℕ → PortScanDetector → DetectionSignal
  subnet_scan subnet n_ports n_ips now s =
      scan_signal subnet "port_scan_slow"
        (d.of_net subnet
          +++ (":port_scan_slow:subnet:" +++ (d.of_number n_ports +++ ("_ports:" +++ minute now))))
        ("Distributed slow port scan: "
          +++ (d.of_number n_ports
              +++ (" unique ports from "
                  +++ (d.of_number n_ips
                      +++ (" addresses in "
                          +++ (d.of_net subnet
                              +++ (" in " +++ (seconds s.long_window +++ "s"))))))))
        s.long_ban_duration now

  -- The entries of a subnet with a new one, at most as many as the cap.
  unfoldable pub subnet_entries :
      IpNet → IpAddr → ℕ → ℕ → PortScanDetector → List (ℕ × (IpAddr × ℕ))
  subnet_entries subnet ip port now s =
      let old : List (ℕ × (IpAddr × ℕ)) = elim (lookup subnet s.long_subnet_access) [
        | none ↦ []
        | some entries ↦ entries
      ] in
      let kept =
        retain
          (λ (e : ℕ × (IpAddr × ℕ)).
            is_recent s.long_window now e.1.1 && not (e.0 == port && addr_eq.beq e.1.0 ip))
          old in
      let entries = kept ++ ((port, (ip, now)) ∷ []) in
      drain (length entries - (s.long_subnet_threshold * 4 + 64)) entries

  -- What is done with a subnet for which there is room.
  unfoldable pub note_subnet :
      IpNet → IpAddr → ℕ → ℕ → PortScanDetector → PortScanDetector × Option DetectionSignal
  note_subnet subnet ip port now s =
      let entries = subnet_entries subnet ip port now s in
      let n_ports = length (distinct (map (λ (e : ℕ × (IpAddr × ℕ)). e.0) entries)) in
      let n_ips = length (distinct (map (λ (e : ℕ × (IpAddr × ℕ)). e.1.0) entries)) in
      if ltb n_ports s.long_subnet_threshold || ltb n_ips s.long_subnet_min_ips
      then (record s { long_subnet_access = insert subnet entries s.long_subnet_access }, none)
      else (
        record s { long_subnet_access = remove subnet s.long_subnet_access },
        some (subnet_scan subnet n_ports n_ips now s),
      )

  abbrev pub is_ipv4 : IpAddr → Bool
  is_ipv4 (IpAddr.v4 _) = true
  is_ipv4 (IpAddr.v6 _) = false

  unfoldable pub long_subnet_tier :
      IpAddr → ℕ → ℕ → PortScanDetector → PortScanDetector × Option DetectionSignal
  long_subnet_tier ip port now s =
      if s.long_subnet_threshold == 0 || not (is_ipv4 ip)
      then (s, none)
      else elim (subnet_of lib ip s.long_subnet_v4_prefix 0) [
        | none ↦ (s, none)
        | some subnet ↦
            if leb s.max_tracked_ips (length s.long_subnet_access)
              && not (is_some (lookup subnet s.long_subnet_access))
            then (let swept = sweep now s in
                if leb swept.max_tracked_ips (length swept.long_subnet_access)
                then (swept, none)
                else note_subnet subnet ip port now swept)
            else note_subnet subnet ip port now s
      ]

  -- What is done with an address for which there is room.
  unfoldable pub note_long :
      IpNet → ℕ → ℕ → PortScanDetector → PortScanDetector × Option DetectionSignal
  note_long key port now s =
      let ip = addr key in
      let kept =
        retain (λ (e : ℕ × ℕ). is_recent s.long_window now e.1 && not (e.0 == port))
          (entries_of ip s.long_access) in
      let entries = kept ++ ((port, now) ∷ []) in
      let unique = length entries in
      if ltb unique s.long_threshold
      then (record s { long_access = insert ip entries s.long_access }, none)
      else (
        record s { long_access = remove ip s.long_access },
        some (
            scan_signal key "port_scan_slow"
              (d.of_net key
                +++ (":port_scan_slow:" +++ (d.of_number unique +++ ("_ports:" +++ minute now))))
              ("Slow port scan detected: "
                +++ (d.of_number unique
                    +++ (" unique ports in " +++ (seconds s.long_window +++ "s"))))
              s.long_ban_duration now),
      )

  unfoldable pub long_tier :
      IpNet → ℕ → ℕ → PortScanDetector → PortScanDetector × Option DetectionSignal
  long_tier key port now s =
      if s.long_threshold == 0
      then (s, none)
      else (let admitted = admit (λ (t : PortScanDetector). t.long_access) (addr key) now s in
          if admitted.1 then note_long key port now admitted.0 else (admitted.0, none))

  -- `or_else` with the long tier, which runs only without a signal of the subnet.
  unfoldable pub or_long_tier :
      Option DetectionSignal
      → IpNet
      → ℕ
      → ℕ
      → PortScanDetector
      → PortScanDetector × Option DetectionSignal
  or_long_tier (some found) key port now s = (s, some found)
  or_long_tier none key port now s = long_tier key port now s

  -- The short tier, for an address that is admitted.
  unfoldable pub note_short :
      Option DetectionSignal
      → IpNet
      → ℕ
      → ℕ
      → PortScanDetector
      → PortScanDetector × Option DetectionSignal
  note_short subnet_signal key port now s =
      let ip = addr key in
      let kept = retain (λ (e : ℕ × ℕ). not (e.0 == port)) (entries_of ip s.port_access) in
      let entries = kept ++ ((port, now) ∷ []) in
      let unique_ports = length entries in
      if leb s.threshold unique_ports
      then (
        record s {
          port_access = insert ip [] s.port_access;
          long_access = remove ip s.long_access;
        },
        elim subnet_signal [
          | some found ↦ some found
          | none ↦ some (
              scan_signal key "port_scan"
                (d.of_net key +++ (":port_scan:" +++ (d.of_number unique_ports +++ "_ports")))
                ("Port scan detected: "
                  +++ (d.of_number unique_ports
                      +++ (" unique ports in " +++ (seconds s.window +++ "s"))))
                s.ban_duration now)
        ],
      )
      else or_long_tier subnet_signal key port now
          (record s { port_access = insert ip entries s.port_access })

  -- An access to a port.
  unfoldable pub process_port :
      NormalizedEvent → ℕ → PortScanDetector → PortScanDetector × Option DetectionSignal
  process_port event port s =
      let now = event.timestamp in
      let key = source_key lib event.source_ip s.ipv6_prefix in
      let cleaned = cleanup_old_entries (addr key) now (maybe_sweep now s) in
      let subnet = long_subnet_tier event.source_ip port now cleaned in
      let admitted = admit (λ (t : PortScanDetector). t.port_access) (addr key) now subnet.0 in
      if admitted.1
      then note_short subnet.1 key port now admitted.0
      else or_long_tier subnet.1 key port now admitted.0

  unfoldable pub process :
      NormalizedEvent → PortScanDetector → PortScanDetector × Option DetectionSignal
  process event s =
      if is_port_access event.event_type
      then elim (lookup "port" event.metadata >>= parse_u16) [
        | none ↦ (s, none)
        | some port ↦ process_port event port s
      ]
      else (s, none)
