-- ===== src/CtiCache.antt =====
-- hiveguard-cti/src/cache.rs: the cache of threat-intelligence reports. `now_unix()` is an argument;
-- a subtraction that saturates is the one of ℕ. The file is what bincode decodes of it, `none` where
-- it is missing or unreadable.
pub mod Bounds
pub mod Disk
use Prim.Native.String.{String}
use Prim.Native.Nat.{max}
use hiveguard.Prelude.{
  ℕ, zero, suc, ◌+◌, ◌-◌, ◌*◌, ◌/◌, ◌%◌, ◌^◌, Bool, true, false, List, [], ◌∷◌, ◌++◌, map, Option,
  none, some, length, take, filter, leb, ltb, ◌==◌, if◌then◌else◌,
}
use hiveguard.Prelude.Map.{HashMap, lookup, insert as put, remove}
use hiveguard.Net.{IpAddr, addr_eq}

-- `AbuseIpReport` of hiveguard-cti/src/abuseipdb.rs.
pub record AbuseIpReport : Type 0 where
  pub ip_address : IpAddr
  pub confidence_score : ℕ
  pub total_reports : ℕ
  pub last_reported_at : Option ℕ
  pub usage_type : Option String
  pub country_code : Option String
  pub isp : Option String

pub record Entry : Type 0 where
  pub report : AbuseIpReport
  pub fetched_at_unix : ℕ

pub record CtiCache : Type 0 where
  pub entries : HashMap IpAddr Entry
  pub ttl : ℕ
  pub max_entries : ℕ

unfoldable pub with_options : ℕ → ℕ → CtiCache
with_options ttl max_entries = record { entries = []; ttl = ttl; max_entries = max_entries }

-- Six hours, and 100,000 entries.
unfoldable pub new : CtiCache
new = with_options (6 * 3600) 100000

unfoldable pub is_expired : ℕ → ℕ → Entry → Bool
is_expired now ttl e = leb ttl (now - e.fetched_at_unix)

-- The octets of an address of `k` octets, the highest first.
unfoldable pub octets : ℕ → ℕ → List ℕ
octets zero a = []
octets (suc k) a = octets k (a / 256) ++ (a % 256 ∷ [])

unfoldable pub from_octets : ℕ → List ℕ → ℕ
from_octets acc [] = acc
from_octets acc (b ∷ bs) = from_octets (acc * 256 + b) bs

-- `IpAddrBytes::from`, and back.
unfoldable pub ip_addr_bytes : IpAddr → List ℕ
ip_addr_bytes (IpAddr.v4 a) = octets 4 a
ip_addr_bytes (IpAddr.v6 a) = octets 16 a

unfoldable pub try_from_bytes : List ℕ → Option IpAddr
try_from_bytes bs =
    if length bs == 4
    then some (IpAddr.v4 (from_octets 0 bs))
    else if length bs == 16
    then some (IpAddr.v6 (from_octets 0 bs))
    else none

-- The loop of `load_from_disk`.
unfoldable pub load_entries :
    ℕ → ℕ → List (List ℕ × Entry) → HashMap IpAddr Entry → HashMap IpAddr Entry
load_entries now ttl [] m = m
load_entries now ttl ((bytes, e) ∷ es) m =
    let skipped = load_entries now ttl es m in
    if is_expired now ttl e then skipped else elim (try_from_bytes bytes) [
      | none ↦ skipped
      | some ip ↦ load_entries now ttl es (put ip e m)
    ]

unfoldable pub load_from_disk : ℕ → Option (List (List ℕ × Entry)) → CtiCache → CtiCache
load_from_disk now none c = c
load_from_disk now (some es) c = record c { entries = load_entries now c.ttl es c.entries }

-- What is written to the file.
unfoldable pub flush_to_disk : ℕ → CtiCache → List (List ℕ × Entry)
flush_to_disk now c =
    map (λ e. (ip_addr_bytes e.0, e.1))
      (filter (λ e. ltb (now - e.1.fetched_at_unix) c.ttl) c.entries)

unfoldable pub get : ℕ → IpAddr → CtiCache → CtiCache × Option AbuseIpReport
get now ip c = elim (lookup ip c.entries) [
  | none ↦ (c, none)
  | some e ↦
      if is_expired now c.ttl e
      then (record c { entries = remove ip c.entries }, none)
      else (c, some e.report)
]

unfoldable pub live_count : ℕ → CtiCache → ℕ
live_count now c = length (filter (λ e. ltb (now - e.1.fetched_at_unix) c.ttl) c.entries)

-- `sort_unstable_by_key` on the times; entries of the same time may come in any order.
unfoldable pub insert_by_time : IpAddr × ℕ → List (IpAddr × ℕ) → List (IpAddr × ℕ)
insert_by_time k [] = k ∷ []
insert_by_time k (j ∷ js) =
    let rest = insert_by_time k js in if leb k.1 j.1 then k ∷ j ∷ js else j ∷ rest

unfoldable pub sort_by_time : List (IpAddr × ℕ) → List (IpAddr × ℕ)
sort_by_time [] = []
sort_by_time (k ∷ ks) = insert_by_time k (sort_by_time ks)

unfoldable pub remove_all : List (IpAddr × ℕ) → HashMap IpAddr Entry → HashMap IpAddr Entry
remove_all [] m = m
remove_all (k ∷ ks) m = remove_all ks (remove k.0 m)

unfoldable pub evict_oldest : CtiCache → CtiCache
evict_oldest c =
    let target_remove = max (c.max_entries / 10) 1 in
    let keys = map (λ e. (e.0, e.1.fetched_at_unix)) c.entries in
    record c { entries = remove_all (take target_remove (sort_by_time keys)) c.entries }

unfoldable pub insert : ℕ → IpAddr → AbuseIpReport → CtiCache → CtiCache
insert now ip report c =
    let c' = if leb c.max_entries (length c.entries) then evict_oldest c else c in
    record c' { entries = put ip (record { report = report; fetched_at_unix = now }) c'.entries }
