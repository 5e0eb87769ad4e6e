-- ===== src/Tests/CtiCache.antt =====
-- hiveguard-cti/src/cache.rs: a full cache of one entry.
use hiveguard.Prelude.{◌≡◌, refl, arith, [], ◌∷◌, none, some}
use hiveguard.Prelude.Map.{lookup}
use hiveguard.Net.{IpAddr, addr_eq}
use hiveguard.CtiCache.{AbuseIpReport, CtiCache, get, load_from_disk, flush_to_disk, with_options}
use hiveguard.CtiCache.Disk

abbrev report : AbuseIpReport
report = record {
  ip_address = IpAddr.v4 134744072;
  confidence_score = 90;
  total_reports = 3;
  last_reported_at = none;
  usage_type = none;
  country_code = none;
  isp = none;
}

abbrev cache : CtiCache
cache = record {
  entries = (IpAddr.v4 134744072, record { report = report; fetched_at_unix = 100 }) ∷ [];
  ttl = 60;
  max_entries = 1;
}

get-load_from_disk_example :
    (get 130
      (IpAddr.v4 134744072)
      (load_from_disk 130 (some (flush_to_disk 120 cache)) (with_options 60 10))).1
    ≡ (get 130 (IpAddr.v4 134744072) cache).1
unfolding lookup
get-load_from_disk_example =
    Disk.get-load_from_disk 120 130 10 (IpAddr.v4 134744072) cache (omega arith) (refl, tt)
      (omega arith, tt)
