-- ===== src/Detectors/PortScan/Bounds.antt =====
-- How much the detector of port scans keeps.
use Prim.Native.Nat.{zero, suc}
use mathlib.Core.Path.{subst}
use hiveguard.Prelude.{
  ℕ, ◌+◌, ◌-◌, ◌*◌, ◌%◌, ◌^◌, ◌≤◌, ◌<◌, ◌≡◌, ◌⊎◌, inl, inr, sym, ap, ◌∙◌, arith, Bool, true, not,
  ◌&&◌, ◌||◌, List, [], ◌∷◌, ◌++◌, map, Option, none, some, length, leb, ltb, ◌==◌, ◌>>=◌, retain,
  is_empty, All, Bool-cases, Option-cases, if_true, if_false, length-retain, count-le-length,
  retain-All,
}
use hiveguard.Prelude.Eq.{Eq, nat_eq, string_eq}
use hiveguard.Prelude.Map.{
  HashMap, lookup, insert, remove, is_some, length-insert, length-remove, insert-All, remove-All,
  All-lookup,
}
use hiveguard.Net.{IpAddr, IpNet, NetLib, addr, addr_eq, net_eq}
use hiveguard.Models.{DetectionSignal, NormalizedEvent}
use hiveguard.Crypto.{Blake3}
use hiveguard.Detectors.{Display, source_key, subnet_of}
use hiveguard.Detectors.PortScan.{
  Access, PortScanDetector, cleanup_old_entries, sweep, maybe_sweep, admit, drain, distinct,
  entries_of, parse_u16, is_port_access, is_recent, any_recent, any_recent_of_subnet,
  subnet_entries, note_subnet, is_ipv4, long_subnet_tier, note_long, long_tier, or_long_tier,
  note_short, process_port, process,
}

-- A map with at most `n` keys, each with at most `k` entries.
module _ {K V : Type 0} ⦃e : Eq K⦄ where
  abbrev pub Within : ℕ → ℕ → HashMap K (List V) → Type 0
  Within n k m = (length m ≤ n) × All (λ (x : K × List V). length x.1 ≤ k) m

  insert-Within :
      (n k : ℕ) (key : K) (v : List V) (m : HashMap K (List V))
      → (is_some (lookup key m) ≡ true) ⊎ (length m < n)
      → length v ≤ k
      → Within n k m
      → Within n k (insert key v m)
  insert-Within n k key v m room few w = (
    ground (arith, length-insert key v m, room, w.0),
    insert-All (λ (x : K × List V). length x.1 ≤ k) key v m few w.1,
  )

  remove-Within :
      (n k : ℕ) (key : K) (m : HashMap K (List V)) → Within n k m → Within n k (remove key m)
  remove-Within n k key m w = (
    ground (arith, length-remove key m, w.0),
    remove-All (λ (x : K × List V). length x.1 ≤ k) key m w.1,
  )

  retain-Within :
      (n k : ℕ) (p : K × List V → Bool) (m : HashMap K (List V))
      → Within n k m
      → Within n k (retain p m)
  retain-Within n k p m w = (
    omega (arith, length-retain p m, count-le-length p m, w.0),
    retain-All (λ (x : K × List V). length x.1 ≤ k) p m w.1,
  )

abbrev pub cap : PortScanDetector → ℕ
cap s = s.long_subnet_threshold * 4 + 64

-- Each tier tracks at most so many sources, with at most a threshold's number of entries for each.
pub record IsBounded (s : PortScanDetector) : Type 0 where
  pub short : Within s.max_tracked_ips s.threshold s.port_access
  pub long : Within s.max_tracked_ips s.long_threshold s.long_access
  pub subnets : Within s.max_tracked_ips (cap s) s.long_subnet_access

sweep-IsBounded : (now : ℕ) (s : PortScanDetector) → IsBounded s → IsBounded (sweep now s)
unfolding sweep
sweep-IsBounded now s h = record {
  short =
      retain-Within s.max_tracked_ips s.threshold (any_recent s.window now) s.port_access h.short;
  long =
      retain-Within s.max_tracked_ips s.long_threshold (any_recent s.long_window now) s.long_access
        h.long;
  subnets =
      retain-Within s.max_tracked_ips (cap s) (any_recent_of_subnet s.long_window now)
        s.long_subnet_access h.subnets;
}

maybe_sweep-IsBounded :
    (now : ℕ) (s : PortScanDetector) → IsBounded s → IsBounded (maybe_sweep now s)
unfolding maybe_sweep
maybe_sweep-IsBounded now s h =
    let counted = record s { events = (s.events + 1) % 2 ^ 64 } in
    let h' : IsBounded counted = record { short = h.short; long = h.long; subnets = h.subnets } in
    elim (Bool-cases (s.events % 4096 == 4095)) [
      | inl due ↦ subst IsBounded (sym (if_true _ _ counted due)) (sweep-IsBounded now counted h')
      | inr later ↦ subst IsBounded (sym (if_false _ (sweep now counted) _ later)) h'
    ]

cleanup-IsBounded :
    (ip : IpAddr) (now : ℕ) (s : PortScanDetector)
    → IsBounded s
    → IsBounded (cleanup_old_entries ip now s)
unfolding cleanup_old_entries
cleanup-IsBounded ip now s h = elim (Option-cases (lookup ip s.port_access)) [
  | inl absent ↦ rw (cleanup_old_entries, absent) h
  | inr (entries, there) ↦
      let keep = λ (e : ℕ × ℕ). is_recent s.window now e.1 in
      let kept = retain keep entries in
      let few : length kept ≤ s.threshold = omega (
        arith,
        All-lookup (λ (x : IpAddr × List (ℕ × ℕ)). length x.1 ≤ s.threshold) ip s.port_access
            h.short.1 there,
        length-retain keep entries,
        count-le-length keep entries,
      ) in
      elim (Bool-cases (is_empty kept)) [
        | inl gone ↦
            rw (cleanup_old_entries, there, gone)
              (record {
                short = remove-Within s.max_tracked_ips s.threshold ip s.port_access h.short;
                long = h.long;
                subnets = h.subnets;
              })
        | inr left ↦
            rw (cleanup_old_entries, there, left)
              (record {
                short =
                    insert-Within s.max_tracked_ips s.threshold ip kept s.port_access
                      (inl (ap is_some there)) few h.short;
                long = h.long;
                subnets = h.subnets;
              })
      ]
]

-- A source for which there is room.
abbrev HasRoom : IpAddr → ℕ → Access → Type 0
HasRoom ip n m = (is_some (lookup ip m) ≡ true) ⊎ (length m < n)

admit-IsBounded :
    (which : PortScanDetector → Access) (ip : IpAddr) (now : ℕ) (s : PortScanDetector)
    → IsBounded s
    → IsBounded (admit which ip now s).0
      × ((admit which ip now s).1 ≡ true
          → HasRoom ip (admit which ip now s).0.max_tracked_ips (which (admit which ip now s).0))
unfolding admit
admit-IsBounded which ip now s h =
    let swept = sweep now s in
    let there = ltb (length (which s)) s.max_tracked_ips || is_some (lookup ip (which s)) in
    let P = λ (r : PortScanDetector × Bool).
      IsBounded r.0 × (r.1 ≡ true → HasRoom ip r.0.max_tracked_ips (which r.0)) in
    elim (Bool-cases there) [
      | inl yes1 ↦ subst P (sym (if_true there _ _ yes1)) (h, λ q. ground (arith, yes1))
      | inr no1 ↦
          subst P (sym (if_false there _ _ no1))
            (sweep-IsBounded now s h, λ q. inr (ground (arith, q)))
    ]

length-drain : {A : Type 0} (k : ℕ) (xs : List A) → length (drain k xs) ≡ length xs - k
unfolding drain
length-drain k [] = omega arith
length-drain zero (x ∷ xs) = omega arith
length-drain (suc k) (x ∷ xs) = length-drain k xs ∙ omega arith

entries_of-few :
    (ip : IpAddr) (k : ℕ) (m : Access)
    → All (λ (x : IpAddr × List (ℕ × ℕ)). length x.1 ≤ k) m
    → length (entries_of ip m) ≤ k
unfolding entries_of
entries_of-few ip k m h = elim (Option-cases (lookup ip m)) [
  | inl absent ↦ rw (entries_of, absent) (omega arith)
  | inr (v, there) ↦
      rw (entries_of, there)
        (All-lookup (λ (x : IpAddr × List (ℕ × ℕ)). length x.1 ≤ k) ip m h there)
]

-- What a tier leaves.
pub record BoundedAfter (r : PortScanDetector × Option DetectionSignal) : Type 0 where
  pub small : IsBounded r.0

after : {s : PortScanDetector} {o : Option DetectionSignal} → IsBounded s → BoundedAfter (s, o)
after h = record { small = h }

module _ (lib : NetLib) (blake3 : Blake3) (d : Display) where
  note_subnet-IsBounded :
      (subnet : IpNet) (ip : IpAddr) (port now : ℕ) (s : PortScanDetector)
      → (is_some (lookup subnet s.long_subnet_access) ≡ true)
        ⊎ (length s.long_subnet_access < s.max_tracked_ips)
      → IsBounded s
      → BoundedAfter (note_subnet lib blake3 d subnet ip port now s)
  unfolding note_subnet subnet_entries
  note_subnet-IsBounded subnet ip port now s room h =
      let entries = subnet_entries lib blake3 d subnet ip port now s in
      let few : length entries ≤ cap s = omega (arith, length-drain) in
      let n_ports = length (distinct (map (λ (e : ℕ × (IpAddr × ℕ)). e.0) entries)) in
      let n_ips = length (distinct (map (λ (e : ℕ × (IpAddr × ℕ)). e.1.0) entries)) in
      elim (Bool-cases (ltb n_ports s.long_subnet_threshold || ltb n_ips s.long_subnet_min_ips)) [
        | inl few_yet ↦
            rw (note_subnet, few_yet)
              (after (record {
                short = h.short;
                long = h.long;
                subnets =
                    insert-Within s.max_tracked_ips (cap s) subnet entries s.long_subnet_access room
                      few h.subnets;
              }))
        | inr enough ↦
            rw (note_subnet, enough)
              (after (record {
                short = h.short;
                long = h.long;
                subnets =
                    remove-Within s.max_tracked_ips (cap s) subnet s.long_subnet_access h.subnets;
              }))
      ]

  long_subnet_tier-IsBounded :
      (ip : IpAddr) (port now : ℕ) (s : PortScanDetector)
      → IsBounded s
      → BoundedAfter (long_subnet_tier lib blake3 d ip port now s)
  unfolding long_subnet_tier
  long_subnet_tier-IsBounded ip port now s h =
      let swept = sweep now s in
      elim (Bool-cases (s.long_subnet_threshold == 0 || not (is_ipv4 lib blake3 d ip))) [
        | inl off ↦ rw (long_subnet_tier, off) (after h)
        | inr on ↦ elim (Option-cases (subnet_of lib ip s.long_subnet_v4_prefix 0)) [
          | inl none_of ↦ rw (long_subnet_tier, on, none_of) (after h)
          | inr (subnet, there) ↦
              elim (Bool-cases (
                leb s.max_tracked_ips (length s.long_subnet_access)
                && not (is_some (lookup subnet s.long_subnet_access)))) [
                  | inl full ↦
                      elim (Bool-cases
                        (leb swept.max_tracked_ips (length swept.long_subnet_access))) [
                          | inl still ↦
                              rw (long_subnet_tier, on, there, full, still)
                                (after (sweep-IsBounded now s h))
                          | inr freed ↦
                              rw (long_subnet_tier, on, there, full, freed)
                                (note_subnet-IsBounded subnet ip port now swept
                                  (inr (ground (arith, freed))) (sweep-IsBounded now s h))
                        ]
                  | inr free ↦
                      rw (long_subnet_tier, on, there, free)
                        (note_subnet-IsBounded subnet ip port now s (ground (arith, free)) h)
                ]
        ]
      ]

  note_long-IsBounded :
      (key : IpNet) (port now : ℕ) (s : PortScanDetector)
      → HasRoom (addr key) s.max_tracked_ips s.long_access
      → IsBounded s
      → BoundedAfter (note_long lib blake3 d key port now s)
  unfolding note_long
  note_long-IsBounded key port now s room h =
      let kept =
        retain (λ (e : ℕ × ℕ). is_recent s.long_window now e.1 && not (e.0 == port))
          (entries_of (addr key) s.long_access) in
      let entries = kept ++ ((port, now) ∷ []) in
      elim (Bool-cases (ltb (length entries) s.long_threshold)) [
        | inl few ↦
            rw (note_long, few)
              (after (record {
                short = h.short;
                long =
                    insert-Within s.max_tracked_ips s.long_threshold (addr key) entries
                      s.long_access room (ground (arith, few)) h.long;
                subnets = h.subnets;
              }))
        | inr many ↦
            rw (note_long, many)
              (after (record {
                short = h.short;
                long =
                    remove-Within s.max_tracked_ips s.long_threshold (addr key) s.long_access
                      h.long;
                subnets = h.subnets;
              }))
      ]

  long_tier-IsBounded :
      (key : IpNet) (port now : ℕ) (s : PortScanDetector)
      → IsBounded s
      → BoundedAfter (long_tier lib blake3 d key port now s)
  unfolding long_tier
  long_tier-IsBounded key port now s h =
      let which = λ (t : PortScanDetector). t.long_access in
      let a = admit-IsBounded which (addr key) now s h in
      elim (Bool-cases (s.long_threshold == 0)) [
        | inl off ↦ rw (long_tier, off) (after h)
        | inr on ↦ elim (Bool-cases (admit which (addr key) now s).1) [
          | inl room ↦
              rw (long_tier, on, room)
                (note_long-IsBounded key port now (admit which (addr key) now s).0 (a.1 room) a.0)
          | inr full ↦ rw (long_tier, on, full) (after a.0)
        ]
      ]

  or_long_tier-IsBounded :
      (o : Option DetectionSignal) (key : IpNet) (port now : ℕ) (s : PortScanDetector)
      → IsBounded s
      → BoundedAfter (or_long_tier lib blake3 d o key port now s)
  unfolding or_long_tier
  or_long_tier-IsBounded none key port now s h = long_tier-IsBounded key port now s h
  or_long_tier-IsBounded (some found) key port now s h = after h

  note_short-IsBounded :
      (o : Option DetectionSignal) (key : IpNet) (port now : ℕ) (s : PortScanDetector)
      → HasRoom (addr key) s.max_tracked_ips s.port_access
      → IsBounded s
      → BoundedAfter (note_short lib blake3 d o key port now s)
  unfolding note_short
  note_short-IsBounded o key port now s room h =
      let kept = retain (λ (e : ℕ × ℕ). not (e.0 == port)) (entries_of (addr key) s.port_access) in
      let entries = kept ++ ((port, now) ∷ []) in
      elim (Bool-cases (leb s.threshold (length entries))) [
        | inl many ↦
            rw (note_short, many)
              (after (record {
                short =
                    insert-Within s.max_tracked_ips s.threshold (addr key) [] s.port_access room
                      (omega arith) h.short;
                long =
                    remove-Within s.max_tracked_ips s.long_threshold (addr key) s.long_access
                      h.long;
                subnets = h.subnets;
              }))
        | inr few ↦
            rw (note_short, few)
              (or_long_tier-IsBounded o key port now
                (record s { port_access = insert (addr key) entries s.port_access })
                (record {
                  short =
                      insert-Within s.max_tracked_ips s.threshold (addr key) entries s.port_access
                        room (ground (arith, few)) h.short;
                  long = h.long;
                  subnets = h.subnets;
                }))
      ]

  process_port-IsBounded :
      (event : NormalizedEvent) (port : ℕ) (s : PortScanDetector)
      → IsBounded s
      → BoundedAfter (process_port lib blake3 d event port s)
  unfolding process_port
  process_port-IsBounded event port s h =
      let now = event.timestamp in
      let key = source_key lib event.source_ip s.ipv6_prefix in
      let cleaned = cleanup_old_entries (addr key) now (maybe_sweep now s) in
      let c =
        cleanup-IsBounded (addr key) now (maybe_sweep now s) (maybe_sweep-IsBounded now s h) in
      let subnet = long_subnet_tier lib blake3 d event.source_ip port now cleaned in
      let t = long_subnet_tier-IsBounded event.source_ip port now cleaned c in
      let which = λ (t : PortScanDetector). t.port_access in
      let a = admit-IsBounded which (addr key) now subnet.0 t.small in
      elim (Bool-cases (admit which (addr key) now subnet.0).1) [
        | inl room ↦
            rw (process_port, room)
              (note_short-IsBounded subnet.1 key port now (admit which (addr key) now subnet.0).0
                (a.1 room) a.0)
        | inr full ↦
            rw (process_port, full)
              (or_long_tier-IsBounded subnet.1 key port now (admit which (addr key) now subnet.0).0
                a.0)
      ]

  process-IsBounded :
      (event : NormalizedEvent) (s : PortScanDetector)
      → IsBounded s
      → BoundedAfter (process lib blake3 d event s)
  unfolding process
  process-IsBounded event s h = elim (Bool-cases (is_port_access event.event_type)) [
    | inl scan ↦ elim (Option-cases (lookup "port" event.metadata >>= parse_u16)) [
      | inl garbled ↦ rw (process, scan, garbled) (after h)
      | inr (port, good) ↦ rw (process, scan, good) (process_port-IsBounded event port s h)
    ]
    | inr other ↦ rw (process, other) (after h)
  ]

  -- A detector with any settings that starts empty, and the events, the latest first.
  unfoldable pub run : List NormalizedEvent → PortScanDetector → PortScanDetector
  run [] s = record s { port_access = []; long_access = []; long_subnet_access = [] }
  run (event ∷ events) s = (process lib blake3 d event (run events s)).0

  -- Whatever events come, in whatever order, and whatever the settings: a detector that starts empty
  -- never tracks more sources than it is allowed to in any of its tiers, nor more ports of one
  -- source than the threshold of the tier (of one subnet, than four times the threshold and 64).
  pub run-IsBounded :
      (events : List NormalizedEvent) (s : PortScanDetector) → IsBounded (run events s)
  unfolding run
  run-IsBounded [] s = record {
    short = (omega arith, tt);
    long = (omega arith, tt);
    subnets = (omega arith, tt);
  }
  run-IsBounded (event ∷ events) s =
      (process-IsBounded event (run events s) (run-IsBounded events s)).small
