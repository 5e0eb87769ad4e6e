-- ===== src/CtiCache/Disk.antt =====
-- The file of the cache, written and loaded again.
use native.Mathlib.Nat.{pow-suc}
use hiveguard.Prelude.{
  ℕ, zero, suc, ◌+◌, ◌-◌, ◌*◌, ◌/◌, ◌%◌, ◌^◌, ◌≤◌, ◌<◌, ◌≡◌, refl, sym, ap, ◌∙◌, arith, List, [],
  ◌∷◌, ◌++◌, map, Option, none, some, All, length, filter, leb, ltb, Bool-cases, inl, inr,
  if◌then◌else◌, length-append,
}
use hiveguard.Prelude.Map.{HashMap, Distinct, lookup, insert as put, lookup-insert}
use hiveguard.Net.{IpAddr, addr_eq}
use hiveguard.BanStore.Match.{IsAddr}
use hiveguard.CtiCache.Bounds.{answer, get_lem}
use hiveguard.CtiCache.{
  CtiCache, Entry, is_expired, octets, from_octets, ip_addr_bytes, try_from_bytes, load_entries,
  load_from_disk, flush_to_disk, get, with_options,
}

from_octets-append :
    (acc b : ℕ) (bs : List ℕ) → from_octets acc (bs ++ (b ∷ [])) ≡ from_octets acc bs * 256 + b
unfolding from_octets
from_octets-append acc b [] = refl
from_octets-append acc b (c ∷ bs) = from_octets-append (acc * 256 + c) b bs

length-octets : (k a : ℕ) → length (octets k a) ≡ k
unfolding octets
length-octets zero a = refl
length-octets (suc k) a =
    omega (arith, length-append (octets k (a / 256)) (a % 256 ∷ []), length-octets k (a / 256))

from_octets-octets : (k a : ℕ) → a < 256 ^ k → from_octets 0 (octets k a) ≡ a
unfolding octets from_octets
from_octets-octets zero a h = omega arith
from_octets-octets (suc k) a h = omega (
  arith,
  from_octets-append 0 (a % 256) (octets k (a / 256)),
  from_octets-octets k (a / 256) (omega (arith, pow-suc 256 k)),
)

try_from_bytes-ip_addr_bytes :
    (ip : IpAddr) → IsAddr ip → try_from_bytes (ip_addr_bytes ip) ≡ some ip
unfolding try_from_bytes ip_addr_bytes
try_from_bytes-ip_addr_bytes (IpAddr.v4 a) h =
    rw (length-octets 4 a) (ap (λ x. some (IpAddr.v4 x)) (from_octets-octets 4 a (omega arith)))
try_from_bytes-ip_addr_bytes (IpAddr.v6 a) h =
    rw (length-octets 16 a) (ap (λ x. some (IpAddr.v6 x)) (from_octets-octets 16 a (omega arith)))

-- What is written of a list of entries.
written : ℕ → ℕ → HashMap IpAddr Entry → List (List ℕ × Entry)
written now ttl m =
    map (λ e. (ip_addr_bytes e.0, e.1)) (filter (λ e. ltb (now - e.1.fetched_at_unix) ttl) m)

-- An entry that has not expired.
fresh : ℕ → ℕ → Option Entry → Option Entry → Option Entry
fresh now ttl none other = other
fresh now ttl (some e) other = if is_expired now ttl e then other else some e

-- One entry, written and read again.
load_one :
    (now later ttl : ℕ) (j : IpAddr) (e : Entry) (src m : HashMap IpAddr Entry)
    → now ≤ later
    → IsAddr j
    → load_entries later ttl (written now ttl ((j, e) ∷ src)) m ≡ (
        if is_expired later ttl e
        then load_entries later ttl (written now ttl src) m
        else load_entries later ttl (written now ttl src) (put j e m))
unfolding written load_entries is_expired
load_one now later ttl j e src m l a = elim (Bool-cases (ltb (now - e.fetched_at_unix) ttl)) [
  | inr old ↦ ground (arith, old)
  | inl young ↦ elim (Bool-cases (leb ttl (later - e.fetched_at_unix))) [
    | inl expired ↦ ground (arith, young, expired)
    | inr live ↦ ground (arith, young, live, try_from_bytes-ip_addr_bytes j a)
  ]
]

lookup-load_entries :
    (now later ttl : ℕ) (ip : IpAddr) (src m : HashMap IpAddr Entry)
    → now ≤ later
    → Distinct src
    → All (λ e. IsAddr e.0) src
    → lookup ip (load_entries later ttl (written now ttl src) m)
      ≡ fresh later ttl (lookup ip src) (lookup ip m)
unfolding written load_entries fresh lookup
lookup-load_entries now later ttl ip [] m l d a = refl
lookup-load_entries now later ttl ip ((j, e) ∷ src) m l d a =
    let one = ap (lookup ip) (load_one now later ttl j e src m l a.0) in
    ground (
      arith,
      one,
      lookup-load_entries now later ttl ip src m l d.1 a.1,
      lookup-load_entries now later ttl ip src (put j e m) l d.1 a.1,
      lookup-insert j ip e m,
      addr_eq.beq_iff j ip,
      d.0,
    )

answer-fresh :
    (now ttl : ℕ) (o : Option Entry) → answer now ttl (fresh now ttl o none) ≡ answer now ttl o
unfolding answer fresh is_expired
answer-fresh now ttl none = refl
answer-fresh now ttl (some e) = ground arith

-- A cache that is written, and loaded at a later time into an empty one of the same time to live,
-- answers for every address as the cache itself would at that time.
pub get-load_from_disk :
    (now later capacity : ℕ) (ip : IpAddr) (c : CtiCache)
    → now ≤ later
    → Distinct c.entries
    → All (λ e. IsAddr e.0) c.entries
    → (get later ip
        (load_from_disk later (some (flush_to_disk now c)) (with_options c.ttl capacity))).1
      ≡ (get later ip c).1
unfolding load_from_disk flush_to_disk written with_options lookup
get-load_from_disk now later capacity ip c l d a =
    get_lem later ip
      (load_from_disk later (some (flush_to_disk now c)) (with_options c.ttl capacity))
    ∙ ap (answer later c.ttl) (lookup-load_entries now later c.ttl ip c.entries [] l d a)
    ∙ answer-fresh later c.ttl (lookup ip c.entries)
    ∙ sym (get_lem later ip c)
