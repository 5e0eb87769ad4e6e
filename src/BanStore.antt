-- ===== src/BanStore.antt =====
-- hiveguard-core/src/ban_store.rs: the in-memory ban store with its counts of prefix lengths.
-- `Utc::now()` is an argument. An index out of an array's range, where the source would panic, reads
-- 0 and writes nothing; the invariant of BanStore/Invariant keeps every index in range.
pub mod Mask
pub mod Counts
pub mod Invariant
pub mod Match
pub mod Held
pub mod Fits
pub mod Spec
pub mod Refine
pub mod Covering
use Prim.Native.Nat.{bit_and}
use hiveguard.Prelude.{
  ℕ, zero, suc, ◌+◌, ◌-◌, ◌*◌, ◌%◌, ◌^◌, Bool, true, false, List, [], ◌∷◌, ◌++◌, Option, none, some,
  map, length, get_or, set, replicate, retain, ltb, leb, ◌==◌, if◌then◌else◌,
}
use hiveguard.Prelude.Map.{HashMap, lookup, insert, remove, is_some}
use hiveguard.Net.{IpNet, IpAddr, NetLib, net_eq, prefix_len, addr}
use hiveguard.Models.{BanRecord}

pub record InMemoryBanStore : Type 0 where
  pub bans : HashMap IpNet BanRecord
  pub v4_prefix_counts : List ℕ
  pub v6_prefix_counts : List ℕ

unfoldable pub new : InMemoryBanStore
new = record { bans = []; v4_prefix_counts = replicate 33 0; v6_prefix_counts = replicate 129 0 }

-- `counts[i] += 1` on a `u32`, in a build without overflow checks.
unfoldable pub inc_at : ℕ → List ℕ → List ℕ
inc_at i counts = set counts i ((get_or counts i 0 + 1) % 2 ^ 32)

-- `counts[i] = counts[i].saturating_sub(1)`
unfoldable pub dec_at : ℕ → List ℕ → List ℕ
dec_at i counts = set counts i (get_or counts i 0 - 1)

unfoldable pub inc_prefix : IpNet → InMemoryBanStore → InMemoryBanStore
inc_prefix (IpNet.v4 a p) s = record s { v4_prefix_counts = inc_at p s.v4_prefix_counts }
inc_prefix (IpNet.v6 a p) s = record s { v6_prefix_counts = inc_at p s.v6_prefix_counts }

unfoldable pub dec_prefix : IpNet → InMemoryBanStore → InMemoryBanStore
dec_prefix (IpNet.v4 a p) s = record s { v4_prefix_counts = dec_at p s.v4_prefix_counts }
dec_prefix (IpNet.v6 a p) s = record s { v6_prefix_counts = dec_at p s.v6_prefix_counts }

-- The loop of `rebuild_prefix_counts` over the keys.
unfoldable pub count_keys : HashMap IpNet BanRecord → InMemoryBanStore → InMemoryBanStore
count_keys [] s = s
count_keys ((n, r) ∷ m) s = count_keys m (inc_prefix n s)

unfoldable pub rebuild_prefix_counts : InMemoryBanStore → InMemoryBanStore
rebuild_prefix_counts s =
    count_keys s.bans
      (record s { v4_prefix_counts = replicate 33 0; v6_prefix_counts = replicate 129 0 })

unfoldable pub add_ban : BanRecord → InMemoryBanStore → InMemoryBanStore
add_ban r s =
    let s' = record s { bans = insert r.subject r s.bans } in
    if is_some (lookup r.subject s.bans) then s' else inc_prefix r.subject s'

-- The new store, and whether a ban was removed.
unfoldable pub remove_ban : IpNet → InMemoryBanStore → InMemoryBanStore × Bool
remove_ban n s =
    if is_some (lookup n s.bans)
    then (dec_prefix n (record s { bans = remove n s.bans }), true)
    else (s, false)

-- `u32::MAX << (32 - prefix_len)`, and 0 for a prefix of length 0.
unfoldable pub mask : ℕ → ℕ → ℕ
mask w p = if p == 0 then 0 else (2 ^ w - 1) * 2 ^ (w - p) % 2 ^ w

-- A hit ends the search, a miss goes on to the shorter prefixes.
unfoldable pub or_else {ℓ} : {A : Type ℓ} → Option A → Option A → Option A
or_else none b = b
or_else (some a) b = some a

module _ (lib : NetLib) where
  unfoldable pub get_cidr : Option IpNet → HashMap IpNet BanRecord → Option BanRecord
  get_cidr none bans = none
  get_cidr (some n) bans = lookup n bans

  -- The loop of `is_banned` for an IPv4 address, over the prefix lengths below `k`, longest first.
  unfoldable pub search4 : ℕ → ℕ → InMemoryBanStore → Option BanRecord
  search4 zero ip s = none
  search4 (suc p) ip s =
      let rest = search4 p ip s in
      if get_or s.v4_prefix_counts p 0 == 0
      then rest
      else or_else (get_cidr (lib.new4 (bit_and ip (mask 32 p)) p) s.bans) rest

  unfoldable pub search6 : ℕ → ℕ → InMemoryBanStore → Option BanRecord
  search6 zero ip s = none
  search6 (suc p) ip s =
      let rest = search6 p ip s in
      if get_or s.v6_prefix_counts p 0 == 0
      then rest
      else or_else (get_cidr (lib.new6 (bit_and ip (mask 128 p)) p) s.bans) rest

  unfoldable pub is_banned : IpAddr → InMemoryBanStore → Option BanRecord
  is_banned (IpAddr.v4 ip) s = search4 33 ip s
  is_banned (IpAddr.v6 ip) s = search6 129 ip s

  unfoldable pub new_at : IpAddr → ℕ → Option IpNet
  new_at (IpAddr.v4 a) p = lib.new4 a p
  new_at (IpAddr.v6 a) p = lib.new6 a p

  -- What the iterator of `covering_bans` yields at the prefix length `p`.
  unfoldable pub cover_at : IpAddr → List ℕ → ℕ → HashMap IpNet BanRecord → List BanRecord
  cover_at a counts p bans =
      if ltb 0 (get_or counts p 0)
      then elim (new_at a p) [
        | none ↦ []
        | some n ↦ elim (lookup (lib.trunc n) bans) [ none ↦ [] | some r ↦ r ∷ [] ]
      ]
      else []

  -- `k` prefix lengths, from `p` on.
  unfoldable pub cover_from : ℕ → ℕ → IpAddr → List ℕ → HashMap IpNet BanRecord → List BanRecord
  cover_from zero p a counts bans = []
  cover_from (suc k) p a counts bans =
      cover_at a counts p bans ++ cover_from k (suc p) a counts bans

  unfoldable pub covering_bans : IpNet → InMemoryBanStore → List BanRecord
  covering_bans (IpNet.v4 a p) s = cover_from (suc p) 0 (IpAddr.v4 a) s.v4_prefix_counts s.bans
  covering_bans (IpNet.v6 a p) s = cover_from (suc p) 0 (IpAddr.v6 a) s.v6_prefix_counts s.bans

unfoldable pub get_all_bans : InMemoryBanStore → List BanRecord
get_all_bans s = map (λ e. e.1) s.bans

-- A ban without an end never expires.
unfoldable pub is_live : ℕ → BanRecord → Bool
is_live now r = elim r.expires_at [ none ↦ true | some exp ↦ ltb now exp ]

-- The new store, and the number of bans removed.
unfoldable pub cleanup_expired : ℕ → InMemoryBanStore → InMemoryBanStore × ℕ
cleanup_expired now s =
    let kept = retain (λ e. is_live now e.1) s.bans in
    let removed = length s.bans - length kept in
    let s' = record s { bans = kept } in
    (if ltb 0 removed then rebuild_prefix_counts s' else s', removed)
