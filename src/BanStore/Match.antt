-- ===== src/BanStore/Match.antt =====
-- `is_banned` against its specification: the longest ban whose block holds the address.
use Prim.Native.Nat.{bit_and}
use hiveguard.Prelude.{
  ℕ, zero, suc, ◌-◌, ◌^◌, ◌≤◌, ◌<◌, ◌≡◌, refl, ap, arith, Option, none, get_or, Option-cases, inl,
  inr,
}
use hiveguard.Prelude.Map.{lookup, count-pos_of_lookup}
use hiveguard.Net.{IpNet, IpAddr, NetLib, net_eq, clear_low}
use hiveguard.Models.{BanRecord}
use hiveguard.BanStore.{InMemoryBanStore, get_cidr, search4, search6, is_banned, or_else, mask}
use hiveguard.BanStore.Mask.{bit_and-mask}
use hiveguard.BanStore.Counts.{is_v4, is_v6}
use hiveguard.BanStore.Invariant.{IsValid}

-- The block of prefix length `p` that holds an address.
abbrev pub block4 : ℕ → ℕ → IpNet
block4 ip p = IpNet.v4 (clear_low (32 - p) ip) p

abbrev pub block6 : ℕ → ℕ → IpNet
block6 ip p = IpNet.v6 (clear_low (128 - p) ip) p

-- Longest-prefix match, with no counts: the first ban among the blocks of prefix length below `k`,
-- longest first.
unfoldable pub match4 : ℕ → ℕ → InMemoryBanStore → Option BanRecord
match4 zero ip s = none
match4 (suc p) ip s = or_else (lookup (block4 ip p) s.bans) (match4 p ip s)

unfoldable pub match6 : ℕ → ℕ → InMemoryBanStore → Option BanRecord
match6 zero ip s = none
match6 (suc p) ip s = or_else (lookup (block6 ip p) s.bans) (match6 p ip s)

unfoldable pub longest_match : IpAddr → InMemoryBanStore → Option BanRecord
longest_match (IpAddr.v4 ip) s = match4 33 ip s
longest_match (IpAddr.v6 ip) s = match6 129 ip s

-- The address fits its family.
abbrev pub IsAddr : IpAddr → Type 0
IsAddr (IpAddr.v4 ip) = ip < 2 ^ 32
IsAddr (IpAddr.v6 ip) = ip < 2 ^ 128

-- A prefix length with a count of 0 has no ban.
pub absent4 :
    (s : InMemoryBanStore) (a p : ℕ)
    → IsValid s
    → get_or s.v4_prefix_counts p 0 ≡ 0
    → lookup (IpNet.v4 a p) s.bans ≡ none
absent4 s a p v h = elim (Option-cases (lookup (IpNet.v4 a p) s.bans)) [
  | inl miss ↦ miss
  | inr (r, hit) ↦ absurd (
      omega (
        arith,
        v.counts4 p,
        count-pos_of_lookup (is_v4 p) (IpNet.v4 a p) s.bans (ground (arith, hit)) (ground arith),
      ))
]

pub absent6 :
    (s : InMemoryBanStore) (a p : ℕ)
    → IsValid s
    → get_or s.v6_prefix_counts p 0 ≡ 0
    → lookup (IpNet.v6 a p) s.bans ≡ none
absent6 s a p v h = elim (Option-cases (lookup (IpNet.v6 a p) s.bans)) [
  | inl miss ↦ miss
  | inr (r, hit) ↦ absurd (
      omega (
        arith,
        v.counts6 p,
        count-pos_of_lookup (is_v6 p) (IpNet.v6 a p) s.bans (ground (arith, hit)) (ground arith),
      ))
]

module _ (lib : NetLib) where
  cidr4 :
      (s : InMemoryBanStore) (ip p : ℕ)
      → ip < 2 ^ 32
      → p ≤ 32
      → get_cidr lib (lib.new4 (bit_and ip (mask 32 p)) p) s.bans ≡ lookup (block4 ip p) s.bans
  unfolding get_cidr
  cidr4 s ip p h k =
      rw (lib.new4_ok (bit_and ip (mask 32 p)) p k, get_cidr)
        (ap (λ a. lookup (IpNet.v4 a p) s.bans) (bit_and-mask 32 p ip k h))

  cidr6 :
      (s : InMemoryBanStore) (ip p : ℕ)
      → ip < 2 ^ 128
      → p ≤ 128
      → get_cidr lib (lib.new6 (bit_and ip (mask 128 p)) p) s.bans ≡ lookup (block6 ip p) s.bans
  unfolding get_cidr
  cidr6 s ip p h k =
      rw (lib.new6_ok (bit_and ip (mask 128 p)) p k, get_cidr)
        (ap (λ a. lookup (IpNet.v6 a p) s.bans) (bit_and-mask 128 p ip k h))

  search4-match4 :
      (k ip : ℕ) (s : InMemoryBanStore)
      → IsValid s
      → ip < 2 ^ 32
      → k ≤ 33
      → search4 lib k ip s ≡ match4 k ip s
  unfolding search4 match4 or_else
  search4-match4 zero ip s v h k = refl
  search4-match4 (suc p) ip s v h k = ground (
    arith,
    search4-match4 p ip s v h (omega arith),
    cidr4 s ip p h (omega arith),
    absent4 s (clear_low (32 - p) ip) p v,
  )

  search6-match6 :
      (k ip : ℕ) (s : InMemoryBanStore)
      → IsValid s
      → ip < 2 ^ 128
      → k ≤ 129
      → search6 lib k ip s ≡ match6 k ip s
  unfolding search6 match6 or_else
  search6-match6 zero ip s v h k = refl
  search6-match6 (suc p) ip s v h k = ground (
    arith,
    search6-match6 p ip s v h (omega arith),
    cidr6 s ip p h (omega arith),
    absent6 s (clear_low (128 - p) ip) p v,
  )

  -- On a valid store the search that skips prefix lengths by their counts and masks the address
  -- with bit operations finds exactly the longest-prefix match, for either family.
  pub is_banned-longest_match :
      (a : IpAddr) (s : InMemoryBanStore)
      → IsValid s
      → IsAddr a
      → is_banned lib a s ≡ longest_match a s
  unfolding is_banned longest_match
  is_banned-longest_match (IpAddr.v4 ip) s v h = search4-match4 33 ip s v h (omega arith)
  is_banned-longest_match (IpAddr.v6 ip) s v h = search6-match6 129 ip s v h (omega arith)
