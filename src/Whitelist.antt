-- ===== src/Whitelist.antt =====
-- hiveguard-core/src/whitelist.rs: the networks that are never banned. The `HashSet` of entries is
-- a map to nothing, as in Rust. The literals of `IMMUTABLE_PROTECTED` stand parsed.
pub mod Overlap
use hiveguard.Prelude.{ℕ, ◌+◌, ◌*◌, ◌^◌, Bool, ◌||◌, ◌&&◌, List, [], ◌∷◌, ◌++◌, map, leb, any}
use hiveguard.Prelude.Map.{HashMap, lookup, insert, remove as delete, is_some}
use hiveguard.Net.{IpNet, IpAddr, NetLib, net_eq, addr, prefix_len}

pub record WhitelistManager : Type 0 where
  pub entries : HashMap IpNet (Unit {0})
  pub immutable : List IpNet

abbrev pub octets : ℕ → ℕ → ℕ → ℕ → ℕ
octets a b c d = a * 2 ^ 24 + b * 2 ^ 16 + c * 2 ^ 8 + d

abbrev pub immutable_protected : List IpNet
immutable_protected =
    IpNet.v4 (octets 127 0 0 0) 8
    ∷ IpNet.v6 1 128
    ∷ IpNet.v4 (octets 10 0 0 0) 8
    ∷ IpNet.v4 (octets 172 16 0 0) 12
    ∷ IpNet.v4 (octets 192 168 0 0) 16
    ∷ IpNet.v4 (octets 169 254 0 0) 16
    ∷ IpNet.v6 (65152 * 2 ^ 112) 10
    ∷ IpNet.v4 (octets 192 0 2 0) 24
    ∷ IpNet.v4 (octets 198 51 100 0) 24
    ∷ IpNet.v4 (octets 203 0 113 0) 24
    ∷ IpNet.v4 (octets 0 0 0 0) 8
    ∷ IpNet.v6 0 128
    ∷ IpNet.v4 (octets 224 0 0 0) 4
    ∷ IpNet.v6 (65280 * 2 ^ 112) 8
    ∷ IpNet.v6 (64512 * 2 ^ 112) 7
    ∷ []

unfoldable pub new : WhitelistManager
new = record { entries = []; immutable = immutable_protected }

unfoldable pub add : IpNet → WhitelistManager → WhitelistManager
add net w = record w { entries = insert net tt w.entries }

-- The new whitelist, and whether the entry was there.
unfoldable pub remove : IpNet → WhitelistManager → WhitelistManager × Bool
remove net w = (record w { entries = delete net w.entries }, is_some (lookup net w.entries))

module _ (lib : NetLib) where
  unfoldable pub is_immutably_protected : IpAddr → WhitelistManager → Bool
  is_immutably_protected ip w = any (λ net. lib.contains net ip) w.immutable

  unfoldable pub is_whitelisted : IpAddr → WhitelistManager → Bool
  is_whitelisted ip w = is_immutably_protected ip w || any (λ e. lib.contains e.0 ip) w.entries

  -- Each block's address against the other block.
  unfoldable pub nets_overlap : IpNet → IpNet → Bool
  nets_overlap a b = lib.contains a (addr b) || lib.contains b (addr a)

  unfoldable pub overlaps : IpNet → WhitelistManager → Bool
  overlaps net w = any (λ n. nets_overlap n net) (w.immutable ++ map (λ e. e.0) w.entries)

  unfoldable pub covers : IpNet → WhitelistManager → Bool
  covers net w =
      any (λ n. lib.contains n (addr net) && leb (prefix_len n) (prefix_len net))
        (w.immutable ++ map (λ e. e.0) w.entries)
