-- ===== src/BanStore/Held.antt =====
-- The blocks that hold an address.
use native.Mathlib.Nat.{mul-div_cancel, one-le-pow}
use hiveguard.Prelude.{ℕ, ◌-◌, ◌*◌, ◌/◌, ◌^◌, ◌<◌, ◌≡◌, sym, ap, ◌∙◌, arith, some}
use hiveguard.Prelude.Map.{lookup, All-lookup}
use hiveguard.Net.{IpNet, IpAddr, InNet, net_eq, clear_low, prefix_len}
use hiveguard.Models.{BanRecord}
use hiveguard.BanStore.{InMemoryBanStore}
use hiveguard.BanStore.Counts.{IsBlock}
use hiveguard.BanStore.Invariant.{IsValid, IsEntry}
use hiveguard.BanStore.Match.{block4, block6}

pub clear_low_holds : (k a : ℕ) → clear_low k a / 2 ^ k ≡ a / 2 ^ k
clear_low_holds k a = mul-div_cancel (a / 2 ^ k) (one-le-pow k 2 (omega arith))

pub InNet-block4 : (ip p : ℕ) → InNet (block4 ip p) (IpAddr.v4 ip)
unfolding InNet
InNet-block4 ip p = clear_low_holds (32 - p) ip

pub InNet-block6 : (ip p : ℕ) → InNet (block6 ip p) (IpAddr.v6 ip)
unfolding InNet
InNet-block6 ip p = clear_low_holds (128 - p) ip

-- A block in normal form that holds an address is the address's block of that length.
block_unique4 :
    (a p ip : ℕ)
    → IsBlock (IpNet.v4 a p)
    → InNet (IpNet.v4 a p) (IpAddr.v4 ip)
    → a ≡ clear_low (32 - p) ip
unfolding InNet
block_unique4 a p ip b h = sym b.2 ∙ ap (λ t. t * 2 ^ (32 - p)) h

block_unique6 :
    (a p ip : ℕ)
    → IsBlock (IpNet.v6 a p)
    → InNet (IpNet.v6 a p) (IpAddr.v6 ip)
    → a ≡ clear_low (128 - p) ip
unfolding InNet
block_unique6 a p ip b h = sym b.2 ∙ ap (λ t. t * 2 ^ (128 - p)) h

-- A ban that holds an address sits at the address's block of the ban's length.
pub held4 :
    (s : InMemoryBanStore) (n : IpNet) (ip : ℕ) {r : BanRecord}
    → IsValid s
    → InNet n (IpAddr.v4 ip)
    → lookup n s.bans ≡ some r
    → (n ≡ block4 ip (prefix_len n)) × (prefix_len n < 33)
unfolding prefix_len InNet
held4 s (IpNet.v4 a p) ip v h e =
    let b = (All-lookup IsEntry (IpNet.v4 a p) s.bans v.entries e).0 in
    (ap (λ t. IpNet.v4 t p) (block_unique4 a p ip b h), omega (arith, b.0))
held4 s (IpNet.v6 a p) ip v h e = absurd h

pub held6 :
    (s : InMemoryBanStore) (n : IpNet) (ip : ℕ) {r : BanRecord}
    → IsValid s
    → InNet n (IpAddr.v6 ip)
    → lookup n s.bans ≡ some r
    → (n ≡ block6 ip (prefix_len n)) × (prefix_len n < 129)
unfolding prefix_len InNet
held6 s (IpNet.v6 a p) ip v h e =
    let b = (All-lookup IsEntry (IpNet.v6 a p) s.bans v.entries e).0 in
    (ap (λ t. IpNet.v6 t p) (block_unique6 a p ip b h), omega (arith, b.0))
held6 s (IpNet.v4 a p) ip v h e = absurd h
