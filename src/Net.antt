-- ===== src/Net.antt =====
-- The address types that the source takes from the standard library and the crate ipnet, and what
-- the source relies on of ipnet's operations.
use hiveguard.Prelude.{
  ℕ, ◌-◌, ◌/◌, ◌*◌, ◌^◌, ◌≤◌, ◌≡◌, ◌↔◌, Bool, true, false, ◌&&◌, ◌==◌, Option, some, arith,
}
use hiveguard.Prelude.Eq.{Eq}

-- `std::net::IpAddr`: the value of the address, below 2 ^ 32 or 2 ^ 128.
pub data IpAddr : Type 0 where
  v4 : ℕ → IpAddr
  v6 : ℕ → IpAddr

-- `ipnet::IpNet`: an address of the family and a prefix length. Host bits may be set.
pub data IpNet : Type 0 where
  v4 : ℕ → ℕ → IpNet
  v6 : ℕ → ℕ → IpNet

unfoldable pub beq : IpNet → IpNet → Bool
beq (IpNet.v4 a p) (IpNet.v4 b q) = a == b && p == q
beq (IpNet.v6 a p) (IpNet.v6 b q) = a == b && p == q
beq _ _ = false

pub beq_iff : (m n : IpNet) → (beq m n ≡ true) ↔ (m ≡ n)
unfolding beq
beq_iff (IpNet.v4 a p) (IpNet.v4 b q) = (λ h. ground arith, λ h. ground arith)
beq_iff (IpNet.v4 a p) (IpNet.v6 b q) = (λ h. ground arith, λ h. ground arith)
beq_iff (IpNet.v6 a p) (IpNet.v4 b q) = (λ h. ground arith, λ h. ground arith)
beq_iff (IpNet.v6 a p) (IpNet.v6 b q) = (λ h. ground arith, λ h. ground arith)

instance unfoldable pub net_eq : Eq IpNet
net_eq = record { beq = beq; beq_iff = beq_iff }

unfoldable pub addr_beq : IpAddr → IpAddr → Bool
addr_beq (IpAddr.v4 a) (IpAddr.v4 b) = a == b
addr_beq (IpAddr.v6 a) (IpAddr.v6 b) = a == b
addr_beq _ _ = false

pub addr_beq_iff : (a b : IpAddr) → (addr_beq a b ≡ true) ↔ (a ≡ b)
unfolding addr_beq
addr_beq_iff (IpAddr.v4 a) (IpAddr.v4 b) = (λ h. ground arith, λ h. ground arith)
addr_beq_iff (IpAddr.v4 a) (IpAddr.v6 b) = (λ h. ground arith, λ h. ground arith)
addr_beq_iff (IpAddr.v6 a) (IpAddr.v4 b) = (λ h. ground arith, λ h. ground arith)
addr_beq_iff (IpAddr.v6 a) (IpAddr.v6 b) = (λ h. ground arith, λ h. ground arith)

instance unfoldable pub addr_eq : Eq IpAddr
addr_eq = record { beq = addr_beq; beq_iff = addr_beq_iff }

unfoldable pub prefix_len : IpNet → ℕ
prefix_len (IpNet.v4 a p) = p
prefix_len (IpNet.v6 a p) = p

unfoldable pub addr : IpNet → IpAddr
addr (IpNet.v4 a p) = IpAddr.v4 a
addr (IpNet.v6 a p) = IpAddr.v6 a

-- The value with its `k` low bits cleared.
abbrev pub clear_low : ℕ → ℕ → ℕ
clear_low k a = a / 2 ^ k * 2 ^ k

-- The address lies in the block: same family, and the same bits above the host bits.
unfoldable pub InNet : IpNet → IpAddr → Type 0
InNet (IpNet.v4 a p) (IpAddr.v4 b) = a / 2 ^ (32 - p) ≡ b / 2 ^ (32 - p)
InNet (IpNet.v6 a p) (IpAddr.v6 b) = a / 2 ^ (128 - p) ≡ b / 2 ^ (128 - p)
InNet _ _ = ⊥

-- The operations of ipnet that the source calls, with their documented behaviour.
pub record NetLib : Type 0 where
  pub contains : IpNet → IpAddr → Bool
  pub new4 : ℕ → ℕ → Option IpNet
  pub new6 : ℕ → ℕ → Option IpNet
  pub trunc : IpNet → IpNet
  pub contains_iff : (n : IpNet) (a : IpAddr) → (contains n a ≡ true) ↔ InNet n a
  pub new4_ok : (a p : ℕ) → p ≤ 32 → new4 a p ≡ some (IpNet.v4 a p)
  pub new6_ok : (a p : ℕ) → p ≤ 128 → new6 a p ≡ some (IpNet.v6 a p)
  pub trunc4 : (a p : ℕ) → trunc (IpNet.v4 a p) ≡ IpNet.v4 (clear_low (32 - p) a) p
  pub trunc6 : (a p : ℕ) → trunc (IpNet.v6 a p) ≡ IpNet.v6 (clear_low (128 - p) a) p
