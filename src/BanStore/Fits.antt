-- ===== src/BanStore/Fits.antt =====
-- Networks brought to normal form, as the state manager stores them.
use mathlib.Core.Path.{subst}
use native.Mathlib.Nat.{div-mul-le_self}
use hiveguard.Prelude.{ℕ, ◌-◌, ◌*◌, ◌^◌, ◌≤◌, ◌<◌, ◌≡◌, refl, sym, ap, arith}
use hiveguard.Net.{IpNet, IpAddr, InNet, NetLib, net_eq, addr, prefix_len, clear_low}
use hiveguard.BanStore.Held.{clear_low_holds, InNet-block4, InNet-block6}
use hiveguard.BanStore.Counts.{IsBlock}
use hiveguard.BanStore.Covering.{IsNet}

-- The address and the prefix length fit the family; host bits may be set.
abbrev pub Fits : IpNet → Type 0
Fits (IpNet.v4 a p) = (p ≤ 32) × (a < 2 ^ 32)
Fits (IpNet.v6 a p) = (p ≤ 128) × (a < 2 ^ 128)

clear_low_le : (k a : ℕ) → clear_low k a ≤ a
clear_low_le k a = div-mul-le_self a (2 ^ k)

clear_low_idem : (k a : ℕ) → clear_low k (clear_low k a) ≡ clear_low k a
clear_low_idem k a = ap (λ t. t * 2 ^ k) (clear_low_holds k a)

module _ (lib : NetLib) where
  -- A network in normal form is a block, and holds the address that it comes from.
  pub trunc-IsBlock : (n : IpNet) → Fits n → IsBlock (lib.trunc n)
  trunc-IsBlock (IpNet.v4 a p) h =
      subst IsBlock (sym (lib.trunc4 a p))
        (h.0, omega (arith, clear_low_le (32 - p) a, h.1), clear_low_idem (32 - p) a)
  trunc-IsBlock (IpNet.v6 a p) h =
      subst IsBlock (sym (lib.trunc6 a p))
        (h.0, omega (arith, clear_low_le (128 - p) a, h.1), clear_low_idem (128 - p) a)

  pub trunc-InNet :
      (n : IpNet) → (prefix_len (lib.trunc n) ≡ prefix_len n) × InNet (lib.trunc n) (addr n)
  unfolding prefix_len addr
  trunc-InNet (IpNet.v4 a p) =
      subst (λ m. (prefix_len m ≡ p) × InNet m (IpAddr.v4 a)) (sym (lib.trunc4 a p))
        (refl, InNet-block4 a p)
  trunc-InNet (IpNet.v6 a p) =
      subst (λ m. (prefix_len m ≡ p) × InNet m (IpAddr.v6 a)) (sym (lib.trunc6 a p))
        (refl, InNet-block6 a p)

  pub Fits-IsNet : (n : IpNet) → Fits n → IsNet n
  Fits-IsNet (IpNet.v4 a p) h = h.0
  Fits-IsNet (IpNet.v6 a p) h = h.0
