-- ===== src/Tests/NetLib.antt =====
-- An implementation of what the source uses of ipnet, for the runs of the other tests.
use hiveguard.Prelude.{◌/◌, ◌-◌, ◌^◌, ◌≡◌, ◌↔◌, refl, arith, Bool, true, false, some, ◌==◌, ==_iff}
use hiveguard.Net.{IpNet, IpAddr, InNet, NetLib, clear_low}

unfoldable pub contains : IpNet → IpAddr → Bool
contains (IpNet.v4 a p) (IpAddr.v4 b) = a / 2 ^ (32 - p) == b / 2 ^ (32 - p)
contains (IpNet.v6 a p) (IpAddr.v6 b) = a / 2 ^ (128 - p) == b / 2 ^ (128 - p)
contains _ _ = false

pub contains_iff : (n : IpNet) (a : IpAddr) → (contains n a ≡ true) ↔ InNet n a
unfolding contains InNet
contains_iff (IpNet.v4 a p) (IpAddr.v4 b) = ==_iff (a / 2 ^ (32 - p)) (b / 2 ^ (32 - p))
contains_iff (IpNet.v6 a p) (IpAddr.v6 b) = ==_iff (a / 2 ^ (128 - p)) (b / 2 ^ (128 - p))
contains_iff (IpNet.v4 a p) (IpAddr.v6 b) = (λ h. ground arith, λ h. absurd h)
contains_iff (IpNet.v6 a p) (IpAddr.v4 b) = (λ h. ground arith, λ h. absurd h)

unfoldable pub trunc : IpNet → IpNet
trunc (IpNet.v4 a p) = IpNet.v4 (clear_low (32 - p) a) p
trunc (IpNet.v6 a p) = IpNet.v6 (clear_low (128 - p) a) p

unfoldable pub net_lib : NetLib
unfolding contains trunc
net_lib = record {
  contains = contains;
  new4 = λ a p. some (IpNet.v4 a p);
  new6 = λ a p. some (IpNet.v6 a p);
  trunc = trunc;
  contains_iff = contains_iff;
  new4_ok = λ a p h. refl;
  new6_ok = λ a p h. refl;
  trunc4 = λ a p. refl;
  trunc6 = λ a p. refl;
}
