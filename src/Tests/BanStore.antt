-- ===== src/Tests/BanStore.antt =====
-- hiveguard-core/src/ban_store.rs on concrete bans.
use hiveguard.Prelude.{◌≡◌, ◌↔◌, refl, arith, none, some, List, [], ◌∷◌, retain}
use hiveguard.Prelude.Map.{lookup, insert}
use hiveguard.Net.{IpNet, IpAddr, InNet, net_eq, beq}
use hiveguard.Models.{BanRecord, BanSource}
use hiveguard.BanStore.{
  InMemoryBanStore, new, add_ban, is_banned, cleanup_expired, is_live, inc_prefix, inc_at, search4,
  get_cidr, mask, or_else, rebuild_prefix_counts,
}
use hiveguard.Tests.NetLib.{net_lib}
use hiveguard.BanStore.Invariant.{IsValid}
use hiveguard.BanStore.Spec
use hiveguard.BanStore.Spec.{IsLongest}
use hiveguard.BanStore.Refine
use hiveguard.BanStore.Refine.{Op, run, apply, view, run_view}

-- 10.0.0.0/8 and 10.1.0.0/16.
abbrev wide : BanRecord
wide = record {
  subject = IpNet.v4 167772160 8;
  created_at = 10;
  expires_at = none;
  severity = 5;
  reason = "test ban";
  evidence_hash = [];
  source = BanSource.manual_admin;
  geo_info = none;
}

abbrev narrow : BanRecord
narrow = record wide { subject = IpNet.v4 167837696 16; expires_at = some 100 }

abbrev ops : List Op
ops = Op.add wide ∷ Op.add narrow ∷ Op.cleanup 50 ∷ []

abbrev store : InMemoryBanStore
store = run ops new

run_refines_example : IsValid (run ops new) × (view (run ops new) ≡ run_view ops (λ n. none))
run_refines_example = Refine.run_refines ops (omega arith) (omega arith)

store-IsValid : IsValid store
store-IsValid = (Refine.run_refines ops (omega arith) (omega arith)).0

-- 10.1.2.3
abbrev visitor : IpAddr
visitor = IpAddr.v4 167838211

is_banned-eq-none_iff_example :
    (is_banned net_lib visitor store ≡ none)
    ↔ ((n : IpNet) → InNet n visitor → lookup n store.bans ≡ none)
is_banned-eq-none_iff_example =
    Spec.is_banned-eq-none_iff net_lib visitor store store-IsValid (omega arith)

-- The network of length 16 wins over the one of length 8.
visitor_banned : is_banned net_lib visitor store ≡ some narrow
unfolding run apply new add_ban cleanup_expired is_live retain inc_prefix inc_at insert lookup
    net_eq beq is_banned search4 get_cidr mask or_else rebuild_prefix_counts net_lib
visitor_banned = refl
