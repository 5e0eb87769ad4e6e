-- ===== src/Tests/Whitelist.antt =====
-- hiveguard-core/src/whitelist.rs at a narrow entry and a wide subject.
use hiveguard.Prelude.{◌≡◌, ◌↔◌, false}
use hiveguard.Net.{IpNet, IpAddr, InNet, net_eq}
use hiveguard.Tests.NetLib.{net_lib}
use hiveguard.Whitelist
use hiveguard.Whitelist.{WhitelistManager, is_whitelisted, overlaps, covers, octets}
use hiveguard.Whitelist.Overlap

abbrev admin : WhitelistManager
admin = Whitelist.add (IpNet.v4 (octets 8 8 8 8) 32) Whitelist.new

overlaps-eq-false_iff_example : (overlaps net_lib (IpNet.v4 (octets 8 8 8 0) 24) admin ≡ false) ↔ (
    (ip : IpAddr)
    → InNet (IpNet.v4 (octets 8 8 8 0) 24) ip
    → is_whitelisted net_lib ip admin ≡ false)
overlaps-eq-false_iff_example =
    Overlap.overlaps-eq-false_iff net_lib (IpNet.v4 (octets 8 8 8 0) 24) admin
