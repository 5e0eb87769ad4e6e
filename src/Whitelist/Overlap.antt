-- ===== src/Whitelist/Overlap.antt =====
-- The whitelist's tests on networks against its test on single addresses.
use native.Mathlib.Nat.{div-div-eq-div-mul}
use hiveguard.Prelude.{
  ℕ, ◌+◌, ◌-◌, ◌*◌, ◌/◌, ◌^◌, ◌≤◌, ◌≡◌, ◌↔◌, refl, sym, ap, ◌∙◌, arith, Bool, true, false, ◌||◌,
  ◌&&◌, List, [], ◌∷◌, ◌++◌, map, leb, any, All, Bool-cases, inl, inr, any-append, any_weaken,
  All-every, All-fail, any_none,
}
use native.Mathlib.Decide.{dec_le}
use hiveguard.Prelude.Map.{HashMap}
use hiveguard.Net.{IpNet, IpAddr, InNet, NetLib, net_eq, addr, prefix_len}
use hiveguard.BanStore.Mask.{pow_split}
use hiveguard.Whitelist.{
  WhitelistManager, is_immutably_protected, is_whitelisted, nets_overlap, overlaps, covers,
}

-- Numbers that agree above `j` bits agree above `k` more.
shorten : (j k x y : ℕ) → j ≤ k → x / 2 ^ j ≡ y / 2 ^ j → x / 2 ^ k ≡ y / 2 ^ k
shorten j k x y h e =
    let split : 2 ^ k ≡ 2 ^ j * 2 ^ (k - j) =
      ap (λ t. 2 ^ t) (let f : k ≡ j + (k - j) = omega arith in f) ∙ pow_split (k - j) j in
    ap (λ t. x / t) split
    ∙ sym (div-div-eq-div-mul x (2 ^ j) (2 ^ (k - j)))
    ∙ ap (λ t. t / 2 ^ (k - j)) e
    ∙ div-div-eq-div-mul y (2 ^ j) (2 ^ (k - j))
    ∙ ap (λ t. y / t) (sym split)

-- Every block holds its own address.
pub InNet-self : (n : IpNet) → InNet n (addr n)
unfolding InNet addr
InNet-self (IpNet.v4 a p) = refl
InNet-self (IpNet.v6 a p) = refl

-- A wider block with an address of a narrower one holds the narrower one's own address, and then
-- all of it.
InNet-wider :
    (m n : IpNet) (ip : IpAddr)
    → prefix_len m ≤ prefix_len n
    → InNet m ip
    → InNet n ip
    → InNet m (addr n)
unfolding InNet addr prefix_len
InNet-wider (IpNet.v4 a p) (IpNet.v4 b q) (IpAddr.v4 ip) l h k =
    h ∙ sym (shorten (32 - q) (32 - p) b ip (omega arith) k)
InNet-wider (IpNet.v6 a p) (IpNet.v6 b q) (IpAddr.v6 ip) l h k =
    h ∙ sym (shorten (128 - q) (128 - p) b ip (omega arith) k)
InNet-wider (IpNet.v4 a p) (IpNet.v4 b q) (IpAddr.v6 ip) l h k = absurd h
InNet-wider (IpNet.v4 a p) (IpNet.v6 b q) (IpAddr.v4 ip) l h k = absurd k
InNet-wider (IpNet.v4 a p) (IpNet.v6 b q) (IpAddr.v6 ip) l h k = absurd h
InNet-wider (IpNet.v6 a p) (IpNet.v4 b q) (IpAddr.v4 ip) l h k = absurd h
InNet-wider (IpNet.v6 a p) (IpNet.v4 b q) (IpAddr.v6 ip) l h k = absurd k
InNet-wider (IpNet.v6 a p) (IpNet.v6 b q) (IpAddr.v4 ip) l h k = absurd h

InNet-trans :
    (m n : IpNet) (ip : IpAddr)
    → prefix_len m ≤ prefix_len n
    → InNet m (addr n)
    → InNet n ip
    → InNet m ip
unfolding InNet addr prefix_len
InNet-trans (IpNet.v4 a p) (IpNet.v4 b q) (IpAddr.v4 ip) l h k =
    h ∙ shorten (32 - q) (32 - p) b ip (omega arith) k
InNet-trans (IpNet.v6 a p) (IpNet.v6 b q) (IpAddr.v6 ip) l h k =
    h ∙ shorten (128 - q) (128 - p) b ip (omega arith) k
InNet-trans (IpNet.v4 a p) (IpNet.v4 b q) (IpAddr.v6 ip) l h k = absurd k
InNet-trans (IpNet.v4 a p) (IpNet.v6 b q) (IpAddr.v4 ip) l h k = absurd h
InNet-trans (IpNet.v4 a p) (IpNet.v6 b q) (IpAddr.v6 ip) l h k = absurd h
InNet-trans (IpNet.v6 a p) (IpNet.v4 b q) (IpAddr.v4 ip) l h k = absurd h
InNet-trans (IpNet.v6 a p) (IpNet.v4 b q) (IpAddr.v6 ip) l h k = absurd h
InNet-trans (IpNet.v6 a p) (IpNet.v6 b q) (IpAddr.v4 ip) l h k = absurd k

module _ (lib : NetLib) where
  -- Two blocks without a common address do not overlap, and the other way round: it is enough to
  -- look at the address of each.
  nets_overlap_apart :
      (m n : IpNet)
      → (nets_overlap lib m n ≡ false) ↔ ((ip : IpAddr) → InNet n ip → lib.contains m ip ≡ false)
  unfolding nets_overlap
  nets_overlap_apart m n = (
    λ h ip k. elim (Bool-cases (lib.contains m ip)) [
      | inl here ↦
          let inside = (lib.contains_iff m ip).0 here in
          elim (dec_le (prefix_len m) (prefix_len n)) [
            | yes wide ↦
                let hit = (lib.contains_iff m (addr n)).1 (InNet-wider m n ip wide inside k) in
                absurd (ground (arith, hit))
            | no narrow ↦
                let hit =
                  (lib.contains_iff n (addr m)).1 (InNet-wider n m ip (omega arith) k inside) in
                absurd (ground (arith, hit))
          ]
      | inr gone ↦ gone
    ],
    λ f. elim (Bool-cases (lib.contains n (addr m))) [
      | inl here ↦
          let no = f (addr m) ((lib.contains_iff n (addr m)).0 here) in
          absurd (ground (arith, (lib.contains_iff m (addr m)).1 (InNet-self m)))
      | inr gone ↦ ground (arith, f (addr n) (InNet-self n))
    ],
  )

  any-map_key :
      (q : IpNet → Bool) (m : HashMap IpNet (Unit {0}))
      → any q (map (λ e. e.0) m) ≡ any (λ e. q e.0) m
  unfolding any
  any-map_key q [] = refl
  any-map_key q (e ∷ m) = ground (arith, any-map_key q m)

  -- All the networks of a whitelist.
  pub nets : WhitelistManager → List IpNet
  nets w = w.immutable ++ map (λ e. e.0) w.entries

  is_whitelisted-nets :
      (ip : IpAddr) (w : WhitelistManager)
      → is_whitelisted lib ip w ≡ any (λ n. lib.contains n ip) (nets w)
  unfolding is_whitelisted is_immutably_protected nets
  is_whitelisted-nets ip w =
      let hit = λ (n : IpNet). lib.contains n ip in
      sym (
        any-append hit w.immutable (map (λ e. e.0) w.entries)
        ∙ ap (λ t. any hit w.immutable || t) (any-map_key hit w.entries))

  -- A network is reported as overlapping the whitelist exactly if one of its addresses is
  -- whitelisted: the report is negative if and only if no address of the network is, whether the
  -- network is wider or narrower than the entries.
  pub overlaps-eq-false_iff :
      (net : IpNet) (w : WhitelistManager)
      → (overlaps lib net w ≡ false)
        ↔ ((ip : IpAddr) → InNet net ip → is_whitelisted lib ip w ≡ false)
  unfolding overlaps nets
  overlaps-eq-false_iff net w = (
    λ h ip k.
        is_whitelisted-nets ip w
        ∙ any_none (λ n. lib.contains n ip) (nets w)
            (apart (nets w) ip k (All-fail (λ n. nets_overlap lib n net) (nets w) h)),
    λ f.
        any_none (λ n. nets_overlap lib n net) (nets w)
          (joint (nets w) (λ ip k.
            All-fail (λ n. lib.contains n ip) (nets w) (sym (is_whitelisted-nets ip w) ∙ f ip k))),
  )
    where
      apart :
          (ns : List IpNet) (ip : IpAddr)
          → InNet net ip
          → All (λ n. nets_overlap lib n net ≡ false) ns
          → All (λ n. lib.contains n ip ≡ false) ns
      apart [] ip k h = tt
      apart (n ∷ ns) ip k h = ((nets_overlap_apart n net).0 h.0 ip k, apart ns ip k h.1)

      joint :
          (ns : List IpNet)
          → ((ip : IpAddr) → InNet net ip → All (λ n. lib.contains n ip ≡ false) ns)
          → All (λ n. nets_overlap lib n net ≡ false) ns
      joint [] f = tt
      joint (n ∷ ns) f =
          ((nets_overlap_apart n net).1 (λ ip k. (f ip k).0), joint ns (λ ip k. (f ip k).1))

  -- If the whitelist covers a network, every address of the network is whitelisted.
  pub covers-is_whitelisted :
      (net : IpNet) (ip : IpAddr) (w : WhitelistManager)
      → covers lib net w ≡ true
      → InNet net ip
      → is_whitelisted lib ip w ≡ true
  unfolding covers nets
  covers-is_whitelisted net ip w h k =
      is_whitelisted-nets ip w
      ∙ any_weaken (λ n. lib.contains n (addr net) && leb (prefix_len n) (prefix_len net))
          (λ n. lib.contains n ip) (nets w)
          (All-every _ (nets w) (λ n c. (lib.contains_iff n ip).1 (
            InNet-trans n net ip (ground arith) ((lib.contains_iff n (addr net)).0 (ground arith))
              k)))
          h
