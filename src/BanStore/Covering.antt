-- ===== src/BanStore/Covering.antt =====
-- What `covering_bans` yields.
use hiveguard.Prelude.{
  ℕ, zero, suc, ◌+◌, ◌-◌, ◌≤◌, ◌<◌, ◌≡◌, ◌↔◌, refl, sym, ap, ◌∙◌, arith, Bool, false, List, [], ◌∷◌,
  Option, none, some, any, get_or, ltb, Option-cases, Bool-cases, inl, inr, any-append,
}
use native.Mathlib.Decide.{dec_lt}
use hiveguard.Prelude.Map.{HashMap, lookup}
use hiveguard.Net.{IpNet, IpAddr, InNet, NetLib, net_eq, addr, prefix_len, clear_low}
use hiveguard.Models.{BanRecord}
use hiveguard.BanStore.{InMemoryBanStore, new_at, cover_at, cover_from, covering_bans}
use hiveguard.BanStore.Invariant.{IsValid}
use hiveguard.BanStore.Match.{block4, block6, absent4, absent6}
use hiveguard.BanStore.Held.{held4, held6, InNet-block4, InNet-block6}

-- The prefix length fits the family.
abbrev pub IsNet : IpNet → Type 0
IsNet (IpNet.v4 a p) = p ≤ 32
IsNet (IpNet.v6 a p) = p ≤ 128

found : Option BanRecord → List BanRecord
found none = []
found (some r) = r ∷ []

any-found :
    (f : BanRecord → Bool) (o : Option BanRecord)
    → ((r : BanRecord) → o ≡ some r → f r ≡ false)
    → any f (found o) ≡ false
unfolding any found
any-found f none h = refl
any-found f (some r) h = ground (arith, h r refl)

found-any :
    (f : BanRecord → Bool) (o : Option BanRecord) (r : BanRecord)
    → any f (found o) ≡ false
    → o ≡ some r
    → f r ≡ false
unfolding any found
found-any f none r h e = absurd (ground (arith, e))
found-any f (some x) r h e = ground (arith, h, ap (λ o. any f (found o)) e)

module _ (lib : NetLib) where
  cover_at4 :
      (a p : ℕ) (s : InMemoryBanStore)
      → IsValid s
      → p ≤ 32
      → cover_at lib (IpAddr.v4 a) s.v4_prefix_counts p s.bans ≡ found (lookup (block4 a p) s.bans)
  unfolding cover_at new_at found
  cover_at4 a p s v h = elim (Bool-cases (ltb 0 (get_or s.v4_prefix_counts p 0))) [
    | inr zero_count ↦
        rw (cover_at, zero_count)
          (sym (ap found (absent4 s (clear_low (32 - p) a) p v (ground (arith, zero_count)))))
    | inl counted ↦
        rw (cover_at, counted)
          (rw (cover_at, lib.new4_ok a p h)
            (rw (lib.trunc4 a p) (elim (Option-cases (lookup (block4 a p) s.bans)) [
              | inl miss ↦ rw miss refl
              | inr (r, hit) ↦ rw hit refl
            ])))
  ]

  cover_at6 :
      (a p : ℕ) (s : InMemoryBanStore)
      → IsValid s
      → p ≤ 128
      → cover_at lib (IpAddr.v6 a) s.v6_prefix_counts p s.bans ≡ found (lookup (block6 a p) s.bans)
  unfolding cover_at new_at found
  cover_at6 a p s v h = elim (Bool-cases (ltb 0 (get_or s.v6_prefix_counts p 0))) [
    | inr zero_count ↦
        rw (cover_at, zero_count)
          (sym (ap found (absent6 s (clear_low (128 - p) a) p v (ground (arith, zero_count)))))
    | inl counted ↦
        rw (cover_at, counted)
          (rw (cover_at, lib.new6_ok a p h)
            (rw (lib.trunc6 a p) (elim (Option-cases (lookup (block6 a p) s.bans)) [
              | inl miss ↦ rw miss refl
              | inr (r, hit) ↦ rw hit refl
            ])))
  ]

  module _ (f : BanRecord → Bool) (a : IpAddr) (counts : List ℕ)
      (bans : HashMap IpNet BanRecord) where
    cover_from_all :
        (k p q : ℕ)
        → any f (cover_from lib k p a counts bans) ≡ false
        → p ≤ q
        → q < p + k
        → any f (cover_at lib a counts q bans) ≡ false
    unfolding cover_from
    cover_from_all zero p q h l m = absurd (omega arith)
    cover_from_all (suc k) p q h l m =
        let parts =
          sym (any-append f (cover_at lib a counts p bans) (cover_from lib k (suc p) a counts bans))
          ∙ h in
        elim (dec_lt p q) [
          | yes later ↦ cover_from_all k (suc p) q (ground (arith, parts)) later (omega arith)
          | no now ↦ let e : q ≡ p = omega arith in rw e (ground (arith, parts))
        ]

    cover_from_none :
        (k p : ℕ)
        → ((q : ℕ) → p ≤ q → q < p + k → any f (cover_at lib a counts q bans) ≡ false)
        → any f (cover_from lib k p a counts bans) ≡ false
    unfolding cover_from any
    cover_from_none zero p h = refl
    cover_from_none (suc k) p h =
        any-append f (cover_at lib a counts p bans) (cover_from lib k (suc p) a counts bans)
        ∙ ground (
          arith,
          h p (omega arith) (omega arith),
          cover_from_none k (suc p) (λ q l m. h q (omega arith) (omega arith)),
        )

  -- The bans that `covering_bans` yields for a network are those stored on networks that contain it:
  -- no yielded ban passes a test exactly if no stored ban does whose network is at most as long and
  -- holds the network's address.
  pub covering_bans_iff :
      (f : BanRecord → Bool) (n : IpNet) (s : InMemoryBanStore)
      → IsValid s
      → IsNet n
      → (any f (covering_bans lib n s) ≡ false) ↔ (
          (m : IpNet) (r : BanRecord)
          → prefix_len m ≤ prefix_len n
          → InNet m (addr n)
          → lookup m s.bans ≡ some r
          → f r ≡ false)
  unfolding covering_bans addr prefix_len
  covering_bans_iff f (IpNet.v4 a p) s v h = (
    λ none_passes m r l k hit.
        let (e, small) = held4 s m a v k hit in
        let at =
          cover_from_all f (IpAddr.v4 a) s.v4_prefix_counts s.bans (suc p) 0 (prefix_len m)
            none_passes (omega arith) (omega arith) in
        found-any f (lookup (block4 a (prefix_len m)) s.bans) r
          (ap (any f) (sym (cover_at4 a (prefix_len m) s v (omega arith))) ∙ at)
          (sym (ap (λ t. lookup t s.bans) e) ∙ hit),
    λ none_stored. cover_from_none f (IpAddr.v4 a) s.v4_prefix_counts s.bans (suc p) 0 (λ q l m.
        ap (any f) (cover_at4 a q s v (omega arith))
        ∙ any-found f (lookup (block4 a q) s.bans)
            (λ r hit. none_stored (block4 a q) r (omega arith) (InNet-block4 a q) hit)),
  )
  covering_bans_iff f (IpNet.v6 a p) s v h = (
    λ none_passes m r l k hit.
        let (e, small) = held6 s m a v k hit in
        let at =
          cover_from_all f (IpAddr.v6 a) s.v6_prefix_counts s.bans (suc p) 0 (prefix_len m)
            none_passes (omega arith) (omega arith) in
        found-any f (lookup (block6 a (prefix_len m)) s.bans) r
          (ap (any f) (sym (cover_at6 a (prefix_len m) s v (omega arith))) ∙ at)
          (sym (ap (λ t. lookup t s.bans) e) ∙ hit),
    λ none_stored. cover_from_none f (IpAddr.v6 a) s.v6_prefix_counts s.bans (suc p) 0 (λ q l m.
        ap (any f) (cover_at6 a q s v (omega arith))
        ∙ any-found f (lookup (block6 a q) s.bans)
            (λ r hit. none_stored (block6 a q) r (omega arith) (InNet-block6 a q) hit)),
  )
