-- ===== src/BanStore/Spec.antt =====
-- What `is_banned` means for the bans in force on an address.
use hiveguard.Prelude.{
  ℕ, zero, suc, ◌≤◌, ◌<◌, ◌≡◌, ◌↔◌, refl, sym, ap, ◌∙◌, arith, Option, none, some, Option-cases,
  inl, inr,
}
use native.Mathlib.Decide.{dec_lt}
use mathlib.Core.Path.{subst}
use hiveguard.Prelude.Map.{lookup, All-lookup}
use hiveguard.Net.{IpNet, IpAddr, InNet, NetLib, net_eq, prefix_len}
use hiveguard.Models.{BanRecord}
use hiveguard.BanStore.{InMemoryBanStore, is_banned, or_else}
use hiveguard.BanStore.Invariant.{IsValid, IsEntry}
use hiveguard.BanStore.Held.{held4, held6, InNet-block4, InNet-block6}
use hiveguard.BanStore.Match.{
  block4, block6, match4, match6, longest_match, IsAddr, is_banned-longest_match,
}

-- The hit of a search for the longest prefix below `k`, over the bans at each length.
record Longest (at : ℕ → Option BanRecord) (k : ℕ) (r : BanRecord) : Type 0 where
  len : ℕ
  below : len < k
  hit : at len ≡ some r
  longer : (q : ℕ) → len < q → q < k → at q ≡ none

-- Both searches are this one.
first_below : (ℕ → Option BanRecord) → ℕ → Option BanRecord
first_below at zero = none
first_below at (suc p) = or_else (at p) (first_below at p)

first_below-none :
    (at : ℕ → Option BanRecord) (k : ℕ) → first_below at k ≡ none → (q : ℕ) → q < k → at q ≡ none
unfolding first_below or_else
first_below-none at zero h q l = absurd (omega arith)
first_below-none at (suc p) h q l = elim (dec_lt q p) [
  | yes m ↦ first_below-none at p (ground arith) q m
  | no m ↦ let e : q ≡ p = omega arith in rw e (ground arith)
]

first_below_miss :
    (at : ℕ → Option BanRecord) (k : ℕ) → ((q : ℕ) → q < k → at q ≡ none) → first_below at k ≡ none
unfolding first_below or_else
first_below_miss at zero h = refl
first_below_miss at (suc p) h =
    ground (arith, h p (omega arith), first_below_miss at p (λ q l. h q (omega arith)))

first_below-some :
    (at : ℕ → Option BanRecord) (k : ℕ) (r : BanRecord) → first_below at k ≡ some r → Longest at k r
unfolding first_below or_else
first_below-some at zero r h = absurd (ground arith)
first_below-some at (suc p) r h = elim (Option-cases (at p)) [
  | inl miss ↦
      let rest = first_below-some at p r (ground (arith, miss)) in
      record {
        len = rest.len;
        below = omega (arith, rest.below);
        hit = rest.hit;
        longer = λ q l m. elim (dec_lt q p) [
          | yes low ↦ rest.longer q l low
          | no high ↦ let e : q ≡ p = omega arith in rw e miss
        ];
      }
  | inr (r', found) ↦ record {
    len = p;
    below = omega arith;
    hit = ground (arith, found);
    longer = λ q l m. absurd (omega arith);
  }
]

at4 : InMemoryBanStore → ℕ → ℕ → Option BanRecord
at4 s ip p = lookup (block4 ip p) s.bans

at6 : InMemoryBanStore → ℕ → ℕ → Option BanRecord
at6 s ip p = lookup (block6 ip p) s.bans

match4_lem : (s : InMemoryBanStore) (ip k : ℕ) → match4 k ip s ≡ first_below (at4 s ip) k
unfolding match4 first_below at4
match4_lem s ip zero = refl
match4_lem s ip (suc p) = ap (or_else (lookup (block4 ip p) s.bans)) (match4_lem s ip p)

match6_lem : (s : InMemoryBanStore) (ip k : ℕ) → match6 k ip s ≡ first_below (at6 s ip) k
unfolding match6 first_below at6
match6_lem s ip zero = refl
match6_lem s ip (suc p) = ap (or_else (lookup (block6 ip p) s.bans)) (match6_lem s ip p)

-- No ban on a network of prefix length at least `k` holds the address.
abbrev pub NoneFrom : ℕ → IpAddr → InMemoryBanStore → Type 0
NoneFrom k a s = (n : IpNet) → InNet n a → k ≤ prefix_len n → lookup n s.bans ≡ none

none_from4 :
    (s : InMemoryBanStore) (ip k : ℕ)
    → IsValid s
    → ((q : ℕ) → k ≤ q → q < 33 → lookup (block4 ip q) s.bans ≡ none)
    → NoneFrom k (IpAddr.v4 ip) s
none_from4 s ip k v h n m l = elim (Option-cases (lookup n s.bans)) [
  | inl miss ↦ miss
  | inr (r, hit) ↦
      let (e, small) = held4 s n ip v m hit in
      ap (λ t. lookup t s.bans) e ∙ h (prefix_len n) l small
]

none_from6 :
    (s : InMemoryBanStore) (ip k : ℕ)
    → IsValid s
    → ((q : ℕ) → k ≤ q → q < 129 → lookup (block6 ip q) s.bans ≡ none)
    → NoneFrom k (IpAddr.v6 ip) s
none_from6 s ip k v h n m l = elim (Option-cases (lookup n s.bans)) [
  | inl miss ↦ miss
  | inr (r, hit) ↦
      let (e, small) = held6 s n ip v m hit in
      ap (λ t. lookup t s.bans) e ∙ h (prefix_len n) l small
]

longest_match-none :
    (a : IpAddr) (s : InMemoryBanStore) → IsValid s → longest_match a s ≡ none → NoneFrom 0 a s
unfolding longest_match at4 at6
longest_match-none (IpAddr.v4 ip) s v h =
    none_from4 s ip 0 v (λ q l m. first_below-none (at4 s ip) 33 (sym (match4_lem s ip 33) ∙ h) q m)
longest_match-none (IpAddr.v6 ip) s v h =
    none_from6 s ip 0 v
      (λ q l m. first_below-none (at6 s ip) 129 (sym (match6_lem s ip 129) ∙ h) q m)

longest_match_miss : (a : IpAddr) (s : InMemoryBanStore) → NoneFrom 0 a s → longest_match a s ≡ none
unfolding longest_match at4 at6
longest_match_miss (IpAddr.v4 ip) s h =
    match4_lem s ip 33
    ∙ first_below_miss (at4 s ip) 33 (λ q l. h (block4 ip q) (InNet-block4 ip q) (omega arith))
longest_match_miss (IpAddr.v6 ip) s h =
    match6_lem s ip 129
    ∙ first_below_miss (at6 s ip) 129 (λ q l. h (block6 ip q) (InNet-block6 ip q) (omega arith))

-- The record is in force at its subject, which holds the address, and no longer network that holds
-- the address has a ban.
pub record IsLongest (a : IpAddr) (s : InMemoryBanStore) (r : BanRecord) : Type 0 where
  pub stored : lookup r.subject s.bans ≡ some r
  pub holds : InNet r.subject a
  pub longest : NoneFrom (suc (prefix_len r.subject)) a s

IsLongest-at :
    (n : IpNet) (a : IpAddr) (s : InMemoryBanStore) (r : BanRecord)
    → n ≡ r.subject
    → lookup n s.bans ≡ some r
    → InNet n a
    → NoneFrom (suc (prefix_len n)) a s
    → IsLongest a s r
IsLongest-at n a s r e hit m l = record {
  stored = subst (λ t. lookup t s.bans ≡ some r) e hit;
  holds = subst (λ t. InNet t a) e m;
  longest = subst (λ t. NoneFrom (suc (prefix_len t)) a s) e l;
}

longest_match-some :
    (a : IpAddr) (s : InMemoryBanStore) (r : BanRecord)
    → IsValid s
    → longest_match a s ≡ some r
    → IsLongest a s r
unfolding longest_match at4 at6 prefix_len
longest_match-some (IpAddr.v4 ip) s r v h =
    let found = first_below-some (at4 s ip) 33 r (sym (match4_lem s ip 33) ∙ h) in
    let e = (All-lookup IsEntry (block4 ip found.len) s.bans v.entries found.hit).1 in
    let below = none_from4 s ip (suc found.len) v found.longer in
    IsLongest-at (block4 ip found.len) (IpAddr.v4 ip) s r (sym e) found.hit
      (InNet-block4 ip found.len) below
longest_match-some (IpAddr.v6 ip) s r v h =
    let found = first_below-some (at6 s ip) 129 r (sym (match6_lem s ip 129) ∙ h) in
    let e = (All-lookup IsEntry (block6 ip found.len) s.bans v.entries found.hit).1 in
    let below = none_from6 s ip (suc found.len) v found.longer in
    IsLongest-at (block6 ip found.len) (IpAddr.v6 ip) s r (sym e) found.hit
      (InNet-block6 ip found.len) below

module _ (lib : NetLib) (a : IpAddr) (s : InMemoryBanStore) (v : IsValid s) (h : IsAddr a) where
  -- On a valid store an address is reported as not banned exactly when no ban's network holds it.
  pub is_banned-eq-none_iff :
      (is_banned lib a s ≡ none) ↔ ((n : IpNet) → InNet n a → lookup n s.bans ≡ none)
  is_banned-eq-none_iff = (
    λ e n m.
        longest_match-none a s v (sym (is_banned-longest_match lib a s v h) ∙ e) n m (omega arith),
    λ f. is_banned-longest_match lib a s v h ∙ longest_match_miss a s (λ n m l. f n m),
  )

  -- On a valid store the ban that is reported is stored under its subject, its network holds the
  -- address, and no ban on a longer prefix does.
  pub is_banned-IsLongest : (r : BanRecord) → is_banned lib a s ≡ some r → IsLongest a s r
  is_banned-IsLongest r e =
      longest_match-some a s r v (sym (is_banned-longest_match lib a s v h) ∙ e)
