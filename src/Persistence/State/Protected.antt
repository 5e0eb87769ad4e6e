-- ===== src/Persistence/State/Protected.antt =====
-- A new whitelist entry against the bans that are there.
use mathlib.Core.Path.{subst}
use hiveguard.Prelude.{
  ◌≡◌, refl, sym, ap, ◌∙◌, arith, Bool, true, false, List, [], ◌∷◌, map, some, filter, any, All,
  Bool-cases, inl, inr, if_false,
}
use hiveguard.Prelude.Map.{
  HashMap, Distinct, lookup, remove as delete, lookup-remove, remove-Distinct,
}
use hiveguard.Net.{IpNet, NetLib, net_eq, beq, beq_iff}
use hiveguard.Models.{BanRecord}
use hiveguard.Errors.{Result}
use hiveguard.BanStore.{get_all_bans}
use hiveguard.BanStore.Invariant.{IsValid, IsEntry}
use hiveguard.Whitelist
use hiveguard.Whitelist.{WhitelistManager, overlaps}
use hiveguard.Persistence.Wal.{WalEntry, Codec}
use hiveguard.Persistence.State.{StateManager}
use hiveguard.Persistence.State.Ops.{
  revoke_one, revoke_each, revoke_bans_covered_by_whitelist, add_whitelist,
}
use hiveguard.Persistence.State.Done.{bans, allowed, and_then_ok, logged_done, revoke_one_done}

module _ (lib : NetLib) (codec : Codec) where
  -- A ban that is left was there, and is not one of the revoked.
  record Left (ns : List IpNet) (s t : StateManager) : Type 0 where
    same : allowed t ≡ allowed s
    was : (k : IpNet) (r : BanRecord) → lookup k (bans t) ≡ some r → lookup k (bans s) ≡ some r
    spared :
        (k : IpNet) (r : BanRecord) → lookup k (bans t) ≡ some r → any (λ n. beq n k) ns ≡ false

  nothing-Left : (s : StateManager) → Left [] s s
  unfolding any
  nothing-Left s = record { same = refl; was = λ k r h. h; spared = λ k r h. refl }

  one_more :
      (n : IpNet) (ns : List IpNet) (s m t : StateManager)
      → Distinct (bans s)
      → bans m ≡ delete n (bans s)
      → allowed m ≡ allowed s
      → Left ns m t
      → Left (n ∷ ns) s t
  unfolding any net_eq
  one_more n ns s m t d less kept l =
      let removed = λ (k : IpNet). ap (lookup k) less ∙ lookup-remove n k (bans s) d in
      record {
        same = l.same ∙ kept;
        was = λ k r h. ground (arith, removed k, l.was k r h);
        spared = λ k r h. ground (arith, removed k, l.was k r h, l.spared k r h);
      }

  revoke_each_done :
      (ns : List IpNet) (s : StateManager) {revoked : List IpNet}
      → Distinct (bans s)
      → (revoke_each lib codec ns s).1 ≡ Result.ok revoked
      → Left ns s (revoke_each lib codec ns s).0
  unfolding revoke_each
  revoke_each_done [] s d h = nothing-Left s
  revoke_each_done (n ∷ ns) s d h =
      let m = (revoke_one lib codec n s).0 in
      let (removed, one, run) = and_then_ok (revoke_one lib codec n s) _ h in
      let (less, kept) = revoke_one_done lib codec n s one in
      let (rest, each, run2) =
        and_then_ok (revoke_each lib codec ns m) _ (sym (ap (λ p. p.1) run) ∙ h) in
      subst (λ p. Left (n ∷ ns) s p.0) (sym (run ∙ run2))
        (one_more n ns s m (revoke_each lib codec ns m).0 d less kept
          (revoke_each_done ns m (subst Distinct (sym less) (remove-Distinct n (bans s) d)) each))

-- What is kept by a filter, at the head and further down.
any-filter_here :
    {A : Type 0} (p q : A → Bool) (x : A) (xs : List A)
    → p x ≡ true
    → q x ≡ true
    → any q (filter p (x ∷ xs)) ≡ true
unfolding any
any-filter_here p q x xs h t = ground arith

any-filter_later :
    {A : Type 0} (p q : A → Bool) (x : A) (xs : List A)
    → any q (filter p xs) ≡ true
    → any q (filter p (x ∷ xs)) ≡ true
unfolding any
any-filter_later p q x xs h = ground arith

-- A ban that passes a test is among the subjects that do.
listed_subject :
    (p : IpNet → Bool) (k : IpNet) (r : BanRecord) (m : HashMap IpNet BanRecord)
    → All IsEntry m
    → lookup k m ≡ some r
    → p k ≡ true
    → any (λ n. beq n k) (filter p (map (λ b. b.subject) (map (λ e. e.1) m))) ≡ true
unfolding lookup net_eq
listed_subject p k r [] a h t = absurd (ground (arith, h))
listed_subject p k r ((j, b) ∷ m) a h t =
    let same = λ (n : IpNet). beq n k in
    let later = map (λ b. b.subject) (map (λ e. e.1) m) in
    elim (Bool-cases (beq j k)) [
      | inl here ↦
          let e : b.subject ≡ k = a.0.1 ∙ (beq_iff j k).0 here in
          any-filter_here p same b.subject later (ap p e ∙ t) ((beq_iff b.subject k).1 e)
      | inr there ↦
          any-filter_later p same b.subject later (
            listed_subject p k r m a.1 (sym (if_false (beq j k) (some b) (lookup k m) there) ∙ h) t)
    ]

-- When a network is added to the whitelist with success, no ban is left that overlaps the whitelist,
-- with the new network or with an older entry.
pub add_whitelist_protects :
    (lib : NetLib) (codec : Codec) (n : IpNet) (s : StateManager) {revoked : List IpNet} (k : IpNet)
    (r : BanRecord)
    → IsValid s.memory.ban_store
    → (add_whitelist lib codec n s).1 ≡ Result.ok revoked
    → lookup k (bans (add_whitelist lib codec n s).0) ≡ some r
    → overlaps lib k (allowed (add_whitelist lib codec n s).0) ≡ false
unfolding add_whitelist revoke_bans_covered_by_whitelist get_all_bans
add_whitelist_protects lib codec n s k r v h left =
    let (t, same, run) = logged_done codec (WalEntry.add_whitelist n) _ s h in
    let m = t.memory in
    let u : StateManager = record t {
      memory = record m { whitelist = Whitelist.add n m.whitelist };
    } in
    let overlapping = λ (x : IpNet). overlaps lib x (allowed u) in
    let ns = filter overlapping (map (λ b. b.subject) (map (λ e. e.1) (bans u))) in
    let v' : IsValid t.memory.ban_store = subst (λ m. IsValid m.ban_store) (sym same) v in
    let l = revoke_each_done lib codec ns u v'.distinct (sym (ap (λ p. p.1) run) ∙ h) in
    let left' = sym (ap (λ p. lookup k (bans p.0)) run) ∙ left in
    elim (Bool-cases (overlapping k)) [
      | inr clear ↦ ap (λ p. overlaps lib k (allowed p.0)) run ∙ ap (overlaps lib k) l.same ∙ clear
      | inl hit ↦
          let listed = listed_subject overlapping k r (bans u) v'.entries (l.was k r left') hit in
          absurd (ground (arith, listed, l.spared k r left'))
    ]
