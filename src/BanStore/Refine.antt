-- ===== src/BanStore/Refine.antt =====
-- The ban store as a partial function from networks to bans, over any sequence of operations.
use mathlib.Core.Path.{fun_ext}
use hiveguard.Prelude.{
  ℕ, suc, ◌+◌, ◌-◌, ◌^◌, ◌≤◌, ◌<◌, ◌≡◌, refl, ap, sym, ◌∙◌, arith, List, [], ◌∷◌, Option, none,
  some, length, if◌then◌else◌, Bool-cases, inl, inr, retain, ltb, length-retain, count-le-length,
}
use hiveguard.Prelude.Map.{
  lookup, insert, remove as delete, remove_absent, is_some, keep_if, lookup-insert, lookup-remove,
  lookup-retain, length-insert, length-remove,
}
use hiveguard.Net.{IpNet, beq, net_eq}
use hiveguard.Models.{BanRecord}
use hiveguard.BanStore.{
  InMemoryBanStore, new, add_ban, remove_ban, cleanup_expired, rebuild_prefix_counts, is_live,
}
use hiveguard.BanStore.Counts.{IsBlock, bans-inc_prefix, bans-dec_prefix, bans-count_keys}
use hiveguard.BanStore.Invariant.{
  IsValid, new-IsValid, add_ban-IsValid, remove_ban-IsValid, cleanup_expired-IsValid,
}

pub bans-add_ban :
    (r : BanRecord) (s : InMemoryBanStore) → (add_ban r s).bans ≡ insert r.subject r s.bans
unfolding add_ban
bans-add_ban r s = elim (Bool-cases (is_some (lookup r.subject s.bans))) [
  | inl old ↦ rw (old, add_ban)
  | inr fresh ↦ rw (fresh, add_ban) (bans-inc_prefix r.subject _)
]

pub bans-remove_ban : (n : IpNet) (s : InMemoryBanStore) → (remove_ban n s).0.bans ≡ delete n s.bans
unfolding remove_ban
bans-remove_ban n s = elim (Bool-cases (is_some (lookup n s.bans))) [
  | inl here ↦ rw (here, remove_ban) (bans-dec_prefix n _)
  | inr gone ↦ rw (gone, remove_ban) (sym (remove_absent n s.bans gone))
]

pub bans-cleanup_expired :
    (now : ℕ) (s : InMemoryBanStore)
    → (cleanup_expired now s).0.bans ≡ retain (λ e. is_live now e.1) s.bans
unfolding cleanup_expired rebuild_prefix_counts
bans-cleanup_expired now s =
    let kept = retain (λ (e : IpNet × BanRecord). is_live now e.1) s.bans in
    elim (Bool-cases (ltb 0 (length s.bans - length kept))) [
      | inl some_gone ↦ rw (some_gone, cleanup_expired) (bans-count_keys kept _)
      | inr none_gone ↦ rw (none_gone, cleanup_expired)
    ]

pub data Op : Type 0 where
  add : BanRecord → Op
  remove : IpNet → Op
  cleanup : ℕ → Op

unfoldable pub apply : Op → InMemoryBanStore → InMemoryBanStore
apply (add r) s = add_ban r s
apply (remove n) s = (remove_ban n s).0
apply (cleanup now) s = (cleanup_expired now s).0

unfoldable pub run : List Op → InMemoryBanStore → InMemoryBanStore
run [] s = s
run (o ∷ os) s = run os (apply o s)

-- What a store answers for each network.
abbrev pub View : Type 0
View = IpNet → Option BanRecord

unfoldable pub view : InMemoryBanStore → View
view s n = lookup n s.bans

-- The same operations on a partial function.
unfoldable pub apply_view : Op → View → View
apply_view (add r) f n = if beq r.subject n then some r else f n
apply_view (remove m) f n = if beq m n then none else f n
apply_view (cleanup now) f n = keep_if (is_live now) (f n)

unfoldable pub run_view : List Op → View → View
run_view [] f = f
run_view (o ∷ os) f = run_view os (apply_view o f)

-- Every ban that is added has a block in normal form for its subject.
abbrev pub AllBlocks : List Op → Type 0
AllBlocks [] = Unit
AllBlocks (add r ∷ os) = IsBlock r.subject × AllBlocks os
AllBlocks (remove n ∷ os) = AllBlocks os
AllBlocks (cleanup now ∷ os) = AllBlocks os

length-apply : (o : Op) (s : InMemoryBanStore) → length (apply o s).bans ≤ suc (length s.bans)
unfolding apply
length-apply (add r) s = rw (bans-add_ban r s) (ground (arith, length-insert r.subject r s.bans))
length-apply (remove n) s = rw (bans-remove_ban n s) (ground (arith, length-remove n s.bans))
length-apply (cleanup now) s = rw (bans-cleanup_expired now s) (
    omega (
      arith,
      length-retain (λ (e : IpNet × BanRecord). is_live now e.1) s.bans,
      count-le-length (λ (e : IpNet × BanRecord). is_live now e.1) s.bans,
    ))

apply-IsValid :
    (o : Op) (os : List Op) (s : InMemoryBanStore)
    → IsValid s
    → AllBlocks (o ∷ os)
    → length s.bans + 1 < 2 ^ 32
    → IsValid (apply o s) × AllBlocks os
unfolding apply
apply-IsValid (add r) os s v b h = (add_ban-IsValid r s v b.0 h, b.1)
apply-IsValid (remove n) os s v b h = (remove_ban-IsValid n s v, b)
apply-IsValid (cleanup now) os s v b h = (cleanup_expired-IsValid now s v, b)

view-apply : (o : Op) (s : InMemoryBanStore) → IsValid s → view (apply o s) ≡ apply_view o (view s)
unfolding apply apply_view view net_eq
view-apply (add r) s v =
    fun_ext λ n. ap (lookup n) (bans-add_ban r s) ∙ lookup-insert r.subject n r s.bans
view-apply (remove m) s v =
    fun_ext λ n. ap (lookup n) (bans-remove_ban m s) ∙ lookup-remove m n s.bans v.distinct
view-apply (cleanup now) s v = fun_ext λ n.
    ap (lookup n) (bans-cleanup_expired now s)
    ∙ lookup-retain n (λ e. is_live now e.1) s.bans v.distinct

run-from :
    (os : List Op) (s : InMemoryBanStore)
    → IsValid s
    → AllBlocks os
    → length s.bans + length os < 2 ^ 32
    → IsValid (run os s) × (view (run os s) ≡ run_view os (view s))
unfolding run run_view
run-from [] s v b h = (v, refl)
run-from (o ∷ os) s v b h =
    let (v', b') = apply-IsValid o os s v b (omega arith) in
    let (w, e) = run-from os (apply o s) v' b' (omega (arith, length-apply o s)) in
    (w, e ∙ ap (run_view os) (view-apply o s v))

-- Any run of fewer than 2 ^ 32 additions, removals and cleanups from the empty store, with every
-- added subject a block in normal form, ends in a valid store that answers for every network as the
-- same run on a partial function does.
pub run_refines :
    (os : List Op)
    → AllBlocks os
    → length os < 2 ^ 32
    → IsValid (run os new) × (view (run os new) ≡ run_view os (λ n. none))
unfolding new view lookup
run_refines os b h = run-from os new new-IsValid b (omega arith)
