-- ===== src/Persistence/State/Reload.antt =====
-- hiveguard-core/src/persistence/state_manager.rs: what is loaded from the contents of a snapshot.
use mathlib.Core.Path.{ap₂}
use hiveguard.Prelude.{◌≡◌, refl, sym, ap, ◌∙◌, arith, List, [], ◌∷◌, map, All, some}
use hiveguard.Prelude.Map.{HashMap, Distinct, lookup, insert, lookup-insert}
use hiveguard.Net.{IpNet, net_eq, beq_iff}
use hiveguard.Models.{BanRecord}
use hiveguard.Crdt.{CrdtBanRecord}
use hiveguard.BanStore
use hiveguard.BanStore.{InMemoryBanStore, get_all_bans, or_else}
use hiveguard.BanStore.Refine.{bans-add_ban}
use hiveguard.Whitelist
use hiveguard.Whitelist.{WhitelistManager}
use hiveguard.Persistence.Snapshot.{SnapshotResult}
use hiveguard.Persistence.State.{Memory, load, insert_all, add_bans, add_nets}
use hiveguard.Persistence.State.Keyed.{Keyed, OwnBan, OwnRecord}
use hiveguard.Persistence.State.Keyed.Load.{immutable-add_nets}

-- The entries that are added come first, then the ones that were there.
lookup-insert_all {ℓ} :
    {V : Type ℓ} (k : IpNet) (kvs m : HashMap IpNet V)
    → Distinct kvs
    → lookup k (insert_all kvs m) ≡ or_else (lookup k kvs) (lookup k m)
unfolding lookup insert_all or_else net_eq
lookup-insert_all k [] m d = refl
lookup-insert_all k ((j, v) ∷ kvs) m d =
    ground
      (arith, lookup-insert_all k kvs (insert j v m) d.1, lookup-insert j k v m, beq_iff j k, d.0)

reload {ℓ} :
    {V : Type ℓ} (k : IpNet) (m : HashMap IpNet V)
    → Distinct m
    → lookup k (insert_all m []) ≡ lookup k m
unfolding or_else lookup
reload k m d = ground (arith, lookup-insert_all k m [] d)

-- The records of a map, each under its subject again.
own_bans :
    (m : HashMap IpNet BanRecord) → All OwnBan m → map (λ r. (r.subject, r)) (map (λ e. e.1) m) ≡ m
own_bans [] a = refl
own_bans ((j, b) ∷ m) a = ap₂ (λ n l. (n, b) ∷ l) a.0 (own_bans m a.1)

own_records :
    (m : HashMap IpNet CrdtBanRecord)
    → All OwnRecord m
    → map (λ r. (r.subject, r)) (map (λ e. e.1) m) ≡ m
own_records [] a = refl
own_records ((j, b) ∷ m) a = ap₂ (λ n l. (n, b) ∷ l) a.0 (own_records m a.1)

own_nets : (m : HashMap IpNet (Unit {0})) → map (λ n. (n, tt)) (map (λ e. e.0) m) ≡ m
own_nets [] = refl
own_nets ((n, u) ∷ m) = ap (λ l. (n, u) ∷ l) (own_nets m)

bans-add_bans :
    (rs : List BanRecord) (s : InMemoryBanStore)
    → (add_bans rs s).bans ≡ insert_all (map (λ r. (r.subject, r)) rs) s.bans
unfolding add_bans insert_all
bans-add_bans [] s = refl
bans-add_bans (r ∷ rs) s =
    bans-add_bans rs (BanStore.add_ban r s)
    ∙ ap (insert_all (map (λ r. (r.subject, r)) rs)) (bans-add_ban r s)

entries-add_nets :
    (ns : List IpNet) (w : WhitelistManager)
    → (add_nets ns w).entries ≡ insert_all (map (λ n. (n, tt)) ns) w.entries
unfolding add_nets insert_all Whitelist.add
entries-add_nets [] w = refl
entries-add_nets (n ∷ ns) w = entries-add_nets ns (Whitelist.add n w)

-- Two states answer alike: in their bans, replicated records, whitelists and revocations.
pub record Alike (m n : Memory) : Type 0 where
  pub bans : (k : IpNet) → lookup k m.ban_store.bans ≡ lookup k n.ban_store.bans
  pub records : (k : IpNet) → lookup k m.crdt_store ≡ lookup k n.crdt_store
  pub nets : (k : IpNet) → lookup k m.whitelist.entries ≡ lookup k n.whitelist.entries
  pub protected : m.whitelist.immutable ≡ n.whitelist.immutable
  pub cutoffs : (k : IpNet) → lookup k m.revocations ≡ lookup k n.revocations

-- What `take_snapshot` saves.
abbrev pub saved : Memory → SnapshotResult
saved m = record {
  bans = get_all_bans m.ban_store;
  whitelist = map (λ e. e.0) m.whitelist.entries;
  crdt_bans = map (λ e. e.1) m.crdt_store;
  revocations = m.revocations;
}

pub load-saved : (m : Memory) → Keyed m → Alike (load (some (saved m))) m
unfolding load get_all_bans BanStore.new Whitelist.new
load-saved m h = record {
  bans = λ k.
      ap (lookup k) (bans-add_bans (get_all_bans m.ban_store) BanStore.new)
      ∙ ap (λ l. lookup k (insert_all l [])) (own_bans m.ban_store.bans h.bans.own)
      ∙ reload k m.ban_store.bans h.bans.once;
  records = λ k.
      ap (λ l. lookup k (insert_all l [])) (own_records m.crdt_store h.records.own)
      ∙ reload k m.crdt_store h.records.once;
  nets = λ k.
      ap (lookup k) (entries-add_nets (map (λ e. e.0) m.whitelist.entries) Whitelist.new)
      ∙ ap (λ l. lookup k (insert_all l [])) (own_nets m.whitelist.entries)
      ∙ reload k m.whitelist.entries h.nets;
  protected =
      immutable-add_nets (map (λ e. e.0) m.whitelist.entries) Whitelist.new ∙ sym h.protected;
  cutoffs = λ k. reload k m.revocations h.cutoffs;
}
