-- ===== src/Persistence/State/Keyed.antt =====
-- The maps of a state: every key stands once, and is the subject of its record.
pub mod Load
use mathlib.Core.Path.{subst}
use hiveguard.Prelude.{
  ℕ, ◌≡◌, refl, sym, List, [], ◌∷◌, map, All, Option, none, some, Option-cases, inl, inr, true,
}
use hiveguard.Prelude.Map.{
  HashMap, Distinct, lookup, insert, remove as delete, insert-Distinct, remove-Distinct, insert-All,
  remove-All, All-lookup,
}
use hiveguard.Net.{IpNet, net_eq, beq_iff}
use hiveguard.Models.{BanRecord}
use hiveguard.Crdt.{CrdtBanRecord, merge, merged}
use hiveguard.BanStore
use hiveguard.BanStore.{InMemoryBanStore}
use hiveguard.BanStore.Refine.{bans-add_ban, bans-remove_ban}
use hiveguard.Whitelist
use hiveguard.Whitelist.{WhitelistManager, immutable_protected}
use hiveguard.Persistence.Wal.{WalEntry}
use hiveguard.Persistence.Snapshot.{SnapshotResult}
use hiveguard.Persistence.State.{
  Memory, load, insert_all, add_bans, add_nets, merge_into, set_tombstone, apply_entry, apply_all,
  empty_memory,
}

abbrev pub OwnBan : IpNet × BanRecord → Type 0
OwnBan e = e.1.subject ≡ e.0

abbrev pub OwnRecord : IpNet × CrdtBanRecord → Type 0
OwnRecord e = e.1.subject ≡ e.0

pub record KeyedBans (m : HashMap IpNet BanRecord) : Type 0 where
  pub once : Distinct m
  pub own : All OwnBan m

pub record KeyedRecords (m : HashMap IpNet CrdtBanRecord) : Type 0 where
  pub once : Distinct m
  pub own : All OwnRecord m

pub record Keyed (m : Memory) : Type 0 where
  pub bans : KeyedBans m.ban_store.bans
  pub records : KeyedRecords m.crdt_store
  pub nets : Distinct m.whitelist.entries
  pub cutoffs : Distinct m.revocations
  pub protected : m.whitelist.immutable ≡ immutable_protected

pub add_ban-Keyed :
    (r : BanRecord) (s : InMemoryBanStore)
    → KeyedBans s.bans
    → KeyedBans (BanStore.add_ban r s).bans
add_ban-Keyed r s k = subst KeyedBans (sym (bans-add_ban r s)) (record {
  once = insert-Distinct r.subject r s.bans k.once;
  own = insert-All OwnBan r.subject r s.bans refl k.own;
})

remove_ban-Keyed :
    (n : IpNet) (s : InMemoryBanStore)
    → KeyedBans s.bans
    → KeyedBans (BanStore.remove_ban n s).0.bans
remove_ban-Keyed n s k =
    subst KeyedBans (sym (bans-remove_ban n s))
      (record { once = remove-Distinct n s.bans k.once; own = remove-All OwnBan n s.bans k.own })

pub insert_record-Keyed :
    (n : IpNet) (r : CrdtBanRecord) (m : HashMap IpNet CrdtBanRecord)
    → r.subject ≡ n
    → KeyedRecords m
    → KeyedRecords (insert n r m)
insert_record-Keyed n r m e k = record {
  once = insert-Distinct n r m k.once;
  own = insert-All OwnRecord n r m e k.own;
}

merge_into-Keyed :
    (r : CrdtBanRecord) (m : HashMap IpNet CrdtBanRecord)
    → KeyedRecords m
    → KeyedRecords (merge_into r m)
unfolding merge_into merge merged
merge_into-Keyed r m k = elim (Option-cases (lookup r.subject m)) [
  | inl fresh ↦ rw (merge_into, fresh) (insert_record-Keyed r.subject r m refl k)
  | inr (old, there) ↦
      let e : old.subject ≡ r.subject = All-lookup OwnRecord r.subject m k.own there in
      rw (merge_into, there, (beq_iff old.subject r.subject).1 e)
        (insert_record-Keyed r.subject (merged old r) m e k)
]

set_tombstone-Keyed :
    (n : IpNet) (m : HashMap IpNet CrdtBanRecord)
    → KeyedRecords m
    → KeyedRecords (set_tombstone n m)
unfolding set_tombstone
set_tombstone-Keyed n m k = elim (Option-cases (lookup n m)) [
  | inl absent ↦ rw (set_tombstone, absent) k
  | inr (old, there) ↦
      rw (set_tombstone, there)
        (insert_record-Keyed n (record old { tombstone = true }) m
          (All-lookup OwnRecord n m k.own there) k)
]

-- One map of a state is another.
with_bans :
    (m : Memory) (s : InMemoryBanStore)
    → Keyed m
    → KeyedBans s.bans
    → Keyed (record m { ban_store = s })
with_bans m s k b = record {
  bans = b;
  records = k.records;
  nets = k.nets;
  cutoffs = k.cutoffs;
  protected = k.protected;
}

with_records :
    (m : Memory) (c : HashMap IpNet CrdtBanRecord)
    → Keyed m
    → KeyedRecords c
    → Keyed (record m { crdt_store = c })
with_records m c k r = record {
  bans = k.bans;
  records = r;
  nets = k.nets;
  cutoffs = k.cutoffs;
  protected = k.protected;
}

with_nets :
    (m : Memory) (e : HashMap IpNet (Unit {0}))
    → Keyed m
    → Distinct e
    → Keyed (record m { whitelist = record m.whitelist { entries = e } })
with_nets m e k d = record {
  bans = k.bans;
  records = k.records;
  nets = d;
  cutoffs = k.cutoffs;
  protected = k.protected;
}

with_cutoffs :
    (m : Memory) (r : HashMap IpNet ℕ) → Keyed m → Distinct r → Keyed (record m { revocations = r })
with_cutoffs m r k d = record {
  bans = k.bans;
  records = k.records;
  nets = k.nets;
  cutoffs = d;
  protected = k.protected;
}

pub apply_entry-Keyed : (e : WalEntry) (m : Memory) → Keyed m → Keyed (apply_entry e m)
unfolding apply_entry Whitelist.add Whitelist.remove
apply_entry-Keyed (WalEntry.add_ban r) m k =
    with_bans m (BanStore.add_ban r m.ban_store) k (add_ban-Keyed r m.ban_store k.bans)
apply_entry-Keyed (WalEntry.remove_ban n) m k =
    with_bans m (BanStore.remove_ban n m.ban_store).0 k (remove_ban-Keyed n m.ban_store k.bans)
apply_entry-Keyed (WalEntry.add_whitelist n) m k =
    with_nets m (insert n tt m.whitelist.entries) k
      (insert-Distinct n tt m.whitelist.entries k.nets)
apply_entry-Keyed (WalEntry.remove_whitelist n) m k =
    with_nets m (delete n m.whitelist.entries) k (remove-Distinct n m.whitelist.entries k.nets)
apply_entry-Keyed (WalEntry.add_crdt_ban r) m k =
    with_records m (merge_into r m.crdt_store) k (merge_into-Keyed r m.crdt_store k.records)
apply_entry-Keyed (WalEntry.tombstone_crdt_ban n) m k =
    with_records m (set_tombstone n m.crdt_store) k (set_tombstone-Keyed n m.crdt_store k.records)
apply_entry-Keyed (WalEntry.revoke_ban n cutoff) m k =
    let r = insert n cutoff m.revocations in
    with_bans (record m { revocations = r }) (BanStore.remove_ban n m.ban_store).0
      (with_cutoffs m r k (insert-Distinct n cutoff m.revocations k.cutoffs))
      (remove_ban-Keyed n m.ban_store k.bans)

pub apply_all-Keyed : (es : List WalEntry) (m : Memory) → Keyed m → Keyed (apply_all es m)
unfolding apply_all
apply_all-Keyed [] m k = k
apply_all-Keyed (e ∷ es) m k = apply_all-Keyed es (apply_entry e m) (apply_entry-Keyed e m k)
