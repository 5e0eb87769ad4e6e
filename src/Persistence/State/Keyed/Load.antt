-- ===== src/Persistence/State/Keyed/Load.antt =====
-- The maps of a state that a snapshot is loaded into.
use hiveguard.Prelude.{◌≡◌, refl, List, [], ◌∷◌, map, Option, none, some}
use hiveguard.Prelude.Map.{HashMap, Distinct, insert, insert-Distinct}
use hiveguard.Net.{IpNet, net_eq}
use hiveguard.Models.{BanRecord}
use hiveguard.Crdt.{CrdtBanRecord}
use hiveguard.BanStore
use hiveguard.BanStore.{InMemoryBanStore}
use hiveguard.Whitelist
use hiveguard.Whitelist.{WhitelistManager, immutable_protected}
use hiveguard.Persistence.Snapshot.{SnapshotResult}
use hiveguard.Persistence.State.{load, insert_all, add_bans, add_nets, empty_memory}
use hiveguard.Persistence.State.Keyed.{
  Keyed, KeyedBans, KeyedRecords, add_ban-Keyed, insert_record-Keyed,
}

add_bans-Keyed :
    (rs : List BanRecord) (s : InMemoryBanStore) → KeyedBans s.bans → KeyedBans (add_bans rs s).bans
unfolding add_bans
add_bans-Keyed [] s k = k
add_bans-Keyed (r ∷ rs) s k = add_bans-Keyed rs (BanStore.add_ban r s) (add_ban-Keyed r s k)

add_nets-Distinct :
    (ns : List IpNet) (w : WhitelistManager) → Distinct w.entries → Distinct (add_nets ns w).entries
unfolding add_nets Whitelist.add
add_nets-Distinct [] w d = d
add_nets-Distinct (n ∷ ns) w d =
    add_nets-Distinct ns (Whitelist.add n w) (insert-Distinct n tt w.entries d)

pub immutable-add_nets :
    (ns : List IpNet) (w : WhitelistManager) → (add_nets ns w).immutable ≡ w.immutable
unfolding add_nets Whitelist.add
immutable-add_nets [] w = refl
immutable-add_nets (n ∷ ns) w = immutable-add_nets ns (Whitelist.add n w)

insert_all-Distinct {ℓ} :
    {V : Type ℓ} (kvs : List (IpNet × V)) (m : HashMap IpNet V)
    → Distinct m
    → Distinct (insert_all kvs m)
unfolding insert_all
insert_all-Distinct [] m d = d
insert_all-Distinct ((k, v) ∷ kvs) m d =
    insert_all-Distinct kvs (insert k v m) (insert-Distinct k v m d)

insert_records-Keyed :
    (rs : List CrdtBanRecord) (m : HashMap IpNet CrdtBanRecord)
    → KeyedRecords m
    → KeyedRecords (insert_all (map (λ r. (r.subject, r)) rs) m)
unfolding insert_all
insert_records-Keyed [] m k = k
insert_records-Keyed (r ∷ rs) m k =
    insert_records-Keyed rs (insert r.subject r m) (insert_record-Keyed r.subject r m refl k)

-- Whatever a snapshot holds.
pub load-Keyed : (snapshot : Option SnapshotResult) → Keyed (load snapshot)
unfolding load empty_memory BanStore.new Whitelist.new
load-Keyed none = record {
  bans = record { once = tt; own = tt };
  records = record { once = tt; own = tt };
  nets = tt;
  cutoffs = tt;
  protected = refl;
}
load-Keyed (some snap) = record {
  bans = add_bans-Keyed snap.bans BanStore.new (record { once = tt; own = tt });
  records = insert_records-Keyed snap.crdt_bans [] (record { once = tt; own = tt });
  nets = add_nets-Distinct snap.whitelist Whitelist.new tt;
  cutoffs = insert_all-Distinct snap.revocations [] tt;
  protected = immutable-add_nets snap.whitelist Whitelist.new;
}
