-- ===== src/Persistence/State/Tombstone.antt =====
-- A tombstone set by the state manager against the records that arrive after it.
use hiveguard.Prelude.{◌<◌, ◌≡◌, refl, arith, true, false, some, length}
use hiveguard.Prelude.Map.{HashMap, lookup, lookup-insert_self}
use hiveguard.Prelude.OrdSet.{union}
use hiveguard.Prelude.StringOrd.{string_ord}
use hiveguard.Net.{IpNet, net_eq, beq_iff}
use hiveguard.Crdt.{CrdtBanRecord, merged, merge, tombstone_quorum}
use hiveguard.Persistence.State.{Memory, apply_entry, merge_into, set_tombstone}
use hiveguard.Persistence.Wal.{WalEntry}

set_tombstone-lookup :
    (n : IpNet) (a : CrdtBanRecord) (store : HashMap IpNet CrdtBanRecord)
    → lookup n store ≡ some a
    → lookup n (set_tombstone n store) ≡ some (record a { tombstone = true })
unfolding set_tombstone
set_tombstone-lookup n a store h =
    rw (set_tombstone, h) (lookup-insert_self n (record a { tombstone = true }) store)

merge_same : (a b : CrdtBanRecord) → a.subject ≡ b.subject → merge a b ≡ some (merged a b)
unfolding merge
merge_same a b e = rw ((beq_iff a.subject b.subject).1 e) refl

merge_into-lookup :
    (a b : CrdtBanRecord) (store : HashMap IpNet CrdtBanRecord)
    → lookup b.subject store ≡ some a
    → a.subject ≡ b.subject
    → lookup b.subject (merge_into b store) ≡ some (merged a b)
unfolding merge_into
merge_into-lookup a b store h e =
    rw (merge_into, h)
      (rw (merge_into, merge_same a b e) (lookup-insert_self b.subject (merged a b) store))

-- A local tombstone does not last: where the votes of the stored record and of a received one stay
-- below the quorum, a record is tombstoned by `tombstone_crdt_ban`, and after the next record of its
-- subject arrives it is not.
pub tombstone_undone :
    (m : Memory) (a b : CrdtBanRecord)
    → lookup b.subject m.crdt_store ≡ some a
    → a.subject ≡ b.subject
    → length (union a.tombstone_reporters b.tombstone_reporters) < tombstone_quorum
    → (lookup b.subject (apply_entry (WalEntry.tombstone_crdt_ban b.subject) m).crdt_store
        ≡ some (record a { tombstone = true }))
      × (lookup b.subject
            (apply_entry
              (WalEntry.add_crdt_ban b)
              (apply_entry (WalEntry.tombstone_crdt_ban b.subject) m)).crdt_store
          ≡ some (merged (record a { tombstone = true }) b))
      × ((merged (record a { tombstone = true }) b).tombstone ≡ false)
unfolding apply_entry merged
tombstone_undone m a b h e few =
    let t : CrdtBanRecord = record a { tombstone = true } in
    let set = set_tombstone-lookup b.subject a m.crdt_store h in
    (set, merge_into-lookup t b (set_tombstone b.subject m.crdt_store) set e, ground (arith, few))
