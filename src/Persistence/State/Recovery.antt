-- ===== src/Persistence/State/Recovery.antt =====
-- A restart at any point of a run of operations.
use mathlib.Core.Path.{subst}
use hiveguard.Prelude.{
  ℕ, ◌≡◌, refl, sym, ap, ◌∙◌, List, [], ◌∷◌, ◌++◌, Option-cases, Bool-cases, inl, inr,
}
use hiveguard.Prelude.Map.{lookup, is_some}
use hiveguard.Net.{IpNet, NetLib, net_eq}
use hiveguard.Models.{BanRecord}
use hiveguard.Crdt.{CrdtBanRecord}
use hiveguard.Errors.{Result, ok, err, result_cases}
use hiveguard.Persistence.Wal.{WalEntry, Codec, append}
use hiveguard.Persistence.Wal.Writer.{acked, Health, append-Health}
use hiveguard.Whitelist.{overlaps}
use hiveguard.Persistence.State.{
  Memory, StateManager, apply_entry, apply_all, load, and_then, logged, next_fault, later_faults,
  remove_ban, remove_whitelist, add_crdt_ban, tombstone_crdt_ban,
}
use hiveguard.Persistence.State.Ops.{
  add_ban, covered_by, extended_from, admit_ban, cutoff_of, revoke_ban, revoke_one, revoke_each,
  revoke_bans_covered_by_whitelist, add_whitelist,
}

pub apply_all-append :
    (es ds : List WalEntry) (m : Memory) → apply_all (es ++ ds) m ≡ apply_all ds (apply_all es m)
unfolding apply_all
apply_all-append [] ds m = refl
apply_all-append (e ∷ es) ds m = apply_all-append es ds (apply_entry e m)

module _ (codec : Codec) where
  -- The memory is the snapshot's with the log's entries applied, and the log holds them.
  unfoldable pub Synced : StateManager → Type 0
  Synced s =
      (es : List WalEntry) × Health codec s.wal_writer es
      × (s.memory ≡ apply_all es (load s.snapshot))

  -- The log is one entry ahead of the memory.
  Ahead : WalEntry → StateManager → Type 0
  Ahead e s =
      (es : List WalEntry) × Health codec s.wal_writer (es ++ (e ∷ []))
      × (s.memory ≡ apply_all es (load s.snapshot))

  applied-Synced :
      (e : WalEntry) (s : StateManager)
      → Ahead e s
      → Synced (record s { memory = apply_entry e s.memory })
  unfolding Synced Ahead apply_all
  applied-Synced e s (es, h, m) = (
    es ++ (e ∷ []),
    h,
    ap (apply_entry e) m ∙ sym (apply_all-append es (e ∷ []) (load s.snapshot)),
  )

  logged-Synced {ℓ} :
      {A : Type ℓ} (e : WalEntry) (k : StateManager → StateManager × Result A) (s : StateManager)
      → Synced s
      → ((t : StateManager) → Ahead e t → Synced (k t).0)
      → Synced (logged codec e k s).0
  unfolding logged Synced Ahead acked load apply_all
  logged-Synced e k s (es, h, m) f =
      let w = append codec (next_fault codec s.disk) e s.wal_writer in
      let t : StateManager = record s { wal_writer = w.0; disk = later_faults codec s.disk } in
      let h' = append-Health codec (next_fault codec s.disk) e s.wal_writer es h in
      elim (result_cases w.1) [
        | inl (u, done) ↦
            rw (logged, done) (f t (es, subst (λ r. Health codec w.0 (es ++ acked e r)) done h', m))
        | inr (x, failed) ↦
            rw (logged, failed)
              (
                es ++ [],
                subst (λ r. Health codec w.0 (es ++ acked e r)) failed h',
                m ∙ sym (apply_all-append es [] (load s.snapshot)),
              )
      ]

  and_then-Synced {ℓ κ} :
      {A : Type ℓ} {B : Type κ} (r : StateManager × Result A)
      (k : A → StateManager → StateManager × Result B)
      → Synced r.0
      → ((a : A) (s : StateManager) → Synced s → Synced (k a s).0)
      → Synced (and_then r k).0
  and_then-Synced (s, ok a) k h f = f a s h
  and_then-Synced (s, err x) k h f = h

  pub remove_ban-Synced :
      (n : IpNet) (s : StateManager) → Synced s → Synced (remove_ban codec n s).0
  unfolding remove_ban apply_entry
  remove_ban-Synced n s h =
      logged-Synced (WalEntry.remove_ban n) _ s h (applied-Synced (WalEntry.remove_ban n))

  pub remove_whitelist-Synced :
      (n : IpNet) (s : StateManager) → Synced s → Synced (remove_whitelist codec n s).0
  unfolding remove_whitelist apply_entry
  remove_whitelist-Synced n s h =
      logged-Synced (WalEntry.remove_whitelist n) _ s h
        (applied-Synced (WalEntry.remove_whitelist n))

  pub add_crdt_ban-Synced :
      (r : CrdtBanRecord) (s : StateManager) → Synced s → Synced (add_crdt_ban codec r s).0
  unfolding add_crdt_ban apply_entry
  add_crdt_ban-Synced r s h =
      logged-Synced (WalEntry.add_crdt_ban r) _ s h (applied-Synced (WalEntry.add_crdt_ban r))

  pub tombstone_crdt_ban-Synced :
      (n : IpNet) (s : StateManager) → Synced s → Synced (tombstone_crdt_ban codec n s).0
  unfolding tombstone_crdt_ban apply_entry
  tombstone_crdt_ban-Synced n s h =
      logged-Synced (WalEntry.tombstone_crdt_ban n) _ s h
        (applied-Synced (WalEntry.tombstone_crdt_ban n))

  module _ (lib : NetLib) where
    pub add_ban-Synced :
        (r : BanRecord) (s : StateManager) → Synced s → Synced (add_ban lib codec r s).0
    unfolding add_ban apply_entry
    add_ban-Synced r s h =
        let r' = record r { subject = lib.trunc r.subject } in
        elim (Bool-cases (overlaps lib r'.subject s.memory.whitelist)) [
          | inl protected ↦ rw (add_ban, protected) h
          | inr free ↦
              rw (add_ban, free)
                (logged-Synced (WalEntry.add_ban r') _ s h (applied-Synced (WalEntry.add_ban r')))
        ]

    pub admit_ban-Synced :
        (r : BanRecord) (now : ℕ) (s : StateManager)
        → Synced s
        → Synced (admit_ban lib codec r now s).0
    unfolding admit_ban
    admit_ban-Synced r now s h = elim (Option-cases (covered_by lib codec r now s)) [
      | inr (by, hit) ↦ rw (admit_ban, hit) h
      | inl miss ↦ elim (Option-cases (extended_from lib codec r now s)) [
        | inr (b, old) ↦
            rw (admit_ban, miss)
              (rw (admit_ban, old)
                (and_then-Synced (add_ban lib codec (record r { created_at = b.created_at }) s) _
                  (add_ban-Synced (record r { created_at = b.created_at }) s h) (λ u t k. k)))
        | inl new ↦
            rw (admit_ban, miss)
              (rw (admit_ban, new)
                (and_then-Synced (add_ban lib codec r s) _ (add_ban-Synced r s h) (λ u t k. k)))
      ]
    ]

    pub revoke_ban-Synced :
        (n : IpNet) (now : ℕ) (s : StateManager)
        → Synced s
        → Synced (revoke_ban lib codec n now s).0
    unfolding revoke_ban apply_entry
    revoke_ban-Synced n now s h =
        let e = WalEntry.revoke_ban (lib.trunc n) (cutoff_of lib codec (lib.trunc n) now s) in
        logged-Synced e _ s h (applied-Synced e)

    revoke_one-Synced :
        (n : IpNet) (s : StateManager) → Synced s → Synced (revoke_one lib codec n s).0
    unfolding revoke_one
    revoke_one-Synced n s h =
        and_then-Synced (remove_ban codec n s) _ (remove_ban-Synced n s h) (λ removed t k.
          elim (Bool-cases (is_some (lookup n t.memory.crdt_store))) [
            | inl here ↦ rw here (
                and_then-Synced (tombstone_crdt_ban codec n t) _ (tombstone_crdt_ban-Synced n t k)
                  (λ u v j. j))
            | inr gone ↦ rw gone k
          ])

    revoke_each-Synced :
        (ns : List IpNet) (s : StateManager) → Synced s → Synced (revoke_each lib codec ns s).0
    unfolding revoke_each
    revoke_each-Synced [] s h = h
    revoke_each-Synced (n ∷ ns) s h =
        and_then-Synced (revoke_one lib codec n s) _ (revoke_one-Synced n s h) (λ removed t k.
          and_then-Synced (revoke_each lib codec ns t) _ (revoke_each-Synced ns t k) (λ l u j. j))

    pub add_whitelist-Synced :
        (n : IpNet) (s : StateManager) → Synced s → Synced (add_whitelist lib codec n s).0
    unfolding add_whitelist apply_entry revoke_bans_covered_by_whitelist
    add_whitelist-Synced n s h =
        logged-Synced (WalEntry.add_whitelist n) _ s h
          (λ t a. revoke_each-Synced _ _ (applied-Synced (WalEntry.add_whitelist n) t a))
