-- ===== src/Persistence/State/Done.antt =====
-- What a call that succeeds has done to the bans and the whitelist.
use hiveguard.Prelude.{
  ◌≡◌, refl, sym, ap, ◌∙◌, arith, Bool, Bool-cases, inl, inr, if◌then◌else◌, if_true, if_false,
}
use hiveguard.Prelude.Map.{HashMap, lookup, remove as delete, is_some}
use hiveguard.Net.{IpNet, NetLib, net_eq}
use hiveguard.Models.{BanRecord}
use hiveguard.Errors.{Result, ok, err}
use hiveguard.BanStore.Refine.{bans-remove_ban}
use hiveguard.Whitelist.{WhitelistManager}
use hiveguard.Persistence.Wal.{WalEntry, Codec}
use hiveguard.Persistence.State.{StateManager, Memory, and_then, remove_ban, tombstone_crdt_ban}
use hiveguard.Persistence.State.Ops.{revoke_one}
use hiveguard.Errors.{HiveGuardError}
use hiveguard.Persistence.Wal.{append}
use hiveguard.Persistence.State.{next_fault, later_faults, logged}
use hiveguard.Errors.{result_cases}

not_done {ℓ} :
    {A : Type ℓ} {a : A} (x : HiveGuardError) → ◌≡◌ {A = Result A} (Result.err x) (Result.ok a) → ⊥
not_done x q = ground (arith, q)

-- The bans and the whitelist of a state.
abbrev pub bans : StateManager → HashMap IpNet BanRecord
bans s = s.memory.ban_store.bans

abbrev pub allowed : StateManager → WhitelistManager
allowed s = s.memory.whitelist

pub and_then_ok {ℓ κ} :
    {A : Type ℓ} {B : Type κ} (r : StateManager × Result A)
    (k : A → StateManager → StateManager × Result B) {b : B}
    → (and_then r k).1 ≡ Result.ok b
    → (a : A) × (r.1 ≡ Result.ok a) × (and_then r k ≡ k a r.0)
and_then_ok (s, ok a) k h = (a, refl, refl)
and_then_ok (s, err x) k h = absurd (ground (arith, h))

module _ (codec : Codec) where
  pub logged_done {ℓ} :
      {A : Type ℓ} (e : WalEntry) (k : StateManager → StateManager × Result A) (s : StateManager)
      {a : A}
      → (logged codec e k s).1 ≡ Result.ok a
      → (t : StateManager) × (t.memory ≡ s.memory) × (logged codec e k s ≡ k t)
  unfolding logged
  logged_done e k s {a} h =
      let w = append codec (next_fault codec s.disk) e s.wal_writer in
      let t : StateManager = record s { wal_writer = w.0; disk = later_faults codec s.disk } in
      elim (result_cases w.1) [
        | inl (u, done) ↦ (t, refl, rw (logged, done) refl)
        | inr (x, failed) ↦ absurd (not_done x (sym (rw (logged, failed) refl) ∙ h))
      ]

  remove_ban_done :
      (n : IpNet) (s : StateManager) {b : Bool}
      → (remove_ban codec n s).1 ≡ Result.ok b
      → (bans (remove_ban codec n s).0 ≡ delete n (bans s))
        × (allowed (remove_ban codec n s).0 ≡ allowed s)
  unfolding remove_ban
  remove_ban_done n s h =
      let (t, same, run) = logged_done (WalEntry.remove_ban n) _ s h in
      (
        ap (λ p. bans p.0) run
            ∙ bans-remove_ban n t.memory.ban_store
            ∙ ap (λ (m : Memory). delete n m.ban_store.bans) same,
        ap (λ p. allowed p.0) run ∙ ap (λ (m : Memory). m.whitelist) same,
      )

  tombstone_done :
      (n : IpNet) (s : StateManager) {b : Bool}
      → (tombstone_crdt_ban codec n s).1 ≡ Result.ok b
      → (bans (tombstone_crdt_ban codec n s).0 ≡ bans s)
        × (allowed (tombstone_crdt_ban codec n s).0 ≡ allowed s)
  unfolding tombstone_crdt_ban
  tombstone_done n s h =
      let (t, same, run) = logged_done (WalEntry.tombstone_crdt_ban n) _ s h in
      (
        ap (λ p. bans p.0) run ∙ ap (λ (m : Memory). m.ban_store.bans) same,
        ap (λ p. allowed p.0) run ∙ ap (λ (m : Memory). m.whitelist) same,
      )

  -- The second half of a round.
  abbrev lift_record : IpNet → Bool → StateManager → StateManager × Result Bool
  lift_record n removed s =
      if is_some (lookup n s.memory.crdt_store)
      then and_then (tombstone_crdt_ban codec n s) (λ u s. (s, Result.ok removed))
      else (s, Result.ok removed)

  lift_record_done :
      (n : IpNet) (removed : Bool) (s : StateManager) {b : Bool}
      → (lift_record n removed s).1 ≡ Result.ok b
      → (bans (lift_record n removed s).0 ≡ bans s)
        × (allowed (lift_record n removed s).0 ≡ allowed s)
  lift_record_done n removed s h =
      let known = is_some (lookup n s.memory.crdt_store) in
      let mark = and_then (tombstone_crdt_ban codec n s) (λ u s. (s, Result.ok removed)) in
      elim (Bool-cases known) [
        | inl there ↦
            let e : lift_record n removed s ≡ mark = if_true known _ _ there in
            let (u, marked, run) =
              and_then_ok (tombstone_crdt_ban codec n s) _ (sym (ap (λ p. p.1) e) ∙ h) in
            let (same, kept) = tombstone_done n s marked in
            (ap (λ p. bans p.0) (e ∙ run) ∙ same, ap (λ p. allowed p.0) (e ∙ run) ∙ kept)
        | inr absent ↦
            let e : lift_record n removed s ≡ (s, Result.ok removed) = if_false known _ _ absent in
            (ap (λ p. bans p.0) e, ap (λ p. allowed p.0) e)
      ]

module _ (lib : NetLib) (codec : Codec) where
  pub revoke_one_done :
      (n : IpNet) (s : StateManager) {b : Bool}
      → (revoke_one lib codec n s).1 ≡ Result.ok b
      → (bans (revoke_one lib codec n s).0 ≡ delete n (bans s))
        × (allowed (revoke_one lib codec n s).0 ≡ allowed s)
  unfolding revoke_one
  revoke_one_done n s h =
      let (removed, gone, run) = and_then_ok (remove_ban codec n s) (lift_record codec n) h in
      let (less, kept) = remove_ban_done codec n s gone in
      let (same, kept2) =
        lift_record_done codec n removed (remove_ban codec n s).0 (sym (ap (λ p. p.1) run) ∙ h) in
      (ap (λ p. bans p.0) run ∙ same ∙ less, ap (λ p. allowed p.0) run ∙ kept2 ∙ kept)
