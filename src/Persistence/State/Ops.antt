-- ===== src/Persistence/State/Ops.antt =====
-- hiveguard-core/src/persistence/state_manager.rs: the operations that test addresses.
use Prim.Native.Nat.{max}
use hiveguard.Prelude.{
  ℕ, ◌+◌, Bool, true, false, not, ◌&&◌, ◌||◌, List, [], ◌∷◌, map, Option, none, some, leb, ltb, any,
  find, filter, if◌then◌else◌,
}
use hiveguard.Prelude.Map.{lookup, insert, is_some}
use hiveguard.Net.{IpNet, NetLib, net_eq, addr, beq}
use hiveguard.Models.{BanRecord}
use hiveguard.BanStore
use hiveguard.BanStore.{covering_bans, get_all_bans}
use hiveguard.Whitelist
use hiveguard.Whitelist.{overlaps}
use hiveguard.Errors.{HiveGuardError, Result}
use hiveguard.Persistence.Wal.{WalEntry, Codec}
use hiveguard.Persistence.State.{
  StateManager, BanAdmission, min_ban_extension, and_then, logged, remove_ban, tombstone_crdt_ban,
}

-- `expires_at.map_or(true, |exp| exp > now)`
unfoldable pub is_current : ℕ → BanRecord → Bool
is_current now b = elim b.expires_at [ none ↦ true | some exp ↦ ltb now exp ]

-- An end against a later one: a ban without an end outlasts every other.
unfoldable pub outlasts : Option ℕ → Option ℕ → Bool
outlasts none new = true
outlasts (some e) none = false
outlasts (some e) (some n) = leb n (e + min_ban_extension)

module _ (lib : NetLib) (codec : Codec) where
  unfoldable pub add_ban : BanRecord → StateManager → StateManager × Result (Unit {0})
  add_ban record0 s =
      let r = record record0 { subject = lib.trunc record0.subject } in
      if overlaps lib r.subject s.memory.whitelist
      then (s, Result.err HiveGuardError.config)
      else logged codec (WalEntry.add_ban r)
          (λ s.
            let m = s.memory in
            (
              record s { memory = record m { ban_store = BanStore.add_ban r m.ban_store } },
              Result.ok tt,
            ))
          s

  -- The covering ban that makes a new one needless.
  unfoldable pub covered_by : BanRecord → ℕ → StateManager → Option BanRecord
  covered_by r now s =
      find (λ b. is_current now b && outlasts b.expires_at r.expires_at)
        (covering_bans lib r.subject s.memory.ban_store)

  -- The current ban of the same subject.
  unfoldable pub extended_from : BanRecord → ℕ → StateManager → Option BanRecord
  extended_from r now s =
      find (λ b. beq b.subject r.subject && is_current now b)
        (covering_bans lib r.subject s.memory.ban_store)

  unfoldable pub admit_ban : BanRecord → ℕ → StateManager → StateManager × Result BanAdmission
  admit_ban r now s = elim (covered_by r now s) [
    | some by ↦ (s, Result.ok (BanAdmission.already_covered by.subject by.expires_at))
    | none ↦ elim (extended_from r now s) [
      | some b ↦
          and_then (add_ban (record r { created_at = b.created_at }) s)
            (λ u s. (s, Result.ok (BanAdmission.extended b.expires_at)))
      | none ↦ and_then (add_ban r s) (λ u s. (s, Result.ok BanAdmission.added))
    ]
  ]

  -- The cutoff of a revocation: now, unless the ban or an earlier revocation lies later.
  unfoldable pub cutoff_of : IpNet → ℕ → StateManager → ℕ
  cutoff_of subject now s =
      let first : ℕ = elim (find (λ b. beq b.subject subject) (get_all_bans s.memory.ban_store)) [
        | none ↦ now
        | some b ↦ max now b.created_at
      ] in
      elim (lookup subject s.memory.revocations) [
        | none ↦ first
        | some previous ↦ max first previous
      ]

  unfoldable pub revoke_ban : IpNet → ℕ → StateManager → StateManager × Result Bool
  revoke_ban n now s =
      let subject = lib.trunc n in
      let cutoff = cutoff_of subject now s in
      logged codec (WalEntry.revoke_ban subject cutoff)
        (λ s.
          let m = s.memory in
          let removed = BanStore.remove_ban subject m.ban_store in
          (
            record s {
              memory = record m {
                revocations = insert subject cutoff m.revocations;
                ban_store = removed.0;
              };
            },
            Result.ok removed.1,
          ))
        s

  -- A revocation that stands against a ban.
  unfoldable pub revoked : BanRecord → IpNet × ℕ → Bool
  revoked r e =
      (lib.contains e.0 (addr r.subject) || lib.contains r.subject (addr e.0))
      && leb r.created_at e.1

  unfoldable pub accepts_remote_ban : BanRecord → StateManager → Bool
  accepts_remote_ban r s =
      not (overlaps lib r.subject s.memory.whitelist) && not (any (revoked r) s.memory.revocations)

  -- One round of the loop of `revoke_bans_covered_by_whitelist`: whether a ban was removed.
  unfoldable pub revoke_one : IpNet → StateManager → StateManager × Result Bool
  revoke_one n s = and_then (remove_ban codec n s) (λ removed s.
      if is_some (lookup n s.memory.crdt_store)
      then and_then (tombstone_crdt_ban codec n s) (λ u s. (s, Result.ok removed))
      else (s, Result.ok removed))

  unfoldable pub revoke_each : List IpNet → StateManager → StateManager × Result (List IpNet)
  revoke_each [] s = (s, Result.ok [])
  revoke_each (n ∷ ns) s = and_then (revoke_one n s) (λ removed s.
      and_then (revoke_each ns s) (λ rest s. (s, Result.ok (if removed then n ∷ rest else rest))))

  unfoldable pub revoke_bans_covered_by_whitelist :
      StateManager → StateManager × Result (List IpNet)
  revoke_bans_covered_by_whitelist s =
      revoke_each
        (filter (λ n. overlaps lib n s.memory.whitelist)
          (map (λ b. b.subject) (get_all_bans s.memory.ban_store)))
        s

  unfoldable pub add_whitelist : IpNet → StateManager → StateManager × Result (List IpNet)
  add_whitelist n = logged codec (WalEntry.add_whitelist n) (λ s.
      let m = s.memory in
      revoke_bans_covered_by_whitelist
        (record s { memory = record m { whitelist = Whitelist.add n m.whitelist } }))
