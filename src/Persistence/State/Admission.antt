-- ===== src/Persistence/State/Admission.antt =====
-- What a successful admission of a ban leaves in force.
use mathlib.Core.Path.{subst}
use hiveguard.Prelude.{
  ℕ, ◌+◌, ◌^◌, ◌<◌, ◌≡◌, refl, sym, ap, ◌∙◌, arith, Bool, true, false, ◌&&◌, List, [], ◌∷◌, Option,
  none, some, length, any, find, Option-cases, Bool-cases, inl, inr,
}
use hiveguard.Prelude.Map.{lookup, insert, lookup-insert_self}
use hiveguard.Net.{IpNet, NetLib, net_eq}
use hiveguard.Models.{BanRecord}
use hiveguard.Errors.{Result, ok, err}
use hiveguard.BanStore
use hiveguard.BanStore.{InMemoryBanStore, covering_bans}
use hiveguard.BanStore.Fits.{Fits, trunc-IsBlock, trunc-InNet, Fits-IsNet}
use hiveguard.BanStore.Counts.{IsBlock}
use hiveguard.BanStore.Invariant.{IsValid, add_ban-IsValid}
use hiveguard.BanStore.Refine.{bans-add_ban}
use hiveguard.BanStore.Covering.{covering_bans_iff, IsNet}
use hiveguard.Whitelist.{overlaps}
use hiveguard.Persistence.Wal.{WalEntry, Codec}
use hiveguard.Persistence.State.{StateManager, BanAdmission, and_then, logged}
use hiveguard.Persistence.State.Done.{logged_done}
use hiveguard.Persistence.State.Ops.{
  add_ban, admit_ban, covered_by, extended_from, is_current, outlasts,
}

any_of_find {ℓ} :
    {A : Type ℓ} (p : A → Bool) (xs : List A) {x : A} → find p xs ≡ some x → any p xs ≡ true
unfolding any
any_of_find p [] h = absurd (ground (arith, h))
any_of_find p (y ∷ xs) {x} h = elim (Bool-cases (p y)) [
  | inl here ↦ ground (arith, here)
  | inr there ↦ ground (arith, there, any_of_find p xs {x = x} (ground (arith, h, there)))
]

and_then_done {ℓ κ} :
    {A : Type ℓ} {B : Type κ} (r : StateManager × Result A) (c : B) {b : B}
    → (and_then r (λ a s. (s, Result.ok c))).1 ≡ Result.ok b
    → ((and_then r (λ a s. (s, Result.ok c))).0 ≡ r.0) × ((a : A) × (r.1 ≡ Result.ok a))
and_then_done (s, ok a) c h = (refl, (a, refl))
and_then_done (s, err x) c h = absurd (ground (arith, h))

outlasts_self : (e : Option ℕ) → outlasts e e ≡ true
unfolding outlasts
outlasts_self none = refl
outlasts_self (some e) = ground arith

-- A ban that keeps a subject banned as long as the new one would.
abbrev pub keeps : ℕ → BanRecord → BanRecord → Bool
keeps now r b = is_current now b && outlasts b.expires_at r.expires_at

module _ (lib : NetLib) (codec : Codec) where
  add_ban_free :
      (r : BanRecord) (s : StateManager)
      → overlaps lib (lib.trunc r.subject) s.memory.whitelist ≡ false
      → add_ban lib codec r s
        ≡ logged codec
            (WalEntry.add_ban (record r { subject = lib.trunc r.subject }))
            (λ s.
              let m = s.memory in
              (
                record s {
                  memory = record m {
                    ban_store =
                        BanStore.add_ban (record r { subject = lib.trunc r.subject }) m.ban_store;
                  };
                },
                Result.ok tt,
              ))
            s
  unfolding add_ban
  add_ban_free r s h = rw (add_ban, h) refl

  stored-add_ban :
      (r : BanRecord) (s : StateManager) {u : Unit {0}}
      → (add_ban lib codec r s).1 ≡ Result.ok u
      → (add_ban lib codec r s).0.memory.ban_store
        ≡ BanStore.add_ban (record r { subject = lib.trunc r.subject }) s.memory.ban_store
  unfolding add_ban
  stored-add_ban r s h =
      let n : IpNet = lib.trunc r.subject in
      elim (Bool-cases (overlaps lib n s.memory.whitelist)) [
        | inl protected ↦ absurd (ground (arith, h, protected))
        | inr free ↦
            let (t, same, run) =
              logged_done codec (WalEntry.add_ban (record r { subject = n })) _ s
                (sym (ap (λ p. p.1) (add_ban_free r s free)) ∙ h) in
            ap (λ p. p.0.memory.ban_store) (add_ban_free r s free ∙ run)
            ∙ ap (λ m. BanStore.add_ban (record r { subject = n }) m.ban_store) same
      ]

  -- A ban stored on the subject in normal form is among those that cover it.
  covers_itself :
      (f : BanRecord → Bool) (n : IpNet) (r : BanRecord) (s : InMemoryBanStore)
      → IsValid s
      → IsNet n
      → lookup (lib.trunc n) s.bans ≡ some r
      → f r ≡ true
      → any f (covering_bans lib n s) ≡ true
  covers_itself f n r s v i hit t = elim (Bool-cases (any f (covering_bans lib n s))) [
    | inl holds ↦ holds
    | inr fails ↦
        let (len, here) = trunc-InNet lib n in
        let untrue =
          (covering_bans_iff lib f n s v i).0 fails (lib.trunc n) r (omega (arith, len)) here hit in
        absurd (ground (arith, t, untrue))
  ]

  stored_covers :
      (now : ℕ) (r r' : BanRecord) (s : StateManager) {u : Unit {0}}
      → IsValid s.memory.ban_store
      → Fits r.subject
      → length s.memory.ban_store.bans + 1 < 2 ^ 32
      → is_current now r ≡ true
      → r'.subject ≡ r.subject
      → r'.expires_at ≡ r.expires_at
      → (add_ban lib codec r' s).1 ≡ Result.ok u
      → any (keeps now r) (covering_bans lib r.subject (add_ban lib codec r' s).0.memory.ban_store)
        ≡ true
  unfolding is_current
  stored_covers now r r' s v b room current e ends h =
      let kept : BanRecord = record r' { subject = lib.trunc r'.subject } in
      let block : IsBlock kept.subject =
        subst (λ n. IsBlock (lib.trunc n)) (sym e) (trunc-IsBlock lib r.subject b) in
      let store = BanStore.add_ban kept s.memory.ban_store in
      let hit : lookup (lib.trunc r.subject) store.bans ≡ some kept =
        ap (lookup (lib.trunc r.subject)) (bans-add_ban kept s.memory.ban_store)
        ∙ ap (λ n. lookup (lib.trunc n) (insert kept.subject kept s.memory.ban_store.bans)) (sym e)
        ∙ lookup-insert_self kept.subject kept s.memory.ban_store.bans in
      ap (λ t. any (keeps now r) (covering_bans lib r.subject t)) (stored-add_ban r' s h)
      ∙ covers_itself (keeps now r) r.subject kept store
          (add_ban-IsValid kept s.memory.ban_store v block room) (Fits-IsNet lib r.subject b) hit
          (ground (
            arith,
            current,
            ends,
            outlasts_self r.expires_at,
            ap (λ x. outlasts x r.expires_at) ends,
            ap (λ x. is_current now (record r { expires_at = x })) ends,
          ))

  covered_now :
      (r : BanRecord) (now : ℕ) (s : StateManager) {by : BanRecord}
      → covered_by lib codec r now s ≡ some by
      → any (keeps now r) (covering_bans lib r.subject s.memory.ban_store) ≡ true
  unfolding covered_by
  covered_now r now s hit =
      any_of_find (keeps now r) (covering_bans lib r.subject s.memory.ban_store) hit

  extends :
      (r : BanRecord) (now : ℕ) (s : StateManager) (old : BanRecord)
      → covered_by lib codec r now s ≡ none
      → extended_from lib codec r now s ≡ some old
      → admit_ban lib codec r now s
        ≡ and_then
            (add_ban lib codec (record r { created_at = old.created_at }) s)
            (λ u s. (s, Result.ok (BanAdmission.extended old.expires_at)))
  unfolding admit_ban
  extends r now s old miss there = rw (admit_ban, miss) (rw (admit_ban, there) refl)

  adds :
      (r : BanRecord) (now : ℕ) (s : StateManager)
      → covered_by lib codec r now s ≡ none
      → extended_from lib codec r now s ≡ none
      → admit_ban lib codec r now s
        ≡ and_then (add_ban lib codec r s) (λ u s. (s, Result.ok BanAdmission.added))
  unfolding admit_ban
  adds r now s miss new = rw (admit_ban, miss) (rw (admit_ban, new) refl)

  -- The store of bans is valid and holds fewer than 2 ^ 32 - 1 bans, and a record whose address and
  -- prefix length fit the family, with host bits or without, has not ended. When its admission
  -- succeeds, whatever the outcome (added, extended or already covered), its subject is then covered
  -- by a ban in force that has no earlier end than the record, up to the five minutes below which a
  -- ban is not extended.
  pub admit_ban_covers :
      (r : BanRecord) (now : ℕ) (s : StateManager) {outcome : BanAdmission}
      → IsValid s.memory.ban_store
      → Fits r.subject
      → length s.memory.ban_store.bans + 1 < 2 ^ 32
      → is_current now r ≡ true
      → (admit_ban lib codec r now s).1 ≡ Result.ok outcome
      → any
          (keeps now r)
          (covering_bans lib r.subject (admit_ban lib codec r now s).0.memory.ban_store)
        ≡ true
  unfolding admit_ban
  admit_ban_covers r now s v b room current h = elim (Option-cases (covered_by lib codec r now s)) [
    | inr (by, hit) ↦ rw (admit_ban, hit) (covered_now r now s hit)
    | inl miss ↦ elim (Option-cases (extended_from lib codec r now s)) [
      | inr (old, there) ↦
          let r' : BanRecord = record r { created_at = old.created_at } in
          let c : BanAdmission = BanAdmission.extended old.expires_at in
          let p =
            and_then_done (add_ban lib codec r' s) c
              (sym (ap (λ p. p.1) (extends r now s old miss there)) ∙ h) in
          ap (λ p. any (keeps now r) (covering_bans lib r.subject p.0.memory.ban_store))
            (extends r now s old miss there)
          ∙ ap (λ p. any (keeps now r) (covering_bans lib r.subject p.memory.ban_store)) p.0
          ∙ stored_covers now r r' s v b room current refl refl p.1.1
      | inl new ↦
          let p =
            and_then_done (add_ban lib codec r s) BanAdmission.added
              (sym (ap (λ p. p.1) (adds r now s miss new)) ∙ h) in
          ap (λ p. any (keeps now r) (covering_bans lib r.subject p.0.memory.ban_store))
            (adds r now s miss new)
          ∙ ap (λ p. any (keeps now r) (covering_bans lib r.subject p.memory.ban_store)) p.0
          ∙ stored_covers now r r s v b room current refl refl p.1.1
    ]
  ]
