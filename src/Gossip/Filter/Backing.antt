-- ===== src/Gossip/Filter/Backing.antt =====
-- What the engine holds: votes that their signers sent.
use Prim.Native.String.{String}
use mathlib.Core.Path.{subst}
use hiveguard.Prelude.{
  ℕ, ◌≡◌, ◌⊎◌, inl, inr, refl, sym, ap, arith, true, false, not, List, [], ◌∷◌, Option, some, All,
  In, All-weaken, retain_passes, retain-All, retain, is_empty, Bool-cases, Option-cases, some_inj,
}
use hiveguard.Prelude.Eq.{string_eq}
use hiveguard.Prelude.Map.{
  HashMap, Distinct, lookup, is_some, insert-All, All-lookup, insert-Distinct, retain-Distinct,
  lookup-insert_self,
}
use hiveguard.Models.{BanRecord}
use hiveguard.SignedRecord.{SignedBanRecord, Crates}
use hiveguard.Trust.{Float}
use hiveguard.Gossip.{Texts}
use hiveguard.Gossip.Filter.{
  Votes, Pass, is_relayed, is_expired, prune_reports, votes_on, vote, is_authentic,
}
use hiveguard.Gossip.Filter.Loop.{with_vote, vote-cases, Call}

-- An authentic record of a call that was not relayed.
abbrev pub CastIn : {F : Type 0} → Float F → Crates → Texts → Call F → String → BanRecord → Type 0
CastIn f crates texts call signer r =
    (s : SignedBanRecord) × In s call.records
    × (s.signer_id ≡ signer)
    × (s.ban ≡ r)
    × (is_authentic f crates texts call.peer_public_keys s ≡ true)
    × (is_relayed r.source ≡ false)

module _ {F : Type 0} (f : Float F) (crates : Crates) (texts : Texts) where
  -- A record that its signer sent itself, in one of the calls.
  abbrev pub Cast : List (Call F) → String → BanRecord → Type 0
  Cast [] signer r = ⊥
  Cast (call ∷ calls) signer r = CastIn f crates texts call signer r ⊎ Cast calls signer r

  -- What an engine holds on a subject, and in the middle of a call.
  abbrev pub Backed : List (Call F) → String × Votes → Type 0
  Backed calls e =
      Distinct e.1 × All (λ x. Cast calls x.0 x.1 × (texts.to_string x.1.subject ≡ e.0)) e.1

  abbrev pub Live : List (Call F) → ℕ → String × Votes → Type 0
  Live calls now e = Backed calls e × All (λ x. is_expired now x.1 ≡ false) e.1

  pub prune-Live :
      (calls : List (Call F)) (now : ℕ) (m : HashMap String Votes)
      → All (Backed calls) m
      → All (Live calls now) (prune_reports now m)
  unfolding prune_reports
  prune-Live calls now [] h = tt
  prune-Live calls now ((text, votes) ∷ m) h =
      let live = λ (x : String × BanRecord). not (is_expired now x.1) in
      let kept = retain live votes in
      let now_live : All (λ x. is_expired now x.1 ≡ false) kept =
        All-weaken _ _ kept (λ x e. ground (arith, e)) (retain_passes live votes) in
      let entry : Live calls now (text, kept) =
        ((retain-Distinct live votes h.0.0, retain-All _ live votes h.0.1), now_live) in
      let rest = prune-Live calls now m h.1 in
      elim (Bool-cases (is_empty kept)) [
        | inl nothing ↦ rw (nothing) rest
        | inr some_left ↦ rw (some_left) (entry, rest)
      ]

  votes_on-Live :
      (calls : List (Call F)) (now : ℕ) (text : String) (m : HashMap String Votes)
      → All (Live calls now) m
      → Live calls now (text, votes_on text m)
  unfolding votes_on
  votes_on-Live calls now text m h = elim (Option-cases (lookup text m)) [
    | inl absent ↦ rw (votes_on, absent) ((tt, tt), tt)
    | inr (votes, there) ↦ rw (votes_on, there) (All-lookup (Live calls now) text m h there)
  ]

  with_vote-Live :
      (calls : List (Call F)) (now : ℕ) (signed : SignedBanRecord) (p : Pass)
      → Cast calls signed.signer_id signed.ban
      → is_expired now signed.ban ≡ false
      → All (Live calls now) p.reports
      → (let text = texts.to_string signed.ban.subject in
          Live calls now (text, with_vote text signed p))
  with_vote-Live calls now signed p c l h =
      let text = texts.to_string signed.ban.subject in
      let old = votes_on-Live calls now text p.reports h in
      let votes = votes_on text p.reports in
      (
        (
          insert-Distinct signed.signer_id signed.ban votes old.0.0,
          insert-All _ signed.signer_id signed.ban votes (c, refl) old.0.1,
        ),
        insert-All _ signed.signer_id signed.ban votes l old.1,
      )

  -- What a vote leaves, and the votes that it is counted with.
  abbrev pub Outcome : List (Call F) → ℕ → SignedBanRecord → Pass → Pass × Option Votes → Type 0
  Outcome calls now signed p q =
      All (Live calls now) q.0.reports
      × (q.0.accepted ≡ p.accepted)
      × ((votes : Votes)
          → q.1 ≡ some votes
          → Live calls now (texts.to_string signed.ban.subject, votes)
            × (is_some (lookup signed.signer_id votes) ≡ true))

  pub vote-Outcome :
      (calls : List (Call F)) (now : ℕ) (signed : SignedBanRecord) (p : Pass)
      → Cast calls signed.signer_id signed.ban
      → is_expired now signed.ban ≡ false
      → All (Live calls now) p.reports
      → Outcome calls now signed p (vote (texts.to_string signed.ban.subject) signed p)
  vote-Outcome calls now signed p c l h =
      let text = texts.to_string signed.ban.subject in
      let old = votes_on-Live calls now text p.reports h in
      let new = with_vote-Live calls now signed p c l h in
      let there : is_some (lookup signed.signer_id (with_vote text signed p)) ≡ true =
        ap is_some (lookup-insert_self signed.signer_id signed.ban (votes_on text p.reports)) in
      let entered = λ (v : Votes) (x : Live calls now (text, v)).
        insert-All (Live calls now) text v p.reports x h in
      elim (vote-cases text signed p) [
        | inl e ↦
            subst (Outcome calls now signed p) (sym e) (h, refl, λ v q. absurd (ground (arith, q)))
        | inr (inl (room, e)) ↦
            subst (Outcome calls now signed p) (sym e)
              (entered (votes_on text p.reports) old, refl, λ v q. absurd (ground (arith, q)))
        | inr (inr (room, n, counts, e)) ↦ subst (Outcome calls now signed p) (sym e) (
          entered (with_vote text signed p) new,
          refl,
          λ v q.
              subst (λ w. Live calls now (text, w) × (is_some (lookup signed.signer_id w) ≡ true))
                (some_inj q) (new, there),
        )
      ]
