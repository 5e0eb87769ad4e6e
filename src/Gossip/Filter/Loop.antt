-- ===== src/Gossip/Filter/Loop.antt =====
-- The filter of received bans step by step: what a record can lead to, and runs of calls.
use Prim.Native.String.{String}
use mathlib.Core.Path.{subst}
use hiveguard.Prelude.{
  ℕ, ◌+◌, ◌≤◌, ◌<◌, ◌≡◌, ◌⊎◌, inl, inr, refl, sym, ◌∙◌, arith, Bool, true, false, not, ◌&&◌, ◌||◌,
  In, List, [], ◌∷◌, Option, none, some, length, map, leb, is_empty, Bool-cases, Option-cases,
  if◌then◌else◌, if_true, if_false,
}
use hiveguard.Prelude.Eq.{string_eq}
use hiveguard.Prelude.Map.{HashMap, lookup, insert, is_some, length-insert}
use hiveguard.Models.{BanRecord}
use hiveguard.Crypto.{Bytes, bytes_eq}
use hiveguard.SignedRecord.{SignedBanRecord, Crates}
use hiveguard.AntiPoison.{RateLimiter}
use hiveguard.Trust.{Float, TrustManager, should_enforce}
use hiveguard.Gossip.{GossipEngine, GossipAction, Texts}
use hiveguard.Gossip.Filter.{
  Votes, limit, Pass, votes_on, start, is_newer, vote, charge, count_vote, handle_record,
  handle_each, is_quarantined, handle_ban_sync_filtered_with_policy, admit_key, is_authentic,
  is_stale, decision,
}

-- One call of the filter, with what it is given.
pub record Call (F : Type 0) : Type 0 where
  pub now : ℕ
  pub records : List SignedBanRecord
  pub sender_id : String
  pub trust_manager : TrustManager F
  pub ban_counts : HashMap String ℕ
  pub peer_public_keys : HashMap String Bytes
  pub eligible : BanRecord → Bool

-- A subject can be entered.
abbrev pub HasRoom : String → Pass → Type 0
HasRoom subject p = (is_some (lookup subject p.reports) ≡ true) ⊎ (length p.reports < limit)

-- The votes on a subject with one more.
abbrev pub with_vote : String → SignedBanRecord → Pass → Votes
with_vote subject signed p = insert signed.signer_id signed.ban (votes_on subject p.reports)

-- A new count of votes, where the votes of a subject are replaced.
abbrev pub Counts : ℕ → Votes → Votes → Pass → Type 0
Counts n old new p =
    ((length new ≡ length old) × (n ≡ p.report_count))
    ⊎ ((length new ≡ length old + 1) × (n ≡ p.report_count + 1) × (length old < 64) × (n ≤ limit))

-- A vote is refused without a trace, refused when its subject has been entered, or counted.
pub vote-cases :
    (subject : String) (signed : SignedBanRecord) (p : Pass)
    → (vote subject signed p ≡ (p, none))
      ⊎ (HasRoom subject p
          × (vote subject signed p ≡ (
            record p { reports = insert subject (votes_on subject p.reports) p.reports },
            none,
          )))
      ⊎ (HasRoom subject p
          × (n : ℕ) × Counts n (votes_on subject p.reports) (with_vote subject signed p) p
          × (vote subject signed p ≡ (
            record p {
              report_count = n;
              reports = insert subject (with_vote subject signed p) p.reports;
            },
            some (with_vote subject signed p),
          )))
unfolding vote
vote-cases subject signed p =
    let old = votes_on subject p.reports in
    let grown = length-insert signed.signer_id signed.ban old in
    elim (Bool-cases (not (is_some (lookup subject p.reports)) && leb limit (length p.reports))) [
      | inl full ↦ inl (rw (vote, full) refl)
      | inr free ↦
          let room : HasRoom subject p = ground (arith, free) in
          elim (Option-cases (lookup signed.signer_id old)) [
            | inl first ↦ elim (Bool-cases (leb limit p.report_count || leb 64 (length old))) [
              | inl many ↦ inr (inl (room, rw (vote, free, first, many) refl))
              | inr few ↦ inr (
                  inr (
                    room,
                    p.report_count + 1,
                    ground (arith, grown, first, few),
                    rw (vote, free, first, few) refl,
                  ))
            ]
            | inr (prior, known) ↦ elim (Bool-cases (is_newer prior signed.ban)) [
              | inl newer ↦ inr (inl (room, rw (vote, free, known, newer) refl))
              | inr later ↦ inr (
                  inr (
                    room,
                    p.report_count,
                    ground (arith, grown, known),
                    rw (vote, free, known, later) refl,
                  ))
            ]
          ]
    ]

module _ {F : Type 0} (f : Float F) (crates : Crates) (texts : Texts) where
  abbrev pub counted : Call F → Bytes → SignedBanRecord → Pass → Pass
  counted call =
      count_vote f crates texts call.now call.sender_id call.trust_manager call.peer_public_keys
        call.eligible

  abbrev pub handled : Call F → List SignedBanRecord → Pass → Pass
  handled call =
      handle_each f crates texts call.now call.sender_id call.trust_manager call.peer_public_keys
        call.eligible

  -- A call on an engine and the rate limiter.
  abbrev pub receive :
      Call F → GossipEngine × RateLimiter → (GossipEngine × RateLimiter) × Option GossipAction
  receive call =
      handle_ban_sync_filtered_with_policy f crates texts call.now call.records call.sender_id
        call.trust_manager call.ban_counts call.peer_public_keys call.eligible

  -- A run of calls, the latest first.
  unfoldable pub run : List (Call F) → GossipEngine × RateLimiter → GossipEngine × RateLimiter
  run [] s = s
  run (call ∷ calls) s = (receive call (run calls s)).0

  -- There is a quorum, and the decision is eligible.
  abbrev pub Decides : Call F → Votes → SignedBanRecord → Type 0
  Decides call votes signed =
      (should_enforce f call.trust_manager (map (λ (x : String × BanRecord). x.0) votes) ≡ true)
      × (call.eligible (decision votes signed) ≡ true)

  pub count_vote-cases :
      (call : Call F) (key : Bytes) (signed : SignedBanRecord) (p : Pass)
      → (counted call key signed p ≡ (vote (texts.to_string signed.ban.subject) signed p).0)
        ⊎ ((votes : Votes) × ((vote (texts.to_string signed.ban.subject) signed p).1 ≡ some votes)
            × Decides call votes signed
            × (counted call key signed p
                ≡ charge call.now call.sender_id key
                    (decision votes signed)
                    (vote (texts.to_string signed.ban.subject) signed p).0))
  unfolding count_vote
  count_vote-cases call key signed p =
      let voted = vote (texts.to_string signed.ban.subject) signed p in
      elim (Option-cases voted.1) [
        | inl refused ↦ inl (rw (count_vote, refused) refl)
        | inr (votes, cast) ↦
            let q =
              should_enforce f call.trust_manager (map (λ (x : String × BanRecord). x.0) votes) in
            let ok = call.eligible (decision votes signed) in
            elim (Bool-cases (q && ok)) [
              | inl both ↦ inr (votes, cast, ground (arith, both), rw (count_vote, cast, both) refl)
              | inr not_both ↦ inl (rw (count_vote, cast, not_both) refl)
            ]
      ]

  pub receive-cases :
      (call : Call F) (s : GossipEngine × RateLimiter)
      → (receive call s ≡ (s, none))
        ⊎ (let p = handled call call.records (start call.now s.0 s.1) in
            receive call s ≡ (
              (record s.0 { reports = p.reports; accepted = p.seen }, p.rate_limiter),
              if is_empty p.accepted then none else some (GossipAction.apply_bans p.accepted),
            ))
  unfolding handle_ban_sync_filtered_with_policy
  receive-cases call s = elim (Bool-cases (is_empty call.records)) [
    | inl nothing ↦ inl (if_true (is_empty call.records) _ _ nothing)
    | inr there ↦
        let q =
          is_quarantined f crates texts call.sender_id call.ban_counts (length call.records) in
        elim (Bool-cases q) [
          | inl barred ↦ inl (if_false (is_empty call.records) _ _ there ∙ if_true q _ _ barred)
          | inr free ↦ inr (if_false (is_empty call.records) _ _ there ∙ if_false q _ _ free)
        ]
  ]

  handle_record-preserves {ℓ} :
      (call : Call F) (P : Pass → Type ℓ) (signed : SignedBanRecord)
      → ((bs : List Bytes) (p : Pass) → P p → P (record p { batch_seen = bs }))
      → ((key : Bytes) (p : Pass)
          → is_stale call.now signed.ban ≡ false
          → is_authentic f crates texts call.peer_public_keys signed ≡ true
          → P p
          → P (counted call key signed p))
      → (p : Pass) → P p
      → P (handled call (signed ∷ []) p)
  unfolding handle_each handle_record
  handle_record-preserves call P signed mark step p h =
      elim (Bool-cases (is_stale call.now signed.ban)) [
        | inl stale ↦ subst P (sym (if_true (is_stale call.now signed.ban) _ _ stale)) h
        | inr live ↦
            subst P (sym (if_false (is_stale call.now signed.ban) _ _ live))
              (elim (Option-cases (admit_key f crates texts signed p)) [
                | inl seen ↦ rw (seen) h
                | inr (key, new) ↦
                    let marked = record p { batch_seen = key ∷ p.batch_seen } in
                    let h' = mark (key ∷ p.batch_seen) p h in
                    let sure = is_authentic f crates texts call.peer_public_keys signed in
                    rw (new) (elim (Bool-cases sure) [
                      | inl good ↦
                          subst P (sym (if_true sure _ _ good)) (step key marked live good h')
                      | inr bad ↦ subst P (sym (if_false sure _ _ bad)) h'
                    ])
              ])
      ]

  -- A predicate that every vote of an authentic record of the call keeps.
  pub handle_each-preserves {ℓ} :
      (call : Call F) (P : Pass → Type ℓ) (records : List SignedBanRecord)
      → ((bs : List Bytes) (p : Pass) → P p → P (record p { batch_seen = bs }))
      → ((key : Bytes) (signed : SignedBanRecord) (p : Pass)
          → In signed records
          → is_stale call.now signed.ban ≡ false
          → is_authentic f crates texts call.peer_public_keys signed ≡ true
          → P p
          → P (counted call key signed p))
      → (p : Pass) → P p
      → P (handled call records p)
  unfolding handle_each
  handle_each-preserves call P [] mark step p h = h
  handle_each-preserves call P (signed ∷ records) mark step p h =
      handle_each-preserves call P records mark (λ key s q i. step key s q (inr i))
        (handled call (signed ∷ []) p)
        (handle_record-preserves call P signed mark (λ key q. step key signed q (inl refl)) p h)
