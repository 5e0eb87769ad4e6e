-- ===== src/Gossip/Filter/Quorum.antt =====
-- What the filter of received bans lets through: decisions of a quorum.
use Prim.Native.String.{String}
use mathlib.Core.Path.{subst}
use hiveguard.Prelude.{
  ◌≤◌, ◌≡◌, inl, inr, refl, sym, ap, ◌∙◌, arith, true, false, List, [], ◌∷◌, Option, none, some,
  map, All, In, All-weaken, All-both, All-append, is_empty, Bool-cases, if◌then◌else◌,
}
use hiveguard.Prelude.Eq.{string_eq}
use hiveguard.Prelude.Map.{Distinct, lookup, is_some}
use hiveguard.Crypto.{Bytes}
use hiveguard.Models.{BanRecord, BanSource}
use hiveguard.SignedRecord.{SignedBanRecord, Crates}
use hiveguard.AntiPoison.{RateLimiter, check_and_record}
use hiveguard.Trust.{Float, should_enforce}
use hiveguard.Gossip
use hiveguard.Gossip.{GossipConfig, GossipEngine, GossipAction, Texts}
use hiveguard.Gossip.Filter.{
  Votes, Pass, is_relayed, is_expired, is_stale, start, vote, decision, charge, is_authentic,
}
use hiveguard.Gossip.Filter.Loop.{
  Decides, Call, counted, handled, receive, run, count_vote-cases, receive-cases,
  handle_each-preserves,
}
use hiveguard.Gossip.Filter.Minimum.{Within, minimum-le, minimum-Within}
use hiveguard.Gossip.Filter.Backing.{Cast, Backed, Live, prune-Live, vote-Outcome}

-- The bans of an answer that has some.
applied_inj :
    (accepted bans : List BanRecord)
    → (if is_empty accepted then none else some (GossipAction.apply_bans accepted))
      ≡ some (GossipAction.apply_bans bans)
    → accepted ≡ bans
applied_inj [] bans h = absurd (ground (arith, h))
applied_inj (a ∷ as1) bans h = ap list_of h
  where
    list_of : Option GossipAction → List BanRecord
    list_of (some (GossipAction.apply_bans l)) = l
    list_of _ = []

module _ {F : Type 0} (f : Float F) (crates : Crates) (texts : Texts) where
  -- A vote for a ban: its signer sent it itself, it has not expired, and it asks for as much, a ban
  -- that is as late, as severe and as long.
  abbrev pub Supports : Call F → List (Call F) → BanRecord → String × BanRecord → Type 0
  Supports call calls r x =
      Cast f crates texts calls x.0 x.1
      × (is_expired call.now x.1 ≡ false)
      × (x.1.subject ≡ r.subject)
      × (r.created_at ≤ x.1.created_at)
      × (r.severity ≤ x.1.severity)
      × Within r.expires_at x.1.expires_at

  -- A ban that a quorum of different nodes supports, with its source among them.
  pub record IsDecision (call : Call F) (calls : List (Call F)) (r : BanRecord) : Type 0 where
    pub votes : Votes
    pub distinct : Distinct votes
    pub supported : All (Supports call calls r) votes
    pub quorum :
        should_enforce f call.trust_manager (map (λ (x : String × BanRecord). x.0) votes) ≡ true
    pub eligible : call.eligible r ≡ true
    pub signer : String
    pub from_signer : r.source ≡ BanSource.cluster_peer signer
    pub among : is_some (lookup signer votes) ≡ true

  record Sound (call : Call F) (calls : List (Call F)) (p : Pass) : Type 0 where
    live : All (Live f crates texts calls call.now) p.reports
    decided : All (IsDecision call calls) p.accepted

  decision-IsDecision :
      (call : Call F) (calls : List (Call F)) (signed : SignedBanRecord) (votes : Votes)
      → Live f crates texts calls call.now (texts.to_string signed.ban.subject, votes)
      → is_some (lookup signed.signer_id votes) ≡ true
      → Decides f crates texts call votes signed
      → IsDecision call calls (decision votes signed)
  unfolding decision
  decision-IsDecision call calls signed votes h among d = record {
    votes = votes;
    distinct = h.0.0;
    supported =
        All-weaken _ _ votes
          (λ x e. (e.0.0.0, e.0.1, texts.to_string-inj _ _ (e.0.0.1), e.1.0, e.1.1.0, e.1.1.1))
          (All-both _ _ votes (All-both _ _ votes h.0.1 h.1) (
            All-both _ _ votes
              (minimum-le (λ (r : BanRecord). r.created_at) signed.ban.created_at votes)
              (All-both _ _ votes
                (minimum-le (λ (r : BanRecord). r.severity) signed.ban.severity votes)
                (minimum-Within votes))));
    quorum = d.0;
    eligible = d.1;
    signer = signed.signer_id;
    from_signer = refl;
    among = among;
  }

  charge-Sound :
      (call : Call F) (calls : List (Call F)) (key : Bytes) (r : BanRecord) (p : Pass)
      → IsDecision call calls r
      → Sound call calls p
      → Sound call calls (charge call.now call.sender_id key r p)
  unfolding charge
  charge-Sound call calls key r p d s =
      elim (Bool-cases (check_and_record call.now call.sender_id p.rate_limiter).1) [
        | inl allowed ↦
            rw (charge, allowed)
              (record {
                live = s.live;
                decided = All-append (IsDecision call calls) p.accepted (r ∷ []) s.decided (d, tt);
              })
        | inr slow ↦ rw (charge, slow) (record { live = s.live; decided = s.decided })
      ]

  count_vote-Sound :
      (call : Call F) (calls : List (Call F)) (key : Bytes) (signed : SignedBanRecord) (p : Pass)
      → In signed call.records
      → is_stale call.now signed.ban ≡ false
      → is_authentic f crates texts call.peer_public_keys signed ≡ true
      → Sound call (call ∷ calls) p
      → Sound call (call ∷ calls) (counted f crates texts call key signed p)
  unfolding is_stale
  count_vote-Sound call calls key signed p i live sure s =
      let direct : is_relayed signed.ban.source ≡ false = ground (arith, live) in
      let unexpired : is_expired call.now signed.ban ≡ false = ground (arith, live) in
      let c : Cast f crates texts (call ∷ calls) signed.signer_id signed.ban =
        inl (signed, i, refl, refl, sure, direct) in
      let o = vote-Outcome f crates texts (call ∷ calls) call.now signed p c unexpired s.live in
      let voted : Sound call (call ∷ calls) (vote (texts.to_string signed.ban.subject) signed p).0 =
        record {
          live = o.0;
          decided = subst (All (IsDecision call (call ∷ calls))) (sym o.1) s.decided;
        } in
      elim (count_vote-cases f crates texts call key signed p) [
        | inl e ↦ subst (Sound call (call ∷ calls)) (sym e) voted
        | inr (votes, cast, d, e) ↦
            let l = o.2 votes cast in
            subst (Sound call (call ∷ calls)) (sym e) (
              charge-Sound call (call ∷ calls) key (decision votes signed) _
                (decision-IsDecision call (call ∷ calls) signed votes l.0 l.1 d) voted)
      ]

  -- The pass at the end of a call.
  handled-Sound :
      (call : Call F) (calls : List (Call F)) (s : GossipEngine × RateLimiter)
      → All (Backed f crates texts calls) s.0.reports
      → Sound call
          (call ∷ calls)
          (handled f crates texts call call.records (start call.now s.0 s.1))
  unfolding start
  handled-Sound call calls s h =
      let later : All (Backed f crates texts (call ∷ calls)) s.0.reports =
        All-weaken _ _ s.0.reports (λ e b. (b.0, All-weaken _ _ e.1 (λ x c. (inr c.0, c.1)) b.1))
          h in
      handle_each-preserves f crates texts call (Sound call (call ∷ calls)) call.records
        (λ bs p b. record { live = b.live; decided = b.decided })
        (λ key signed p. count_vote-Sound call calls key signed p) (start call.now s.0 s.1)
        (record {
          live = prune-Live f crates texts (call ∷ calls) call.now s.0.reports later;
          decided = tt;
        })

  run-Backed :
      (id : String) (config : GossipConfig) (rl : RateLimiter) (calls : List (Call F))
      → All
          (Backed f crates texts calls)
          (run f crates texts calls (Gossip.new id config, rl)).0.reports
  unfolding run Gossip.new
  run-Backed id config rl [] = tt
  run-Backed id config rl (call ∷ calls) =
      let s = run f crates texts calls (Gossip.new id config, rl) in
      let h = run-Backed id config rl calls in
      elim (receive-cases f crates texts call s) [
        | inl e ↦
            subst (λ r. All (Backed f crates texts (call ∷ calls)) r.0.0.reports) (sym e)
              (All-weaken _ _ s.0.reports
                (λ e b. (b.0, All-weaken _ _ e.1 (λ x c. (inr c.0, c.1)) b.1)) h)
        | inr e ↦
            subst (λ r. All (Backed f crates texts (call ∷ calls)) r.0.0.reports) (sym e)
              (All-weaken _ _ _ (λ e l. l.0) (handled-Sound call calls s h).live)
      ]

  -- Whatever peers send: every ban that a call of the filter lets through is eligible and was decided
  -- by different nodes whose trust reaches the threshold. Each of them sent, in this call or an
  -- earlier one, a record under its own signature and not relayed, which has not expired and is on
  -- the same network, and the ban is no more recent, no more severe and no longer than that record.
  pub run_decides :
      (id : String) (config : GossipConfig) (rl : RateLimiter) (calls : List (Call F))
      (call : Call F) (bans : List BanRecord)
      → (receive f crates texts call (run f crates texts calls (Gossip.new id config, rl))).1
        ≡ some (GossipAction.apply_bans bans)
      → All (IsDecision call (call ∷ calls)) bans
  run_decides id config rl calls call bans h =
      let s = run f crates texts calls (Gossip.new id config, rl) in
      let sound = (handled-Sound call calls s (run-Backed id config rl calls)).decided in
      elim (receive-cases f crates texts call s) [
        | inl e ↦ absurd (ground (arith, sym (ap (λ r. r.1) e) ∙ h))
        | inr e ↦
            subst (All (IsDecision call (call ∷ calls)))
              (applied_inj _ bans (sym (ap (λ r. r.1) e) ∙ h)) sound
      ]
