-- ===== src/Gossip/Filter.antt =====
-- hiveguard-net/src/gossip.rs: `handle_ban_sync_filtered_with_policy`, the filter of the bans that a
-- peer sends. `now` stands for every reading of the clock during a call.
pub mod Loop
pub mod Sizes
pub mod Minimum
pub mod Backing
pub mod Quorum
use Prim.Native.String.{String}
use hiveguard.Prelude.{
  ℕ, ◌+◌, ◌*◌, Bool, true, false, not, ◌&&◌, ◌||◌, List, [], ◌∷◌, ◌++◌, map, Option, none, some,
  length, leb, ltb, ◌==◌, any, retain, is_empty, if◌then◌else◌,
}
use hiveguard.Prelude.Eq.{string_eq}
use hiveguard.Prelude.Map.{HashMap, lookup, insert, remove, is_some}
use hiveguard.Models.{BanRecord, BanSource}
use hiveguard.Errors.{Result, ok, err}
use hiveguard.Crypto.{Bytes, bytes_eq, bytes_beq}
use hiveguard.SignedRecord.{SignedBanRecord, Crates, verify}
use hiveguard.AntiPoison.{RateLimiter, check_and_record, check_quarantine, median}
use hiveguard.Trust.{Float, TrustManager, should_enforce}
use hiveguard.Gossip.{GossipEngine, GossipAction, Texts}

abbrev pub Votes : Type 0
Votes = HashMap String BanRecord

abbrev pub limit : ℕ
limit = 8192

-- What the loop over the records changes.
pub record Pass : Type 0 where
  pub reports : HashMap String Votes
  pub report_count : ℕ
  pub seen : HashMap Bytes ℕ
  pub batch_seen : List Bytes
  pub rate_limiter : RateLimiter
  pub accepted : List BanRecord

abbrev pub is_relayed : BanSource → Bool
is_relayed (BanSource.cluster_peer _) = true
is_relayed _ = false

abbrev pub is_expired : ℕ → BanRecord → Bool
is_expired now r = elim r.expires_at [ none ↦ false | some expiry ↦ leb expiry now ]

unfoldable pub is_stale : ℕ → BanRecord → Bool
is_stale now r = is_relayed r.source || is_expired now r

-- The two `retain`s.
unfoldable pub prune_reports : ℕ → HashMap String Votes → HashMap String Votes
prune_reports now [] = []
prune_reports now ((subject, votes) ∷ m) =
    let kept = retain (λ (x : String × BanRecord). not (is_expired now x.1)) votes in
    let rest = prune_reports now m in if is_empty kept then rest else (subject, kept) ∷ rest

-- The number of votes.
unfoldable pub total : HashMap String Votes → ℕ
total [] = 0
total ((subject, votes) ∷ m) = length votes + total m

-- `votes` of a subject, none if it has no entry.
unfoldable pub votes_on : String → HashMap String Votes → Votes
votes_on subject m = elim (lookup subject m) [ none ↦ [] | some votes ↦ votes ]

unfoldable pub start : ℕ → GossipEngine → RateLimiter → Pass
start now engine rl =
    let reports = prune_reports now engine.reports in
    record {
      reports = reports;
      report_count = total reports;
      seen = retain (λ (x : Bytes × ℕ). ltb now x.1) engine.accepted;
      batch_seen = [];
      rate_limiter = rl;
      accepted = [];
    }

-- `(old.created_at, old.expires_at) > (new.created_at, new.expires_at)`
unfoldable pub is_newer : BanRecord → BanRecord → Bool
is_newer old new =
    if ltb new.created_at old.created_at
    then true
    else if old.created_at == new.created_at
    then elim old.expires_at [
      | none ↦ false
      | some e ↦ elim new.expires_at [ none ↦ true | some e' ↦ ltb e' e ]
    ]
    else false

-- The vote of a signer on a subject is counted, within the limits. A subject without a vote can be
-- left behind when there are too many votes.
unfoldable pub vote : String → SignedBanRecord → Pass → Pass × Option Votes
vote subject signed p =
    if not (is_some (lookup subject p.reports)) && leb limit (length p.reports)
    then (p, none)
    else (let votes = votes_on subject p.reports in
        let opened = record p { reports = insert subject votes p.reports } in
        let votes' = insert signed.signer_id signed.ban votes in
        elim (lookup signed.signer_id votes) [
          | none ↦ if leb limit p.report_count || leb 64 (length votes) then (opened, none) else (
            record p {
              report_count = p.report_count + 1;
              reports = insert subject votes' p.reports;
            },
            some votes',
          )
          | some old ↦
              if is_newer old signed.ban
              then (opened, none)
              else (record p { reports = insert subject votes' p.reports }, some votes')
        ])

-- `Iterator::min`
unfoldable pub min_from : ℕ → List ℕ → ℕ
min_from a [] = a
min_from a (b ∷ bs) = min_from (if leb a b then a else b) bs

unfoldable pub minimum : List ℕ → Option ℕ
minimum [] = none
minimum (a ∷ as1) = some (min_from a as1)

unfoldable pub expiries : Votes → List ℕ
expiries [] = []
expiries ((signer, r) ∷ votes) =
    let rest = expiries votes in elim r.expires_at [ none ↦ rest | some e ↦ e ∷ rest ]

abbrev pub or_else : Option ℕ → ℕ → ℕ
or_else none d = d
or_else (some a) d = a

-- What the votes agree on.
unfoldable pub decision : Votes → SignedBanRecord → BanRecord
decision votes signed = record signed.ban {
  created_at =
      or_else (minimum (map (λ (x : String × BanRecord). x.1.created_at) votes))
        signed.ban.created_at;
  expires_at = minimum (expiries votes);
  severity =
      or_else (minimum (map (λ (x : String × BanRecord). x.1.severity) votes)) signed.ban.severity;
  source = BanSource.cluster_peer signed.signer_id;
}

-- `min_by_key`: the first of the entries that expire first.
unfoldable pub oldest : HashMap Bytes ℕ → Option (Bytes × ℕ)
oldest [] = none
oldest (e ∷ m) = elim (oldest m) [ none ↦ some e | some g ↦ if leb e.1 g.1 then some e else some g ]

unfoldable pub make_room : HashMap Bytes ℕ → HashMap Bytes ℕ
make_room seen =
    if leb limit (length seen)
    then elim (oldest seen) [ none ↦ seen | some e ↦ remove e.0 seen ]
    else seen

-- The decision is charged to the sender, and accepted if that is within its rate.
unfoldable pub charge : ℕ → String → Bytes → BanRecord → Pass → Pass
charge now sender_id key r p =
    let limited = check_and_record now sender_id p.rate_limiter in
    if limited.1
    then record p {
      rate_limiter = limited.0;
      seen = insert key (now + 5000) (make_room p.seen);
      accepted = p.accepted ++ (r ∷ []);
    }
    else record p { rate_limiter = limited.0 }

module _ {F : Type 0} (f : Float F) (crates : Crates) (texts : Texts) where
  -- The digest of a message that is not too long and was not seen.
  unfoldable pub admit_key : SignedBanRecord → Pass → Option Bytes
  admit_key signed p = elim (crates.serialize_signed signed) [
    | none ↦ none
    | some encoded ↦
        let key = crates.blake3.hash encoded in
        if ltb (16 * 1024) (length encoded)
        then none
        else if is_some (lookup key p.seen) || any (bytes_beq key) p.batch_seen
        then none
        else some key
  ]

  unfoldable pub is_authentic : HashMap String Bytes → SignedBanRecord → Bool
  is_authentic peer_public_keys signed = elim (lookup signed.signer_id peer_public_keys) [
    | none ↦ false
    | some pub_key ↦ elim (verify crates pub_key signed) [ ok _ ↦ true | err _ ↦ false ]
  ]

  module _ (now : ℕ) (sender_id : String) (trust_manager : TrustManager F)
      (peer_public_keys : HashMap String Bytes) (eligible : BanRecord → Bool) where
    -- An authentic record: its vote, and the decision if there is a quorum.
    unfoldable pub count_vote : Bytes → SignedBanRecord → Pass → Pass
    count_vote key signed p =
        let voted = vote (texts.to_string signed.ban.subject) signed p in
        elim voted.1 [
          | none ↦ voted.0
          | some votes ↦
              if should_enforce f trust_manager (map (λ (x : String × BanRecord). x.0) votes)
                && eligible (decision votes signed)
              then charge now sender_id key (decision votes signed) voted.0
              else voted.0
        ]

    unfoldable pub handle_record : SignedBanRecord → Pass → Pass
    handle_record signed p = if is_stale now signed.ban then p else elim (admit_key signed p) [
      | none ↦ p
      | some key ↦
          let marked = record p { batch_seen = key ∷ p.batch_seen } in
          if is_authentic peer_public_keys signed then count_vote key signed marked else marked
    ]

    unfoldable pub handle_each : List SignedBanRecord → Pass → Pass
    handle_each [] p = p
    handle_each (signed ∷ records) p = handle_each records (handle_record signed p)

  unfoldable pub is_quarantined : String → HashMap String ℕ → ℕ → Bool
  is_quarantined sender_id ban_counts len =
      let counts =
        map (λ (x : String × ℕ). x.1)
          (retain (λ (x : String × ℕ). not (string_eq.beq x.0 sender_id)) ban_counts) in
      not (is_empty counts)
      && check_quarantine (or_else (lookup sender_id ban_counts) 0 + len) (median counts)

  unfoldable pub handle_ban_sync_filtered_with_policy :
      ℕ
      → List SignedBanRecord
      → String
      → TrustManager F
      → HashMap String ℕ
      → HashMap String Bytes
      → (BanRecord → Bool)
      → GossipEngine × RateLimiter
      → (GossipEngine × RateLimiter) × Option GossipAction
  handle_ban_sync_filtered_with_policy now records sender_id tm ban_counts keys eligible s =
      if is_empty records
      then (s, none)
      else if is_quarantined sender_id ban_counts (length records)
      then (s, none)
      else (let p = handle_each now sender_id tm keys eligible records (start now s.0 s.1) in
          (
            (record s.0 { reports = p.reports; accepted = p.seen }, p.rate_limiter),
            if is_empty p.accepted then none else some (GossipAction.apply_bans p.accepted),
          ))

  unfoldable pub handle_ban_sync_filtered :
      ℕ
      → List SignedBanRecord
      → String
      → TrustManager F
      → HashMap String ℕ
      → HashMap String Bytes
      → GossipEngine × RateLimiter
      → (GossipEngine × RateLimiter) × Option GossipAction
  handle_ban_sync_filtered now records sender_id tm ban_counts keys =
      handle_ban_sync_filtered_with_policy now records sender_id tm ban_counts keys (λ _. true)
