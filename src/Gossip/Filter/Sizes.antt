-- ===== src/Gossip/Filter/Sizes.antt =====
-- How much the filter of received bans keeps.
use Prim.Native.String.{String}
use mathlib.Core.Path.{subst}
use hiveguard.Prelude.{
  ℕ, ◌+◌, ◌≤◌, ◌<◌, ◌≡◌, ◌⊎◌, inl, inr, refl, sym, ap, ◌∙◌, arith, Bool, true, false, not, ◌&&◌,
  ◌||◌, List, [], ◌∷◌, Option, none, some, length, leb, retain, is_empty, All, Bool-cases,
  Option-cases, if◌then◌else◌, if_true, if_false, length-retain, count-le-length, some_inj,
}
use hiveguard.Prelude.Eq.{string_eq}
use hiveguard.Prelude.Map.{
  HashMap, lookup, insert, is_some, length-insert, length-remove, insert-All, All-lookup,
}
use hiveguard.Models.{BanRecord}
use hiveguard.Crypto.{Bytes, bytes_eq}
use hiveguard.SignedRecord.{SignedBanRecord, Crates}
use hiveguard.AntiPoison.{RateLimiter, check_and_record}
use hiveguard.Trust.{Float}
use hiveguard.Gossip.{GossipEngine, GossipAction, Texts}
use hiveguard.Gossip.Filter.{
  Votes, limit, Pass, is_expired, prune_reports, total, votes_on, start, vote, oldest, make_room,
  charge, decision,
}
use hiveguard.Gossip
use hiveguard.Gossip.{GossipConfig}
use hiveguard.Gossip.Filter.Loop.{
  with_vote, vote-cases, Call, counted, receive, run, count_vote-cases, receive-cases,
  handle_each-preserves,
}

-- The limits on what an engine holds.
pub record IsSmall (reports : HashMap String Votes) (seen : HashMap Bytes ℕ) : Type 0 where
  pub subjects : length reports ≤ limit
  pub votes : total reports ≤ limit
  pub votes_each : All (λ x. length x.1 ≤ 64) reports
  pub messages : length seen ≤ limit

-- The same in the middle of a call.
record Bounded (p : Pass) : Type 0 where
  small : IsSmall p.reports p.seen
  counted : total p.reports ≡ p.report_count

total-insert :
    (s : String) (v : Votes) (m : HashMap String Votes)
    → total (insert s v m) + length (votes_on s m) ≡ total m + length v
unfolding total insert votes_on lookup
total-insert s v [] = omega arith
total-insert s v ((j, w) ∷ m) = ground (arith, total-insert s v m)

prune-small :
    (now : ℕ) (m : HashMap String Votes)
    → (length (prune_reports now m) ≤ length m) × (total (prune_reports now m) ≤ total m)
unfolding prune_reports total
prune-small now [] = (omega arith, omega arith)
prune-small now ((s, v) ∷ m) =
    let live = λ (x : String × BanRecord). not (is_expired now x.1) in
    ground (arith, prune-small now m, length-retain live v, count-le-length live v)

prune-votes_each :
    (now : ℕ) (m : HashMap String Votes)
    → All (λ x. length x.1 ≤ 64) m
    → All (λ x. length x.1 ≤ 64) (prune_reports now m)
unfolding prune_reports
prune-votes_each now [] h = tt
prune-votes_each now ((s, v) ∷ m) h =
    let live = λ (x : String × BanRecord). not (is_expired now x.1) in
    ground (arith, prune-votes_each now m h.1, length-retain live v, count-le-length live v)

start-Bounded :
    (now : ℕ) (e : GossipEngine) (rl : RateLimiter)
    → IsSmall e.reports e.accepted
    → Bounded (start now e rl)
unfolding start
start-Bounded now e rl h =
    let fresh = λ (x : Bytes × ℕ). hiveguard.Prelude.ltb now x.1 in
    record {
      small = record {
        subjects = omega (arith, prune-small now e.reports, h.subjects);
        votes = omega (arith, prune-small now e.reports, h.votes);
        votes_each = prune-votes_each now e.reports h.votes_each;
        messages =
            omega
              (arith, length-retain fresh e.accepted, count-le-length fresh e.accepted, h.messages);
      };
      counted = refl;
    }

-- The votes on a subject are replaced.
put-Bounded :
    (p : Pass) (subject : String) (v : Votes) (n : ℕ)
    → Bounded p
    → (is_some (lookup subject p.reports) ≡ true) ⊎ (length p.reports < limit)
    → length v ≤ 64
    → n + length (votes_on subject p.reports) ≡ p.report_count + length v
    → n ≤ limit
    → Bounded (record p { report_count = n; reports = insert subject v p.reports })
put-Bounded p subject v n b room few e le =
    let t = total-insert subject v p.reports in
    record {
      small = record {
        subjects = ground (arith, length-insert subject v p.reports, b.small.subjects, room);
        votes = omega (arith, t, e, b.counted, le);
        votes_each = insert-All (λ x. length x.1 ≤ 64) subject v p.reports few b.small.votes_each;
        messages = b.small.messages;
      };
      counted = omega (arith, t, e, b.counted);
    }

votes_on-few :
    (subject : String) (m : HashMap String Votes)
    → All (λ x. length x.1 ≤ 64) m
    → length (votes_on subject m) ≤ 64
unfolding votes_on
votes_on-few subject m h = elim (Option-cases (lookup subject m)) [
  | inl absent ↦ rw (votes_on, absent) (omega arith)
  | inr (v, there) ↦ rw (votes_on, there) (All-lookup (λ x. length x.1 ≤ 64) subject m h there)
]

vote-Bounded :
    (subject : String) (signed : SignedBanRecord) (p : Pass)
    → Bounded p
    → Bounded (vote subject signed p).0
vote-Bounded subject signed p b =
    let few = votes_on-few subject p.reports b.small.votes_each in
    elim (vote-cases subject signed p) [
      | inl e ↦ subst (λ q. Bounded q.0) (sym e) b
      | inr (inl (room, e)) ↦
          subst (λ q. Bounded q.0) (sym e)
            (put-Bounded p subject (votes_on subject p.reports) p.report_count b room few refl
              (omega (arith, b.counted, b.small.votes)))
      | inr (inr (room, n, c, e)) ↦
          subst (λ q. Bounded q.0) (sym e)
            (put-Bounded p subject (with_vote subject signed p) n b room (ground (arith, few, c))
              (ground (arith, c)) (ground (arith, c, b.counted, b.small.votes)))
    ]

oldest-present :
    (m : HashMap Bytes ℕ) (e : Bytes × ℕ) → oldest m ≡ some e → is_some (lookup e.0 m) ≡ true
unfolding oldest lookup bytes_eq
oldest-present [] e h = absurd (ground (arith, h))
oldest-present (g ∷ m) e h = elim (Option-cases (oldest m)) [
  | inl nothing ↦ first (some_inj (sym (rw (nothing) refl) ∙ h))
  | inr (k, found) ↦ elim (Bool-cases (leb g.1 k.1)) [
    | inl le ↦ first (some_inj (sym (rw (found, le) refl) ∙ h))
    | inr gt ↦
        later (oldest-present m e (found ∙ ap some (some_inj (sym (rw (found, gt) refl) ∙ h))))
  ]
]
  where
    first : g ≡ e → is_some (lookup e.0 (g ∷ m)) ≡ true
    first q = ap is_some (
        if_true (bytes_eq.beq g.0 e.0) _ _
          ((bytes_eq.beq_iff g.0 e.0).1 (ap (λ (x : Bytes × ℕ). x.0) q)))

    later : is_some (lookup e.0 m) ≡ true → is_some (lookup e.0 (g ∷ m)) ≡ true
    later q = ground (arith, q)

oldest-none : (m : HashMap Bytes ℕ) → oldest m ≡ none → length m ≡ 0
unfolding oldest
oldest-none [] h = refl
oldest-none (e ∷ m) h = absurd (elim (Option-cases (oldest m)) [
  | inl nothing ↦ ground (arith, h, nothing)
  | inr (g, found) ↦ ground (arith, h, found)
])

length-make_room : (m : HashMap Bytes ℕ) → length m ≤ limit → length (make_room m) < limit
unfolding make_room
length-make_room m h = elim (Option-cases (oldest m)) [
  | inl nothing ↦ rw (make_room, nothing) (ground (arith, oldest-none m nothing))
  | inr (e, found) ↦
      rw (make_room, found) (ground (arith, oldest-present m e found, length-remove e.0 m, h))
]

charge-Bounded :
    (now : ℕ) (sender : String) (key : Bytes) (r : BanRecord) (p : Pass)
    → Bounded p
    → Bounded (charge now sender key r p)
unfolding charge
charge-Bounded now sender key r p b =
    elim (Bool-cases (check_and_record now sender p.rate_limiter).1) [
      | inl allowed ↦
          rw (charge, allowed)
            (record {
              small = record {
                subjects = b.small.subjects;
                votes = b.small.votes;
                votes_each = b.small.votes_each;
                messages = ground (
                  arith,
                  length-insert key (now + 5000) (make_room p.seen),
                  length-make_room p.seen b.small.messages,
                );
              };
              counted = b.counted;
            })
      | inr slow ↦ rw (charge, slow) (record { small = b.small; counted = b.counted })
    ]

module _ {F : Type 0} (f : Float F) (crates : Crates) (texts : Texts) where
  count_vote-Bounded :
      (call : Call F) (key : Bytes) (signed : SignedBanRecord) (p : Pass)
      → Bounded p
      → Bounded (counted f crates texts call key signed p)
  count_vote-Bounded call key signed p b =
      let voted = vote-Bounded (texts.to_string signed.ban.subject) signed p b in
      elim (count_vote-cases f crates texts call key signed p) [
        | inl e ↦ subst Bounded (sym e) voted
        | inr (votes, cast, d, e) ↦ subst Bounded (sym e) (
            charge-Bounded call.now call.sender_id key (decision votes signed)
              (vote (texts.to_string signed.ban.subject) signed p).0 voted)
      ]

  receive-IsSmall :
      (call : Call F) (s : GossipEngine × RateLimiter)
      → IsSmall s.0.reports s.0.accepted
      → IsSmall
          (receive f crates texts call s).0.0.reports
          (receive f crates texts call s).0.0.accepted
  receive-IsSmall call s h = elim (receive-cases f crates texts call s) [
    | inl e ↦ subst (λ r. IsSmall r.0.0.reports r.0.0.accepted) (sym e) h
    | inr e ↦
        subst (λ r. IsSmall r.0.0.reports r.0.0.accepted) (sym e)
          (handle_each-preserves f crates texts call Bounded call.records
            (λ bs p b. record { small = b.small; counted = b.counted })
            (λ key signed p i live sure b. count_vote-Bounded call key signed p b)
            (start call.now s.0 s.1) (start-Bounded call.now s.0 s.1 h)).small
  ]

  -- Whatever peers send, and however often: an engine holds at most 8192 subjects, 64 votes on a
  -- subject, 8192 votes in all and 8192 digests of messages.
  pub run-IsSmall :
      (id : String) (config : GossipConfig) (rl : RateLimiter) (calls : List (Call F))
      → IsSmall
          (run f crates texts calls (Gossip.new id config, rl)).0.reports
          (run f crates texts calls (Gossip.new id config, rl)).0.accepted
  unfolding run Gossip.new total
  run-IsSmall id config rl [] = record {
    subjects = omega arith;
    votes = omega arith;
    votes_each = tt;
    messages = omega arith;
  }
  run-IsSmall id config rl (call ∷ calls) =
      receive-IsSmall call (run f crates texts calls (Gossip.new id config, rl))
        (run-IsSmall id config rl calls)
