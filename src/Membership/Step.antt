-- ===== src/Membership/Step.antt =====
-- What one round of `check_timeouts` can do to a peer.
use Prim.Native.String.{String}
use mathlib.Core.Path.{subst}
use hiveguard.Prelude.{
  ℕ, ◌-◌, ◌≤◌, ◌≡◌, refl, sym, ap, ◌∙◌, arith, true, ◌⊎◌, inl, inr, List, none, some, filter, leb,
  some_inj,
}
use hiveguard.Prelude.Eq.{string_eq}
use hiveguard.Peers.{PeerState, PeerInfo, PeerManager, is_suspect, is_dead, all_peers}
use hiveguard.Membership.{SwimMembership, Rng, check_pings, bury, expel, check_timeouts}
use hiveguard.Membership.Peers.{IsKeyed, peer, listed}
use hiveguard.Membership.Rounds.{
  Kept, check_pings-Kept, check_pings-IsKeyed, Overdue, bury_one, bury-IsKeyed, expel_one,
}

some-none {ℓ} : {A : Type ℓ} {a : A} → some a ≡ none → ⊥
some-none h = ground (arith, h)

dead_of : (s : PeerState) → is_dead s ≡ true → s ≡ PeerState.dead
dead_of PeerState.dead h = refl
dead_of PeerState.alive h = absurd (ground (arith, h))
dead_of PeerState.suspect h = absurd (ground (arith, h))

state_of : PeerInfo → PeerState
state_of p = p.state

last_seen_of : PeerInfo → ℕ
last_seen_of p = p.last_seen

module _ (rng : Rng) (now : ℕ) (swim : SwimMembership) (pm : PeerManager) (id : String)
    (k : IsKeyed pm) (s_pos : 1 ≤ swim.config.suspect_timeout)
    (d_pos : 1 ≤ swim.config.dead_timeout) where
  pinged : PeerManager
  pinged = (check_pings rng now swim swim.pending_pings pm).peers

  suspects : List PeerInfo
  suspects = filter (λ p. is_suspect p.state) (all_peers pinged)

  buried : PeerManager
  buried = (bury now swim.config.suspect_timeout suspects pinged).0

  corpses : List PeerInfo
  corpses = filter (λ p. is_dead p.state) (all_peers buried)

  pinged_one : Kept id now PeerState.suspect pm pinged
  unfolding pinged
  pinged_one = check_pings-Kept rng now swim id swim.pending_pings pm

  pinged-IsKeyed : IsKeyed pinged
  unfolding pinged
  pinged-IsKeyed = check_pings-IsKeyed rng now swim swim.pending_pings pm k

  buried-IsKeyed : IsKeyed buried
  unfolding buried
  buried-IsKeyed = bury-IsKeyed id now swim.config.suspect_timeout suspects pinged pinged-IsKeyed

  -- A peer that is buried was a suspect before the round.
  was_suspect :
      (p : PeerInfo)
      → peer id pm ≡ some p
      → Overdue id now swim.config.suspect_timeout suspects
      → is_suspect p.state ≡ true
  unfolding suspects last_seen_of
  was_suspect p e over =
      let (q, there, late, susp) =
        listed id (λ q. leb swim.config.suspect_timeout (now - q.last_seen))
          (λ q. is_suspect q.state) pinged pinged-IsKeyed over in
      elim pinged_one [
        | inl same ↦
            let f : p ≡ q = some_inj (sym e ∙ sym same ∙ there) in
            subst (λ x. is_suspect x.state ≡ true) (sym f) susp
        | inr (r, here, moved) ↦
            let q_now : q.last_seen ≡ now = ap last_seen_of (some_inj (sym there ∙ moved)) in
            absurd (ground (arith, late, q_now, s_pos))
      ]

  was_dead :
      (p : PeerInfo)
      → peer id pm ≡ some p
      → Overdue id now swim.config.dead_timeout corpses
      → (is_dead p.state ≡ true) × (swim.config.dead_timeout ≤ now - p.last_seen)
  unfolding corpses buried last_seen_of state_of
  was_dead p e over =
      let (q, there, late, gone) =
        listed id (λ q. leb swim.config.dead_timeout (now - q.last_seen)) (λ q. is_dead q.state)
          buried buried-IsKeyed over in
      elim (bury_one id now swim.config.suspect_timeout suspects pinged) [
        | inr (again, (r, here, moved)) ↦
            let q_now : q.last_seen ≡ now = ap last_seen_of (some_inj (sym there ∙ moved)) in
            absurd (ground (arith, late, q_now, d_pos))
        | inl same ↦ elim pinged_one [
          | inl same2 ↦
              let f : p ≡ q = some_inj (sym e ∙ sym same2 ∙ sym same ∙ there) in
              (
                subst (λ x. is_dead x.state ≡ true) (sym f) gone,
                subst (λ x. swim.config.dead_timeout ≤ now - x.last_seen) (sym f)
                    (ground (arith, late)),
              )
          | inr (r, here, moved) ↦
              let q_suspect : q.state ≡ PeerState.suspect =
                ap state_of (some_inj (sym there ∙ same ∙ moved)) in
              absurd (ground (arith, gone, ap is_dead q_suspect))
        ]
      ]

  after : PeerManager
  after = (expel now swim.config.dead_timeout corpses buried).0

  buried_known : (p : PeerInfo) → peer id pm ≡ some p → peer id buried ≡ none → ⊥
  unfolding buried
  buried_known p e h = elim (bury_one id now swim.config.suspect_timeout suspects pinged) [
    | inr (over, (r, here, moved)) ↦ some-none (sym moved ∙ h)
    | inl same ↦ elim pinged_one [
      | inl same2 ↦ some-none (sym e ∙ sym same2 ∙ sym same ∙ h)
      | inr (r, here, moved) ↦ some-none (sym moved ∙ sym same ∙ h)
    ]
  ]

  gone_was_dead :
      (p : PeerInfo)
      → peer id pm ≡ some p
      → peer id after ≡ none
      → (is_dead p.state ≡ true) × (swim.config.dead_timeout ≤ now - p.last_seen)
  unfolding after
  gone_was_dead p e h =
      elim (expel_one id now swim.config.dead_timeout corpses buried buried-IsKeyed) [
        | inr (over, out) ↦ was_dead p e over
        | inl same ↦ absurd (buried_known p e (sym same ∙ h))
      ]

  dead_was_suspect :
      (p q : PeerInfo)
      → peer id pm ≡ some p
      → peer id after ≡ some q
      → is_dead q.state ≡ true
      → (is_suspect p.state ≡ true) ⊎ (is_dead p.state ≡ true)
  unfolding after buried state_of
  dead_was_suspect p q e h d =
      elim (expel_one id now swim.config.dead_timeout corpses buried buried-IsKeyed) [
        | inr (over, out) ↦ absurd (some-none (sym h ∙ out))
        | inl same ↦ elim (bury_one id now swim.config.suspect_timeout suspects pinged) [
          | inr (over, moved) ↦ inl (was_suspect p e over)
          | inl same1 ↦ elim pinged_one [
            | inl same2 ↦
                let f : p ≡ q = some_inj (sym e ∙ sym same2 ∙ sym same1 ∙ sym same ∙ h) in
                inr (subst (λ x. is_dead x.state ≡ true) (sym f) d)
            | inr (r, here, moved) ↦
                let q_suspect : q.state ≡ PeerState.suspect =
                  ap state_of (some_inj (sym h ∙ same ∙ same1 ∙ moved)) in
                absurd (ground (arith, d, ap is_dead q_suspect))
          ]
        ]
      ]

-- In one round, on peers that stand under their names, a peer disappears only if it was dead when the
-- round began and had been silent for the timeout of the dead. The timeouts must not be 0.
pub check_timeouts_removal :
    (rng : Rng) (now : ℕ) (swim : SwimMembership) (pm : PeerManager) (id : String) (p : PeerInfo)
    → IsKeyed pm
    → 1 ≤ swim.config.suspect_timeout
    → 1 ≤ swim.config.dead_timeout
    → peer id pm ≡ some p
    → peer id (check_timeouts rng now swim pm).0.1 ≡ none
    → (p.state ≡ PeerState.dead) × (swim.config.dead_timeout ≤ now - p.last_seen)
unfolding check_timeouts after buried pinged suspects corpses
check_timeouts_removal rng now swim pm id p k s d e h =
    let (gone, late) = gone_was_dead rng now swim pm id k s d p e h in (dead_of p.state gone, late)

-- In one round a peer that was alive when the round began is not dead at its end: it passes through
-- suspicion, and only a later round declares it dead. The timeouts must not be 0.
pub check_timeouts_burial :
    (rng : Rng) (now : ℕ) (swim : SwimMembership) (pm : PeerManager) (id : String) (p q : PeerInfo)
    → IsKeyed pm
    → 1 ≤ swim.config.suspect_timeout
    → 1 ≤ swim.config.dead_timeout
    → peer id pm ≡ some p
    → p.state ≡ PeerState.alive
    → peer id (check_timeouts rng now swim pm).0.1 ≡ some q
    → ¬ (q.state ≡ PeerState.dead)
unfolding check_timeouts after buried pinged suspects corpses
check_timeouts_burial rng now swim pm id p q k s d e alive h dead =
    elim (dead_was_suspect rng now swim pm id k s d p q e h (ap is_dead dead)) [
      | inl susp ↦ absurd (ground (arith, susp, ap is_suspect alive))
      | inr gone ↦ absurd (ground (arith, gone, ap is_dead alive))
    ]
