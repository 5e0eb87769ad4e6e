-- ===== src/Membership/Rounds.antt =====
-- One round of `check_timeouts` against the state of one peer.
use Prim.Native.String.{String}
use mathlib.Core.Path.{subst}
use hiveguard.Prelude.{
  ℕ, ◌-◌, ◌*◌, ◌≡◌, refl, sym, ap, ◌∙◌, arith, true, ◌&&◌, ◌⊎◌, inl, inr, List, [], ◌∷◌, none, some,
  any, leb, Bool-cases, some_inj, is_empty, not,
}
use hiveguard.Prelude.Eq.{string_eq}
use hiveguard.Peers.{PeerState, PeerInfo, PeerManager, update_peer_state, remove_peer}
use hiveguard.Membership.{
  SwimMembership, PendingPing, Rng, give_up, via_peers, check_ping, check_pings, bury, expel,
}
use hiveguard.Membership.Peers.{
  IsKeyed, peer, Moved, update-IsKeyed, update_one, remove-IsKeyed, remove_one,
}

-- A loop left the peer as it was, or moved it.
abbrev pub Kept : String → ℕ → PeerState → PeerManager → PeerManager → Type 0
Kept id now state pm after = (peer id after ≡ peer id pm) ⊎ Moved id now state pm after

Kept-trans :
    (id : String) (now : ℕ) (state : PeerState) (a b c : PeerManager)
    → Kept id now state a b
    → Kept id now state b c
    → Kept id now state a c
Kept-trans id now state a b c (inl e) (inl f) = inl (f ∙ e)
Kept-trans id now state a b c (inl e) (inr (p, here, there)) = inr (p, sym e ∙ here, there)
Kept-trans id now state a b c (inr (p, here, there)) (inl f) = inr (p, here, f ∙ there)
Kept-trans id now state a b c (inr (p, here, there)) (inr (q, on, over)) =
    let p' : PeerInfo = record p { state = state; last_seen = now } in
    let e : p' ≡ q = some_inj (sym there ∙ on) in
    inr (
      p,
      here,
      over ∙ ap {A = PeerInfo} (λ x. some (record x { state = state; last_seen = now })) (sym e),
    )

module _ (rng : Rng) (now : ℕ) (swim : SwimMembership) where
  give_up-Kept :
      (id : String) (p : PendingPing) (pm : PeerManager)
      → Kept id now PeerState.suspect pm (give_up now p pm).peers
  unfolding give_up
  give_up-Kept id p pm = elim (update_one now p.target_id id PeerState.suspect pm) [
    | inl e ↦ inl e
    | inr (same, moved) ↦ inr moved
  ]

  -- The two ways a round leaves the peers after one ping.
  check_ping-peers :
      (p : PendingPing) (pm : PeerManager)
      → ((check_ping rng now swim p pm).peers ≡ (give_up now p pm).peers)
        ⊎ ((check_ping rng now swim p pm).peers ≡ pm)
  unfolding check_ping
  check_ping-peers p pm =
      elim (Bool-cases (not p.indirect_sent && leb swim.config.ping_timeout (now - p.sent_at))) [
        | inl direct ↦ elim (Bool-cases (is_empty (via_peers rng p swim pm))) [
          | inl alone ↦ inl (rw (check_ping, direct) (rw (check_ping, alone) refl))
          | inr helped ↦ inr (rw (check_ping, direct) (rw (check_ping, helped) refl))
        ]
        | inr not_direct ↦
            elim (Bool-cases
              (p.indirect_sent && leb (swim.config.ping_timeout * 2) (now - p.sent_at))) [
                | inl gone ↦ inl (rw (check_ping, not_direct) (rw (check_ping, gone) refl))
                | inr waits ↦ inr (rw (check_ping, not_direct) (rw (check_ping, waits) refl))
              ]
      ]

  pub check_pings-Kept :
      (id : String) (ps : List PendingPing) (pm : PeerManager)
      → Kept id now PeerState.suspect pm (check_pings rng now swim ps pm).peers
  unfolding check_pings
  check_pings-Kept id [] pm = inl refl
  check_pings-Kept id (p ∷ ps) pm =
      let next = (check_ping rng now swim p pm).peers in
      Kept-trans id now PeerState.suspect pm next (check_pings rng now swim ps next).peers
        (elim (check_ping-peers p pm) [
          | inl e ↦ subst (Kept id now PeerState.suspect pm) (sym e) (give_up-Kept id p pm)
          | inr e ↦ inl (ap (peer id) e)
        ])
        (check_pings-Kept id ps next)

  pub check_pings-IsKeyed :
      (ps : List PendingPing) (pm : PeerManager)
      → IsKeyed pm
      → IsKeyed (check_pings rng now swim ps pm).peers
  unfolding check_pings give_up
  check_pings-IsKeyed [] pm k = k
  check_pings-IsKeyed (p ∷ ps) pm k =
      check_pings-IsKeyed ps (check_ping rng now swim p pm).peers (elim (check_ping-peers p pm) [
        | inl e ↦ subst IsKeyed (sym e) (update-IsKeyed now p.target_id PeerState.suspect pm k)
        | inr e ↦ subst IsKeyed (sym e) k
      ])

module _ (id : String) (now timeout : ℕ) where
  -- One of the listed peers bears the name and is overdue.
  abbrev pub Overdue : List PeerInfo → Type 0
  Overdue ps = any (λ p. string_eq.beq p.node_id id && leb timeout (now - p.last_seen)) ps ≡ true

  Moved-then :
      (ps : List PeerInfo) (pm next : PeerManager)
      → Moved id now PeerState.dead pm next
      → (peer id (bury now timeout ps next).0 ≡ peer id next)
        ⊎ (Overdue ps × Moved id now PeerState.dead next (bury now timeout ps next).0)
      → Moved id now PeerState.dead pm (bury now timeout ps next).0
  Moved-then ps pm next (p, here, there) (inl e) = (p, here, e ∙ there)
  Moved-then ps pm next (p, here, there) (inr (over, (q, on, final))) =
      let p' : PeerInfo = record p { state = PeerState.dead; last_seen = now } in
      let e : p' ≡ q = some_inj (sym there ∙ on) in
      (
        p,
        here,
        final
            ∙ ap {A = PeerInfo} (λ x. some (record x { state = PeerState.dead; last_seen = now }))
                (sym e),
      )

  pub bury_one :
      (ps : List PeerInfo) (pm : PeerManager)
      → (peer id (bury now timeout ps pm).0 ≡ peer id pm)
        ⊎ (Overdue ps × Moved id now PeerState.dead pm (bury now timeout ps pm).0)
  unfolding bury any
  bury_one [] pm = inl refl
  bury_one (p ∷ ps) pm = elim (Bool-cases (leb timeout (now - p.last_seen))) [
    | inr early ↦ elim (bury_one ps pm) [
      | inl e ↦ inl (rw (bury, early) e)
      | inr (over, moved) ↦ inr (ground (arith, over), rw (bury, early) moved)
    ]
    | inl late ↦
        let next = (update_peer_state now p.node_id PeerState.dead pm).0 in
        elim (update_one now p.node_id id PeerState.dead pm) [
          | inl same ↦ elim (bury_one ps next) [
            | inl e ↦ inl (rw (bury, late) (e ∙ same))
            | inr (over, (q, here, there)) ↦
                inr (ground (arith, over), rw (bury, late) (q, sym same ∙ here, there))
          ]
          | inr (name, moved) ↦ inr (
            ground (arith, name, late),
            rw (bury, late) (Moved-then ps pm next moved (bury_one ps next)),
          )
        ]
  ]

  pub bury-IsKeyed :
      (ps : List PeerInfo) (pm : PeerManager) → IsKeyed pm → IsKeyed (bury now timeout ps pm).0
  unfolding bury
  bury-IsKeyed [] pm k = k
  bury-IsKeyed (p ∷ ps) pm k = elim (Bool-cases (leb timeout (now - p.last_seen))) [
    | inl late ↦
        rw (bury, late)
          (bury-IsKeyed ps (update_peer_state now p.node_id PeerState.dead pm).0
            (update-IsKeyed now p.node_id PeerState.dead pm k))
    | inr early ↦ rw (bury, early) (bury-IsKeyed ps pm k)
  ]

  pub expel_one :
      (ps : List PeerInfo) (pm : PeerManager)
      → IsKeyed pm
      → (peer id (expel now timeout ps pm).0 ≡ peer id pm)
        ⊎ (Overdue ps × (peer id (expel now timeout ps pm).0 ≡ none))
  unfolding expel any
  expel_one [] pm k = inl refl
  expel_one (p ∷ ps) pm k = elim (Bool-cases (leb timeout (now - p.last_seen))) [
    | inr early ↦ elim (expel_one ps pm k) [
      | inl e ↦ inl (rw (expel, early) e)
      | inr (over, gone) ↦ inr (ground (arith, over), rw (expel, early) gone)
    ]
    | inl late ↦
        let next = (remove_peer p.node_id pm).0 in
        let k' = remove-IsKeyed p.node_id pm k in
        elim (remove_one p.node_id id pm k) [
          | inl same ↦ elim (expel_one ps next k') [
            | inl e ↦ inl (rw (expel, late) (e ∙ same))
            | inr (over, gone) ↦ inr (ground (arith, over), rw (expel, late) gone)
          ]
          | inr (name, gone) ↦ inr (
            ground (arith, name, late),
            rw (expel, late)
                (elim (expel_one ps next k') [ inl e ↦ e ∙ gone | inr (over, out) ↦ out ]),
          )
        ]
  ]
