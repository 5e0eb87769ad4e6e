-- ===== src/Sync/Targets.antt =====
-- To whom the coordinator sends bans.
use Prim.Native.Nat.{min}
use Prim.Native.String.{String}
use mathlib.Core.Path.{subst}
use mathlib.Core.List.{Permᴰ}
use mathlib.Core.List.Permᴰ
use hiveguard.Prelude.{
  ◌++◌, ◌||◌, ◌⊎◌, ◌==◌, ℕ, suc, ◌≡◌, inl, inr, refl, sym, ap, ◌∙◌, arith, Bool, true, false, List,
  [], ◌∷◌, map, none, some, length, filter, In, All, All-weaken, is_empty, Bool-cases, if_true,
  if_false,
}
use hiveguard.Prelude.Eq.{string_eq}
use hiveguard.SignedRecord.{SignedBanRecord}
use hiveguard.Peers.{PeerInfo, PeerManager, is_alive, all_peers, get_alive_peers}
use hiveguard.Membership.{Rng}
use hiveguard.Gossip
use hiveguard.Gossip.{GossipAction, GossipEngine, select_gossip_targets}
use hiveguard.Sync.{SyncCoordinator, propagate_bans}

-- The node is known, and alive.
abbrev pub IsAlivePeer : PeerManager → String → Type 0
IsAlivePeer pm id =
    (p : PeerInfo) × In p (all_peers pm) × (is_alive p.state ≡ true) × (p.node_id ≡ id)

In-filter-cases :
    (q : PeerInfo → Bool) (p : PeerInfo) (ps : List PeerInfo)
    → In p (filter q ps)
    → In p ps × (q p ≡ true)
In-filter-cases q p [] i = elim i [ ]
In-filter-cases q p (r ∷ ps) i = elim (Bool-cases (q r)) [
  | inl kept ↦ elim (subst (In p) (if_true (q r) _ _ kept) i) [
    | inl e ↦ (inl e, sym (ap q e) ∙ kept)
    | inr later ↦ let h = In-filter-cases q p ps later in (inr h.0, h.1)
  ]
  | inr gone ↦
      let h = In-filter-cases q p ps (subst (In p) (if_false (q r) _ _ gone) i) in (inr h.0, h.1)
]

In-map-cases :
    (ps : List PeerInfo) (id : String)
    → In id (map (λ (p : PeerInfo). p.node_id) ps)
    → (p : PeerInfo) × In p ps × (p.node_id ≡ id)
In-map-cases [] id i = elim i [ ]
In-map-cases (p ∷ ps) id (inl e) = (p, inl refl, e)
In-map-cases (p ∷ ps) id (inr i) = let h = In-map-cases ps id i in (h.0, inr h.1, h.2)

length-ids : (ps : List PeerInfo) → length (map (λ (p : PeerInfo). p.node_id) ps) ≡ length ps
length-ids [] = refl
length-ids (p ∷ ps) = ap suc (length-ids ps)

-- As many targets as are asked for or alive, each of them known and alive, and none chosen twice:
-- with the other peers that are alive they are all of those.
abbrev pub AreTargets : ℕ → PeerManager → List String → Type 0
AreTargets fanout pm targets =
    (length targets ≡ min fanout (length (get_alive_peers pm)))
    × All (IsAlivePeer pm) targets
    × ((others : List String) × Permᴰ (map (λ (p : PeerInfo). p.node_id) (get_alive_peers pm))
          (targets ++ others))

select-AreTargets :
    (rng : Rng) (engine : GossipEngine) (pm : PeerManager)
    → AreTargets engine.config.fanout pm (select_gossip_targets rng engine pm)
unfolding select_gossip_targets all_peers get_alive_peers
select-AreTargets rng engine pm =
    let alive = get_alive_peers pm in
    let ids = map (λ (p : PeerInfo). p.node_id) alive in
    let k = min engine.config.fanout (length alive) in
    elim (Bool-cases (is_empty alive)) [
      | inl nobody ↦
          subst (AreTargets engine.config.fanout pm) (sym (if_true (is_empty alive) _ _ nobody))
            (none_alive alive nobody, tt, (ids, Permᴰ.refl ids))
      | inr some_alive ↦
          subst (AreTargets engine.config.fanout pm)
            (sym (if_false (is_empty alive) _ _ some_alive))
            (
              omega (arith, rng.choose_multiple_length ids k, length-ids alive),
              All-weaken _ _ (rng.choose_multiple ids k)
                  (λ id i.
                    let h = In-map-cases alive id i in
                    let g = In-filter-cases (λ p. is_alive p.state) h.0 (all_peers pm) h.1 in
                    (h.0, g.0, g.1, h.2))
                  (rng.choose_multiple_In ids k),
              rng.choose_multiple_Perm ids k,
            )
    ]
  where
    none_alive :
        (alive : List PeerInfo)
        → is_empty alive ≡ true
        → 0 ≡ min engine.config.fanout (length alive)
    none_alive [] h = omega arith
    none_alive (p ∷ ps) h = absurd (ground (arith, h))

-- There is nothing to send, or nobody to send it to.
abbrev pub is_idle : SyncCoordinator → List SignedBanRecord → Bool
is_idle c records =
    is_empty records || is_empty (get_alive_peers c.peer_manager) || c.gossip.config.fanout == 0

no_targets : (targets : List String) → is_empty targets ≡ (length targets == 0)
no_targets [] = refl
no_targets (x ∷ xs) = ground arith

no_peers : (ps : List PeerInfo) → is_empty ps ≡ (length ps == 0)
no_peers [] = refl
no_peers (x ∷ xs) = ground arith

-- New bans are sent exactly if there are any, a peer is alive and the fan-out is not 0. They then go
-- unchanged to as many peers as the fan-out asks for, or to all that are alive if those are fewer,
-- only to peers that are known and alive, and no peer is chosen twice.
pub propagate_bans-AreTargets :
    (rng : Rng) (c : SyncCoordinator) (records : List SignedBanRecord)
    → ((is_idle c records ≡ true) × (propagate_bans rng records c ≡ none))
      ⊎ ((is_idle c records ≡ false)
          × ((targets : List String) × (propagate_bans rng records c
                ≡ some (GossipAction.send_ban_sync targets records))
              × AreTargets c.gossip.config.fanout c.peer_manager targets))
unfolding propagate_bans Gossip.propagate_bans
propagate_bans-AreTargets rng c records =
    let targets = select_gossip_targets rng c.gossip c.peer_manager in
    let t = select-AreTargets rng c.gossip c.peer_manager in
    let peers = no_peers (get_alive_peers c.peer_manager) in
    elim (Bool-cases (is_empty records)) [
      | inl nothing ↦ inl (ground (arith, nothing), if_true _ none _ nothing)
      | inr something ↦ elim (Bool-cases (is_empty targets)) [
        | inl nobody ↦ inl (
          ground (arith, nobody, no_targets targets, peers, t.0),
          if_false _ none _ something ∙ if_true _ none _ nobody,
        )
        | inr somebody ↦ inr (
          ground (arith, something, somebody, no_targets targets, peers, t.0),
          (targets, if_false _ none _ something ∙ if_false _ none _ somebody, t),
        )
      ]
    ]
