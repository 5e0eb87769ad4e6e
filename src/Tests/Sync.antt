-- ===== src/Tests/Sync.antt =====
-- hiveguard-net/src/sync.rs: new bans go to the peer that is alive.
use hiveguard.Prelude.{◌≡◌, ◌⊎◌, refl, true, false, List, [], ◌∷◌, none, some}
use Prim.Native.String.{String}
use hiveguard.Peers.{get_alive_peers, all_peers}
use hiveguard.Gossip
use hiveguard.Gossip.{GossipAction, select_gossip_targets}
use hiveguard.Sync.{SyncCoordinator, propagate_bans}
use hiveguard.Sync.Targets
use hiveguard.Sync.Targets.{AreTargets, is_idle}
use hiveguard.Tests.Membership.{rng, swim, cluster}
use hiveguard.Tests.Gossip.{config, first}

abbrev coordinator : SyncCoordinator
coordinator = record {
  swim = swim;
  gossip = record { config = config; local_node_id = "me"; reports = []; accepted = [] };
  peer_manager = cluster;
}

propagate_bans-AreTargets_example :
    ((is_idle coordinator (first ∷ []) ≡ true)
      × (propagate_bans rng (first ∷ []) coordinator ≡ none))
    ⊎ ((is_idle coordinator (first ∷ []) ≡ false)
        × ((targets : List String) × (propagate_bans rng (first ∷ []) coordinator
              ≡ some (GossipAction.send_ban_sync targets (first ∷ [])))
            × AreTargets 3 cluster targets))
propagate_bans-AreTargets_example = Targets.propagate_bans-AreTargets rng coordinator (first ∷ [])

-- The one peer that is alive gets the ban.
sent :
    propagate_bans rng (first ∷ []) coordinator
    ≡ some (GossipAction.send_ban_sync ("fresh" ∷ []) (first ∷ []))
unfolding propagate_bans Gossip.propagate_bans select_gossip_targets get_alive_peers all_peers
sent = refl
