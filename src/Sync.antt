-- ===== src/Sync.antt =====
-- hiveguard-net/src/sync.rs: the coordinator of SWIM and gossip, and the messages between nodes
-- (hiveguard-net/src/messages.rs).
pub mod Targets
use Prim.Native.String.{String}
use hiveguard.Prelude.{ℕ, Bool, List, [], ◌∷◌, ◌++◌, Option, none, some, length}
use hiveguard.Prelude.Map.{HashMap}
use hiveguard.Models.{BanRecord}
use hiveguard.Crypto.{Bytes, Blake3}
use hiveguard.SignedRecord.{SignedBanRecord, Crates}
use hiveguard.AntiPoison.{RateLimiter}
use hiveguard.Trust.{Float, TrustManager}
use hiveguard.Peers
use hiveguard.Peers.{PeerInfo, PeerManager, PeerState, update_peer_state, get_alive_peers}
use hiveguard.Membership
use hiveguard.Membership.{
  Rng, SwimConfig, SwimMembership, SwimAction, select_probe_target, check_timeouts,
}
use hiveguard.Gossip
use hiveguard.Gossip.{GossipConfig, GossipEngine, GossipAction, Texts}
use hiveguard.Gossip.Filter

pub data ClusterMessage : Type 0 where
  ping : String → Bytes → ClusterMessage
  pong : String → Bytes → ClusterMessage
  ping_req : String → String → ClusterMessage
  ban_sync : String → List SignedBanRecord → ClusterMessage
  digest_exchange : Bytes → ClusterMessage
  diff_request : List String → ClusterMessage
  diff_response : List SignedBanRecord → ClusterMessage
  membership_update : List PeerInfo → ClusterMessage

unfoldable pub sender_of : ClusterMessage → Option String
sender_of (ClusterMessage.ping s _) = some s
sender_of (ClusterMessage.pong s _) = some s
sender_of (ClusterMessage.ping_req s _) = some s
sender_of (ClusterMessage.ban_sync s _) = some s
sender_of _ = none

pub record SyncCoordinator : Type 0 where
  pub swim : SwimMembership
  pub gossip : GossipEngine
  pub peer_manager : PeerManager

unfoldable pub new : String → SwimConfig → GossipConfig → SyncCoordinator
new local_node_id swim_config gossip_config = record {
  swim = Membership.new local_node_id swim_config;
  gossip = Gossip.new local_node_id gossip_config;
  peer_manager = Peers.new;
}

-- The probe, unless there is nobody to probe.
unfoldable pub push_probe : SwimAction → List SwimAction
push_probe SwimAction.no_action = []
push_probe action = action ∷ []

unfoldable pub run_probe_cycle :
    Rng → ℕ → Bytes → SyncCoordinator → SyncCoordinator × List SwimAction
run_probe_cycle rng now local_digest c =
    let probe = select_probe_target rng now local_digest c.swim c.peer_manager in
    let checked = check_timeouts rng now probe.0 c.peer_manager in
    (record c { swim = checked.0.0; peer_manager = checked.0.1 }, push_probe probe.1 ++ checked.1)

unfoldable pub handle_pong : ℕ → String → SyncCoordinator → SyncCoordinator
handle_pong now sender_id c =
    let next = Membership.handle_pong now sender_id c.swim c.peer_manager in
    record c { swim = next.0; peer_manager = next.1 }

unfoldable pub handle_ping : ℕ → String → Bytes → SyncCoordinator → SyncCoordinator × SwimAction
handle_ping now sender_id remote_digest c = (
  record c { peer_manager = (update_peer_state now sender_id PeerState.alive c.peer_manager).0 },
  SwimAction.no_action,
)

unfoldable pub propagate_bans : Rng → List SignedBanRecord → SyncCoordinator → Option GossipAction
propagate_bans rng records c = Gossip.propagate_bans rng records c.gossip c.peer_manager

unfoldable pub alive_peer_count : SyncCoordinator → ℕ
alive_peer_count c = length (get_alive_peers c.peer_manager)

unfoldable pub total_peer_count : SyncCoordinator → ℕ
total_peer_count c = Peers.peer_count c.peer_manager

unfoldable pub handle_digest_exchange :
    Blake3 → Texts → Bytes → List BanRecord → String → SyncCoordinator → Option GossipAction
handle_digest_exchange blake3 texts remote_digest local_bans sender_id c =
    Gossip.handle_digest_exchange blake3 texts remote_digest local_bans sender_id

unfoldable pub handle_diff_request :
    Blake3 → Texts → List String → List BanRecord → SyncCoordinator → List BanRecord
handle_diff_request blake3 texts peer_keys local_bans c =
    Gossip.handle_diff_request blake3 texts peer_keys local_bans

-- With a policy, and with the one that refuses nothing.
module _ {F : Type 0} (f : Float F) (crates : Crates) (texts : Texts) where
  unfoldable pub handle_ban_sync_filtered_with_policy :
      ℕ
      → List SignedBanRecord
      → String
      → TrustManager F
      → HashMap String ℕ
      → HashMap String Bytes
      → (BanRecord → Bool)
      → SyncCoordinator × RateLimiter
      → (SyncCoordinator × RateLimiter) × Option GossipAction
  handle_ban_sync_filtered_with_policy now records sender_id tm ban_counts keys eligible (c, rl) =
      let r =
        Filter.handle_ban_sync_filtered_with_policy f crates texts now records sender_id tm
          ban_counts keys eligible (c.gossip, rl) in
      ((record c { gossip = r.0.0 }, r.0.1), r.1)

  unfoldable pub handle_ban_sync_filtered :
      ℕ
      → List SignedBanRecord
      → String
      → TrustManager F
      → HashMap String ℕ
      → HashMap String Bytes
      → SyncCoordinator × RateLimiter
      → (SyncCoordinator × RateLimiter) × Option GossipAction
  handle_ban_sync_filtered now records sender_id tm ban_counts keys (c, rl) =
      let r =
        Filter.handle_ban_sync_filtered f crates texts now records sender_id tm ban_counts keys
          (c.gossip, rl) in
      ((record c { gossip = r.0.0 }, r.0.1), r.1)
