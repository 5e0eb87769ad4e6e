-- ===== src/Membership.antt =====
-- hiveguard-net/src/membership.rs: the SWIM failure detector. Times and timeouts are milliseconds; an
-- elapsed time that would be negative is 0, as in the source. What the random choices pick is a
-- parameter.
pub mod Peers
pub mod Rounds
pub mod Step
use Prim.Native.String.{String}
use Prim.Native.Nat.{min}
use mathlib.Core.List.{Permᴰ}
use hiveguard.Prelude.{
  In, All, ℕ, zero, suc, ◌+◌, ◌-◌, ◌*◌, ◌%◌, ◌≤◌, ◌≡◌, Bool, true, false, not, ◌&&◌, List, [], ◌∷◌,
  ◌++◌, map, Option, none, some, length, filter, retain, get_or, leb, ltb, ◌==◌, is_empty,
  if◌then◌else◌,
}
use hiveguard.Prelude.Eq.{string_eq}
use hiveguard.Peers.{
  PeerState, PeerInfo, PeerManager, is_suspect, is_dead, update_peer_state, remove_peer, all_peers,
  get_alive_peers,
}

pub record SwimConfig : Type 0 where
  pub ping_interval : ℕ
  pub ping_timeout : ℕ
  pub ping_req_fanout : ℕ
  pub suspect_timeout : ℕ
  pub dead_timeout : ℕ

unfoldable pub default_config : SwimConfig
default_config = record {
  ping_interval = 1000;
  ping_timeout = 500;
  ping_req_fanout = 3;
  suspect_timeout = 5000;
  dead_timeout = 30000;
}

pub data SwimAction : Type 0 where
  send_ping : (target_id : String) → (digest : List ℕ) → SwimAction
  send_ping_req : (target_id : String) → (via_peers : List String) → SwimAction
  mark_suspect : String → SwimAction
  mark_dead : String → SwimAction
  drop_peer : String → SwimAction
  no_action : SwimAction

pub record PendingPing : Type 0 where
  pub target_id : String
  pub sent_at : ℕ
  pub indirect_sent : Bool

pub record SwimMembership : Type 0 where
  pub config : SwimConfig
  pub local_node_id : String
  pub pending_pings : List PendingPing

-- The two ways in which the source picks at random: one of a list that is not empty, and a number of
-- elements of a list.
pub record Rng : Type 0 where
  pub choose : PeerInfo → List PeerInfo → PeerInfo
  pub choose_multiple : List String → ℕ → List String
  pub choose_multiple_length :
      (xs : List String) (k : ℕ) → length (choose_multiple xs k) ≡ min k (length xs)
  pub choose_multiple_In : (xs : List String) (k : ℕ) → All (λ x. In x xs) (choose_multiple xs k)
  pub choose_multiple_Perm :
      (xs : List String) (k : ℕ)
      → (others : List String) × Permᴰ xs (choose_multiple xs k ++ others)

unfoldable pub new : String → SwimConfig → SwimMembership
new local_node_id config = record {
  config = config;
  local_node_id = local_node_id;
  pending_pings = [];
}

unfoldable pub handle_pong :
    ℕ → String → SwimMembership → PeerManager → SwimMembership × PeerManager
handle_pong now sender_id swim pm = (
  record swim {
    pending_pings = retain (λ p. not (string_eq.beq p.target_id sender_id)) swim.pending_pings;
  },
  (update_peer_state now sender_id PeerState.alive pm).0,
)

-- What a round does to one pending ping: whether it stays, and as what; the actions; the peers.
pub record PingOutcome : Type 0 where
  pub kept : List PendingPing
  pub actions : List SwimAction
  pub peers : PeerManager

unfoldable pub give_up : ℕ → PendingPing → PeerManager → PingOutcome
give_up now p pm = record {
  kept = [];
  actions = SwimAction.mark_suspect p.target_id ∷ [];
  peers = (update_peer_state now p.target_id PeerState.suspect pm).0;
}

module _ (rng : Rng) where
  unfoldable pub select_probe_target :
      ℕ → List ℕ → SwimMembership → PeerManager → SwimMembership × SwimAction
  select_probe_target now digest swim pm = elim (get_alive_peers pm) [
    | [] ↦ (swim, SwimAction.no_action)
    | p ∷ ps ↦
        let target = rng.choose p ps in
        (
          record swim {
            pending_pings =
                swim.pending_pings
                ++ (record { target_id = target.node_id; sent_at = now; indirect_sent = false }
                    ∷ []);
          },
          SwimAction.send_ping target.node_id digest,
        )
  ]

  -- The peers that an indirect probe goes through.
  unfoldable pub via_peers : PendingPing → SwimMembership → PeerManager → List String
  via_peers p swim pm =
      let others =
        map (λ q. q.node_id)
          (filter
            (λ q.
              not (string_eq.beq q.node_id p.target_id)
              && not (string_eq.beq q.node_id swim.local_node_id))
            (get_alive_peers pm)) in
      let k = min swim.config.ping_req_fanout (length others) in
      if ltb 0 k then rng.choose_multiple others k else []

  unfoldable pub check_ping : ℕ → SwimMembership → PendingPing → PeerManager → PingOutcome
  check_ping now swim p pm =
      let elapsed = now - p.sent_at in
      let timeout = swim.config.ping_timeout in
      if not p.indirect_sent && leb timeout elapsed
      then (let via = via_peers p swim pm in
          if is_empty via then give_up now p pm else record {
            kept = record p { indirect_sent = true } ∷ [];
            actions = SwimAction.send_ping_req p.target_id via ∷ [];
            peers = pm;
          })
      else if p.indirect_sent && leb (timeout * 2) elapsed
      then give_up now p pm
      else record { kept = p ∷ []; actions = []; peers = pm }

  unfoldable pub check_pings : ℕ → SwimMembership → List PendingPing → PeerManager → PingOutcome
  check_pings now swim [] pm = record { kept = []; actions = []; peers = pm }
  check_pings now swim (p ∷ ps) pm =
      let first = check_ping now swim p pm in
      let rest = check_pings now swim ps first.peers in
      record {
        kept = first.kept ++ rest.kept;
        actions = first.actions ++ rest.actions;
        peers = rest.peers;
      }

-- The loop over the suspects that were found before it.
unfoldable pub bury : ℕ → ℕ → List PeerInfo → PeerManager → PeerManager × List SwimAction
bury now timeout [] pm = (pm, [])
bury now timeout (p ∷ ps) pm =
    let overdue = leb timeout (now - p.last_seen) in
    let next = if overdue then (update_peer_state now p.node_id PeerState.dead pm).0 else pm in
    let rest = bury now timeout ps next in
    (rest.0, if overdue then SwimAction.mark_dead p.node_id ∷ rest.1 else rest.1)

unfoldable pub expel : ℕ → ℕ → List PeerInfo → PeerManager → PeerManager × List SwimAction
expel now timeout [] pm = (pm, [])
expel now timeout (p ∷ ps) pm =
    let overdue = leb timeout (now - p.last_seen) in
    let next = if overdue then (remove_peer p.node_id pm).0 else pm in
    let rest = expel now timeout ps next in
    (rest.0, if overdue then SwimAction.drop_peer p.node_id ∷ rest.1 else rest.1)

module _ (rng : Rng) where
  unfoldable pub check_timeouts :
      ℕ → SwimMembership → PeerManager → (SwimMembership × PeerManager) × List SwimAction
  check_timeouts now swim pm =
      let pinged = check_pings rng now swim swim.pending_pings pm in
      let suspects = filter (λ p. is_suspect p.state) (all_peers pinged.peers) in
      let buried = bury now swim.config.suspect_timeout suspects pinged.peers in
      let corpses = filter (λ p. is_dead p.state) (all_peers buried.0) in
      let expelled = expel now swim.config.dead_timeout corpses buried.0 in
      (
        (record swim { pending_pings = pinged.kept }, expelled.0),
        pinged.actions ++ (buried.1 ++ expelled.1),
      )
