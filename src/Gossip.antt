-- ===== src/Gossip.antt =====
-- hiveguard-net/src/gossip.rs: the digests, inventories and messages of the gossip engine, and its
-- state. The filter of received bans is in Filter.
pub mod Filter
pub mod Digest
use Prim.Native.Nat.{min}
use Prim.Native.String.{String, ◌++◌ as ◌+++◌}
use hiveguard.Prelude.{
  ℕ, ◌+◌, ◌*◌, ◌≡◌, Bool, not, ◌&&◌, List, [], ◌∷◌, map, Option, none, some, length, leb, any,
  filter, is_empty, if◌then◌else◌,
}
use hiveguard.Prelude.Eq.{string_eq}
use hiveguard.Prelude.Map.{HashMap}
use hiveguard.Prelude.StringOrd.{string_ord}
use hiveguard.Prelude.Sort.{sort}
use hiveguard.Net.{IpNet}
use hiveguard.Models.{BanRecord}
use hiveguard.Crypto.{Bytes, Blake3, bytes_beq, as_bytes}
use hiveguard.SignedRecord.{SignedBanRecord}
use hiveguard.Peers.{PeerManager, PeerInfo, get_alive_peers}
use hiveguard.Membership.{Rng}

pub record GossipConfig : Type 0 where
  pub fanout : ℕ
  pub pow_difficulty : ℕ

pub data GossipAction : Type 0 where
  send_ban_sync : List String → List SignedBanRecord → GossipAction
  send_digest_exchange : String → Bytes → GossipAction
  send_diff_request : String → List String → GossipAction
  apply_bans : List BanRecord → GossipAction

-- `reports` holds the votes on each subject, by signer, and `accepted` the digests of the messages
-- that led to a decision, with the time at which they may come again.
pub record GossipEngine : Type 0 where
  pub config : GossipConfig
  pub local_node_id : String
  pub reports : HashMap String (HashMap String BanRecord)
  pub accepted : HashMap Bytes ℕ

-- The texts of networks and digests, and bincode's form of the fields that make a version. Two
-- networks have two texts, and the text of a network has no `#` in it.
pub record Texts : Type 0 where
  pub to_string : IpNet → String
  pub to_string-inj : (m n : IpNet) → to_string m ≡ to_string n → m ≡ n
  pub to_hex : Bytes → String
  pub to_string-apart :
      (m n : IpNet) (digest : Bytes) → to_string m ≡ to_string n +++ ("#" +++ to_hex digest) → ⊥
  pub serialize_version : IpNet → ℕ → Option ℕ → ℕ → String → List ℕ → Bytes

unfoldable pub new : String → GossipConfig → GossipEngine
new local_node_id config = record {
  config = config;
  local_node_id = local_node_id;
  reports = [];
  accepted = [];
}

-- `[String]::join`
unfoldable pub join : String → List String → String
join sep [] = ""
join sep (s ∷ []) = s
join sep (s ∷ t ∷ ts) = s +++ (sep +++ join sep (t ∷ ts))

-- The length of the UTF-8 form.
abbrev pub len : String → ℕ
len s = length (as_bytes s)

-- `take_while` with the running size of what is taken.
unfoldable pub take_inventory : ℕ → List String → List String
take_inventory inventory_bytes [] = []
take_inventory inventory_bytes (key ∷ keys) =
    let size = inventory_bytes + len key + 8 in
    let rest = take_inventory size keys in if leb size (2 * 1024 * 1024) then key ∷ rest else []

unfoldable pub select_gossip_targets : Rng → GossipEngine → PeerManager → List String
select_gossip_targets rng engine peers =
    let alive = get_alive_peers peers in
    if is_empty alive
    then []
    else rng.choose_multiple (map (λ (p : PeerInfo). p.node_id) alive)
        (min engine.config.fanout (length alive))

unfoldable pub propagate_bans :
    Rng → List SignedBanRecord → GossipEngine → PeerManager → Option GossipAction
propagate_bans rng records engine peers =
    if is_empty records
    then none
    else (let targets = select_gossip_targets rng engine peers in
        if is_empty targets then none else some (GossipAction.send_ban_sync targets records))

unfoldable pub handle_ban_sync : List SignedBanRecord → Option GossipAction
handle_ban_sync records =
    if is_empty records
    then none
    else some (GossipAction.apply_bans (map (λ (s : SignedBanRecord). s.ban) records))

module _ (blake3 : Blake3) (texts : Texts) where
  unfoldable pub record_key : BanRecord → String
  record_key r =
      let payload =
        texts.serialize_version r.subject r.created_at r.expires_at r.severity r.reason
          r.evidence_hash in
      texts.to_string r.subject +++ ("#" +++ texts.to_hex (blake3.hash payload))

  unfoldable pub compute_digest : List BanRecord → Bytes
  compute_digest bans = blake3.hash (as_bytes (join "," (sort (map record_key bans))))

  unfoldable pub handle_digest_exchange : Bytes → List BanRecord → String → Option GossipAction
  handle_digest_exchange remote_digest local_bans sender_id =
      if bytes_beq (compute_digest local_bans) remote_digest
      then none
      else some
          (GossipAction.send_diff_request sender_id (take_inventory 0 (map record_key local_bans)))

  unfoldable pub handle_diff_request : List String → List BanRecord → List BanRecord
  handle_diff_request peer_keys local_bans =
      filter
        (λ b.
          not (any (λ k. string_eq.beq k (record_key b)) peer_keys)
          && not (any (λ k. string_eq.beq k (texts.to_string b.subject)) peer_keys))
        local_bans
