-- ===== src/Peers.antt =====
-- hiveguard-net/src/peer.rs: the known peers of the cluster. The trust score, an `f64` that is set to
-- one half here and read in other files, is left out of `PeerInfo`; a certificate is what
-- `extract_peer_fingerprint_and_key` yields for it.
pub mod Identity
use Prim.Native.String.{String}
use hiveguard.Prelude.{
  ℕ, Bool, true, false, List, [], ◌∷◌, map, Option, none, some, length, filter, if◌then◌else◌,
}
use hiveguard.Prelude.Eq.{string_eq}
use hiveguard.Prelude.Map.{HashMap, lookup, insert, remove as delete}
use hiveguard.Net.{IpAddr}
use hiveguard.Errors.{HiveGuardError, Result}

pub data PeerState : Type 0 where
  alive : PeerState
  suspect : PeerState
  dead : PeerState

pub record PeerInfo : Type 0 where
  pub node_id : String
  pub address : IpAddr × ℕ
  pub fingerprint : String
  pub state : PeerState
  pub last_seen : ℕ
  pub public_key_bytes : List ℕ

pub record PeerManager : Type 0 where
  pub known_peers : HashMap String PeerInfo
  pub auto_accept : Bool

abbrev pub is_alive : PeerState → Bool
is_alive alive = true
is_alive _ = false

abbrev pub is_suspect : PeerState → Bool
is_suspect suspect = true
is_suspect _ = false

abbrev pub is_dead : PeerState → Bool
is_dead dead = true
is_dead _ = false

unfoldable pub new_peer : ℕ → String → IpAddr × ℕ → String → PeerInfo
new_peer now node_id address fingerprint = record {
  node_id = node_id;
  address = address;
  fingerprint = fingerprint;
  state = PeerState.alive;
  last_seen = now;
  public_key_bytes = [];
}

unfoldable pub new : PeerManager
new = record { known_peers = []; auto_accept = false }

unfoldable pub new_auto_accept : PeerManager
new_auto_accept = record { known_peers = []; auto_accept = true }

unfoldable pub add_peer : PeerInfo → PeerManager → PeerManager
add_peer peer pm = record pm { known_peers = insert peer.node_id peer pm.known_peers }

unfoldable pub remove_peer : String → PeerManager → PeerManager × Option PeerInfo
remove_peer node_id pm =
    (record pm { known_peers = delete node_id pm.known_peers }, lookup node_id pm.known_peers)

-- The new manager, and whether the peer is known.
unfoldable pub update_peer_state : ℕ → String → PeerState → PeerManager → PeerManager × Bool
update_peer_state now node_id state pm = elim (lookup node_id pm.known_peers) [
  | none ↦ (pm, false)
  | some peer ↦ (
    record pm {
      known_peers = insert node_id (record peer { state = state; last_seen = now }) pm.known_peers;
    },
    true,
  )
]

unfoldable pub all_peers : PeerManager → List PeerInfo
all_peers pm = map (λ e. e.1) pm.known_peers

unfoldable pub get_alive_peers : PeerManager → List PeerInfo
get_alive_peers pm = filter (λ p. is_alive p.state) (all_peers pm)

unfoldable pub get_peer : String → PeerManager → Option PeerInfo
get_peer node_id pm = lookup node_id pm.known_peers

unfoldable pub peer_count : PeerManager → ℕ
peer_count pm = length pm.known_peers

-- The connection: its certificate's fingerprint and key, if it has one, and its remote address.
pub record Connection : Type 0 where
  pub certificate : Option (String × List ℕ)
  pub remote_address : IpAddr × ℕ

unfoldable pub validate_peer_connection :
    ℕ → Connection → String → PeerManager → PeerManager × Result (Unit {0})
validate_peer_connection now conn claimed pm = elim conn.certificate [
  | none ↦ (pm, Result.err HiveGuardError.protocol)
  | some cert ↦ elim (lookup claimed pm.known_peers) [
    | some known ↦
        if string_eq.beq known.fingerprint cert.0
        then (
          record pm {
            known_peers =
                insert claimed (record known { public_key_bytes = cert.1 }) pm.known_peers;
          },
          Result.ok tt,
        )
        else (pm, Result.err HiveGuardError.protocol)
    | none ↦
        if pm.auto_accept
        then (
          add_peer
              (record (new_peer now claimed conn.remote_address cert.0) {
                public_key_bytes = cert.1;
              })
              pm,
          Result.ok tt,
        )
        else (pm, Result.err HiveGuardError.protocol)
  ]
]

unfoldable pub verify_sender : String → String → PeerManager → Bool
verify_sender claimed_id peer_fingerprint pm = elim (lookup claimed_id pm.known_peers) [
  | some peer ↦ string_eq.beq peer.fingerprint peer_fingerprint
  | none ↦ false
]
