-- ===== src/Tests/Membership.antt =====
-- hiveguard-net/src/peer.rs and membership.rs: a cluster of a suspect, a dead and an alive peer.
use Prim.Native.Nat.{min}
use Prim.Native.String.{String}
use mathlib.Core.List.{Permᴰ}
use mathlib.Core.List.Permᴰ
use hiveguard.Prelude.{
  ◌++◌, In, All, All-weaken, inl, inr, ℕ, zero, suc, ◌-◌, ◌≤◌, ◌≡◌, refl, arith, false, List, [],
  ◌∷◌, some, length, take,
}
use hiveguard.Prelude.Map.{lookup, remove}
use hiveguard.Net.{IpAddr}
use hiveguard.Prelude.Eq.{string_eq}
use hiveguard.Peers.{
  PeerState, PeerInfo, PeerManager, Connection, validate_peer_connection, remove_peer, all_peers,
}
use hiveguard.Peers.Identity
use hiveguard.Membership.{
  SwimMembership, Rng, check_timeouts, default_config, check_pings, bury, expel,
}
use hiveguard.Membership.Peers.{IsKeyed}
use hiveguard.Membership.Step

abbrev pub old : PeerInfo
old = record {
  node_id = "old";
  address = (IpAddr.v4 2130706433, 7946);
  fingerprint = "fp";
  state = PeerState.dead;
  last_seen = 1000;
  public_key_bytes = [];
}

abbrev pub fresh : PeerInfo
fresh = record old { node_id = "fresh"; state = PeerState.alive; last_seen = 90000 }

abbrev pub cluster : PeerManager
cluster = record { known_peers = ("old", old) ∷ ("fresh", fresh) ∷ []; auto_accept = false }

abbrev cluster_then : PeerManager
cluster_then = record { known_peers = ("fresh", fresh) ∷ []; auto_accept = false }

pub first_ones : (xs : List String) (k : ℕ) → length (take k xs) ≡ min k (length xs)
first_ones [] zero = refl
first_ones [] (suc k) = omega arith
first_ones (x ∷ xs) zero = omega arith
first_ones (x ∷ xs) (suc k) = omega (arith, first_ones xs k)

pub among_first : (xs : List String) (k : ℕ) → All (λ x. In x xs) (take k xs)
among_first xs zero = tt
among_first [] (suc k) = tt
among_first (x ∷ xs) (suc k) =
    (inl refl, All-weaken _ _ (take k xs) (λ y i. inr i) (among_first xs k))

pub first_and_others :
    (xs : List String) (k : ℕ) → (others : List String) × Permᴰ xs (take k xs ++ others)
first_and_others xs zero = (xs, Permᴰ.refl xs)
first_and_others [] (suc k) = ([], Permᴰ.nil)
first_and_others (x ∷ xs) (suc k) =
    let rest = first_and_others xs k in (rest.0, Permᴰ.cons refl rest.1)

abbrev pub rng : Rng
rng = record {
  choose = λ p ps. p;
  choose_multiple = λ xs k. take k xs;
  choose_multiple_length = first_ones;
  choose_multiple_In = among_first;
  choose_multiple_Perm = first_and_others;
}

abbrev pub swim : SwimMembership
swim = record { config = default_config; local_node_id = "me"; pending_pings = [] }

cluster-IsKeyed : IsKeyed cluster
unfolding lookup
cluster-IsKeyed = record { distinct = (refl, (refl, tt)); keyed = (refl, (refl, tt)) }

check_timeouts_removal_example : (old.state ≡ PeerState.dead) × (30000 ≤ 100000 - old.last_seen)
unfolding lookup remove default_config check_timeouts check_pings bury expel remove_peer all_peers
check_timeouts_removal_example =
    Step.check_timeouts_removal rng 100000 swim cluster "old" old cluster-IsKeyed (omega arith)
      (omega arith) refl refl

check_timeouts_burial_example : ¬ (fresh.state ≡ PeerState.dead)
unfolding lookup remove default_config check_timeouts check_pings bury expel remove_peer all_peers
check_timeouts_burial_example =
    Step.check_timeouts_burial rng 100000 swim cluster "fresh" fresh fresh cluster-IsKeyed
      (omega arith) (omega arith) refl refl refl

abbrev hello : Connection
hello = record { certificate = some ("fp", 7 ∷ []); remote_address = (IpAddr.v4 1, 1) }

validate_peer_connection_pins_example :
    (q : PeerInfo) × (lookup "old" (validate_peer_connection 5 hello "fresh" cluster).0.known_peers
      ≡ some q)
    × (q.fingerprint ≡ old.fingerprint)
    × (q.state ≡ old.state)
unfolding lookup
validate_peer_connection_pins_example =
    Identity.validate_peer_connection_pins 5 hello "fresh" "old" cluster old refl
