-- ===== src/Membership/Peers.antt =====
-- What the operations of the peer manager do to one peer.
use Prim.Native.String.{String}
use mathlib.Core.Path.{subst}
use hiveguard.Prelude.{
  ℕ, ◌≡◌, refl, sym, ap, ◌∙◌, arith, Bool, true, false, ◌&&◌, ◌⊎◌, inl, inr, [], ◌∷◌, map, Option,
  none, some, filter, any, All, Bool-cases, Option-cases, if◌then◌else◌,
}
use hiveguard.Prelude.Eq.{string_eq}
use hiveguard.Prelude.Map.{
  HashMap, Distinct, lookup, lookup-insert, lookup-remove, insert-Distinct, remove-Distinct,
  insert-All, remove-All, All-lookup,
}
use hiveguard.Peers.{PeerState, PeerInfo, PeerManager, update_peer_state, remove_peer, all_peers}

-- Every peer stands under its own name, and no name twice.
pub record IsKeyed (pm : PeerManager) : Type 0 where
  pub distinct : Distinct pm.known_peers
  pub keyed : All (λ e. e.0 ≡ e.1.node_id) pm.known_peers

abbrev pub peer : String → PeerManager → Option PeerInfo
peer id pm = lookup id pm.known_peers

-- The peer is as it was, or it got a state at a time.
abbrev pub Moved : String → ℕ → PeerState → PeerManager → PeerManager → Type 0
Moved id now state pm after =
    (p : PeerInfo) × (peer id pm ≡ some p)
    × (peer id after ≡ some (record p { state = state; last_seen = now }))

pub update-IsKeyed :
    (now : ℕ) (n : String) (state : PeerState) (pm : PeerManager)
    → IsKeyed pm
    → IsKeyed (update_peer_state now n state pm).0
unfolding update_peer_state
update-IsKeyed now n state pm k = elim (Option-cases (lookup n pm.known_peers)) [
  | inl absent ↦ rw (update_peer_state, absent) k
  | inr (p, present) ↦
      let p' : PeerInfo = record p { state = state; last_seen = now } in
      rw (update_peer_state, present)
        (record {
          distinct = insert-Distinct n p' pm.known_peers k.distinct;
          keyed =
              insert-All (λ e. e.0 ≡ e.1.node_id) n p' pm.known_peers
                (All-lookup (λ e. e.0 ≡ e.1.node_id) n pm.known_peers k.keyed present) k.keyed;
        })
]

pub update_one :
    (now : ℕ) (n id : String) (state : PeerState) (pm : PeerManager)
    → (peer id (update_peer_state now n state pm).0 ≡ peer id pm)
      ⊎ ((string_eq.beq n id ≡ true) × Moved id now state pm (update_peer_state now n state pm).0)
unfolding update_peer_state
update_one now n id state pm = elim (Option-cases (lookup n pm.known_peers)) [
  | inl absent ↦ inl (rw (update_peer_state, absent) refl)
  | inr (p, present) ↦
      let p' : PeerInfo = record p { state = state; last_seen = now } in
      elim (Bool-cases (string_eq.beq n id)) [
        | inr other ↦ inl (
            rw (update_peer_state, present)
              (lookup-insert n id p' pm.known_peers
                ∙ ap (λ b. if b then some p' else lookup id pm.known_peers) other))
        | inl same ↦ inr (
          same,
          (
            p,
            subst (λ j. lookup j pm.known_peers ≡ some p) ((string_eq.beq_iff n id).0 same) present,
            rw (update_peer_state, present)
                (lookup-insert n id p' pm.known_peers
                  ∙ ap (λ b. if b then some p' else lookup id pm.known_peers) same),
          ),
        )
      ]
]

pub remove-IsKeyed : (n : String) (pm : PeerManager) → IsKeyed pm → IsKeyed (remove_peer n pm).0
unfolding remove_peer
remove-IsKeyed n pm k = record {
  distinct = remove-Distinct n pm.known_peers k.distinct;
  keyed = remove-All (λ e. e.0 ≡ e.1.node_id) n pm.known_peers k.keyed;
}

pub remove_one :
    (n id : String) (pm : PeerManager)
    → IsKeyed pm
    → (peer id (remove_peer n pm).0 ≡ peer id pm)
      ⊎ ((string_eq.beq n id ≡ true) × (peer id (remove_peer n pm).0 ≡ none))
unfolding remove_peer
remove_one n id pm k = elim (Bool-cases (string_eq.beq n id)) [
  | inl same ↦ inr (
    same,
    lookup-remove n id pm.known_peers k.distinct
        ∙ ap (λ b. if b then none else lookup id pm.known_peers) same,
  )
  | inr other ↦ inl (
      lookup-remove n id pm.known_peers k.distinct
      ∙ ap (λ b. if b then none else lookup id pm.known_peers) other)
]

-- A peer among those that pass a test stands under its name.
listed_in :
    (id : String) (f g : PeerInfo → Bool) (m : HashMap String PeerInfo)
    → Distinct m
    → All (λ e. e.0 ≡ e.1.node_id) m
    → any (λ p. string_eq.beq p.node_id id && f p) (filter g (map (λ e. e.1) m)) ≡ true
    → (p : PeerInfo) × (lookup id m ≡ some p) × (f p ≡ true) × (g p ≡ true)
unfolding any lookup
listed_in id f g [] d k h = absurd (ground (arith, h))
listed_in id f g ((n, q) ∷ m) d k h = elim (Bool-cases (string_eq.beq q.node_id id && f q && g q)) [
  | inl here ↦
      let same : string_eq.beq n id ≡ true =
        subst (λ j. string_eq.beq j id ≡ true) (sym k.0) (ground (arith, here)) in
      (q, rw same refl, ground (arith, here), ground (arith, here))
  | inr elsewhere ↦
      let (p, e, t, u) = listed_in id f g m d.1 k.1 (ground (arith, h, elsewhere)) in
      (p, later (Bool-cases (string_eq.beq n id)) d.0 e, t, u)
]
  where
    later :
        {p : PeerInfo}
        → (string_eq.beq n id ≡ true) ⊎ (string_eq.beq n id ≡ false)
        → lookup n m ≡ none
        → lookup id m ≡ some p
        → (if string_eq.beq n id then some q else lookup id m) ≡ some p
    later {p} (inl same) miss e =
        let hit : lookup n m ≡ some p =
          subst (λ j. lookup j m ≡ some p) (sym ((string_eq.beq_iff n id).0 same)) e in
        absurd (ground (arith, hit, miss))
    later (inr other) miss e = rw other e

pub listed :
    (id : String) (f g : PeerInfo → Bool) (pm : PeerManager)
    → IsKeyed pm
    → any (λ p. string_eq.beq p.node_id id && f p) (filter g (all_peers pm)) ≡ true
    → (p : PeerInfo) × (peer id pm ≡ some p) × (f p ≡ true) × (g p ≡ true)
unfolding all_peers
listed id f g pm k h = listed_in id f g pm.known_peers k.distinct k.keyed h
