-- ===== src/Peers/Identity.antt =====
-- Connections and the fingerprints that peers are pinned to.
use Prim.Native.String.{String}
use hiveguard.Prelude.{
  ℕ, ◌≡◌, refl, sym, ap, ◌∙◌, arith, true, false, List, none, some, Bool-cases, Option-cases, inl,
  inr, if◌then◌else◌, some_inj, if_true, if_false,
}
use hiveguard.Prelude.Eq.{string_eq}
use hiveguard.Prelude.Map.{lookup, insert, lookup-insert, lookup-insert_self}
use hiveguard.Errors.{Result, HiveGuardError}
use hiveguard.Peers.{
  PeerInfo, PeerManager, Connection, new_peer, add_peer, validate_peer_connection, verify_sender,
}

-- The peer that a first connection registers.
abbrev first_contact : ℕ → Connection → String → String × List ℕ → PeerInfo
first_contact now conn claimed cert = record (new_peer now claimed conn.remote_address cert.0) {
  public_key_bytes = cert.1;
}

abbrev refreshed : PeerInfo → String × List ℕ → PeerInfo
refreshed known cert = record known { public_key_bytes = cert.1 }

module _ (now : ℕ) (conn : Connection) (claimed : String) (pm : PeerManager) where
  bare_refused :
      conn.certificate ≡ none
      → validate_peer_connection now conn claimed pm ≡ (pm, Result.err HiveGuardError.protocol)
  unfolding validate_peer_connection
  bare_refused bare = rw (validate_peer_connection, bare) refl

  module _ (cert : String × List ℕ) (given : conn.certificate ≡ some cert) where
    stranger_accepted :
        lookup claimed pm.known_peers ≡ none
        → pm.auto_accept ≡ true
        → validate_peer_connection now conn claimed pm
          ≡ (add_peer (first_contact now conn claimed cert) pm, Result.ok tt)
    unfolding validate_peer_connection
    stranger_accepted unknown open_mode =
        rw (validate_peer_connection, given)
          (rw (validate_peer_connection, unknown) (if_true pm.auto_accept _ _ open_mode))

    stranger_refused :
        lookup claimed pm.known_peers ≡ none
        → pm.auto_accept ≡ false
        → validate_peer_connection now conn claimed pm ≡ (pm, Result.err HiveGuardError.protocol)
    unfolding validate_peer_connection
    stranger_refused unknown strict =
        rw (validate_peer_connection, given)
          (rw (validate_peer_connection, unknown) (if_false pm.auto_accept _ _ strict))

    known_accepted :
        (known : PeerInfo)
        → lookup claimed pm.known_peers ≡ some known
        → string_eq.beq known.fingerprint cert.0 ≡ true
        → validate_peer_connection now conn claimed pm ≡ (
          record pm { known_peers = insert claimed (refreshed known cert) pm.known_peers },
          Result.ok tt,
        )
    unfolding validate_peer_connection
    known_accepted known there same =
        rw (validate_peer_connection, given)
          (rw (validate_peer_connection, there)
            (if_true (string_eq.beq known.fingerprint cert.0) _ _ same))

    known_refused :
        (known : PeerInfo)
        → lookup claimed pm.known_peers ≡ some known
        → string_eq.beq known.fingerprint cert.0 ≡ false
        → validate_peer_connection now conn claimed pm ≡ (pm, Result.err HiveGuardError.protocol)
    unfolding validate_peer_connection
    known_refused known there differs =
        rw (validate_peer_connection, given)
          (rw (validate_peer_connection, there)
            (if_false (string_eq.beq known.fingerprint cert.0) _ _ differs))

err-ok :
    {u : Unit {0}}
    → ◌≡◌ {A = Result (Unit {0})} (Result.err HiveGuardError.protocol) (Result.ok u)
    → ⊥
err-ok h = ground (arith, h)

verify_stored :
    (claimed fingerprint : String) (p : PeerInfo) (pm : PeerManager)
    → lookup claimed pm.known_peers ≡ some p
    → string_eq.beq p.fingerprint fingerprint ≡ true
    → verify_sender claimed fingerprint pm ≡ true
unfolding verify_sender
verify_stored claimed fingerprint p pm there same = rw (verify_sender, there) same

-- A connection that is accepted presents a certificate, and from then on the sender of that name is
-- verified with exactly that certificate's fingerprint.
pub validate_peer_connection_verifies :
    (now : ℕ) (conn : Connection) (claimed : String) (pm : PeerManager) {u : Unit {0}}
    → (validate_peer_connection now conn claimed pm).1 ≡ Result.ok u
    → (cert : String × List ℕ) × (conn.certificate ≡ some cert)
      × (verify_sender claimed cert.0 (validate_peer_connection now conn claimed pm).0 ≡ true)
unfolding add_peer new_peer
validate_peer_connection_verifies now conn claimed pm h = elim (Option-cases conn.certificate) [
  | inl bare ↦ absurd (err-ok (ap (λ r. r.1) (sym (bare_refused now conn claimed pm bare)) ∙ h))
  | inr (cert, given) ↦ (
    cert,
    given,
    elim (Option-cases (lookup claimed pm.known_peers)) [
      | inl unknown ↦ elim (Bool-cases pm.auto_accept) [
        | inr strict ↦ absurd (
            err-ok (
              ap (λ r. r.1) (sym (stranger_refused now conn claimed pm cert given unknown strict))
              ∙ h))
        | inl open_mode ↦
            let p = first_contact now conn claimed cert in
            rw (stranger_accepted now conn claimed pm cert given unknown open_mode) (
              verify_stored claimed cert.0 p (add_peer p pm)
                (lookup-insert_self claimed p pm.known_peers)
                ((string_eq.beq_iff cert.0 cert.0).1 refl))
      ]
      | inr (known, there) ↦ elim (Bool-cases (string_eq.beq known.fingerprint cert.0)) [
        | inr differs ↦ absurd (
            err-ok (
              ap (λ r. r.1) (sym (known_refused now conn claimed pm cert given known there differs))
              ∙ h))
        | inl same ↦
            let p = refreshed known cert in
            rw (known_accepted now conn claimed pm cert given known there same)
              (verify_stored claimed cert.0 p _ (lookup-insert_self claimed p pm.known_peers) same)
      ]
    ],
  )
]

-- No connection, accepted or not, and in either mode, changes the fingerprint that a known peer is
-- pinned to, or its state.
pub validate_peer_connection_pins :
    (now : ℕ) (conn : Connection) (claimed id : String) (pm : PeerManager) (p : PeerInfo)
    → lookup id pm.known_peers ≡ some p
    → (q : PeerInfo) × (lookup id (validate_peer_connection now conn claimed pm).0.known_peers
        ≡ some q)
      × (q.fingerprint ≡ p.fingerprint)
      × (q.state ≡ p.state)
unfolding add_peer new_peer
validate_peer_connection_pins now conn claimed id pm p e = elim (Option-cases conn.certificate) [
  | inl bare ↦ rw (bare_refused now conn claimed pm bare) (p, e, refl, refl)
  | inr (cert, given) ↦ elim (Option-cases (lookup claimed pm.known_peers)) [
    | inl unknown ↦ elim (Bool-cases pm.auto_accept) [
      | inr strict ↦
          rw (stranger_refused now conn claimed pm cert given unknown strict) (p, e, refl, refl)
      | inl open_mode ↦
          let new = first_contact now conn claimed cert in
          let other : string_eq.beq claimed id ≡ false =
            ground (
              arith,
              string_eq.beq_iff claimed id,
              ap (λ n. lookup n pm.known_peers),
              e,
              unknown,
            ) in
          rw (stranger_accepted now conn claimed pm cert given unknown open_mode) (
            p,
            lookup-insert claimed id new pm.known_peers
                ∙ ap (λ b. if b then some new else lookup id pm.known_peers) other
                ∙ e,
            refl,
            refl,
          )
    ]
    | inr (known, there) ↦ elim (Bool-cases (string_eq.beq known.fingerprint cert.0)) [
      | inr differs ↦
          rw (known_refused now conn claimed pm cert given known there differs) (p, e, refl, refl)
      | inl same ↦
          let new = refreshed known cert in
          rw (known_accepted now conn claimed pm cert given known there same)
            (elim (Bool-cases (string_eq.beq claimed id)) [
              | inl own ↦
                  let k : known ≡ p = some_inj (
                    sym there
                    ∙ ap (λ n. lookup n pm.known_peers) ((string_eq.beq_iff claimed id).0 own)
                    ∙ e) in
                  (
                    new,
                    lookup-insert claimed id new pm.known_peers
                        ∙ ap (λ b. if b then some new else lookup id pm.known_peers) own,
                    ap (λ (x : PeerInfo). x.fingerprint) k,
                    ap (λ (x : PeerInfo). x.state) k,
                  )
              | inr other ↦ (
                p,
                lookup-insert claimed id new pm.known_peers
                    ∙ ap (λ b. if b then some new else lookup id pm.known_peers) other
                    ∙ e,
                refl,
                refl,
              )
            ])
    ]
  ]
]
