-- ===== src/SignedRecord/Signing.antt =====
-- A signed record verifies under the signer's public key.
use Prim.Native.String.{String}
use hiveguard.Prelude.{ℕ, ◌≤◌, ◌≡◌, refl, sym, ◌∙◌, arith, some, Option-cases, inl, inr}
use hiveguard.Models.{BanRecord}
use mathlib.Core.Path.{subst}
use hiveguard.Errors.{Result, ok_inj}
use hiveguard.Crypto.{Bytes}
use hiveguard.Hashcash.{min_difficulty, mine}
use hiveguard.Hashcash.Mining.{mine-verify}
use hiveguard.SignedRecord.{SignedBanRecord, Crates, u64_max, sign_canonical, sign, verify}

-- A record that is signed with success at an accepted difficulty is unchanged, names its signer,
-- and verifies under the public key of the pair that signed it: both the signature and the stamp.
pub verify-sign :
    (crates : Crates) (r : BanRecord) (node_id : String) (pkcs8 : Bytes) (difficulty : ℕ)
    (key_pair : crates.ed25519.KeyPair) (s : SignedBanRecord)
    → crates.ed25519.from_pkcs8 pkcs8 ≡ some key_pair
    → min_difficulty ≤ difficulty
    → sign crates r node_id pkcs8 difficulty ≡ Result.ok s
    → (s.ban ≡ r)
      × (s.signer_id ≡ node_id)
      × (s.pow.difficulty ≡ difficulty)
      × (verify crates (crates.ed25519.public_key key_pair) s ≡ Result.ok tt)
unfolding sign sign_canonical verify
verify-sign crates r node_id pkcs8 difficulty key_pair s k l h =
    elim (Option-cases (crates.serialize r)) [
      | inl unencoded ↦ absurd (ground (arith, h, unencoded))
      | inr (canonical, encoded) ↦
          elim (Option-cases (mine crates.blake3 canonical difficulty u64_max)) [
            | inl none_found ↦ absurd (ground (arith, h, encoded, none_found, k))
            | inr (pow, mined) ↦
                let v = (mine-verify crates.blake3 canonical difficulty u64_max l).0 pow mined in
                let signed : SignedBanRecord = record {
                  ban = r;
                  signer_id = node_id;
                  signature = crates.ed25519.sign key_pair canonical;
                  pow = pow;
                } in
                let run : sign crates r node_id pkcs8 difficulty ≡ Result.ok signed =
                  rw (sign, encoded) (rw (sign_canonical, k) (rw (sign_canonical, mined) refl)) in
                subst
                  (λ s.
                    (s.ban ≡ r)
                    × (s.signer_id ≡ node_id)
                    × (s.pow.difficulty ≡ difficulty)
                    × (verify crates (crates.ed25519.public_key key_pair) s ≡ Result.ok tt))
                  (ok_inj signed s (sym run ∙ h))
                  (
                    refl,
                    refl,
                    v.1,
                    rw (verify, encoded)
                        (rw (verify, crates.ed25519.verify-sign key_pair canonical) (rw v.0 refl)),
                  )
          ]
    ]
