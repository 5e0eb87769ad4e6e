-- ===== src/Tests/CratesLib.antt =====
-- Stand-ins for blake3, ed25519 and bincode, for the runs of the other tests.
use hiveguard.Prelude.{◌%◌, ◌<◌, ◌≡◌, refl, arith, [], ◌∷◌, ◌++◌, some, length, replicate, All}
use hiveguard.Crypto.{Bytes, Blake3, Ed25519, bytes_beq, bytes_beq_iff}
use hiveguard.SignedRecord.{Crates}
use hiveguard.Tests.Codec.{sum}

-- Two bytes of the text's sum, and thirty others.
unfoldable pub hash : Bytes → Bytes
hash text = (sum text % 5) ∷ (sum text % 5) ∷ replicate 30 7

pub hash_bytes : (text : Bytes) → All (λ b. b < 256) (hash text)
unfolding hash
hash_bytes text = omega arith

pub length-hash : (text : Bytes) → length (hash text) ≡ 32
unfolding hash
length-hash text = refl

unfoldable pub blake3 : Blake3
unfolding hash
blake3 = record { hash = hash; length-hash = length-hash; hash_bytes = hash_bytes }

unfoldable pub ed25519 : Ed25519
ed25519 = record {
  KeyPair = Bytes;
  from_pkcs8 = λ b. some b;
  public_key = λ k. k;
  sign = λ k text. k ++ text;
  verify = λ k text s. bytes_beq s (k ++ text);
  verify-sign = λ k text. (bytes_beq_iff (k ++ text) (k ++ text)).1 refl;
}

unfoldable pub crates : Crates
unfolding blake3 ed25519
crates = record {
  blake3 = blake3;
  ed25519 = ed25519;
  serialize = λ r. some (r.severity ∷ []);
  serialize_signed = λ s. some (s.ban.severity ∷ s.pow.nonce ∷ s.signature);
}
