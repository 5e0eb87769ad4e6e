-- ===== src/Crypto.antt =====
-- What the source takes from the crates blake3, ring and bincode, with the behaviour it relies on,
-- and the bytes of a text.
use Prim.Native.Char.{code}
use Prim.Native.String as Str
use Prim.Native.String.{String}
use hiveguard.Prelude.{
  ℕ, zero, suc, ◌+◌, ◌*◌, ◌/◌, ◌%◌, ◌<◌, ◌≡◌, refl, arith, true, false, Bool, ◌&&◌, ◌==◌, ◌↔◌,
  ==_iff, List, [], ◌∷◌, ◌++◌, Option, length, All, ltb, if◌then◌else◌,
}
use hiveguard.Prelude.Eq.{Eq}

abbrev pub Bytes : Type 0
Bytes = List ℕ

-- `blake3::hash`, or a `Hasher` that is fed the parts of the text one after the other.
pub record Blake3 : Type 0 where
  pub hash : Bytes → Bytes
  pub length-hash : (text : Bytes) → length (hash text) ≡ 32
  pub hash_bytes : (text : Bytes) → All (λ b. b < 256) (hash text)

-- `ring::signature`: a key pair is read from its PKCS#8 form, and its signatures verify under its
-- public key.
pub record Ed25519 : Type 1 where
  pub KeyPair : Type 0
  pub from_pkcs8 : Bytes → Option KeyPair
  pub public_key : KeyPair → Bytes
  pub sign : KeyPair → Bytes → Bytes
  pub verify : Bytes → Bytes → Bytes → Bool
  pub verify-sign : (k : KeyPair) (text : Bytes) → verify (public_key k) text (sign k text) ≡ true

unfoldable pub bytes_beq : Bytes → Bytes → Bool
bytes_beq [] [] = true
bytes_beq [] (b ∷ bs) = false
bytes_beq (a ∷ as1) [] = false
bytes_beq (a ∷ as1) (b ∷ bs) = a == b && bytes_beq as1 bs

pub bytes_beq_iff : (as1 bs : Bytes) → (bytes_beq as1 bs ≡ true) ↔ (as1 ≡ bs)
unfolding bytes_beq
bytes_beq_iff [] [] = (λ h. refl, λ h. refl)
bytes_beq_iff [] (b ∷ bs) = (λ h. ground arith, λ h. ground arith)
bytes_beq_iff (a ∷ as1) [] = (λ h. ground arith, λ h. ground arith)
bytes_beq_iff (a ∷ as1) (b ∷ bs) =
    let ih = bytes_beq_iff as1 bs in
    (λ h. ground (arith, ==_iff a b, ih), λ h. ground (arith, ==_iff a b, ih))

instance unfoldable pub bytes_eq : Eq Bytes
bytes_eq = record { beq = bytes_beq; beq_iff = bytes_beq_iff }

-- `n.to_le_bytes()` at a width of `k` bytes.
unfoldable pub to_le_bytes : ℕ → ℕ → Bytes
to_le_bytes zero n = []
to_le_bytes (suc k) n = n % 256 ∷ to_le_bytes k (n / 256)

-- `from_le_bytes`
unfoldable pub from_le_bytes : Bytes → ℕ
from_le_bytes [] = 0
from_le_bytes (b ∷ bs) = b + 256 * from_le_bytes bs

-- The UTF-8 form of a character.
unfoldable pub encode_utf8 : ℕ → Bytes
encode_utf8 c =
    if ltb c 0x80
    then c ∷ []
    else if ltb c 0x800
    then (0xc0 + c / 64) ∷ (0x80 + c % 64) ∷ []
    else if ltb c 0x10000
    then (0xe0 + c / 4096) ∷ (0x80 + c / 64 % 64) ∷ (0x80 + c % 64) ∷ []
    else (0xf0 + c / 262144) ∷ (0x80 + c / 4096 % 64) ∷ (0x80 + c / 64 % 64) ∷ (0x80 + c % 64) ∷ []

unfoldable pub as_bytes : String → Bytes
as_bytes Str.[] = []
as_bytes (Str.◌∷◌ c s) = encode_utf8 (code c) ++ as_bytes s
