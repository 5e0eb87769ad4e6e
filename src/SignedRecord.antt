-- ===== src/SignedRecord.antt =====
-- hiveguard-net/src/signed_record.rs: signed ban records, and the cache of their signatures. The
-- field `record` is `ban` here; the texts of errors are left out.
pub mod Signing
pub mod Cache
pub mod Fresh
use Prim.Native.Nat.{max}
use Prim.Native.String.{String}
use hiveguard.Prelude.{
  ℕ, ◌+◌, ◌-◌, ◌^◌, Bool, true, false, List, [], ◌∷◌, ◌++◌, Option, none, some, length, leb,
  if◌then◌else◌,
}
use hiveguard.Prelude.Map.{HashMap, lookup, insert, remove}
use hiveguard.Models.{BanRecord}
use hiveguard.Errors.{Result, HiveGuardError, ok, err}
use hiveguard.Crypto.{Bytes, Blake3, Ed25519, bytes_eq, as_bytes}
use hiveguard.Hashcash
use hiveguard.Hashcash.{PowStamp, mine}

pub record SignedBanRecord : Type 0 where
  pub ban : BanRecord
  pub signer_id : String
  pub signature : Bytes
  pub pow : PowStamp

-- The crates, with bincode's encodings of a record and of a signed one.
pub record Crates : Type 1 where
  pub blake3 : Blake3
  pub ed25519 : Ed25519
  pub serialize : BanRecord → Option Bytes
  pub serialize_signed : SignedBanRecord → Option Bytes

unfoldable pub u64_max : ℕ
u64_max = 2 ^ 64 - 1

pub record SigningCache : Type 0 where
  pub entries : HashMap Bytes SignedBanRecord
  pub capacity : ℕ
  pub insertion_order : List Bytes
  pub hits : ℕ
  pub misses : ℕ

unfoldable pub new : ℕ → SigningCache
new capacity = record {
  entries = [];
  capacity = max capacity 1;
  insertion_order = [];
  hits = 0;
  misses = 0;
}

-- `pop_front` of the order, and the removal of that key.
unfoldable pub evict_oldest : SigningCache → SigningCache
evict_oldest c = elim c.insertion_order [
  | [] ↦ c
  | oldest ∷ rest ↦ record c { entries = remove oldest c.entries; insertion_order = rest }
]

unfoldable pub remember : Bytes → SignedBanRecord → SigningCache → SigningCache
remember key signed c =
    let counted = record c { misses = c.misses + 1 } in
    let c' =
      if leb counted.capacity (length counted.entries) then evict_oldest counted else counted in
    record c' {
      insertion_order = c'.insertion_order ++ (key ∷ []);
      entries = insert key signed c'.entries;
    }

module _ (crates : Crates) where
  unfoldable pub sign_canonical : BanRecord → Bytes → String → Bytes → ℕ → Result SignedBanRecord
  sign_canonical r canonical node_id pkcs8 difficulty = elim (crates.ed25519.from_pkcs8 pkcs8) [
    | none ↦ Result.err HiveGuardError.protocol
    | some key_pair ↦ elim (mine crates.blake3 canonical difficulty u64_max) [
      | none ↦ Result.err HiveGuardError.protocol
      | some pow ↦ Result.ok (record {
        ban = r;
        signer_id = node_id;
        signature = crates.ed25519.sign key_pair canonical;
        pow = pow;
      })
    ]
  ]

  -- `SignedBanRecord::sign`
  unfoldable pub sign : BanRecord → String → Bytes → ℕ → Result SignedBanRecord
  sign r node_id pkcs8 difficulty = elim (crates.serialize r) [
    | none ↦ Result.err HiveGuardError.protocol
    | some canonical ↦ sign_canonical r canonical node_id pkcs8 difficulty
  ]

  unfoldable pub verify : Bytes → SignedBanRecord → Result (Unit {0})
  verify public_key s = elim (crates.serialize s.ban) [
    | none ↦ Result.err HiveGuardError.protocol
    | some canonical ↦
        if crates.ed25519.verify public_key canonical s.signature
        then if Hashcash.verify crates.blake3 s.pow canonical
          then Result.ok tt
          else Result.err HiveGuardError.protocol
        else Result.err HiveGuardError.protocol
  ]

  unfoldable pub cache_key : String → ℕ → Bytes → Bytes
  cache_key node_id difficulty canonical =
      crates.blake3.hash (as_bytes node_id ++ (difficulty ∷ canonical))

  -- What is done with a record whose encoding and key are known.
  unfoldable pub sign_keyed :
      BanRecord
      → Bytes
      → Bytes
      → String
      → Bytes
      → ℕ
      → SigningCache
      → SigningCache × Result SignedBanRecord
  sign_keyed r canonical key node_id pkcs8 difficulty c = elim (lookup key c.entries) [
    | some hit ↦ (record c { hits = c.hits + 1 }, Result.ok hit)
    | none ↦ elim (sign_canonical r canonical node_id pkcs8 difficulty) [
      | err e ↦ (c, Result.err e)
      | ok signed ↦ (remember key signed c, Result.ok signed)
    ]
  ]

  -- `SigningCache::sign`
  unfoldable pub sign_cached :
      BanRecord → String → Bytes → ℕ → SigningCache → SigningCache × Result SignedBanRecord
  sign_cached r node_id pkcs8 difficulty c = elim (crates.serialize r) [
    | none ↦ (c, Result.err HiveGuardError.protocol)
    | some canonical ↦
        sign_keyed r canonical (cache_key node_id difficulty canonical) node_id pkcs8 difficulty c
  ]
