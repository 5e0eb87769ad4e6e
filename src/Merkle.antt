-- ===== src/Merkle.antt =====
-- hiveguard-net/src/merkle.rs: digests of a node's subjects, in buckets by the first byte of the
-- subject's hash. A BTreeMap is a list in the order of its keys.
pub mod Order
pub mod Buckets
pub mod Diff
use Prim.Native.Nat.{compare}
use Prim.Native.Nat.Ordering.{lt, eq, gt}
use Prim.Native.String.{String}
use hiveguard.Prelude.{
  ℕ, Bool, true, false, not, List, [], ◌∷◌, ◌++◌, map, Option, none, some, length, any, retain,
  ◌==◌,
}
use hiveguard.Prelude.Eq.{nat_eq}
use hiveguard.Prelude.Map.{HashMap, lookup, is_some}
use hiveguard.Prelude.StringOrd.{string_ord}
use hiveguard.Prelude.Ord.{nat_ord}
use hiveguard.Prelude.OrdSet as OrdSet
use hiveguard.Prelude.Sort.{sort}
use hiveguard.Crypto.{Bytes, Blake3, bytes_beq, as_bytes}
use hiveguard.Gossip.{join}

pub record MerkleDigest : Type 0 where
  pub root_hash : Bytes
  pub buckets : HashMap ℕ Bytes
  pub entry_count : ℕ

-- `hash.as_bytes()[0]`
unfoldable pub first_byte : Bytes → ℕ
first_byte [] = 0
first_byte (b ∷ bs) = b

-- `buckets.entry(key).or_default().push(subject)`
unfoldable pub push : ℕ → String → HashMap ℕ (List String) → HashMap ℕ (List String)
push key subject [] = (key, subject ∷ []) ∷ []
push key subject ((k, entries) ∷ rest) =
    let pushed = push key subject rest in
    elim (compare key k) [
      | lt ↦ (key, subject ∷ []) ∷ (k, entries) ∷ rest
      | eq ↦ (k, entries ++ (subject ∷ [])) ∷ rest
      | gt ↦ (k, entries) ∷ pushed
    ]

-- `entries.sort()` on every bucket
unfoldable pub sort_entries : HashMap ℕ (List String) → HashMap ℕ (List String)
sort_entries = map (λ (e : ℕ × List String). (e.0, sort e.1))

-- A hasher that is fed each of the hashes.
unfoldable pub concat_hashes : HashMap ℕ Bytes → Bytes
concat_hashes [] = []
concat_hashes ((_, hash) ∷ rest) = hash ++ concat_hashes rest

module _ (blake3 : Blake3) where
  unfoldable pub bucket_key : String → ℕ
  bucket_key subject = first_byte (blake3.hash (as_bytes subject))

  unfoldable pub group : List String → HashMap ℕ (List String) → HashMap ℕ (List String)
  group [] buckets = buckets
  group (subject ∷ subjects) buckets = group subjects (push (bucket_key subject) subject buckets)

  unfoldable pub hash_entries : HashMap ℕ (List String) → HashMap ℕ Bytes
  hash_entries = map (λ (e : ℕ × List String). (e.0, blake3.hash (as_bytes (join "," e.1))))

  unfoldable pub build : List String → MerkleDigest
  build subjects =
      let bucket_hashes = hash_entries (sort_entries (group subjects [])) in
      record {
        root_hash = blake3.hash (concat_hashes bucket_hashes);
        buckets = bucket_hashes;
        entry_count = length subjects;
      }

  unfoldable pub root_hash_only : List String → Bytes
  root_hash_only subjects = blake3.hash (as_bytes (join "," (sort subjects)))

  unfoldable pub subjects_in_buckets : List String → List ℕ → List String
  subjects_in_buckets subjects buckets =
      retain (λ s. any (λ key. key == bucket_key s) buckets) subjects

unfoldable pub matches : MerkleDigest → MerkleDigest → Bool
matches d other = bytes_beq d.root_hash other.root_hash

-- Whether a bucket has the same hash in a digest's buckets.
unfoldable pub is_same : HashMap ℕ Bytes → ℕ × Bytes → Bool
is_same other (key, hash) = elim (lookup key other) [
  | some other_hash ↦ bytes_beq other_hash hash
  | none ↦ false
]

-- The result is sorted and without repetitions: a sorted set.
unfoldable pub to_set : List ℕ → List ℕ
to_set [] = []
to_set (key ∷ keys) = OrdSet.insert key (to_set keys)

unfoldable pub keys_of : HashMap ℕ Bytes → List ℕ
keys_of = map (λ (e : ℕ × Bytes). e.0)

unfoldable pub diff_buckets : MerkleDigest → MerkleDigest → List ℕ
diff_buckets d other =
    let changed = keys_of (retain (λ e. not (is_same other.buckets e)) d.buckets) in
    let added = retain (λ key. not (is_some (lookup key d.buckets))) (keys_of other.buckets) in
    to_set (changed ++ added)
