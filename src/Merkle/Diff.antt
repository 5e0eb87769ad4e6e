-- ===== src/Merkle/Diff.antt =====
-- What the difference of two digests holds.
use Prim.Native.String.{String}
use hiveguard.Prelude.{
  ℕ, ◌≡◌, refl, ap, ◌∙◌, arith, Bool, true, false, not, ◌&&◌, List, [], ◌∷◌, ◌++◌, Option, none,
  some, ◌==◌, ==_iff, any, any-append, retain,
}
use hiveguard.Prelude.Eq.{nat_eq}
use hiveguard.Prelude.Ord.{nat_ord}
use hiveguard.Prelude.OrdSet.{contains, contains-insert}
use hiveguard.Prelude.Map.{HashMap, Distinct, lookup, is_some, lookup-retain}
use hiveguard.Crypto.{Bytes, Blake3, bytes_beq}
use hiveguard.Merkle.Buckets.{bucket_hash, build-Distinct, lookup-build}
use hiveguard.Merkle.{MerkleDigest, build, is_same, to_set, keys_of, diff_buckets}

-- Two digests have the same of a bucket: the same hash, or neither has the bucket.
abbrev pub agree : Option Bytes → Option Bytes → Bool
agree none none = true
agree none (some _) = false
agree (some _) none = false
agree (some hash) (some other_hash) = bytes_beq other_hash hash

contains-to_set : (keys : List ℕ) (k : ℕ) → contains (to_set keys) k ≡ any (λ key. key == k) keys
unfolding contains to_set any
contains-to_set [] k = refl
contains-to_set (key ∷ keys) k = ground (
  arith,
  contains-insert key k (to_set keys),
  contains-to_set keys k,
  nat_ord.same_of_eq key k,
  nat_ord.cmp_self k,
  ==_iff key k,
)

any-keys_of :
    (m : HashMap ℕ Bytes) (k : ℕ) → any (λ key. key == k) (keys_of m) ≡ is_some (lookup k m)
unfolding any keys_of lookup
any-keys_of [] k = refl
any-keys_of ((key, hash) ∷ m) k = ground (arith, any-keys_of m k)

any-retain :
    (q : ℕ → Bool) (keys : List ℕ) (k : ℕ)
    → any (λ key. key == k) (retain q keys) ≡ (q k && any (λ key. key == k) keys)
unfolding any retain
any-retain q [] k = ground arith
any-retain q (key ∷ keys) k = ground (arith, any-retain q keys k, ==_iff key k)

-- A key is in the difference exactly if the two digests do not agree on its bucket.
diff_buckets-agree :
    (d other : MerkleDigest) (k : ℕ)
    → Distinct d.buckets
    → contains (diff_buckets d other) k ≡ not (agree (lookup k d.buckets) (lookup k other.buckets))
unfolding diff_buckets is_same
diff_buckets-agree d other k h =
    let p = λ (e : ℕ × Bytes). not (is_same other.buckets e) in
    let q = λ (key : ℕ). not (is_some (lookup key d.buckets)) in
    let changed = keys_of (retain p d.buckets) in
    let added = retain q (keys_of other.buckets) in
    ground (
      arith,
      contains-to_set (changed ++ added) k,
      any-append (λ key. key == k) changed added,
      any-keys_of (retain p d.buckets) k,
      lookup-retain k p d.buckets h,
      any-retain q (keys_of other.buckets) k,
      any-keys_of other.buckets k,
    )

-- The difference of the digests of two nodes holds a bucket exactly if their subjects in it have
-- not the same hash, taken in sorted order, or only one of the nodes has subjects in it.
pub diff_buckets-build :
    (blake3 : Blake3) (xs ys : List String) (k : ℕ)
    → contains (diff_buckets (build blake3 xs) (build blake3 ys)) k
      ≡ not (agree (bucket_hash blake3 k xs) (bucket_hash blake3 k ys))
diff_buckets-build blake3 xs ys k =
    diff_buckets-agree (build blake3 xs) (build blake3 ys) k (build-Distinct blake3 xs)
    ∙ ap (λ (o : Option Bytes). not (agree o (lookup k (build blake3 ys).buckets)))
        (lookup-build blake3 k xs)
    ∙ ap (λ (o : Option Bytes). not (agree (bucket_hash blake3 k xs) o)) (lookup-build blake3 k ys)
