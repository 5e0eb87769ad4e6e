-- ===== src/Merkle/Buckets.antt =====
-- What the buckets of a digest hold: the buckets are sorted by their keys, and each has the
-- subjects whose hash begins with its key.
use Prim.Native.Nat.{compare}
use Prim.Native.Nat.Ordering.{lt}
use Prim.Native.String.{String}
use mathlib.Core.Path.{subst}
use hiveguard.Prelude.{
  ℕ, ◌≡◌, refl, sym, ap, ◌∙◌, arith, List, [], ◌∷◌, ◌++◌, Option, none, some, ◌==◌, ==_iff, retain,
  if◌then◌else◌,
}
use hiveguard.Prelude.Eq.{nat_eq}
use hiveguard.Prelude.Ord.{nat_ord}
use hiveguard.Prelude.StringOrd.{string_ord}
use hiveguard.Prelude.OrdSet.{Above, Above-trans, IsSorted}
use hiveguard.Prelude.Map.{HashMap, Distinct, lookup}
use hiveguard.Prelude.Sort.{sort}
use hiveguard.Crypto.{Bytes, Blake3, as_bytes}
use hiveguard.Gossip.{join}
use hiveguard.Merkle.{push, sort_entries, bucket_key, group, hash_entries, build}

abbrev keys : {V : Type 0} → HashMap ℕ V → List ℕ
keys [] = []
keys (e ∷ m) = e.0 ∷ keys m

lookup-Above : {V : Type 0} (k : ℕ) (m : HashMap ℕ V) → Above k (keys m) → lookup k m ≡ none
unfolding lookup
lookup-Above k [] h = refl
lookup-Above k ((j, v) ∷ m) h =
    ground (arith, h.0, lookup-Above k m h.1, nat_ord.cmp_self k, ==_iff j k)

Distinct-IsSorted : {V : Type 0} (m : HashMap ℕ V) → IsSorted (keys m) → Distinct m
Distinct-IsSorted [] h = tt
Distinct-IsSorted ((j, v) ∷ m) h = (lookup-Above j m h.0, Distinct-IsSorted m h.1)

Above-push :
    (i k : ℕ) (s : String) (m : HashMap ℕ (List String))
    → compare i k ≡ lt
    → Above i (keys m)
    → Above i (keys (push k s m))
unfolding push
Above-push i k s [] l h = (l, tt)
Above-push i k s ((j, v) ∷ m) l h = ground (arith, Above-push i k s m l h.1, h.0, h.1)

push-IsSorted :
    (k : ℕ) (s : String) (m : HashMap ℕ (List String))
    → IsSorted (keys m)
    → IsSorted (keys (push k s m))
unfolding push
push-IsSorted k s [] h = (tt, tt)
push-IsSorted k s ((j, v) ∷ m) h = ground (
  arith,
  nat_ord.same_of_eq k j,
  nat_ord.flip_gt k j,
  Above-trans k j (keys m),
  Above-push j k s m,
  push-IsSorted k s m h.1,
  h.0,
  h.1,
)

-- A bucket with further subjects.
abbrev grow : Option (List String) → List String → Option (List String)
grow none [] = none
grow none (x ∷ xs) = some (x ∷ xs)
grow (some entries) xs = some (entries ++ xs)

lookup-push :
    (i k : ℕ) (s : String) (m : HashMap ℕ (List String))
    → IsSorted (keys m)
    → lookup i (push k s m) ≡ (if k == i then grow (lookup i m) (s ∷ []) else lookup i m)
unfolding push lookup
lookup-push i k s [] h = ground arith
lookup-push i k s ((j, v) ∷ m) h = ground (
  arith,
  nat_ord.same_of_eq k j,
  nat_ord.cmp_self k,
  ==_iff j i,
  ==_iff k i,
  ==_iff k j,
  lookup-Above k ((j, v) ∷ m),
  Above-trans k j (keys m),
  lookup-Above k m,
  lookup-push i k s m h.1,
  h.0,
)

append_assoc : (xs ys zs : List String) → (xs ++ ys) ++ zs ≡ xs ++ (ys ++ zs)
append_assoc [] ys zs = refl
append_assoc (x ∷ xs) ys zs = ap (λ l. x ∷ l) (append_assoc xs ys zs)

append_nil : (xs : List String) → xs ++ [] ≡ xs
append_nil [] = refl
append_nil (x ∷ xs) = ap (λ l. x ∷ l) (append_nil xs)

grow_nil : (o : Option (List String)) → grow o [] ≡ o
grow_nil none = refl
grow_nil (some entries) = ap some (append_nil entries)

grow_more :
    (o : Option (List String)) (x : String) (xs : List String)
    → grow (grow o (x ∷ [])) xs ≡ grow o (x ∷ xs)
grow_more none x xs = refl
grow_more (some entries) x xs = ap some (append_assoc entries (x ∷ []) xs)

module _ (blake3 : Blake3) where
  -- The subjects of a bucket.
  abbrev pub subjects_of : ℕ → List String → List String
  subjects_of k subjects = retain (λ s. bucket_key blake3 s == k) subjects

  group-IsSorted :
      (subjects : List String) (m : HashMap ℕ (List String))
      → IsSorted (keys m)
      → IsSorted (keys (group blake3 subjects m))
  unfolding group
  group-IsSorted [] m h = h
  group-IsSorted (s ∷ subjects) m h =
      group-IsSorted subjects (push (bucket_key blake3 s) s m)
        (push-IsSorted (bucket_key blake3 s) s m h)

  lookup-group :
      (k : ℕ) (subjects : List String) (m : HashMap ℕ (List String))
      → IsSorted (keys m)
      → lookup k (group blake3 subjects m) ≡ grow (lookup k m) (subjects_of k subjects)
  unfolding group retain
  lookup-group k [] m h = sym (grow_nil (lookup k m))
  lookup-group k (s ∷ subjects) m h =
      let j = bucket_key blake3 s in
      ground (
        arith,
        lookup-group k subjects (push j s m) (push-IsSorted j s m h),
        lookup-push k j s m h,
        grow_more (lookup k m) s (subjects_of k subjects),
      )

  -- What a digest has to say of a bucket: nothing if no subject is in it, and else the hash of its
  -- subjects in their order.
  abbrev hash_of : Option (List String) → Option Bytes
  hash_of none = none
  hash_of (some entries) = some (blake3.hash (as_bytes (join "," (sort entries))))

  abbrev pub bucket_hash : ℕ → List String → Option Bytes
  bucket_hash k subjects = hash_of (grow none (subjects_of k subjects))

  lookup-hashed :
      (k : ℕ) (m : HashMap ℕ (List String))
      → lookup k (hash_entries blake3 (sort_entries m)) ≡ hash_of (lookup k m)
  unfolding lookup hash_entries sort_entries
  lookup-hashed k [] = refl
  lookup-hashed k ((j, entries) ∷ m) = ground (arith, lookup-hashed k m)

  keys-hashed : (m : HashMap ℕ (List String)) → keys (hash_entries blake3 (sort_entries m)) ≡ keys m
  unfolding hash_entries sort_entries
  keys-hashed [] = refl
  keys-hashed ((j, entries) ∷ m) = ap (λ l. j ∷ l) (keys-hashed m)

  pub build-Distinct : (subjects : List String) → Distinct (build blake3 subjects).buckets
  unfolding build
  build-Distinct subjects = Distinct-IsSorted (build blake3 subjects).buckets (
      subst IsSorted (sym (keys-hashed (group blake3 subjects []))) (group-IsSorted subjects [] tt))

  pub lookup-build :
      (k : ℕ) (subjects : List String)
      → lookup k (build blake3 subjects).buckets ≡ bucket_hash k subjects
  unfolding build lookup
  lookup-build k subjects =
      lookup-hashed k (group blake3 subjects []) ∙ ap hash_of (lookup-group k subjects [] tt)
