-- ===== src/Merkle/Order.antt =====
-- The order in which the subjects are listed does not matter to a digest.
use Prim.Native.Nat.{compare}
use Prim.Native.Nat.Ordering.{lt, eq, gt}
use Prim.Native.String.{String}
use mathlib.Core.Path.{ap₂}
use mathlib.Core.List.{Permᴰ}
use mathlib.Core.List.Permᴰ.{nil, cons, swap, trans, middle, append-nil}
use hiveguard.Prelude.{ℕ, suc, ◌≡◌, refl, sym, ap, ◌∙◌, arith, List, [], ◌∷◌, ◌++◌, length}
use hiveguard.Prelude.Map.{HashMap}
use hiveguard.Prelude.Ord.{nat_ord}
use hiveguard.Prelude.StringOrd.{string_ord}
use hiveguard.Prelude.Sort.{sort, insert_sorted, insert_sorted_comm, sort-Perm}
use hiveguard.Crypto.{Blake3, as_bytes}
use hiveguard.Gossip.{join}
use hiveguard.Merkle.{
  push, sort_entries, bucket_key, group, hash_entries, MerkleDigest, concat_hashes, build,
  root_hash_only,
}

-- A subject among the sorted entries of its bucket.
unfoldable push_sorted : ℕ → String → HashMap ℕ (List String) → HashMap ℕ (List String)
push_sorted key subject [] = (key, subject ∷ []) ∷ []
push_sorted key subject ((k, entries) ∷ rest) =
    let pushed = push_sorted key subject rest in
    elim (compare key k) [
      | lt ↦ (key, subject ∷ []) ∷ (k, entries) ∷ rest
      | eq ↦ (k, insert_sorted subject entries) ∷ rest
      | gt ↦ (k, entries) ∷ pushed
    ]

sort-snoc : (x : String) (xs : List String) → sort (xs ++ (x ∷ [])) ≡ insert_sorted x (sort xs)
unfolding sort
sort-snoc x xs = sort-Perm (trans (middle x xs []) (cons refl (append-nil xs)))

sort_entries-push :
    (key : ℕ) (subject : String) (m : HashMap ℕ (List String))
    → sort_entries (push key subject m) ≡ push_sorted key subject (sort_entries m)
unfolding sort_entries push push_sorted sort insert_sorted
sort_entries-push key subject [] = refl
sort_entries-push key subject ((k, entries) ∷ m) =
    ground (arith, sort-snoc subject entries, sort_entries-push key subject m)

push_sorted_comm :
    (j k : ℕ) (x y : String) (m : HashMap ℕ (List String))
    → push_sorted j x (push_sorted k y m) ≡ push_sorted k y (push_sorted j x m)
unfolding push_sorted insert_sorted
push_sorted_comm j k x y [] = ground (
  arith,
  insert_sorted_comm x y [],
  nat_ord.same_of_eq j k,
  nat_ord.flip_gt j k,
  nat_ord.flip_lt j k,
  nat_ord.cmp_self j,
)
push_sorted_comm j k x y ((i, entries) ∷ m) = ground (
  arith,
  push_sorted_comm j k x y m,
  insert_sorted_comm x y entries,
  insert_sorted_comm x y [],
  nat_ord.same_of_eq j k,
  nat_ord.same_of_eq j i,
  nat_ord.same_of_eq k i,
  nat_ord.flip_gt j k,
  nat_ord.flip_gt k j,
  nat_ord.flip_gt j i,
  nat_ord.flip_gt k i,
  nat_ord.flip_lt j k,
  nat_ord.flip_lt k j,
  nat_ord.flip_lt j i,
  nat_ord.flip_lt k i,
  nat_ord.lt_chain i j k,
  nat_ord.lt_chain i k j,
  nat_ord.lt_chain j k i,
  nat_ord.lt_chain k j i,
  nat_ord.lt_chain j i k,
  nat_ord.lt_chain k i j,
  nat_ord.cmp_self i,
  nat_ord.cmp_self j,
  nat_ord.cmp_self k,
)

length-Perm : {xs ys : List String} → Permᴰ xs ys → length xs ≡ length ys
length-Perm nil = refl
length-Perm (cons e p) = ap suc (length-Perm p)
length-Perm (swap e g) = refl
length-Perm (trans p q) = length-Perm p ∙ length-Perm q

module _ (blake3 : Blake3) where
  -- The buckets with their entries sorted after each subject.
  unfoldable group_sorted : List String → HashMap ℕ (List String) → HashMap ℕ (List String)
  group_sorted [] m = m
  group_sorted (subject ∷ subjects) m =
      group_sorted subjects (push_sorted (bucket_key blake3 subject) subject m)

  sort_entries-group :
      (subjects : List String) (m : HashMap ℕ (List String))
      → sort_entries (group blake3 subjects m) ≡ group_sorted subjects (sort_entries m)
  unfolding group group_sorted
  sort_entries-group [] m = refl
  sort_entries-group (subject ∷ subjects) m =
      sort_entries-group subjects (push (bucket_key blake3 subject) subject m)
      ∙ ap (group_sorted subjects) (sort_entries-push (bucket_key blake3 subject) subject m)

  group_sorted-Perm :
      {xs ys : List String} (m : HashMap ℕ (List String))
      → Permᴰ xs ys
      → group_sorted xs m ≡ group_sorted ys m
  unfolding group_sorted
  group_sorted-Perm m nil = refl
  group_sorted-Perm m (cons {a} {b} {l₁} {l₂} e p) =
      ap (λ s. group_sorted l₁ (push_sorted (bucket_key blake3 s) s m)) e
      ∙ group_sorted-Perm (push_sorted (bucket_key blake3 b) b m) p
  group_sorted-Perm m (swap {a} {b} {a'} {b'} {l} e g) =
      let at = λ (s : String). push_sorted (bucket_key blake3 s) s in
      ap₂ (λ s t. group_sorted l (at t (at s m))) e g
      ∙ ap (group_sorted l) (push_sorted_comm (bucket_key blake3 a') (bucket_key blake3 b') a' b' m)
  group_sorted-Perm m (trans p q) = group_sorted-Perm m p ∙ group_sorted-Perm m q

  -- Two nodes that list the same subjects, in whatever order, have the same digest: the same root,
  -- the same buckets and the same count, and also the same plain root hash.
  pub build-Perm :
      (xs ys : List String)
      → Permᴰ xs ys
      → (build blake3 xs ≡ build blake3 ys) × (root_hash_only blake3 xs ≡ root_hash_only blake3 ys)
  unfolding build root_hash_only sort_entries
  build-Perm xs ys p =
      let same =
        sort_entries-group xs [] ∙ group_sorted-Perm [] p ∙ sym (sort_entries-group ys []) in
      let digest : HashMap ℕ (List String) → ℕ → MerkleDigest = λ m n. record {
        root_hash = blake3.hash (concat_hashes (hash_entries blake3 m));
        buckets = hash_entries blake3 m;
        entry_count = n;
      } in
      (
        ap₂ digest same (length-Perm p),
        ap (λ (l : List String). blake3.hash (as_bytes (join "," l))) (sort-Perm p),
      )
