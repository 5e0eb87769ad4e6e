-- ===== src/Tests/Merkle.antt =====
-- hiveguard-net/src/merkle.rs: two nodes with different subjects.
use mathlib.Core.List.{Permᴰ}
use hiveguard.Prelude.{◌≡◌, refl, not, [], ◌∷◌}
use hiveguard.Prelude.OrdSet.{contains}
use hiveguard.Prelude.Ord.{nat_ord}
use hiveguard.Merkle.{build, root_hash_only, diff_buckets}
use hiveguard.Merkle.Order
use hiveguard.Merkle.Buckets.{bucket_hash}
use hiveguard.Merkle.Diff
use hiveguard.Merkle.Diff.{agree}
use hiveguard.Tests.CratesLib.{blake3}

build-Perm_example :
    (build blake3 ("a" ∷ "b" ∷ "c" ∷ []) ≡ build blake3 ("b" ∷ "a" ∷ "c" ∷ []))
    × (root_hash_only blake3 ("a" ∷ "b" ∷ "c" ∷ []) ≡ root_hash_only blake3 ("b" ∷ "a" ∷ "c" ∷ []))
build-Perm_example =
    Order.build-Perm blake3 ("a" ∷ "b" ∷ "c" ∷ []) ("b" ∷ "a" ∷ "c" ∷ []) (Permᴰ.swap refl refl)

diff_buckets-build_example :
    contains (diff_buckets (build blake3 ("a" ∷ "b" ∷ [])) (build blake3 ("b" ∷ "c" ∷ []))) 2
    ≡ not (agree (bucket_hash blake3 2 ("a" ∷ "b" ∷ [])) (bucket_hash blake3 2 ("b" ∷ "c" ∷ [])))
diff_buckets-build_example = Diff.diff_buckets-build blake3 ("a" ∷ "b" ∷ []) ("b" ∷ "c" ∷ []) 2
