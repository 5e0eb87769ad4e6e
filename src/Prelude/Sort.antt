-- ===== src/Prelude/Sort.antt =====
-- Sorting by a total order, with repetitions kept, and lists up to order.
use mathlib.Core.Path.{◌≡◌, refl, ap, ap₂, ◌∙◌}
use mathlib.Core.List.{map, List, [], ◌∷◌, Permᴰ}
use mathlib.Core.List.Permᴰ.{nil, cons, swap, trans}
use native.Mathlib.Omega.{arith}
use Prim.Native.Nat.Ordering.{gt}
use hiveguard.Prelude.Ord.{Ord}

module _ {ℓ} {K : Type ℓ} ⦃o : Ord K⦄ where
  unfoldable pub insert_sorted : K → List K → List K
  insert_sorted x [] = x ∷ []
  insert_sorted x (y ∷ ys) =
      let rest = insert_sorted x ys in elim (o.cmp x y) [ gt ↦ y ∷ rest | _ ↦ x ∷ y ∷ ys ]

  -- `sort`, by insertion.
  unfoldable pub sort : List K → List K
  sort [] = []
  sort (x ∷ xs) = insert_sorted x (sort xs)

  pub insert_sorted_comm :
      (x y : K) (l : List K)
      → insert_sorted x (insert_sorted y l) ≡ insert_sorted y (insert_sorted x l)
  unfolding insert_sorted
  insert_sorted_comm x y [] =
      ground (arith, o.same_of_eq x y, o.flip_gt x y, o.flip_lt x y, o.cmp_self x)
  insert_sorted_comm x y (z ∷ l) = ground (
    arith,
    insert_sorted_comm x y l,
    o.same_of_eq x y,
    o.same_of_eq x z,
    o.same_of_eq y z,
    o.flip_gt x y,
    o.flip_gt y x,
    o.flip_gt x z,
    o.flip_gt y z,
    o.flip_lt x y,
    o.flip_lt y x,
    o.flip_lt x z,
    o.flip_lt y z,
    o.lt_chain z x y,
    o.lt_chain z y x,
    o.lt_chain x y z,
    o.lt_chain y x z,
    o.lt_chain x z y,
    o.lt_chain y z x,
    o.cmp_self x,
    o.cmp_self y,
    o.cmp_self z,
  )

  -- The order in which the elements come does not matter.
  pub sort-Perm : {xs ys : List K} → Permᴰ xs ys → sort xs ≡ sort ys
  unfolding sort
  sort-Perm nil = refl
  sort-Perm (cons e p) = ap₂ insert_sorted e (sort-Perm p)
  sort-Perm (swap {a} {b} {a'} {b'} {l} e g) =
      ap₂ (λ x y. insert_sorted x (insert_sorted y (sort l))) e g
      ∙ insert_sorted_comm b' a' (sort l)
  sort-Perm (trans p q) = sort-Perm p ∙ sort-Perm q

pub map-Perm {ℓ κ} :
    {A : Type ℓ} {B : Type κ} (f : A → B) {xs ys : List A}
    → Permᴰ xs ys
    → Permᴰ (map f xs) (map f ys)
map-Perm f nil = nil
map-Perm f (cons e p) = cons (ap f e) (map-Perm f p)
map-Perm f (swap e g) = swap (ap f e) (ap f g)
map-Perm f (trans p q) = trans (map-Perm f p) (map-Perm f q)
