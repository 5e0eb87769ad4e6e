-- ===== src/Prelude/OrdSet.antt =====
-- `HashSet` over a totally ordered type, in canonical form: the strictly increasing list of its
-- elements, so that two sets with the same elements are equal.
use Prim.Native.Nat.{◌≤◌, ◌+◌}
use Prim.Native.Nat.Ordering.{lt, eq, gt}
use mathlib.Core.Path.{◌≡◌, refl, ap₂}
use mathlib.Core.Bool.{Bool, true, false, ◌||◌}
use mathlib.Core.List.{List, [], ◌∷◌}
use native.Mathlib.Omega.{arith}
use hiveguard.Prelude.Ord.{Ord, eqb}
use hiveguard.Prelude.Tests.{if◌then◌else◌}
use hiveguard.Prelude.Lists.{length}

module _ {ℓ} {K : Type ℓ} ⦃o : Ord K⦄ where
  unfoldable pub contains : List K → K → Bool
  contains [] a = false
  contains (x ∷ xs) a = if eqb x a then true else contains xs a

  unfoldable pub insert : K → List K → List K
  insert a [] = a ∷ []
  insert a (x ∷ xs) = elim (o.cmp a x) [ lt ↦ a ∷ x ∷ xs | eq ↦ x ∷ xs | gt ↦ x ∷ insert a xs ]

  unfoldable pub union : List K → List K → List K
  union [] ys = ys
  union (x ∷ xs) ys = insert x (union xs ys)

  -- Every element lies above the bound.
  abbrev pub Above : K → List K → Type 0
  Above a [] = Unit
  Above a (x ∷ xs) = (o.cmp a x ≡ lt) × Above a xs

  abbrev pub IsSorted : List K → Type 0
  IsSorted [] = Unit
  IsSorted (x ∷ xs) = Above x xs × IsSorted xs

  pub Above-trans : (a b : K) (xs : List K) → o.cmp a b ≡ lt → Above b xs → Above a xs
  Above-trans a b [] h k = tt
  Above-trans a b (x ∷ xs) h k = (o.lt_chain a b x h k.0, Above-trans a b xs h k.1)

  Above-insert : (a b : K) (xs : List K) → o.cmp a b ≡ lt → Above a xs → Above a (insert b xs)
  unfolding insert
  Above-insert a b [] h k = (h, tt)
  Above-insert a b (x ∷ xs) h k = ground (arith, Above-insert a b xs)

  pub insert-IsSorted : (a : K) (xs : List K) → IsSorted xs → IsSorted (insert a xs)
  unfolding insert
  insert-IsSorted a [] h = (tt, tt)
  insert-IsSorted a (x ∷ xs) h =
      ground (arith, Above-trans a x xs, Above-insert x a xs, insert-IsSorted a xs, o.flip_gt a x)

  pub union-IsSorted : (xs ys : List K) → IsSorted ys → IsSorted (union xs ys)
  unfolding union
  union-IsSorted [] ys h = h
  union-IsSorted (x ∷ xs) ys h = insert-IsSorted x (union xs ys) (union-IsSorted xs ys h)

  pub contains-insert :
      (a b : K) (xs : List K) → contains (insert a xs) b ≡ (eqb a b || contains xs b)
  unfolding contains insert
  contains-insert a b [] = ground arith
  contains-insert a b (x ∷ xs) = ground (
    arith,
    contains-insert a b xs,
    o.same_of_eq a x,
    o.same_of_eq a b,
    o.same_of_eq x b,
    o.cmp_self b,
  )

  pub contains-union :
      (xs ys : List K) (b : K) → contains (union xs ys) b ≡ (contains xs b || contains ys b)
  unfolding contains union
  contains-union [] ys b = refl
  contains-union (x ∷ xs) ys b =
      ground (arith, contains-insert x b (union xs ys), contains-union xs ys b)

  contains-Above : (a : K) (xs : List K) → Above a xs → contains xs a ≡ false
  unfolding contains
  contains-Above a [] h = refl
  contains-Above a (x ∷ xs) h = ground (arith, o.same_of_eq x a, o.cmp_self a, contains-Above a xs)

  -- The least element of one set, looked up in another.
  contains_head : (x : K) (xs : List K) → contains (x ∷ xs) x ≡ true
  unfolding contains
  contains_head x xs = ground (arith, o.cmp_self x)

  contains_below :
      (x y : K) (ys : List K) → o.cmp x y ≡ lt → Above y ys → contains (y ∷ ys) x ≡ false
  contains_below x y ys h k = contains-Above x (y ∷ ys) (h, Above-trans x y ys h k)

  ext_head :
      (x y : K) (xs ys : List K)
      → Above x xs
      → Above y ys
      → contains (x ∷ xs) x ≡ contains (y ∷ ys) x
      → contains (x ∷ xs) y ≡ contains (y ∷ ys) y
      → x ≡ y
  ext_head x y xs ys hx hy e f = ground (
    arith,
    o.same_of_eq x y,
    o.flip_gt x y,
    contains_head x xs,
    contains_head y ys,
    contains_below x y ys,
    contains_below y x xs,
  )

  contains-tail :
      (x y b : K) (xs ys : List K)
      → x ≡ y
      → Above x xs
      → Above y ys
      → contains (x ∷ xs) b ≡ contains (y ∷ ys) b
      → contains xs b ≡ contains ys b
  unfolding contains
  contains-tail x y b xs ys h hx hy e =
      ground
        (arith, o.same_of_eq x b, o.same_of_eq y b, contains-Above x xs hx, contains-Above y ys hy)

  -- Sets with the same elements are equal.
  pub ext :
      (xs ys : List K)
      → IsSorted xs
      → IsSorted ys
      → ((b : K) → contains xs b ≡ contains ys b)
      → xs ≡ ys
  unfolding contains
  ext [] [] hx hy e = refl
  ext [] (y ∷ ys) hx hy e = absurd (ground (arith, contains_head y ys, e y))
  ext (x ∷ xs) [] hx hy e = absurd (ground (arith, contains_head x xs, e x))
  ext (x ∷ xs) (y ∷ ys) hx hy e =
      let h : x ≡ y = ext_head x y xs ys hx.0 hy.0 (e x) (e y) in
      ap₂ ◌∷◌ h (ext xs ys hx.1 hy.1 (λ b. contains-tail x y b xs ys h hx.0 hy.0 (e b)))

  pub length-insert :
      (a : K) (xs : List K)
      → IsSorted xs
      → length (insert a xs) ≡ length xs + (if contains xs a then 0 else 1)
  unfolding insert contains
  length-insert a [] h = refl
  length-insert a (x ∷ xs) h = ground (
    arith,
    length-insert a xs,
    o.same_of_eq a x,
    o.flip_lt a x,
    o.cmp_self x,
    o.same_of_eq x a,
    contains-Above a xs,
    Above-trans a x xs,
  )

  length-union_right : (xs ys : List K) → IsSorted ys → length ys ≤ length (union xs ys)
  unfolding union
  length-union_right [] ys h = omega arith
  length-union_right (x ∷ xs) ys h =
      ground
        (arith, length-insert x (union xs ys) (union-IsSorted xs ys h), length-union_right xs ys h)

  pub union_comm : (xs ys : List K) → IsSorted xs → IsSorted ys → union xs ys ≡ union ys xs
  union_comm xs ys hx hy =
      ext _ _ (union-IsSorted xs ys hy) (union-IsSorted ys xs hx)
        λ b. ground (arith, contains-union xs ys b, contains-union ys xs b)

  pub union_assoc :
      (xs ys zs : List K)
      → IsSorted ys
      → IsSorted zs
      → union (union xs ys) zs ≡ union xs (union ys zs)
  union_assoc xs ys zs hy hz =
      ext _ _ (union-IsSorted (union xs ys) zs hz)
        (union-IsSorted xs (union ys zs) (union-IsSorted ys zs hz))
        λ b. ground (
          arith,
          contains-union (union xs ys) zs b,
          contains-union xs ys b,
          contains-union xs (union ys zs) b,
          contains-union ys zs b,
        )

  pub union_idem : (xs : List K) → IsSorted xs → union xs xs ≡ xs
  union_idem xs h = ext _ _ (union-IsSorted xs xs h) h λ b. ground (arith, contains-union xs xs b)

  -- A union is at least as large as each of its parts.
  pub length-union :
      (xs ys : List K)
      → IsSorted xs
      → IsSorted ys
      → (length xs ≤ length (union xs ys)) × (length ys ≤ length (union xs ys))
  length-union xs ys hx hy =
      (rw (union_comm xs ys hx hy) (length-union_right ys xs hx), length-union_right xs ys hy)

  pub length-insert-le : (a : K) (xs : List K) → IsSorted xs → length xs ≤ length (insert a xs)
  length-insert-le a xs h = ground (arith, length-insert a xs h)

  one_of_contains : (a : K) (xs : List K) → contains xs a ≡ true → 1 ≤ length xs
  unfolding contains
  one_of_contains a [] h = ground arith
  one_of_contains a (x ∷ xs) h = omega arith

  -- Two elements make a set of at least two.
  pub two_of_contains :
      (a b : K) (xs : List K)
      → contains xs a ≡ true
      → contains xs b ≡ true
      → (a ≡ b → ⊥)
      → 2 ≤ length xs
  unfolding contains
  two_of_contains a b [] h k n = ground arith
  two_of_contains a b (x ∷ xs) h k n = ground (
    arith,
    o.same_of_eq x a,
    o.same_of_eq x b,
    one_of_contains a xs,
    one_of_contains b xs,
    two_of_contains a b xs,
    n,
  )
