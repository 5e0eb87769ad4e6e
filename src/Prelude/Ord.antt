-- ===== src/Prelude/Ord.antt =====
-- A total order as an interface: the `Ord` bound of the source, with the laws that the trait asks.
use Prim.Native.Nat.{ℕ, compare, Ordering}
use Prim.Native.Nat.Ordering.{lt, eq, gt}
use mathlib.Core.Path.{◌≡◌}
use mathlib.Core.Bool.{Bool, true, false, not}
use native.Mathlib.Omega.{arith}
use hiveguard.Prelude.Tests.{if◌then◌else◌}

-- The laws come in the order in which they are used: from an answer to the answer the other way round.
pub record IsTotalOrder {ℓ} {A : Type ℓ} (cmp : A → A → Ordering) : Type ℓ where
  pub flip_lt : (x y : A) → cmp x y ≡ lt → cmp y x ≡ gt
  pub flip_gt : (x y : A) → cmp x y ≡ gt → cmp y x ≡ lt
  pub lt_chain : (x y z : A) → cmp x y ≡ lt → cmp y z ≡ lt → cmp x z ≡ lt
  pub same_of_eq : (x y : A) → cmp x y ≡ eq → x ≡ y
  pub cmp_self : (x : A) → cmp x x ≡ eq

abbrev pub then_with : Ordering → Ordering → Ordering
then_with eq second = second
then_with first _ = first

pub record Ord {ℓ} (A : Type ℓ) : Type ℓ where
  pub cmp : A → A → Ordering
  pub laws : IsTotalOrder cmp
  pub open laws use *

pub compare-IsTotalOrder : IsTotalOrder compare
compare-IsTotalOrder = ground arith

instance abbrev pub nat_ord : Ord ℕ
nat_ord = record { cmp = compare; laws = compare-IsTotalOrder }

module _ {ℓ} {K : Type ℓ} ⦃o : Ord K⦄ where
  -- `std::cmp::max` returns its second argument when the two are equal, `min` the first.
  abbrev pub max : K → K → K
  max a b = elim (o.cmp a b) [ gt ↦ a | _ ↦ b ]

  abbrev pub min : K → K → K
  min a b = elim (o.cmp a b) [ gt ↦ b | _ ↦ a ]

  -- `a > b`.
  abbrev pub gtb : K → K → Bool
  gtb a b = elim (o.cmp a b) [ gt ↦ true | _ ↦ false ]

  abbrev pub eqb : K → K → Bool
  eqb a b = elim (o.cmp a b) [ eq ↦ true | _ ↦ false ]

  infix 50 ◌≼◌
  -- `a <= b`.
  abbrev pub ◌≼◌ : K → K → Type 0
  a ≼ b = elim (o.cmp a b) [ gt ↦ ⊥ | _ ↦ Unit ]

  pub max_comm : (a b : K) → max a b ≡ max b a
  max_comm a b = ground (arith, o.same_of_eq a b, o.flip_gt a b, o.flip_lt a b, o.cmp_self a)

  pub min_comm : (a b : K) → min a b ≡ min b a
  min_comm a b = ground (arith, o.same_of_eq a b, o.flip_gt a b, o.flip_lt a b, o.cmp_self a)

  pub max_idem : (a : K) → max a a ≡ a
  max_idem a = ground (arith, o.cmp_self a)

  pub min_idem : (a : K) → min a a ≡ a
  min_idem a = ground (arith, o.cmp_self a)

  pub max_assoc : (a b c : K) → max (max a b) c ≡ max a (max b c)
  max_assoc a b c = ground (
    arith,
    o.same_of_eq a b,
    o.same_of_eq b c,
    o.same_of_eq a c,
    o.flip_gt a b,
    o.flip_gt b c,
    o.flip_gt a c,
    o.flip_lt a b,
    o.flip_lt b c,
    o.lt_chain c b a,
    o.lt_chain a b c,
    o.flip_lt c a,
  )

  pub min_assoc : (a b c : K) → min (min a b) c ≡ min a (min b c)
  min_assoc a b c = ground (
    arith,
    o.same_of_eq a b,
    o.same_of_eq b c,
    o.same_of_eq a c,
    o.flip_gt a b,
    o.flip_gt b c,
    o.flip_gt a c,
    o.flip_lt a b,
    o.flip_lt b c,
    o.lt_chain c b a,
    o.lt_chain a b c,
    o.flip_lt c a,
  )

  -- The value that goes with the larger key, the first one's if neither is larger. The choice does
  -- not depend on how three of them are grouped.
  pub pick_assoc {κ} :
      {V : Type κ} (a b c : K) (u v w : V)
      → (if gtb c (max a b) then w else if gtb b a then v else u)
        ≡ (if gtb (max b c) a then if gtb c b then w else v else u)
  pick_assoc a b c u v w = ground (
    arith,
    o.same_of_eq a b,
    o.same_of_eq b c,
    o.flip_gt a b,
    o.flip_gt b c,
    o.flip_gt c b,
    o.flip_gt b a,
    o.flip_gt c a,
    o.flip_lt a b,
    o.flip_lt b c,
    o.flip_lt a c,
    o.lt_chain c b a,
    o.lt_chain a b c,
    o.flip_lt c a,
    o.cmp_self a,
    o.cmp_self b,
    o.cmp_self c,
  )

  pub gtb_swap : (a b : K) → (a ≡ b → ⊥) → gtb b a ≡ not (gtb a b)
  gtb_swap a b n = ground (arith, o.same_of_eq a b, o.flip_gt a b, o.flip_lt a b, n)
