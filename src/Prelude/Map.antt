-- ===== src/Prelude/Map.antt =====
-- `HashMap` as an association list without a repeated key; the order of the entries stands for the
-- order in which the source's map happens to iterate.
use Prim.Native.Nat.{◌+◌, ◌≤◌, suc}
use mathlib.Core.Path.{◌≡◌, refl, sym, ap₂, subst, ◌∙◌}
use mathlib.Core.Bool.{Bool, true, false, ◌||◌}
use mathlib.Core.List.{List, [], ◌∷◌}
use mathlib.Core.Option.{Option, none, some}
use native.Mathlib.Omega.{arith}
use hiveguard.Prelude.Eq.{Eq}
use hiveguard.Prelude.Tests.{if◌then◌else◌, Bool-cases, if_true, if_false, some_inj}
use mathlib.Core.Logic.{◌⊎◌, inl, inr}
use hiveguard.Prelude.Lists.{length, retain, count, any, All}

abbrev pub HashMap {ℓ κ} : Type ℓ → Type κ → Type (ℓ ⊔ κ)
HashMap K V = List (K × V)

-- A value is present.
abbrev pub is_some {ℓ} : {A : Type ℓ} → Option A → Bool
is_some none = false
is_some (some _) = true

-- Keeps a present value that passes the test.
abbrev pub keep_if {ℓ} : {A : Type ℓ} → (A → Bool) → Option A → Option A
keep_if p none = none
keep_if p (some a) = if p a then some a else none

module _ {ℓ κ} {K : Type ℓ} {V : Type κ} ⦃e : Eq K⦄ where
  unfoldable pub lookup : K → HashMap K V → Option V
  lookup k [] = none
  lookup k ((j, v) ∷ m) = if e.beq j k then some v else lookup k m

  unfoldable pub insert : K → V → HashMap K V → HashMap K V
  insert k v [] = (k, v) ∷ []
  insert k v ((j, w) ∷ m) = if e.beq j k then (k, v) ∷ m else (j, w) ∷ insert k v m

  unfoldable pub remove : K → HashMap K V → HashMap K V
  remove k [] = []
  remove k ((j, v) ∷ m) = if e.beq j k then m else (j, v) ∷ remove k m

  -- No key stands twice.
  abbrev pub Distinct : HashMap K V → Type κ
  Distinct [] = Unit
  Distinct ((j, v) ∷ m) = (lookup j m ≡ none) × Distinct m

  pub lookup-insert :
      (k j : K) (v : V) (m : HashMap K V)
      → lookup j (insert k v m) ≡ (if e.beq k j then some v else lookup j m)
  unfolding lookup insert
  lookup-insert k j v [] = refl
  lookup-insert k j v ((i, w) ∷ m) =
      ground (arith, e.beq_iff k j, e.beq_iff i k, e.beq_iff i j, lookup-insert k j v m)

  pub lookup-insert_self : (k : K) (v : V) (m : HashMap K V) → lookup k (insert k v m) ≡ some v
  lookup-insert_self k v m = ground (arith, e.beq_iff k k, lookup-insert k k v m)

  pub lookup-remove :
      (k j : K) (m : HashMap K V)
      → Distinct m
      → lookup j (remove k m) ≡ (if e.beq k j then none else lookup j m)
  unfolding lookup remove
  lookup-remove k j [] d = ground arith
  lookup-remove k j ((i, w) ∷ m) d =
      ground (arith, e.beq_iff k j, e.beq_iff i k, e.beq_iff i j, lookup-remove k j m)

  pub insert-Distinct : (k : K) (v : V) (m : HashMap K V) → Distinct m → Distinct (insert k v m)
  unfolding lookup insert
  insert-Distinct k v [] d = (refl, tt)
  insert-Distinct k v ((i, w) ∷ m) d =
      ground (arith, e.beq_iff i k, e.beq_iff k i, lookup-insert k i v m, insert-Distinct k v m)

  pub remove-Distinct : (k : K) (m : HashMap K V) → Distinct m → Distinct (remove k m)
  unfolding lookup remove
  remove-Distinct k [] d = tt
  remove-Distinct k ((i, w) ∷ m) d =
      ground (arith, e.beq_iff i k, e.beq_iff k i, lookup-remove k i m, remove-Distinct k m)

  pub lookup-retain-none :
      (k : K) (p : K × V → Bool) (m : HashMap K V)
      → lookup k m ≡ none
      → lookup k (retain p m) ≡ none
  unfolding lookup retain
  lookup-retain-none k p [] h = refl
  lookup-retain-none k p ((i, w) ∷ m) h = ground (arith, lookup-retain-none k p m)

  pub retain-Distinct : (p : K × V → Bool) (m : HashMap K V) → Distinct m → Distinct (retain p m)
  unfolding lookup retain
  retain-Distinct p [] d = tt
  retain-Distinct p ((i, w) ∷ m) d = ground (arith, lookup-retain-none i p m, retain-Distinct p m)

  -- What a pruned map answers.
  pub lookup-retain :
      (k : K) (p : K × V → Bool) (m : HashMap K V)
      → Distinct m
      → lookup k (retain p m) ≡ keep_if (λ v. p (k, v)) (lookup k m)
  unfolding lookup retain
  lookup-retain k p [] d = refl
  lookup-retain k p ((i, w) ∷ m) d =
      ground (arith, e.beq_iff i k, lookup-retain k p m, lookup-retain-none i p m)

  -- A count of entries that looks at the keys alone.
  pub count-insert :
      (q : K → Bool) (k : K) (v : V) (m : HashMap K V)
      → count (λ x. q x.0) (insert k v m)
        ≡ count (λ x. q x.0) m + (if is_some (lookup k m) then 0 else if q k then 1 else 0)
  unfolding lookup insert count
  count-insert q k v [] = ground arith
  count-insert q k v ((i, w) ∷ m) = ground (arith, e.beq_iff i k, count-insert q k v m)

  pub count-remove :
      (q : K → Bool) (k : K) (m : HashMap K V)
      → count (λ x. q x.0) (remove k m) + (if is_some (lookup k m) then if q k then 1 else 0 else 0)
        ≡ count (λ x. q x.0) m
  unfolding lookup remove count
  count-remove q k [] = ground arith
  count-remove q k ((i, w) ∷ m) = ground (arith, e.beq_iff i k, count-remove q k m)

  pub length-insert :
      (k : K) (v : V) (m : HashMap K V)
      → length (insert k v m) ≡ length m + (if is_some (lookup k m) then 0 else 1)
  unfolding lookup insert
  length-insert k v [] = ground arith
  length-insert k v ((i, w) ∷ m) = ground (arith, length-insert k v m)

  pub length-remove :
      (k : K) (m : HashMap K V)
      → length (remove k m) + (if is_some (lookup k m) then 1 else 0) ≡ length m
  unfolding lookup remove
  length-remove k [] = ground arith
  length-remove k ((i, w) ∷ m) = ground (arith, length-remove k m)

  -- A key that is present is counted.
  pub count-pos_of_lookup :
      (q : K → Bool) (k : K) (m : HashMap K V)
      → is_some (lookup k m) ≡ true
      → q k ≡ true
      → suc 0 ≤ count (λ x. q x.0) m
  unfolding lookup count
  count-pos_of_lookup q k [] h g = ground arith
  count-pos_of_lookup q k ((i, w) ∷ m) h g =
      ground (arith, e.beq_iff i k, count-pos_of_lookup q k m)

  -- A predicate on the entries.
  pub insert-All {μ} :
      (P : K × V → Type μ) (k : K) (v : V) (m : HashMap K V)
      → P (k, v)
      → All P m
      → All P (insert k v m)
  unfolding insert
  insert-All P k v [] p h = (p, tt)
  insert-All P k v ((i, w) ∷ m) p h = ground (arith, insert-All P k v m p)

  pub remove-All {μ} : (P : K × V → Type μ) (k : K) (m : HashMap K V) → All P m → All P (remove k m)
  unfolding remove
  remove-All P k [] h = tt
  remove-All P k ((i, w) ∷ m) h = ground (arith, remove-All P k m)

  pub All-lookup {μ} :
      (P : K × V → Type μ) (k : K) (m : HashMap K V) {v : V}
      → All P m
      → lookup k m ≡ some v
      → P (k, v)
  unfolding lookup
  All-lookup P k [] h q = absurd (ground arith)
  All-lookup P k ((i, w) ∷ m) {v} h q = elim (Bool-cases (e.beq i k)) [
    | inl same ↦
        let f : w ≡ v = ground arith in subst P (ap₂ (λ a b. (a, b)) ((e.beq_iff i k).0 same) f) h.0
    | inr other ↦ All-lookup P k m h.1 (ground arith)
  ]

  pub remove_absent : (k : K) (m : HashMap K V) → is_some (lookup k m) ≡ false → remove k m ≡ m
  unfolding lookup remove
  remove_absent k [] h = refl
  remove_absent k ((i, w) ∷ m) h = ground (arith, remove_absent k m)

  pub any-insert :
      (q : K → Bool) (k : K) (v : V) (m : HashMap K V)
      → any (λ x. q x.0) (insert k v m) ≡ (q k || any (λ x. q x.0) m)
  unfolding insert any
  any-insert q k v [] = ground arith
  any-insert q k v ((i, w) ∷ m) = ground (arith, e.beq_iff i k, any-insert q k v m)

  -- An entry after an insertion is the new one, or was there under another key.
  pub insert-cases :
      (k j : K) (v w : V) (m : HashMap K V)
      → lookup j (insert k v m) ≡ some w
      → ((k ≡ j) × (v ≡ w)) ⊎ ((e.beq k j ≡ false) × (lookup j m ≡ some w))
  insert-cases k j v w m h = elim (Bool-cases (e.beq k j)) [
    | inl same ↦
        let r = sym (lookup-insert k j v m ∙ if_true (e.beq k j) (some v) (lookup j m) same) ∙ h in
        inl ((e.beq_iff k j).0 same, some_inj r)
    | inr other ↦
        inr (
          other,
          sym (lookup-insert k j v m ∙ if_false (e.beq k j) (some v) (lookup j m) other) ∙ h,
        )
  ]

  -- What is there already changes nothing.
  pub insert_present : (k : K) (v : V) (m : HashMap K V) → lookup k m ≡ some v → insert k v m ≡ m
  unfolding lookup insert
  insert_present k v [] h = absurd (ground (arith, h))
  insert_present k v ((j, w) ∷ m) h = elim (Bool-cases (e.beq j k)) [
    | inl same ↦
        if_true (e.beq j k) _ _ same
        ∙ ap₂ (λ i u. (i, u) ∷ m) (sym ((e.beq_iff j k).0 same))
            (sym (some_inj (sym (if_true (e.beq j k) (some w) (lookup k m) same) ∙ h)))
    | inr other ↦
        if_false (e.beq j k) _ _ other
        ∙ ap₂ (λ i u. i ∷ u) refl
            (insert_present k v m (sym (if_false (e.beq j k) (some w) (lookup k m) other) ∙ h))
  ]
