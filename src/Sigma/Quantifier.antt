-- ===== src/Sigma/Quantifier.antt =====
-- What the quantifiers of a condition mean.
use hiveguard.Prelude.{
  ◌≤◌, ◌≡◌, ◌↔◌, refl, arith, Bool, true, false, not, ◌&&◌, List, [], ◌∷◌, any, count,
}
use Prim.Native.String.{String}
use hiveguard.Sigma.{
  ConditionExpr, NOfQuantifier, SelectionPattern, selection_pattern_matches, contains,
  evaluate_n_of, evaluate_condition,
}

module _ {ℓ} {A : Type ℓ} (p q : A → Bool) where
  count_both_le : (xs : List A) → count (λ x. p x && q x) xs ≤ count p xs
  unfolding count
  count_both_le [] = omega arith
  count_both_le (x ∷ xs) = ground (arith, count_both_le xs)

  count_both_iff :
      (xs : List A)
      → (count (λ x. p x && q x) xs ≡ count p xs) ↔ (any (λ x. p x && not (q x)) xs ≡ false)
  unfolding count any
  count_both_iff [] = (λ h. refl, λ h. refl)
  count_both_iff (x ∷ xs) =
      let i = count_both_iff xs in
      let l = count_both_le xs in (λ h. ground (arith, i, l, h), λ h. ground (arith, i, l, h))

any_iff_count {ℓ} : {A : Type ℓ} (p : A → Bool) (xs : List A) → (any p xs ≡ true) ↔ (1 ≤ count p xs)
unfolding count any
any_iff_count p [] = (λ h. absurd (ground (arith, h)), λ h. absurd (omega arith))
any_iff_count p (x ∷ xs) =
    let i = any_iff_count p xs in (λ h. ground (arith, i, h), λ h. ground (arith, i, h))

-- `all of` a pattern holds exactly if some selection has a name that the pattern matches, and no
-- such selection is without a match. `1 of` it holds exactly if one of them has a match.
pub evaluate_quantifier_iff :
    (pattern : SelectionPattern) (matched all_names : List String)
    → ((evaluate_condition (ConditionExpr.n_of NOfQuantifier.every pattern) matched all_names
          ≡ true)
        ↔ ((any (selection_pattern_matches pattern) all_names ≡ true)
            × (any
                  (λ name. selection_pattern_matches pattern name && not (contains matched name))
                  all_names
                ≡ false)))
      × ((evaluate_condition
              (ConditionExpr.n_of (NOfQuantifier.at_least 1) pattern)
              matched
              all_names
            ≡ true)
          ↔ (any (λ name. selection_pattern_matches pattern name && contains matched name) all_names
              ≡ true))
unfolding evaluate_condition evaluate_n_of
evaluate_quantifier_iff pattern matched all_names =
    let p = selection_pattern_matches pattern in
    let q = contains matched in
    let both = count_both_iff p q all_names in
    let some_p = any_iff_count p all_names in
    let some_pq = any_iff_count (λ name. p name && q name) all_names in
    (
      (λ h. ground (arith, both, some_p, h), λ h. ground (arith, both, some_p, h)),
      (λ h. ground (arith, some_pq, h), λ h. ground (arith, some_pq, h)),
    )
