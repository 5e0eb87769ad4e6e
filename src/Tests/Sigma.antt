-- ===== src/Tests/Sigma.antt =====
-- hiveguard-sigma/src/condition.rs at a concrete condition.
use hiveguard.Prelude.{◌≡◌, ◌↔◌, ◌&&◌, not, refl, any, List, [], ◌∷◌, true, false, some}
use hiveguard.Sigma.{
  CompareOp, NOfQuantifier, SelectionPattern, ConditionExpr, parse_condition, ends_with_star,
  selection_pattern_matches, contains, evaluate_condition,
}
use hiveguard.Sigma.RoundTrip
use hiveguard.Sigma.Quantifier
use Prim.Native.String.{String}
use hiveguard.Sigma.Print.{print}

-- `(not (filter and 1 of web_*) or count(user) by host > 5)`
abbrev condition : ConditionExpr
condition =
    ConditionExpr.disjunction
      (ConditionExpr.negation (
        ConditionExpr.conjunction (ConditionExpr.selection "filter")
          (ConditionExpr.n_of (NOfQuantifier.at_least 1) (SelectionPattern.wildcard "web_"))))
      (ConditionExpr.count_agg (some "user") (some "host") CompareOp.gt 5)

web_plain : ends_with_star "web_" ≡ false
unfolding ends_with_star
web_plain = refl

parse_condition-print_example : parse_condition (print condition []) ≡ some condition
parse_condition-print_example = RoundTrip.parse_condition-print condition (((tt, web_plain)), tt)

-- Two of the three selections are for the web, and one of them matches.
abbrev names : List String
names = "web_get" ∷ "web_post" ∷ "filter" ∷ []

abbrev web : SelectionPattern
web = SelectionPattern.wildcard "web_"

evaluate_quantifier_iff_example :
    ((evaluate_condition (ConditionExpr.n_of NOfQuantifier.every web) ("web_get" ∷ []) names ≡ true)
      ↔ ((any (selection_pattern_matches web) names ≡ true)
          × (any
                (λ name. selection_pattern_matches web name && not (contains ("web_get" ∷ []) name))
                names
              ≡ false)))
    × ((evaluate_condition
            (ConditionExpr.n_of (NOfQuantifier.at_least 1) web)
            ("web_get" ∷ [])
            names
          ≡ true)
        ↔ (any (λ name. selection_pattern_matches web name && contains ("web_get" ∷ []) name) names
            ≡ true))
evaluate_quantifier_iff_example = Quantifier.evaluate_quantifier_iff web ("web_get" ∷ []) names
