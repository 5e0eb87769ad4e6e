-- ===== src/Sigma.antt =====
-- hiveguard-sigma/src/condition.rs: the parser of conditions, on tokens, and their evaluation. Texts
-- of errors are left out: a failed parse is `none`. Sets of names are lists without repeated names.
pub mod Print
pub mod RoundTrip
pub mod Quantifier
use Prim.Native.Char.{code}
use Prim.Native.String as Str
use Prim.Native.String.{String}
use hiveguard.Prelude.{
  ℕ, zero, suc, Bool, true, false, not, ◌&&◌, ◌||◌, List, ◌∷◌, Option, none, some, length, any,
  count, ltb, leb, ◌==◌, ◌>>=◌, if◌then◌else◌,
}
use hiveguard.Prelude.Eq.{string_eq}

pub data Token : Type 0 where
  ident : String → Token
  and_word : Token
  or_word : Token
  not_word : Token
  l_paren : Token
  r_paren : Token
  of_word : Token
  them : Token
  all_word : Token
  count_word : Token
  by_word : Token
  integer : ℕ → Token
  pipe : Token
  gt : Token
  gte : Token
  lt : Token
  lte : Token
  eq : Token

pub data CompareOp : Type 0 where
  gt : CompareOp
  gte : CompareOp
  lt : CompareOp
  lte : CompareOp
  eq : CompareOp

pub data NOfQuantifier : Type 0 where
  at_least : ℕ → NOfQuantifier
  every : NOfQuantifier

pub data SelectionPattern : Type 0 where
  named : String → SelectionPattern
  wildcard : String → SelectionPattern
  them : SelectionPattern

pub data ConditionExpr : Type 0 where
  selection : String → ConditionExpr
  negation : ConditionExpr → ConditionExpr
  conjunction : ConditionExpr → ConditionExpr → ConditionExpr
  disjunction : ConditionExpr → ConditionExpr → ConditionExpr
  n_of : NOfQuantifier → SelectionPattern → ConditionExpr
  count_agg : Option String → Option String → CompareOp → ℕ → ConditionExpr

-- `Parser`: the tokens from `pos` on. A parse gives a value and the tokens that are left.
abbrev pub Parser {ℓ} : Type ℓ → Type ℓ
Parser A = List Token → Option (A × List Token)

-- The character `*`.
abbrev pub star : ℕ
star = 42

unfoldable pub ends_with_star : String → Bool
ends_with_star Str.[] = false
ends_with_star (Str.◌∷◌ c Str.[]) = code c == star
ends_with_star (Str.◌∷◌ c s) = ends_with_star s

-- Every `*` at the end goes.
unfoldable pub trim_end_matches : String → String
trim_end_matches Str.[] = Str.[]
trim_end_matches (Str.◌∷◌ c s) =
    let rest = trim_end_matches s in
    if code c == star && string_eq.beq rest Str.[] then Str.[] else Str.◌∷◌ c rest

unfoldable pub starts_with : String → String → Bool
starts_with s Str.[] = true
starts_with Str.[] (Str.◌∷◌ d p) = false
starts_with (Str.◌∷◌ c s) (Str.◌∷◌ d p) = code c == code d && starts_with s p

unfoldable pub parse_selection_pattern : Parser SelectionPattern
parse_selection_pattern (Token.them ∷ ts) = some (SelectionPattern.them, ts)
parse_selection_pattern (Token.ident name ∷ ts) =
    if ends_with_star name
    then some (SelectionPattern.wildcard (trim_end_matches name), ts)
    else some (SelectionPattern.named name, ts)
parse_selection_pattern _ = none

-- `expect` at the three tokens it is called for.
unfoldable pub expect_of : List Token → Option (List Token)
expect_of (Token.of_word ∷ ts) = some ts
expect_of _ = none

unfoldable pub expect_l_paren : List Token → Option (List Token)
expect_l_paren (Token.l_paren ∷ ts) = some ts
expect_l_paren _ = none

unfoldable pub expect_r_paren : List Token → Option (List Token)
expect_r_paren (Token.r_paren ∷ ts) = some ts
expect_r_paren _ = none

-- A name, where there is one.
unfoldable pub optional_ident : List Token → Option String × List Token
optional_ident (Token.ident f ∷ ts) = (some f, ts)
optional_ident ts = (none, ts)

unfoldable pub optional_group : List Token → Option String × List Token
optional_group (Token.by_word ∷ ts) = optional_ident ts
optional_group ts = (none, ts)

unfoldable pub parse_op : Parser CompareOp
parse_op (Token.gt ∷ ts) = some (CompareOp.gt, ts)
parse_op (Token.gte ∷ ts) = some (CompareOp.gte, ts)
parse_op (Token.lt ∷ ts) = some (CompareOp.lt, ts)
parse_op (Token.lte ∷ ts) = some (CompareOp.lte, ts)
parse_op (Token.eq ∷ ts) = some (CompareOp.eq, ts)
parse_op _ = none

unfoldable pub parse_value : Parser ℕ
parse_value (Token.integer n ∷ ts) = some (n, ts)
parse_value _ = none

-- After the word `count`.
unfoldable pub parse_count_agg : Parser ConditionExpr
parse_count_agg ts = do
  opened ← expect_l_paren ts
  closed ← expect_r_paren (optional_ident opened).1
  op ← parse_op (optional_group closed).1
  value ← parse_value op.1
  some (
    ConditionExpr.count_agg (optional_ident opened).0 (optional_group closed).0 op.0 value.0,
    value.1,
  )

unfoldable pub parse_n_of : NOfQuantifier → Parser ConditionExpr
parse_n_of n ts = do
  rest ← expect_of ts
  pattern ← parse_selection_pattern rest
  some (ConditionExpr.n_of n pattern.0, pattern.1)

-- The parsers that call `parse_condition` take it as an argument.
module _ (parse_inner : Parser ConditionExpr) where
  unfoldable pub parse_primary : Parser ConditionExpr
  parse_primary (Token.l_paren ∷ ts) = do
    inner ← parse_inner ts
    rest ← expect_r_paren inner.1
    some (inner.0, rest)
  parse_primary (Token.count_word ∷ ts) = parse_count_agg ts
  parse_primary (Token.all_word ∷ ts) = parse_n_of NOfQuantifier.every ts
  parse_primary (Token.integer n ∷ ts) = parse_n_of (NOfQuantifier.at_least n) ts
  parse_primary (Token.ident name ∷ ts) = some (ConditionExpr.selection name, ts)
  parse_primary _ = none

  unfoldable pub parse_not : Parser ConditionExpr
  parse_not (Token.not_word ∷ ts) =
      parse_not ts >>= λ inner. some (ConditionExpr.negation inner.0, inner.1)
  parse_not ts = parse_primary ts

  -- The loop of `parse_and`, each round of which consumes a token.
  unfoldable pub and_loop : ℕ → ConditionExpr → Parser ConditionExpr
  and_loop zero left ts = some (left, ts)
  and_loop (suc fuel) left (Token.and_word ∷ ts) =
      parse_not ts >>= λ right. and_loop fuel (ConditionExpr.conjunction left right.0) right.1
  and_loop (suc fuel) left (Token.pipe ∷ ts) =
      parse_not ts >>= λ right. and_loop fuel (ConditionExpr.conjunction left right.0) right.1
  and_loop (suc fuel) left ts = some (left, ts)

  unfoldable pub parse_and : Parser ConditionExpr
  parse_and ts = parse_not ts >>= λ left. and_loop (length left.1) left.0 left.1

  unfoldable pub or_loop : ℕ → ConditionExpr → Parser ConditionExpr
  or_loop zero left ts = some (left, ts)
  or_loop (suc fuel) left (Token.or_word ∷ ts) =
      parse_and ts >>= λ right. or_loop fuel (ConditionExpr.disjunction left right.0) right.1
  or_loop (suc fuel) left ts = some (left, ts)

  unfoldable pub parse_or : Parser ConditionExpr
  parse_or ts = parse_and ts >>= λ left. or_loop (length left.1) left.0 left.1

-- `Parser::parse_condition`, on the depth of the parentheses.
unfoldable pub parse_nested : ℕ → Parser ConditionExpr
parse_nested zero ts = none
parse_nested (suc fuel) ts = parse_or (λ rest. parse_nested fuel rest) ts

-- `parse_condition`, once the text is cut into tokens; tokens at the end are left over.
unfoldable pub parse_condition : List Token → Option ConditionExpr
parse_condition ts = parse_nested (suc (length ts)) ts >>= λ r. some r.0

unfoldable pub selection_pattern_matches : SelectionPattern → String → Bool
selection_pattern_matches (SelectionPattern.named n) name = string_eq.beq n name
selection_pattern_matches (SelectionPattern.wildcard prefix) name = starts_with name prefix
selection_pattern_matches SelectionPattern.them name = true

unfoldable pub contains : List String → String → Bool
contains names name = any (λ n. string_eq.beq n name) names

unfoldable pub evaluate_n_of : NOfQuantifier → SelectionPattern → List String → List String → Bool
evaluate_n_of n pattern matched all_names =
    let candidate_count = count (selection_pattern_matches pattern) all_names in
    let matching_count =
      count (λ name. selection_pattern_matches pattern name && contains matched name) all_names in
    elim n [
      | NOfQuantifier.every ↦ matching_count == candidate_count && ltb 0 candidate_count
      | NOfQuantifier.at_least required ↦ leb required matching_count
    ]

unfoldable pub evaluate_condition : ConditionExpr → List String → List String → Bool
evaluate_condition (ConditionExpr.selection name) matched all_names = contains matched name
evaluate_condition (ConditionExpr.negation inner) matched all_names =
    not (evaluate_condition inner matched all_names)
evaluate_condition (ConditionExpr.conjunction l r) matched all_names =
    evaluate_condition l matched all_names && evaluate_condition r matched all_names
evaluate_condition (ConditionExpr.disjunction l r) matched all_names =
    evaluate_condition l matched all_names || evaluate_condition r matched all_names
evaluate_condition (ConditionExpr.n_of n pattern) matched all_names =
    evaluate_n_of n pattern matched all_names
evaluate_condition (ConditionExpr.count_agg field group_by op value) matched all_names = true
