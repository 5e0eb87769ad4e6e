-- ===== src/Sigma/Print.antt =====
-- The tokens of a condition, and how its parts are read again.
use Prim.Native.Char.{Char, code}
use Prim.Native.String as Str
use Prim.Native.String.{String}
use mathlib.Core.Path.{subst}
use hiveguard.Prelude.{
  ℕ, suc, ◌+◌, ◌≤◌, ◌≡◌, refl, ap, ◌∙◌, arith, true, false, List, ◌∷◌, Option, none, some, length,
  ◌>>=◌, if◌then◌else◌, ◌==◌, ◌&&◌, Bool-cases, inl, inr,
}
use hiveguard.Prelude.Eq.{string_eq}
use hiveguard.Sigma.{
  Token, CompareOp, NOfQuantifier, SelectionPattern, ConditionExpr, star, ends_with_star,
  trim_end_matches, parse_selection_pattern, expect_of, optional_ident, optional_group, parse_op,
  parse_n_of,
}

-- A name with a `*` behind it.
unfoldable pub add_star : String → String
add_star Str.[] = "*"
add_star (Str.◌∷◌ c s) = Str.◌∷◌ c (add_star s)

unfoldable pub print_pattern : SelectionPattern → List Token → List Token
print_pattern (SelectionPattern.named name) ts = Token.ident name ∷ ts
print_pattern (SelectionPattern.wildcard prefix) ts = Token.ident (add_star prefix) ∷ ts
print_pattern SelectionPattern.them ts = Token.them ∷ ts

unfoldable pub print_quantifier : NOfQuantifier → List Token → List Token
print_quantifier (NOfQuantifier.at_least n) ts = Token.integer n ∷ ts
print_quantifier NOfQuantifier.every ts = Token.all_word ∷ ts

unfoldable pub print_op : CompareOp → List Token → List Token
print_op CompareOp.gt ts = Token.gt ∷ ts
print_op CompareOp.gte ts = Token.gte ∷ ts
print_op CompareOp.lt ts = Token.lt ∷ ts
print_op CompareOp.lte ts = Token.lte ∷ ts
print_op CompareOp.eq ts = Token.eq ∷ ts

unfoldable pub print_ident : Option String → List Token → List Token
print_ident none ts = ts
print_ident (some name) ts = Token.ident name ∷ ts

unfoldable pub print_group : Option String → List Token → List Token
print_group none ts = ts
print_group (some name) ts = Token.by_word ∷ Token.ident name ∷ ts

-- The tokens of a condition, in front of others: `and` and `or` stand in parentheses.
unfoldable pub print : ConditionExpr → List Token → List Token
print (ConditionExpr.selection name) ts = Token.ident name ∷ ts
print (ConditionExpr.negation inner) ts = Token.not_word ∷ print inner ts
print (ConditionExpr.conjunction l r) ts =
    Token.l_paren ∷ print l (Token.and_word ∷ print r (Token.r_paren ∷ ts))
print (ConditionExpr.disjunction l r) ts =
    Token.l_paren ∷ print l (Token.or_word ∷ print r (Token.r_paren ∷ ts))
print (ConditionExpr.n_of n pattern) ts =
    print_quantifier n (Token.of_word ∷ print_pattern pattern ts)
print (ConditionExpr.count_agg field group_by op value) ts =
    Token.count_word
    ∷ Token.l_paren
    ∷ print_ident field
        (Token.r_paren ∷ print_group group_by (print_op op (Token.integer value ∷ ts)))

-- The name of a pattern does not end in `*`, which is what sets a wildcard apart.
abbrev pub PlainPattern : SelectionPattern → Type 0
PlainPattern (SelectionPattern.named name) = ends_with_star name ≡ false
PlainPattern (SelectionPattern.wildcard prefix) = ends_with_star prefix ≡ false
PlainPattern SelectionPattern.them = Unit

abbrev pub Plain : ConditionExpr → Type 0
Plain (ConditionExpr.selection name) = Unit
Plain (ConditionExpr.negation inner) = Plain inner
Plain (ConditionExpr.conjunction l r) = Plain l × Plain r
Plain (ConditionExpr.disjunction l r) = Plain l × Plain r
Plain (ConditionExpr.n_of n pattern) = PlainPattern pattern
Plain (ConditionExpr.count_agg field group_by op value) = Unit

-- A bound on the depth of the parentheses.
unfoldable pub depth : ConditionExpr → ℕ
depth (ConditionExpr.selection name) = 0
depth (ConditionExpr.negation inner) = depth inner
depth (ConditionExpr.conjunction l r) = suc (depth l + depth r)
depth (ConditionExpr.disjunction l r) = suc (depth l + depth r)
depth (ConditionExpr.n_of n pattern) = 0
depth (ConditionExpr.count_agg field group_by op value) = 0

ends_with_star-add_star : (s : String) → ends_with_star (add_star s) ≡ true
unfolding ends_with_star add_star
ends_with_star-add_star Str.[] = refl
ends_with_star-add_star (Str.◌∷◌ c Str.[]) = refl
ends_with_star-add_star (Str.◌∷◌ c (Str.◌∷◌ d s)) = ends_with_star-add_star (Str.◌∷◌ d s)

abbrev IsFilled : String → Type 0
IsFilled Str.[] = ⊥
IsFilled (Str.◌∷◌ d s) = Unit

not_empty : (d : Char) (s : String) → string_eq.beq (Str.◌∷◌ d s) Str.[] ≡ false
not_empty d s = elim (Bool-cases (string_eq.beq (Str.◌∷◌ d s) Str.[])) [
  | inl same ↦ absurd (subst IsFilled ((string_eq.beq_iff (Str.◌∷◌ d s) Str.[]).0 same) tt)
  | inr other ↦ other
]

trim-add_star : (s : String) → ends_with_star s ≡ false → trim_end_matches (add_star s) ≡ s
unfolding ends_with_star add_star trim_end_matches
trim-add_star Str.[] h = refl
trim-add_star (Str.◌∷◌ c Str.[]) h = ground (arith, h)
trim-add_star (Str.◌∷◌ c (Str.◌∷◌ d s)) h =
    ap (λ t. if code c == star && string_eq.beq t Str.[] then Str.[] else Str.◌∷◌ c t)
      (trim-add_star (Str.◌∷◌ d s) h)
    ∙ ground (arith, not_empty d s)

parse-print_pattern :
    (p : SelectionPattern) (ts : List Token)
    → PlainPattern p
    → parse_selection_pattern (print_pattern p ts) ≡ some (p, ts)
unfolding parse_selection_pattern print_pattern
parse-print_pattern (SelectionPattern.named name) ts h = ground (arith, h)
parse-print_pattern (SelectionPattern.wildcard prefix) ts h =
    ground (arith, ends_with_star-add_star prefix, trim-add_star prefix h)
parse-print_pattern SelectionPattern.them ts h = refl

pub parse-print_n_of :
    (n : NOfQuantifier) (p : SelectionPattern) (ts : List Token)
    → PlainPattern p
    → parse_n_of n (Token.of_word ∷ print_pattern p ts) ≡ some (ConditionExpr.n_of n p, ts)
unfolding parse_n_of expect_of
parse-print_n_of n p ts h =
    ap (λ o. o >>= λ q. some (ConditionExpr.n_of n q.0, q.1)) (parse-print_pattern p ts h)

pub parse-print_op : (op : CompareOp) (ts : List Token) → parse_op (print_op op ts) ≡ some (op, ts)
unfolding parse_op print_op
parse-print_op CompareOp.gt ts = refl
parse-print_op CompareOp.gte ts = refl
parse-print_op CompareOp.lt ts = refl
parse-print_op CompareOp.lte ts = refl
parse-print_op CompareOp.eq ts = refl

pub group-print :
    (g : Option String) (op : CompareOp) (ts : List Token)
    → optional_group (print_group g (print_op op ts)) ≡ (g, print_op op ts)
unfolding optional_group optional_ident print_group print_op
group-print (some name) op ts = refl
group-print none CompareOp.gt ts = refl
group-print none CompareOp.gte ts = refl
group-print none CompareOp.lt ts = refl
group-print none CompareOp.lte ts = refl
group-print none CompareOp.eq ts = refl

pub field-print :
    (f : Option String) (ts : List Token)
    → optional_ident (print_ident f (Token.r_paren ∷ ts)) ≡ (f, Token.r_paren ∷ ts)
unfolding optional_ident print_ident
field-print none ts = refl
field-print (some name) ts = refl

length-print_pattern :
    (p : SelectionPattern) (ts : List Token) → length ts ≤ length (print_pattern p ts)
unfolding print_pattern
length-print_pattern (SelectionPattern.named n) ts = omega arith
length-print_pattern (SelectionPattern.wildcard q) ts = omega arith
length-print_pattern SelectionPattern.them ts = omega arith

length-print_op : (op : CompareOp) (ts : List Token) → length ts ≤ length (print_op op ts)
unfolding print_op
length-print_op CompareOp.gt ts = omega arith
length-print_op CompareOp.gte ts = omega arith
length-print_op CompareOp.lt ts = omega arith
length-print_op CompareOp.lte ts = omega arith
length-print_op CompareOp.eq ts = omega arith

length-print_group : (g : Option String) (ts : List Token) → length ts ≤ length (print_group g ts)
unfolding print_group
length-print_group none ts = omega arith
length-print_group (some n) ts = omega arith

length-print_ident : (f : Option String) (ts : List Token) → length ts ≤ length (print_ident f ts)
unfolding print_ident
length-print_ident none ts = omega arith
length-print_ident (some n) ts = omega arith

pub length-print : (e : ConditionExpr) (ts : List Token) → depth e + length ts ≤ length (print e ts)
unfolding depth print print_quantifier print_pattern
length-print (ConditionExpr.selection name) ts = omega arith
length-print (ConditionExpr.negation inner) ts = omega (arith, length-print inner ts)
length-print (ConditionExpr.conjunction l r) ts = omega (
  arith,
  length-print l (Token.and_word ∷ print r (Token.r_paren ∷ ts)),
  length-print r (Token.r_paren ∷ ts),
)
length-print (ConditionExpr.disjunction l r) ts = omega (
  arith,
  length-print l (Token.or_word ∷ print r (Token.r_paren ∷ ts)),
  length-print r (Token.r_paren ∷ ts),
)
length-print (ConditionExpr.n_of NOfQuantifier.every p) ts =
    omega (arith, length-print_pattern p ts)
length-print (ConditionExpr.n_of (NOfQuantifier.at_least n) p) ts =
    omega (arith, length-print_pattern p ts)
length-print (ConditionExpr.count_agg f g op v) ts =
    let op_ts = print_op op (Token.integer v ∷ ts) in
    omega (
      arith,
      length-print_op op (Token.integer v ∷ ts),
      length-print_group g op_ts,
      length-print_ident f (Token.r_paren ∷ print_group g op_ts),
    )
