-- ===== src/Sigma/RoundTrip.antt =====
-- Conditions printed and parsed again.
use hiveguard.Prelude.{
  ℕ, zero, suc, ◌≤◌, ◌≡◌, refl, ap, ◌∙◌, arith, List, [], ◌∷◌, some, length, ◌>>=◌,
}
use hiveguard.Prelude.Eq.{string_eq}
use hiveguard.Sigma.{
  Token, NOfQuantifier, ConditionExpr, Parser, expect_l_paren, expect_r_paren, parse_value,
  parse_count_agg, parse_primary, parse_not, and_loop, parse_and, or_loop, parse_or, parse_nested,
  parse_condition,
}
use hiveguard.Sigma.Print.{
  print, print_quantifier, print_op, print_group, Plain, depth, parse-print_n_of, parse-print_op,
  group-print, field-print, length-print,
}

module _ (p : Parser ConditionExpr) where
  and_stop :
      (k : ℕ) (e : ConditionExpr) (ts : List Token)
      → and_loop p k e (Token.r_paren ∷ ts) ≡ some (e, Token.r_paren ∷ ts)
  unfolding and_loop
  and_stop zero e ts = refl
  and_stop (suc k) e ts = refl

  and_stop_or :
      (k : ℕ) (e : ConditionExpr) (ts : List Token)
      → and_loop p k e (Token.or_word ∷ ts) ≡ some (e, Token.or_word ∷ ts)
  unfolding and_loop
  and_stop_or zero e ts = refl
  and_stop_or (suc k) e ts = refl

  or_stop :
      (k : ℕ) (e : ConditionExpr) (ts : List Token)
      → or_loop p k e (Token.r_paren ∷ ts) ≡ some (e, Token.r_paren ∷ ts)
  unfolding or_loop
  or_stop zero e ts = refl
  or_stop (suc k) e ts = refl

  first_of_and :
      (xs : List Token) (e : ConditionExpr) (ts : List Token)
      → parse_not p xs ≡ some (e, ts)
      → parse_and p xs ≡ and_loop p (length ts) e ts
  unfolding parse_and
  first_of_and xs e ts h = ap (λ o. o >>= λ left. and_loop p (length left.1) left.0 left.1) h

  first_of_or :
      (xs : List Token) (e : ConditionExpr) (ts : List Token)
      → parse_and p xs ≡ some (e, ts)
      → parse_or p xs ≡ or_loop p (length ts) e ts
  unfolding parse_or
  first_of_or xs e ts h = ap (λ o. o >>= λ left. or_loop p (length left.1) left.0 left.1) h

  both :
      (xs ys ts : List Token) (l r : ConditionExpr)
      → parse_not p xs ≡ some (l, Token.and_word ∷ ys)
      → parse_not p ys ≡ some (r, Token.r_paren ∷ ts)
      → parse_or p xs ≡ some (ConditionExpr.conjunction l r, Token.r_paren ∷ ts)
  unfolding and_loop
  both xs ys ts l r h k =
      let e = ConditionExpr.conjunction l r in
      let a : parse_and p xs ≡ some (e, Token.r_paren ∷ ts) =
        first_of_and xs l (Token.and_word ∷ ys) h
        ∙ ap
            (λ o.
              o >>= λ right. and_loop p (length ys) (ConditionExpr.conjunction l right.0) right.1)
            k
        ∙ and_stop (length ys) e ts in
      first_of_or xs e (Token.r_paren ∷ ts) a ∙ or_stop (suc (length ts)) e ts

  either :
      (xs ys ts : List Token) (l r : ConditionExpr)
      → parse_not p xs ≡ some (l, Token.or_word ∷ ys)
      → parse_not p ys ≡ some (r, Token.r_paren ∷ ts)
      → parse_or p xs ≡ some (ConditionExpr.disjunction l r, Token.r_paren ∷ ts)
  unfolding or_loop
  either xs ys ts l r h k =
      let e = ConditionExpr.disjunction l r in
      let a : parse_and p xs ≡ some (l, Token.or_word ∷ ys) =
        first_of_and xs l (Token.or_word ∷ ys) h ∙ and_stop_or (suc (length ys)) l ys in
      let b : parse_and p ys ≡ some (r, Token.r_paren ∷ ts) =
        first_of_and ys r (Token.r_paren ∷ ts) k ∙ and_stop (suc (length ts)) r ts in
      first_of_or xs l (Token.or_word ∷ ys) a
      ∙ ap (λ o. o >>= λ right. or_loop p (length ys) (ConditionExpr.disjunction l right.0) right.1)
          b
      ∙ or_stop (length ys) e ts

-- A printed condition is one operand.
not-print :
    (e : ConditionExpr) (fuel : ℕ) (ts : List Token)
    → Plain e
    → depth e ≤ fuel
    → parse_not (λ rest. parse_nested fuel rest) (print e ts) ≡ some (e, ts)
unfolding parse_not parse_primary parse_nested print depth print_quantifier parse_count_agg
    expect_l_paren expect_r_paren parse_value
not-print (ConditionExpr.selection name) fuel ts h d = refl
not-print (ConditionExpr.negation inner) fuel ts h d =
    ap (λ o. o >>= λ x. some (ConditionExpr.negation x.0, x.1)) (not-print inner fuel ts h d)
not-print (ConditionExpr.conjunction l r) zero ts h d = absurd (omega arith)
not-print (ConditionExpr.conjunction l r) (suc fuel) ts h d =
    let ys = print r (Token.r_paren ∷ ts) in
    ap (λ o. o >>= λ x. expect_r_paren x.1 >>= λ rest. some (x.0, rest))
      (both (λ rest. parse_nested fuel rest) (print l (Token.and_word ∷ ys)) ys ts l r
        (not-print l fuel (Token.and_word ∷ ys) h.0 (omega arith))
        (not-print r fuel (Token.r_paren ∷ ts) h.1 (omega arith)))
not-print (ConditionExpr.disjunction l r) zero ts h d = absurd (omega arith)
not-print (ConditionExpr.disjunction l r) (suc fuel) ts h d =
    let ys = print r (Token.r_paren ∷ ts) in
    ap (λ o. o >>= λ x. expect_r_paren x.1 >>= λ rest. some (x.0, rest))
      (either (λ rest. parse_nested fuel rest) (print l (Token.or_word ∷ ys)) ys ts l r
        (not-print l fuel (Token.or_word ∷ ys) h.0 (omega arith))
        (not-print r fuel (Token.r_paren ∷ ts) h.1 (omega arith)))
not-print (ConditionExpr.n_of NOfQuantifier.every p) fuel ts h d =
    parse-print_n_of NOfQuantifier.every p ts h
not-print (ConditionExpr.n_of (NOfQuantifier.at_least n) p) fuel ts h d =
    parse-print_n_of (NOfQuantifier.at_least n) p ts h
not-print (ConditionExpr.count_agg f g op v) fuel ts h d =
    rw (field-print f (print_group g (print_op op (Token.integer v ∷ ts)))) (
      rw (group-print g op (Token.integer v ∷ ts))
        (rw (parse-print_op op (Token.integer v ∷ ts)) refl))

-- Every condition whose patterns do not end in `*` is what the parser makes of its printed tokens,
-- with `and` and `or` in parentheses: parsing terminates on them and keeps the grouping, the
-- negations, the quantifiers and wildcards, and every field of a count.
pub parse_condition-print : (e : ConditionExpr) → Plain e → parse_condition (print e []) ≡ some e
unfolding parse_condition parse_nested and_loop or_loop
parse_condition-print e h =
    let p = λ (rest : List Token). parse_nested (length (print e [])) rest in
    let a : parse_not p (print e []) ≡ some (e, []) =
      not-print e (length (print e [])) [] h (omega (arith, length-print e [])) in
    ap (λ o. o >>= λ r. some r.0)
      (first_of_or p (print e []) e [] (first_of_and p (print e []) e [] a))
