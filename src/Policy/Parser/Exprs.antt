-- ===== src/Policy/Parser/Exprs.antt =====
-- The expressions of backend/internal/policy/parser.go. `parseExprOr` and the functions that it calls
-- recur on fuel, their loops too.
use firefik.Prelude.{
  ℕ, zero, suc, true, false, not, ◌&&◌, List, ◌∷◌, [], Text, codes, contains, ok, err, out_of_fuel,
  ◌>>=◌, if◌then◌else◌,
}
use firefik.Policy.Ast.{Expr, and_expr, or_expr, not_expr, compare_expr, in_expr}
use firefik.Policy.Error.{expected_field, expected_op, unknown_op}
use firefik.Policy.Lexer.{ident, punct, keyword, Token}
use firefik.Policy.Parser.Tokens.{
  kind_eq, Parsed, peek, advance, at, expect, parse_value, parse_value_list,
}

abbrev pub comparison_ops : List Text
comparison_ops = codes "==" ∷ codes "!=" ∷ codes "<" ∷ codes ">" ∷ codes "<=" ∷ codes ">=" ∷ []

-- The end of `parseAtom`: an operator and a value.
unfoldable pub parse_comparison : Text → List Token → Parsed Expr
parse_comparison field ts =
    let op = peek ts in
    if not (kind_eq op.kind punct)
    then err (expected_op op.line op.value)
    else if not (contains comparison_ops op.value)
    then err (unknown_op op.line op.value)
    else parse_value (advance ts) >>= λ (v, us). ok (compare_expr field op.value v, us)

-- `parseAtom` behind the field.
unfoldable pub parse_field : ℕ → Text → List Token → Parsed Expr
unfolding parse_comparison
parse_field n field ts =
    if at keyword (codes "in") ts
    then (parse_value_list n (advance ts) >>= λ (vs, us). ok (in_expr field false vs, us))
    else if at keyword (codes "not") ts && at keyword (codes "in") (advance ts)
    then (parse_value_list n (advance (advance ts)) >>= λ (vs, us). ok (in_expr field true vs, us))
    else parse_comparison field ts

unfoldable mutual
  pub parse_or : ℕ → List Token → Parsed Expr
  parse_or zero ts = out_of_fuel
  parse_or (suc n) ts = parse_and n ts >>= λ (left, us). or_loop n left us

  pub or_loop : ℕ → Expr → List Token → Parsed Expr
  or_loop zero left ts = out_of_fuel
  or_loop (suc n) left ts =
      let more = parse_and n (advance ts) >>= λ (right, us). or_loop n (or_expr left right) us in
      if at keyword (codes "or") ts then more else ok (left, ts)

  pub parse_and : ℕ → List Token → Parsed Expr
  parse_and zero ts = out_of_fuel
  parse_and (suc n) ts = parse_unary n ts >>= λ (left, us). and_loop n left us

  pub and_loop : ℕ → Expr → List Token → Parsed Expr
  and_loop zero left ts = out_of_fuel
  and_loop (suc n) left ts =
      let more =
        parse_unary n (advance ts) >>= λ (right, us). and_loop n (and_expr left right) us in
      if at keyword (codes "and") ts then more else ok (left, ts)

  pub parse_unary : ℕ → List Token → Parsed Expr
  parse_unary zero ts = out_of_fuel
  parse_unary (suc n) ts =
      let negated = parse_atom n (advance ts) >>= λ (inner, us). ok (not_expr inner, us) in
      let plain = parse_atom n ts in if at keyword (codes "not") ts then negated else plain

  pub parse_atom : ℕ → List Token → Parsed Expr
  parse_atom zero ts = out_of_fuel
  parse_atom (suc n) ts =
      let group = parse_or n (advance ts) >>= λ (inner, us).
      expect punct (codes ")") us >>= λ (_, vs). ok (inner, vs) in
      let t = peek ts in
      if at punct (codes "(") ts
      then group
      else if not (kind_eq t.kind ident)
      then err (expected_field t.line t.col t.value)
      else parse_field n t.value (advance ts)
