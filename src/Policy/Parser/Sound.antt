-- ===== src/Policy/Parser/Sound.antt =====
-- What the parser accepts is a phrase of the grammar, with the meaning that the grammar gives it.
use firefik.Prelude.{
  ℕ, zero, suc, List, [], ◌∷◌, codes, arith, err, Delivers, delivers, refuses, Delivers-if,
  Delivers-bind, Delivers-map, not, if◌then◌else◌, length, ◌≤◌, ◌+◌, ◌*◌,
}
use firefik.Policy.Ast.{Expr, or_expr, and_expr}
use firefik.Policy.Error.{expected_field}
use firefik.Policy.Lexer.{ident, punct, keyword, Token}
use firefik.Policy.Parser.Tokens.{kind_eq, peek, advance}
use firefik.Policy.Parser.Exprs.{
  parse_field, parse_or, or_loop, parse_and, and_loop, parse_unary, parse_atom,
}
use firefik.Policy.Parser.Grammar.{
  OrPhrase, or_phrase, OrTail, or_done, or_more, AndPhrase, and_phrase, AndTail, and_done, and_more,
  UnaryPhrase, plain, negated, AtomPhrase, group,
}
use firefik.Policy.Parser.Reads.{
  kind_eq→eq, not-false, Reads, at-Reads, expect-Delivers, parse_field-Delivers,
}

-- The end of `parse_atom`, where no parenthesis opens.
field-Delivers :
    (n : ℕ) (ts : List Token)
    → 5 * length ts ≤ n
    → Delivers (Reads AtomPhrase ts) (
        if not (kind_eq (peek ts).kind ident)
        then err (expected_field (peek ts).line (peek ts).col (peek ts).value)
        else parse_field n (peek ts).value (advance ts))
field-Delivers n [] h = refuses
field-Delivers n (t ∷ us) h =
    Delivers-if _ (λ _. refuses)
      λ k. parse_field-Delivers n t us (kind_eq→eq t.kind ident (not-false k)) (omega arith)

mutual
  unfolding parse_or

  pub or-Delivers :
      (n : ℕ) (ts : List Token)
      → 5 * length ts + 4 ≤ n
      → Delivers (Reads OrPhrase ts) (parse_or n ts)
  or-Delivers zero ts h = absurd (omega arith)
  or-Delivers (suc n) ts h = Delivers-bind (and-Delivers n ts (omega arith)) λ (l, us) (p, lt).
      Delivers-map (or_loop-Delivers n l us (omega arith))
        λ (e, vs) (q, lt'). (or_phrase p q, omega arith)

  or_loop-Delivers :
      (n : ℕ) (l : Expr) (ts : List Token)
      → 5 * length ts + 1 ≤ n
      → Delivers
          (λ ((e, us) : Expr × List Token). OrTail ts l e us × (length us ≤ length ts))
          (or_loop n l ts)
  or_loop-Delivers zero l ts h = absurd (omega arith)
  or_loop-Delivers (suc n) l ts h =
      Delivers-if _
        (λ c.
          let (s, lt) = at-Reads keyword (codes "or") ts (cc) c in
          Delivers-bind (and-Delivers n (advance ts) (omega arith)) λ (r, us) (p, lt').
            Delivers-map (or_loop-Delivers n (or_expr l r) us (omega arith))
              λ (e, vs) (q, lt''). (or_more s p q, omega arith))
        (λ _. delivers (or_done, omega arith))

  and-Delivers :
      (n : ℕ) (ts : List Token)
      → 5 * length ts + 3 ≤ n
      → Delivers (Reads AndPhrase ts) (parse_and n ts)
  and-Delivers zero ts h = absurd (omega arith)
  and-Delivers (suc n) ts h = Delivers-bind (unary-Delivers n ts (omega arith)) λ (l, us) (p, lt).
      Delivers-map (and_loop-Delivers n l us (omega arith))
        λ (e, vs) (q, lt'). (and_phrase p q, omega arith)

  and_loop-Delivers :
      (n : ℕ) (l : Expr) (ts : List Token)
      → 5 * length ts + 1 ≤ n
      → Delivers
          (λ ((e, us) : Expr × List Token). AndTail ts l e us × (length us ≤ length ts))
          (and_loop n l ts)
  and_loop-Delivers zero l ts h = absurd (omega arith)
  and_loop-Delivers (suc n) l ts h =
      Delivers-if _
        (λ c.
          let (s, lt) = at-Reads keyword (codes "and") ts (cc) c in
          Delivers-bind (unary-Delivers n (advance ts) (omega arith)) λ (r, us) (p, lt').
            Delivers-map (and_loop-Delivers n (and_expr l r) us (omega arith))
              λ (e, vs) (q, lt''). (and_more s p q, omega arith))
        (λ _. delivers (and_done, omega arith))

  unary-Delivers :
      (n : ℕ) (ts : List Token)
      → 5 * length ts + 2 ≤ n
      → Delivers (Reads UnaryPhrase ts) (parse_unary n ts)
  unary-Delivers zero ts h = absurd (omega arith)
  unary-Delivers (suc n) ts h =
      Delivers-if _
        (λ c.
          let (s, lt) = at-Reads keyword (codes "not") ts (cc) c in
          Delivers-bind (atom-Delivers n (advance ts) (omega arith))
            λ (e, us) (p, lt'). delivers (negated s p, omega arith))
        (λ _. Delivers-map (atom-Delivers n ts (omega arith)) λ (e, us) (p, lt). (plain p, lt))

  atom-Delivers :
      (n : ℕ) (ts : List Token)
      → 5 * length ts + 1 ≤ n
      → Delivers (Reads AtomPhrase ts) (parse_atom n ts)
  atom-Delivers zero ts h = absurd (omega arith)
  atom-Delivers (suc n) ts h =
      Delivers-if _
        (λ c.
          let (s, lt) = at-Reads punct (codes "(") ts (cc) c in
          Delivers-bind (or-Delivers n (advance ts) (omega arith)) λ (e, us) (p, lt').
            Delivers-bind (expect-Delivers punct (codes ")") us (cc) (cc))
              λ (t, vs) (s', lt''). delivers (group s p s', omega arith))
        (λ _. field-Delivers n ts (omega arith))
