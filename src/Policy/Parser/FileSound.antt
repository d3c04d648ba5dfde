-- ===== src/Policy/Parser/FileSound.antt =====
-- Rules, policies and files that the parser accepts are phrases of the grammar, and its fuel is enough.
use firefik.Prelude.{
  ℕ, zero, suc, ◌+◌, ◌*◌, ◌≤◌, ◌<◌, ◌≡◌, ◌≢◌, refl, subst, ap, ap₂, Option, some, none, List, [],
  ◌∷◌, Text, codes, text_eq, text_eq_iff, arith, length, map, true, Delivers, delivers, refuses,
  Delivers-if, Delivers-bind, ◌&&◌,
}
use firefik.Policy.Ast.{Action, Rule, Policy}
use firefik.Policy.Lexer.{eof, string, punct, keyword, Token, is_eof, TokenKind}
use firefik.Policy.Lexer.Total.{is_eof→eq}
use firefik.Policy.Parser.Tokens.{kind_eq, peek, expect}
use firefik.Policy.Parser.Files.{
  action_of, rule_behind, parse_rule, rules_loop, version_of, parse_policy, parse_all,
}
use firefik.Policy.Parser.Grammar.{
  Sym, sym, action_name, RulePhrase, rule, RulesPhrase, closed, unclosed, cons, PolicyPhrase,
  policy, FilePhrase, file_end, file_more,
}
use firefik.Policy.Parser.Reads.{kind_eq→eq, not-false, Reads, at-Reads, expect-Delivers}
use firefik.Policy.Parser.Sound.{or-Delivers}

action_of-name : (v : Text) (a : Action) → action_of v ≡ some a → v ≡ action_name a
unfolding action_of
action_of-name v a h = ground (
  arith,
  text_eq_iff v (codes "allow"),
  text_eq_iff v (codes "block"),
  text_eq_iff v (codes "log"),
)

rule_behind-Delivers :
    (n : ℕ) (t : Token) (ts : List Token) (o : Option Action)
    → 5 * length ts + 4 ≤ n
    → t.kind ≡ keyword
    → action_of t.value ≡ o
    → Delivers (Reads RulePhrase (t ∷ ts)) (rule_behind n t ts o)
unfolding rule_behind
rule_behind-Delivers n t ts none h k e = refuses
rule_behind-Delivers n t ts (some a) h k e =
    Delivers-bind (expect-Delivers keyword (codes "if") ts (cc) (cc)) λ (_, vs) (s, lt).
      Delivers-bind (or-Delivers n vs (omega arith))
        λ (x, ws) (p, lt'). delivers (rule a (sym k (action_of-name t.value a e)) s p, omega arith)

rule-Delivers :
    (n : ℕ) (ts : List Token) → 5 * length ts ≤ n → Delivers (Reads RulePhrase ts) (parse_rule n ts)
unfolding parse_rule
rule-Delivers n [] h = refuses
rule-Delivers n (t ∷ us) h =
    Delivers-if _ (λ _. refuses)
      λ k.
        rule_behind-Delivers n t us (action_of t.value) (omega arith)
          (kind_eq→eq t.kind keyword (not-false k)) refl

rules_loop-Delivers :
    (n : ℕ) (ts : List Token)
    → 5 * length ts + 5 ≤ n
    → Delivers
        (λ ((rs, us) : List Rule × List Token). RulesPhrase ts rs us × (length us ≤ length ts))
        (rules_loop n ts)
unfolding rules_loop
rules_loop-Delivers zero ts h = absurd (omega arith)
rules_loop-Delivers (suc n) ts h =
    Delivers-if _ (λ e. delivers (unclosed (is_eof→eq _ e), omega arith))
      λ _.
        Delivers-if _
          (λ c.
            let (s, lt) = at-Reads punct (codes "}") ts (cc) c in delivers (closed s, omega arith))
          λ _. Delivers-bind (rule-Delivers n ts (omega arith)) λ (r, us) (p, lt).
            Delivers-bind (rules_loop-Delivers n us (omega arith))
              λ (rs, vs) (q, lt'). delivers (cons p q, omega arith)

expect_any-Delivers :
    (k : TokenKind) (ts : List Token)
    → k ≢ eof
    → Delivers (λ ((t, us) : Token × List Token). (ts ≡ t ∷ us) × (t.kind ≡ k)) (expect k [] ts)
unfolding expect text_eq
expect_any-Delivers k [] ne =
    Delivers-if (kind_eq eof k && true) (λ h. absurd (ne (ground (arith, kind_eq→eq eof k))))
      (λ _. refuses)
expect_any-Delivers k (t ∷ us) ne =
    Delivers-if (kind_eq t.kind k && true)
      (λ h. delivers (refl, ground (arith, kind_eq→eq t.kind k))) (λ _. refuses)

module _ (sha256 : Text → Text) (src : Text) where
  -- The policy that the parser makes of a name and rules.
  abbrev pub stamp : Text × List Rule → Policy
  stamp (name, rules) = record {
    name = name;
    rules = rules;
    version = version_of sha256 name rules;
    source = [];
    source_bytes = src;
  }

  policy-Delivers :
      (n : ℕ) (ts : List Token)
      → 5 * length ts + 5 ≤ n
      → Delivers
          (λ ((p, us) : Policy × List Token).
            PolicyPhrase ts p.name p.rules us
            × (p ≡ stamp (p.name, p.rules))
            × (length us < length ts))
          (parse_policy sha256 src n ts)
  unfolding parse_policy
  policy-Delivers n ts h =
      Delivers-bind (expect-Delivers keyword (codes "policy") ts (cc) (cc)) λ (_, us) (s, lt).
        Delivers-bind (expect_any-Delivers string us (cc)) λ (t, vs) (e, k).
          Delivers-bind (expect-Delivers punct (codes "{") vs (cc) (cc)) λ (_, ws) (s', lt').
            Delivers-bind (rules_loop-Delivers n ws (omega (arith, ap length e)))
              λ (rs, xs) (p, lt''). delivers (
                policy (subst (Sym keyword (codes "policy") ts) e s) k s' p,
                refl,
                omega (arith, ap length e),
              )

  pub file-Delivers :
      (n : ℕ) (ts : List Token)
      → 5 * length ts + 6 ≤ n
      → Delivers
          (λ ps. (sums : List (Text × List Rule)) × FilePhrase ts sums × (ps ≡ map stamp sums))
          (parse_all sha256 src n ts)
  unfolding parse_all
  file-Delivers zero ts h = absurd (omega arith)
  file-Delivers (suc n) ts h =
      Delivers-if (is_eof (peek ts).kind) (λ e. delivers ([], file_end (is_eof→eq _ e), refl))
        λ _. Delivers-bind (policy-Delivers n ts (omega arith)) λ (p, us) (q, st, lt).
          Delivers-bind (file-Delivers n us (omega arith))
            λ ps (sums, qs, e). delivers ((p.name, p.rules) ∷ sums, file_more q qs, ap₂ ◌∷◌ st e)
