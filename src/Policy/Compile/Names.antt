-- ===== src/Policy/Compile/Names.antt =====
-- The rule sets of a compiled policy, one by one: a set for each term of each rule.
use firefik.Prelude.{
  ℕ, ◌+◌, ◌≡◌, refl, List, [], ◌∷◌, ◌++◌, Text, Delivers, delivers, Delivers-bind, Delivers-ok,
  Delivers-total, ok, out_of_fuel, ◌≢◌,
}
use firefik.Docker.RuleSet.{NetParser, FirewallRuleSet}
use firefik.Policy.Ast.{Action, Expr, Rule, Policy}
use firefik.Policy.Unicode.{Unicode}
use firefik.Policy.Compile.{
  flatten_or, compile_terms, compile_rule, compile_rules, compile, Compiled,
}
use firefik.Policy.Compile.Sets.{IsTermSet, term-Delivers}

module _ (name version : Text) where
  -- The sets belong to the terms of one rule, numbered from `i`.
  abbrev pub RuleSets : Action → ℕ → List Expr → List FirewallRuleSet → Type 0
  RuleSets a i [] sets = sets ≡ []
  RuleSets a i (t ∷ ts) [] = ⊥
  RuleSets a i (t ∷ ts) (rs ∷ sets) = IsTermSet name version a i rs × RuleSets a (i + 1) ts sets

  -- The sets belong to the rules, in their order.
  abbrev pub PolicySets : List Rule → List FirewallRuleSet → Type 0
  PolicySets [] sets = sets ≡ []
  PolicySets (r ∷ rs) sets =
      (mine : List FirewallRuleSet) × (others : List FirewallRuleSet) × (sets ≡ mine ++ others)
      × RuleSets r.action 0 (flatten_or r.expr) mine
      × PolicySets rs others

module _ (u : Unicode) (net : NetParser) (name version : Text) where
  pub terms-Delivers :
      (a : Action) (i : ℕ) (ts : List Expr)
      → Delivers (RuleSets name version a i ts) (compile_terms u net name version a i ts)
  unfolding compile_terms
  terms-Delivers a i [] = delivers refl
  terms-Delivers a i (t ∷ ts) =
      Delivers-bind (term-Delivers u net name version a i t)
        λ rs p. Delivers-bind (terms-Delivers a (i + 1) ts) λ sets q. delivers (p, q)

  rules-Delivers :
      (rs : List Rule) → Delivers (PolicySets name version rs) (compile_rules u net name version rs)
  unfolding compile_rules compile_rule
  rules-Delivers [] = delivers refl
  rules-Delivers (r ∷ rs) =
      Delivers-bind (terms-Delivers r.action 0 (flatten_or r.expr))
        λ mine p. Delivers-bind (rules-Delivers rs) λ others q. delivers (mine, others, refl, p, q)

module _ (u : Unicode) (net : NetParser) (p : Policy) where
  compile-Delivers :
      Delivers
        (λ (c : Compiled).
          PolicySets p.name p.version p.rules c.rule_sets × (c.policy ≡ p) × (c.warnings ≡ []))
        (compile u net p)
  unfolding compile
  compile-Delivers =
      Delivers-bind (rules-Delivers u net p.name p.version p.rules)
        λ sets q. delivers (q, refl, refl)

  -- Compiling ends with rule sets or with an error.
  pub compile-total : compile u net p ≢ out_of_fuel
  compile-total = Delivers-total compile-Delivers

  -- A compiled policy has one rule set for each term of each rule, in order, with the rule's name,
  -- logging and prefix, no rate limit and no schedule, and with 16-bit ports; those of a block rule
  -- end their block list with all addresses.
  pub compile-sets :
      {c : Compiled}
      → compile u net p ≡ ok c
      → PolicySets p.name p.version p.rules c.rule_sets × (c.policy ≡ p) × (c.warnings ≡ [])
  compile-sets h = Delivers-ok compile-Delivers h
