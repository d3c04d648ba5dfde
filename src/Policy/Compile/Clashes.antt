-- ===== src/Policy/Compile/Clashes.antt =====
-- Where the compiled rule sets do not say what the policy says.
use firefik.Prelude.{
  ◌≡◌, refl, sym, ap, ◌∙◌, subst, List, [], ◌∷◌, ◌++◌, append_assoc, Text, ap₂, ok, ◌>>=◌,
  bind-eq-ok, ok-injective, Delivers-ok,
}
use firefik.Docker.RuleSet.{NetParser, FirewallRuleSet}
use firefik.Policy.Ast.{Action, Expr, or_expr, Rule, Policy}
use firefik.Policy.Unicode.{Unicode}
use firefik.Policy.Compile.{flatten_or, compile_rule, compile_rules, compile, Compiled, set_name}
use firefik.Policy.Compile.Names.{RuleSets, terms-Delivers}

-- A rule has a first term.
flatten_or_cons : (e : Expr) → (t : Expr) × (ts : List Expr) × (flatten_or e ≡ t ∷ ts)
unfolding flatten_or
flatten_or_cons (or_expr l r) =
    let (t, ts, e) = flatten_or_cons l in (t, ts ++ flatten_or r, ap (λ xs. xs ++ flatten_or r) e)
flatten_or_cons e = (e, [], refl)

module _ (name version : Text) where
  RuleSets-first :
      (a : Action) (ts : List Expr) (t : Expr) (ts' : List Expr) (sets : List FirewallRuleSet)
      → ts ≡ t ∷ ts'
      → RuleSets name version a 0 ts sets
      → (s : FirewallRuleSet) × (rest : List FirewallRuleSet) × (sets ≡ s ∷ rest)
        × (s.name ≡ set_name name version a 0)
  RuleSets-first a [] t ts' sets e p = cc
  RuleSets-first a (x ∷ xs) t ts' [] e p = absurd p
  RuleSets-first a (x ∷ xs) t ts' (s ∷ rest) e p = (s, rest, refl, p.0.named)

module _ (u : Unicode) (net : NetParser) (name version : Text) where
  -- The sets of a rule among others, and those of the rules before and behind it.
  compile_rules-split :
      (xs : List Rule) (r : Rule) (ys : List Rule) (sets : List FirewallRuleSet)
      → compile_rules u net name version (xs ++ r ∷ ys) ≡ ok sets
      → (before : List FirewallRuleSet) × (own : List FirewallRuleSet) × (behind : List
          FirewallRuleSet)
        × (sets ≡ before ++ (own ++ behind))
        × (compile_rules u net name version xs ≡ ok before)
        × (compile_rule u net name version r ≡ ok own)
        × (compile_rules u net name version ys ≡ ok behind)
  unfolding compile_rules
  compile_rules-split [] r ys sets h =
      let (own, mine, k) =
        bind-eq-ok (compile_rule u net name version r)
          (λ own. compile_rules u net name version ys >>= λ more. ok (own ++ more)) h in
      let (behind, others, e) =
        bind-eq-ok (compile_rules u net name version ys) (λ more. ok (own ++ more)) k in
      ([], own, behind, sym (ok-injective e), refl, mine, others)
  compile_rules-split (x ∷ xs) r ys sets h =
      let (first, one, k) =
        bind-eq-ok (compile_rule u net name version x)
          (λ first. compile_rules u net name version (xs ++ r ∷ ys) >>= λ more. ok (first ++ more))
          h in
      let (rest, all, e) =
        bind-eq-ok (compile_rules u net name version (xs ++ r ∷ ys)) (λ more. ok (first ++ more))
          k in
      let (before, own, behind, split, ahead, mine, others) =
        compile_rules-split xs r ys rest all in
      (
        first ++ before,
        own,
        behind,
        sym (ok-injective e)
            ∙ (ap (◌++◌ first) split ∙ sym (append_assoc first before (own ++ behind))),
        rw (one, ahead) refl,
        mine,
        others,
      )

  -- A rule that compiles has a first set, named by its action.
  compile_rule-first :
      (r : Rule) (sets : List FirewallRuleSet)
      → compile_rule u net name version r ≡ ok sets
      → (s : FirewallRuleSet) × (rest : List FirewallRuleSet) × (sets ≡ s ∷ rest)
        × (s.name ≡ set_name name version r.action 0)
  unfolding compile_rule
  compile_rule-first r sets h =
      let (t, ts, c) = flatten_or_cons r.expr in
      RuleSets-first name version r.action (flatten_or r.expr) t ts sets c
        (Delivers-ok (terms-Delivers u net name version r.action 0 (flatten_or r.expr)) h)

  -- What the rules of a policy compile to, with the first sets of two of them.
  abbrev pub Compiles :
      List Rule
      → Rule
      → List Rule
      → Rule
      → List Rule
      → FirewallRuleSet
      → FirewallRuleSet
      → List FirewallRuleSet
      → Type 0
  Compiles xs r ys r' zs s s' sets =
      (before : List FirewallRuleSet) × (own : List FirewallRuleSet) × (between : List
        FirewallRuleSet)
      × (own' : List FirewallRuleSet) × (behind : List FirewallRuleSet) × (sets
          ≡ before ++ ((s ∷ own) ++ (between ++ ((s' ∷ own') ++ behind))))
      × (compile_rules u net name version xs ≡ ok before)
      × (compile_rule u net name version r ≡ ok (s ∷ own))
      × (compile_rules u net name version ys ≡ ok between)
      × (compile_rule u net name version r' ≡ ok (s' ∷ own'))
      × (compile_rules u net name version zs ≡ ok behind)

  rules-clash :
      (xs ys zs : List Rule) (r r' : Rule) (sets : List FirewallRuleSet)
      → r.action ≡ r'.action
      → compile_rules u net name version (xs ++ r ∷ (ys ++ r' ∷ zs)) ≡ ok sets
      → (s : FirewallRuleSet) × (s' : FirewallRuleSet) × Compiles xs r ys r' zs s s' sets
        × (s.name ≡ s'.name)
  rules-clash xs ys zs r r' sets a h =
      let (before, all, rest, e, hx, hr, hrest) = compile_rules-split xs r (ys ++ r' ∷ zs) sets h in
      let (between, all', behind, e', hy, hr', hz) = compile_rules-split ys r' zs rest hrest in
      let (s, own, is, named) = compile_rule-first r all hr in
      let (s', own', is', named') = compile_rule-first r' all' hr' in
      (
        s,
        s',
        (
          before,
          own,
          between,
          own',
          behind,
          e ∙ ap (◌++◌ before) (ap₂ ◌++◌ is (e' ∙ ap (λ m. between ++ (m ++ behind)) is')),
          hx,
          hr ∙ ap ok is,
          hy,
          hr' ∙ ap ok is',
          hz,
        ),
        named ∙ (ap (λ b. set_name name version b 0) a ∙ sym named'),
      )

-- Two rules with one action, anywhere in a policy that compiles: the sets of the policy are those
-- that the rules before, the one rule, the rules between, the other rule and the rules behind
-- compile to, and the first set of the one rule and that of the other have one name.
pub same_action_clash :
    (u : Unicode) (net : NetParser) (p : Policy) (xs ys zs : List Rule) (r r' : Rule) {c : Compiled}
    → p.rules ≡ xs ++ r ∷ (ys ++ r' ∷ zs)
    → r.action ≡ r'.action
    → compile u net p ≡ ok c
    → (s : FirewallRuleSet) × (s' : FirewallRuleSet) × Compiles u net p.name p.version xs r ys r' zs
        s s' c.rule_sets
      × (s.name ≡ s'.name)
unfolding compile
same_action_clash u net p xs ys zs r r' {c} e a h =
    let (sets, compiled, made) =
      bind-eq-ok (compile_rules u net p.name p.version p.rules)
        (λ sets. ok (record { policy = p; rule_sets = sets; warnings = [] })) h in
    let is : sets ≡ c.rule_sets = ap (λ (d : Compiled). d.rule_sets) (ok-injective made) in
    rules-clash u net p.name p.version xs ys zs r r' c.rule_sets a (
      subst (λ rs. compile_rules u net p.name p.version rs ≡ ok c.rule_sets) e
        (compiled ∙ ap ok is))
