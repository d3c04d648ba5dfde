-- ===== src/Samples/Compiling.antt =====
-- The compiler of policies on small policies.
use firefik.Prelude.{◌≡◌, refl, false, none, some, [], ◌∷◌, codes, text_eq, decimal, ok, Bool}
use firefik.Docker.RuleSet.{net4, NetParser, FirewallRuleSet, empty_rule_set}
use firefik.Policy.Ast.{
  allow, Expr, or_expr, and_expr, compare_expr, string_value, number_value, Rule, Policy,
}
use firefik.Policy.Unicode.{ascii}
use firefik.Policy.Compile.{compile, Compiled, flatten_or, flatten_and}
use firefik.Policy.Compile.Names.{PolicySets, compile-sets}
use firefik.Policy.Compile.Flatten.{holds, some_holds, all_hold, flatten_lem}
use firefik.Policy.Compile.Clashes.{Compiles, same_action_clash}

-- A parser that reads every network as 10.0.0.0/8.
abbrev one_net : NetParser
one_net = record { parse_ip = λ _. none; parse_cidr = λ _. some (net4 167772160 8) }

abbrev port_is : Rule
port_is = record {
  action = allow;
  expr = compare_expr (codes "port") (codes "==") (number_value 80);
}

abbrev net_is : Rule
net_is = record {
  action = allow;
  expr =
      and_expr (compare_expr (codes "src_net") (codes "==") (string_value (codes "10.0.0.0/8")))
        (compare_expr (codes "port") (codes "==") (number_value 22));
}

abbrev web : Policy
web = record {
  name = codes "web";
  rules = port_is ∷ net_is ∷ [];
  version = codes "1";
  source = [];
  source_bytes = [];
}

-- One name for the rule sets of two rules.
abbrev web_set : FirewallRuleSet
web_set = record empty_rule_set {
  name = codes "pol:web@1#allow-0";
  protocol = codes "tcp";
  log_prefix = codes "web@1";
}

abbrev web_compiled : Compiled
web_compiled = record {
  policy = web;
  rule_sets =
      record web_set { ports = 80 ∷ [] }
      ∷ record web_set { ports = 22 ∷ []; allowlist = net4 167772160 8 ∷ [] }
      ∷ [];
  warnings = [];
}

web-compile : compile ascii one_net web ≡ ok web_compiled
unfolding compile text_eq flatten_or flatten_and decimal
web-compile = refl

compile-sets_example :
    PolicySets (codes "web") (codes "1") (port_is ∷ net_is ∷ []) web_compiled.rule_sets
    × (web_compiled.policy ≡ web)
    × (web_compiled.warnings ≡ [])
compile-sets_example = compile-sets ascii one_net web {c = web_compiled} web-compile

same_action_clash_example :
    (s : FirewallRuleSet) × (s' : FirewallRuleSet) × Compiles ascii one_net
      (codes "web")
      (codes "1")
      []
      port_is
      []
      net_is
      []
      s
      s'
      web_compiled.rule_sets
    × (s.name ≡ s'.name)
same_action_clash_example =
    same_action_clash ascii one_net web [] [] [] port_is net_is {c = web_compiled} refl refl
      web-compile

-- A connection to port 80 from outside 10.0.0.0/8.
abbrev answers : Expr → Bool
answers (compare_expr field op v) = text_eq field (codes "port")
answers e = false

flatten_lem_example :
    holds answers (or_expr port_is.expr net_is.expr)
    ≡ some_holds
        (λ term. all_hold (holds answers) (flatten_and term))
        (flatten_or (or_expr port_is.expr net_is.expr))
flatten_lem_example = flatten_lem answers (or_expr port_is.expr net_is.expr)
