-- ===== src/Samples/Merging.antt =====
-- Names in labels, the rules file, and rate limits.
use firefik.Prelude.{◌≡◌, refl, none, some, [], ◌∷◌, codes, text_eq, contains}
use firefik.Docker.RuleSet.{net4, NetParser, RateLimitConfig, empty_rule_set, ContainerConfig}
use firefik.Policy.Unicode.{is_space}
use firefik.Rules.Engine.{empty_config}
use firefik.Rules.Merge.{FileRuleSet, split_comma_policy}

two_names : split_comma_policy (codes "web, ssh,,web ") ≡ codes "web" ∷ codes "ssh" ∷ []
unfolding split_comma_policy text_eq contains is_space
two_names = refl

abbrev one_net : NetParser
one_net = record { parse_ip = λ _. none; parse_cidr = λ _. some (net4 167772160 8) }

abbrev ssh_rule : FileRuleSet
ssh_rule = record {
  container = codes "app";
  name = codes "ssh";
  ports = 22 ∷ [];
  allowlist = codes "10.0.0.0/8" ∷ [];
  blocklist = [];
  default_policy = codes "RETURN";
  protocol = codes "tcp";
  profile = [];
}

abbrev labelled : ContainerConfig
labelled = record empty_config {
  rule_sets = record empty_rule_set { name = codes "web"; ports = 80 ∷ [] } ∷ [];
}

abbrev other_rule : FileRuleSet
other_rule = record ssh_rule { container = codes "db" }

abbrev fifty : RateLimitConfig
fifty = record { rate = 50; burst = 20 }
