-- ===== src/Samples/Iptables.antt =====
-- The chain of a rule set in iptables.
use firefik.Prelude.{
  ◌≡◌, refl, false, true, Option, none, some, List, [], ◌∷◌, ◌++◌, if◌then◌else◌, Text, codes,
  text_eq, length,
}
use firefik.Docker.RuleSet.{IpNet, net4, net6, FirewallRuleSet, empty_rule_set}
use firefik.Rules.Nftables.{Verdict, accept, drop}
use firefik.Rules.Iptables.{IptRule, fill_rule_set_chain, build_rule}
use firefik.Rules.Iptables.Repeats.{has_rule}
use firefik.Rules.Iptables.Semantics.{Packet, run_chain}
use firefik.Rules.Iptables.Verdicts.{rule_set_verdict}
use firefik.Rules.Iptables.Chain.{fill_rule_set_chain_lem, fill_rule_set_chain-wide}

abbrev text_of : IpNet → Text
text_of (net4 _ _) = codes "10.0.0.0/8"
text_of (net6 _ _) = codes "::/0"

abbrev web : FirewallRuleSet
web = record empty_rule_set {
  name = codes "web";
  ports = 80 ∷ 80 ∷ [];
  allowlist = net4 167772160 8 ∷ [];
}

abbrev open_web : FirewallRuleSet
open_web = record empty_rule_set { name = codes "web"; ports = 80 ∷ []; allowlist = net6 0 0 ∷ [] }

-- A packet over TCP to port 80, of a source outside 10.0.0.0/8.
abbrev outside : Packet
outside = record {
  proto_is = λ v. text_eq v (codes "tcp");
  dport = 80;
  src_in = λ v. false;
  dst_is = λ v. false;
  within = λ v. true;
}

abbrev append_once : List IptRule → IptRule → List IptRule
append_once rules r = if has_rule r rules then rules else rules ++ r ∷ []

no_jumps : Text → Option Verdict
no_jumps c = none

-- The second port 80 adds nothing.
three_rules : length (fill_rule_set_chain (λ s. s) text_of append_once [] web) ≡ 3
unfolding fill_rule_set_chain has_rule
three_rules = refl

fill_rule_set_chain_lem_example :
    run_chain no_jumps outside (fill_rule_set_chain (λ s. s) text_of append_once [] web)
    ≡ rule_set_verdict (λ s. s) text_of outside [] web
fill_rule_set_chain_lem_example =
    fill_rule_set_chain_lem (λ s. s) text_of outside no_jumps append_once (λ rules r. refl) [] web

dropped_outside : rule_set_verdict (λ s. s) text_of outside [] web ≡ some drop
unfolding rule_set_verdict text_eq build_rule
dropped_outside = refl

fill_rule_set_chain-wide_example :
    run_chain no_jumps outside (fill_rule_set_chain (λ s. s) text_of append_once [] open_web)
    ≡ some accept
unfolding text_eq
fill_rule_set_chain-wide_example =
    fill_rule_set_chain-wide (λ s. s) text_of outside no_jumps append_once (λ rules r. refl) []
      open_web (net6 0 0) [] refl refl refl refl refl refl
