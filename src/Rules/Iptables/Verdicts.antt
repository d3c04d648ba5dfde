-- ===== src/Rules/Iptables/Verdicts.antt =====
-- What the chain of a rule set decides, against a description that does not mention rules.
use firefik.Prelude.{
  ℕ, Bool, true, false, ◌≡◌, refl, ap, ◌∙◌, ◌&&◌, ◌||◌, Option, none, some, List, [], ◌∷◌, ◌++◌,
  Text, codes, decimal, if◌then◌else◌,
}
use firefik.Docker.RuleSet.{IpNet, RateLimitConfig, FirewallRuleSet}
use firefik.Rules.Nftables.{Verdict, accept, drop, proto_or_tcp}
use firefik.Rules.Nftables.Semantics.{after, or_else}
use firefik.Rules.Nftables.Verdicts.{has_port, closing}
use firefik.Rules.Iptables.{
  IptRule, is_wide, build_rule, build_nflog_rule, log_rules, limit_name, build_rate_limit_rule,
}
use firefik.Rules.Iptables.Semantics.{Packet, target, when, eval, run_chain}
use firefik.Rules.Iptables.Fragments.{
  hits, build_rule-eval, build_nflog_rule-eval, build_rate_limit_rule-eval,
}

module _ (hash : Text → Text) (net_text : IpNet → Text) (p : Packet) where
  -- Whether a source is in a network: all of them are, when it is all addresses of either family.
  abbrev pub src_in_net : IpNet → Bool
  src_in_net n = is_wide (net_text n) || p.src_in (net_text n)

  abbrev pub blocked : List IpNet → Option Verdict
  blocked [] = none
  blocked (n ∷ ns) = if src_in_net n then some drop else blocked ns

  abbrev pub granted : Option RateLimitConfig → Text → ℕ → Verdict
  granted none name port = accept
  granted (some _) name port =
      if p.within (limit_name hash name (decimal port)) then accept else drop

  abbrev pub allowed : Option RateLimitConfig → Text → ℕ → List IpNet → Option Verdict
  allowed limit name port [] = none
  allowed limit name port (n ∷ ns) =
      if src_in_net n then some (granted limit name port) else allowed limit name port ns

  abbrev pub port_verdict : FirewallRuleSet → List IpNet → ℕ → Option Verdict
  port_verdict rs allowlist port =
      or_else (blocked rs.blocklist)
        (or_else (allowed rs.rate_limit rs.name port allowlist) (closing allowlist))

  -- Only packets of the rule set's protocol to one of its ports are decided.
  unfoldable pub rule_set_verdict : List IpNet → FirewallRuleSet → Option Verdict
  rule_set_verdict auto rs =
      when (p.proto_is (proto_or_tcp rs.protocol) && has_port rs.ports p.dport)
        (port_verdict rs (rs.allowlist ++ auto) p.dport)

  module _ (call : Text → Option Verdict) where
    abbrev run : List IptRule → Option Verdict
    run rules = run_chain call p rules

    pub run-cons :
        (r : IptRule) (more : List IptRule) → run (r ∷ more) ≡ after call (eval p r) (run more)
    unfolding run_chain
    run-cons r more = refl

    -- A rule that takes a final verdict when it hits.
    ends :
        (b w : Bool) (rest : Option Verdict)
        → after call (when b (when w (some accept))) rest
          ≡ or_else (when b (when w (some accept))) rest
    unfolding after
    ends true true rest = refl
    ends true false rest = refl
    ends false w rest = refl

    drops :
        (b : Bool) (rest : Option Verdict)
        → after call (when b (some drop)) rest ≡ or_else (when b (some drop)) rest
    unfolding after
    drops true rest = refl
    drops false rest = refl

    passes : (r : IptRule) (more : List IptRule) → eval p r ≡ none → run (r ∷ more) ≡ run more
    unfolding after
    passes r more e = run-cons r more ∙ ap (λ o. after call o (run more)) e

    pub run-log :
        (rs : FirewallRuleSet) (proto : Text) (port : ℕ) (src action_type : Text)
        (more : List IptRule)
        → run (log_rules rs proto (decimal port) src action_type ++ more) ≡ run more
    unfolding log_rules
    run-log rs proto port src action_type more =
        go (build_nflog_rule proto (decimal port) src rs.log_prefix action_type) rs.log
          (build_nflog_rule-eval p proto port src rs.log_prefix action_type)
      where
        go :
            (r : IptRule) (b : Bool)
            → eval p r ≡ none
            → run ((if b then r ∷ [] else []) ++ more) ≡ run more
        go r true e = passes r more e
        go r false e = refl

    drop_target : target (codes "DROP") ≡ some drop
    unfolding target
    drop_target = refl

    accept_target : target (codes "ACCEPT") ≡ some accept
    unfolding target
    accept_target = refl

    pub run-drop :
        (proto : Text) (port : ℕ) (src : Text) (more : List IptRule)
        → run (build_rule proto (decimal port) src (codes "DROP") ∷ more)
          ≡ or_else (when (hits p proto port src) (some drop)) (run more)
    run-drop proto port src more =
        run-cons (build_rule proto (decimal port) src (codes "DROP")) more
        ∙ (ap (λ o. after call o (run more))
              (build_rule-eval p proto port src (codes "DROP")
                ∙ ap (when (hits p proto port src)) drop_target)
            ∙ drops (hits p proto port src) (run more))

    pub run-accept :
        (proto : Text) (port : ℕ) (src : Text) (more : List IptRule)
        → run (build_rule proto (decimal port) src (codes "ACCEPT") ∷ more)
          ≡ or_else (when (hits p proto port src) (some accept)) (run more)
    run-accept proto port src more =
        run-cons (build_rule proto (decimal port) src (codes "ACCEPT")) more
        ∙ (ap (λ o. after call o (run more))
              (build_rule-eval p proto port src (codes "ACCEPT")
                ∙ ap (when (hits p proto port src)) accept_target)
            ∙ ends (hits p proto port src) true (run more))

    pub run-limit :
        (proto : Text) (port : ℕ) (src name : Text) (limit : RateLimitConfig) (more : List IptRule)
        → run (build_rate_limit_rule hash proto (decimal port) src name limit ∷ more)
          ≡ or_else
              (when
                (hits p proto port src)
                (when (p.within (limit_name hash name (decimal port))) (some accept)))
              (run more)
    run-limit proto port src name limit more =
        run-cons (build_rate_limit_rule hash proto (decimal port) src name limit) more
        ∙ (ap (λ o. after call o (run more))
              (build_rate_limit_rule-eval p hash proto port src name limit)
            ∙ ends (hits p proto port src) (p.within (limit_name hash name (decimal port)))
                (run more))
