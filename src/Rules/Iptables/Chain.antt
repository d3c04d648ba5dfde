-- ===== src/Rules/Iptables/Chain.antt =====
-- The chain of a rule set, put together from its rules.
use firefik.Prelude.{
  ℕ, Bool, true, false, ◌≡◌, refl, sym, ap, ap₂, ◌∙◌, ◌&&◌, Option, none, some, List, [], ◌∷◌, ◌++◌,
  append_assoc, Text, codes, decimal, ◌==◌, ==_eq, Bool-cases, inl, inr,
}
use firefik.Docker.RuleSet.{IpNet, RateLimitConfig, FirewallRuleSet}
use firefik.Rules.Nftables.{Verdict, accept, drop, proto_or_tcp}
use firefik.Rules.Nftables.Semantics.{or_else}
use firefik.Rules.Nftables.Verdicts.{has_port, closing}
use firefik.Rules.Iptables.{
  IptRule, is_wide, build_rule, limit_name, log_rules, block_rules, allow_rules_with, each_net,
  closing_rules, port_commands, ports_commands, rule_set_rules, fill_rule_set_chain,
}
use firefik.Rules.Iptables.Semantics.{Packet, when, run_chain}
use firefik.Rules.Iptables.Repeats.{AppendsOnce, run-append_all}
use firefik.Rules.Iptables.Fragments.{hits}
use firefik.Rules.Iptables.Merge.{or_else-none, merge, limit_merge, three, ports_merge, nothing}
use firefik.Rules.Iptables.Verdicts.{
  src_in_net, blocked, granted, allowed, port_verdict, rule_set_verdict, run-log, run-drop,
  run-accept, run-limit,
}

module _ (hash : Text → Text) (net_text : IpNet → Text) (p : Packet)
    (call : Text → Option Verdict) where
  abbrev run : List IptRule → Option Verdict
  run rules = run_chain call p rules

  -- Whether a packet is one of the protocol to the port.
  abbrev here : Text → ℕ → Bool
  here proto port = p.proto_is proto && p.dport == port

  run-block :
      (rs : FirewallRuleSet) (proto : Text) (port : ℕ) (n : IpNet) (more : List IptRule)
      → run (block_rules hash net_text rs proto (decimal port) n ++ more)
        ≡ or_else (when (hits p proto port (net_text n)) (some drop)) (run more)
  unfolding block_rules
  run-block rs proto port n more =
      ap run (
        append_assoc (log_rules rs proto (decimal port) (net_text n) (codes "DROP"))
          (build_rule proto (decimal port) (net_text n) (codes "DROP") ∷ []) more)
      ∙ (run-log hash net_text p call rs proto port (net_text n) (codes "DROP") _
          ∙ run-drop hash net_text p call proto port (net_text n) more)

  run-allow :
      (limit : Option RateLimitConfig) (rs : FirewallRuleSet) (proto : Text) (port : ℕ) (n : IpNet)
      (more : List IptRule)
      → run (allow_rules_with hash net_text limit rs proto (decimal port) n ++ more)
        ≡ or_else
            (when
              (hits p proto port (net_text n))
              (some (granted hash net_text p limit rs.name port)))
            (run more)
  unfolding allow_rules_with
  run-allow none rs proto port n more =
      ap run (
        append_assoc (log_rules rs proto (decimal port) (net_text n) (codes "ACCEPT"))
          (build_rule proto (decimal port) (net_text n) (codes "ACCEPT") ∷ []) more)
      ∙ (run-log hash net_text p call rs proto port (net_text n) (codes "ACCEPT") _
          ∙ run-accept hash net_text p call proto port (net_text n) more)
  run-allow (some limit) rs proto port n more =
      run-limit hash net_text p call proto port (net_text n) rs.name limit _
      ∙ (ap
            (or_else (
              when (hits p proto port (net_text n))
                (when (p.within (limit_name hash rs.name (decimal port))) (some accept))))
            (run-drop hash net_text p call proto port (net_text n) more)
          ∙ limit_merge (hits p proto port (net_text n))
              (p.within (limit_name hash rs.name (decimal port))) (run more))

  run-blocks :
      (rs : FirewallRuleSet) (proto : Text) (port : ℕ) (ns : List IpNet) (more : List IptRule)
      → run (each_net hash net_text (block_rules hash net_text rs proto (decimal port)) ns ++ more)
        ≡ or_else (when (here proto port) (blocked hash net_text p ns)) (run more)
  unfolding each_net
  run-blocks rs proto port [] more = nothing (here proto port) (run more)
  run-blocks rs proto port (n ∷ ns) more =
      ap run (append_assoc (block_rules hash net_text rs proto (decimal port) n) _ more)
      ∙ (run-block rs proto port n _
          ∙ (ap (or_else (when (hits p proto port (net_text n)) (some drop)))
                (run-blocks rs proto port ns more)
              ∙ merge (p.proto_is proto) (p.dport == port) (src_in_net hash net_text p n) drop
                  (blocked hash net_text p ns) (run more)))

  run-allows :
      (rs : FirewallRuleSet) (proto : Text) (port : ℕ) (ns : List IpNet) (more : List IptRule)
      → run (
          each_net hash net_text
            (allow_rules_with hash net_text rs.rate_limit rs proto (decimal port))
            ns
          ++ more)
        ≡ or_else
            (when (here proto port) (allowed hash net_text p rs.rate_limit rs.name port ns))
            (run more)
  unfolding each_net
  run-allows rs proto port [] more = nothing (here proto port) (run more)
  run-allows rs proto port (n ∷ ns) more =
      ap run (
        append_assoc (allow_rules_with hash net_text rs.rate_limit rs proto (decimal port) n) _
          more)
      ∙ (run-allow rs.rate_limit rs proto port n _
          ∙ (ap
                (or_else (
                  when (hits p proto port (net_text n))
                    (some (granted hash net_text p rs.rate_limit rs.name port))))
                (run-allows rs proto port ns more)
              ∙ merge (p.proto_is proto) (p.dport == port) (src_in_net hash net_text p n)
                  (granted hash net_text p rs.rate_limit rs.name port)
                  (allowed hash net_text p rs.rate_limit rs.name port ns) (run more)))

  wide_hit : (proto : Text) (port : ℕ) → hits p proto port [] ≡ here proto port
  unfolding is_wide
  wide_hit proto port = go (p.proto_is proto) (p.dport == port)
    where
      go : (a b : Bool) → (a && (b && true)) ≡ (a && b)
      go true true = refl
      go true false = refl
      go false b = refl

  closing-build_rule :
      (proto port : Text) (more : List IptRule)
      → run ((codes "-p" ∷ proto ∷ codes "--dport" ∷ port ∷ codes "-j" ∷ codes "DROP" ∷ []) ∷ more)
        ≡ run (build_rule proto port [] (codes "DROP") ∷ more)
  unfolding build_rule
  closing-build_rule proto port more = refl

  run-closing :
      (rs : FirewallRuleSet) (proto : Text) (port : ℕ) (ns : List IpNet) (more : List IptRule)
      → run (closing_rules hash net_text rs proto (decimal port) ns ++ more)
        ≡ or_else (when (here proto port) (closing ns)) (run more)
  unfolding closing_rules
  run-closing rs proto port [] more = nothing (here proto port) (run more)
  run-closing rs proto port (n ∷ ns) more =
      ap run (append_assoc (log_rules rs proto (decimal port) [] (codes "DROP")) _ more)
      ∙ (run-log hash net_text p call rs proto port [] (codes "DROP") _
          ∙ (closing-build_rule proto (decimal port) more
              ∙ (run-drop hash net_text p call proto port [] more
                  ∙ ap (λ b. or_else (when b (some drop)) (run more)) (wide_hit proto port))))

  run-port :
      (rs : FirewallRuleSet) (ns : List IpNet) (proto : Text) (port : ℕ) (more : List IptRule)
      → run (port_commands hash net_text rs ns proto port ++ more)
        ≡ or_else (when (here proto port) (port_verdict hash net_text p rs ns port)) (run more)
  unfolding port_commands
  run-port rs ns proto port more =
      ap run (
        append_assoc
          (each_net hash net_text (block_rules hash net_text rs proto (decimal port)) rs.blocklist)
          (each_net hash net_text
              (allow_rules_with hash net_text rs.rate_limit rs proto (decimal port)) ns
            ++ closing_rules hash net_text rs proto (decimal port) ns)
          more
        ∙ ap
            (λ l.
              each_net hash net_text (block_rules hash net_text rs proto (decimal port))
                rs.blocklist
              ++ l)
            (append_assoc
              (each_net hash net_text
                (allow_rules_with hash net_text rs.rate_limit rs proto (decimal port)) ns)
              (closing_rules hash net_text rs proto (decimal port) ns) more))
      ∙ (run-blocks rs proto port rs.blocklist _
          ∙ (ap (or_else (when (here proto port) (blocked hash net_text p rs.blocklist))) (
                run-allows rs proto port ns _
                ∙ ap
                    (or_else (
                      when (here proto port)
                        (allowed hash net_text p rs.rate_limit rs.name port ns)))
                    (run-closing rs proto port ns more))
              ∙ three (here proto port) (blocked hash net_text p rs.blocklist)
                  (allowed hash net_text p rs.rate_limit rs.name port ns) (closing ns) (run more)))

  -- The verdict for the port of a rule is the one for the packet's port, where it counts.
  at_port :
      (rs : FirewallRuleSet) (ns : List IpNet) (proto : Text) (port : ℕ)
      → when (here proto port) (port_verdict hash net_text p rs ns port)
        ≡ when (here proto port) (port_verdict hash net_text p rs ns p.dport)
  at_port rs ns proto port = elim (Bool-cases (p.dport == port)) [
    | inl same ↦
        ap (λ n. when (here proto port) (port_verdict hash net_text p rs ns n)) (sym (==_eq same))
    | inr other ↦ rw other (nowhere (p.proto_is proto) _ _)
  ]
    where
      nowhere : (a : Bool) (x y : Option Verdict) → when (a && false) x ≡ when (a && false) y
      nowhere true x y = refl
      nowhere false x y = refl

  run-ports :
      (rs : FirewallRuleSet) (ns : List IpNet) (proto : Text) (ports : List ℕ) (more : List IptRule)
      → run (ports_commands hash net_text rs ns proto ports ++ more)
        ≡ or_else
            (when
              (p.proto_is proto && has_port ports p.dport)
              (port_verdict hash net_text p rs ns p.dport))
            (run more)
  unfolding ports_commands
  run-ports rs ns proto [] more = none_of (p.proto_is proto) _ (run more)
    where
      none_of : (a : Bool) (v rest : Option Verdict) → rest ≡ or_else (when (a && false) v) rest
      none_of true v rest = refl
      none_of false v rest = refl
  run-ports rs ns proto (port ∷ ports) more =
      ap run (
        append_assoc (port_commands hash net_text rs ns proto port)
          (ports_commands hash net_text rs ns proto ports) more)
      ∙ (run-port rs ns proto port _
          ∙ (ap₂ or_else (at_port rs ns proto port) (run-ports rs ns proto ports more)
              ∙ ports_merge (p.proto_is proto) (p.dport == port) (has_port ports p.dport)
                  (port_verdict hash net_text p rs ns p.dport) (run more)))

  run-return : run ((codes "-j" ∷ codes "RETURN" ∷ []) ∷ []) ≡ none
  unfolding run_chain
  run-return = refl

  module _ (append : List IptRule → IptRule → List IptRule) (once : AppendsOnce append) where
    -- When AppendUnique adds a rule exactly if it is not there, and whatever the jumps of other
    -- chains decide, a packet gets from the chain that `fillRuleSetChain` fills the verdict of the
    -- rule set: for its protocol and ports, drop for the block list, then accept for the allow list,
    -- within its limit if it has one, then drop if there is an allow list.
    pub fill_rule_set_chain_lem :
        (auto : List IpNet) (rs : FirewallRuleSet)
        → run_chain call p (fill_rule_set_chain hash net_text append auto rs)
          ≡ rule_set_verdict hash net_text p auto rs
    unfolding fill_rule_set_chain rule_set_rules rule_set_verdict
    fill_rule_set_chain_lem auto rs =
        run-append_all call p hash net_text append once _
        ∙ (run-ports rs (rs.allowlist ++ auto) (proto_or_tcp rs.protocol) rs.ports
              ((codes "-j" ∷ codes "RETURN" ∷ []) ∷ [])
            ∙ (ap (or_else _) run-return ∙ or_else-none _))

    -- When AppendUnique adds a rule exactly if it is not there: a rule set without a block list and
    -- a limit whose allow list starts with `::/0` accepts every packet of its protocol to its ports,
    -- whatever its source.
    pub fill_rule_set_chain-wide :
        (auto : List IpNet) (rs : FirewallRuleSet) (n : IpNet) (ns : List IpNet)
        → net_text n ≡ codes "::/0"
        → rs.blocklist ≡ []
        → rs.rate_limit ≡ none
        → rs.allowlist ≡ n ∷ ns
        → p.proto_is (proto_or_tcp rs.protocol) ≡ true
        → has_port rs.ports p.dport ≡ true
        → run_chain call p (fill_rule_set_chain hash net_text append auto rs) ≡ some accept
    unfolding rule_set_verdict is_wide
    fill_rule_set_chain-wide auto rs n ns text no_block no_limit allow proto port =
        fill_rule_set_chain_lem auto rs ∙ rw (proto, port, no_block, no_limit, allow, text) refl
