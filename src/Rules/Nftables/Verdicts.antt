-- ===== src/Rules/Nftables/Verdicts.antt =====
-- What the chain of a rule set decides, against a description that does not mention rules.
use firefik.Prelude.{
  ℕ, Bool, true, false, ◌≡◌, refl, ◌∙◌, ap, ◌&&◌, ◌||◌, Option, none, some, List, [], ◌∷◌, ◌++◌,
  append_assoc, Text, codes, text_eq_refl, ◌==◌, if◌then◌else◌,
}
use firefik.Docker.RuleSet.{IpNet, RateLimitConfig, FirewallRuleSet}
use firefik.Policy.Unicode.{Unicode}
use firefik.Rules.Nftables.{
  Verdict, accept, drop, NftExpr, dynset, verdict, counter, Op, add_rule, src_net_match, proto_port,
  proto_num, proto_or_tcp, log_expr, src_payload, family_name, limit_set, limit_rules, block_rule,
  allow_rule, allow_rule_with, each, closing_rule, port_rules, ports_rules,
}
use firefik.Rules.Nftables.Semantics.{Packet, eval, or_else, after, run_chain, chain_rules}
use firefik.Rules.Nftables.Fragments.{src_in, hits, eval-log, eval-proto_port, eval-net, eval-limit}

abbrev pub when {ℓ} : {A : Type ℓ} → Bool → Option A → Option A
when b o = if b then o else none

abbrev pub has_port : List ℕ → ℕ → Bool
has_port [] n = false
has_port (q ∷ qs) n = n == q || has_port qs n

-- A source in the block list is dropped.
abbrev pub blocked : List IpNet → Packet → Option Verdict
blocked [] p = none
blocked (n ∷ ns) p = if src_in n p then some drop else blocked ns p

-- A source outside an allow list that has networks is dropped.
abbrev pub closing : List IpNet → Option Verdict
closing [] = none
closing (_ ∷ _) = some drop

module _ (u : Unicode) (hash : Text → Text) (chain_name id : Text) where
  -- What a packet from a network of the allow list gets: the limit's set decides, if there is one.
  abbrev pub granted_with : Option RateLimitConfig → FirewallRuleSet → IpNet → Packet → Verdict
  granted_with none rs n p = accept
  granted_with (some _) rs n p =
      if p.within (limit_set u hash chain_name id rs.name (family_name n)) then accept else drop

  abbrev pub granted : FirewallRuleSet → IpNet → Packet → Verdict
  granted rs n p = granted_with rs.rate_limit rs n p

  abbrev pub allowed : FirewallRuleSet → List IpNet → Packet → Option Verdict
  allowed rs [] p = none
  allowed rs (n ∷ ns) p = if src_in n p then some (granted rs n p) else allowed rs ns p

  -- The block list goes before the allow list, and its first network with the source decides.
  abbrev pub port_verdict : FirewallRuleSet → List IpNet → Packet → Option Verdict
  port_verdict rs allowlist p =
      or_else (blocked rs.blocklist p) (or_else (allowed rs allowlist p) (closing allowlist))

  -- Only packets of the rule set's protocol to one of its ports are decided.
  unfoldable pub rule_set_verdict : List IpNet → FirewallRuleSet → Packet → Option Verdict
  rule_set_verdict auto rs p =
      when (p.l4proto == proto_num u (proto_or_tcp rs.protocol) && has_port rs.ports p.dport)
        (port_verdict rs (rs.allowlist ++ auto) p)

  module _ (call : Text → Option Verdict) (p : Packet) (c : Text) where
    -- What the rules of the chain decide, when the operations are queued.
    abbrev pub run : List Op → Option Verdict
    run ops = run_chain call p (chain_rules c ops)

    pub run-rule :
        (r : List NftExpr) (o : Option Verdict) (ops : List Op)
        → eval p 0 r ≡ o
        → run (add_rule c r ∷ ops) ≡ after call o (run ops)
    unfolding run_chain chain_rules
    run-rule r o ops h = rw (text_eq_refl c, h) refl

    -- A rule with a final verdict, before rules that decide by the same port.
    after-when :
        (h s : Bool) (v : Verdict) (a k : Option Verdict)
        → after call (some v) (or_else a k) ≡ some v
        → after call (when (h && s) (some v)) (or_else (when h a) k)
          ≡ or_else (when h (if s then some v else a)) k
    unfolding after
    after-when true true v a k e = e
    after-when true false v a k e = refl
    after-when false s v a k e = refl

    when-none : (h : Bool) (k : Option Verdict) → k ≡ or_else (when h none) k
    when-none true k = refl
    when-none false k = refl

    run-blocks :
        (rs : FirewallRuleSet) (proto : Text) (port : ℕ) (bls : List IpNet) (ops : List Op)
        → run (each (block_rule u hash chain_name c rs proto port) bls ++ ops)
          ≡ or_else (when (hits u proto port p) (blocked bls p)) (run ops)
    unfolding block_rule after
    run-blocks rs proto port [] ops = when-none (hits u proto port p) _
    run-blocks rs proto port (n ∷ ns) ops =
        run-rule _ _ (each (block_rule u hash chain_name c rs proto port) ns ++ ops)
          (eval-net u p 0 n proto port _ (some drop) (λ r. eval-log p r rs (codes "DROP") drop))
        ∙ (ap (after call _) (run-blocks rs proto port ns ops)
            ∙ after-when (hits u proto port p) (src_in n p) drop (blocked ns p) (run ops) refl)

    -- The two rules of a limit: the first accepts within it, the second drops.
    after-limit :
        (h s w : Bool) (a k : Option Verdict)
        → after call
            (when (h && s) (if w then some accept else none))
            (after call (when (h && s) (some drop)) (or_else (when h a) k))
          ≡ or_else (when h (if s then some (if w then accept else drop) else a)) k
    unfolding after
    after-limit true true true a k = refl
    after-limit true true false a k = refl
    after-limit true false w a k = refl
    after-limit false s w a k = refl

    run-allow :
        (o : Option RateLimitConfig) (rs : FirewallRuleSet) (proto : Text) (port : ℕ) (n : IpNet)
        (rest : List Op) (a k : Option Verdict)
        → run rest ≡ or_else (when (hits u proto port p) a) k
        → run (allow_rule_with u hash chain_name o c id rs proto port n ++ rest)
          ≡ or_else
              (when (hits u proto port p) (if src_in n p then some (granted_with o rs n p) else a))
              k
    unfolding allow_rule_with limit_rules after chain_rules
    run-allow none rs proto port n rest a k h =
        run-rule _ _ rest (
          eval-net u p 0 n proto port _ (some accept)
            (λ r. eval-log p r rs (codes "ACCEPT") accept))
        ∙ (ap (after call _) h ∙ after-when (hits u proto port p) (src_in n p) accept a k refl)
    run-allow (some limit) rs proto port n rest a k h =
        let drops =
          add_rule c (
            src_net_match n
            ++ (proto_port u proto port
                ++ (log_expr rs (codes "DROP") ++ counter ∷ verdict drop ∷ [])))
          ∷ rest in
        run-rule _ _ drops (
          eval-net u p 0 n proto port
            (src_payload n
              ∷ dynset (limit_set u hash chain_name id rs.name (family_name n)) limit.rate
                  limit.burst
              ∷ counter
              ∷ verdict accept
              ∷ [])
            _ (λ r. eval-limit p r n _ limit.rate limit.burst accept))
        ∙ (ap (after call _) (
              run-rule _ _ rest (
                eval-net u p 0 n proto port _ (some drop)
                  (λ r. eval-log p r rs (codes "DROP") drop))
              ∙ ap (after call _) h)
            ∙ after-limit (hits u proto port p) (src_in n p)
                (p.within (limit_set u hash chain_name id rs.name (family_name n))) a k)

    run-allows :
        (rs : FirewallRuleSet) (proto : Text) (port : ℕ) (als : List IpNet) (ops : List Op)
        → run (each (allow_rule u hash chain_name c id rs proto port) als ++ ops)
          ≡ or_else (when (hits u proto port p) (allowed rs als p)) (run ops)
    unfolding allow_rule
    run-allows rs proto port [] ops = when-none (hits u proto port p) _
    run-allows rs proto port (n ∷ ns) ops = rw append_assoc (
        run-allow rs.rate_limit rs proto port n _ (allowed rs ns p) (run ops)
          (run-allows rs proto port ns ops))

    run-closing :
        (rs : FirewallRuleSet) (proto : Text) (port : ℕ) (als : List IpNet) (ops : List Op)
        → run (closing_rule u hash chain_name c rs proto port als ++ ops)
          ≡ or_else (when (hits u proto port p) (closing als)) (run ops)
    unfolding closing_rule after
    run-closing rs proto port [] ops = when-none (hits u proto port p) _
    run-closing rs proto port (n ∷ ns) ops =
        run-rule _ _ ops (
          eval-proto_port u p 0 proto port _ (some drop) (λ r. eval-log p r rs (codes "DROP") drop))
        ∙ last (hits u proto port p)
      where
        last :
            (h : Bool)
            → after call (when h (some drop)) (run ops) ≡ or_else (when h (some drop)) (run ops)
        last true = refl
        last false = refl

    run-port :
        (rs : FirewallRuleSet) (proto : Text) (port : ℕ) (als : List IpNet) (ops : List Op)
        → run (port_rules u hash chain_name c id rs als proto port ++ ops)
          ≡ or_else (when (hits u proto port p) (port_verdict rs als p)) (run ops)
    unfolding port_rules
    run-port rs proto port als ops =
        rw (append_assoc, append_assoc)
          (run-blocks rs proto port rs.blocklist _
            ∙ (ap (or_else _) (
                  run-allows rs proto port als _
                  ∙ ap (or_else _) (run-closing rs proto port als ops))
                ∙ join (hits u proto port p) (blocked rs.blocklist p) (allowed rs als p)
                    (closing als) (run ops)))
      where
        join :
            (h : Bool) (x y z k : Option Verdict)
            → or_else (when h x) (or_else (when h y) (or_else (when h z) k))
              ≡ or_else (when h (or_else x (or_else y z))) k
        join true none none z k = refl
        join true none (some y) z k = refl
        join true (some x) y z k = refl
        join false x y z k = refl

    pub run-ports :
        (rs : FirewallRuleSet) (proto : Text) (ports : List ℕ) (als : List IpNet) (ops : List Op)
        → run (ports_rules u hash chain_name c id rs als proto ports ++ ops)
          ≡ or_else
              (when
                (p.l4proto == proto_num u proto && has_port ports p.dport)
                (port_verdict rs als p))
              (run ops)
    unfolding ports_rules hits
    run-ports rs proto [] als ops = nowhere (p.l4proto == proto_num u proto) _ _
      where
        nowhere : (l : Bool) (x k : Option Verdict) → k ≡ or_else (when (l && false) x) k
        nowhere true x k = refl
        nowhere false x k = refl
    run-ports rs proto (port ∷ ports) als ops = rw append_assoc (
        run-port rs proto port als _
        ∙ (ap (or_else _) (run-ports rs proto ports als ops)
            ∙ either (p.l4proto == proto_num u proto) (p.dport == port) (has_port ports p.dport)
                (port_verdict rs als p) (run ops)))
      where
        either :
            (l h t : Bool) (x k : Option Verdict)
            → or_else (when (l && h) x) (or_else (when (l && t) x) k)
              ≡ or_else (when (l && (h || t)) x) k
        either true true true none k = refl
        either true true true (some x) k = refl
        either true true false none k = refl
        either true true false (some x) k = refl
        either true false t x k = refl
        either false h t x k = refl
