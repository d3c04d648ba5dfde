-- ===== src/Rules/Nftables/Chains.antt =====
-- What the chains of a container decide together: its rule sets in order, then the default policy.
use firefik.Prelude.{
  ℕ, ◌<◌, false, ◌≡◌, refl, subst, ◌∙◌, ap, ap₂, map, if_ind, Option, none, some, List, [], ◌∷◌,
  ◌++◌, append_assoc, All, All-append, Text, codes, text_eq, text_eq_iff, text_eq_refl, length,
  Bool-cases, inl, inr, if◌then◌else◌,
}
use firefik.Docker.RuleSet.{Ip, IpNet, RateLimitConfig, FirewallRuleSet}
use firefik.Policy.Unicode.{Unicode}
use firefik.Rules.Nftables.{
  Verdict, return_, jump, verdict, counter, Op, add_chain, add_set, add_rule, container_chain,
  rule_set_chain, limit_rules, block_rule, allow_rule, allow_rule_with, each, closing_rule,
  port_rules, ports_rules, proto_or_tcp, rule_set_ops, rule_sets_ops, default_verdict,
  forward_rules, container_ops,
}
use firefik.Rules.Nftables.Semantics.{
  Packet, eval, or_else, after, run_chain, chain_rules, verdict_in,
}
use firefik.Rules.Nftables.Apart.{chain-main, main-chain, forward-chain, forward-main}
use firefik.Rules.Nftables.Verdicts.{rule_set_verdict, run, run-rule, run-ports}

-- The rule of an operation goes into the chain `d`.
abbrev pub Into : Text → Op → Type 0
Into d (add_rule e _) = e ≡ d
Into d _ = Unit

chain_rules-skip :
    (c d : Text) (ops k : List Op)
    → text_eq d c ≡ false
    → All (Into d) ops
    → chain_rules c (ops ++ k) ≡ chain_rules c k
unfolding chain_rules
chain_rules-skip c d [] k h all = refl
chain_rules-skip c d (add_chain _ ∷ ops) k h (_, all) = chain_rules-skip c d ops k h all
chain_rules-skip c d (add_set _ ∷ ops) k h (_, all) = chain_rules-skip c d ops k h all
chain_rules-skip c d (add_rule e _ ∷ ops) k h (same, all) =
    rw (same, h) (chain_rules-skip c d ops k h all)

All-each :
    (d : Text) (f : IpNet → List Op)
    → ((n : IpNet) → All (Into d) (f n))
    → (ns : List IpNet) → All (Into d) (each f ns)
All-each d f h [] = tt
All-each d f h (n ∷ ns) = All-append (Into d) (f n) _ (h n) (All-each d f h ns)

module _ (u : Unicode) (hash : Text → Text) (chain_name id : Text) where
  abbrev pub chain_of : FirewallRuleSet → Text
  chain_of rs = rule_set_chain u hash chain_name id rs.name

  abbrev pub main : Text
  main = container_chain u hash chain_name id

  ports-Into :
      (d : Text) (rs : FirewallRuleSet) (als : List IpNet) (proto : Text) (ports : List ℕ)
      → All (Into d) (ports_rules u hash chain_name d id rs als proto ports)
  unfolding ports_rules port_rules block_rule allow_rule allow_rule_with limit_rules closing_rule
  ports-Into d rs als proto [] = tt
  ports-Into d rs als proto (port ∷ ports) =
      All-append (Into d) (port_rules u hash chain_name d id rs als proto port) _
        (All-append (Into d) (each (block_rule u hash chain_name d rs proto port) rs.blocklist) _
          (All-each d (block_rule u hash chain_name d rs proto port) (λ n. (refl, tt)) rs.blocklist)
          (All-append (Into d) (each (allow_rule u hash chain_name d id rs proto port) als) _
            (All-each d _ (allow-Into rs.rate_limit) als) (closing-Into als)))
        (ports-Into d rs als proto ports)
    where
      allow-Into :
          (o : Option RateLimitConfig) (n : IpNet)
          → All (Into d) (allow_rule_with u hash chain_name o d id rs proto port n)
      allow-Into none n = (refl, tt)
      allow-Into (some limit) n = (tt, (refl, (refl, tt)))

      closing-Into :
          (ns : List IpNet) → All (Into d) (closing_rule u hash chain_name d rs proto port ns)
      closing-Into [] = tt
      closing-Into (n ∷ ns) = (refl, tt)

  -- The first of the rule sets with this chain decides for all of them: behind its rules, the chain returns.
  abbrev pub chain_verdict : List IpNet → List FirewallRuleSet → Packet → Text → Option Verdict
  chain_verdict auto [] p c = none
  chain_verdict auto (rs ∷ sets) p c =
      if text_eq (chain_of rs) c
      then rule_set_verdict u hash chain_name id auto rs p
      else chain_verdict auto sets p c

  module _ (auto : List IpNet) (p : Packet) where
    abbrev own_rules : FirewallRuleSet → List Op
    own_rules rs =
        ports_rules u hash chain_name (chain_of rs) id rs (rs.allowlist ++ auto)
          (proto_or_tcp rs.protocol) rs.ports

    -- In the chain of a rule set, its rules decide, and then the chain returns.
    run-own :
        (rs : FirewallRuleSet) (k : List Op)
        → run u hash chain_name id
            (λ _. none)
            p
            (chain_of rs)
            (own_rules rs ++ add_rule (chain_of rs) (verdict return_ ∷ []) ∷ k)
          ≡ rule_set_verdict u hash chain_name id auto rs p
    unfolding rule_set_verdict eval after
    run-own rs k =
        run-ports u hash chain_name id (λ _. none) p (chain_of rs) rs (proto_or_tcp rs.protocol)
          rs.ports (rs.allowlist ++ auto) _
        ∙ (ap (or_else _)
              (run-rule u hash chain_name id (λ _. none) p (chain_of rs) _ (some return_) k refl)
            ∙ or_else-none (rule_set_verdict u hash chain_name id auto rs p))
      where
        or_else-none : (o : Option Verdict) → or_else o none ≡ o
        or_else-none none = refl
        or_else-none (some v) = refl

    -- What a rule set queues before the later ones.
    abbrev behind : FirewallRuleSet → List Op → List Op
    behind rs k =
        add_rule (chain_of rs) (verdict return_ ∷ [])
        ∷ add_rule main (verdict (jump (chain_of rs)) ∷ [])
        ∷ k

    abbrev queued : FirewallRuleSet → List Op → List Op
    queued rs k = own_rules rs ++ behind rs k

    sets-cons :
        (rs : FirewallRuleSet) (sets : List FirewallRuleSet) (k : List Op)
        → rule_sets_ops u hash chain_name id auto (rs ∷ sets) ++ k
          ≡ add_chain (chain_of rs) ∷ queued rs (rule_sets_ops u hash chain_name id auto sets ++ k)
    unfolding rule_sets_ops rule_set_ops
    sets-cons rs sets k =
        append_assoc (rule_set_ops u hash chain_name id auto rs)
          (rule_sets_ops u hash chain_name id auto sets) k
        ∙ ap (λ ops. add_chain (chain_of rs) ∷ ops) (append_assoc (own_rules rs) _ _)

    sets-nil : (k : List Op) → rule_sets_ops u hash chain_name id auto [] ++ k ≡ k
    unfolding rule_sets_ops
    sets-nil k = refl

    run-chain :
        (c : Text) (sets : List FirewallRuleSet) (k : List Op)
        → text_eq main c ≡ false
        → chain_rules c k ≡ []
        → run u hash chain_name id
            (λ _. none)
            p
            c
            (rule_sets_ops u hash chain_name id auto sets ++ k)
          ≡ chain_verdict auto sets p c
    unfolding run_chain chain_rules
    run-chain c [] k apart h = rw (sets-nil, h) refl
    run-chain c (rs ∷ sets) k apart h = rw sets-cons (elim (Bool-cases (text_eq (chain_of rs) c)) [
      | inl same ↦ rw same (
          subst
            (λ d.
              run u hash chain_name id (λ _. none) p d
                (queued rs (rule_sets_ops u hash chain_name id auto sets ++ k))
              ≡ rule_set_verdict u hash chain_name id auto rs p)
            ((text_eq_iff (chain_of rs) c).0 same) (run-own rs _))
      | inr other ↦
          rw
            (
              chain_rules-skip c (chain_of rs) (own_rules rs)
                  (behind rs (rule_sets_ops u hash chain_name id auto sets ++ k)) other
                  (ports-Into (chain_of rs) rs _ _ rs.ports),
              other,
              apart,
            )
            (run-chain c sets k apart h)
    ])

    or_else_assoc : (x y z : Option Verdict) → or_else x (or_else y z) ≡ or_else (or_else x y) z
    or_else_assoc none y z = refl
    or_else_assoc (some v) y z = refl

    -- The main chain jumps to the chain of each rule set, in order.
    abbrev pub jumps : (Text → Option Verdict) → List FirewallRuleSet → Option Verdict
    jumps call [] = none
    jumps call (rs ∷ sets) = or_else (call (chain_of rs)) (jumps call sets)

    run-main :
        (call : Text → Option Verdict) (sets : List FirewallRuleSet) (k : List Op)
        → run u hash chain_name id call p main (rule_sets_ops u hash chain_name id auto sets ++ k)
          ≡ or_else (jumps call sets) (run u hash chain_name id call p main k)
    unfolding run_chain chain_rules eval after
    run-main call [] k = rw sets-nil refl
    run-main call (rs ∷ sets) k =
        let apart = chain-main u hash chain_name id rs.name in
        rw
          (
            sets-cons,
            chain_rules-skip main (chain_of rs) (own_rules rs)
                (behind rs (rule_sets_ops u hash chain_name id auto sets ++ k)) apart
                (ports-Into (chain_of rs) rs _ _ rs.ports),
            apart,
            text_eq_refl main,
          )
          (ap (or_else (call (chain_of rs))) (run-main call sets k)
            ∙ or_else_assoc (call (chain_of rs)) (jumps call sets)
                (run u hash chain_name id call p main k))

    -- What a packet gets under the default policy; `RETURN` leaves it to the rules behind the jump.
    abbrev pub final : Verdict → Option Verdict
    final return_ = none
    final v = some v

    -- The verdict on a packet: that of the first rule set in order that decides, or the default policy's.
    abbrev pub container_verdict : List FirewallRuleSet → Text → Option Verdict
    container_verdict sets policy =
        or_else (jumps (chain_verdict auto sets p) sets)
          (final (default_verdict u hash chain_name policy))

    forward-skip :
        (c : Text) (ips : List Ip) (k : List Op)
        → text_eq (codes "forward") c ≡ false
        → chain_rules c (forward_rules u hash chain_name id ips ++ k) ≡ chain_rules c k
    unfolding chain_rules forward_rules
    forward-skip c [] k apart = refl
    forward-skip c (ip ∷ ips) k apart = rw apart (forward-skip c ips k apart)

    -- The chain of every rule set decides as the first rule set with that chain.
    jumps-chain :
        (call : Text → Option Verdict) (all sets : List FirewallRuleSet)
        → ((rs : FirewallRuleSet) → call (chain_of rs) ≡ chain_verdict auto all p (chain_of rs))
        → jumps call sets ≡ jumps (chain_verdict auto all p) sets
    jumps-chain call all [] h = refl
    jumps-chain call all (rs ∷ sets) h = rw h (ap (or_else _) (jumps-chain call all sets h))

    abbrev last : Text → Op
    last policy = add_rule main (counter ∷ verdict (default_verdict u hash chain_name policy) ∷ [])

    -- The rules for the container's addresses go into no chain but `forward`.
    chain-ops :
        (ips : List Ip) (sets : List FirewallRuleSet) (policy c : Text)
        → text_eq (codes "forward") c ≡ false
        → chain_rules c (container_ops u hash chain_name id ips sets policy auto)
          ≡ chain_rules c (rule_sets_ops u hash chain_name id auto sets ++ last policy ∷ [])
    unfolding chain_rules container_ops
    chain-ops ips sets policy c apart = forward-skip c ips _ apart

    run-last :
        (call : Text → Option Verdict) (policy : Text)
        → run u hash chain_name id call p main (last policy ∷ [])
          ≡ final (default_verdict u hash chain_name policy)
    unfolding default_verdict after run_chain chain_rules
    run-last call policy =
        run-rule u hash chain_name id call p main _
          (some (default_verdict u hash chain_name policy)) [] refl
        ∙ if_ind Plain (text_eq (map u.to_upper policy) (codes "ACCEPT")) (λ _. refl)
            (λ _.
              if_ind Plain (text_eq (map u.to_upper policy) (codes "RETURN")) (λ _. refl)
                (λ _. refl))
      where
        Plain : Verdict → Type 0
        Plain v = after call (some v) none ≡ final v

    last-skip : (policy c : Text) → text_eq main c ≡ false → chain_rules c (last policy ∷ []) ≡ []
    unfolding chain_rules
    last-skip policy c apart = rw apart refl

    -- With a chain name below 30 bytes and any rule sets, the chains queued for a container give a
    -- packet the verdict of the description: the rule sets are asked in order, each by the first
    -- rule set that has its chain, and the default policy answers last; a rule set drops the sources
    -- of its block list, grants its allow list within its limit, drops other sources if it has an
    -- allow list, and leaves other ports and protocols alone.
    pub nftables_lem :
        (ips : List Ip) (sets : List FirewallRuleSet) (policy : Text)
        → length chain_name < 30
        → verdict_in p (container_ops u hash chain_name id ips sets policy auto) main
          ≡ container_verdict sets policy
    unfolding verdict_in
    nftables_lem ips sets policy short =
        rw (chain-ops ips sets policy main (forward-main u hash chain_name id short)) (
          run-main call sets (last policy ∷ [])
          ∙ ap₂ or_else (jumps-chain call sets sets called) (run-last call policy))
      where
        call : Text → Option Verdict
        call c =
            run_chain (λ _. none) p
              (chain_rules c (container_ops u hash chain_name id ips sets policy auto))

        called :
            (rs : FirewallRuleSet) → call (chain_of rs) ≡ chain_verdict auto sets p (chain_of rs)
        called rs =
            rw
              (chain-ops ips sets policy (chain_of rs) (forward-chain u hash chain_name id rs.name))
              (run-chain (chain_of rs) sets (last policy ∷ [])
                (main-chain u hash chain_name id rs.name)
                (last-skip policy (chain_of rs) (main-chain u hash chain_name id rs.name)))
