-- ===== src/Rules/Iptables.antt =====
-- backend/internal/rules/iptables.go: the rules of one container as arguments of the command. `net_text` and
-- `ip_text` are the `String` methods of Go's package `net`, `hash` is `fmt.Sprintf("%x", …)` of the FNV-1a
-- hash, and `chain_name` the backend's. Errors of the command are left out.
pub mod Semantics
pub mod Repeats
pub mod Fragments
pub mod Merge
pub mod Verdicts
pub mod Chain
use firefik.Prelude.{
  ℕ, ◌+◌, ◌-◌, Bool, true, false, ◌&&◌, ◌||◌, Option, none, some, List, [], ◌∷◌, ◌++◌, map, Text,
  codes, text_eq, contains, decimal, length, take, ltb, ◌==◌, if◌then◌else◌, lookup, insert, delete,
}
use firefik.Policy.Unicode.{within}
use firefik.Docker.RuleSet.{Ip, IpNet, RateLimitConfig, FirewallRuleSet}
use firefik.Rules.Nftables.{proto_or_tcp, short_id, log_prefix_max_len}

-- The arguments of a rule.
abbrev pub IptRule : Type 0
IptRule = List Text

-- The runes that `safePrefixRe` leaves.
abbrev pub is_safe : ℕ → Bool
is_safe c =
    within b'A' b'Z' c
    || (within b'a' b'z' c || (within b'0' b'9' c || (c == b' ' || (c == b'_' || c == b'-'))))

unfoldable pub keep_safe : Text → Text
keep_safe [] = []
keep_safe (c ∷ cs) = let rest = keep_safe cs in if is_safe c then c ∷ rest else rest

abbrev pub or_default_prefix : Text → Text → Text
or_default_prefix [] action_type = codes "FIREFIK " ++ action_type
or_default_prefix (c ∷ cs) action_type = c ∷ cs

-- The source goes in only when it is not all addresses of a family.
unfoldable pub is_wide : Text → Bool
unfolding text_eq
is_wide src = text_eq src [] || (text_eq src (codes "0.0.0.0/0") || text_eq src (codes "::/0"))

unfoldable pub src_args : Text → List Text
unfolding is_wide
src_args src = if is_wide src then [] else codes "-s" ∷ src ∷ []

unfoldable pub match_args : Text → Text → Text → List Text → IptRule
unfolding src_args
match_args proto port src rest =
    codes "-p" ∷ proto ∷ codes "--dport" ∷ port ∷ (src_args src ++ rest)

unfoldable pub build_rule : Text → Text → Text → Text → IptRule
unfolding match_args
build_rule proto port src action = match_args proto port src (codes "-j" ∷ action ∷ [])

unfoldable pub build_nflog_rule : Text → Text → Text → Text → Text → IptRule
unfolding match_args keep_safe
build_nflog_rule proto port src log_prefix action_type =
    let prefix = take log_prefix_max_len (keep_safe (or_default_prefix log_prefix action_type)) in
    match_args proto port src (
      codes "-j"
      ∷ codes "NFLOG"
      ∷ codes "--nflog-group"
      ∷ codes "100"
      ∷ codes "--nflog-prefix"
      ∷ prefix
      ∷ [])

-- The rule that a rule set with logging puts in front.
unfoldable pub log_rules : FirewallRuleSet → Text → Text → Text → Text → List IptRule
unfolding build_nflog_rule
log_rules rs proto port src action_type =
    if rs.log then build_nflog_rule proto port src rs.log_prefix action_type ∷ [] else []

module _ (hash : Text → Text) where
  unfoldable pub limit_name : Text → Text → Text
  limit_name name port =
      let full = codes "FF-" ++ (name ++ (codes "-" ++ port)) in
      if ltb 15 (length full) then codes "FF-" ++ hash (name ++ (codes "-" ++ port)) else full

  unfoldable pub build_rate_limit_rule : Text → Text → Text → Text → RateLimitConfig → IptRule
  unfolding match_args limit_name decimal
  build_rate_limit_rule proto port src name limit = match_args proto port src (
      codes "-m"
      ∷ codes "hashlimit"
      ∷ codes "--hashlimit-name"
      ∷ limit_name name port
      ∷ codes "--hashlimit-mode"
      ∷ codes "srcip"
      ∷ codes "--hashlimit-upto"
      ∷ (decimal limit.rate ++ codes "/sec")
      ∷ codes "--hashlimit-burst"
      ∷ decimal limit.burst
      ∷ codes "-j"
      ∷ codes "ACCEPT"
      ∷ [])

  module _ (net_text : IpNet → Text) where
    unfoldable pub block_rules : FirewallRuleSet → Text → Text → IpNet → List IptRule
    unfolding log_rules build_rule
    block_rules rs proto port bl =
        log_rules rs proto port (net_text bl) (codes "DROP")
        ++ build_rule proto port (net_text bl) (codes "DROP") ∷ []

    unfoldable pub allow_rules_with :
        Option RateLimitConfig → FirewallRuleSet → Text → Text → IpNet → List IptRule
    unfolding log_rules build_rule build_rate_limit_rule
    allow_rules_with (some limit) rs proto port al =
        build_rate_limit_rule proto port (net_text al) rs.name limit
        ∷ build_rule proto port (net_text al) (codes "DROP")
        ∷ []
    allow_rules_with none rs proto port al =
        log_rules rs proto port (net_text al) (codes "ACCEPT")
        ++ build_rule proto port (net_text al) (codes "ACCEPT") ∷ []

    unfoldable pub each_net : (IpNet → List IptRule) → List IpNet → List IptRule
    each_net f [] = []
    each_net f (n ∷ ns) = f n ++ each_net f ns

    unfoldable pub closing_rules : FirewallRuleSet → Text → Text → List IpNet → List IptRule
    unfolding log_rules
    closing_rules rs proto port [] = []
    closing_rules rs proto port (_ ∷ _) =
        log_rules rs proto port [] (codes "DROP")
        ++ (codes "-p" ∷ proto ∷ codes "--dport" ∷ port ∷ codes "-j" ∷ codes "DROP" ∷ []) ∷ []

    unfoldable pub port_commands : FirewallRuleSet → List IpNet → Text → ℕ → List IptRule
    unfolding block_rules allow_rules_with closing_rules each_net decimal
    port_commands rs allowlist proto port =
        each_net (block_rules rs proto (decimal port)) rs.blocklist
        ++ (each_net (allow_rules_with rs.rate_limit rs proto (decimal port)) allowlist
            ++ closing_rules rs proto (decimal port) allowlist)

    unfoldable pub ports_commands : FirewallRuleSet → List IpNet → Text → List ℕ → List IptRule
    unfolding port_commands
    ports_commands rs allowlist proto [] = []
    ports_commands rs allowlist proto (port ∷ ports) =
        port_commands rs allowlist proto port ++ ports_commands rs allowlist proto ports

    -- What `fillRuleSetChain` appends to the chain of a rule set, and the chain that this gives.
    unfoldable pub rule_set_rules : List IpNet → FirewallRuleSet → List IptRule
    unfolding ports_commands
    rule_set_rules auto rs =
        ports_commands rs (rs.allowlist ++ auto) (proto_or_tcp rs.protocol) rs.ports
        ++ (codes "-j" ∷ codes "RETURN" ∷ []) ∷ []

    -- `append` is `AppendUnique` on the rules of a chain.
    module _ (append : List IptRule → IptRule → List IptRule) where
      unfoldable pub append_all : List IptRule → List IptRule → List IptRule
      append_all rules [] = rules
      append_all rules (r ∷ rs) = append_all (append rules r) rs

      unfoldable pub fill_rule_set_chain : List IpNet → FirewallRuleSet → List IptRule
      unfolding rule_set_rules append_all
      fill_rule_set_chain auto rs = append_all [] (rule_set_rules auto rs)
