-- ===== src/Rules/Nftables.antt =====
-- backend/internal/rules/nftables.go: the chains and rules of one container. Byte strings in
-- registers are the numbers that they spell; names are lists of bytes. What is queued on the connection
-- is a list of operations, in order; its errors are left out.
pub mod Semantics
pub mod Fragments
pub mod Verdicts
pub mod Apart
pub mod Chains
pub mod Sharing
use firefik.Prelude.{
  ℕ, ◌+◌, ◌*◌, ◌-◌, ◌%◌, ◌^◌, Bool, true, false, Option, none, some, List, [], ◌∷◌, ◌++◌, map, Text,
  codes, text_eq, ltb, length, take, if◌then◌else◌,
}
use firefik.Strings.{utf8}
use firefik.Docker.RuleSet.{Ip, ip4, ip6, IpNet, net4, net6, RateLimitConfig, FirewallRuleSet}
use firefik.Policy.Unicode.{Unicode}

-- `expr.VerdictKind`, with the chain that a jump names.
pub data Verdict : Type 0 where
  accept : Verdict
  drop : Verdict
  return_ : Verdict
  jump : Text → Verdict

-- The expressions of the rules, on register 1. The mask of `bitwise` is the prefix of `len` bytes, and
-- `dynset` is the update of a set with a limit.
pub data NftExpr : Type 0 where
  meta_nfproto : NftExpr
  meta_l4proto : NftExpr
  payload_network : ℕ → ℕ → NftExpr
  payload_transport : ℕ → ℕ → NftExpr
  bitwise : ℕ → ℕ → NftExpr
  cmp_eq : ℕ → NftExpr
  dynset : Text → ℕ → ℕ → NftExpr
  nflog : Text → NftExpr
  counter : NftExpr
  verdict : Verdict → NftExpr

-- What is queued: a rule carries the name of its chain.
pub data Op : Type 0 where
  add_chain : Text → Op
  add_set : Text → Op
  add_rule : Text → List NftExpr → Op

abbrev pub nfproto_ipv4 : ℕ
nfproto_ipv4 = 2

abbrev pub nfproto_ipv6 : ℕ
nfproto_ipv6 = 10

abbrev pub ipproto_tcp : ℕ
ipproto_tcp = 6

abbrev pub ipproto_udp : ℕ
ipproto_udp = 17

abbrev pub container_id_short_len : ℕ
container_id_short_len = 12

abbrev pub log_prefix_max_len : ℕ
log_prefix_max_len = 63

-- `IP.Mask`, for addresses of `len` bytes.
abbrev pub mask_to : ℕ → ℕ → ℕ → ℕ
mask_to len prefix a = a - a % 2 ^ (8 * len - prefix)

unfoldable pub dst_ip_match : Ip → List NftExpr
dst_ip_match (ip4 a) = meta_nfproto ∷ cmp_eq nfproto_ipv4 ∷ payload_network 16 4 ∷ cmp_eq a ∷ []
dst_ip_match (ip6 a) = meta_nfproto ∷ cmp_eq nfproto_ipv6 ∷ payload_network 24 16 ∷ cmp_eq a ∷ []

unfoldable pub src_net_match : IpNet → List NftExpr
src_net_match (net4 a prefix) =
    meta_nfproto
    ∷ cmp_eq nfproto_ipv4
    ∷ payload_network 12 4
    ∷ bitwise 4 prefix
    ∷ cmp_eq (mask_to 4 prefix a)
    ∷ []
src_net_match (net6 a prefix) =
    meta_nfproto
    ∷ cmp_eq nfproto_ipv6
    ∷ payload_network 8 16
    ∷ bitwise 16 prefix
    ∷ cmp_eq (mask_to 16 prefix a)
    ∷ []

-- The data of the expression of `nflogExpr`: at most 63 bytes of the prefix.
unfoldable pub nflog_prefix : Text → Text → Text
unfolding utf8
nflog_prefix [] action_type = take log_prefix_max_len (utf8 (codes "FIREFIK " ++ action_type))
nflog_prefix (c ∷ cs) action_type = take log_prefix_max_len (utf8 (c ∷ cs))

abbrev pub short_id : Text → Text
short_id id = take container_id_short_len id

unfoldable pub family_name : IpNet → Text
family_name (net4 _ _) = codes "v4"
family_name (net6 _ _) = codes "v6"

abbrev pub src_payload : IpNet → NftExpr
src_payload (net4 _ _) = payload_network 12 4
src_payload (net6 _ _) = payload_network 8 16

-- The expression that a rule set with logging adds.
unfoldable pub log_expr : FirewallRuleSet → Text → List NftExpr
unfolding nflog_prefix
log_expr rs action_type = if rs.log then nflog (nflog_prefix rs.log_prefix action_type) ∷ [] else []

-- The rules of each network, in order.
abbrev pub each : (IpNet → List Op) → List IpNet → List Op
each f [] = []
each f (n ∷ ns) = f n ++ each f ns

abbrev pub proto_or_tcp : Text → Text
proto_or_tcp [] = codes "tcp"
proto_or_tcp (c ∷ cs) = c ∷ cs

module _ (u : Unicode) where
  unfoldable pub proto_num : Text → ℕ
  proto_num proto =
      if text_eq (map u.to_lower proto) (codes "udp") then ipproto_udp else ipproto_tcp

  unfoldable pub proto_port : Text → ℕ → List NftExpr
  unfolding proto_num
  proto_port proto port =
      meta_l4proto ∷ cmp_eq (proto_num proto) ∷ payload_transport 2 2 ∷ cmp_eq port ∷ []

-- `hash` is `fmt.Sprintf("%x", …)` of the FNV-1a hash, and `chain_name` the backend's, in lower case.
module _ (u : Unicode) (hash : Text → Text) (chain_name : Text) where
  unfoldable pub container_chain : Text → Text
  container_chain id = take 30 (chain_name ++ (codes "-" ++ short_id id))

  unfoldable pub rule_set_chain : Text → Text → Text
  rule_set_chain id name =
      let prefix = chain_name ++ (codes "-" ++ (short_id id ++ codes "-")) in
      let full = prefix ++ name in
      let suffix = hash name in
      if ltb 30 (length full)
      then prefix ++ (take (30 - length prefix - length suffix - 1) name ++ (codes "-" ++ suffix))
      else full

  unfoldable pub limit_set : Text → Text → Text → Text
  limit_set id name family =
      let base = codes "rl-" ++ (short_id id ++ (codes "-" ++ (name ++ (codes "-" ++ family)))) in
      if ltb 30 (length base)
      then codes "rl-" ++ (short_id id ++ (codes "-" ++ (hash name ++ (codes "-" ++ family))))
      else base

  -- `addPerSourceLimitRules`: a rule that accepts within the limit, and one that drops the rest.
  unfoldable pub limit_rules :
      Text → Text → FirewallRuleSet → RateLimitConfig → Text → ℕ → IpNet → List Op
  unfolding src_net_match proto_port limit_set log_expr family_name
  limit_rules chain id rs limit proto port al =
      let set = limit_set id rs.name (family_name al) in
      add_set set
      ∷ add_rule chain (
          src_net_match al
          ++ (proto_port u proto port
              ++ src_payload al
                ∷ dynset set limit.rate limit.burst
                ∷ counter
                ∷ verdict accept
                ∷ []))
      ∷ add_rule chain (
          src_net_match al
          ++ (proto_port u proto port
              ++ (log_expr rs (codes "DROP") ++ counter ∷ verdict drop ∷ [])))
      ∷ []

  -- The rules of one network of the block list and of the allow list.
  unfoldable pub block_rule : Text → FirewallRuleSet → Text → ℕ → IpNet → List Op
  unfolding src_net_match proto_port log_expr
  block_rule chain rs proto port bl =
      add_rule chain (
        src_net_match bl
        ++ (proto_port u proto port ++ (log_expr rs (codes "DROP") ++ counter ∷ verdict drop ∷ [])))
      ∷ []

  unfoldable pub allow_rule_with :
      Option RateLimitConfig → Text → Text → FirewallRuleSet → Text → ℕ → IpNet → List Op
  unfolding src_net_match proto_port log_expr limit_rules
  allow_rule_with (some limit) chain id rs proto port al =
      limit_rules chain id rs limit proto port al
  allow_rule_with none chain id rs proto port al =
      add_rule chain (
        src_net_match al
        ++ (proto_port u proto port
            ++ (log_expr rs (codes "ACCEPT") ++ counter ∷ verdict accept ∷ [])))
      ∷ []

  unfoldable pub allow_rule : Text → Text → FirewallRuleSet → Text → ℕ → IpNet → List Op
  unfolding allow_rule_with
  allow_rule chain id rs proto port al = allow_rule_with rs.rate_limit chain id rs proto port al

  -- What ends a port's rules when there is an allow list.
  unfoldable pub closing_rule : Text → FirewallRuleSet → Text → ℕ → List IpNet → List Op
  unfolding proto_port log_expr
  closing_rule chain rs proto port [] = []
  closing_rule chain rs proto port (_ ∷ _) =
      add_rule chain
        (proto_port u proto port ++ (log_expr rs (codes "DROP") ++ counter ∷ verdict drop ∷ []))
      ∷ []

  unfoldable pub port_rules : Text → Text → FirewallRuleSet → List IpNet → Text → ℕ → List Op
  unfolding block_rule allow_rule closing_rule
  port_rules chain id rs allowlist proto port =
      each (block_rule chain rs proto port) rs.blocklist
      ++ (each (allow_rule chain id rs proto port) allowlist
          ++ closing_rule chain rs proto port allowlist)

  unfoldable pub ports_rules : Text → Text → FirewallRuleSet → List IpNet → Text → List ℕ → List Op
  unfolding port_rules
  ports_rules chain id rs allowlist proto [] = []
  ports_rules chain id rs allowlist proto (port ∷ ports) =
      port_rules chain id rs allowlist proto port ++ ports_rules chain id rs allowlist proto ports

  -- One round of the loop over the rule sets.
  unfoldable pub rule_set_ops : Text → List IpNet → FirewallRuleSet → List Op
  unfolding rule_set_chain ports_rules container_chain
  rule_set_ops id auto rs =
      let chain = rule_set_chain id rs.name in
      add_chain chain
      ∷ (ports_rules chain id rs (rs.allowlist ++ auto) (proto_or_tcp rs.protocol) rs.ports
          ++ add_rule chain (verdict return_ ∷ [])
            ∷ add_rule (container_chain id) (verdict (jump chain) ∷ [])
            ∷ [])

  unfoldable pub rule_sets_ops : Text → List IpNet → List FirewallRuleSet → List Op
  unfolding rule_set_ops
  rule_sets_ops id auto [] = []
  rule_sets_ops id auto (rs ∷ sets) = rule_set_ops id auto rs ++ rule_sets_ops id auto sets

  unfoldable pub default_verdict : Text → Verdict
  default_verdict policy =
      let p = map u.to_upper policy in
      if text_eq p (codes "ACCEPT")
      then accept
      else if text_eq p (codes "RETURN")
      then return_
      else drop

  unfoldable pub forward_rules : Text → List Ip → List Op
  unfolding container_chain dst_ip_match
  forward_rules id [] = []
  forward_rules id (ip ∷ ips) =
      add_rule (codes "forward") (dst_ip_match ip ++ verdict (jump (container_chain id)) ∷ [])
      ∷ forward_rules id ips

  -- What `ApplyContainerRules` queues after the removal of the container's old chains.
  unfoldable pub container_ops : Text → List Ip → List FirewallRuleSet → Text → List IpNet → List Op
  unfolding rule_sets_ops default_verdict forward_rules container_chain
  container_ops id ips sets policy auto =
      add_chain (container_chain id)
      ∷ (forward_rules id ips
          ++ (rule_sets_ops id auto sets
              ++ add_rule (container_chain id) (counter ∷ verdict (default_verdict policy) ∷ [])
                ∷ []))
