-- ===== src/Rules/Templates.antt =====
-- backend/internal/rules/templates.go: the templates and the policies that a container's labels name.
pub mod Limits
use firefik.Prelude.{
  ℕ, zero, suc, ◌+◌, ◌*◌, ◌-◌, ◌^◌, Bool, true, false, ◌&&◌, Option, none, some, List, [], ◌∷◌,
  ◌++◌, Text, codes, text_eq, Outcome, ok, err, out_of_fuel, length, ltb, ◌==◌, lookup,
  if◌then◌else◌,
}
use firefik.Docker.RuleSet.{
  Ip, ip4, ip6, IpNet, NetParser, RateLimitConfig, FirewallRuleSet, empty_rule_set, ContainerConfig,
}
use firefik.Policy.Ast.{Policy}
use firefik.Policy.Error.{Error}
use firefik.Policy.Unicode.{Unicode, ascii_digit}
use firefik.Policy.Compile.{compile, Compiled, has_slash}
use firefik.Rules.Merge.{split_comma_policy, resolve_template_names, FileRuleSet, merge_file_rules}
use firefik.Strings.{is_empty, trim_space}

-- `RuleTemplate` of backend/internal/config/templates.go.
pub record RuleTemplate : Type 0 where
  pub name : Text
  pub description : Text
  pub ports : List ℕ
  pub protocol : Text
  pub allowlist : List Text
  pub blocklist : List Text
  pub allowlist_networks : List Text
  pub blocklist_networks : List Text
  pub geo_block : List Text
  pub geo_allow : List Text
  pub ratelimit : Text
  pub profile : Text
  pub log : Bool
  pub log_prefix : Text
  pub version : Text

-- `strconv.ParseUint` in base 10, for 32 bits.
unfoldable pub digits_onto : ℕ → Text → Option ℕ
digits_onto acc [] = some acc
digits_onto acc (c ∷ cs) =
    let rest = digits_onto (acc * 10 + (c - b'0')) cs in if ascii_digit c then rest else none

abbrev below_32 : Option ℕ → Option ℕ
below_32 none = none
below_32 (some n) = if ltb n (2 ^ 32) then some n else none

unfoldable pub parse_uint32 : Text → Option ℕ
unfolding digits_onto
parse_uint32 [] = none
parse_uint32 (c ∷ cs) = below_32 (digits_onto 0 (c ∷ cs))

abbrev in_front : ℕ → Option (Text × Text) → Option (Text × Text)
in_front c none = none
in_front c (some (a, b)) = some (c ∷ a, b)

-- What stands around the first comma, if there is one.
unfoldable pub cut_comma : Text → Option (Text × Text)
cut_comma [] = none
cut_comma (c ∷ cs) =
    let rest = in_front c (cut_comma cs) in if c == b',' then some ([], cs) else rest

-- What follows the prefix, if the text has it.
unfoldable pub cut_prefix : Text → Text → Option Text
cut_prefix [] s = some s
cut_prefix (p ∷ ps) [] = none
cut_prefix (p ∷ ps) (c ∷ cs) = let rest = cut_prefix ps cs in if p == c then rest else none

-- `strings.TrimSuffix` for `/s`.
unfoldable pub trim_per_second : Text → Text
trim_per_second [] = []
trim_per_second (c ∷ cs) =
    let rest = trim_per_second cs in if text_eq (c ∷ cs) (codes "/s") then [] else c ∷ rest

abbrev or_zero : Option ℕ → ℕ
or_zero none = 0
or_zero (some n) = n

abbrev burst_of : Option Text → ℕ
burst_of none = 0
burst_of (some digits) = or_zero (parse_uint32 digits)

-- The rate's text and the burst.
abbrev limit_parts : Text → Option (Text × Text) → Text × ℕ
limit_parts s none = (s, 0)
limit_parts s (some (a, b)) = (trim_space a, burst_of (cut_prefix (codes "burst=") (trim_space b)))

abbrev limit_of : ℕ → Option ℕ → Option RateLimitConfig
limit_of burst none = none
limit_of burst (some n) = some (record { rate = n; burst = if burst == 0 then n * 2 else burst })

unfoldable pub parse_ratelimit_lenient : Text → Option RateLimitConfig
unfolding parse_uint32 cut_comma cut_prefix trim_per_second trim_space
parse_ratelimit_lenient s0 =
    let s = trim_space s0 in
    let (main, burst) = limit_parts s (cut_comma s) in
    if is_empty s then none else limit_of burst (parse_uint32 (trim_per_second main))

module _ (net : NetParser) where
  abbrev with_full_prefix : Text → Option Ip → Text
  with_full_prefix s none = s
  with_full_prefix s (some (ip4 a)) = s ++ codes "/32"
  with_full_prefix s (some (ip6 a)) = s ++ codes "/128"

  unfoldable pub parse_cidr_lenient : Text → Option IpNet
  unfolding trim_space has_slash
  parse_cidr_lenient s0 =
      let s = trim_space s0 in
      if is_empty s
      then none
      else net.parse_cidr (if has_slash s then s else with_full_prefix s (net.parse_ip s))

  unfoldable pub lenient_nets : List Text → List IpNet
  unfolding parse_cidr_lenient
  lenient_nets [] = []
  lenient_nets (s ∷ ss) =
      let rest = lenient_nets ss in elim (parse_cidr_lenient s) [ none ↦ rest | some n ↦ n ∷ rest ]

  unfoldable pub template_to_rule_set : RuleTemplate → FirewallRuleSet
  unfolding lenient_nets parse_ratelimit_lenient
  template_to_rule_set t = record empty_rule_set {
    name = codes "tpl:" ++ (t.name ++ (codes "@" ++ t.version));
    ports = t.ports;
    allowlist = lenient_nets t.allowlist;
    blocklist = lenient_nets t.blocklist;
    allowlist_networks = t.allowlist_networks;
    blocklist_networks = t.blocklist_networks;
    rate_limit = if is_empty t.ratelimit then none else parse_ratelimit_lenient t.ratelimit;
    profile = t.profile;
    log = t.log;
    log_prefix = t.log_prefix;
    protocol = t.protocol;
    geo_block = t.geo_block;
    geo_allow = t.geo_allow;
  }

  -- The rule sets of the names that are known.
  unfoldable pub template_sets : List (Text × RuleTemplate) → List Text → List FirewallRuleSet
  unfolding template_to_rule_set
  template_sets templates [] = []
  template_sets templates (name ∷ names) =
      let rest = template_sets templates names in
      elim (lookup name templates) [ none ↦ rest | some t ↦ template_to_rule_set t ∷ rest ]

  -- `label` is the value of `firefik.template`, empty if there is none.
  unfoldable pub apply_templates :
      ContainerConfig → Text → List (Text × RuleTemplate) → ContainerConfig
  unfolding template_sets
  apply_templates cfg label templates = record cfg {
    rule_sets = cfg.rule_sets ++ template_sets templates (resolve_template_names label);
  }

  module _ (u : Unicode) where
    -- A policy that does not compile is left out.
    abbrev compiled_sets : Outcome Error Compiled → List FirewallRuleSet
    compiled_sets (ok c) = c.rule_sets
    compiled_sets _ = []

    unfoldable pub policy_sets : List (Text × Policy) → List Text → List FirewallRuleSet
    policy_sets policies [] = []
    policy_sets policies (name ∷ names) =
        let rest = policy_sets policies names in
        elim (lookup name policies) [
          | none ↦ rest
          | some p ↦ compiled_sets (compile u net p) ++ rest
        ]

    unfoldable pub apply_policies : ContainerConfig → Text → List (Text × Policy) → ContainerConfig
    unfolding policy_sets
    apply_policies cfg label policies = record cfg {
      rule_sets = cfg.rule_sets ++ policy_sets policies (split_comma_policy label);
    }
