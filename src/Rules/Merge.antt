-- ===== src/Rules/Merge.antt =====
-- How a container's configuration grows before it is applied: the rules file (`MergeFileRules` of
-- backend/internal/rules/engine.go, `ParseFileAllowlist` of backend/internal/config/rules.go), and the
-- templates and policies that its labels name (backend/internal/rules/templates.go, and
-- `ResolveTemplateNames` of backend/internal/config/templates.go).
pub mod Names
pub mod Files
use firefik.Prelude.{
  ℕ, ◌+◌, ◌*◌, ◌-◌, ◌^◌, Bool, true, false, not, ◌&&◌, ◌||◌, Option, none, some, List, [], ◌∷◌,
  ◌++◌, Text, codes, text_eq, contains, Outcome, ok, err, out_of_fuel, ltb, ◌==◌, lookup,
  if◌then◌else◌,
}
use firefik.Docker.RuleSet.{
  Ip, ip4, ip6, IpNet, NetParser, RateLimitConfig, FirewallRuleSet, empty_rule_set, ContainerConfig,
}
use firefik.Policy.Ast.{Policy}
use firefik.Policy.Error.{Error}
use firefik.Policy.Unicode.{Unicode, is_space, ascii_digit}
use firefik.Policy.Compile.{compile, Compiled, has_slash}
use firefik.Strings.{has_rune, is_empty, split, trim_space}

-- The loop of both functions that read a list of names: `seen` is their set.
unfoldable pub names_loop : List Text → List Text → List Text
unfolding trim_space
names_loop seen [] = []
names_loop seen (p ∷ ps) =
    let name = trim_space p in
    let skipped = names_loop seen ps in
    let kept = names_loop (name ∷ seen) ps in
    if is_empty name then skipped else if contains seen name then skipped else name ∷ kept

unfoldable pub split_comma_policy : Text → List Text
unfolding split names_loop
split_comma_policy s = names_loop [] (split b',' s)

unfoldable pub resolve_template_names : Text → List Text
unfolding split names_loop
resolve_template_names s = if is_empty s then [] else names_loop [] (split b',' s)

pub record FileRuleSet : Type 0 where
  pub container : Text
  pub name : Text
  pub ports : List ℕ
  pub allowlist : List Text
  pub blocklist : List Text
  pub default_policy : Text
  pub protocol : Text
  pub profile : Text

module _ (net : NetParser) where
  -- The suffix of an entry without a slash is chosen by a colon.
  abbrev file_entry : Text → Text
  file_entry e =
      if has_slash e then e else if has_rune b':' e then e ++ codes "/128" else e ++ codes "/32"

  -- The networks, and the entries that do not parse.
  unfoldable pub parse_file_allowlist : List Text → List IpNet × List Text
  unfolding trim_space has_rune has_slash
  parse_file_allowlist [] = ([], [])
  parse_file_allowlist (e ∷ es) =
      let (nets, errs) = parse_file_allowlist es in
      let trimmed = trim_space e in
      if is_empty trimmed then (nets, errs) else elim (net.parse_cidr (file_entry trimmed)) [
        | none ↦ (nets, file_entry trimmed ∷ errs)
        | some n ↦ (n ∷ nets, errs)
      ]

  unfoldable pub file_rule_set : FileRuleSet → FirewallRuleSet
  unfolding parse_file_allowlist
  file_rule_set fr = record empty_rule_set {
    name = fr.name;
    ports = fr.ports;
    allowlist = (parse_file_allowlist fr.allowlist).0;
    blocklist = (parse_file_allowlist fr.blocklist).0;
    protocol = fr.protocol;
    profile = fr.profile;
  }

  -- One round of the loop for a rule of the container; `existing` holds the names that the labels gave.
  unfoldable pub merge_rule : List Text → FileRuleSet → ContainerConfig → ContainerConfig
  unfolding file_rule_set
  merge_rule existing fr cfg = record cfg {
    enable = true;
    default_policy =
        if not (is_empty fr.default_policy) && is_empty cfg.default_policy
        then fr.default_policy
        else cfg.default_policy;
    rule_sets =
        if contains existing fr.name then cfg.rule_sets else cfg.rule_sets ++ file_rule_set fr ∷ [];
  }

  unfoldable pub merge_rules :
      List Text → Text → List FileRuleSet → ContainerConfig → ContainerConfig
  unfolding merge_rule
  merge_rules existing name [] cfg = cfg
  merge_rules existing name (fr ∷ frs) cfg =
      merge_rules existing name frs
        (if not (text_eq fr.container name) then cfg else merge_rule existing fr cfg)

  abbrev pub set_names : List FirewallRuleSet → List Text
  set_names [] = []
  set_names (rs ∷ sets) = rs.name ∷ set_names sets

  unfoldable pub merge_file_rules : ContainerConfig → Text → List FileRuleSet → ContainerConfig
  unfolding merge_rules
  merge_file_rules cfg name frs = merge_rules (set_names cfg.rule_sets) name frs cfg
