-- ===== src/Policy/Compile.antt =====
-- backend/internal/policy/compile.go: a policy becomes rule sets, one for each term of the `or`s of a
-- rule. The parsing of addresses and networks is Go's. An error is the one that `Compile` wraps, without
-- the policy's name.
pub mod Flatten
pub mod Names
pub mod Sets
pub mod Clashes
use firefik.Prelude.{
  ℕ, zero, suc, ◌+◌, ◌%◌, ◌^◌, Bool, true, false, not, ◌&&◌, ◌||◌, Option, none, some, List, [],
  ◌∷◌, ◌++◌, map, Text, codes, text_eq, decimal, Outcome, ok, err, ◌>>=◌, ◌==◌, if◌then◌else◌,
}
use firefik.Docker.RuleSet.{
  Ip, ip4, ip6, IpNet, net4, net6, NetParser, FirewallRuleSet, empty_rule_set,
}
use firefik.Policy.Ast.{
  Action, allow, block, log, Value, Expr, and_expr, or_expr, not_expr, compare_expr, in_expr, Rule,
  Policy,
}
use firefik.Policy.Error.{
  Error, unsupported_negation, unsupported_predicate, wants_string, wants_integer, only_equality,
  invalid_cidr, unknown_field, in_not_supported,
}
use firefik.Policy.Unicode.{Unicode}

unfoldable pub flatten_or : Expr → List Expr
flatten_or (or_expr l r) = flatten_or l ++ flatten_or r
flatten_or e = e ∷ []

unfoldable pub flatten_and : Expr → List Expr
flatten_and (and_expr l r) = flatten_and l ++ flatten_and r
flatten_and e = e ∷ []

unfoldable pub invert_op : Text → Text
invert_op op =
    if text_eq op (codes "==")
    then codes "!="
    else if text_eq op (codes "!=")
    then codes "=="
    else if text_eq op (codes "<")
    then codes ">="
    else if text_eq op (codes ">")
    then codes "<="
    else if text_eq op (codes "<=")
    then codes ">"
    else if text_eq op (codes ">=")
    then codes "<"
    else op

abbrev pub uint16 : ℕ → ℕ
uint16 n = n % 2 ^ 16

-- `strings.Contains(s, "/")`
unfoldable pub has_slash : Text → Bool
has_slash [] = false
has_slash (c ∷ cs) = c == b'/' || has_slash cs

-- The networks of all addresses, `0.0.0.0/0` and `::/0`.
abbrev pub cidr_all4 : IpNet
cidr_all4 = net4 0 0

abbrev pub cidr_all6 : IpNet
cidr_all6 = net6 0 0

abbrev pub action_text : Action → Text
action_text allow = codes "allow"
action_text block = codes "block"
action_text log = codes "log"

abbrev pub is_block : Action → Bool
is_block block = true
is_block _ = false

abbrev pub is_log : Action → Bool
is_log log = true
is_log _ = false

pub record Compiled : Type 0 where
  pub policy : Policy
  pub rule_sets : List FirewallRuleSet
  pub warnings : List Text

unfoldable pub set_name : Text → Text → Action → ℕ → Text
set_name name version a i =
    codes "pol:"
    ++ (name
        ++ (codes "@" ++ (version ++ (codes "#" ++ (action_text a ++ (codes "-" ++ decimal i))))))

-- The rule set of one term, before its predicates.
unfoldable pub start_set : Text → Text → Action → ℕ → FirewallRuleSet
unfolding set_name
start_set name version a i = record empty_rule_set {
  name = set_name name version a i;
  protocol = codes "tcp";
  log = is_log a;
  log_prefix = name ++ (codes "@" ++ version);
}

-- What a `block` rule appends.
unfoldable pub close_set : Action → FirewallRuleSet → FirewallRuleSet
close_set a rs =
    if is_block a then record rs { blocklist = rs.blocklist ++ cidr_all4 ∷ cidr_all6 ∷ [] } else rs

module _ (u : Unicode) (net : NetParser) where
  abbrev pub lower : Text → Text
  lower s = map u.to_lower s

  abbrev pub upper : Text → Text
  upper s = map u.to_upper s

  -- The suffix that `parseCIDR` adds to a bare address.
  abbrev with_prefix : Text → Option Ip → Text
  with_prefix s none = s
  with_prefix s (some (ip4 a)) = s ++ codes "/32"
  with_prefix s (some (ip6 a)) = s ++ codes "/128"

  unfoldable pub parse_cidr : Text → Outcome Error IpNet
  parse_cidr s =
      let full = if has_slash s then s else with_prefix s (net.parse_ip s) in
      elim (net.parse_cidr full) [ none ↦ err (invalid_cidr full) | some n ↦ ok n ]

  -- A network goes to the block list under `!=`, and to the allow list under any other operator.
  unfoldable pub add_network : FirewallRuleSet → Text → IpNet → FirewallRuleSet
  add_network rs op n =
      if text_eq op (codes "!=")
      then record rs { blocklist = rs.blocklist ++ n ∷ [] }
      else record rs { allowlist = rs.allowlist ++ n ∷ [] }

  unfoldable pub apply_compare :
      FirewallRuleSet → Text → Text → Value → Outcome Error FirewallRuleSet
  unfolding parse_cidr add_network has_slash
  apply_compare rs field op v =
      let f = lower field in
      if text_eq f (codes "proto") || text_eq f (codes "protocol")
      then if not v.is_str
        then err (wants_string (codes "proto"))
        else if not (text_eq op (codes "=="))
        then err (only_equality (codes "proto"))
        else ok (record rs { protocol = v.str })
      else if text_eq f (codes "port")
      then if not v.is_num
        then err (wants_integer (codes "port"))
        else if not (text_eq op (codes "=="))
        then err (only_equality (codes "port"))
        else ok (record rs { ports = rs.ports ++ uint16 v.num ∷ [] })
      else if text_eq f (codes "src_ip")
      then if not v.is_str
        then err (wants_string (codes "src_ip"))
        else (parse_cidr (v.str ++ codes "/32") >>= λ n. ok (add_network rs op n))
      else if text_eq f (codes "src_net")
      then if not v.is_str
        then err (wants_string (codes "src_net"))
        else (parse_cidr v.str >>= λ n. ok (add_network rs op n))
      else if text_eq f (codes "geo")
      then if not v.is_str
        then err (wants_string (codes "geo"))
        else if text_eq op (codes "!=")
        then ok (record rs { geo_block = rs.geo_block ++ upper v.str ∷ [] })
        else ok (record rs { geo_allow = rs.geo_allow ++ upper v.str ∷ [] })
      else err (unknown_field field)

  -- The loops of `applyIn`.
  unfoldable pub port_list : List Value → Outcome Error (List ℕ)
  port_list [] = ok []
  port_list (v ∷ vs) =
      let rest = port_list vs in
      if not v.is_num
      then err (wants_integer (codes "port list"))
      else rest >>= λ ps. ok (uint16 v.num ∷ ps)

  unfoldable pub code_list : List Value → Outcome Error (List Text)
  code_list [] = ok []
  code_list (v ∷ vs) =
      let rest = code_list vs in
      if not v.is_str
      then err (wants_string (codes "geo list"))
      else rest >>= λ cs. ok (upper v.str ∷ cs)

  unfoldable pub apply_in :
      FirewallRuleSet → Text → Bool → List Value → Outcome Error FirewallRuleSet
  unfolding port_list code_list
  apply_in rs field negate vs =
      let f = lower field in
      if text_eq f (codes "port")
      then (port_list vs >>= λ ps. ok (record rs { ports = rs.ports ++ ps }))
      else if text_eq f (codes "geo")
      then (code_list vs >>= λ cs. ok (
          if negate
          then record rs { geo_allow = rs.geo_allow ++ cs }
          else record rs { geo_block = rs.geo_block ++ cs }))
      else err (in_not_supported field)

  unfoldable pub apply_predicate : FirewallRuleSet → Expr → Outcome Error FirewallRuleSet
  unfolding apply_compare apply_in invert_op
  apply_predicate rs (compare_expr field op v) = apply_compare rs field op v
  apply_predicate rs (in_expr field negate vs) = apply_in rs field negate vs
  apply_predicate rs (not_expr (compare_expr field op v)) = apply_compare rs field (invert_op op) v
  apply_predicate rs (not_expr e) = err unsupported_negation
  apply_predicate rs e = err unsupported_predicate

  unfoldable pub apply_predicates : FirewallRuleSet → List Expr → Outcome Error FirewallRuleSet
  unfolding apply_predicate
  apply_predicates rs [] = ok rs
  apply_predicates rs (e ∷ es) = apply_predicate rs e >>= λ rs'. apply_predicates rs' es

  unfoldable pub compile_term : Text → Text → Action → ℕ → Expr → Outcome Error FirewallRuleSet
  unfolding start_set close_set apply_predicates
  compile_term name version a i term =
      apply_predicates (start_set name version a i) (flatten_and term) >>= λ rs. ok (close_set a rs)

  -- The loop of `compileRule`, at term `i`.
  unfoldable pub compile_terms :
      Text → Text → Action → ℕ → List Expr → Outcome Error (List FirewallRuleSet)
  unfolding compile_term
  compile_terms name version a i [] = ok []
  compile_terms name version a i (t ∷ ts) = compile_term name version a i t >>= λ rs.
      compile_terms name version a (i + 1) ts >>= λ sets. ok (rs ∷ sets)

  unfoldable pub compile_rule : Text → Text → Rule → Outcome Error (List FirewallRuleSet)
  unfolding compile_terms
  compile_rule name version r = compile_terms name version r.action 0 (flatten_or r.expr)

  unfoldable pub compile_rules : Text → Text → List Rule → Outcome Error (List FirewallRuleSet)
  unfolding compile_rule
  compile_rules name version [] = ok []
  compile_rules name version (r ∷ rs) = compile_rule name version r >>= λ sets.
      compile_rules name version rs >>= λ more. ok (sets ++ more)

  unfoldable pub compile : Policy → Outcome Error Compiled
  unfolding compile_rules
  compile p = compile_rules p.name p.version p.rules >>= λ sets.
      ok (record { policy = p; rule_sets = sets; warnings = [] })
