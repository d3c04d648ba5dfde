-- ===== src/Policy/Compile/Sets.antt =====
-- What the predicates of a rule may change in its rule set.
use firefik.Prelude.{
  ℕ, ◌<◌, ◌^◌, ◌≡◌, refl, Bool, List, [], ◌∷◌, ◌++◌, none, Text, All, All-append, ok, out_of_fuel,
  Delivers, delivers, refuses, Delivers-if, Delivers-bind, Delivers-map, Delivers-of, not, true,
  false, ◌≢◌, ◌∙◌, arith, codes, text_eq, if◌then◌else◌,
}
use firefik.Docker.RuleSet.{IpNet, NetParser, FirewallRuleSet}
use firefik.Policy.Ast.{Action, Value, Expr, not_expr, compare_expr, in_expr}
use firefik.Policy.Unicode.{Unicode}
use firefik.Policy.Compile.{
  uint16, apply_compare, apply_in, port_list, code_list, apply_predicate, apply_predicates,
  start_set, compile_term, is_log, is_block, close_set, cidr_all4, cidr_all6, set_name, flatten_and,
  lower,
}

-- Every port is a 16-bit number.
abbrev pub PortsFit : List ℕ → Type 0
PortsFit = All (λ p. p < 2 ^ 16)

-- What no predicate touches, and the range of the ports.
pub record Keeps (before after : FirewallRuleSet) : Type 0 where
  pub name : after.name ≡ before.name
  pub log : after.log ≡ before.log
  pub log_prefix : after.log_prefix ≡ before.log_prefix
  pub rate_limit : after.rate_limit ≡ before.rate_limit
  pub profile : after.profile ≡ before.profile
  pub schedule : after.schedule ≡ before.schedule
  pub ports : PortsFit before.ports → PortsFit after.ports

Keeps-refl : (rs : FirewallRuleSet) → Keeps rs rs
Keeps-refl rs = record {
  name = refl;
  log = refl;
  log_prefix = refl;
  rate_limit = refl;
  profile = refl;
  schedule = refl;
  ports = λ h. h;
}

PortsFit-add : (ps : List ℕ) (n : ℕ) → PortsFit ps → PortsFit (ps ++ uint16 n ∷ [])
PortsFit-add ps n h = All-append _ ps (uint16 n ∷ []) h (omega arith)

Keeps-trans : {a b c : FirewallRuleSet} → Keeps a b → Keeps b c → Keeps a c
Keeps-trans h k = record {
  name = k.name ∙ h.name;
  log = k.log ∙ h.log;
  log_prefix = k.log_prefix ∙ h.log_prefix;
  rate_limit = k.rate_limit ∙ h.rate_limit;
  profile = k.profile ∙ h.profile;
  schedule = k.schedule ∙ h.schedule;
  ports = λ p. k.ports (h.ports p);
}

geo_Keeps :
    (rs : FirewallRuleSet) (negate : Bool) (cs : List Text)
    → Keeps rs (
        if negate
        then record rs { geo_allow = rs.geo_allow ++ cs }
        else record rs { geo_block = rs.geo_block ++ cs })
geo_Keeps rs true cs = ground arith
geo_Keeps rs false cs = ground arith

ports_Keeps :
    (rs : FirewallRuleSet) (ps : List ℕ)
    → PortsFit ps
    → Keeps rs (record rs { ports = rs.ports ++ ps })
ports_Keeps rs ps fit = record {
  name = refl;
  log = refl;
  log_prefix = refl;
  rate_limit = refl;
  profile = refl;
  schedule = refl;
  ports = λ h. All-append _ rs.ports ps h fit;
}

module _ (u : Unicode) (net : NetParser) where
  compare-Keeps :
      (rs : FirewallRuleSet) (field op : Text) (v : Value) {rs' : FirewallRuleSet}
      → apply_compare u net rs field op v ≡ ok rs'
      → Keeps rs rs'
  unfolding apply_compare
  compare-Keeps rs field op v h = ground (arith, PortsFit-add rs.ports v.num)

  compare-total :
      (rs : FirewallRuleSet) (field op : Text) (v : Value)
      → apply_compare u net rs field op v ≢ out_of_fuel
  unfolding apply_compare
  compare-total rs field op v h = ground arith

  compare-Delivers :
      (rs : FirewallRuleSet) (field op : Text) (v : Value)
      → Delivers (Keeps rs) (apply_compare u net rs field op v)
  compare-Delivers rs field op v =
      Delivers-of _ (compare-total rs field op v) (λ rs' h. compare-Keeps rs field op v h)

  port_list-Delivers : (vs : List Value) → Delivers PortsFit (port_list u net vs)
  unfolding port_list
  port_list-Delivers [] = delivers tt
  port_list-Delivers (v ∷ vs) =
      Delivers-if (not v.is_num) (λ _. refuses)
        λ _. Delivers-bind (port_list-Delivers vs) λ ps fit. delivers (omega arith, fit)

  code_list-Delivers : (vs : List Value) → Delivers (λ _. Unit {0}) (code_list u net vs)
  unfolding code_list
  code_list-Delivers [] = delivers tt
  code_list-Delivers (v ∷ vs) =
      Delivers-if (not v.is_str) (λ _. refuses)
        λ _. Delivers-bind (code_list-Delivers vs) λ cs _. delivers tt

  in-Delivers :
      (rs : FirewallRuleSet) (field : Text) (negate : Bool) (vs : List Value)
      → Delivers (Keeps rs) (apply_in u net rs field negate vs)
  unfolding apply_in
  in-Delivers rs field negate vs =
      Delivers-if (text_eq (lower u net field) (codes "port"))
        (λ _. Delivers-bind (port_list-Delivers vs) λ ps fit. delivers (ports_Keeps rs ps fit))
        λ _.
          Delivers-if (text_eq (lower u net field) (codes "geo"))
            (λ _. Delivers-bind (code_list-Delivers vs) λ cs _. delivers (geo_Keeps rs negate cs))
            (λ _. refuses)

  predicate-Delivers :
      (rs : FirewallRuleSet) (e : Expr) → Delivers (Keeps rs) (apply_predicate u net rs e)
  unfolding apply_predicate
  predicate-Delivers rs (compare_expr f op v) = compare-Delivers rs f op v
  predicate-Delivers rs (in_expr f n vs) = in-Delivers rs f n vs
  predicate-Delivers rs (not_expr (compare_expr f op v)) = compare-Delivers rs f _ v
  predicate-Delivers rs (not_expr e) = refuses
  predicate-Delivers rs e = refuses

  predicates-Delivers :
      (rs : FirewallRuleSet) (es : List Expr) → Delivers (Keeps rs) (apply_predicates u net rs es)
  unfolding apply_predicates
  predicates-Delivers rs [] = delivers (Keeps-refl rs)
  predicates-Delivers rs (e ∷ es) =
      Delivers-bind (predicate-Delivers rs e)
        λ mid k. Delivers-map (predicates-Delivers mid es) λ after k'. Keeps-trans k k'

-- What holds of the rule set that term `i` of a rule gives.
pub record IsTermSet (name version : Text) (a : Action) (i : ℕ) (rs : FirewallRuleSet)
    : Type 0 where
  pub named : rs.name ≡ set_name name version a i
  pub logs : rs.log ≡ is_log a
  pub prefixed : rs.log_prefix ≡ name ++ (codes "@" ++ version)
  pub unlimited : rs.rate_limit ≡ none
  pub unscheduled : rs.schedule ≡ none
  pub ports_fit : PortsFit rs.ports
  pub blocks_all :
      is_block a ≡ true → (own : List IpNet) × (rs.blocklist ≡ own ++ cidr_all4 ∷ cidr_all6 ∷ [])

close-IsTermSet :
    (name version : Text) (a : Action) (i : ℕ) (rs : FirewallRuleSet)
    → Keeps (start_set name version a i) rs
    → IsTermSet name version a i (close_set a rs)
unfolding start_set close_set
close-IsTermSet name version a i rs k = record {
  named = ground (arith, k.name);
  logs = ground (arith, k.log);
  prefixed = ground (arith, k.log_prefix);
  unlimited = ground (arith, k.rate_limit);
  unscheduled = ground (arith, k.schedule);
  ports_fit = ground (arith, k.ports tt);
  blocks_all = λ b. (rs.blocklist, rw b);
}

module _ (u : Unicode) (net : NetParser) where
  pub term-Delivers :
      (name version : Text) (a : Action) (i : ℕ) (term : Expr)
      → Delivers (IsTermSet name version a i) (compile_term u net name version a i term)
  unfolding compile_term
  term-Delivers name version a i term =
      Delivers-bind (predicates-Delivers u net (start_set name version a i) (flatten_and term))
        λ rs k. delivers (close-IsTermSet name version a i rs k)
