-- ===== src/Rules/Engine.antt =====
-- backend/internal/rules/engine.go: the applied containers, the addresses, and the state of the kernel
-- behind the backends, which stays abstract. An operation returns the new state and Go's error, `none`
-- for nil. Locks, logs, metrics, traces and the audit log are left out: each operation runs under the lock.
pub mod Apply
pub mod Reconcile
pub mod Drift
use firefik.Prelude.{
  ℕ, Bool, true, false, not, ◌&&◌, ◌||◌, Option, none, some, List, [], ◌∷◌, ◌++◌, map, Text, codes,
  text_eq, contains, Outcome, ok, err, out_of_fuel, ◌>>=◌, lookup, delete, insert, keys, is_some,
  if◌then◌else◌,
}
use firefik.Schedule.Window.{Window, active}
use firefik.Docker.RuleSet.{
  Ip, ip4, ip6, IpNet, NetParser, FirewallRuleSet, ContainerConfig, ContainerInfo, NetworkEndpoint,
}
use firefik.Rules.Nftables.{short_id}
use firefik.Rules.Sets.{
  GeoDb, GeoError, apply_profile, apply_geoip, network_cidrs, container_network_cidrs, resolve_set,
}
use firefik.Strings.{is_empty}

-- `Backend` of backend.go, as far as the engine's containers use it: the Boolean says that there was no
-- error. `apply_container_rules` gets the id, the name, the addresses, the rule sets, the policy and the
-- automatic allow list.
pub record Backend (K : Type 0) : Type 0 where
  pub apply_container_rules :
      Text → Text → List Ip → List FirewallRuleSet → Text → List IpNet → K → K × Bool
  pub remove_container_chains : Text → K → K × Bool
  pub list_applied_container_ids : K → Option (List Text)

pub data EngineError : Type 0 where
  geoip_fail_closed : GeoError → EngineError
  pre_cleanup_failed : EngineError
  apply_failed : EngineError
  remove_failed : EngineError
  rehydrate_failed : EngineError
  list_failed : EngineError

-- What does not change: `now` is the time of the call.
pub record Settings (K : Type 0) : Type 0 where
  pub backend : Backend K
  pub ip6backend : Option (Backend K)
  pub inet_backend : Bool
  pub geo_db : Option GeoDb
  pub auto_allowlist : Bool
  pub default_policy : Text
  pub net : NetParser
  pub now : ℕ

pub record Engine (K : Type 0) : Type 0 where
  pub kernel : K
  pub applied : List (Text × ContainerConfig)
  pub container_ip : List (Text × Text)

abbrev pub empty_config : ContainerConfig
empty_config = record {
  enable = false;
  default_policy = [];
  no_auto_allowlist = false;
  rule_sets = [];
}

-- The addresses that were the container's are forgotten.
unfoldable pub drop_container_ips : Text → List (Text × Text) → List (Text × Text)
drop_container_ips sid [] = []
drop_container_ips sid ((ip, owner) ∷ m) =
    let rest = drop_container_ips sid m in if text_eq owner sid then rest else (ip, owner) ∷ rest

-- `show` is `net.IP.String`.
abbrev insert_ips : (Ip → Text) → Text → List Ip → List (Text × Text) → List (Text × Text)
insert_ips show sid [] m = m
insert_ips show sid (ip ∷ ips) m = insert_ips show sid ips (insert (show ip) sid m)

unfoldable pub set_container_ips :
    (Ip → Text) → Text → List Ip → List (Text × Text) → List (Text × Text)
unfolding drop_container_ips
set_container_ips show sid ips m = insert_ips show sid ips (drop_container_ips sid m)

-- The addresses that parse, of each family.
unfoldable pub ips_of : NetParser → List (Text × NetworkEndpoint) → List Ip × List Ip
ips_of net [] = ([], [])
ips_of net ((_, ep) ∷ eps) =
    let (v4, v6) = ips_of net eps in
    elim (net.parse_ip ep.ip) [
      | none ↦ (v4, v6)
      | some (ip4 a) ↦ (ip4 a ∷ v4, v6)
      | some (ip6 a) ↦ (v4, ip6 a ∷ v6)
    ]

-- The rule sets without a schedule, or with one that is active.
abbrev pub in_schedule : ℕ → Option Window → Bool
in_schedule now none = true
in_schedule now (some w) = active w now

unfoldable pub active_sets : ℕ → List FirewallRuleSet → List FirewallRuleSet
active_sets now [] = []
active_sets now (rs ∷ sets) =
    let rest = active_sets now sets in if in_schedule now rs.schedule then rs ∷ rest else rest

unfoldable pub geo_sets :
    Option GeoDb → List FirewallRuleSet → Outcome GeoError (List FirewallRuleSet)
unfolding apply_geoip
geo_sets db [] = ok []
geo_sets db (rs ∷ sets) =
    apply_geoip db rs >>= λ rs'. geo_sets db sets >>= λ sets'. ok (rs' ∷ sets')

module _ {K : Type 0} (show : Ip → Text) (c : Settings K) where
  abbrev effective_policy : ContainerConfig → Text
  effective_policy cfg =
      if is_empty cfg.default_policy then c.default_policy else cfg.default_policy

  abbrev auto_nets : ContainerInfo → ContainerConfig → List IpNet
  auto_nets ctr cfg =
      if c.auto_allowlist && not cfg.no_auto_allowlist
      then container_network_cidrs c.net ctr
      else []

  -- The rule sets that a backend gets.
  unfoldable pub ready_sets :
      ContainerInfo → ContainerConfig → Outcome GeoError (List FirewallRuleSet)
  unfolding geo_sets active_sets
  ready_sets ctr cfg = geo_sets c.geo_db (
      map apply_profile
        (active_sets c.now (map (resolve_set (network_cidrs c.net ctr.networks)) cfg.rule_sets)))

  abbrev remove_ip6 : Option (Backend K) → Text → K → K
  remove_ip6 none id k = k
  remove_ip6 (some b) id k = (b.remove_container_chains id k).0

  -- The removal of older rules; the error of the second backend is only logged.
  unfoldable pub pre_cleanup : Text → Engine K → K × Bool
  pre_cleanup sid s =
      let (k, fine) = c.backend.remove_container_chains sid s.kernel in
      if is_some (lookup sid s.applied)
      then (if fine then (remove_ip6 c.ip6backend sid k, true) else (k, false))
      else (s.kernel, true)

  -- The IPv6 half, with the removal of the IPv4 rules when it fails.
  unfoldable pub apply_ip6 :
      Option (Backend K)
      → ContainerInfo
      → List Ip
      → List Ip
      → List FirewallRuleSet
      → Text
      → List IpNet
      → K
      → K × Bool
  apply_ip6 none ctr v4 v6 sets policy auto k = (k, true)
  apply_ip6 (some b) ctr v4 v6 sets policy auto k =
      let (k', fine) = b.apply_container_rules ctr.id ctr.name v6 sets policy auto k in
      if is_empty v6
      then (k, true)
      else if fine
      then (k', true)
      else if is_empty v4
      then (k', false)
      else ((c.backend.remove_container_chains ctr.id k').0, false)

  unfoldable pub apply_families :
      ContainerInfo → List Ip → List Ip → List FirewallRuleSet → Text → List IpNet → K → K × Bool
  unfolding apply_ip6
  apply_families ctr v4 v6 sets policy auto k =
      let (k4, fine4) = c.backend.apply_container_rules ctr.id ctr.name v4 sets policy auto k in
      let (k', fine) =
        c.backend.apply_container_rules ctr.id ctr.name (v4 ++ v6) sets policy auto k in
      if c.inet_backend
      then (k', fine)
      else if is_empty v4
      then apply_ip6 c.ip6backend ctr v4 v6 sets policy auto k
      else if fine4
      then apply_ip6 c.ip6backend ctr v4 v6 sets policy auto k4
      else (k4, false)

  abbrev pub Result : Type 0
  Result = Engine K × Option EngineError

  -- The end of `applyContainerInner`, by what the backends said: only a success is recorded.
  unfoldable pub record_applied :
      ContainerInfo → ContainerConfig → List Ip → Engine K → K × Bool → Result
  unfolding set_container_ips
  record_applied ctr cfg ips s (k, false) = (record s { kernel = k }, some apply_failed)
  record_applied ctr cfg ips s (k, true) = (
    record {
      kernel = k;
      applied =
          insert (short_id ctr.id) (record cfg { default_policy = effective_policy cfg }) s.applied;
      container_ip = set_container_ips show (short_id ctr.id) ips s.container_ip;
    },
    none,
  )

  -- What follows the removal of older rules.
  unfoldable pub apply_cleaned :
      ContainerInfo
      → ContainerConfig
      → List Ip
      → List Ip
      → List FirewallRuleSet
      → Engine K
      → K × Bool
      → Result
  unfolding apply_families record_applied
  apply_cleaned ctr cfg v4 v6 sets s (k, false) = (record s { kernel = k }, some pre_cleanup_failed)
  apply_cleaned ctr cfg v4 v6 sets s (k, true) =
      record_applied ctr cfg (v4 ++ v6) s
        (apply_families ctr v4 v6 sets (effective_policy cfg) (auto_nets ctr cfg) k)

  -- `applyContainerInner` behind the test for addresses and the rule sets, which take no fuel.
  unfoldable pub install :
      ContainerInfo
      → ContainerConfig
      → List Ip
      → List Ip
      → Engine K
      → Outcome GeoError (List FirewallRuleSet)
      → Result
  unfolding pre_cleanup apply_cleaned
  install ctr cfg v4 v6 s (err e) = (s, some (geoip_fail_closed e))
  install ctr cfg v4 v6 s out_of_fuel = (s, none)
  install ctr cfg v4 v6 s (ok sets) =
      apply_cleaned ctr cfg v4 v6 sets s (pre_cleanup (short_id ctr.id) s)

  unfoldable pub apply_container_inner : ContainerInfo → ContainerConfig → Engine K → Result
  unfolding ips_of ready_sets install
  apply_container_inner ctr cfg s =
      let (v4, v6) = ips_of c.net ctr.networks in
      if is_empty v4 && is_empty v6 then (s, none) else install ctr cfg v4 v6 s (ready_sets ctr cfg)

  unfoldable pub remove_chains : Text → Engine K → Result
  unfolding drop_container_ips
  remove_chains id s =
      let (k, fine) = c.backend.remove_container_chains id s.kernel in
      if fine
      then (
        record {
          kernel = remove_ip6 c.ip6backend id k;
          applied = delete id s.applied;
          container_ip = drop_container_ips id s.container_ip;
        },
        none,
      )
      else (record s { kernel = k }, some remove_failed)

  unfoldable pub remove_container : Text → Engine K → Result
  unfolding remove_chains
  remove_container id s = remove_chains (short_id id) s

  -- The loop of `Reconcile` over the containers, each with the configuration that its labels, the rules
  -- file, the templates and the policies give it. Errors are logged, and the loop goes on.
  unfoldable pub apply_all : List (ContainerInfo × ContainerConfig) → Engine K → Engine K
  unfolding apply_container_inner
  apply_all [] s = s
  apply_all ((ctr, cfg) ∷ rest) s =
      let s' = if cfg.enable then (apply_container_inner ctr cfg s).0 else s in apply_all rest s'

  -- The loop over the applied containers: those that were not seen are removed.
  unfoldable pub remove_one : List Text → Text → Engine K → Engine K
  unfolding remove_chains
  remove_one seen id s = if contains seen id then s else (remove_chains id s).0

  unfoldable pub remove_unseen : List Text → List Text → Engine K → Engine K
  unfolding remove_one
  remove_unseen seen [] s = s
  remove_unseen seen (id ∷ ids) s = remove_unseen seen ids (remove_one seen id s)

  abbrev pub seen_of : List (ContainerInfo × ContainerConfig) → List Text
  seen_of [] = []
  seen_of ((ctr, _) ∷ rest) = short_id ctr.id ∷ seen_of rest

  -- `Reconcile` behind the loading of the rules file and the listing of the containers.
  unfoldable pub reconcile : List (ContainerInfo × ContainerConfig) → Engine K → Engine K
  unfolding apply_all remove_unseen
  reconcile ctrs s = let s' = apply_all ctrs s in remove_unseen (seen_of ctrs) (keys s'.applied) s'
