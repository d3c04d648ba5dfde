-- ===== src/Samples/Engine.antt =====
-- The engine over a kernel that is a list of container identifiers.
use firefik.Prelude.{
  ok, ◌↔◌, true, false, ◌≡◌, refl, none, some, List, [], ◌∷◌, Text, codes, text_eq, contains,
  lookup, is_some, ◌==◌, arith, if◌then◌else◌,
}
use firefik.Schedule.Window.{Window, active}
use firefik.Schedule.Window.Circle.{active-minutes_from}
use firefik.Docker.RuleSet.{
  Ip, ip4, net4, FirewallRuleSet, empty_rule_set, ContainerConfig, ContainerInfo,
}
use firefik.Rules.Sets.{GeoDb, apply_geoip}
use firefik.Rules.Sets.Geo.{GeoApplied, geoip_fail_closed_lem}
use firefik.Rules.Engine.{Backend, Settings, Engine, empty_config, apply_container_inner, reconcile}
use firefik.Rules.Engine.Apply.{Applies, apply-Applies}
use firefik.Rules.Engine.Reconcile.{reconcile-unseen, reconcile-seen}
use firefik.Rules.Engine.Drift.{check_drift, DriftReport, rehydrate, drift_lem, rehydrate_lem}

abbrev Kernel : Type 0
Kernel = List Text

abbrev forget : Text → Kernel → Kernel
forget id [] = []
forget id (x ∷ xs) = if text_eq x id then forget id xs else x ∷ forget id xs

abbrev backend : Backend Kernel
backend = record {
  apply_container_rules = λ id name ips sets policy auto k. (id ∷ k, true);
  remove_container_chains = λ id k. (forget id k, true);
  list_applied_container_ids = λ k. some k;
}

abbrev settings : Settings Kernel
settings = record {
  backend = backend;
  ip6backend = none;
  inet_backend = false;
  geo_db = none;
  auto_allowlist = false;
  default_policy = codes "DROP";
  net = record { parse_ip = λ _. some (ip4 2886729730); parse_cidr = λ _. none };
  now = 0;
}

abbrev show : Ip → Text
show _ = codes "172.17.0.2"

abbrev web : ContainerInfo
web = record {
  id = codes "web";
  name = codes "web";
  labels = [];
  networks = (codes "bridge", record { ip = codes "172.17.0.2"; prefix_len = 16 }) ∷ [];
}

abbrev web_config : ContainerConfig
web_config = record empty_config { enable = true }

-- The engine knows `web` and `old`; the kernel has `web` and `lost`.
abbrev running : Engine Kernel
running = record {
  kernel = codes "web" ∷ codes "lost" ∷ [];
  applied = (codes "web", web_config) ∷ (codes "old", web_config) ∷ [];
  container_ip = [];
}

apply-Applies_example :
    Applies show settings web web_config running
      (apply_container_inner show settings web web_config running)
apply-Applies_example = apply-Applies show settings web web_config running

-- `old` is not listed any more.
reconcile-unseen_example :
    lookup (codes "old") (reconcile show settings ((web, web_config) ∷ []) running).applied ≡ none
unfolding contains text_eq
reconcile-unseen_example =
    reconcile-unseen show settings (λ id k. refl) ((web, web_config) ∷ []) running (codes "old")
      refl

-- `web` is listed, and not enabled any more.
reconcile-seen_example :
    is_some
      (lookup (codes "web") (reconcile show settings ((web, empty_config) ∷ []) running).applied)
    ≡ true
unfolding contains text_eq lookup
reconcile-seen_example =
    reconcile-seen show settings ((web, empty_config) ∷ []) running (codes "web") refl refl

drift_lem_example :
    (r : DriftReport) × (check_drift settings running ≡ some r)
    × (contains r.orphan_ids (codes "lost") ≡ true)
    × (contains r.missing_ids (codes "lost") ≡ false)
unfolding contains text_eq lookup
drift_lem_example = drift_lem settings running (codes "web" ∷ codes "lost" ∷ []) (codes "lost") refl

rehydrate_lem_example :
    (s' : Engine Kernel) × (rehydrate settings running ≡ (s', none))
    × ((k : Text) (v : ContainerConfig)
        → lookup k running.applied ≡ some v
        → lookup k s'.applied ≡ some v)
    × ((k : Text)
        → contains (codes "web" ∷ codes "lost" ∷ []) k ≡ true
        → is_some (lookup k s'.applied) ≡ true)
rehydrate_lem_example = rehydrate_lem settings running (codes "web" ∷ codes "lost" ∷ []) refl refl

abbrev geo_db : GeoDb
geo_db countries =
    if contains countries (codes "DE")
    then some (net4 167772160 8 ∷ [])
    else some (net4 2886729728 12 ∷ [])

abbrev by_country : FirewallRuleSet
by_country = record empty_rule_set {
  geo_allow = codes "DE" ∷ [];
  geo_block = codes "FR" ∷ [];
  blocklist = net4 0 0 ∷ [];
}

abbrev with_countries : FirewallRuleSet
with_countries = record by_country {
  allowlist = net4 167772160 8 ∷ [];
  blocklist = net4 2886729728 12 ∷ net4 0 0 ∷ [];
}

geoip_fail_closed_lem_example :
    (apply_geoip (some geo_db) by_country ≡ ok with_countries)
    ↔ GeoApplied (some geo_db) by_country with_countries
geoip_fail_closed_lem_example = geoip_fail_closed_lem (some geo_db) by_country with_countries

by_country_applied : apply_geoip (some geo_db) by_country ≡ ok with_countries
unfolding apply_geoip contains text_eq
by_country_applied = refl

-- 22:00 to 06:00 on Fridays, on a Friday at 23:30.
abbrev night : Window
night = record {
  start_min = 1320;
  end_min = 360;
  days = λ d. d == 5;
  loc = λ _. record { weekday = 5; hour = 23; minute = 30 };
  raw = codes "22:00-06:00 fri";
}

active-minutes_from_example : active night 0 ≡ true
active-minutes_from_example =
    active-minutes_from night 0 (omega arith) (omega arith) (omega arith) (omega arith)
