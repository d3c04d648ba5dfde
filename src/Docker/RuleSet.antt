-- ===== src/Docker/RuleSet.antt =====
-- The rule sets of backend/internal/docker/labels.go, over networks and schedules.
use firefik.Prelude.{ℕ, Bool, false, List, [], Option, none, Text}
use firefik.Schedule.Window.{Window}

-- Go's `net.IP`: an address of either family, as the number that its bytes spell.
pub data Ip : Type 0 where
  ip4 : ℕ → Ip
  ip6 : ℕ → Ip

-- Go's `net.IPNet` with a prefix mask, the only kind that the program makes.
pub data IpNet : Type 0 where
  net4 : ℕ → ℕ → IpNet
  net6 : ℕ → ℕ → IpNet

-- Go's `net.ParseIP` and `net.ParseCIDR`, which gives the network of the address.
pub record NetParser : Type 0 where
  pub parse_ip : Text → Option Ip
  pub parse_cidr : Text → Option IpNet

pub record RateLimitConfig : Type 0 where
  pub rate : ℕ
  pub burst : ℕ

pub record FirewallRuleSet : Type 0 where
  pub name : Text
  pub ports : List ℕ
  pub allowlist : List IpNet
  pub blocklist : List IpNet
  pub allowlist_networks : List Text
  pub blocklist_networks : List Text
  pub rate_limit : Option RateLimitConfig
  pub profile : Text
  pub log : Bool
  pub log_prefix : Text
  pub protocol : Text
  pub geo_block : List Text
  pub geo_allow : List Text
  pub schedule : Option Window

-- Go's zero value.
abbrev pub empty_rule_set : FirewallRuleSet
empty_rule_set = record {
  name = [];
  ports = [];
  allowlist = [];
  blocklist = [];
  allowlist_networks = [];
  blocklist_networks = [];
  rate_limit = none;
  profile = [];
  log = false;
  log_prefix = [];
  protocol = [];
  geo_block = [];
  geo_allow = [];
  schedule = none;
}

pub record ContainerConfig : Type 0 where
  pub enable : Bool
  pub default_policy : Text
  pub no_auto_allowlist : Bool
  pub rule_sets : List FirewallRuleSet

-- The types of backend/internal/docker/client.go. A prefix length is never negative here; the networks
-- are in the order that the range over the map takes.
pub record NetworkEndpoint : Type 0 where
  pub ip : Text
  pub prefix_len : ℕ

pub record ContainerInfo : Type 0 where
  pub id : Text
  pub name : Text
  pub labels : List (Text × Text)
  pub networks : List (Text × NetworkEndpoint)
