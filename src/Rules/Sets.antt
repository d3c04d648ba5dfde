-- ===== src/Rules/Sets.antt =====
-- What the engine makes of a rule set before a backend gets it: profiles.go, geoip_rules.go and the
-- network functions of engine.go, in backend/internal/rules.
pub mod Geo
use firefik.Prelude.{
  ℕ, ◌-◌, Bool, true, false, not, ◌&&◌, ◌||◌, Option, none, some, List, [], ◌∷◌, ◌++◌, Text, codes,
  text_eq, Outcome, ok, err, ◌>>=◌, ltb, ◌==◌, lookup, if◌then◌else◌,
}
use firefik.Docker.RuleSet.{
  Ip, ip4, ip6, IpNet, net4, net6, NetParser, FirewallRuleSet, ContainerInfo, NetworkEndpoint,
}
use firefik.Rules.Nftables.{mask_to}
use firefik.Strings.{is_empty}

-- 10.0.0.0/8, 172.16.0.0/12, 192.168.0.0/16 and fc00::/7.
abbrev pub private_nets : List IpNet
private_nets =
    net4 167772160 8
    ∷ net4 2886729728 12
    ∷ net4 3232235520 16
    ∷ net6 334965454937798799971759379190646833152 7
    ∷ []

unfoldable pub apply_profile : FirewallRuleSet → FirewallRuleSet
apply_profile rs =
    if text_eq rs.profile (codes "web")
    then record rs {
      ports = if is_empty rs.ports then 80 ∷ 443 ∷ [] else rs.ports;
      allowlist = if is_empty rs.allowlist then net4 0 0 ∷ net6 0 0 ∷ [] else rs.allowlist;
    }
    else if text_eq rs.profile (codes "internal")
    then record rs { allowlist = if is_empty rs.allowlist then private_nets else rs.allowlist }
    else rs

pub data GeoError : Type 0 where
  geoip_unavailable : GeoError
  lookup_failed : List Text → GeoError
  no_matching_networks : List Text → GeoError

-- `CIDRsForCountries` of a database, `none` for its error.
abbrev pub GeoDb : Type 0
GeoDb = List Text → Option (List IpNet)

abbrev found : List Text → Option (List IpNet) → Outcome GeoError (List IpNet)
found cs none = err (lookup_failed cs)
found cs (some nets) = ok nets

unfoldable pub geo_block : GeoDb → FirewallRuleSet → Outcome GeoError FirewallRuleSet
geo_block db rs =
    let looked_up = found rs.geo_block (db rs.geo_block) >>= λ nets.
    ok (record rs { blocklist = nets ++ rs.blocklist }) in
    if is_empty rs.geo_block then ok rs else looked_up

unfoldable pub geo_allow : GeoDb → FirewallRuleSet → Outcome GeoError FirewallRuleSet
geo_allow db rs =
    let looked_up = found rs.geo_allow (db rs.geo_allow) >>= λ nets.
    if is_empty nets
    then err (no_matching_networks rs.geo_allow)
    else ok (record rs { allowlist = nets ++ rs.allowlist }) in
    if is_empty rs.geo_allow then ok rs else looked_up

-- `Fatal` is the error; the warnings are left out. A rule set that the engine gives up is not returned.
unfoldable pub apply_geoip : Option GeoDb → FirewallRuleSet → Outcome GeoError FirewallRuleSet
unfolding geo_block geo_allow
apply_geoip none rs =
    if is_empty rs.geo_block && is_empty rs.geo_allow then ok rs else err geoip_unavailable
apply_geoip (some db) rs = geo_block db rs >>= geo_allow db

-- The network of an endpoint, `none` if its address does not parse.
unfoldable pub endpoint_net : NetParser → NetworkEndpoint → Option IpNet
endpoint_net net ep = elim (net.parse_ip ep.ip) [
  | none ↦ none
  | some (ip4 a) ↦
      let prefix = if ep.prefix_len == 0 || ltb 32 ep.prefix_len then 24 else ep.prefix_len in
      some (net4 (mask_to 4 prefix a) prefix)
  | some (ip6 a) ↦
      let prefix = if ep.prefix_len == 0 || ltb 128 ep.prefix_len then 64 else ep.prefix_len in
      some (net6 (mask_to 16 prefix a) prefix)
]

unfoldable pub network_cidrs : NetParser → List (Text × NetworkEndpoint) → List (Text × IpNet)
unfolding endpoint_net
network_cidrs net [] = []
network_cidrs net ((name, ep) ∷ eps) =
    let rest = network_cidrs net eps in
    elim (endpoint_net net ep) [ none ↦ rest | some n ↦ (name, n) ∷ rest ]

abbrev second {ℓ} : {A : Type ℓ} → List (Text × A) → List A
second [] = []
second ((_, a) ∷ m) = a ∷ second m

unfoldable pub container_network_cidrs : NetParser → ContainerInfo → List IpNet
unfolding network_cidrs
container_network_cidrs net ctr = second (network_cidrs net ctr.networks)

-- The networks of the names that the container is attached to; each name has one.
unfoldable pub named_nets : List (Text × IpNet) → List Text → List IpNet
named_nets nets [] = []
named_nets nets (name ∷ names) =
    let rest = named_nets nets names in elim (lookup name nets) [ none ↦ rest | some n ↦ n ∷ rest ]

unfoldable pub resolve_set : List (Text × IpNet) → FirewallRuleSet → FirewallRuleSet
unfolding named_nets
resolve_set nets rs = record rs {
  allowlist = rs.allowlist ++ named_nets nets rs.allowlist_networks;
  blocklist = rs.blocklist ++ named_nets nets rs.blocklist_networks;
  allowlist_networks = [];
  blocklist_networks = [];
}
