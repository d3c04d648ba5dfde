-- ===== src/Rules/Sets/Geo.antt =====
-- The country lists of a rule set fail closed.
use firefik.Prelude.{
  and-true, true, false, ◌&&◌, ◌≡◌, ◌↔◌, ◌⊎◌, inl, inr, refl, sym, ◌∙◌, ap, subst, Option, none,
  some, List, [], ◌++◌, Text, ok, Delivers, delivers, refuses, Delivers-if, Delivers-bind,
  Delivers-map, Delivers-ok,
}
use firefik.Docker.RuleSet.{IpNet, FirewallRuleSet}
use firefik.Rules.Sets.{GeoDb, found, geo_block, geo_allow, apply_geoip}
use firefik.Strings.{is_empty}

-- The networks of the countries: none for no countries, and else those of a database.
abbrev pub NetworksOf : Option GeoDb → List Text → List IpNet → Type 0
NetworksOf none countries nets = (is_empty countries ≡ true) × (nets ≡ [])
NetworksOf (some db) countries nets =
    ((is_empty countries ≡ true) × (nets ≡ []))
    ⊎ ((is_empty countries ≡ false) × (db countries ≡ some nets))

-- The networks of the blocked countries stand in front of the block list, those of the allowed
-- countries in front of the allow list, and allowed countries have a network.
abbrev pub GeoApplied : Option GeoDb → FirewallRuleSet → FirewallRuleSet → Type 0
GeoApplied db rs rs' =
    (block : List IpNet) × (allow : List IpNet) × (rs'
      ≡ record rs { blocklist = block ++ rs.blocklist; allowlist = allow ++ rs.allowlist })
    × NetworksOf db rs.geo_block block
    × NetworksOf db rs.geo_allow allow
    × (is_empty rs.geo_allow ≡ false → is_empty allow ≡ false)

abbrev with_blocked : List IpNet → FirewallRuleSet → FirewallRuleSet
with_blocked nets rs = record rs { blocklist = nets ++ rs.blocklist }

abbrev with_allowed : List IpNet → FirewallRuleSet → FirewallRuleSet
with_allowed nets rs = record rs { allowlist = nets ++ rs.allowlist }

abbrev WithBlocked : GeoDb → FirewallRuleSet → FirewallRuleSet → Type 0
WithBlocked db rs rs' =
    (block : List IpNet) × (rs' ≡ with_blocked block rs) × NetworksOf (some db) rs.geo_block block

abbrev WithAllowed : GeoDb → FirewallRuleSet → FirewallRuleSet → Type 0
WithAllowed db rs rs' =
    (allow : List IpNet) × (rs' ≡ with_allowed allow rs)
    × NetworksOf (some db) rs.geo_allow allow
    × (is_empty rs.geo_allow ≡ false → is_empty allow ≡ false)

found-Delivers :
    (countries : List Text) (o : Option (List IpNet))
    → Delivers (λ nets. o ≡ some nets) (found countries o)
found-Delivers countries none = refuses
found-Delivers countries (some nets) = delivers refl

block-Delivers :
    (db : GeoDb) (rs : FirewallRuleSet) → Delivers (WithBlocked db rs) (geo_block db rs)
unfolding geo_block
block-Delivers db rs =
    Delivers-if (is_empty rs.geo_block) (λ unused. delivers ([], refl, inl (unused, refl)))
      (λ used.
        Delivers-bind (found-Delivers rs.geo_block (db rs.geo_block))
          λ nets looked_up. delivers (nets, refl, inr (used, looked_up)))

allow-Delivers :
    (db : GeoDb) (rs : FirewallRuleSet) → Delivers (WithAllowed db rs) (geo_allow db rs)
unfolding geo_allow
allow-Delivers db rs =
    Delivers-if (is_empty rs.geo_allow) (λ unused. delivers ([], refl, inl (unused, refl), λ h. cc))
      (λ used. Delivers-bind (found-Delivers rs.geo_allow (db rs.geo_allow)) λ nets looked_up.
        Delivers-if (is_empty nets) (λ _. refuses)
          (λ some_found. delivers (nets, refl, inr (used, looked_up), λ _. some_found)))

pub geoip-Delivers :
    (db : Option GeoDb) (rs : FirewallRuleSet) → Delivers (GeoApplied db rs) (apply_geoip db rs)
unfolding apply_geoip
geoip-Delivers none rs =
    Delivers-if (is_empty rs.geo_block && is_empty rs.geo_allow)
      (λ unused.
        let (no_block, no_allow) =
          and-true (is_empty rs.geo_block) (is_empty rs.geo_allow) unused in
        delivers ([], [], refl, (no_block, refl), (no_allow, refl), λ used. cc))
      (λ _. refuses)
geoip-Delivers (some db) rs = Delivers-bind (block-Delivers db rs) λ rs1 (block, e1, blocked).
    Delivers-map (allow-Delivers db rs1) λ rs2 (allow, e2, allowed, filled). (
      block,
      allow,
      e2 ∙ ap (with_allowed allow) e1,
      blocked,
      subst (λ (r : FirewallRuleSet). NetworksOf (some db) r.geo_allow allow) e1 allowed,
      subst (λ (r : FirewallRuleSet). is_empty r.geo_allow ≡ false → is_empty allow ≡ false) e1
          filled,
    )

geo_block-ok :
    (db : GeoDb) (rs : FirewallRuleSet) (nets : List IpNet)
    → NetworksOf (some db) rs.geo_block nets
    → geo_block db rs ≡ ok (with_blocked nets rs)
unfolding geo_block
geo_block-ok db rs nets (inl (unused, nothing)) = rw (unused, nothing) refl
geo_block-ok db rs nets (inr (used, looked_up)) = rw (used, looked_up) refl

geo_allow-ok :
    (db : GeoDb) (rs : FirewallRuleSet) (nets : List IpNet)
    → NetworksOf (some db) rs.geo_allow nets
    → (is_empty rs.geo_allow ≡ false → is_empty nets ≡ false)
    → geo_allow db rs ≡ ok (with_allowed nets rs)
unfolding geo_allow
geo_allow-ok db rs nets (inl (unused, nothing)) filled = rw (unused, nothing) refl
geo_allow-ok db rs nets (inr (used, looked_up)) filled = rw (used, looked_up, filled used) refl

geoip-ok :
    (db : Option GeoDb) (rs rs' : FirewallRuleSet)
    → GeoApplied db rs rs'
    → apply_geoip db rs ≡ ok rs'
unfolding apply_geoip
geoip-ok none rs rs' (block, allow, e, (no_block, eb), (no_allow, ea), filled) =
    rw (no_block, no_allow, e, eb, ea) refl
geoip-ok (some db) rs rs' (block, allow, e, blocked, allowed, filled) =
    rw (geo_block-ok db rs block blocked)
      (geo_allow-ok db (with_blocked block rs) allow allowed filled ∙ ap ok (sym e))

-- The country lookup of a rule set succeeds exactly if the countries that it blocks and those that
-- it allows, where there are some, are found in the database, and the allowed ones have a network;
-- the networks of the blocked countries then go in front of the block list, those of the allowed
-- ones in front of the allow list, and nothing else is changed.
pub geoip_fail_closed_lem :
    (db : Option GeoDb) (rs rs' : FirewallRuleSet)
    → (apply_geoip db rs ≡ ok rs') ↔ GeoApplied db rs rs'
geoip_fail_closed_lem db rs rs' = (λ h. Delivers-ok (geoip-Delivers db rs) h, geoip-ok db rs rs')
