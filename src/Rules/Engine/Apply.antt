-- ===== src/Rules/Engine/Apply.antt =====
-- What one application does to the engine's own state, on every branch.
use firefik.Prelude.{
  Bool, true, false, ◌&&◌, ◌≡◌, ◌≢◌, refl, Option, none, some, List, [], ◌∷◌, ◌++◌, Text, text_eq,
  text_eq_iff, sym, Outcome, ok, err, out_of_fuel, Delivers, delivers, Delivers-bind,
  Delivers-total, is_some, lookup, insert, lookup-insert, lookup-insert_other, Bool-cases, inl, inr,
  if◌then◌else◌,
}
use firefik.Docker.RuleSet.{Ip, FirewallRuleSet, ContainerConfig, ContainerInfo}
use firefik.Rules.Nftables.{short_id}
use firefik.Rules.Sets.{GeoDb, GeoError}
use firefik.Rules.Sets.Geo.{geoip-Delivers}
use firefik.Rules.Engine.{
  Engine, Settings, EngineError, ips_of, effective_policy, install, apply_container_inner,
  set_container_ips, record_applied, pre_cleanup, apply_cleaned, apply_families, auto_nets,
  ready_sets, geo_sets,
}
use firefik.Strings.{is_empty}

geo_sets-Delivers :
    (db : Option GeoDb) (sets : List FirewallRuleSet) → Delivers (λ _. Unit {0}) (geo_sets db sets)
unfolding geo_sets
geo_sets-Delivers db [] = delivers tt
geo_sets-Delivers db (rs ∷ sets) =
    Delivers-bind (geoip-Delivers db rs)
      λ rs' _. Delivers-bind (geo_sets-Delivers db sets) λ sets' _. delivers tt

module _ {K : Type 0} (show : Ip → Text) (c : Settings K) where
  -- A container without an address is skipped, an error leaves all but the kernel as it was, and a
  -- success records the configuration with the policy in effect, and the addresses.
  pub data Applies (ctr : ContainerInfo) (cfg : ContainerConfig) (s : Engine K)
      : Engine K × Option EngineError → Type 0 where
    skips : ips_of c.net ctr.networks ≡ ([], []) → Applies ctr cfg s (s, none)
    fails : {k : K} {e : EngineError} → Applies ctr cfg s (record s { kernel = k }, some e)
    records :
        {k : K} {v4 v6 : List Ip}
        → ips_of c.net ctr.networks ≡ (v4, v6)
        → Applies ctr cfg s (
          record {
            kernel = k;
            applied =
                insert
                  (short_id ctr.id)
                  (record cfg { default_policy = effective_policy show c cfg })
                  s.applied;
            container_ip = set_container_ips show (short_id ctr.id) (v4 ++ v6) s.container_ip;
          },
          none,
        )

  record-Applies :
      (ctr : ContainerInfo) (cfg : ContainerConfig) (v4 v6 : List Ip) (s : Engine K) (r : K × Bool)
      → ips_of c.net ctr.networks ≡ (v4, v6)
      → Applies ctr cfg s (record_applied show c ctr cfg (v4 ++ v6) s r)
  unfolding record_applied
  record-Applies ctr cfg v4 v6 s (k, true) e = records e
  record-Applies ctr cfg v4 v6 s (k, false) e = fails

  cleaned-Applies :
      (ctr : ContainerInfo) (cfg : ContainerConfig) (v4 v6 : List Ip) (sets : List FirewallRuleSet)
      (s : Engine K) (r : K × Bool)
      → ips_of c.net ctr.networks ≡ (v4, v6)
      → Applies ctr cfg s (apply_cleaned show c ctr cfg v4 v6 sets s r)
  unfolding apply_cleaned
  cleaned-Applies ctr cfg v4 v6 sets s (k, true) e =
      record-Applies ctr cfg v4 v6 s
        (apply_families show c ctr v4 v6 sets (effective_policy show c cfg)
          (auto_nets show c ctr cfg) k)
        e
  cleaned-Applies ctr cfg v4 v6 sets s (k, false) e = fails

  install-Applies :
      (ctr : ContainerInfo) (cfg : ContainerConfig) (v4 v6 : List Ip) (s : Engine K)
      (o : Outcome GeoError (List FirewallRuleSet))
      → o ≢ out_of_fuel
      → ips_of c.net ctr.networks ≡ (v4, v6)
      → Applies ctr cfg s (install show c ctr cfg v4 v6 s o)
  unfolding install
  install-Applies ctr cfg v4 v6 s (ok sets) t e =
      cleaned-Applies ctr cfg v4 v6 sets s (pre_cleanup show c (short_id ctr.id) s) e
  install-Applies ctr cfg v4 v6 s (err g) t e = fails
  install-Applies ctr cfg v4 v6 s out_of_fuel t e = absurd (t refl)

  ready-total :
      (ctr : ContainerInfo) (cfg : ContainerConfig) → ready_sets show c ctr cfg ≢ out_of_fuel
  unfolding ready_sets
  ready-total ctr cfg = Delivers-total (geo_sets-Delivers c.geo_db _)

  -- Applying a container skips one without addresses and changes nothing, or fails with an error and
  -- leaves the applied containers and the addresses as they were, or succeeds and records the
  -- container's configuration with the policy in effect, and its addresses.
  pub apply-Applies :
      (ctr : ContainerInfo) (cfg : ContainerConfig) (s : Engine K)
      → Applies ctr cfg s (apply_container_inner show c ctr cfg s)
  unfolding apply_container_inner
  apply-Applies ctr cfg s = go (ips_of c.net ctr.networks) refl
    where
      go :
          (ips : List Ip × List Ip)
          → ips_of c.net ctr.networks ≡ ips
          → Applies ctr cfg s (
              if is_empty ips.0 && is_empty ips.1
              then (s, none)
              else install show c ctr cfg ips.0 ips.1 s (ready_sets show c ctr cfg))
      go ([], []) e = skips e
      go (a ∷ v4, v6) e =
          install-Applies ctr cfg (a ∷ v4) v6 s (ready_sets show c ctr cfg) (ready-total ctr cfg) e
      go ([], a ∷ v6) e =
          install-Applies ctr cfg [] (a ∷ v6) s (ready_sets show c ctr cfg) (ready-total ctr cfg) e

  -- After an application, a container that was applied before still is one.
  pub Applies-keeps :
      {ctr : ContainerInfo} {cfg : ContainerConfig} {s : Engine K}
      {r : Engine K × Option EngineError}
      → Applies ctr cfg s r
      → (k : Text) → is_some (lookup k s.applied) ≡ true
      → is_some (lookup k (r.0).applied) ≡ true
  Applies-keeps (skips e) k h = h
  Applies-keeps fails k h = h
  Applies-keeps {ctr} {cfg} {s} (records e) k h = elim (Bool-cases (text_eq (short_id ctr.id) k)) [
    | inl same ↦ rw (sym ((text_eq_iff (short_id ctr.id) k).0 same), lookup-insert) refl
    | inr other ↦ rw (lookup-insert_other (short_id ctr.id) k _ s.applied other) h
  ]

  -- What an application adds is the container itself.
  pub Applies-only :
      {ctr : ContainerInfo} {cfg : ContainerConfig} {s : Engine K}
      {r : Engine K × Option EngineError}
      → Applies ctr cfg s r
      → (k : Text) → text_eq (short_id ctr.id) k ≡ false
      → lookup k (r.0).applied ≡ lookup k s.applied
  Applies-only (skips e) k h = refl
  Applies-only fails k h = refl
  Applies-only {ctr} {cfg} {s} (records e) k h =
      lookup-insert_other (short_id ctr.id) k _ s.applied h
