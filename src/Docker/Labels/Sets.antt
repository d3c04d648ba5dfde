-- ===== src/Docker/Labels/Sets.antt =====
-- The rule sets of a map of labels do not depend on the orders in which the maps are walked.
use firefik.Prelude.{
  ◌≡◌, ◌≢◌, refl, sym, ap, subst, ◌∙◌, codes, true, Option, none, some, List, [], ◌∷◌, ◌++◌, All,
  Text, map, lookup, insert, keys, contains_iff, contains-keys, is_some, Mention, Outcome, ok, err,
  out_of_fuel, Delivers, delivers, Delivers-total,
}
use firefik.Policy.Unicode.{Unicode}
use firefik.Schedule.Window.{Window}
use firefik.Schedule.Parse.{ScheduleError}
use firefik.Docker.RuleSet.{NetParser, FirewallRuleSet, ContainerConfig}
use firefik.Docker.Entries.Nets.{IsParser}
use firefik.Docker.Labels.{
  LabelError, RawSet, or_empty, LabelKey, other, no_param, no_name, param_of, label_key, add_param,
  collect_key, collect, parse_rule_set, parse_sets, policy_of, config_of, parse_labels,
}
use firefik.Docker.Labels.Maps.{IsMap, insert-IsMap, entries-lookup, lookup-All, delete-All}
use firefik.Docker.Labels.Collect.{
  key_of, IsSetName, Spells, label_key-Spells, param_value, or_value, collect-param_value,
}
use firefik.Docker.Labels.Bounds.{InBounds, parse_rule_set-InBounds}

-- `m'` is a map with the entries of the map `m`, in any order.
abbrev pub SameMap : List (Text × RawSet) → List (Text × RawSet) → Type 0
SameMap m m' = IsMap m' × ((k : Text) → lookup k m' ≡ lookup k m)

-- The sets that are collected are a map, with names that labels can spell.
abbrev IsSets : List (Text × RawSet) → Type 0
IsSets m = IsMap m × All (λ (e : Text × RawSet). IsSetName e.0) m

add_param-IsSets :
    (name param v : Text) (m : List (Text × RawSet))
    → IsSetName name
    → IsSets m
    → IsSets (add_param name param v m)
unfolding add_param insert
add_param-IsSets name param v m is (h, t) = (
  insert-IsMap name (insert param v (or_empty (lookup name m))) m h,
  (is, delete-All IsSetName name m t),
)

collect-IsSets :
    (labels : List (Text × Text)) (d : List (Text × RawSet) × List LabelError)
    → IsSets d.0
    → IsSets (collect labels d).0
unfolding collect
collect-IsSets [] d h = h
collect-IsSets ((k, v) ∷ labels) d h =
    collect-IsSets labels (collect_key (label_key k) k v d)
      (round (label_key k) (label_key-Spells k))
  where
    round : (key : LabelKey) → Spells k key → IsSets (collect_key key k v d).0
    round other s = h
    round no_param s = h
    round no_name s = h
    round (param_of name param) (_, is) = add_param-IsSets name param v d.0 is h

-- The values of the labels of a rule set, by parameter.
abbrev pub label_value : List (Text × Text) → Text → Text → Option Text
label_value labels name param = lookup (key_of name param) labels

none_left : (o : Option Text) → or_value o none ≡ o
none_left none = refl
none_left (some v) = refl

module _ (labels : List (Text × Text)) (unique : IsMap labels) where
  abbrev sets : List (Text × RawSet)
  sets = (collect labels ([], [])).0

  collected :
      (name param : Text)
      → IsSetName name
      → param_value name param sets ≡ label_value labels name param
  unfolding lookup
  collected name param is =
      collect-param_value name param is labels ([], []) unique
      ∙ none_left (lookup (key_of name param) labels)

  module _ (u : Unicode) (net : NetParser) (is : IsParser net)
      (parse_schedule : Text → Outcome ScheduleError Window)
      (ends : (s : Text) → parse_schedule s ≢ out_of_fuel) where
    -- A rule set that its labels spell.
    abbrev pub FromLabels : FirewallRuleSet → Type 0
    FromLabels rs =
        IsSetName rs.name
        × InBounds rs
        × ((errs : List LabelError) × (parse_rule_set u net parse_schedule rs.name
                (label_value labels rs.name)
              ≡ ok (rs, errs)))

    raw-value :
        (name : Text) (raw : RawSet)
        → IsSetName name
        → lookup name sets ≡ some raw
        → (λ p. lookup p raw) ≡ label_value labels name
    raw-value name raw is e =
        λ i param. (ap (λ o. lookup param (or_empty o)) (sym e) ∙ collected name param is) i

    one-set :
        (name : Text) (raw : RawSet)
        → IsSetName name
        → lookup name sets ≡ some raw
        → (rs : FirewallRuleSet) × (errs : List LabelError) × (parse_rule_set u net parse_schedule
              name
              (λ p. lookup p raw)
            ≡ ok (rs, errs))
          × (rs.name ≡ name)
          × FromLabels rs
    one-set name raw named e =
        go (parse_rule_set u net parse_schedule name (λ p. lookup p raw)) refl
          (parse_rule_set-InBounds u net is parse_schedule ends name (λ p. lookup p raw))
      where
        go :
            (m : Outcome ⊥ (FirewallRuleSet × List LabelError))
            → parse_rule_set u net parse_schedule name (λ p. lookup p raw) ≡ m
            → Delivers
                (λ (q : FirewallRuleSet × List LabelError). (q.0.name ≡ name) × InBounds q.0)
                m
            → (rs : FirewallRuleSet) × (errs : List LabelError) × (m ≡ ok (rs, errs))
              × (rs.name ≡ name)
              × FromLabels rs
        go (err x) eq d = absurd x
        go out_of_fuel eq d = absurd (Delivers-total d refl)
        go (ok (rs, errs)) eq (delivers (same, bounds)) = (
          rs,
          errs,
          refl,
          same,
          (
            subst IsSetName (sym same) named,
            bounds,
            (
              errs,
              subst
                  (λ n.
                    parse_rule_set u net parse_schedule n (label_value labels n) ≡ ok (rs, errs))
                  (sym same)
                  (ap (parse_rule_set u net parse_schedule name) (sym (raw-value name raw named e))
                    ∙ eq),
            ),
          ),
        )

    parse_sets-FromLabels :
        (m : List (Text × RawSet))
        → All (λ (e : Text × RawSet). IsSetName e.0 × (lookup e.0 sets ≡ some e.1)) m
        → (rss : List FirewallRuleSet) × (errs : List LabelError) × (parse_sets u net parse_schedule
              m
            ≡ ok (rss, errs))
          × All FromLabels rss
          × (map (λ (rs : FirewallRuleSet). rs.name) rss ≡ keys m)
    unfolding parse_sets keys
    parse_sets-FromLabels [] h = ([], [], refl, tt, refl)
    parse_sets-FromLabels ((name, raw) ∷ m) ((named, e), t) =
        let (rs, errs, eq, same, from) = one-set name raw named e in
        let (rss, more, eqs, froms, names) = parse_sets-FromLabels m t in
        (rs ∷ rss, errs ++ more, rw (eq, eqs) refl, (from, froms), rw (same, names) refl)

    named-All :
        (m m' : List (Text × RawSet))
        → All (λ (e : Text × RawSet). IsSetName e.0) m
        → SameMap m m'
        → All (λ (e : Text × RawSet). IsSetName e.0 × (lookup e.0 m ≡ some e.1)) m'
    named-All m m' names (is_map, same) = go m' (entries-lookup m' is_map)
      where
        go :
            (l : List (Text × RawSet))
            → All (λ (e : Text × RawSet). lookup e.0 m' ≡ some e.1) l
            → All (λ (e : Text × RawSet). IsSetName e.0 × (lookup e.0 m ≡ some e.1)) l
        go [] t = tt
        go ((name, raw) ∷ l) (e, t) =
            let found : lookup name m ≡ some raw = sym (same name) ∙ e in
            ((lookup-All IsSetName m name raw names found, found), go l t)

    has-set :
        (name param v : Text) (m : List (Text × RawSet))
        → param_value name param m ≡ some v
        → is_some (lookup name m) ≡ true
    unfolding lookup
    has-set name param v m e = go (lookup name m) e
      where
        go : (o : Option RawSet) → lookup param (or_empty o) ≡ some v → is_some o ≡ true
        go none h = cc
        go (some raw) h = refl

    named-set :
        (m' : List (Text × RawSet)) (name param v : Text)
        → SameMap sets m'
        → IsSetName name
        → label_value labels name param ≡ some v
        → Mention name (keys m')
    named-set m' name param v (_, same) named e = (contains_iff (keys m') name).0 (
        contains-keys name m'
        ∙ (ap is_some (same name) ∙ has-set name param v sets (collected name param named ∙ e)))

    -- Whatever the orders in which the maps are walked, when the keys of the labels differ and the
    -- parsers of addresses and schedules end with values of their types: parsing the labels ends,
    -- each rule set is the one that the labels with its name spell, within the bounds, and each name
    -- that the labels spell has one.
    pub parse_labels_lem :
        (range_sets : List (Text × RawSet) → List (Text × RawSet))
        → ((m : List (Text × RawSet)) → IsMap m → SameMap m (range_sets m))
        → (cfg : ContainerConfig) × (errs : List LabelError) × (parse_labels u net parse_schedule
              range_sets labels
            ≡ ok (cfg, errs))
          × All FromLabels cfg.rule_sets
          × ((name param v : Text)
              → IsSetName name
              → label_value labels name param ≡ some v
              → Mention name (map (λ (rs : FirewallRuleSet). rs.name) cfg.rule_sets))
    unfolding parse_labels
    parse_labels_lem range_sets ranges =
        let (is_map, names) = collect-IsSets labels ([], []) (tt, tt) in
        let same = ranges sets is_map in
        let (rss, errs, eq, froms, keys_eq) =
          parse_sets-FromLabels (range_sets sets) (named-All sets (range_sets sets) names same) in
        (
          config_of u net parse_schedule labels rss,
          (policy_of u net parse_schedule (lookup (codes "firefik.defaultpolicy") labels)).1
              ++ ((collect labels ([], [])).1 ++ errs),
          rw eq refl,
          froms,
          λ name param v named e.
              subst (Mention name) (sym keys_eq)
                (named-set (range_sets sets) name param v same named e),
        )
