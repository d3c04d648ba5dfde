-- ===== src/Rules/Merge/Files.antt =====
-- What the rules file adds to a container's configuration.
use firefik.Prelude.{
  Bool, true, false, not, ◌&&◌, ◌||◌, ◌≡◌, refl, sym, ap, ◌∙◌, List, [], ◌∷◌, ◌++◌, append_assoc,
  append-nil, Text, text_eq, contains, if◌then◌else◌,
}
use firefik.Docker.RuleSet.{NetParser, FirewallRuleSet, ContainerConfig}
use firefik.Rules.Merge.{
  FileRuleSet, file_rule_set, merge_rule, merge_rules, merge_file_rules, set_names,
}
use firefik.Strings.{is_empty}

-- The rules of the container.
abbrev pub rules_for : Text → List FileRuleSet → List FileRuleSet
rules_for name [] = []
rules_for name (fr ∷ frs) =
    if text_eq fr.container name then fr ∷ rules_for name frs else rules_for name frs

-- The first policy that is not empty.
abbrev pub first_policy : Text → List FileRuleSet → Text
first_policy policy [] = policy
first_policy policy (fr ∷ frs) =
    first_policy (if is_empty policy then fr.default_policy else policy) frs

abbrev pub has_any {ℓ} : {A : Type ℓ} → List A → Bool
has_any xs = not (is_empty xs)

module _ (net : NetParser) where
  -- A rule set for each rule whose name the labels have not used.
  abbrev pub sets_for : List Text → List FileRuleSet → List FirewallRuleSet
  sets_for existing [] = []
  sets_for existing (fr ∷ frs) =
      if contains existing fr.name
      then sets_for existing frs
      else file_rule_set net fr ∷ sets_for existing frs

  unfoldable Merged : List Text → List FileRuleSet → ContainerConfig → ContainerConfig → Type 0
  Merged existing mine cfg cfg' =
      (cfg'.enable ≡ (cfg.enable || has_any mine))
      × (cfg'.default_policy ≡ first_policy cfg.default_policy mine)
      × (cfg'.no_auto_allowlist ≡ cfg.no_auto_allowlist)
      × (cfg'.rule_sets ≡ cfg.rule_sets ++ sets_for existing mine)

  or_false : (b : Bool) → b ≡ (b || false)
  or_false true = refl
  or_false false = refl

  or_true : (b : Bool) → true ≡ (b || true)
  or_true true = refl
  or_true false = refl

  policy_pick :
      (c f : Text)
      → (if not (is_empty f) && is_empty c then f else c) ≡ (if is_empty c then f else c)
  policy_pick [] [] = refl
  policy_pick [] (x ∷ f) = refl
  policy_pick (x ∷ c) [] = refl
  policy_pick (x ∷ c) (y ∷ f) = refl

  sets_join :
      (known : Bool) (old : List FirewallRuleSet) (rs : FirewallRuleSet)
      (more : List FirewallRuleSet)
      → (if known then old else old ++ rs ∷ []) ++ more ≡ old ++ (if known then more else rs ∷ more)
  sets_join true old rs more = refl
  sets_join false old rs more = append_assoc old (rs ∷ []) more

  -- A rule of the file, of this container or not, before the others.
  merge-one :
      (existing : List Text) (fr : FileRuleSet) (mine : Bool) (rest : List FileRuleSet)
      (cfg cfg' : ContainerConfig)
      → Merged existing rest (if not mine then cfg else merge_rule net existing fr cfg) cfg'
      → Merged existing (if mine then fr ∷ rest else rest) cfg cfg'
  unfolding Merged merge_rule
  merge-one existing fr false rest cfg cfg' h = h
  merge-one existing fr true rest cfg cfg' (e, p, a, s) = (
    e ∙ or_true cfg.enable,
    p ∙ ap (λ q. first_policy q rest) (policy_pick cfg.default_policy fr.default_policy),
    a,
    s
        ∙ sets_join (contains existing fr.name) cfg.rule_sets (file_rule_set net fr)
            (sets_for existing rest),
  )

  merge-Merged :
      (existing : List Text) (name : Text) (frs : List FileRuleSet) (cfg : ContainerConfig)
      → Merged existing (rules_for name frs) cfg (merge_rules net existing name frs cfg)
  unfolding merge_rules Merged
  merge-Merged existing name [] cfg =
      (or_false cfg.enable, refl, refl, sym (append-nil cfg.rule_sets))
  merge-Merged existing name (fr ∷ frs) cfg =
      merge-one existing fr (text_eq fr.container name) (rules_for name frs) cfg _
        (merge-Merged existing name frs _)

  -- Merging the rules file enables a container that has a rule there, takes the first default policy
  -- that is not empty, its own before the file's, keeps the rest, and adds a rule set for each of
  -- its rules whose name its own rule sets had not.
  pub merge_file_rules_lem :
      (cfg : ContainerConfig) (name : Text) (frs : List FileRuleSet)
      → ((merge_file_rules net cfg name frs).enable ≡ (cfg.enable || has_any (rules_for name frs)))
        × ((merge_file_rules net cfg name frs).default_policy
            ≡ first_policy cfg.default_policy (rules_for name frs))
        × ((merge_file_rules net cfg name frs).no_auto_allowlist ≡ cfg.no_auto_allowlist)
        × ((merge_file_rules net cfg name frs).rule_sets
            ≡ cfg.rule_sets ++ sets_for (set_names net cfg.rule_sets) (rules_for name frs))
  unfolding merge_file_rules Merged
  merge_file_rules_lem cfg name frs = merge-Merged (set_names net cfg.rule_sets) name frs cfg
