-- ===== src/Docker/Labels/Collect.antt =====
-- The loop over the labels: the parameters of a rule set are the values of its labels.
use firefik.Prelude.{
  ◌≡◌, refl, sym, ap, subst, ◌∙◌, false, Option, none, some, List, [], ◌∷◌, ◌++◌, Text, text_eq,
  text_eq_iff, lookup, insert, lookup-insert, lookup-insert_other, Bool-cases, inl, inr,
}
use firefik.Strings.{is_empty, behind, cut}
use firefik.Strings.Pieces.{Lacks, IsCut, cut-append, cut-IsCut, behind-append, behind-eq}
use firefik.Docker.Labels.Maps.{IsMap}
use firefik.Docker.Labels.{
  LabelError, firewall_prefix, RawSet, or_empty, LabelKey, other, no_param, no_name, param_of,
  set_and_param, key_behind, label_key, add_param, collect_key, collect,
}

-- The label of a parameter.
abbrev pub key_of : Text → Text → Text
key_of name param = firewall_prefix ++ (name ++ b'.' ∷ param)

-- The names that a label can spell: not empty, and without a dot.
abbrev pub IsSetName : Text → Type 0
IsSetName name = (is_empty name ≡ false) × Lacks b'.' name

pub label_key-key_of :
    (name param : Text) → IsSetName name → label_key (key_of name param) ≡ param_of name param
unfolding label_key
label_key-key_of [] param (h, _) = cc
label_key-key_of (c ∷ cs) param (_, h) =
    ap key_behind (behind-append firewall_prefix ((c ∷ cs) ++ b'.' ∷ param))
    ∙ ap set_and_param (cut-append b'.' (c ∷ cs) param h)

-- A key that names a rule set and a parameter is the label of that parameter.
abbrev pub Spells : Text → LabelKey → Type 0
Spells k (param_of name param) = (k ≡ key_of name param) × IsSetName name
Spells k _ = Unit

cut-Spells :
    (k rest : Text) → k ≡ firewall_prefix ++ rest → Spells k (set_and_param (cut b'.' rest))
cut-Spells k rest e = go (cut b'.' rest) (cut-IsCut b'.' rest)
  where
    go : (o : Option (Text × Text)) → IsCut b'.' rest o → Spells k (set_and_param o)
    go none h = tt
    go (some ([], param)) h = tt
    go (some (c ∷ cs, param)) (is, lacks) = (e ∙ ap (λ t. firewall_prefix ++ t) is, (refl, lacks))

pub label_key-Spells : (k : Text) → Spells k (label_key k)
unfolding label_key
label_key-Spells k = go (behind firewall_prefix k) refl
  where
    go : (o : Option Text) → behind firewall_prefix k ≡ o → Spells k (key_behind o)
    go none e = tt
    go (some rest) e = cut-Spells k rest (behind-eq firewall_prefix k rest e)

-- The value of a parameter in the map of the rule sets.
abbrev pub param_value : Text → Text → List (Text × RawSet) → Option Text
param_value name param sets = lookup param (or_empty (lookup name sets))

module _ (name param v : Text) (sets : List (Text × RawSet)) where
  param_value-add_param : param_value name param (add_param name param v sets) ≡ some v
  unfolding add_param
  param_value-add_param =
      rw (lookup-insert name (insert param v (or_empty (lookup name sets))) sets)
        (lookup-insert param v (or_empty (lookup name sets)))

  param_value-add_other :
      (name' param' : Text)
      → (name ≡ name' → param ≡ param' → ⊥)
      → param_value name' param' (add_param name param v sets) ≡ param_value name' param' sets
  unfolding add_param
  param_value-add_other name' param' apart = elim (Bool-cases (text_eq name name')) [
    | inr other_name ↦
        rw
          (lookup-insert_other name name' (insert param v (or_empty (lookup name sets))) sets
            other_name)
          refl
    | inl same_name ↦ elim (Bool-cases (text_eq param param')) [
      | inl same_param ↦
          absurd
            (apart ((text_eq_iff name name').0 same_name) ((text_eq_iff param param').0 same_param))
      | inr other_param ↦
          subst
            (λ n.
              param_value n param' (insert name (insert param v (or_empty (lookup name sets))) sets)
              ≡ param_value n param' sets)
            ((text_eq_iff name name').0 same_name)
            (rw (lookup-insert name (insert param v (or_empty (lookup name sets))) sets)
              (lookup-insert_other param param' v (or_empty (lookup name sets)) other_param))
    ]
  ]

abbrev pub or_value : Option Text → Option Text → Option Text
or_value none d = d
or_value (some v) d = some v

module _ (name param : Text) (is : IsSetName name) where
  round-other :
      (key : LabelKey) (k v : Text) (d : List (Text × RawSet) × List LabelError)
      → (key ≡ param_of name param → ⊥)
      → param_value name param (collect_key key k v d).0 ≡ param_value name param d.0
  round-other other k v d h = refl
  round-other no_param k v d h = refl
  round-other no_name k v d h = refl
  round-other (param_of n p) k v d h =
      param_value-add_other n p v d.0 name param (λ e e'. h (rw (e, e') refl))

  key-apart :
      (k : Text) → text_eq k (key_of name param) ≡ false → label_key k ≡ param_of name param → ⊥
  key-apart k h e =
      let (is_key, _) = subst (Spells k) e (label_key-Spells k) in
      let same = (text_eq_iff k (key_of name param)).1 is_key in cc

  -- The parameters that are collected from a map of labels are the values of its labels.
  pub collect-param_value :
      (labels : List (Text × Text)) (d : List (Text × RawSet) × List LabelError)
      → IsMap labels
      → param_value name param (collect labels d).0
        ≡ or_value (lookup (key_of name param) labels) (param_value name param d.0)
  unfolding collect lookup
  collect-param_value [] d h = refl
  collect-param_value ((k, v) ∷ labels) d (fresh, h) =
      elim (Bool-cases (text_eq k (key_of name param))) [
        | inl same ↦
            let eq = (text_eq_iff k (key_of name param)).0 same in
            let absent : lookup (key_of name param) labels ≡ none =
              subst (λ j. lookup j labels ≡ none) eq fresh in
            let key : label_key k ≡ param_of name param =
              subst (λ j. label_key j ≡ param_of name param) (sym eq)
                (label_key-key_of name param is) in
            rw (same, collect-param_value labels (collect_key (label_key k) k v d) h, absent, key)
              (param_value-add_param name param v d.0)
        | inr different ↦
            rw (different, collect-param_value labels (collect_key (label_key k) k v d) h)
              (ap (or_value (lookup (key_of name param) labels))
                (round-other (label_key k) k v d (key-apart k different)))
      ]
