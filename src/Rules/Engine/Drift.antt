-- ===== src/Rules/Engine/Drift.antt =====
-- The drift between the kernel and the engine's memory, and `Rehydrate`.
use firefik.Prelude.{
  Bool, true, false, not, ◌&&◌, ◌||◌, ◌≡◌, refl, ◌∙◌, ap, subst, Option, none, some, List, [], ◌∷◌,
  Text, text_eq, text_eq_iff, text_eq_ne, Option-cases, contains, lookup, insert, keys, is_some,
  contains-keys, lookup-insert, lookup-insert_other, Bool-cases, inl, inr, if◌then◌else◌, arith,
}
use firefik.Docker.RuleSet.{ContainerConfig}
use firefik.Rules.Engine.{Backend, Engine, Settings, EngineError, rehydrate_failed, empty_config}
use firefik.Strings.{is_empty}

pub record DriftReport : Type 0 where
  pub orphan_ids : List Text
  pub missing_ids : List Text

unfoldable pub has_drift : DriftReport → Bool
has_drift r = not (is_empty r.orphan_ids) || not (is_empty r.missing_ids)

-- The elements of the first list that are not in the second: the loops of `CheckDrift`. The order, and
-- how often the kernel names a chain, are not kept by Go's sets.
unfoldable pub without : List Text → List Text → List Text
without [] ys = []
without (x ∷ xs) ys = let rest = without xs ys in if contains ys x then rest else x ∷ rest

unfoldable pub drift_of : List Text → List Text → DriftReport
unfolding without
drift_of kernel memory = record {
  orphan_ids = without kernel memory;
  missing_ids = without memory kernel;
}

-- The identifiers that the engine does not know yet get an empty configuration.
unfoldable pub adopt : List Text → List (Text × ContainerConfig) → List (Text × ContainerConfig)
adopt [] m = m
adopt (id ∷ ids) m = adopt ids (if is_some (lookup id m) then m else insert id empty_config m)

module _ {K : Type 0} (c : Settings K) where
  unfoldable pub check_drift : Engine K → Option DriftReport
  unfolding drift_of
  check_drift s = elim (c.backend.list_applied_container_ids s.kernel) [
    | none ↦ none
    | some ids ↦ some (drift_of ids (keys s.applied))
  ]

  -- The second backend's error is only logged.
  unfoldable pub adopt_ip6 :
      Option (Backend K) → K → List (Text × ContainerConfig) → List (Text × ContainerConfig)
  unfolding adopt
  adopt_ip6 none k m = m
  adopt_ip6 (some b) k m = elim (b.list_applied_container_ids k) [
    | none ↦ m
    | some ids ↦ adopt ids m
  ]

  unfoldable pub rehydrate : Engine K → Engine K × Option EngineError
  unfolding adopt_ip6
  rehydrate s = elim (c.backend.list_applied_container_ids s.kernel) [
    | none ↦ (s, some rehydrate_failed)
    | some ids ↦
        (record s { applied = adopt_ip6 c.ip6backend s.kernel (adopt ids s.applied) }, none)
  ]

contains-without :
    (xs ys : List Text) (x : Text)
    → contains (without xs ys) x ≡ (contains xs x && not (contains ys x))
unfolding without contains
contains-without [] ys x = refl
contains-without (y ∷ xs) ys x = elim (Bool-cases (contains ys y)) [
  | inl d ↦
      rw d (contains-without xs ys x ∙ gone (text_eq y x) (contains xs x) (contains ys x) (same d))
  | inr d ↦ rw d (
      ap (◌||◌ (text_eq y x)) (contains-without xs ys x)
      ∙ kept (text_eq y x) (contains xs x) (contains ys x) (same d))
]
  where
    same : {b : Bool} → contains ys y ≡ b → text_eq y x ≡ true → contains ys x ≡ b
    same {b} d e = subst (λ z. contains ys z ≡ b) ((text_eq_iff y x).0 e) d

    gone : (a b dx : Bool) → (a ≡ true → dx ≡ true) → (b && not dx) ≡ ((a || b) && not dx)
    gone true b dx h = rw (h refl) (ground arith)
    gone false b dx h = refl

    kept : (a b dx : Bool) → (a ≡ true → dx ≡ false) → (a || (b && not dx)) ≡ ((a || b) && not dx)
    kept true b dx h = rw (h refl) refl
    kept false b dx h = refl

-- When the kernel's chains can be listed, an identifier is an orphan exactly if the kernel has it
-- and the engine does not, and missing exactly if the engine has it and the kernel does not.
pub drift_lem :
    {K : Type 0} (c : Settings K) (s : Engine K) (ids : List Text) (id : Text)
    → c.backend.list_applied_container_ids s.kernel ≡ some ids
    → (r : DriftReport) × (check_drift c s ≡ some r)
      × (contains r.orphan_ids id ≡ (contains ids id && not (is_some (lookup id s.applied))))
      × (contains r.missing_ids id ≡ (is_some (lookup id s.applied) && not (contains ids id)))
unfolding check_drift drift_of
drift_lem c s ids id h = (
  drift_of ids (keys s.applied),
  rw (h, check_drift) refl,
  contains-without ids (keys s.applied) id
      ∙ ap (λ b. contains ids id && not b) (contains-keys id s.applied),
  contains-without (keys s.applied) ids id
      ∙ ap (λ b. b && not (contains ids id)) (contains-keys id s.applied),
)

-- What the engine knows stays as it is, and what it adopts is found.
adopt-lookup :
    (ids : List Text) (m : List (Text × ContainerConfig)) (k : Text) (v : ContainerConfig)
    → lookup k m ≡ some v
    → lookup k (adopt ids m) ≡ some v
unfolding adopt
adopt-lookup [] m k v h = h
adopt-lookup (id ∷ ids) m k v h = adopt-lookup ids _ k v (elim (Option-cases (lookup id m)) [
  | inr (w, e) ↦ rw e h
  | inl e ↦ rw e (lookup-insert_other id k empty_config m (text_eq_ne id k λ is. cc) ∙ h)
])

-- One round of the loop.
abbrev adopt_one : Text → List (Text × ContainerConfig) → List (Text × ContainerConfig)
adopt_one id m = if is_some (lookup id m) then m else insert id empty_config m

adopt_one-lookup :
    (id : Text) (m : List (Text × ContainerConfig))
    → (v : ContainerConfig) × (lookup id (adopt_one id m) ≡ some v)
adopt_one-lookup id m = elim (Option-cases (lookup id m)) [
  | inl e ↦ (empty_config, rw e (lookup-insert id empty_config m))
  | inr (v, e) ↦ (v, rw e e)
]

adopt-all :
    (ids : List Text) (m : List (Text × ContainerConfig)) (k : Text)
    → contains ids k ≡ true
    → is_some (lookup k (adopt ids m)) ≡ true
unfolding adopt contains
adopt-all [] m k h = cc
adopt-all (id ∷ ids) m k h = elim (Bool-cases (text_eq id k)) [
  | inl same ↦
      let (v, e) = adopt_one-lookup id m in
      ap is_some (
        adopt-lookup ids (adopt_one id m) k v
          (subst (λ j. lookup j (adopt_one id m) ≡ some v) ((text_eq_iff id k).0 same) e))
  | inr other ↦ adopt-all ids (adopt_one id m) k (rw other at h)
]

-- With one backend, whose chains can be listed, a rehydration succeeds, keeps the configurations
-- that the engine has, and leaves none of the kernel's containers unknown.
pub rehydrate_lem :
    {K : Type 0} (c : Settings K) (s : Engine K) (ids : List Text)
    → c.backend.list_applied_container_ids s.kernel ≡ some ids
    → c.ip6backend ≡ none
    → (s' : Engine K) × (rehydrate c s ≡ (s', none))
      × ((k : Text) (v : ContainerConfig)
          → lookup k s.applied ≡ some v
          → lookup k s'.applied ≡ some v)
      × ((k : Text) → contains ids k ≡ true → is_some (lookup k s'.applied) ≡ true)
unfolding adopt_ip6 rehydrate
rehydrate_lem c s ids h single = (
  record s { applied = adopt ids s.applied },
  rw (h, single, rehydrate) refl,
  adopt-lookup ids s.applied,
  adopt-all ids s.applied,
)
