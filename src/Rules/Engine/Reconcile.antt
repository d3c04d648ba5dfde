-- ===== src/Rules/Engine/Reconcile.antt =====
-- Which containers the engine holds applied after `Reconcile`.
use firefik.Prelude.{
  true, false, ◌≡◌, refl, sym, subst, ap, ◌∙◌, Option, none, List, [], ◌∷◌, Text, text_eq,
  text_eq_iff, text_eq_ne, contains, lookup, delete, keys, is_some, contains-keys, lookup-delete,
  lookup-delete_other, Bool-cases, Option-cases, if_ind, inl, inr,
}
use firefik.Docker.RuleSet.{Ip, ContainerConfig, ContainerInfo}
use firefik.Rules.Engine.{
  Engine, Settings, EngineError, apply_container_inner, remove_chains, apply_all, remove_one,
  remove_unseen, seen_of, reconcile,
}
use firefik.Rules.Engine.Apply.{apply-Applies, Applies-keeps}

module _ {K : Type 0} (show : Ip → Text) (c : Settings K) where
  -- Removal touches no other container.
  remove_chains-other :
      (id k : Text) (s : Engine K)
      → text_eq id k ≡ false
      → lookup k (remove_chains show c id s).0.applied ≡ lookup k s.applied
  unfolding remove_chains
  remove_chains-other id k s h =
      if_ind (λ (r : Engine K × Option EngineError). lookup k (r.0).applied ≡ lookup k s.applied)
        ((c.backend.remove_container_chains id s.kernel).1) {x = _} {y = _}
        (λ _. lookup-delete_other id k s.applied h) (λ _. refl)

  remove_chains-none :
      (id k : Text) (s : Engine K)
      → lookup k s.applied ≡ none
      → lookup k (remove_chains show c id s).0.applied ≡ none
  unfolding remove_chains
  remove_chains-none id k s h =
      if_ind (λ (r : Engine K × Option EngineError). lookup k (r.0).applied ≡ none)
        ((c.backend.remove_container_chains id s.kernel).1) {x = _} {y = _} (λ _. delete-none)
        (λ _. h)
    where
      delete-none : lookup k (delete id s.applied) ≡ none
      delete-none = elim (Bool-cases (text_eq id k)) [
        | inl same ↦ rw (sym ((text_eq_iff id k).0 same)) (lookup-delete id s.applied)
        | inr other ↦ lookup-delete_other id k s.applied other ∙ h
      ]

  remove_chains-gone :
      (id : Text) (s : Engine K)
      → (c.backend.remove_container_chains id s.kernel).1 ≡ true
      → lookup id (remove_chains show c id s).0.applied ≡ none
  unfolding remove_chains
  remove_chains-gone id s h = rw h (lookup-delete id s.applied)

  one-none :
      (seen : List Text) (id k : Text) (s : Engine K)
      → lookup k s.applied ≡ none
      → lookup k (remove_one show c seen id s).applied ≡ none
  unfolding remove_one
  one-none seen id k s h =
      if_ind (λ (t : Engine K). lookup k t.applied ≡ none) (contains seen id) {x = s}
        {y = (remove_chains show c id s).0} (λ _. h) (λ _. remove_chains-none id k s h)

  unseen-none :
      (seen ids : List Text) (k : Text) (s : Engine K)
      → lookup k s.applied ≡ none
      → lookup k (remove_unseen show c seen ids s).applied ≡ none
  unfolding remove_unseen
  unseen-none seen [] k s h = h
  unseen-none seen (id ∷ ids) k s h =
      unseen-none seen ids k (remove_one show c seen id s) (one-none seen id k s h)

  unseen-gone :
      ((id : Text) (k : K) → (c.backend.remove_container_chains id k).1 ≡ true)
      → (seen ids : List Text) (k : Text) (s : Engine K) → contains ids k ≡ true
      → contains seen k ≡ false
      → lookup k (remove_unseen show c seen ids s).applied ≡ none
  unfolding remove_unseen contains
  unseen-gone fine seen [] k s h unseen = cc
  unseen-gone fine seen (id ∷ ids) k s h unseen = elim (Bool-cases (text_eq id k)) [
    | inl same ↦ unseen-none seen ids k (remove_one show c seen id s) (
        subst (λ j. lookup j (remove_one show c seen id s).applied ≡ none)
          ((text_eq_iff id k).0 same)
          (one-gone
            (subst (λ j. contains seen j ≡ false) (sym ((text_eq_iff id k).0 same)) unseen)))
    | inr other ↦ unseen-gone fine seen ids k (remove_one show c seen id s) (rw other at h) unseen
  ]
    where
      one-gone : contains seen id ≡ false → lookup id (remove_one show c seen id s).applied ≡ none
      one-gone u =
          if_ind (λ (t : Engine K). lookup id t.applied ≡ none) (contains seen id) {x = s}
            {y = (remove_chains show c id s).0} (λ v. cc)
            (λ _. remove_chains-gone id s (fine id s.kernel))

  unseen-kept :
      (seen ids : List Text) (k : Text) (s : Engine K)
      → contains seen k ≡ true
      → lookup k (remove_unseen show c seen ids s).applied ≡ lookup k s.applied
  unfolding remove_unseen
  unseen-kept seen [] k s h = refl
  unseen-kept seen (id ∷ ids) k s h =
      unseen-kept seen ids k (remove_one show c seen id s) h ∙ one-kept
    where
      differs : contains seen id ≡ false → id ≡ k → ⊥
      differs gone e = let there = subst (λ j. contains seen j ≡ true) (sym e) h in cc

      one-kept : lookup k (remove_one show c seen id s).applied ≡ lookup k s.applied
      one-kept =
          if_ind (λ (t : Engine K). lookup k t.applied ≡ lookup k s.applied) (contains seen id)
            {x = s} {y = (remove_chains show c id s).0} (λ _. refl)
            (λ gone. remove_chains-other id k s (text_eq_ne id k (differs gone)))

  apply_all-keeps :
      (ctrs : List (ContainerInfo × ContainerConfig)) (k : Text) (s : Engine K)
      → is_some (lookup k s.applied) ≡ true
      → is_some (lookup k (apply_all show c ctrs s).applied) ≡ true
  unfolding apply_all
  apply_all-keeps [] k s h = h
  apply_all-keeps ((ctr, cfg) ∷ ctrs) k s h = apply_all-keeps ctrs k _ (
      if_ind (λ (t : Engine K). is_some (lookup k t.applied) ≡ true) cfg.enable
        {x = (apply_container_inner show c ctr cfg s).0} {y = s}
        (λ _. Applies-keeps show c (apply-Applies show c ctr cfg s) k h) (λ _. h))

  -- When the removal of chains never fails, a container that was not listed is not applied after a
  -- reconciliation.
  pub reconcile-unseen :
      ((id : Text) (k : K) → (c.backend.remove_container_chains id k).1 ≡ true)
      → (ctrs : List (ContainerInfo × ContainerConfig)) (s : Engine K) (k : Text)
      → contains (seen_of show c ctrs) k ≡ false
      → lookup k (reconcile show c ctrs s).applied ≡ none
  unfolding reconcile
  reconcile-unseen fine ctrs s k unseen = elim (Option-cases (lookup k s'.applied)) [
    | inl e ↦ unseen-none (seen_of show c ctrs) (keys s'.applied) k s' e
    | inr (v, e) ↦
        unseen-gone fine (seen_of show c ctrs) (keys s'.applied) k s'
          (contains-keys k s'.applied ∙ ap is_some e) unseen
  ]
    where
      s' : Engine K
      s' = apply_all show c ctrs s

  -- A container that was applied and is listed again stays applied through a reconciliation,
  -- whatever its configuration says now, its enabling included, and whatever fails.
  pub reconcile-seen :
      (ctrs : List (ContainerInfo × ContainerConfig)) (s : Engine K) (k : Text)
      → contains (seen_of show c ctrs) k ≡ true
      → is_some (lookup k s.applied) ≡ true
      → is_some (lookup k (reconcile show c ctrs s).applied) ≡ true
  unfolding reconcile
  reconcile-seen ctrs s k seen h =
      rw
        (unseen-kept (seen_of show c ctrs) (keys (apply_all show c ctrs s).applied) k
          (apply_all show c ctrs s) seen)
        (apply_all-keeps ctrs k s h)
