-- ===== src/Docker/Labels/Maps.antt =====
-- Association lists without a key that stands twice, as Go's maps are.
use firefik.Prelude.{
  ◌≡◌, refl, sym, ap, subst, ◌∙◌, true, false, none, some, List, [], ◌∷◌, All, Text, text_eq,
  text_eq_iff, text_eq_refl, lookup, insert, delete, lookup-delete, lookup-delete_other, Bool-cases,
  ◌⊎◌, inl, inr,
}

-- No key stands twice, as in a map.
abbrev pub IsMap {ℓ} : {A : Type ℓ} → List (Text × A) → Type ℓ
IsMap [] = Unit
IsMap ((k, v) ∷ m) = (lookup k m ≡ none) × IsMap m

module _ {ℓ} {A : Type ℓ} where
  delete-IsMap : (k : Text) (m : List (Text × A)) → IsMap m → IsMap (delete k m)
  unfolding delete
  delete-IsMap k [] h = tt
  delete-IsMap k ((j, a) ∷ m) (fresh, h) = elim (Bool-cases (text_eq j k)) [
    | inl same ↦ rw same (delete-IsMap k m h)
    | inr different ↦ rw different (absent (Bool-cases (text_eq k j)), delete-IsMap k m h)
  ]
    where
      absent : (text_eq k j ≡ true) ⊎ (text_eq k j ≡ false) → lookup j (delete k m) ≡ none
      absent (inl same) =
          subst (λ i. lookup i (delete k m) ≡ none) ((text_eq_iff k j).0 same) (lookup-delete k m)
      absent (inr apart) = lookup-delete_other k j m apart ∙ fresh

  pub insert-IsMap : (k : Text) (a : A) (m : List (Text × A)) → IsMap m → IsMap (insert k a m)
  unfolding insert
  insert-IsMap k a m h = (lookup-delete k m, delete-IsMap k m h)

  -- The entries of a map are found under their keys.
  pub entries-lookup :
      (m : List (Text × A)) → IsMap m → All (λ (e : Text × A). lookup e.0 m ≡ some e.1) m
  unfolding lookup
  entries-lookup [] h = tt
  entries-lookup ((k, a) ∷ m) (fresh, h) = (rw (text_eq_refl k) refl, weaken m (entries-lookup m h))
    where
      weaken :
          (l : List (Text × A))
          → All (λ (e : Text × A). lookup e.0 m ≡ some e.1) l
          → All (λ (e : Text × A). lookup e.0 ((k, a) ∷ m) ≡ some e.1) l
      weaken [] t = tt
      weaken ((j, b) ∷ l) (e, t) = (found (Bool-cases (text_eq k j)), weaken l t)
        where
          found : (text_eq k j ≡ true) ⊎ (text_eq k j ≡ false) → lookup j ((k, a) ∷ m) ≡ some b
          found (inl same) =
              let no : none ≡ some b =
                sym fresh ∙ (ap (λ i. lookup i m) ((text_eq_iff k j).0 same) ∙ e) in
              cc
          found (inr apart) = rw apart e

  pub lookup-All :
      (P : Text → Type 0) (m : List (Text × A)) (k : Text) (a : A)
      → All (λ (e : Text × A). P e.0) m
      → lookup k m ≡ some a
      → P k
  unfolding lookup
  lookup-All P [] k a h e = cc
  lookup-All P ((j, b) ∷ m) k a (h, t) e = elim (Bool-cases (text_eq j k)) [
    | inl same ↦ subst P ((text_eq_iff j k).0 same) h
    | inr apart ↦ lookup-All P m k a t (rw apart at e)
  ]

  pub delete-All :
      (P : Text → Type 0) (k : Text) (m : List (Text × A))
      → All (λ (e : Text × A). P e.0) m
      → All (λ (e : Text × A). P e.0) (delete k m)
  unfolding delete
  delete-All P k [] h = tt
  delete-All P k ((j, a) ∷ m) (h, t) = elim (Bool-cases (text_eq j k)) [
    | inl same ↦ rw same (delete-All P k m t)
    | inr apart ↦ rw apart (h, delete-All P k m t)
  ]
