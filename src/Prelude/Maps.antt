-- ===== src/Prelude/Maps.antt =====
-- Go's maps with strings for keys, as association lists in which an insertion replaces.
use mathlib.Core.Path.{◌≡◌, refl, sym, ap, ap₂, subst, ◌∙◌}
use mathlib.Core.Bool.{Bool, true, false}
use mathlib.Core.Logic.{inl, inr}
use mathlib.Core.Option.{Option, none, some}
use mathlib.Core.List.{List, [], ◌∷◌}
use firefik.Prelude.Tests.{if◌then◌else◌, if_ind, Bool-cases}
use firefik.Prelude.Lists.{Any}
use firefik.Prelude.Texts.{Text, text_eq, text_eq_iff, text_eq_refl, contains}

module _ {ℓ} {A : Type ℓ} where
  unfoldable pub lookup : Text → List (Text × A) → Option A
  lookup k [] = none
  lookup k ((j, a) ∷ m) = let rest = lookup k m in if text_eq j k then some a else rest

  unfoldable pub delete : Text → List (Text × A) → List (Text × A)
  delete k [] = []
  delete k ((j, a) ∷ m) = let rest = delete k m in if text_eq j k then rest else (j, a) ∷ rest

  unfoldable pub insert : Text → A → List (Text × A) → List (Text × A)
  unfolding delete
  insert k a m = (k, a) ∷ delete k m

  unfoldable pub keys : List (Text × A) → List Text
  keys [] = []
  keys ((j, a) ∷ m) = j ∷ keys m

  pub lookup-delete : (k : Text) (m : List (Text × A)) → lookup k (delete k m) ≡ none
  unfolding lookup delete
  lookup-delete k [] = refl
  lookup-delete k ((j, a) ∷ m) = elim (Bool-cases (text_eq j k)) [
    | inl same ↦ rw same (lookup-delete k m)
    | inr other ↦ rw (other, other) (lookup-delete k m)
  ]

  pub lookup-delete_other :
      (k j : Text) (m : List (Text × A)) → text_eq k j ≡ false → lookup j (delete k m) ≡ lookup j m
  unfolding lookup delete
  lookup-delete_other k j [] h = refl
  lookup-delete_other k j ((i, a) ∷ m) h = elim (Bool-cases (text_eq i k)) [
    | inl same ↦ rw (same, (text_eq_iff i k).0 same, h) (lookup-delete_other k j m h)
    | inr other ↦
        rw other (ap (λ r. if text_eq i j then some a else r) (lookup-delete_other k j m h))
  ]

  pub lookup-insert : (k : Text) (a : A) (m : List (Text × A)) → lookup k (insert k a m) ≡ some a
  unfolding lookup insert
  lookup-insert k a m = rw (text_eq_refl k) refl

  pub lookup-insert_other :
      (k j : Text) (a : A) (m : List (Text × A))
      → text_eq k j ≡ false
      → lookup j (insert k a m) ≡ lookup j m
  unfolding lookup insert
  lookup-insert_other k j a m h = rw h (lookup-delete_other k j m h)

  abbrev pub is_some : Option A → Bool
  is_some none = false
  is_some (some a) = true

  -- The keys of a map are those that are found.
  pub contains-keys : (k : Text) (m : List (Text × A)) → contains (keys m) k ≡ is_some (lookup k m)
  unfolding lookup keys contains
  contains-keys k [] = refl
  contains-keys k ((j, a) ∷ m) = elim (Bool-cases (text_eq j k)) [
    | inl same ↦ rw same refl
    | inr other ↦ rw other (contains-keys k m)
  ]

  -- No key stands twice in the list.
  abbrev pub Unique : List (Text × A) → Type 0
  Unique [] = Unit
  Unique ((k, a) ∷ m) = (is_some (lookup k m) ≡ false) × Unique m

  lookup-delete_none :
      (k j : Text) (m : List (Text × A))
      → is_some (lookup j m) ≡ false
      → is_some (lookup j (delete k m)) ≡ false
  lookup-delete_none k j m h = elim (Bool-cases (text_eq k j)) [
    | inl same ↦
        subst (λ i. is_some (lookup i (delete k m)) ≡ false) ((text_eq_iff k j).0 same)
          (ap is_some (lookup-delete k m))
    | inr other ↦ ap is_some (lookup-delete_other k j m other) ∙ h
  ]

  delete-Unique : (k : Text) (m : List (Text × A)) → Unique m → Unique (delete k m)
  unfolding delete
  delete-Unique k [] h = tt
  delete-Unique k ((j, a) ∷ m) (new, rest) =
      if_ind Unique (text_eq j k) (λ _. delete-Unique k m rest)
        (λ _. (lookup-delete_none k j m new, delete-Unique k m rest))

  pub insert-Unique : (k : Text) (a : A) (m : List (Text × A)) → Unique m → Unique (insert k a m)
  unfolding insert
  insert-Unique k a m h = (ap is_some (lookup-delete k m), delete-Unique k m h)

  -- What stands in a list without repeated keys is what is found under them.
  pub lookup-Any :
      (P : Text × A → Type 0) (k : Text) (a : A) (m : List (Text × A))
      → lookup k m ≡ some a
      → P (k, a)
      → Any P m
  unfolding lookup
  lookup-Any P k a [] h p = absurd (let e = ap is_some h in cc)
  lookup-Any P k a ((j, b) ∷ m) h p = elim (Bool-cases (text_eq j k)) [
    | inl same ↦
        let is : some b ≡ some a = rw same at h in
        let there : a ≡ b = cc in
        inl (subst P (ap₂ (λ i c. (i, c)) (sym ((text_eq_iff j k).0 same)) there) p)
    | inr other ↦ inr (lookup-Any P k a m (rw other at h) p)
  ]

  lookup-behind :
      (k j : Text) (a b : A) (m : List (Text × A))
      → is_some (lookup k m) ≡ false
      → lookup j m ≡ some b
      → lookup j ((k, a) ∷ m) ≡ some b
  unfolding lookup
  lookup-behind k j a b m new is = elim (Bool-cases (text_eq k j)) [
    | inl same ↦
        let found : is_some (lookup k m) ≡ true =
          subst (λ i. is_some (lookup i m) ≡ true) (sym ((text_eq_iff k j).0 same))
            (ap is_some is) in
        absurd (let e = sym found ∙ new in cc)
    | inr other ↦ rw other is
  ]

  pub Any-lookup :
      (P : Text × A → Type 0) (m : List (Text × A))
      → Unique m
      → Any P m
      → (k : Text) × (a : A) × (lookup k m ≡ some a) × P (k, a)
  unfolding lookup
  Any-lookup P [] h ps = absurd ps
  Any-lookup P ((k, a) ∷ m) (new, rest) (inl p) = (k, a, rw (text_eq_refl k) refl, p)
  Any-lookup P ((k, a) ∷ m) (new, rest) (inr ps) =
      let (j, b, is, p) = Any-lookup P m rest ps in (j, b, lookup-behind k j a b m new is, p)
