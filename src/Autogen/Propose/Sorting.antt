-- ===== src/Autogen/Propose/Sorting.antt =====
-- Sorting keeps what stands in a list.
use firefik.Prelude.{Bool, Bool-cases, List, [], ◌∷◌, Any, ◌⊎◌, inl, inr}
use firefik.Autogen.Propose.{insert_sorted, sorted}

module _ {ℓ} {A : Type ℓ} (less : A → A → Bool) (P : A → Type 0) where
  insert_sorted-Any : (x : A) (ys : List A) → Any P (insert_sorted less x ys) → Any P (x ∷ ys)
  unfolding insert_sorted
  insert_sorted-Any x [] h = h
  insert_sorted-Any x (y ∷ ys) h = elim (Bool-cases (less y x)) [
    | inl under ↦ elim (rw under at h) [
      | inl p ↦ inr (inl p)
      | inr ps ↦ elim (insert_sorted-Any x ys ps) [ inl p ↦ inl p | inr qs ↦ inr (inr qs) ]
    ]
    | inr not_under ↦ rw not_under at h
  ]

  Any-insert_sorted : (x : A) (ys : List A) → Any P (x ∷ ys) → Any P (insert_sorted less x ys)
  unfolding insert_sorted
  Any-insert_sorted x [] h = h
  Any-insert_sorted x (y ∷ ys) h = elim (Bool-cases (less y x)) [
    | inl under ↦ rw under (swap (Any-insert_sorted x ys) h)
    | inr not_under ↦ rw not_under h
  ]
    where
      swap :
          (Any P (x ∷ ys) → Any P (insert_sorted less x ys))
          → Any P (x ∷ y ∷ ys)
          → P y ⊎ Any P (insert_sorted less x ys)
      swap into (inl p) = inr (into (inl p))
      swap into (inr (inl p)) = inl p
      swap into (inr (inr ps)) = inr (into (inr ps))

  pub sorted-Any : (xs : List A) → Any P (sorted less xs) → Any P xs
  unfolding sorted
  sorted-Any [] h = h
  sorted-Any (x ∷ xs) h = elim (insert_sorted-Any x (sorted less xs) h) [
    | inl p ↦ inl p
    | inr ps ↦ inr (sorted-Any xs ps)
  ]

  pub Any-sorted : (xs : List A) → Any P xs → Any P (sorted less xs)
  unfolding sorted
  Any-sorted [] h = h
  Any-sorted (x ∷ xs) (inl p) = Any-insert_sorted x (sorted less xs) (inl p)
  Any-sorted (x ∷ xs) (inr ps) = Any-insert_sorted x (sorted less xs) (inr (Any-sorted xs ps))
