-- ===== src/Rules/Merge/Names.antt =====
-- The names that a label lists.
use firefik.Prelude.{
  Bool, true, false, not, ◌&&◌, ◌||◌, ◌≡◌, refl, subst, ap, ◌∙◌, List, [], ◌∷◌, map, Text, text_eq,
  text_eq_iff, text_eq_refl, contains, if_ind, Bool-cases, inl, inr, if◌then◌else◌,
}
use firefik.Rules.Merge.{names_loop, split_comma_policy, resolve_template_names}
use firefik.Strings.{is_empty, split, trim_space}

-- No name stands twice.
abbrev pub NoRepeats : List Text → Type 0
NoRepeats [] = Unit
NoRepeats (x ∷ xs) = (contains xs x ≡ false) × NoRepeats xs

skipped :
    (t e s c : Bool)
    → (t ≡ true → (not e && not s) ≡ false)
    → (not e && (not s && c)) ≡ (not e && (not s && (t || c)))
skipped true true s c h = refl
skipped true false true c h = refl
skipped true false false c h = let no_way = h refl in cc
skipped false e s c h = refl

kept :
    (t e s c : Bool)
    → (t ≡ true → (not e && not s) ≡ true)
    → (t || (not e && (not (t || s) && c))) ≡ (not e && (not s && (t || c)))
kept true true s c h = let no_way = h refl in cc
kept true false true c h = let no_way = h refl in cc
kept true false false c h = refl
kept false e s c h = refl

-- The loop keeps the trimmed pieces that are not empty and that it has not seen.
contains-names_loop :
    (seen ps : List Text) (n : Text)
    → contains (names_loop seen ps) n
      ≡ (not (is_empty n) && (not (contains seen n) && contains (map trim_space ps) n))
unfolding names_loop contains
contains-names_loop seen [] n = nothing (is_empty n) (contains seen n)
  where
    nothing : (e s : Bool) → false ≡ (not e && (not s && false))
    nothing true s = refl
    nothing false true = refl
    nothing false false = refl
contains-names_loop seen (p ∷ ps) n = elim (Bool-cases (is_empty (trim_space p))) [
  | inl empty ↦ rw empty (
      contains-names_loop seen ps n
      ∙ skipped (text_eq (trim_space p) n) (is_empty n) (contains seen n) _ (λ same.
        subst (λ (m : Text). (not (is_empty m) && not (contains seen m)) ≡ false) (is same)
          (rw empty refl)))
  | inr full ↦ elim (Bool-cases (contains seen (trim_space p))) [
    | inl known ↦
        rw (full, known)
          (contains-names_loop seen ps n
            ∙ skipped (text_eq (trim_space p) n) (is_empty n) (contains seen n) _ (λ same.
              subst (λ (m : Text). (not (is_empty m) && not (contains seen m)) ≡ false) (is same)
                (rw (full, known) refl)))
    | inr fresh ↦
        rw (full, fresh)
          (ap (◌||◌ (text_eq (trim_space p) n)) (contains-names_loop (trim_space p ∷ seen) ps n)
            ∙ kept (text_eq (trim_space p) n) (is_empty n) (contains seen n) _ (λ same.
              subst (λ (m : Text). (not (is_empty m) && not (contains seen m)) ≡ true) (is same)
                (rw (full, fresh) refl)))
  ]
]
  where
    is : text_eq (trim_space p) n ≡ true → trim_space p ≡ n
    is same = (text_eq_iff (trim_space p) n).0 same

seen_first : (n : Text) (seen : List Text) → contains (n ∷ seen) n ≡ true
unfolding contains
seen_first n seen = rw (text_eq_refl n) refl

cut : (b : Bool) → (not b && false) ≡ false
cut true = refl
cut false = refl

names_loop-NoRepeats : (seen ps : List Text) → NoRepeats (names_loop seen ps)
unfolding names_loop
names_loop-NoRepeats seen [] = tt
names_loop-NoRepeats seen (p ∷ ps) =
    if_ind NoRepeats (is_empty (trim_space p)) {x = names_loop seen ps}
      {y = if contains seen (trim_space p)
        then names_loop seen ps
        else trim_space p ∷ names_loop (trim_space p ∷ seen) ps}
      (λ _. names_loop-NoRepeats seen ps)
      (λ _.
        if_ind NoRepeats (contains seen (trim_space p)) {x = names_loop seen ps}
          {y = trim_space p ∷ names_loop (trim_space p ∷ seen) ps}
          (λ _. names_loop-NoRepeats seen ps)
          (λ _. (not_again, names_loop-NoRepeats (trim_space p ∷ seen) ps)))
  where
    not_again : contains (names_loop (trim_space p ∷ seen) ps) (trim_space p) ≡ false
    not_again =
        contains-names_loop (trim_space p ∷ seen) ps (trim_space p)
        ∙ (ap
              (λ b.
                not (is_empty (trim_space p))
                && (not b && contains (map trim_space ps) (trim_space p)))
              (seen_first (trim_space p) seen)
            ∙ cut (is_empty (trim_space p)))

-- A label names what stands between its commas: each piece, without the spaces around it, that is
-- not empty, and once only; templates and policies are read alike.
pub label_names_lem :
    (s : Text)
    → ((n : Text)
        → contains (split_comma_policy s) n
          ≡ (not (is_empty n) && contains (map trim_space (split b',' s)) n))
      × NoRepeats (split_comma_policy s)
      × (resolve_template_names s ≡ split_comma_policy s)
unfolding split_comma_policy resolve_template_names trim_space contains
label_names_lem s =
    (contains-names_loop [] (split b',' s), names_loop-NoRepeats [] (split b',' s), alike s)
  where
    alike : (t : Text) → resolve_template_names t ≡ split_comma_policy t
    alike [] = refl
    alike (x ∷ xs) = refl
