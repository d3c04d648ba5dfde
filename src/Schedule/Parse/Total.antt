-- ===== src/Schedule/Parse/Total.antt =====
-- `Parse` ends, with the minutes of a day.
use firefik.Prelude.{
  ℕ, ◌<◌, ◌≤◌, Bool, ◌&&◌, ◌≡◌, refl, Option, none, some, List, [], ◌∷◌, All, map, Text, codes,
  text_eq, lookup, Outcome, ltb, Delivers, delivers, refuses, Delivers-if, Delivers-bind, not,
  if_ind, Bool-cases, inl, inr, if◌then◌else◌, arith,
}
use firefik.Policy.Unicode.{Unicode}
use firefik.Schedule.Window.{Window, LocalTime}
use firefik.Schedule.Parse.{
  ScheduleError, Days, day_names, day_pair, range_days, one_day, as_ok, or_else_days, list_days,
  try_parse_days, sign_of, digit_values, within_max, clock_field, clock_parts, parse_clock, located,
  day_or_location, parse_spec, parse_specs, parse_range, parse_parts, fields, parse,
}
use firefik.Schedule.Parse.Days.{days_from_lem}
use firefik.Strings.{cut, has_rune, is_empty, split, trim_space}

lookup-All :
    (m : List (Text × ℕ)) (k : Text) (d : ℕ)
    → All (λ (e : Text × ℕ). e.1 < 7) m
    → lookup k m ≡ some d
    → d < 7
unfolding lookup
lookup-All [] k d h e = cc
lookup-All ((j, a) ∷ m) k d (h, t) e = elim (Bool-cases (text_eq j k)) [
  | inl same ↦ let is : some a ≡ some d = rw same at e in let eq : a ≡ d = cc in omega arith
  | inr other ↦ lookup-All m k d t (rw other at e)
]

day_names-below : (k : Text) (d : ℕ) → lookup k day_names ≡ some d → d < 7
day_names-below k d e = lookup-All day_names k d (omega arith) e

field-Delivers :
    (e : ScheduleError) (max : ℕ) (s : Text) → Delivers (λ n. n ≤ max) (clock_field e max s)
unfolding clock_field
field-Delivers e max s =
    Delivers-if (is_empty (sign_of s).1) (λ _. refuses)
      (λ _. go (sign_of s).0 (digit_values 0 (sign_of s).1))
  where
    go : (negative : Bool) (o : Option ℕ) → Delivers (λ n. n ≤ max) (within_max e max negative o)
    go negative none = refuses
    go negative (some n) =
        Delivers-if (negative && ltb 0 n) (λ _. refuses)
          (λ _. Delivers-if (ltb max n) (λ _. refuses) (λ h. delivers (ground arith)))

clock-Delivers : (s : Text) → Delivers (λ n. n < 1440) (parse_clock s)
unfolding parse_clock clock_parts
clock-Delivers s = go (split b':' s)
  where
    go : (parts : List Text) → Delivers (λ n. n < 1440) (clock_parts s parts)
    go [] = refuses
    go (h ∷ []) = refuses
    go (h ∷ m ∷ []) =
        Delivers-bind (field-Delivers _ 23 h)
          λ hour lh. Delivers-bind (field-Delivers _ 59 m) λ minute lm. delivers (omega arith)
    go (h ∷ m ∷ x ∷ xs) = refuses

-- The days, if the text gives some, come without running out of fuel.
abbrev Ends : Option (Outcome ScheduleError Days) → Type 0
Ends none = Unit
Ends (some o) = Delivers (λ _. Unit {0}) o

pair-Ends :
    (o o' : Option ℕ)
    → ((a : ℕ) → o ≡ some a → a < 7)
    → ((b : ℕ) → o' ≡ some b → b < 7)
    → Ends (day_pair o o')
pair-Ends none o' h h' = tt
pair-Ends (some a) none h h' = tt
pair-Ends (some a) (some b) h h' =
    let (days, done, _) = days_from_lem a b (h a refl) (h' b refl) in rw done (delivers tt)

range-Ends : (o : Option (Text × Text)) → Ends (range_days o)
range-Ends none = tt
range-Ends (some (s, t)) =
    pair-Ends (lookup s day_names) (lookup t day_names) (day_names-below s) (day_names-below t)

or_else-Ends :
    (x y : Option (Outcome ScheduleError Days)) → Ends x → Ends y → Ends (or_else_days x y)
or_else-Ends none y p q = q
or_else-Ends (some x) y p q = p

one_day-Ends : (o : Option ℕ) → Ends (one_day o)
one_day-Ends none = tt
one_day-Ends (some d) = delivers tt

as_ok-Ends : (o : Option Days) → Ends (as_ok o)
as_ok-Ends none = tt
as_ok-Ends (some days) = delivers tt

days-Ends : (s : Text) → Ends (try_parse_days s)
unfolding try_parse_days
days-Ends s =
    if_ind Ends (has_rune b'-' s && not (has_rune b',' s))
      {x = or_else_days (range_days (cut b'-' s)) (one_day (lookup s day_names))}
      {y = if has_rune b',' s
        then as_ok (list_days (split b',' s))
        else one_day (lookup s day_names)}
      (λ _.
        or_else-Ends (range_days (cut b'-' s)) (one_day (lookup s day_names))
          (range-Ends (cut b'-' s)) (one_day-Ends (lookup s day_names)))
      (λ _.
        if_ind Ends (has_rune b',' s) {x = as_ok (list_days (split b',' s))}
          {y = one_day (lookup s day_names)} (λ _. as_ok-Ends (list_days (split b',' s)))
          (λ _. one_day-Ends (lookup s day_names)))

-- The minutes of a window are those of a day, and it keeps its text.
abbrev pub OfDay : Text → Window → Type 0
OfDay raw w = (w.start_min < 1440) × (w.end_min < 1440) × (w.raw ≡ raw)

module _ (u : Unicode) (equal_fold : Text → Text → Bool) (utc : ℕ → LocalTime)
    (load_location : Text → Option (ℕ → LocalTime)) (raw : Text) where
  located-Delivers :
      (p : Text) (w : Window) (o : Option (ℕ → LocalTime))
      → OfDay raw w
      → Delivers (OfDay raw) (located u equal_fold utc load_location p w o)
  located-Delivers p w none h = refuses
  located-Delivers p w (some loc) h = delivers h

  spec-Delivers :
      (p : Text) (w : Window)
      → OfDay raw w
      → Delivers (OfDay raw) (parse_spec u equal_fold utc load_location p w)
  unfolding parse_spec
  spec-Delivers p w h =
      Delivers-if (equal_fold p (codes "daily")) (λ _. delivers h)
        (λ _. go (try_parse_days (map u.to_lower p)) (days-Ends (map u.to_lower p)))
    where
      go :
          (o : Option (Outcome ScheduleError Days))
          → Ends o
          → Delivers (OfDay raw) (day_or_location u equal_fold utc load_location p w o)
      go none t = located-Delivers p w (load_location p) h
      go (some o) t = Delivers-bind t λ days _. delivers h

  specs-Delivers :
      (ps : List Text) (w : Window)
      → OfDay raw w
      → Delivers (OfDay raw) (parse_specs u equal_fold utc load_location ps w)
  unfolding parse_specs
  specs-Delivers [] w h = delivers h
  specs-Delivers (p ∷ ps) w h = Delivers-bind (spec-Delivers p w h) λ w' h'. specs-Delivers ps w' h'

  range-Delivers :
      (rng : Text) (o : Option (Text × Text))
      → Delivers (OfDay raw) (parse_range u equal_fold utc load_location raw rng o)
  unfolding parse_range
  range-Delivers rng none = refuses
  range-Delivers rng (some ([], t)) = refuses
  range-Delivers rng (some (c ∷ cs, t)) =
      Delivers-bind (clock-Delivers (c ∷ cs))
        λ start hs. Delivers-bind (clock-Delivers t) λ end he. delivers (hs, he, refl)

  parts-Delivers :
      (parts : List Text)
      → Delivers (OfDay raw) (parse_parts u equal_fold utc load_location raw parts)
  unfolding parse_parts
  parts-Delivers [] = refuses
  parts-Delivers (rng ∷ specs) =
      Delivers-bind (range-Delivers rng (cut b'-' rng)) λ w h. specs-Delivers specs w h

  -- Parsing a schedule ends, with an error or with a window whose start and end are minutes of a day
  -- and that keeps the text.
  pub parse-Delivers : Delivers (OfDay raw) (parse u equal_fold utc load_location raw)
  unfolding parse
  parse-Delivers = parts-Delivers (fields (trim_space raw))
