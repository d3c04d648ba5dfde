-- ===== src/Schedule/Parse.antt =====
-- `Parse` of backend/internal/schedule/window.go. `equal_fold` is `strings.EqualFold`, and `load_location`
-- is `time.LoadLocation`, with what `time.Time.In` does for a location.
pub mod Days
pub mod Total
use firefik.Prelude.{
  ℕ, zero, suc, ◌+◌, ◌*◌, ◌-◌, ◌%◌, ◌^◌, Bool, true, false, not, ◌&&◌, ◌||◌, Option, none, some,
  List, [], ◌∷◌, Text, codes, text_eq, map, Outcome, ok, err, out_of_fuel, ◌>>=◌, ltb, leb, ◌==◌,
  lookup, if◌then◌else◌,
}
use firefik.Policy.Unicode.{Unicode, is_space, ascii_digit}
use firefik.Schedule.Window.{Window, LocalTime}
use firefik.Strings.{cut, has_rune, is_empty, split, trim_space}

pub data ScheduleError : Type 0 where
  empty_schedule : ScheduleError
  expected_range : Text → ScheduleError
  expected_clock : Text → ScheduleError
  bad_hour : Text → ScheduleError
  bad_minute : Text → ScheduleError
  unknown_spec : Text → ScheduleError

abbrev pub Days : Type 0
Days = ℕ → Bool

abbrev pub all_days : Bool → Days
all_days v d = v

abbrev pub mark : ℕ → Days → Days
mark d days x = x == d || days x

abbrev pub day_names : List (Text × ℕ)
day_names =
    (codes "sun", 0)
    ∷ (codes "mon", 1)
    ∷ (codes "tue", 2)
    ∷ (codes "wed", 3)
    ∷ (codes "thu", 4)
    ∷ (codes "fri", 5)
    ∷ (codes "sat", 6)
    ∷ (codes "sunday", 0)
    ∷ (codes "monday", 1)
    ∷ (codes "tuesday", 2)
    ∷ (codes "wednesday", 3)
    ∷ (codes "thursday", 4)
    ∷ (codes "friday", 5)
    ∷ (codes "saturday", 6)
    ∷ []

-- The loop of a range of weekdays, from `d` around the week to `b`.
unfoldable pub days_from : ℕ → ℕ → ℕ → Days → Outcome ScheduleError Days
days_from zero d b days = out_of_fuel
days_from (suc n) d b days =
    let more = days_from n ((d + 1) % 7) b (mark d days) in
    if d == b then ok (mark d days) else more

-- A range of two known days; `none` when it is not one.
abbrev pub day_pair : Option ℕ → Option ℕ → Option (Outcome ScheduleError Days)
day_pair (some a) (some b) = some (days_from 7 a b (all_days false))
day_pair (some a) none = none
day_pair none o = none

abbrev pub range_days : Option (Text × Text) → Option (Outcome ScheduleError Days)
range_days none = none
range_days (some (s, t)) = day_pair (lookup s day_names) (lookup t day_names)

-- A list of known days.
unfoldable pub list_days : List Text → Option Days
list_days [] = some (all_days false)
list_days (seg ∷ segs) = elim (lookup (trim_space seg) day_names) [
  | none ↦ none
  | some d ↦ elim (list_days segs) [ none ↦ none | some days ↦ some (mark d days) ]
]

abbrev as_ok : Option Days → Option (Outcome ScheduleError Days)
as_ok none = none
as_ok (some days) = some (ok days)

abbrev one_day : Option ℕ → Option (Outcome ScheduleError Days)
one_day none = none
one_day (some d) = some (ok (mark d (all_days false)))

abbrev or_else_days :
    Option (Outcome ScheduleError Days)
    → Option (Outcome ScheduleError Days)
    → Option (Outcome ScheduleError Days)
or_else_days none y = y
or_else_days (some x) y = some x

-- `none` is the result false; then the days stay as they are.
unfoldable pub try_parse_days : Text → Option (Outcome ScheduleError Days)
unfolding days_from cut list_days
try_parse_days s =
    if has_rune b'-' s && not (has_rune b',' s)
    then or_else_days (range_days (cut b'-' s)) (one_day (lookup s day_names))
    else if has_rune b',' s
    then as_ok (list_days (split b',' s))
    else one_day (lookup s day_names)

-- `strconv.Atoi` for a number from 0 to `max`, with its sign; one that does not fit an `int` is too large.
abbrev sign_of : Text → Bool × Text
sign_of [] = (false, [])
sign_of (c ∷ cs) =
    if c == b'-' then (true, cs) else if c == b'+' then (false, cs) else (false, c ∷ cs)

abbrev digit_values : ℕ → Text → Option ℕ
digit_values acc [] = some acc
digit_values acc (c ∷ cs) =
    let rest = digit_values (acc * 10 + (c - b'0')) cs in if ascii_digit c then rest else none

abbrev pub within_max : ScheduleError → ℕ → Bool → Option ℕ → Outcome ScheduleError ℕ
within_max e max negative none = err e
within_max e max negative (some n) =
    if negative && ltb 0 n then err e else if ltb max n then err e else ok n

unfoldable pub clock_field : ScheduleError → ℕ → Text → Outcome ScheduleError ℕ
clock_field e max s =
    let (negative, digits) = sign_of s in
    if is_empty digits then err e else within_max e max negative (digit_values 0 digits)

-- `parseClock` behind the split.
unfoldable pub clock_parts : Text → List Text → Outcome ScheduleError ℕ
unfolding clock_field
clock_parts s (h ∷ m ∷ []) = clock_field (bad_hour s) 23 h >>= λ hour.
    clock_field (bad_minute s) 59 m >>= λ minute. ok (hour * 60 + minute)
clock_parts s _ = err (expected_clock s)

unfoldable pub parse_clock : Text → Outcome ScheduleError ℕ
unfolding clock_parts
parse_clock s = clock_parts s (split b':' s)

-- `strings.Fields`: the first piece before a space, and the others; then those that are not empty.
unfoldable pub fields_first : Text → Text × List Text
fields_first [] = ([], [])
fields_first (c ∷ cs) =
    let (p, ps) = fields_first cs in
    if is_space c then ([], if is_empty p then ps else p ∷ ps) else (c ∷ p, ps)

unfoldable pub fields : Text → List Text
unfolding fields_first
fields s = let (p, ps) = fields_first s in if is_empty p then ps else p ∷ ps

module _ (u : Unicode) (equal_fold : Text → Text → Bool) (utc : ℕ → LocalTime)
    (load_location : Text → Option (ℕ → LocalTime)) where
  abbrev located : Text → Window → Option (ℕ → LocalTime) → Outcome ScheduleError Window
  located p w none = err (unknown_spec p)
  located p w (some loc) = ok (record w { loc = loc })

  abbrev day_or_location :
      Text → Window → Option (Outcome ScheduleError Days) → Outcome ScheduleError Window
  day_or_location p w (some o) = o >>= λ days. ok (record w { days = days })
  day_or_location p w none = located p w (load_location p)

  -- One round of the loop over the parts behind the range.
  unfoldable pub parse_spec : Text → Window → Outcome ScheduleError Window
  unfolding try_parse_days
  parse_spec p w =
      let spec = day_or_location p w (try_parse_days (map u.to_lower p)) in
      if equal_fold p (codes "daily") then ok (record w { days = all_days true }) else spec

  unfoldable pub parse_specs : List Text → Window → Outcome ScheduleError Window
  unfolding parse_spec
  parse_specs [] w = ok w
  parse_specs (p ∷ ps) w = parse_spec p w >>= λ w'. parse_specs ps w'

  -- The range: a dash at the front does not count.
  unfoldable pub parse_range : Text → Text → Option (Text × Text) → Outcome ScheduleError Window
  unfolding parse_clock
  parse_range raw rng none = err (expected_range rng)
  parse_range raw rng (some ([], t)) = err (expected_range rng)
  parse_range raw rng (some (c ∷ cs, t)) = parse_clock (c ∷ cs) >>= λ start.
      parse_clock t >>= λ end.
      ok (record { start_min = start; end_min = end; days = all_days true; loc = utc; raw = raw })

  unfoldable pub parse_parts : Text → List Text → Outcome ScheduleError Window
  unfolding parse_range parse_specs cut
  parse_parts raw [] = err empty_schedule
  parse_parts raw (rng ∷ specs) = parse_range raw rng (cut b'-' rng) >>= λ w. parse_specs specs w

  unfoldable pub parse : Text → Outcome ScheduleError Window
  unfolding parse_parts fields trim_space
  parse raw = parse_parts raw (fields (trim_space raw))
