-- ===== src/Samples/Schedules.antt =====
-- The reading of schedules.
use firefik.Prelude.{
  ℕ, ◌≡◌, refl, false, none, List, [], ◌∷◌, ok, codes, text_eq, lookup, ◌>>=◌, Delivers,
  if◌then◌else◌,
}
use firefik.Policy.Unicode.{ascii, is_space}
use firefik.Schedule.Window.{Window, LocalTime}
use firefik.Schedule.Parse.{clock_field, parse}
use firefik.Schedule.Parse.Total.{OfDay, parse-Delivers}
use firefik.Strings.{has_rune, split}

abbrev clock : ℕ → LocalTime
clock at = record { weekday = 5; hour = 23; minute = 30 }

abbrev shown : Window → List ℕ
shown w = w.start_min ∷ w.end_min ∷ (if w.days 0 then 1 else 0) ∷ (if w.days 3 then 1 else 0) ∷ []

night :
    (parse ascii (λ s t. false) clock (λ p. none) (codes "22:00-06:00 fri-mon") >>= λ w.
    ok (shown w))
    ≡ ok (1320 ∷ 360 ∷ 1 ∷ 0 ∷ [])
unfolding parse text_eq lookup is_space has_rune clock_field split
night = refl

parse-Delivers_example :
    Delivers
      (OfDay (codes "22:00-06:00 fri-mon"))
      (parse ascii (λ s t. false) clock (λ p. none) (codes "22:00-06:00 fri-mon"))
parse-Delivers_example =
    parse-Delivers ascii (λ s t. false) clock (λ p. none) (codes "22:00-06:00 fri-mon")

-- Friday to Monday.
