-- ===== src/Schedule/Window.antt =====
-- The windows of backend/internal/schedule/window.go and their test. A window's seven days are a
-- function from the weekday, Sunday first, and its location is a shift of the local clock.
pub mod Circle
use firefik.Prelude.{
  ℕ, ◌+◌, ◌*◌, Bool, true, false, not, ◌&&◌, ◌||◌, Text, leb, ltb, ◌==◌, if◌then◌else◌,
}

-- A moment as Go's `time.Time` shows it in a location: the weekday, the hour and the minute.
pub record LocalTime : Type 0 where
  pub weekday : ℕ
  pub hour : ℕ
  pub minute : ℕ

-- `loc` is what `time.Time.In` does with the location: the local reading of a moment.
pub record Window : Type 0 where
  pub start_min : ℕ
  pub end_min : ℕ
  pub days : ℕ → Bool
  pub loc : ℕ → LocalTime
  pub raw : Text

-- `at` is a moment, as a number of minutes since the epoch.
unfoldable pub active : Window → ℕ → Bool
active w at =
    let t = w.loc at in
    let mins = t.hour * 60 + t.minute in
    if not (w.days t.weekday)
    then false
    else if w.start_min == w.end_min
    then true
    else if ltb w.start_min w.end_min
    then leb w.start_min mins && ltb mins w.end_min
    else leb w.start_min mins || ltb mins w.end_min
