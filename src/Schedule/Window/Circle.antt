-- ===== src/Schedule/Window/Circle.antt =====
-- The test of a window as a distance on the circle of the day's minutes.
use firefik.Prelude.{
  ℕ, ◌+◌, ◌-◌, ◌*◌, ◌%◌, ◌≤◌, ◌<◌, Bool, true, false, not, ◌&&◌, ◌||◌, ◌≡◌, refl, leb, ltb, ◌==◌,
  lt-or-ge, inl, inr, if◌then◌else◌, arith,
}
use firefik.Schedule.Window.{Window, active}

-- The minutes from `s` to `m`, over midnight if need be.
abbrev pub minutes_from : ℕ → ℕ → ℕ
minutes_from s m = (m + 1440 - s) % 1440

from-ge : (s m : ℕ) → s ≤ m → m < 1440 → minutes_from s m ≡ m - s
from-ge s m h k = omega arith

from-lt : (s m : ℕ) → m < s → s < 1440 → minutes_from s m ≡ m + 1440 - s
from-lt s m h k = omega arith

in_window :
    (s e m : ℕ)
    → s < 1440
    → e < 1440
    → m < 1440
    → (if s == e then true else if ltb s e then leb s m && ltb m e else leb s m || ltb m e)
      ≡ (s == e || ltb (minutes_from s m) (minutes_from s e))
in_window s e m hs he hm = elim (lt-or-ge m s) [
  | inl before ↦ elim (lt-or-ge e s) [
    | inl over ↦ rw (from-lt s m before hs, from-lt s e over hs) (ground arith)
    | inr same_day ↦ rw (from-lt s m before hs, from-ge s e same_day he) (ground arith)
  ]
  | inr behind ↦ elim (lt-or-ge e s) [
    | inl over ↦ rw (from-ge s m behind hm, from-lt s e over hs) (ground arith)
    | inr same_day ↦ rw (from-ge s m behind hm, from-ge s e same_day he) (ground arith)
  ]
]

-- For times of day in range, a window is active exactly on its weekdays, at the minutes that are
-- less far behind its start, around the clock, than its end is, or all day if start and end are the
-- same; the weekday is that of the moment, also behind midnight.
pub active-minutes_from :
    (w : Window) (at : ℕ)
    → w.start_min < 1440
    → w.end_min < 1440
    → (w.loc at).hour < 24
    → (w.loc at).minute < 60
    → active w at ≡ (
        w.days (w.loc at).weekday
        && (w.start_min == w.end_min
            || ltb
                (minutes_from w.start_min ((w.loc at).hour * 60 + (w.loc at).minute))
                (minutes_from w.start_min w.end_min)))
unfolding active
active-minutes_from w at hs he hh hm =
    on_day (w.days (w.loc at).weekday) (
      in_window w.start_min w.end_min ((w.loc at).hour * 60 + (w.loc at).minute) hs he
        (omega arith))
  where
    on_day : (d : Bool) {a b : Bool} → a ≡ b → (if not d then false else a) ≡ (d && b)
    on_day true h = h
    on_day false h = refl
