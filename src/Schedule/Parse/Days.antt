-- ===== src/Schedule/Parse/Days.antt =====
-- The range of weekdays that `tryParseDays` marks.
use firefik.Prelude.{
  ℕ, zero, suc, ◌+◌, ◌-◌, ◌%◌, ◌<◌, ◌≤◌, Bool, true, false, ◌||◌, ◌≡◌, refl, sym, ◌≢◌, leb-true,
  leb-false, ap, ◌∙◌, ok, leb, ◌==◌, ==_eq, ==_ne, Bool-cases, inl, inr, arith,
}
use firefik.Schedule.Parse.{Days, all_days, mark, days_from}

-- The days from `d` to `x`, around the week.
abbrev pub days_after : ℕ → ℕ → ℕ
days_after d x = (x + 7 - d) % 7

closer : (d x : ℕ) → d < 7 → x < 7 → x ≢ d → days_after ((d + 1) % 7) x + 1 ≡ days_after d x
closer d x hd hx h = omega arith

at_end : (x d b : ℕ) → d < 7 → x < 7 → d ≡ b → leb (days_after d x) (days_after d b) ≡ (x == d)
at_end x d b hd hx e = elim (Bool-cases (x == d)) [
  | inl same ↦ rw same (leb-true (omega (arith, ==_eq same)))
  | inr other ↦ rw other (leb-false (omega (arith, ==_ne other)))
]

-- One step nearer, for the days that are not the first.
one_on :
    (x d b : ℕ) (c : Bool)
    → d < 7
    → b < 7
    → x < 7
    → d ≢ b
    → ((x == d || c) || leb (days_after ((d + 1) % 7) x) (days_after ((d + 1) % 7) b))
      ≡ (c || leb (days_after d x) (days_after d b))
one_on x d b c hd hb hx h = elim (Bool-cases (x == d)) [
  | inl same ↦ rw (same, leb-true (first (==_eq same))) (or_true c)
  | inr other ↦ rw other (
      ap (◌||◌ c)
        (shift _ _ _ _ (closer d x hd hx (==_ne other)) (closer d b hd hb (λ e. h (sym e)))))
]
  where
    first : x ≡ d → days_after d x ≤ days_after d b
    first e = omega arith

    or_true : (v : Bool) → true ≡ (v || true)
    or_true true = refl
    or_true false = refl

    shift : (p q p' q' : ℕ) → p + 1 ≡ p' → q + 1 ≡ q' → leb p q ≡ leb p' q'
    shift p q p' q' e f = ground arith

days_from-marks :
    (n d b : ℕ) (acc : Days)
    → d < 7
    → b < 7
    → days_after d b < n
    → (days : Days) × (days_from n d b acc ≡ ok days)
      × ((x : ℕ) → x < 7 → days x ≡ (acc x || leb (days_after d x) (days_after d b)))
unfolding days_from
days_from-marks zero d b acc hd hb h = absurd (omega arith)
days_from-marks (suc n) d b acc hd hb h = elim (Bool-cases (d == b)) [
  | inl here ↦ (
    mark d acc,
    rw here refl,
    λ x hx. or_comm (x == d) (acc x) ∙ ap (◌||◌ (acc x)) (sym (at_end x d b hd hx (==_eq here))),
  )
  | inr away ↦
      let (days, e, m) =
        days_from-marks n ((d + 1) % 7) b (mark d acc) (omega arith) hb (nearer (==_ne away)) in
      (days, rw away e, λ x hx. m x hx ∙ one_on x d b (acc x) hd hb hx (==_ne away))
]
  where
    nearer : d ≢ b → days_after ((d + 1) % 7) b < n
    nearer h' = let step = closer d b hd hb (λ e. h' (sym e)) in omega arith

    or_comm : (p q : Bool) → (p || q) ≡ (q || p)
    or_comm true true = refl
    or_comm true false = refl
    or_comm false true = refl
    or_comm false false = refl

-- A range of weekdays ends within a week, and marks the days from its first around the week to its
-- last.
pub days_from_lem :
    (a b : ℕ)
    → a < 7
    → b < 7
    → (days : Days) × (days_from 7 a b (all_days false) ≡ ok days)
      × ((x : ℕ) → x < 7 → days x ≡ leb (days_after a x) (days_after a b))
days_from_lem a b ha hb = days_from-marks 7 a b (all_days false) ha hb (omega arith)
