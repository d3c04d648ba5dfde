-- ===== src/Docker/Numbers/RoundTrip.antt =====
-- Decimal notation read back, and the bound on what is read.
use firefik.Prelude.{
  ℕ, zero, suc, ◌+◌, ◌*◌, ◌-◌, ◌/◌, ◌%◌, ◌≤◌, ◌<◌, ◌≡◌, refl, sym, ap, ◌∙◌, subst, [], ◌∷◌, Text,
  decimal, decimal_onto, ltb, inl, inr, arith, if_ind, lt-or-ge, ltb-true, ltb-false,
}
use firefik.Policy.Unicode.{ascii_digit}
use firefik.Strings.Pieces.{Digits}
use firefik.Docker.Numbers.{UintResult, value, refused, scan_digits, parse_uint}

module _ (max : ℕ) where
  -- A number that is read is at most `max`.
  abbrev pub UpTo : UintResult → Type 0
  UpTo (value n) = n ≤ max
  UpTo (refused e) = Unit

  scan-UpTo : (acc : ℕ) (s : Text) → acc ≤ max → UpTo (scan_digits max acc s)
  unfolding scan_digits
  scan-UpTo acc [] h = h
  scan-UpTo acc (c ∷ cs) h =
      if_ind UpTo (ascii_digit c)
        (λ _.
          if_ind UpTo (ltb max (acc * 10 + (c - b'0'))) (λ _. tt)
            (λ le. scan-UpTo (acc * 10 + (c - b'0')) cs (ground arith)))
        (λ _. tt)

  pub parse_uint-UpTo : (s : Text) → UpTo (parse_uint max s)
  unfolding parse_uint
  parse_uint-UpTo [] = tt
  parse_uint-UpTo (c ∷ cs) = scan-UpTo 0 (c ∷ cs) (omega arith)

  scan_digit :
      (acc d : ℕ) (s : Text)
      → d < 10
      → acc * 10 + d ≤ max
      → scan_digits max acc ((b'0' + d) ∷ s) ≡ scan_digits max (acc * 10 + d) s
  unfolding scan_digits
  scan_digit acc d s small fits = ground arith

  scan_first :
      (d : ℕ) (s : Text)
      → d < 10
      → d ≤ max
      → scan_digits max 0 ((b'0' + d) ∷ s) ≡ scan_digits max d s
  unfolding scan_digits
  scan_first d s small fits = ground arith

  -- The digits of `n`, in front of a text, are read as `n`.
  scan-onto :
      (f n : ℕ) (s : Text)
      → n < f
      → n ≤ max
      → scan_digits max 0 (decimal_onto f n s) ≡ scan_digits max n s
  scan-onto zero n s lt le = absurd (omega arith)
  scan-onto (suc f) n s lt le = elim (lt-or-ge n 10) [
    | inl small ↦ rw (ltb-true small) (scan_first n s small le)
    | inr large ↦
        rw (ltb-false large, scan-onto f (n / 10) _ (omega arith) (omega arith))
          (subst (λ m. scan_digits max (n / 10) ((b'0' + n % 10) ∷ s) ≡ scan_digits max m s)
            (omega arith) (scan_digit (n / 10) (n % 10) s (omega arith) (omega arith)))
  ]

  onto-cons :
      (f n : ℕ) (c : ℕ) (s : Text) → (d : ℕ) × (t : Text) × (decimal_onto f n (c ∷ s) ≡ d ∷ t)
  onto-cons zero n c s = (c, s, refl)
  onto-cons (suc f) n c s = elim (lt-or-ge n 10) [
    | inl small ↦ (b'0' + n, c ∷ s, rw (ltb-true small) refl)
    | inr large ↦
        let (d, t, e) = onto-cons f (n / 10) (b'0' + n % 10) (c ∷ s) in
        (d, t, rw (ltb-false large) e)
  ]

  onto_nonempty : (f n : ℕ) (s : Text) → 0 < f → (d : ℕ) × (t : Text) × (decimal_onto f n s ≡ d ∷ t)
  onto_nonempty zero n s pos = absurd (omega arith)
  onto_nonempty (suc f) n s pos = elim (lt-or-ge n 10) [
    | inl small ↦ (b'0' + n, s, rw (ltb-true small) refl)
    | inr large ↦
        let (d, t, e) = onto-cons f (n / 10) (b'0' + n % 10) s in (d, t, rw (ltb-false large) e)
  ]

  -- A number up to `max` is read back from its decimal notation.
  pub parse_uint-decimal : (n : ℕ) → n ≤ max → parse_uint max (decimal n) ≡ value n
  unfolding parse_uint scan_digits decimal
  parse_uint-decimal n le =
      let (d, t, e) = onto_nonempty (n + 1) n [] (omega arith) in
      rw e (subst (λ s. scan_digits max 0 s ≡ value n) e (scan-onto (n + 1) n [] (omega arith) le))

-- A number has a digit.
pub decimal-cons : (n : ℕ) → (d : ℕ) × (t : Text) × (decimal n ≡ d ∷ t)
unfolding decimal
decimal-cons n = onto_nonempty 0 (n + 1) n [] (omega arith)

onto-Digits : (f n : ℕ) (s : Text) → n < f → Digits s → Digits (decimal_onto f n s)
onto-Digits zero n s lt h = absurd (omega arith)
onto-Digits (suc f) n s lt h = elim (lt-or-ge n 10) [
  | inl small ↦ rw (ltb-true small) (ground arith, h)
  | inr large ↦
      rw (ltb-false large)
        (onto-Digits f (n / 10) ((b'0' + n % 10) ∷ s) (omega arith) (ground arith, h))
]

-- The notation of a number is of digits only.
pub decimal-Digits : (n : ℕ) → Digits (decimal n)
unfolding decimal
decimal-Digits n = onto-Digits (n + 1) n [] (omega arith) tt

-- Different numbers have different notations.
pub decimal-injective : (n m : ℕ) → decimal n ≡ decimal m → n ≡ m
decimal-injective n m e =
    let read : value n ≡ value m =
      sym (parse_uint-decimal (n + m) n (omega arith))
      ∙ (ap (parse_uint (n + m)) e ∙ parse_uint-decimal (n + m) m (omega arith)) in
    cc
