-- ===== src/Autogen/Keys.antt =====
-- The keys of the ports in the observations: a protocol and a port in decimal.
use firefik.Prelude.{
  and-true, ℕ, Bool-cases, ◌&&◌, text_eq, text_eq_iff, text_eq_refl, ==_eq, zero, suc, ◌+◌, ◌/◌,
  ◌%◌, ◌≤◌, ◌<◌, ◌≡◌, refl, sym, subst, ap₂, ◌∙◌, true, false, ◌==◌, [], ◌∷◌, ◌++◌, Text, ltb-true,
  ltb-false, lt-or-ge, decimal, decimal_onto, arith, inl, inr,
}
use firefik.Strings.{has_rune}
use firefik.Strings.Pieces.{Lacks, Digits-Lacks}
use firefik.Docker.Numbers.RoundTrip.{decimal-cons, decimal-Digits, decimal-injective}
use firefik.Autogen.{port_digits, or_zero, port_key, entry_key}

port_digits-zero : (f : ℕ) (acc : Text) → port_digits f 0 acc ≡ acc
unfolding port_digits
port_digits-zero zero acc = refl
port_digits-zero (suc f) acc = refl

port_digits-decimal_onto :
    (f g p : ℕ) (acc : Text)
    → 0 < p
    → p ≤ f
    → p ≤ g
    → port_digits f p acc ≡ decimal_onto (suc g) p acc
unfolding port_digits
port_digits-decimal_onto zero g p acc pos hf hg = absurd (omega (arith, pos, hf))
port_digits-decimal_onto (suc f) zero p acc pos hf hg = absurd (omega (arith, pos, hg))
port_digits-decimal_onto (suc f) (suc g) p acc pos hf hg =
    let some_left : (p == 0) ≡ false = ground (arith, pos) in
    elim (lt-or-ge p 10) [
      | inl one ↦
          let last : p / 10 ≡ 0 = omega (arith, one) in
          let same : p % 10 ≡ p = omega (arith, one) in
          rw (some_left, ltb-true one, last, same) (port_digits-zero f ((b'0' + p) ∷ acc))
      | inr more ↦
          rw (some_left, ltb-false more)
            (port_digits-decimal_onto f g (p / 10) ((b'0' + p % 10) ∷ acc) (omega (arith, more))
              (omega (arith, hf, pos)) (omega (arith, hg, pos)))
    ]

or_zero-cons : (t : Text) (d : ℕ) (ds : Text) → t ≡ d ∷ ds → or_zero t ≡ t
or_zero-cons [] d ds h = cc
or_zero-cons (c ∷ cs) d ds h = refl

-- `portKey` writes a number the way `%d` does.
pub port_key-decimal : (p : ℕ) → port_key p ≡ decimal p
unfolding port_key decimal
port_key-decimal zero = refl
port_key-decimal (suc p) =
    let more : suc (suc p) ≡ suc p + 1 = omega arith in
    let same : port_digits (suc p) (suc p) [] ≡ decimal (suc p) =
      subst (λ k. port_digits (suc p) (suc p) [] ≡ decimal_onto k (suc p) []) more
        (port_digits-decimal_onto (suc p) (suc p) (suc p) [] (omega arith) (omega arith)
          (omega arith)) in
    let (d, ds, is) = decimal-cons (suc p) in
    or_zero-cons (port_digits (suc p) (suc p) []) d ds (same ∙ is) ∙ same

has_rune-behind : (sep : ℕ) (a b : Text) → has_rune sep (a ++ sep ∷ b) ≡ true
unfolding has_rune
has_rune-behind sep [] b = ground arith
has_rune-behind sep (c ∷ a) b = ground (arith, has_rune-behind sep a b)

behind_last :
    (sep : ℕ) (a a' b b' : Text)
    → Lacks sep b
    → Lacks sep b'
    → a ++ sep ∷ b ≡ a' ++ sep ∷ b'
    → (a ≡ a') × (b ≡ b')
behind_last sep [] [] b b' h h' e = (refl, cc)
behind_last sep [] (c ∷ a') b b' h h' e =
    let is : b ≡ a' ++ sep ∷ b' = cc in
    let there : has_rune sep (a' ++ sep ∷ b') ≡ true = has_rune-behind sep a' b' in cc
behind_last sep (c ∷ a) [] b b' h h' e =
    let is : b' ≡ a ++ sep ∷ b = cc in
    let there : has_rune sep (a ++ sep ∷ b) ≡ true = has_rune-behind sep a b in cc
behind_last sep (c ∷ a) (c' ∷ a') b b' h h' e =
    let rest : a ++ sep ∷ b ≡ a' ++ sep ∷ b' = cc in
    let first : c ≡ c' = cc in
    let (front, back) = behind_last sep a a' b b' h h' rest in
    (ap₂ (λ d t. d ∷ t) first front, back)

port_key-Lacks : (p : ℕ) → Lacks b'/' (port_key p)
port_key-Lacks p = rw (port_key-decimal p) (Digits-Lacks b'/' (decimal p) refl (decimal-Digits p))

-- Two keys are the same only for one protocol and one port.
pub entry_key-injective : (s t : Text) (m n : ℕ) → entry_key s m ≡ entry_key t n → (s ≡ t) × (m ≡ n)
entry_key-injective s t m n h =
    let (protocols, keys) =
      behind_last b'/' s t (port_key m) (port_key n) (port_key-Lacks m) (port_key-Lacks n) h in
    (protocols, decimal-injective m n (sym (port_key-decimal m) ∙ (keys ∙ port_key-decimal n)))

-- The keys are compared as the protocols and the ports.
pub text_eq-entry_key :
    (s t : Text) (m n : ℕ) → text_eq (entry_key s m) (entry_key t n) ≡ (text_eq s t && m == n)
text_eq-entry_key s t m n = elim (Bool-cases (text_eq (entry_key s m) (entry_key t n))) [
  | inl same ↦
      let (protocols, ports) =
        entry_key-injective s t m n ((text_eq_iff (entry_key s m) (entry_key t n)).0 same) in
      rw (same, protocols, ports, text_eq_refl t) (ground arith)
  | inr apart ↦ elim (Bool-cases (text_eq s t && m == n)) [
    | inl both ↦
        let (protocols, ports) = and-true (text_eq s t) (m == n) both in
        let same : entry_key s m ≡ entry_key t n =
          ap₂ entry_key ((text_eq_iff s t).0 protocols) (==_eq ports) in
        (text_eq_iff (entry_key s m) (entry_key t n)).1 same ∙ sym both
    | inr differ ↦ apart ∙ sym differ
  ]
]
