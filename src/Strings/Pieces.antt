-- ===== src/Strings/Pieces.antt =====
-- Pieces of a text: split, join and cut at a byte, prefixes, and text without space.
use firefik.Prelude.{
  ℕ, ◌≡◌, refl, ap, true, false, Option, none, some, List, [], ◌∷◌, ◌++◌, All, Text, ◌==◌, ==_eq,
  Bool-cases, ◌⊎◌, inl, inr, arith, if◌then◌else◌,
}
use firefik.Policy.Unicode.{is_space, ascii_digit}
use firefik.Strings.{
  trim_start, trim_end, trim_space, split_first, split, has_rune, in_front, cut, behind, join,
}

-- The text does not have the byte.
abbrev pub Lacks : ℕ → Text → Type 0
Lacks sep s = has_rune sep s ≡ false

Lacks-cons : (sep c : ℕ) (s : Text) → Lacks sep (c ∷ s) → ((c == sep) ≡ false) × Lacks sep s
unfolding has_rune
Lacks-cons sep c s h = ground arith

split_first-piece : (sep : ℕ) (a : Text) → Lacks sep a → split_first sep a ≡ (a, [])
unfolding split_first
split_first-piece sep [] h = refl
split_first-piece sep (c ∷ cs) h =
    let (first, rest) = Lacks-cons sep c cs h in rw (split_first-piece sep cs rest, first) refl

split_first-sep :
    (sep : ℕ) (a s : Text)
    → Lacks sep a
    → split_first sep (a ++ sep ∷ s) ≡ (a, (split_first sep s).0 ∷ (split_first sep s).1)
unfolding split_first
split_first-sep sep [] s h = ground arith
split_first-sep sep (c ∷ cs) s h =
    let (first, rest) = Lacks-cons sep c cs h in rw (split_first-sep sep cs s rest, first) refl

-- Splitting a join gives the pieces back, if there is one and none has the separator.
pub split-join :
    (sep : ℕ) (p : Text) (ps : List Text)
    → All (Lacks sep) (p ∷ ps)
    → split sep (join sep (p ∷ ps)) ≡ p ∷ ps
unfolding split join
split-join sep p [] (h, _) = rw (split_first-piece sep p h) refl
split-join sep p (q ∷ ps) (h, hs) =
    rw (split_first-sep sep p (join sep (q ∷ ps)) h) (ap (λ l. p ∷ l) (split-join sep q ps hs))

-- Cutting at the first separator.
pub cut-append : (sep : ℕ) (a b : Text) → Lacks sep a → cut sep (a ++ sep ∷ b) ≡ some (a, b)
unfolding cut
cut-append sep [] b h = ground arith
cut-append sep (c ∷ cs) b h =
    let (first, rest) = Lacks-cons sep c cs h in rw (cut-append sep cs b rest, first) refl

abbrev pub IsCut : ℕ → Text → Option (Text × Text) → Type 0
IsCut sep s none = Lacks sep s
IsCut sep s (some (a, b)) = (s ≡ a ++ sep ∷ b) × Lacks sep a

-- What the cut gives stands around a separator, and the first part has none.
pub cut-IsCut : (sep : ℕ) (s : Text) → IsCut sep s (cut sep s)
unfolding cut has_rune
cut-IsCut sep [] = refl
cut-IsCut sep (c ∷ cs) = go (Bool-cases (c == sep)) (cut sep cs) (cut-IsCut sep cs)
  where
    go :
        ((c == sep) ≡ true) ⊎ ((c == sep) ≡ false)
        → (o : Option (Text × Text)) → IsCut sep cs o
        → IsCut sep (c ∷ cs) (if c == sep then some ([], cs) else in_front c o)
    go (inl same) o h = rw same (ap (λ d. d ∷ cs) (==_eq same), refl)
    go (inr other) none h = rw other (rw other h)
    go (inr other) (some (a, b)) (e, h) = rw other (ap (λ t. c ∷ t) e, rw other h)

pub behind-append : (p s : Text) → behind p (p ++ s) ≡ some s
unfolding behind
behind-append [] s = refl
behind-append (c ∷ p) s = ground (arith, behind-append p s)

pub behind-eq : (p s rest : Text) → behind p s ≡ some rest → s ≡ p ++ rest
unfolding behind
behind-eq [] s rest h = cc
behind-eq (c ∷ p) [] rest h = cc
behind-eq (c ∷ p) (d ∷ s) rest h = elim (Bool-cases (c == d)) [
  | inl same ↦ rw (==_eq same) (ap (λ t. d ∷ t) (behind-eq p s rest (rw same at h)))
  | inr different ↦ let no : none ≡ some rest = rw different at h in cc
]

-- A text of digits only.
abbrev pub Digits : Text → Type 0
Digits s = All (λ c. ascii_digit c ≡ true) s

digit-not_space : (c : ℕ) → ascii_digit c ≡ true → is_space c ≡ false
unfolding is_space
digit-not_space c h = ground arith

trim_start-Digits : (s : Text) → Digits s → trim_start s ≡ s
unfolding trim_start
trim_start-Digits [] h = refl
trim_start-Digits (c ∷ cs) (h, _) = rw (digit-not_space c h) refl

trim_end-Digits : (s : Text) → Digits s → trim_end s ≡ s
unfolding trim_end
trim_end-Digits [] h = refl
trim_end-Digits (c ∷ cs) (h, hs) =
    rw (digit-not_space c h) (ap (λ t. c ∷ t) (trim_end-Digits cs hs))

-- Digits have no space to trim, and no byte that is no digit.
pub trim_space-Digits : (s : Text) → Digits s → trim_space s ≡ s
unfolding trim_space
trim_space-Digits s h = rw (trim_start-Digits s h, trim_end-Digits s h) refl

pub Digits-Lacks : (sep : ℕ) (s : Text) → ascii_digit sep ≡ false → Digits s → Lacks sep s
unfolding has_rune
Digits-Lacks sep [] no_digit h = refl
Digits-Lacks sep (c ∷ cs) no_digit (h, hs) = ground (arith, Digits-Lacks sep cs no_digit hs)
