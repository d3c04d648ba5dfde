-- ===== src/Strings.antt =====
-- The functions of Go's `strings` package that the program calls, on runes.
pub mod Pieces
use firefik.Prelude.{
  ℕ, ◌+◌, ◌/◌, ◌%◌, ltb, Bool, true, false, ◌&&◌, ◌||◌, Option, none, some, List, [], ◌∷◌, ◌++◌,
  Text, ◌==◌, if◌then◌else◌,
}
use firefik.Policy.Unicode.{is_space}

abbrev pub is_empty {ℓ} : {A : Type ℓ} → List A → Bool
is_empty [] = true
is_empty (x ∷ xs) = false

-- `strings.TrimSpace`.
unfoldable pub trim_start : Text → Text
trim_start [] = []
trim_start (c ∷ cs) = let rest = trim_start cs in if is_space c then rest else c ∷ cs

unfoldable pub trim_end : Text → Text
trim_end [] = []
trim_end (c ∷ cs) = let rest = trim_end cs in if is_space c && is_empty rest then [] else c ∷ rest

unfoldable pub trim_space : Text → Text
unfolding trim_start trim_end
trim_space s = trim_end (trim_start s)

-- `strings.Split`, for one byte: the first piece, and the others.
unfoldable pub split_first : ℕ → Text → Text × List Text
split_first sep [] = ([], [])
split_first sep (c ∷ cs) =
    let (p, ps) = split_first sep cs in if c == sep then ([], p ∷ ps) else (c ∷ p, ps)

unfoldable pub split : ℕ → Text → List Text
unfolding split_first
split sep s = let (p, ps) = split_first sep s in p ∷ ps

unfoldable pub has_rune : ℕ → Text → Bool
has_rune r [] = false
has_rune r (c ∷ cs) = c == r || has_rune r cs

-- `strings.SplitN` with two pieces at most: what stands around the first byte `sep`, if there is one.
abbrev pub in_front : ℕ → Option (Text × Text) → Option (Text × Text)
in_front c none = none
in_front c (some (a, b)) = some (c ∷ a, b)

unfoldable pub cut : ℕ → Text → Option (Text × Text)
cut sep [] = none
cut sep (c ∷ cs) = let rest = in_front c (cut sep cs) in if c == sep then some ([], cs) else rest

-- `strings.HasPrefix` with `strings.TrimPrefix`: what stands behind the prefix, if the text has it.
unfoldable pub behind : Text → Text → Option Text
behind [] s = some s
behind (p ∷ ps) [] = none
behind (p ∷ ps) (c ∷ cs) = let rest = behind ps cs in if p == c then rest else none

-- `strings.Join`, for one byte.
unfoldable pub join : ℕ → List Text → Text
join sep [] = []
join sep (p ∷ []) = p
join sep (p ∷ q ∷ ps) = p ++ sep ∷ join sep (q ∷ ps)

-- The bytes of a text in UTF-8, which `len` counts and slicing cuts.
abbrev pub utf8_rune : ℕ → Text
utf8_rune c =
    if ltb c 0x80
    then c ∷ []
    else if ltb c 0x800
    then (0xc0 + c / 64) ∷ (0x80 + c % 64) ∷ []
    else if ltb c 0x10000
    then (0xe0 + c / 4096) ∷ (0x80 + c / 64 % 64) ∷ (0x80 + c % 64) ∷ []
    else (0xf0 + c / 262144) ∷ (0x80 + c / 4096 % 64) ∷ (0x80 + c / 64 % 64) ∷ (0x80 + c % 64) ∷ []

unfoldable pub utf8 : Text → Text
utf8 [] = []
utf8 (c ∷ cs) = utf8_rune c ++ utf8 cs
