-- ===== src/Policy/Unicode.antt =====
-- What lexer.go and compile.go use of Go's package `unicode`. The tables of letters and digits and
-- the case mappings are a parameter, with what their documentation fixes on the ASCII range;
-- `unicode.IsSpace` is written out.
use firefik.Prelude.{
  ℕ, ◌+◌, ◌-◌, ◌<◌, ◌≡◌, refl, Bool, ◌&&◌, ◌||◌, false, true, leb, ◌==◌, if◌then◌else◌, arith,
}

abbrev pub within : ℕ → ℕ → ℕ → Bool
within lo hi c = leb lo c && leb c hi

abbrev pub ascii_letter : ℕ → Bool
ascii_letter c = within b'a' b'z' c || within b'A' b'Z' c

abbrev pub ascii_digit : ℕ → Bool
ascii_digit c = within b'0' b'9' c

abbrev pub ascii_lower : ℕ → ℕ
ascii_lower c = if within b'A' b'Z' c then c + 32 else c

abbrev pub ascii_upper : ℕ → ℕ
ascii_upper c = if within b'a' b'z' c then c - 32 else c

pub record Unicode : Type 0 where
  pub is_letter : ℕ → Bool
  pub is_digit : ℕ → Bool
  pub to_lower : ℕ → ℕ
  pub to_upper : ℕ → ℕ
  pub letter_ascii : (c : ℕ) → c < 128 → is_letter c ≡ ascii_letter c
  pub digit_ascii : (c : ℕ) → c < 128 → is_digit c ≡ ascii_digit c
  pub lower_ascii : (c : ℕ) → c < 128 → to_lower c ≡ ascii_lower c
  pub upper_ascii : (c : ℕ) → c < 128 → to_upper c ≡ ascii_upper c
  pub letter_not_digit : (c : ℕ) → is_letter c ≡ true → is_digit c ≡ false

-- `unicode.IsSpace`: Unicode's property White_Space.
unfoldable pub is_space : ℕ → Bool
is_space c =
    within 9 13 c
    || c == 32
    || c == 0x85
    || c == 0xa0
    || c == 0x1680
    || within 0x2000 0x200a c
    || c == 0x2028
    || c == 0x2029
    || c == 0x202f
    || c == 0x205f
    || c == 0x3000

pub ascii_disjoint : (c : ℕ) → ascii_letter c ≡ true → ascii_digit c ≡ false
ascii_disjoint c h = ground arith

-- The tables that know the ASCII range only.
abbrev pub ascii : Unicode
ascii = record {
  is_letter = ascii_letter;
  is_digit = ascii_digit;
  to_lower = ascii_lower;
  to_upper = ascii_upper;
  letter_ascii = λ c h. refl;
  digit_ascii = λ c h. refl;
  lower_ascii = λ c h. refl;
  upper_ascii = λ c h. refl;
  letter_not_digit = ascii_disjoint;
}
