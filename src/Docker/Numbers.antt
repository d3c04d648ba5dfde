-- ===== src/Docker/Numbers.antt =====
-- `strconv.ParseUint` with base 10, as backend/internal/docker/labels.go calls it, on runes: what is no
-- digit is an error of the syntax, and the first digit that takes the value above `max` one of the range.
pub mod RoundTrip
use firefik.Prelude.{ℕ, ◌+◌, ◌*◌, ◌-◌, [], ◌∷◌, Text, ltb, if◌then◌else◌}
use firefik.Policy.Unicode.{ascii_digit}

pub data NumError : Type 0 where
  not_a_number : NumError
  out_of_range : NumError

pub data UintResult : Type 0 where
  value : ℕ → UintResult
  refused : NumError → UintResult

unfoldable pub scan_digits : ℕ → ℕ → Text → UintResult
scan_digits max acc [] = value acc
scan_digits max acc (c ∷ cs) =
    let n = acc * 10 + (c - b'0') in
    let rest = scan_digits max n cs in
    if ascii_digit c
    then (if ltb max n then refused out_of_range else rest)
    else refused not_a_number

-- `max` is 2 ^ bitSize - 1.
unfoldable pub parse_uint : ℕ → Text → UintResult
unfolding scan_digits
parse_uint max [] = refused not_a_number
parse_uint max (c ∷ cs) = scan_digits max 0 (c ∷ cs)
