-- ===== src/Policy/Parser/Tokens.antt =====
-- The token stream of backend/internal/policy/parser.go, and its literals. A parser's `toks` and `pos`
-- are the tokens that are not read yet.
use firefik.Prelude.{
  ℕ, zero, suc, ◌+◌, ◌-◌, ◌*◌, ◌^◌, Bool, true, false, ◌&&◌, ◌||◌, Option, none, some, List, [],
  ◌∷◌, Text, codes, text_eq, Outcome, ok, err, out_of_fuel, ◌>>=◌, leb, if◌then◌else◌,
}
use firefik.Policy.Ast.{Value, string_value, number_value}
use firefik.Policy.Error.{Error, expected, bad_number, expected_literal}
use firefik.Policy.Unicode.{ascii_digit}
use firefik.Policy.Lexer.{TokenKind, eof, ident, string, number, punct, keyword, Token}

abbrev pub kind_eq : TokenKind → TokenKind → Bool
kind_eq eof eof = true
kind_eq ident ident = true
kind_eq string string = true
kind_eq number number = true
kind_eq punct punct = true
kind_eq keyword keyword = true
kind_eq _ _ = false

abbrev pub Parsed : Type 0 → Type 0
Parsed A = Outcome Error (A × List Token)

abbrev pub no_token : Token
no_token = record { kind = eof; value = []; line = 0; col = 0 }

abbrev pub peek : List Token → Token
peek [] = no_token
peek (t ∷ ts) = t

abbrev pub advance : List Token → List Token
advance [] = []
advance (t ∷ ts) = ts

-- `p.peek().Kind == kind && p.peek().Value == value`
unfoldable pub at : TokenKind → Text → List Token → Bool
at kind value ts = kind_eq (peek ts).kind kind && text_eq (peek ts).value value

unfoldable pub expect : TokenKind → Text → List Token → Parsed Token
expect kind value ts =
    let t = peek ts in
    if kind_eq t.kind kind && (text_eq value [] || text_eq t.value value)
    then ok (t, advance ts)
    else err (expected t.line t.col value t.value)

-- `strconv.ParseInt(s, 10, 64)` on the digits of a number token.
abbrev digits_value : ℕ → Text → Option ℕ
digits_value acc [] = some acc
digits_value acc (c ∷ cs) =
    let more = digits_value (acc * 10 + (c - b'0')) cs in if ascii_digit c then more else none

abbrev pub max_int64 : ℕ
max_int64 = 2 ^ 63 - 1

unfoldable pub parse_int : Text → Option ℕ
parse_int [] = none
parse_int (c ∷ cs) = elim (digits_value 0 (c ∷ cs)) [
  | none ↦ none
  | some n ↦ if leb n max_int64 then some n else none
]

unfoldable pub value_of : TokenKind → Token → List Token → Parsed Value
value_of string t us = ok (string_value t.value, us)
value_of number t us = elim (parse_int t.value) [
  | none ↦ err (bad_number t.line t.value)
  | some n ↦ ok (number_value n, us)
]
value_of _ t us = err (expected_literal t.line t.value)

unfoldable pub parse_value : List Token → Parsed Value
unfolding value_of
parse_value ts = value_of (peek ts).kind (peek ts) (advance ts)

-- The loop of `parseValueList`.
unfoldable pub values_loop : ℕ → List Token → Parsed (List Value)
values_loop zero ts = out_of_fuel
values_loop (suc n) ts =
    let item = parse_value ts >>= λ (v, us).
    let more = values_loop n (advance us) >>= λ (vs, ws). ok (v ∷ vs, ws) in
    let last = expect punct (codes "]") us >>= λ (_, ws). ok (v ∷ [], ws) in
    if at punct (codes ",") us then more else last in
    if at punct (codes "]") ts then ok ([], advance ts) else item

unfoldable pub parse_value_list : ℕ → List Token → Parsed (List Value)
parse_value_list n ts = expect punct (codes "[") ts >>= λ (_, us). values_loop n us
