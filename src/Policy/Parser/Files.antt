-- ===== src/Policy/Parser/Files.antt =====
-- Rules, policies and whole files of backend/internal/policy/parser.go.
use firefik.Prelude.{
  ℕ, zero, suc, ◌+◌, ◌*◌, not, Option, none, some, List, [], ◌∷◌, ◌++◌, Text, codes, text_eq,
  decimal, take, Outcome, ok, err, out_of_fuel, ◌>>=◌, length, if◌then◌else◌,
}
use firefik.Policy.Ast.{Action, allow, block, log, Rule, Policy}
use firefik.Policy.Error.{Error, expected_rule_keyword, unknown_rule_keyword}
use firefik.Policy.Unicode.{Unicode}
use firefik.Policy.Lexer.{string, punct, keyword, Token, is_eof, lex}
use firefik.Policy.Parser.Tokens.{kind_eq, Parsed, peek, advance, at, expect}
use firefik.Policy.Parser.Exprs.{parse_or}

unfoldable pub action_of : Text → Option Action
action_of v =
    if text_eq v (codes "allow")
    then some allow
    else if text_eq v (codes "block")
    then some block
    else if text_eq v (codes "log")
    then some log
    else none

-- `parseRule` behind the switch on the keyword `t`.
unfoldable pub rule_behind : ℕ → Token → List Token → Option Action → Parsed Rule
rule_behind n t ts none = err (unknown_rule_keyword t.line t.value)
rule_behind n t ts (some a) = expect keyword (codes "if") ts >>= λ (_, us).
    parse_or n us >>= λ (e, vs). ok (record { action = a; expr = e }, vs)

unfoldable pub parse_rule : ℕ → List Token → Parsed Rule
unfolding action_of rule_behind
parse_rule n ts =
    let t = peek ts in
    if not (kind_eq t.kind keyword)
    then err (expected_rule_keyword t.line t.value)
    else rule_behind n t (advance ts) (action_of t.value)

-- The loop of `parsePolicy`.
unfoldable pub rules_loop : ℕ → List Token → Parsed (List Rule)
rules_loop zero ts = out_of_fuel
rules_loop (suc n) ts =
    let more = parse_rule n ts >>= λ (r, us). rules_loop n us >>= λ (rs, vs). ok (r ∷ rs, vs) in
    if is_eof (peek ts).kind
    then ok ([], ts)
    else if at punct (codes "}") ts
    then ok ([], advance ts)
    else more

-- Each token costs at most five calls, one on top of the other.
abbrev pub fuel_for : List Token → ℕ
fuel_for ts = 5 * length ts + 8

-- `sha256` maps a text to the hexadecimal form of its digest.
module _ (sha256 : Text → Text) where
  unfoldable pub version_of : Text → List Rule → Text
  unfolding decimal
  version_of name rules =
      take 16 (sha256 (codes "name=" ++ (name ++ (codes "\nrules=" ++ decimal (length rules)))))

  unfoldable pub parse_policy : Text → ℕ → List Token → Parsed Policy
  unfolding version_of
  parse_policy src n ts = expect keyword (codes "policy") ts >>= λ (_, us).
      expect string [] us >>= λ (name, vs). expect punct (codes "{") vs >>= λ (_, ws).
      rules_loop n ws >>= λ (rules, xs). ok (
        record {
          name = name.value;
          rules = rules;
          version = version_of name.value rules;
          source = [];
          source_bytes = src;
        },
        xs,
      )

  unfoldable pub parse_all : Text → ℕ → List Token → Outcome Error (List Policy)
  parse_all src zero ts = out_of_fuel
  parse_all src (suc n) ts =
      let more = parse_policy src n ts >>= λ (p, us). parse_all src n us >>= λ ps. ok (p ∷ ps) in
      if is_eof (peek ts).kind then ok [] else more

  unfoldable pub parse : Unicode → Text → Outcome Error (List Policy)
  parse u src = lex u src >>= λ ts. parse_all src (fuel_for ts) ts
