-- ===== src/Samples/Parsing.antt =====
-- The parser on small sources.
use firefik.Prelude.{
  ◌≡◌, refl, [], ◌∷◌, ◌>>=◌, true, false, Text, List, Outcome, codes, map, text_eq, contains, ok,
  out_of_fuel, ◌≢◌, inl, Delivers,
}
use firefik.Policy.Ast.{
  Rule, Policy, allow, block, or_expr, and_expr, not_expr, compare_expr, in_expr, string_value,
  number_value,
}
use firefik.Policy.Error.{Error}
use firefik.Policy.Unicode.{ascii, is_space}
use firefik.Policy.Lexer.{lex}
use firefik.Policy.Lexer.Total.{EndsInEof, lex-Delivers}
use firefik.Policy.Parser.Tokens.{at, expect, parse_value, parse_value_list, parse_int, values_loop}
use firefik.Policy.Parser.Exprs.{parse_or, parse_field}
use firefik.Policy.Parser.Files.{parse, parse_all, parse_policy, rules_loop, parse_rule, version_of}
use firefik.Policy.Parser.Grammar.{
  file_more, file_end, policy, cons, rule, closed, sym, or_phrase, or_done, and_phrase, and_done,
  plain, comparison, number_literal,
}
use firefik.Policy.Parser.FileSound.{stamp}
use firefik.Policy.Parser.Exact.{Means, parse-total, parse_sound, parse_complete}

abbrev rules_of : Text → Outcome Error (List (List Rule))
rules_of src = parse (λ s. s) ascii src >>= λ ps. ok (map (λ (p : Policy). p.rules) ps)

-- `and` binds tighter than `or`, and both are left-associative.
precedence :
    rules_of (
      codes
        "policy \"p\" { allow if port == 1 or port in [2, 3,] and proto == \"u\" or a not in [] }")
    ≡ ok (
        (record {
          action = allow;
          expr =
              or_expr
                (or_expr (compare_expr (codes "port") (codes "==") (number_value 1)) (
                  and_expr
                    (in_expr (codes "port") false (number_value 2 ∷ number_value 3 ∷ []))
                    (compare_expr (codes "proto") (codes "==") (string_value (codes "u")))))
                (in_expr (codes "a") true []);
        }
          ∷ [])
        ∷ [])
unfolding parse parse_all parse_policy rules_loop parse_rule parse_or parse_field at expect
    parse_value parse_value_list values_loop lex text_eq contains is_space parse_int
precedence = refl

abbrev two_ports : Text
two_ports = codes "policy \"p\" { allow if port == 80 block if not (port == 22) }"

abbrev two_ports_rules : List Rule
two_ports_rules =
    record { action = allow; expr = compare_expr (codes "port") (codes "==") (number_value 80) }
    ∷ record {
      action = block;
      expr = not_expr (compare_expr (codes "port") (codes "==") (number_value 22));
    }
    ∷ []

abbrev two_ports_policies : List Policy
two_ports_policies =
    record {
      name = codes "p";
      rules = two_ports_rules;
      version = codes "name=p\nrules=2";
      source = [];
      source_bytes = two_ports;
    }
    ∷ []

two_ports-parse : parse (λ s. s) ascii two_ports ≡ ok two_ports_policies
unfolding parse parse_all parse_policy rules_loop parse_rule parse_or parse_field at expect
    parse_value parse_value_list values_loop lex text_eq contains is_space parse_int version_of
two_ports-parse = refl

-- A derivation in the grammar.
abbrev one_port : Text
one_port = codes "policy \"p\" { allow if port == 80 }"

abbrev one_port_sums : List (Text × List Rule)
one_port_sums =
    (
      codes "p",
      record { action = allow; expr = compare_expr (codes "port") (codes "==") (number_value 80) }
          ∷ [],
    )
    ∷ []

one_port-Means : Means ascii one_port one_port_sums
unfolding lex text_eq contains is_space parse_int
one_port-Means = (
  _,
  refl,
  file_more
      (policy (sym refl refl) refl (sym refl refl) (
        cons
          (rule allow (sym refl refl) (sym refl refl) (
            or_phrase
              (and_phrase (plain (comparison refl refl (inl refl) (number_literal refl refl)))
                and_done)
              or_done))
          (closed (sym refl refl))))
      (file_end refl),
)

parse-total_example : parse (λ s. s) ascii (codes "policy \"p") ≢ out_of_fuel
parse-total_example = parse-total (λ s. s) ascii (codes "policy \"p")

parse_sound_example :
    (sums : List (Text × List Rule)) × Means ascii two_ports sums
    × (two_ports_policies ≡ map (stamp (λ s. s) two_ports) sums)
parse_sound_example = parse_sound (λ s. s) ascii two_ports two_ports_policies two_ports-parse

parse_complete_example :
    parse (λ s. s) ascii one_port ≡ ok (map (stamp (λ s. s) one_port) one_port_sums)
parse_complete_example = parse_complete (λ s. s) ascii one_port one_port_sums one_port-Means

lex-Delivers_example : Delivers EndsInEof (lex ascii (codes "port >= 80"))
lex-Delivers_example = lex-Delivers ascii (codes "port >= 80")
