-- ===== src/Policy/Error.antt =====
-- The errors of the policy language, a constructor for each `fmt.Errorf` of lexer.go, parser.go and
-- compile.go, with the values that it prints.
use firefik.Prelude.{ℕ, Text}

pub data Error : Type 0 where
  unexpected_character : ℕ → ℕ → ℕ → Error
  trailing_backslash : ℕ → ℕ → Error
  unknown_escape : ℕ → ℕ → Error
  unterminated_string : ℕ → ℕ → Error
  expected : ℕ → ℕ → Text → Text → Error
  expected_rule_keyword : ℕ → Text → Error
  unknown_rule_keyword : ℕ → Text → Error
  expected_field : ℕ → ℕ → Text → Error
  expected_op : ℕ → Text → Error
  unknown_op : ℕ → Text → Error
  bad_number : ℕ → Text → Error
  expected_literal : ℕ → Text → Error
  unsupported_negation : Error
  unsupported_predicate : Error
  wants_string : Text → Error
  wants_integer : Text → Error
  only_equality : Text → Error
  invalid_cidr : Text → Error
  unknown_field : Text → Error
  in_not_supported : Text → Error
