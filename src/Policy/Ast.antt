-- ===== src/Policy/Ast.antt =====
-- backend/internal/policy/ast.go. An `Expr` interface value is one of five structs, so it is a data
-- type with a constructor for each.
use firefik.Prelude.{ℕ, Bool, true, false, List, Text}

pub data Action : Type 0 where
  allow block log : Action

-- `Num` is an `int64` in the source; the parser stores values below 2 ^ 63 there.
pub record Value : Type 0 where
  pub str : Text
  pub num : ℕ
  pub is_num : Bool
  pub is_str : Bool

abbrev pub string_value : Text → Value
string_value s = record { str = s; num = 0; is_num = false; is_str = true }

abbrev pub number_value : ℕ → Value
number_value n = record { str = List.[]; num = n; is_num = true; is_str = false }

pub data Expr : Type 0 where
  and_expr : Expr → Expr → Expr
  or_expr : Expr → Expr → Expr
  not_expr : Expr → Expr
  compare_expr : Text → Text → Value → Expr
  in_expr : Text → Bool → List Value → Expr

pub record Rule : Type 0 where
  pub action : Action
  pub expr : Expr

pub record Policy : Type 0 where
  pub name : Text
  pub rules : List Rule
  pub version : Text
  pub source : Text
  pub source_bytes : Text
