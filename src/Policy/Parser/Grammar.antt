-- ===== src/Policy/Parser/Grammar.antt =====
-- The grammar of the policy language, as relations between a token list, what a phrase at its front
-- means, and the tokens behind the phrase. It stands apart from the parser: no lookahead, no fuel.
--
--   file   = { policy }                      or    = and { "or" and }
--   policy = "policy" string "{" rules       and   = unary { "and" unary }
--   rules  = { rule } ( "}" | end of file )  unary = [ "not" ] atom
--   rule   = action "if" or                  atom  = "(" or ")" | field op value
--                                                  | field [ "not" ] "in" "[" values "]"
use firefik.Prelude.{ℕ, ◌≡◌, true, false, some, List, [], ◌∷◌, Text, codes, Mention}
use firefik.Policy.Ast.{
  Action, allow, block, log, Value, string_value, number_value, Expr, and_expr, or_expr, not_expr,
  compare_expr, in_expr, Rule,
}
use firefik.Policy.Lexer.{TokenKind, eof, ident, string, number, punct, keyword, Token}
use firefik.Policy.Parser.Tokens.{peek, parse_int}
use firefik.Policy.Parser.Exprs.{comparison_ops}

-- One token of the given kind and text.
pub data Sym (kind : TokenKind) (value : Text) : List Token → List Token → Type 0 where
  sym : {t : Token} {us : List Token} → t.kind ≡ kind → t.value ≡ value → Sym kind value (t ∷ us) us

pub data ValuePhrase : List Token → Value → List Token → Type 0 where
  string_literal :
      {t : Token} {us : List Token}
      → t.kind ≡ string
      → ValuePhrase (t ∷ us) (string_value t.value) us
  number_literal :
      {t : Token} {us : List Token} {n : ℕ}
      → t.kind ≡ number
      → parse_int t.value ≡ some n
      → ValuePhrase (t ∷ us) (number_value n) us

-- What stands behind `[`: values with commas between, one more comma allowed, and `]`.
pub data ValuesPhrase : List Token → List Value → List Token → Type 0 where
  close : {ts us : List Token} → Sym punct (codes "]") ts us → ValuesPhrase ts [] us
  last :
      {ts us ws : List Token} {v : Value}
      → ValuePhrase ts v us
      → Sym punct (codes "]") us ws
      → ValuesPhrase ts (v ∷ []) ws
  more :
      {ts us ws xs : List Token} {v : Value} {vs : List Value}
      → ValuePhrase ts v us
      → Sym punct (codes ",") us ws
      → ValuesPhrase ws vs xs
      → ValuesPhrase ts (v ∷ vs) xs

mutual
  pub data OrPhrase : List Token → Expr → List Token → Type 0 where
    or_phrase :
        {ts us vs : List Token} {l e : Expr}
        → AndPhrase ts l us
        → OrTail us l e vs
        → OrPhrase ts e vs

  -- What may follow the left operand `l`, and the expression that it makes of it.
  pub data OrTail : List Token → Expr → Expr → List Token → Type 0 where
    or_done : {ts : List Token} {l : Expr} → OrTail ts l l ts
    or_more :
        {ts us vs ws : List Token} {l r e : Expr}
        → Sym keyword (codes "or") ts us
        → AndPhrase us r vs
        → OrTail vs (or_expr l r) e ws
        → OrTail ts l e ws

  pub data AndPhrase : List Token → Expr → List Token → Type 0 where
    and_phrase :
        {ts us vs : List Token} {l e : Expr}
        → UnaryPhrase ts l us
        → AndTail us l e vs
        → AndPhrase ts e vs

  pub data AndTail : List Token → Expr → Expr → List Token → Type 0 where
    and_done : {ts : List Token} {l : Expr} → AndTail ts l l ts
    and_more :
        {ts us vs ws : List Token} {l r e : Expr}
        → Sym keyword (codes "and") ts us
        → UnaryPhrase us r vs
        → AndTail vs (and_expr l r) e ws
        → AndTail ts l e ws

  pub data UnaryPhrase : List Token → Expr → List Token → Type 0 where
    plain : {ts us : List Token} {e : Expr} → AtomPhrase ts e us → UnaryPhrase ts e us
    negated :
        {ts us vs : List Token} {e : Expr}
        → Sym keyword (codes "not") ts us
        → AtomPhrase us e vs
        → UnaryPhrase ts (not_expr e) vs

  pub data AtomPhrase : List Token → Expr → List Token → Type 0 where
    group :
        {ts us vs ws : List Token} {e : Expr}
        → Sym punct (codes "(") ts us
        → OrPhrase us e vs
        → Sym punct (codes ")") vs ws
        → AtomPhrase ts e ws
    comparison :
        {t o : Token} {us vs : List Token} {v : Value}
        → t.kind ≡ ident
        → o.kind ≡ punct
        → Mention o.value comparison_ops
        → ValuePhrase us v vs
        → AtomPhrase (t ∷ o ∷ us) (compare_expr t.value o.value v) vs
    membership :
        {t : Token} {us vs ws xs : List Token} {values : List Value}
        → t.kind ≡ ident
        → Sym keyword (codes "in") us vs
        → Sym punct (codes "[") vs ws
        → ValuesPhrase ws values xs
        → AtomPhrase (t ∷ us) (in_expr t.value false values) xs
    exclusion :
        {t : Token} {us us' vs ws xs : List Token} {values : List Value}
        → t.kind ≡ ident
        → Sym keyword (codes "not") us us'
        → Sym keyword (codes "in") us' vs
        → Sym punct (codes "[") vs ws
        → ValuesPhrase ws values xs
        → AtomPhrase (t ∷ us) (in_expr t.value true values) xs

-- The keyword that spells an action.
abbrev pub action_name : Action → Text
action_name allow = codes "allow"
action_name block = codes "block"
action_name log = codes "log"

pub data RulePhrase : List Token → Rule → List Token → Type 0 where
  rule :
      {ts us vs ws : List Token} {e : Expr} (a : Action)
      → Sym keyword (action_name a) ts us
      → Sym keyword (codes "if") us vs
      → OrPhrase vs e ws
      → RulePhrase ts (record { action = a; expr = e }) ws

-- The rules of a policy up to its closing brace, or up to the end of the file.
pub data RulesPhrase : List Token → List Rule → List Token → Type 0 where
  closed : {ts us : List Token} → Sym punct (codes "}") ts us → RulesPhrase ts [] us
  unclosed : {ts : List Token} → (peek ts).kind ≡ eof → RulesPhrase ts [] ts
  cons :
      {ts us vs : List Token} {r : Rule} {rs : List Rule}
      → RulePhrase ts r us
      → RulesPhrase us rs vs
      → RulesPhrase ts (r ∷ rs) vs

-- A policy gives its name and its rules.
pub data PolicyPhrase : List Token → Text → List Rule → List Token → Type 0 where
  policy :
      {ts us vs ws : List Token} {t : Token} {rs : List Rule}
      → Sym keyword (codes "policy") ts (t ∷ us)
      → t.kind ≡ string
      → Sym punct (codes "{") us vs
      → RulesPhrase vs rs ws
      → PolicyPhrase ts t.value rs ws

pub data FilePhrase : List Token → List (Text × List Rule) → Type 0 where
  file_end : {ts : List Token} → (peek ts).kind ≡ eof → FilePhrase ts []
  file_more :
      {ts us : List Token} {name : Text} {rs : List Rule} {ps : List (Text × List Rule)}
      → PolicyPhrase ts name rs us
      → FilePhrase us ps
      → FilePhrase ts ((name, rs) ∷ ps)
