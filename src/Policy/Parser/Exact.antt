-- ===== src/Policy/Parser/Exact.antt =====
-- `Parse` against the grammar: it always returns, what it returns is what the grammar gives, and it
-- refuses nothing that the grammar allows.
use firefik.Prelude.{
  ◌≡◌, ◌≢◌, List, Text, map, arith, ok, out_of_fuel, bind-eq-ok, Delivers-map, Delivers-ok,
  Delivers-total, Delivers-bind,
}
use firefik.Policy.Ast.{Rule, Policy}
use firefik.Policy.Unicode.{Unicode}
use firefik.Policy.Lexer.{Token, lex}
use firefik.Policy.Lexer.Total.{lex-Delivers}
use firefik.Policy.Parser.Files.{parse, parse_all, fuel_for}
use firefik.Policy.Parser.Grammar.{FilePhrase}
use firefik.Policy.Parser.FileSound.{stamp, file-Delivers}
use firefik.Policy.Parser.FileComplete.{file_complete}

-- The grammar gives the source `src` the policies `sums`: it splits into tokens that form such a file.
abbrev pub Means : Unicode → Text → List (Text × List Rule) → Type 0
Means u src sums = (ts : List Token) × (lex u src ≡ ok ts) × FilePhrase ts sums

module _ (sha256 : Text → Text) (u : Unicode) (src : Text) where
  -- Parsing ends on every source, with policies or with an error: the fuel is enough.
  pub parse-total : parse sha256 u src ≢ out_of_fuel
  unfolding parse
  parse-total = Delivers-total {P = λ _. Unit {0}} (
      Delivers-bind (lex-Delivers u src)
        λ ts _. Delivers-map (file-Delivers sha256 src (fuel_for ts) ts (omega arith)) λ _ _. tt)

  -- The policies that a successful parse returns are those that the grammar gives the source, in its
  -- order, each with its name, rules, version and the whole source.
  pub parse_sound :
      (ps : List Policy)
      → parse sha256 u src ≡ ok ps
      → (sums : List (Text × List Rule)) × Means u src sums × (ps ≡ map (stamp sha256 src) sums)
  unfolding parse
  parse_sound ps h =
      let (ts, lexed, parsed) =
        bind-eq-ok (lex u src) (λ ts. parse_all sha256 src (fuel_for ts) ts) h in
      let (sums, phrase, e) =
        Delivers-ok (file-Delivers sha256 src (fuel_for ts) ts (omega arith)) parsed in
      (sums, (ts, lexed, phrase), e)

  -- A source to which the grammar gives policies is accepted, with those policies.
  pub parse_complete :
      (sums : List (Text × List Rule))
      → Means u src sums
      → parse sha256 u src ≡ ok (map (stamp sha256 src) sums)
  unfolding parse
  parse_complete sums (ts, lexed, phrase) =
      rw lexed (file_complete sha256 src phrase (fuel_for ts) (omega arith))
