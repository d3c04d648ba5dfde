-- ===== src/Policy/Lexer.antt =====
-- backend/internal/policy/lexer.go. The fields `src` and `pos` of a lexer are the runes that are not
-- read yet, so `pos >= len(src)` is `rest = []`. The inner loops recur on those runes; the loop of
-- `skipWhitespaceAndComments` and that of `Parse` take fuel.
mod Skip
pub mod Total
use firefik.Prelude.{
  ℕ, zero, suc, ◌+◌, ◌≡◌, Bool, true, false, ◌&&◌, ◌||◌, List, [], ◌∷◌, ◌++◌, Text, codes, contains,
  text_eq, Outcome, ok, err, out_of_fuel, ◌>>=◌, length, ◌==◌, if◌then◌else◌, not,
}
use firefik.Policy.Error.{
  Error, unexpected_character, trailing_backslash, unknown_escape, unterminated_string,
}
use firefik.Policy.Unicode.{Unicode, is_space}

pub data TokenKind : Type 0 where
  eof ident string number punct keyword : TokenKind

pub record Token : Type 0 where
  pub kind : TokenKind
  pub value : Text
  pub line : ℕ
  pub col : ℕ

abbrev pub keywords : List Text
keywords =
    codes "policy"
    ∷ codes "allow"
    ∷ codes "block"
    ∷ codes "log"
    ∷ codes "if"
    ∷ codes "and"
    ∷ codes "or"
    ∷ codes "not"
    ∷ codes "in"
    ∷ []

pub record Lexer : Type 0 where
  pub rest : Text
  pub line : ℕ
  pub col : ℕ

abbrev pub new_lexer : Text → Lexer
new_lexer s = record { rest = s; line = 1; col = 1 }

-- The lexer behind a rune that `advance` has read.
abbrev pub past : ℕ → Text → Lexer → Lexer
past c cs l =
    if c == b'\n'
    then record { rest = cs; line = l.line + 1; col = 1 }
    else record { rest = cs; line = l.line; col = l.col + 1 }

unfoldable pub peek : Lexer → ℕ
peek l = elim l.rest [ [] ↦ 0 | c ∷ cs ↦ c ]

unfoldable pub advance : Lexer → Lexer
advance l = elim l.rest [ [] ↦ l | c ∷ cs ↦ past c cs l ]

-- `for l.pos < len(l.src) && l.peek() != '\n' { l.advance() }`, on the runes of `l`
unfoldable pub skip_line : Text → Lexer → Lexer
skip_line [] l = l
skip_line (c ∷ cs) l = let more = skip_line cs (past c cs l) in if c == b'\n' then l else more

abbrev pub starts_comment : Text → Bool
starts_comment [] = false
starts_comment (c ∷ []) = c == b'#'
starts_comment (c ∷ d ∷ cs) = c == b'#' || (c == b'/' && d == b'/')

-- The loop has as many rounds as there are runes at most.
unfoldable pub skip_blank : ℕ → Lexer → Lexer
unfolding skip_line advance peek
skip_blank zero l = l
skip_blank (suc n) l =
    let after_space = skip_blank n (advance l) in
    let after_comment = skip_blank n (skip_line l.rest l) in
    elim l.rest [
      | [] ↦ l
      | c ∷ cs ↦
          if is_space c then after_space else if starts_comment (c ∷ cs) then after_comment else l
    ]

unfoldable pub skip_whitespace_and_comments : Lexer → Lexer
unfolding skip_blank
skip_whitespace_and_comments l = skip_blank (length l.rest) l

abbrev pub Lexed : Type 0
Lexed = Outcome Error (Token × Lexer)

-- What a backslash and `next` append to the string, `none` of it for an unknown escape.
unfoldable pub unescape : ℕ → ℕ → Outcome Error ℕ
unescape line next =
    if next == b'"' || next == b'\\'
    then ok next
    else if next == b'n'
    then ok b'\n'
    else if next == b't'
    then ok b'\t'
    else err (unknown_escape line next)

-- The loop of `lexString`: `l` holds the runes given, `b` is the builder, `line` and `col` are where
-- the literal starts.
unfoldable pub string_body : ℕ → ℕ → Text → Lexer → Text → Lexed
unfolding unescape
string_body line col [] l b = err (unterminated_string line col)
string_body line col (c ∷ []) l b =
    if c == b'"'
    then ok (record { kind = string; value = b; line = line; col = col }, past c [] l)
    else if c == b'\\'
    then err (trailing_backslash line col)
    else err (unterminated_string line col)
string_body line col (c ∷ d ∷ cs) l b =
    let l' = past c (d ∷ cs) l in
    let more = string_body line col (d ∷ cs) l' (b ++ c ∷ []) in
    let escaped = unescape line d >>= λ e. string_body line col cs (past d cs l') (b ++ e ∷ []) in
    if c == b'"'
    then ok (record { kind = string; value = b; line = line; col = col }, l')
    else if c == b'\\'
    then escaped
    else more

unfoldable pub lex_string : ℕ → ℕ → Lexer → Lexed
unfolding string_body advance
lex_string line col l = let l' = advance l in string_body line col l'.rest l' []

-- The loops of `lexIdent` and `lexNumber`: the runes up to the first that fails the test.
unfoldable pub span : (ℕ → Bool) → Text → Lexer → Text → Text × Lexer
span p [] l b = (b, l)
span p (c ∷ cs) l b =
    let more = span p cs (past c cs l) (b ++ c ∷ []) in if p c then more else (b, l)

module _ (u : Unicode) where
  unfoldable pub ident_rune : ℕ → Bool
  ident_rune c = u.is_letter c || u.is_digit c || c == b'_'

  unfoldable pub lex_ident : ℕ → ℕ → Lexer → Lexed
  unfolding span ident_rune
  lex_ident line col l =
      let (val, l') = span ident_rune l.rest l [] in
      if contains keywords val
      then ok (record { kind = keyword; value = val; line = line; col = col }, l')
      else ok (record { kind = ident; value = val; line = line; col = col }, l')

  unfoldable pub lex_number : ℕ → ℕ → Lexer → Lexed
  unfolding span
  lex_number line col l =
      let (val, l') = span u.is_digit l.rest l [] in
      ok (record { kind = number; value = val; line = line; col = col }, l')

unfoldable pub is_punct_start : ℕ → Bool
is_punct_start c =
    c == b'{'
    || c == b'}'
    || c == b'['
    || c == b']'
    || c == b'('
    || c == b')'
    || c == b','
    || c == b'='
    || c == b'!'
    || c == b'<'
    || c == b'>'

-- The two-rune operators `==`, `!=`, `<=` and `>=`.
abbrev pub is_pair : ℕ → ℕ → Bool
is_pair r r2 = (r == b'=' || r == b'!' || r == b'<' || r == b'>') && r2 == b'='

-- `lexPunct` behind its first rune `r`, on the runes of `l`.
unfoldable pub punct_after : ℕ → ℕ → ℕ → Lexer → Text → Lexed
unfolding advance
punct_after line col r l [] =
    ok (record { kind = punct; value = r ∷ []; line = line; col = col }, l)
punct_after line col r l (r2 ∷ cs) =
    if is_pair r r2
    then ok (record { kind = punct; value = r ∷ r2 ∷ []; line = line; col = col }, advance l)
    else ok (record { kind = punct; value = r ∷ []; line = line; col = col }, l)

unfoldable pub lex_punct : ℕ → ℕ → Lexer → Lexed
unfolding advance peek punct_after
lex_punct line col l = let l' = advance l in punct_after line col (peek l) l' l'.rest

module _ (u : Unicode) where
  -- The switch of `next`, on the first rune.
  unfoldable pub lex_at : ℕ → Lexer → Lexed
  unfolding lex_string lex_ident lex_number lex_punct is_punct_start
  lex_at r l =
      if r == b'"'
      then lex_string l.line l.col l
      else if u.is_letter r || r == b'_'
      then lex_ident u l.line l.col l
      else if u.is_digit r
      then lex_number u l.line l.col l
      else if is_punct_start r
      then lex_punct l.line l.col l
      else err (unexpected_character l.line l.col r)

  -- `next` behind the blanks, on the runes of `l`.
  unfoldable pub next_at : Lexer → Text → Lexed
  unfolding lex_at
  next_at l [] = ok (record { kind = eof; value = []; line = l.line; col = l.col }, l)
  next_at l (r ∷ cs) = lex_at r l

  unfoldable pub next : Lexer → Lexed
  unfolding skip_whitespace_and_comments next_at
  next l0 = let l = skip_whitespace_and_comments l0 in next_at l l.rest

abbrev pub is_eof : TokenKind → Bool
is_eof eof = true
is_eof _ = false

module _ (u : Unicode) where
  -- The loop of `Parse` that collects the tokens, the end of file included.
  unfoldable pub tokenize : ℕ → Lexer → Outcome Error (List Token)
  unfolding next
  tokenize zero l = out_of_fuel
  tokenize (suc n) l = do
    (t, l') ← next u l
    let rest = tokenize n l'
    if is_eof t.kind then ok (t ∷ []) else do ts ← rest; ok (t ∷ ts)

  unfoldable pub lex : Text → Outcome Error (List Token)
  unfolding tokenize
  lex src = tokenize (length src + 1) (new_lexer src)
