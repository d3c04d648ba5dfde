-- ===== src/AgentDispatch/Snippets/Opening.antt =====
-- How the lexer of policies reads the start of a policy that is written for a proposal.
use firefik.Prelude.{
  ℕ, suc, ◌+◌, ◌≡◌, refl, sym, ap, subst, ◌∙◌, true, false, ◌||◌, List, [], ◌∷◌, ◌++◌, append_assoc,
  All, Text, codes, text_eq, contains, length, ok, bind-eq-ok, ok-injective, append-nil, ◌==◌,
  arith,
}
use firefik.Policy.Unicode.{Unicode, ascii, ascii_letter, ascii_digit, is_space}
use firefik.Policy.Lexer.{
  ident, string, punct, keyword, Token, Lexer, new_lexer, past, string_body, next, is_eof, tokenize,
}

-- Letters and digits of ASCII, which the identifiers of containers consist of.
abbrev pub IsPlain : Text → Type 0
IsPlain s = All (λ c. (ascii_letter c || ascii_digit c) ≡ true) s

-- A token that is read, and the rest of the tokens.
first-token :
    (u : Unicode) (n : ℕ) (l l' : Lexer) (t : Token) (ts : List Token)
    → next u l ≡ ok (t, l')
    → is_eof t.kind ≡ false
    → tokenize u (suc n) l ≡ ok ts
    → (ts' : List Token) × (ts ≡ t ∷ ts') × (tokenize u n l' ≡ ok ts')
unfolding tokenize
first-token u n l l' t ts read more h =
    let (ts', lexed, e) = bind-eq-ok (tokenize u n l') (λ ts. ok (t ∷ ts)) (rw (read, more) at h) in
    (ts', sym (ok-injective e), lexed)

plain_runes :
    (c : ℕ)
    → (ascii_letter c || ascii_digit c) ≡ true
    → ((c == b'"') ≡ false) × ((c == b'\\') ≡ false)
plain_runes c h = ground arith

body-step :
    (line col c d : ℕ) (tail b : Text) (l : Lexer)
    → (ascii_letter c || ascii_digit c) ≡ true
    → string_body line col (c ∷ d ∷ tail) l b
      ≡ string_body line col (d ∷ tail) (past c (d ∷ tail) l) (b ++ c ∷ [])
unfolding string_body
body-step line col c d tail b l h =
    let (no_quote, no_slash) = plain_runes c h in rw (no_quote, no_slash) refl

closing-quote :
    (line col : ℕ) (rest b : Text) (l : Lexer)
    → string_body line col (b'"' ∷ rest) l b
      ≡ ok (record { kind = string; value = b; line = line; col = col }, past b'"' rest l)
unfolding string_body
closing-quote line col [] b l = refl
closing-quote line col (d ∷ cs) b l = refl

then-quote : (cs rest : Text) → (d : ℕ) × (tail : Text) × (cs ++ b'"' ∷ rest ≡ d ∷ tail)
then-quote [] rest = (b'"', rest, refl)
then-quote (c ∷ cs) rest = (c, cs ++ b'"' ∷ rest, refl)

-- The body of a string of plain runes.
body-plain :
    (line col : ℕ) (s rest b : Text) (l : Lexer)
    → IsPlain s
    → (l' : Lexer) × (string_body line col (s ++ b'"' ∷ rest) l b
        ≡ ok (record { kind = string; value = b ++ s; line = line; col = col }, l'))
      × (l'.rest ≡ rest)
body-plain line col [] rest b l h =
    (past b'"' rest l, rw append-nil (closing-quote line col rest b l), refl)
body-plain line col (c ∷ cs) rest b l (h, hs) =
    let (d, tail, e) = then-quote cs rest in
    let (l', done, is) =
      body-plain line col cs rest (b ++ c ∷ []) (past c (cs ++ b'"' ∷ rest) l) hs in
    let step : string_body line col (c ∷ (cs ++ b'"' ∷ rest)) l b
        ≡ string_body line col (cs ++ b'"' ∷ rest) (past c (cs ++ b'"' ∷ rest) l) (b ++ c ∷ []) =
      subst
        (λ r. string_body line col (c ∷ r) l b ≡ string_body line col r (past c r l) (b ++ c ∷ []))
        (sym e) (body-step line col c d tail b l h) in
    (l', step ∙ rw append_assoc at done, is)

abbrev pub kw : Token
kw = record { kind = keyword; value = codes "policy"; line = 1; col = 1 }

abbrev at_rest : Text → ℕ → ℕ → Lexer
at_rest rest line col = record { rest = rest; line = line; col = col }

read-policy :
    (c : ℕ) (cs : Text)
    → next ascii (new_lexer (codes "policy " ++ c ∷ cs)) ≡ ok (kw, at_rest (b' ' ∷ c ∷ cs) 1 7)
unfolding next is_space contains text_eq
read-policy c cs = refl

read-quote :
    (d : ℕ) (tail : Text) (line col : ℕ)
    → next ascii (at_rest (b' ' ∷ b'"' ∷ d ∷ tail) line col)
      ≡ string_body line (col + 1) (d ∷ tail) (at_rest (d ∷ tail) line (col + 1 + 1)) []
unfolding next is_space
read-quote d tail line col = refl

-- What follows the name, up to the first rule.
abbrev pub opening : Text → Text
opening rest = codes " {\n" ++ (codes "  default deny\n" ++ rest)

abbrev pub brace : ℕ → ℕ → Token
brace line col = record { kind = punct; value = codes "{"; line = line; col = col }

abbrev pub default_word : ℕ → Token
default_word line = record { kind = ident; value = codes "default"; line = line; col = 3 }

read-brace :
    (rest : Text) (line col : ℕ)
    → next ascii (at_rest (opening rest) line col)
      ≡ ok (
        brace line (col + 1),
        at_rest (codes "\n" ++ (codes "  default deny\n" ++ rest)) line (col + 1 + 1),
      )
unfolding next is_space
read-brace rest line col = refl

read-default :
    (rest : Text) (line col : ℕ)
    → next ascii (at_rest (codes "\n" ++ (codes "  default deny\n" ++ rest)) line col)
      ≡ ok (default_word (line + 1), at_rest (codes " deny\n" ++ rest) (line + 1) 10)
unfolding next is_space contains text_eq
read-default rest line col = refl

abbrev pub name_token : Text → Token
name_token name = record { kind = string; value = name; line = 1; col = 8 }

-- The tokens of such a text, if it has some: the head of a policy and an identifier.
abbrev pub Head : Text → List Token → Type 0
Head name ts =
    (line : ℕ) × (col : ℕ) × (ts' : List Token) × (ts
      ≡ kw ∷ name_token name ∷ brace line col ∷ default_word (line + 1) ∷ ts')

tokens-Head :
    (n d : ℕ) (ds rest : Text) (ts : List Token)
    → IsPlain (d ∷ ds)
    → tokenize ascii
        (suc (suc (suc (suc n))))
        (new_lexer (codes "policy " ++ (b'"' ∷ d ∷ ds ++ b'"' ∷ opening rest)))
      ≡ ok ts
    → Head (d ∷ ds) ts
tokens-Head n d ds rest ts plain lexed =
    let (m, read, at_opening) =
      body-plain 1 8 (d ∷ ds) (opening rest) [] (at_rest (d ∷ (ds ++ b'"' ∷ opening rest)) 1 9)
        plain in
    let (ts1, e1, h1) =
      first-token ascii _ _ _ kw ts (read-policy b'"' (d ∷ (ds ++ b'"' ∷ opening rest))) refl
        lexed in
    let (ts2, e2, h2) =
      first-token ascii _ _ m (name_token (d ∷ ds)) ts1
        (read-quote d (ds ++ b'"' ∷ opening rest) 1 7 ∙ read) refl h1 in
    let (ts3, e3, h3) =
      first-token ascii _ m _ (brace m.line (m.col + 1)) ts2
        (subst
          (λ r.
            next ascii (at_rest r m.line m.col)
            ≡ ok (
              brace m.line (m.col + 1),
              at_rest (codes "\n" ++ (codes "  default deny\n" ++ rest)) m.line (m.col + 1 + 1),
            ))
          (sym at_opening) (read-brace rest m.line m.col))
        refl h2 in
    let (ts4, e4, _) =
      first-token ascii _ _ _ (default_word (m.line + 1)) ts3
        (read-default rest m.line (m.col + 1 + 1)) refl h3 in
    (
      m.line,
      m.col + 1,
      ts4,
      e1
          ∙ ap (λ l. kw ∷ l)
              (e2
                ∙ ap (λ l. name_token (d ∷ ds) ∷ l)
                    (e3 ∙ ap (λ l. brace m.line (m.col + 1) ∷ l) e4)),
    )

-- The text, with what stands behind the opening.
abbrev pub written : ℕ → Text → Text → Text
written d ds rest = codes "policy " ++ (b'"' ∷ d ∷ ds ++ b'"' ∷ opening rest)

pub lexed-Head :
    (src : Text) (d : ℕ) (ds rest : Text) (ts : List Token)
    → IsPlain (d ∷ ds)
    → src ≡ written d ds rest
    → tokenize ascii (length src + 1) (new_lexer src) ≡ ok ts
    → Head (d ∷ ds) ts
lexed-Head src d ds rest ts plain is h =
    tokens-Head (suc (suc (suc (suc (suc (length (d ∷ ds ++ b'"' ∷ opening rest))))))) d ds rest ts
      plain
      (subst (λ k. tokenize ascii k (new_lexer (written d ds rest)) ≡ ok ts) (omega arith)
        (subst (λ s. tokenize ascii (length s + 1) (new_lexer s) ≡ ok ts) is h))
