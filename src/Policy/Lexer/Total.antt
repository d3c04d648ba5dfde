-- ===== src/Policy/Lexer/Total.antt =====
-- `next` always reads, so the loop that collects the tokens ends, and with one end-of-file token.
use firefik.Prelude.{
  ℕ, zero, suc, ◌+◌, ◌≤◌, ◌<◌, ◌≡◌, ◌≢◌, refl, ap, ◌⊎◌, inl, inr, true, false, ◌||◌, List, [], ◌∷◌,
  ◌++◌, Text, length, arith, ◌==◌, contains, Bool, Delivers, delivers, refuses, Delivers-if,
  Delivers-bind, Delivers-map, Delivers-any, out_of_fuel,
}
use firefik.Policy.Unicode.{Unicode}
use firefik.Policy.Lexer.{
  TokenKind, eof, Token, Lexer, Lexed, past, advance, unescape, string_body, lex_string, span,
  ident_rune, lex_ident, lex_number, is_punct_start, punct_after, is_pair, lex_punct, lex_at,
  next_at, next, is_eof, keywords, tokenize, lex, skip_whitespace_and_comments, new_lexer,
}
use firefik.Policy.Lexer.Skip.{skip_lem, rest-past, rest-advance}

-- A token that is not the end of the file, and a lexer with at most `n` runes left.
abbrev Takes : ℕ → Token × Lexer → Type 0
Takes n (t, l) = (is_eof t.kind ≡ false) × (length l.rest ≤ n)

rest_length : (c : ℕ) (cs : Text) (l : Lexer) → length (past c cs l).rest ≤ length cs
rest_length c cs l = omega (arith, ap length (rest-past c cs l))

Takes-le : {m n : ℕ} (o : Lexed) → m ≤ n → Delivers (Takes m) o → Delivers (Takes n) o
Takes-le o h d = Delivers-map d λ (t, l) (k, le). (k, omega arith)

unescape-total : (line c : ℕ) → unescape line c ≢ out_of_fuel
unfolding unescape
unescape-total line c = ground arith

string_body-Takes :
    (line col : ℕ) (cs : Text) (l : Lexer) (b : Text)
    → Delivers (Takes (length cs)) (string_body line col cs l b)
unfolding string_body
string_body-Takes line col [] l b = refuses
string_body-Takes line col (c ∷ []) l b =
    Delivers-if (c == b'"') (λ _. delivers (refl, omega (arith, rest_length c [] l)))
      λ _. Delivers-if (c == b'\\') (λ _. refuses) (λ _. refuses)
string_body-Takes line col (c ∷ d ∷ cs) l b =
    Delivers-if (c == b'"') (λ _. delivers (refl, omega (arith, rest_length c (d ∷ cs) l)))
      λ _.
        Delivers-if (c == b'\\')
          (λ _.
            Delivers-bind (Delivers-any _ (unescape-total line d))
              λ e _. Takes-le _ (omega arith) (string_body-Takes line col cs _ _))
          (λ _. Takes-le _ (omega arith) (string_body-Takes line col (d ∷ cs) _ _))

span-shorter :
    (p : ℕ → Bool) (cs : Text) (l : Lexer) (b : Text)
    → l.rest ≡ cs
    → length (span p cs l b).1.rest ≤ length cs
unfolding span
span-shorter p [] l b e = omega (arith, ap length e)
span-shorter p (c ∷ cs) l b e =
    ground (arith, ap length e, span-shorter p cs (past c cs l) (b ++ c ∷ []) (rest-past c cs l))

span-reads :
    (p : ℕ → Bool) (c : ℕ) (cs : Text) (l : Lexer)
    → l.rest ≡ c ∷ cs
    → p c ≡ true
    → length (span p l.rest l []).1.rest ≤ length cs
unfolding span
span-reads p c cs l e h =
    simp e (rw h (span-shorter p cs (past c cs l) (c ∷ []) (rest-past c cs l)))

module _ (u : Unicode) where
  ident-Takes :
      (line col c : ℕ) (cs : Text) (l : Lexer)
      → l.rest ≡ c ∷ cs
      → ident_rune u c ≡ true
      → Delivers (Takes (length cs)) (lex_ident u line col l)
  unfolding lex_ident
  ident-Takes line col c cs l e h =
      let short = span-reads (ident_rune u) c cs l e h in
      Delivers-if (contains keywords (span (ident_rune u) l.rest l []).0)
        (λ _. delivers (refl, short)) (λ _. delivers (refl, short))

  number-Takes :
      (line col c : ℕ) (cs : Text) (l : Lexer)
      → l.rest ≡ c ∷ cs
      → u.is_digit c ≡ true
      → Delivers (Takes (length cs)) (lex_number u line col l)
  unfolding lex_number
  number-Takes line col c cs l e h = delivers (refl, span-reads u.is_digit c cs l e h)

string-Takes :
    (line col c : ℕ) (cs : Text) (l : Lexer)
    → l.rest ≡ c ∷ cs
    → Delivers (Takes (length cs)) (lex_string line col l)
unfolding lex_string
string-Takes line col c cs l e =
    Takes-le _ (omega (arith, ap length (rest-advance l e)))
      (string_body-Takes line col (advance l).rest (advance l) [])

punct_after-Takes :
    (line col r : ℕ) (l : Lexer) (cs : Text)
    → l.rest ≡ cs
    → Delivers (Takes (length cs)) (punct_after line col r l cs)
unfolding punct_after
punct_after-Takes line col r l [] e = delivers (refl, omega (arith, ap length e))
punct_after-Takes line col r l (c ∷ cs) e =
    Delivers-if (is_pair r c) (λ _. delivers (refl, omega (arith, ap length (rest-advance l e))))
      (λ _. delivers (refl, omega (arith, ap length e)))

punct-Takes :
    (line col c : ℕ) (cs : Text) (l : Lexer)
    → l.rest ≡ c ∷ cs
    → Delivers (Takes (length cs)) (lex_punct line col l)
unfolding lex_punct
punct-Takes line col c cs l e =
    Takes-le _ (omega (arith, ap length (rest-advance l e)))
      (punct_after-Takes line col _ (advance l) (advance l).rest refl)

abbrev pub EndsInEof : List Token → Type 0
EndsInEof [] = ⊥
EndsInEof (t ∷ []) = t.kind ≡ eof
EndsInEof (t ∷ u ∷ ts) = (t.kind ≢ eof) × EndsInEof (u ∷ ts)

module _ (u : Unicode) where
  lex_at-Takes :
      (r : ℕ) (cs : Text) (l : Lexer)
      → l.rest ≡ r ∷ cs
      → Delivers (Takes (length cs)) (lex_at u r l)
  unfolding lex_at
  lex_at-Takes r cs l e =
      Delivers-if (r == b'"') (λ _. string-Takes l.line l.col r cs l e)
        λ _.
          Delivers-if (u.is_letter r || r == b'_')
            (λ h. ident-Takes u l.line l.col r cs l e (unfold ident_rune in ground arith))
            λ _.
              Delivers-if (u.is_digit r) (λ h. number-Takes u l.line l.col r cs l e h)
                λ _.
                  Delivers-if (is_punct_start r) (λ _. punct-Takes l.line l.col r cs l e)
                    (λ _. refuses)

  -- A token, or the end of the file with no rune left.
  next_at-Takes :
      (l : Lexer) (cs : Text)
      → l.rest ≡ cs
      → Delivers
          (λ ((t, l') : Token × Lexer). (t.kind ≡ eof) ⊎ (length l'.rest < length l.rest))
          (next_at u l cs)
  unfolding next_at
  next_at-Takes l [] e = delivers (inl refl)
  next_at-Takes l (r ∷ cs) e =
      Delivers-map (lex_at-Takes r cs l e) λ (t, l') (k, le). inr (omega (arith, ap length e))

  next-Takes :
      (l : Lexer)
      → Delivers
          (λ ((t, l') : Token × Lexer). (t.kind ≡ eof) ⊎ (length l'.rest < length l.rest))
          (next u l)
  unfolding next
  next-Takes l =
      Delivers-map (next_at-Takes (skip_whitespace_and_comments l) _ refl)
        λ (t, l') k. ground (arith, (skip_lem l).0)

pub is_eof→eq : (k : TokenKind) → is_eof k ≡ true → k ≡ eof
is_eof→eq k h = ground arith

EndsInEof-cons :
    (t : Token) (ts : List Token) → is_eof t.kind ≡ false → EndsInEof ts → EndsInEof (t ∷ ts)
EndsInEof-cons t [] h e = elim e [ ]
EndsInEof-cons t (v ∷ ts) h e = (ground arith, e)

module _ (u : Unicode) where
  tokenize-Delivers : (n : ℕ) (l : Lexer) → length l.rest < n → Delivers EndsInEof (tokenize u n l)
  unfolding tokenize
  tokenize-Delivers zero l h = absurd (omega arith)
  tokenize-Delivers (suc n) l h = Delivers-bind (next-Takes u l) λ (t, l') k.
      Delivers-if (is_eof t.kind) (λ e. delivers (is_eof→eq t.kind e))
        λ more.
          Delivers-bind (tokenize-Delivers n l' (ground arith))
            λ ts e. delivers (EndsInEof-cons t ts more e)

  -- The lexer ends on every source, and the tokens it returns are some that are not the end of the
  -- file and then one that is.
  pub lex-Delivers : (src : Text) → Delivers EndsInEof (lex u src)
  unfolding lex
  lex-Delivers src = tokenize-Delivers (length src + 1) (new_lexer src) (omega arith)
