-- ===== src/Samples/Lexing.antt =====
-- The lexer on small sources.
use firefik.Prelude.{◌≡◌, refl, [], ◌∷◌, codes, text_eq, contains, ok, err}
use firefik.Policy.Error.{unknown_escape}
use firefik.Policy.Unicode.{ascii, is_space}
use firefik.Policy.Lexer.{lex, eof, ident, number, punct}

lex_comparison :
    lex ascii (codes "port>=80 # x")
    ≡ ok (
        record { kind = ident; value = codes "port"; line = 1; col = 1 }
        ∷ record { kind = punct; value = codes ">="; line = 1; col = 5 }
        ∷ record { kind = number; value = codes "80"; line = 1; col = 7 }
        ∷ record { kind = eof; value = []; line = 1; col = 13 }
        ∷ [])
unfolding lex text_eq is_space contains
lex_comparison = refl

lex_errors : lex ascii (codes "\"a\\q\"") ≡ err (unknown_escape 1 b'q')
unfolding lex text_eq is_space contains
lex_errors = refl
