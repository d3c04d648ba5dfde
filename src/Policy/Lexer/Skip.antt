-- ===== src/Policy/Lexer/Skip.antt =====
-- What `skipWhitespaceAndComments` leaves: a suffix of its input that begins with neither a space nor
-- a comment.
use firefik.Prelude.{
  Bool, not, ◌&&◌, ℕ, zero, suc, ◌≤◌, ◌≡◌, refl, true, if_ind, [], ◌∷◌, Text, length, arith, ap,
}
use firefik.Policy.Unicode.{is_space}
use firefik.Policy.Lexer.{
  Lexer, past, advance, skip_line, starts_comment, skip_blank, skip_whitespace_and_comments,
}

pub rest-past : (c : ℕ) (cs : Text) (l : Lexer) → (past c cs l).rest ≡ cs
rest-past c cs l = ground arith

-- A comment's first rune is no line end, so it is read.
skip_line-shorter : (cs : Text) (l : Lexer) → l.rest ≡ cs → length (skip_line cs l).rest ≤ length cs
unfolding skip_line
skip_line-shorter [] l e = omega (arith, ap length e)
skip_line-shorter (c ∷ cs) l e =
    ground (arith, ap length e, skip_line-shorter cs (past c cs l) (rest-past c cs l))

comment-shorter :
    (c : ℕ) (cs : Text) (l : Lexer)
    → starts_comment (c ∷ cs) ≡ true
    → length (skip_line (c ∷ cs) l).rest ≤ length cs
unfolding skip_line
comment-shorter c [] l h = ground (arith, skip_line-shorter [] (past c [] l) (rest-past c [] l))
comment-shorter c (d ∷ cs) l h =
    ground (arith, skip_line-shorter (d ∷ cs) (past c (d ∷ cs) l) (rest-past c (d ∷ cs) l))

-- Nothing more to skip: the end, or a rune that begins neither a space nor a comment.
abbrev pub is_start : Text → Bool
is_start [] = true
is_start (c ∷ cs) = not (is_space c) && not (starts_comment (c ∷ cs))

pub rest-advance : (l : Lexer) {c : ℕ} {cs : Text} → l.rest ≡ c ∷ cs → (advance l).rest ≡ cs
unfolding advance
rest-advance l {c} {cs} e = rw (e, advance) (rest-past c cs l)

skip_line_rest :
    (l : Lexer) {c : ℕ} {cs : Text}
    → l.rest ≡ c ∷ cs
    → starts_comment (c ∷ cs) ≡ true
    → length (skip_line l.rest l).rest ≤ length cs
skip_line_rest l {c} {cs} e k = simp e (comment-shorter c cs l k)

-- Where the skipping of `c ∷ cs` may end.
abbrev Skipped : Text → Lexer → Type 0
Skipped cs m = (length m.rest ≤ suc (length cs)) × (is_start m.rest ≡ true)

skip_blank_lem :
    (n : ℕ) (l : Lexer) (cs : Text)
    → l.rest ≡ cs
    → length cs ≤ n
    → (length (skip_blank n l).rest ≤ length cs) × (is_start (skip_blank n l).rest ≡ true)
unfolding skip_blank
skip_blank_lem zero l [] e h = (omega (arith, ap length e), rw e)
skip_blank_lem (suc n) l [] e h = rw (e, skip_blank) (omega (arith, ap length e), rw e)
skip_blank_lem zero l (c ∷ cs) e h = absurd (omega arith)
skip_blank_lem (suc n) l (c ∷ cs) e h =
    rw (e, skip_blank)
      (if_ind (Skipped cs) (is_space c)
        (λ _.
          let (le, start) = skip_blank_lem n (advance l) cs (rest-advance l e) (omega arith) in
          (omega arith, start))
        λ space.
          if_ind (Skipped cs) (starts_comment (c ∷ cs))
            (λ k.
              let short = skip_line_rest l e k in
              let (le, start) = skip_blank_lem n (skip_line l.rest l) _ refl (omega arith) in
              (omega arith, start))
            (λ k. (omega (arith, ap length e), rw e (rw (space, k)))))

-- `skipWhitespaceAndComments` reads no more than there is, and stops at the end or at a token.
pub skip_lem :
    (l : Lexer)
    → (length (skip_whitespace_and_comments l).rest ≤ length l.rest)
      × (is_start (skip_whitespace_and_comments l).rest ≡ true)
unfolding skip_whitespace_and_comments
skip_lem l = skip_blank_lem (length l.rest) l l.rest refl (omega arith)
