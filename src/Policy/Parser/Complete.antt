-- ===== src/Policy/Parser/Complete.antt =====
-- Every phrase of an expression is read as the grammar says, where no operator follows that would
-- extend it.
use firefik.Prelude.{
  ℕ, zero, suc, ◌+◌, ◌*◌, ◌≤◌, ◌<◌, ◌≡◌, refl, ◌∙◌, true, false, List, ◌∷◌, Text, codes, text_eq,
  text_eq_iff, contains_iff, Mention, length, arith, ok,
}
use firefik.Policy.Ast.{Value, Expr, compare_expr, in_expr}
use firefik.Policy.Lexer.{TokenKind, ident, string, number, punct, keyword, Token}
use firefik.Policy.Parser.Tokens.{
  kind_eq, at, expect, value_of, parse_value, values_loop, parse_value_list,
}
use firefik.Policy.Parser.Exprs.{
  comparison_ops, parse_comparison, parse_field, parse_or, or_loop, parse_and, and_loop,
  parse_unary, parse_atom,
}
use firefik.Policy.Parser.Grammar.{
  Sym, sym, ValuePhrase, string_literal, number_literal, ValuesPhrase, close, last, more, OrPhrase,
  or_phrase, OrTail, or_done, or_more, AndPhrase, and_phrase, AndTail, and_done, and_more,
  UnaryPhrase, plain, negated, AtomPhrase, group, comparison, membership, exclusion,
}

pub kind_eq_refl : (k : TokenKind) → kind_eq k k ≡ true
kind_eq_refl k = ground arith

pub at-sym :
    (k : TokenKind) (v : Text) (t : Token) (us : List Token)
    → t.kind ≡ k
    → t.value ≡ v
    → at k v (t ∷ us) ≡ true
unfolding at
at-sym k v t us e f = ground (arith, kind_eq_refl k, text_eq_iff t.value v)

pub at_kind :
    (k j : TokenKind) (w : Text) (t : Token) (us : List Token)
    → t.kind ≡ k
    → kind_eq k j ≡ false
    → at j w (t ∷ us) ≡ false
unfolding at
at_kind k j w t us e h = ground arith

pub at_value :
    (j : TokenKind) (v w : Text) (t : Token) (us : List Token)
    → t.value ≡ v
    → text_eq v w ≡ false
    → at j w (t ∷ us) ≡ false
unfolding at
at_value j v w t us e h = ground arith

pub expect-sym :
    (k : TokenKind) (v : Text) (t : Token) (us : List Token)
    → t.kind ≡ k
    → t.value ≡ v
    → expect k v (t ∷ us) ≡ ok (t, us)
unfolding expect
expect-sym k v t us e f = ground (arith, kind_eq_refl k, text_eq_iff t.value v)

-- The token behind a phrase is not the one that `w` would need.
Sym-kind :
    {k : TokenKind} {v : Text} {ts us : List Token} (j : TokenKind) (w : Text)
    → kind_eq k j ≡ false
    → Sym k v ts us
    → at j w ts ≡ false
Sym-kind {k} j w h (sym {t} {us} e f) = at_kind k j w t us e h

Sym-value :
    {k : TokenKind} {v : Text} {ts us : List Token} (j : TokenKind) (w : Text)
    → text_eq v w ≡ false
    → Sym k v ts us
    → at j w ts ≡ false
Sym-value {v} j w h (sym {t} {us} e f) = at_value j v w t us f h

value_complete :
    {ts us : List Token} {v : Value} → ValuePhrase ts v us → parse_value ts ≡ ok (v, us)
unfolding parse_value value_of
value_complete (string_literal {t} e) = ground arith
value_complete (number_literal {t} e f) = ground arith

value-at : {ts us : List Token} {v : Value} (w : Text) → ValuePhrase ts v us → at punct w ts ≡ false
value-at w (string_literal {t} {us} e) = at_kind string punct w t us e refl
value-at w (number_literal {t} {us} e f) = at_kind number punct w t us e refl

value-shorter : {ts us : List Token} {v : Value} → ValuePhrase ts v us → length us < length ts
value-shorter (string_literal e) = omega arith
value-shorter (number_literal e f) = omega arith

pub Sym-shorter :
    {k : TokenKind} {v : Text} {ts us : List Token} → Sym k v ts us → length us < length ts
Sym-shorter (sym e f) = omega arith

values_complete :
    {ts us : List Token} {vs : List Value}
    → ValuesPhrase ts vs us
    → (n : ℕ) → 5 * length ts + 1 ≤ n
    → values_loop n ts ≡ ok (vs, us)
unfolding values_loop text_eq
values_complete p zero h = absurd (omega arith)
values_complete (close (sym {t} {us} e f)) (suc n) h = rw (at-sym punct (codes "]") t us e f)
values_complete (last v (sym {t} {us} e f)) (suc n) h = rw (
  value-at (codes "]") v,
  value_complete v,
  at_value punct (codes "]") (codes ",") t us f refl,
  expect-sym punct (codes "]") t us e f,
)
values_complete (more v (sym {t} {us} e f) p) (suc n) h = rw (
  value-at (codes "]") v,
  value_complete v,
  at-sym punct (codes ",") t us e f,
  values_complete p n (omega (arith, value-shorter v)),
)

values-shorter :
    {ts us : List Token} {vs : List Value} → ValuesPhrase ts vs us → length us < length ts
values-shorter (close s) = Sym-shorter s
values-shorter (last v s) = omega (arith, value-shorter v, Sym-shorter s)
values-shorter (more v s p) = omega (arith, value-shorter v, Sym-shorter s, values-shorter p)

mutual
  pub or-shorter : {ts us : List Token} {e : Expr} → OrPhrase ts e us → length us < length ts
  or-shorter (or_phrase p q) = omega (arith, and-shorter p, OrTail-shorter q)

  OrTail-shorter : {ts us : List Token} {l e : Expr} → OrTail ts l e us → length us ≤ length ts
  OrTail-shorter or_done = omega arith
  OrTail-shorter (or_more s p q) = omega (arith, Sym-shorter s, and-shorter p, OrTail-shorter q)

  and-shorter : {ts us : List Token} {e : Expr} → AndPhrase ts e us → length us < length ts
  and-shorter (and_phrase p q) = omega (arith, unary-shorter p, AndTail-shorter q)

  AndTail-shorter : {ts us : List Token} {l e : Expr} → AndTail ts l e us → length us ≤ length ts
  AndTail-shorter and_done = omega arith
  AndTail-shorter (and_more s p q) =
      omega (arith, Sym-shorter s, unary-shorter p, AndTail-shorter q)

  unary-shorter : {ts us : List Token} {e : Expr} → UnaryPhrase ts e us → length us < length ts
  unary-shorter (plain p) = atom-shorter p
  unary-shorter (negated s p) = omega (arith, Sym-shorter s, atom-shorter p)

  atom-shorter : {ts us : List Token} {e : Expr} → AtomPhrase ts e us → length us < length ts
  atom-shorter (group s p s') = omega (arith, Sym-shorter s, or-shorter p, Sym-shorter s')
  atom-shorter (comparison k k' m v) = omega (arith, value-shorter v)
  atom-shorter (membership k s s' p) =
      omega (arith, Sym-shorter s, Sym-shorter s', values-shorter p)
  atom-shorter (exclusion k s' s s'' p) =
      omega (arith, Sym-shorter s, Sym-shorter s', Sym-shorter s'', values-shorter p)

-- No `and` stands behind an operand, if none stands behind the whole.
OrTail-at :
    {ts us : List Token} {l e : Expr}
    → OrTail ts l e us
    → at keyword (codes "and") us ≡ false
    → at keyword (codes "and") ts ≡ false
unfolding text_eq
OrTail-at or_done h = h
OrTail-at (or_more s p q) h = Sym-value keyword (codes "and") refl s

comparison_complete :
    {us vs : List Token} {v : Value} (field : Text) (o : Token)
    → o.kind ≡ punct
    → Mention o.value comparison_ops
    → ValuePhrase us v vs
    → parse_comparison field (o ∷ us) ≡ ok (compare_expr field o.value v, vs)
unfolding parse_comparison
comparison_complete field o k m v =
    ground (arith, value_complete v, (contains_iff comparison_ops o.value).1 m, kind_eq_refl punct)

atom-at : {ts us : List Token} {e : Expr} → AtomPhrase ts e us → at keyword (codes "not") ts ≡ false
atom-at (group s p s') = Sym-kind keyword (codes "not") refl s
atom-at (comparison {t} {o} {us} k k' m v) = at_kind ident keyword (codes "not") t (o ∷ us) k refl
atom-at (membership {t} {us} k s s' p) = at_kind ident keyword (codes "not") t us k refl
atom-at (exclusion {t} {us} k s s' s'' p) = at_kind ident keyword (codes "not") t us k refl

parse_atom_field :
    (n : ℕ) (t : Token) (ts : List Token)
    → t.kind ≡ ident
    → parse_atom (suc n) (t ∷ ts) ≡ parse_field n t.value ts
unfolding parse_or
parse_atom_field n t ts k = ground (arith, at_kind ident punct (codes "(") t ts k refl)

module _ (n : ℕ) (field : Text) where
  field-comparison :
      {us vs : List Token} {v : Value} (o : Token)
      → o.kind ≡ punct
      → Mention o.value comparison_ops
      → ValuePhrase us v vs
      → parse_field n field (o ∷ us) ≡ ok (compare_expr field o.value v, vs)
  unfolding parse_field
  field-comparison {us} o k m v =
      rw
        (
          at_kind punct keyword (codes "in") o us k refl,
          at_kind punct keyword (codes "not") o us k refl,
        )
        (comparison_complete field o k m v)

  field-membership :
      {ts us vs ws : List Token} {values : List Value}
      → Sym keyword (codes "in") ts us
      → Sym punct (codes "[") us vs
      → ValuesPhrase vs values ws
      → 5 * length vs + 1 ≤ n
      → parse_field n field ts ≡ ok (in_expr field false values, ws)
  unfolding parse_field parse_value_list
  field-membership (sym {t} {us} e f) (sym {t = b} {us = vs} e' f') p h = rw (
    at-sym keyword (codes "in") t us e f,
    expect-sym punct (codes "[") b vs e' f',
    values_complete p n h,
  )

  field-exclusion :
      {ts us vs ws xs : List Token} {values : List Value}
      → Sym keyword (codes "not") ts us
      → Sym keyword (codes "in") us vs
      → Sym punct (codes "[") vs ws
      → ValuesPhrase ws values xs
      → 5 * length ws + 1 ≤ n
      → parse_field n field ts ≡ ok (in_expr field true values, xs)
  unfolding parse_field parse_value_list text_eq
  field-exclusion (sym {t} {us} e f) (sym {t = i} {us = vs} e' f') (sym {t = b} {us = ws} e'' f'') p
        h =
      rw (
        at_value keyword (codes "not") (codes "in") t us f refl,
        at-sym keyword (codes "not") t us e f,
        at-sym keyword (codes "in") i vs e' f',
        expect-sym punct (codes "[") b ws e'' f'',
        values_complete p n h,
      )

mutual
  unfolding parse_or text_eq

  pub or_complete :
      {ts us : List Token} {e : Expr}
      → OrPhrase ts e us
      → at keyword (codes "or") us ≡ false
      → at keyword (codes "and") us ≡ false
      → (n : ℕ) → 5 * length ts + 4 ≤ n
      → parse_or n ts ≡ ok (e, us)
  or_complete (or_phrase p q) fo fa zero h = absurd (omega arith)
  or_complete (or_phrase p q) fo fa (suc n) h =
      rw (and_complete p (OrTail-at q fa) n (omega arith))
        (OrTail-complete q fo fa n (omega (arith, and-shorter p)))

  OrTail-complete :
      {ts us : List Token} {l e : Expr}
      → OrTail ts l e us
      → at keyword (codes "or") us ≡ false
      → at keyword (codes "and") us ≡ false
      → (n : ℕ) → 5 * length ts + 1 ≤ n
      → or_loop n l ts ≡ ok (e, us)
  OrTail-complete or_done fo fa zero h = absurd (omega arith)
  OrTail-complete or_done fo fa (suc n) h = rw fo
  OrTail-complete (or_more s p q) fo fa zero h = absurd (omega arith)
  OrTail-complete (or_more (sym {t} {us} e f) p q) fo fa (suc n) h =
      rw (at-sym keyword (codes "or") t us e f, and_complete p (OrTail-at q fa) n (omega arith))
        (OrTail-complete q fo fa n (omega (arith, and-shorter p)))

  and_complete :
      {ts us : List Token} {e : Expr}
      → AndPhrase ts e us
      → at keyword (codes "and") us ≡ false
      → (n : ℕ) → 5 * length ts + 3 ≤ n
      → parse_and n ts ≡ ok (e, us)
  and_complete (and_phrase p q) fa zero h = absurd (omega arith)
  and_complete (and_phrase p q) fa (suc n) h =
      rw (unary_complete p n (omega arith))
        (AndTail-complete q fa n (omega (arith, unary-shorter p)))

  AndTail-complete :
      {ts us : List Token} {l e : Expr}
      → AndTail ts l e us
      → at keyword (codes "and") us ≡ false
      → (n : ℕ) → 5 * length ts + 1 ≤ n
      → and_loop n l ts ≡ ok (e, us)
  AndTail-complete and_done fa zero h = absurd (omega arith)
  AndTail-complete and_done fa (suc n) h = rw fa
  AndTail-complete (and_more s p q) fa zero h = absurd (omega arith)
  AndTail-complete (and_more (sym {t} {us} e f) p q) fa (suc n) h =
      rw (at-sym keyword (codes "and") t us e f, unary_complete p n (omega arith))
        (AndTail-complete q fa n (omega (arith, unary-shorter p)))

  unary_complete :
      {ts us : List Token} {e : Expr}
      → UnaryPhrase ts e us
      → (n : ℕ) → 5 * length ts + 2 ≤ n
      → parse_unary n ts ≡ ok (e, us)
  unary_complete (plain p) zero h = absurd (omega arith)
  unary_complete (plain p) (suc n) h = rw (atom-at p) (atom_complete p n (omega arith))
  unary_complete (negated s p) zero h = absurd (omega arith)
  unary_complete (negated (sym {t} {us} e f) p) (suc n) h =
      rw (at-sym keyword (codes "not") t us e f, atom_complete p n (omega arith))

  atom_complete :
      {ts us : List Token} {e : Expr}
      → AtomPhrase ts e us
      → (n : ℕ) → 5 * length ts + 1 ≤ n
      → parse_atom n ts ≡ ok (e, us)
  atom_complete (group s p s') zero h = absurd (omega arith)
  atom_complete (group (sym {t} {us} e f) p (sym {t = c} {us = ws} e' f')) (suc n) h = rw (
    at-sym punct (codes "(") t us e f,
    or_complete p (at_kind punct keyword (codes "or") c ws e' refl)
        (at_kind punct keyword (codes "and") c ws e' refl) n (omega arith),
    expect-sym punct (codes ")") c ws e' f',
  )
  atom_complete (comparison k k' m v) zero h = absurd (omega arith)
  atom_complete (comparison {t} {o} {us} k k' m v) (suc n) h =
      parse_atom_field n t (o ∷ us) k ∙ field-comparison n t.value o k' m v
  atom_complete (membership k s s' p) zero h = absurd (omega arith)
  atom_complete (membership {t} {us} k s s' p) (suc n) h =
      parse_atom_field n t us k
      ∙ field-membership n t.value s s' p (omega (arith, Sym-shorter s, Sym-shorter s'))
  atom_complete (exclusion k s s' s'' p) zero h = absurd (omega arith)
  atom_complete (exclusion {t} {us} k s s' s'' p) (suc n) h =
      parse_atom_field n t us k
      ∙ field-exclusion n t.value s s' s'' p
          (omega (arith, Sym-shorter s, Sym-shorter s', Sym-shorter s''))
