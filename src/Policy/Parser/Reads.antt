-- ===== src/Policy/Parser/Reads.antt =====
-- What the parser's steps below an expression deliver: tokens, literals, value lists and atoms that begin
-- with a field. Each result is a phrase of the grammar and takes up one token at least.
use firefik.Prelude.{
  ℕ, zero, suc, ◌≡◌, ◌≢◌, refl, Bool, true, false, List, [], ◌∷◌, Text, codes, arith, inl, inr,
  text_eq_iff, contains_iff, text_eq, ◌&&◌, ◌||◌, Delivers, delivers, refuses, Delivers-if,
  Delivers-bind, Delivers-map, not, length, ◌≤◌, ◌<◌, ◌+◌, ◌*◌, Option-cases,
}
use firefik.Policy.Ast.{Value}
use firefik.Policy.Lexer.{TokenKind, eof, ident, string, number, punct, keyword, Token}
use firefik.Policy.Parser.Tokens.{
  kind_eq, advance, parse_int, at, expect, value_of, parse_value, values_loop, parse_value_list,
}
use firefik.Policy.Parser.Exprs.{comparison_ops, parse_comparison, parse_field}
use firefik.Policy.Parser.Grammar.{
  Sym, sym, ValuePhrase, string_literal, number_literal, ValuesPhrase, close, last, more,
  AtomPhrase, comparison, membership, exclusion,
}

pub kind_eq→eq : (a b : TokenKind) → kind_eq a b ≡ true → a ≡ b
kind_eq→eq a b h = ground arith

pub at-Sym :
    (k : TokenKind) (v : Text) (ts : List Token)
    → k ≢ eof
    → at k v ts ≡ true
    → Sym k v ts (advance ts)
unfolding at
at-Sym k v [] ne h = absurd (ne (ground (arith, kind_eq→eq eof k)))
at-Sym k v (t ∷ ts) ne h =
    sym (ground (arith, kind_eq→eq t.kind k)) (ground (arith, text_eq_iff t.value v))

-- A parser's result: a phrase at the front of `ts`, of one token at least.
abbrev pub Reads :
    {A : Type 0} → (List Token → A → List Token → Type 0) → List Token → A × List Token → Type 0
Reads R ts (a, us) = R ts a us × (length us < length ts)

pub Sym-shorter :
    {k : TokenKind} {v : Text} {ts us : List Token} → Sym k v ts us → length us < length ts
Sym-shorter (sym p q) = omega arith

pub at-Reads :
    (k : TokenKind) (v : Text) (ts : List Token)
    → k ≢ eof
    → at k v ts ≡ true
    → Sym k v ts (advance ts) × (length (advance ts) < length ts)
at-Reads k v ts ne h = (at-Sym k v ts ne h, Sym-shorter (at-Sym k v ts ne h))

pub kind_ne : (k : TokenKind) → k ≢ eof → kind_eq eof k ≡ false
kind_ne k ne = ground (arith, kind_eq→eq eof k)

pub expect-Delivers :
    (k : TokenKind) (v : Text) (ts : List Token)
    → k ≢ eof
    → v ≢ []
    → Delivers (Reads (λ ts t us. Sym k v ts us) ts) (expect k v ts)
unfolding expect
expect-Delivers k v [] ne nv = rw (kind_ne k ne) refuses
expect-Delivers k v (t ∷ ts) ne nv =
    Delivers-if (kind_eq t.kind k && (text_eq v [] || text_eq t.value v))
      (λ h. delivers (
        sym (ground (arith, kind_eq→eq t.kind k))
            (ground (arith, text_eq_iff v [], text_eq_iff t.value v)),
        omega arith,
      ))
      (λ h. refuses)

value_of-Delivers :
    (k : TokenKind) (t : Token) (us : List Token)
    → t.kind ≡ k
    → Delivers (Reads ValuePhrase (t ∷ us)) (value_of k t us)
unfolding value_of
value_of-Delivers string t us e = delivers (string_literal e, omega arith)
value_of-Delivers number t us e = elim (Option-cases (parse_int t.value)) [
  | inl bad ↦ rw (bad, value_of) refuses
  | inr (n, good) ↦ rw (good, value_of) (delivers (number_literal e good, omega arith))
]
value_of-Delivers _ t us e = refuses

pub parse_value-Delivers : (ts : List Token) → Delivers (Reads ValuePhrase ts) (parse_value ts)
unfolding parse_value
parse_value-Delivers [] = unfold value_of in refuses
parse_value-Delivers (t ∷ us) = value_of-Delivers t.kind t us refl

pub values_loop-Delivers :
    (n : ℕ) (ts : List Token)
    → 5 * length ts + 1 ≤ n
    → Delivers (Reads ValuesPhrase ts) (values_loop n ts)
unfolding values_loop
values_loop-Delivers zero ts h = absurd (omega arith)
values_loop-Delivers (suc n) ts h =
    Delivers-if _
      (λ c. let (s, lt) = at-Reads punct (codes "]") ts (cc) c in delivers (close s, lt))
      (λ _. Delivers-bind (parse_value-Delivers ts) λ (v, us) (p, lt).
        Delivers-if _
          (λ c.
            let (s, lt') = at-Reads punct (codes ",") us (cc) c in
            Delivers-bind (values_loop-Delivers n (advance us) (omega arith))
              λ (vs, ws) (q, lt''). delivers (more p s q, omega arith))
          (λ _.
            Delivers-bind (expect-Delivers punct (codes "]") us (cc) (cc))
              λ (t, ws) (s, lt'). delivers (last p s, omega arith)))

pub parse_value_list-Delivers :
    (n : ℕ) (ts : List Token)
    → 5 * length ts + 1 ≤ n
    → Delivers
        (λ ((vs, us) : List Value × List Token).
          (ws : List Token) × Sym punct (codes "[") ts ws
          × ValuesPhrase ws vs us
          × (length us < length ts))
        (parse_value_list n ts)
unfolding parse_value_list
parse_value_list-Delivers n ts h =
    Delivers-bind (expect-Delivers punct (codes "[") ts (cc) (cc)) λ (t, us) (s, lt).
      Delivers-map (values_loop-Delivers n us (omega arith))
        λ (vs, ws) (p, lt'). (us, s, p, omega arith)

pub not-false : {b : Bool} → not b ≡ false → b ≡ true
not-false {b} h = ground arith

parse_comparison-Delivers :
    (t : Token) (ts : List Token)
    → t.kind ≡ ident
    → Delivers (Reads AtomPhrase (t ∷ ts)) (parse_comparison t.value ts)
unfolding parse_comparison
parse_comparison-Delivers t [] e = refuses
parse_comparison-Delivers t (o ∷ us) e =
    Delivers-if _ (λ _. refuses)
      λ k.
        Delivers-if _ (λ _. refuses)
          λ c. Delivers-bind (parse_value-Delivers us) λ (v, vs) (p, lt). delivers (
            comparison e (kind_eq→eq o.kind punct (not-false k))
                ((contains_iff comparison_ops o.value).0 (not-false c)) p,
            omega arith,
          )

pub parse_field-Delivers :
    (n : ℕ) (t : Token) (ts : List Token)
    → t.kind ≡ ident
    → 5 * length ts + 1 ≤ n
    → Delivers (Reads AtomPhrase (t ∷ ts)) (parse_field n t.value ts)
unfolding parse_field
parse_field-Delivers n t ts e h =
    Delivers-if _
      (λ c.
        let (s, lt) = at-Reads keyword (codes "in") ts (cc) c in
        Delivers-bind (parse_value_list-Delivers n (advance ts) (omega arith))
          λ (vs, us) (ws, s', p, lt'). delivers (membership e s s' p, omega arith))
      λ _.
        Delivers-if _
          (λ c.
            let (s, lt) = at-Reads keyword (codes "not") ts (cc) (ground arith) in
            let (s', lt') = at-Reads keyword (codes "in") (advance ts) (cc) (ground arith) in
            Delivers-bind (parse_value_list-Delivers n (advance (advance ts)) (omega arith))
              λ (vs, us) (ws, s'', p, lt''). delivers (exclusion e s s' s'' p, omega arith))
          λ _. parse_comparison-Delivers t ts e
