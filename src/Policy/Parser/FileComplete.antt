-- ===== src/Policy/Parser/FileComplete.antt =====
-- Every file of the grammar is accepted, with the meaning that the grammar gives it.
use firefik.Prelude.{
  ℕ, zero, suc, ◌+◌, ◌*◌, ◌≤◌, ◌<◌, ◌≡◌, refl, ◌∙◌, ap, true, false, some, List, [], ◌∷◌, Text,
  codes, text_eq, length, map, arith, ok,
}
use firefik.Policy.Ast.{Action, allow, block, log, Rule}
use firefik.Policy.Lexer.{TokenKind, eof, string, punct, keyword, Token, is_eof}
use firefik.Policy.Parser.Tokens.{kind_eq, peek, at, expect}
use firefik.Policy.Parser.Files.{action_of, parse_rule, rules_loop, parse_policy, parse_all}
use firefik.Policy.Parser.Grammar.{
  sym, action_name, RulePhrase, rule, RulesPhrase, closed, unclosed, cons, PolicyPhrase, policy,
  FilePhrase, file_end, file_more,
}
use firefik.Policy.Parser.Complete.{
  kind_eq_refl, at-sym, at_kind, at_value, expect-sym, Sym-shorter, or-shorter, or_complete,
}
use firefik.Policy.Parser.FileSound.{stamp}

action_of-action_name : (a : Action) → action_of (action_name a) ≡ some a
unfolding action_of text_eq
action_of-action_name allow = refl
action_of-action_name block = refl
action_of-action_name log = refl

rule_complete :
    {ts us : List Token} {r : Rule}
    → RulePhrase ts r us
    → at keyword (codes "or") us ≡ false
    → at keyword (codes "and") us ≡ false
    → (n : ℕ) → 5 * length ts ≤ n
    → parse_rule n ts ≡ ok (r, us)
unfolding parse_rule
rule_complete (rule a (sym {t} e f) (sym {t = i} {us = vs} e' f') p) fo fa n h =
    let known : action_of t.value ≡ some a = ap action_of f ∙ action_of-action_name a in
    let isk : kind_eq t.kind keyword ≡ true = ap (λ k. kind_eq k keyword) e in
    rw (isk, known, expect-sym keyword (codes "if") i vs e' f', or_complete p fo fa n (omega arith))

rule-shorter : {ts us : List Token} {r : Rule} → RulePhrase ts r us → length us < length ts
rule-shorter (rule a s s' p) = omega (arith, Sym-shorter s, Sym-shorter s', or-shorter p)

at_eof : (ts : List Token) (v : Text) → (peek ts).kind ≡ eof → at keyword v ts ≡ false
unfolding at
at_eof ts v e = ground arith

-- What may follow a rule is no operator.
abbrev IsOperator : Text → Type 0
IsOperator w = (a : Action) → text_eq (action_name a) w ≡ false

rules-at :
    {ts us : List Token} {rs : List Rule} (w : Text)
    → IsOperator w
    → RulesPhrase ts rs us
    → at keyword w ts ≡ false
rules-at w h (closed (sym {t} {us} e f)) = at_kind punct keyword w t us e refl
rules-at w h (unclosed {ts} e) = at_eof ts w e
rules-at w h (cons (rule a (sym {t} {us} e f) s' p) q) =
    at_value keyword (action_name a) w t us f (h a)

or_IsOperator : IsOperator (codes "or")
unfolding text_eq
or_IsOperator allow = refl
or_IsOperator block = refl
or_IsOperator log = refl

and_IsOperator : IsOperator (codes "and")
unfolding text_eq
and_IsOperator allow = refl
and_IsOperator block = refl
and_IsOperator log = refl

rule-start :
    {ts us : List Token} {r : Rule}
    → RulePhrase ts r us
    → (is_eof (peek ts).kind ≡ false) × (at punct (codes "}") ts ≡ false)
rule-start (rule a (sym {t} {us} e f) s p) =
    (ap is_eof e, at_kind keyword punct (codes "}") t us e refl)

rules_complete :
    {ts us : List Token} {rs : List Rule}
    → RulesPhrase ts rs us
    → (n : ℕ) → 5 * length ts + 5 ≤ n
    → rules_loop n ts ≡ ok (rs, us)
unfolding rules_loop
rules_complete p zero h = absurd (omega arith)
rules_complete (closed (sym {t} {us} e f)) (suc n) h =
    let more : is_eof t.kind ≡ false = ap is_eof e in rw (more, at-sym punct (codes "}") t us e f)
rules_complete (unclosed {ts} e) (suc n) h =
    let done : is_eof (peek ts).kind ≡ true = ap is_eof e in rw done
rules_complete (cons p q) (suc n) h =
    let (more, unclosed_yet) = rule-start p in
    rw (
      more,
      unclosed_yet,
      rule_complete p (rules-at (codes "or") or_IsOperator q)
          (rules-at (codes "and") and_IsOperator q) n (omega arith),
      rules_complete q n (omega (arith, rule-shorter p)),
    )

rules-shorter : {ts us : List Token} {rs : List Rule} → RulesPhrase ts rs us → length us ≤ length ts
rules-shorter (closed s) = omega (arith, Sym-shorter s)
rules-shorter (unclosed e) = omega arith
rules-shorter (cons p q) = omega (arith, rule-shorter p, rules-shorter q)

policy-shorter :
    {ts us : List Token} {name : Text} {rs : List Rule}
    → PolicyPhrase ts name rs us
    → length us < length ts
policy-shorter (policy s k s' p) = omega (arith, Sym-shorter s, Sym-shorter s', rules-shorter p)

expect_any :
    (k : TokenKind) (t : Token) (us : List Token) → t.kind ≡ k → expect k [] (t ∷ us) ≡ ok (t, us)
unfolding expect text_eq
expect_any k t us e = ground (arith, kind_eq_refl k)

module _ (sha256 : Text → Text) (src : Text) where
  policy_complete :
      {ts us : List Token} {name : Text} {rs : List Rule}
      → PolicyPhrase ts name rs us
      → (n : ℕ) → 5 * length ts + 5 ≤ n
      → parse_policy sha256 src n ts ≡ ok (stamp sha256 src (name, rs), us)
  unfolding parse_policy
  policy_complete (policy {t} (sym {t = k} {us = us} e f) e' (sym {t = b} {us = vs} e'' f'') p) n
        h =
      rw (
        expect-sym keyword (codes "policy") k us e f,
        expect_any string t _ e',
        expect-sym punct (codes "{") b vs e'' f'',
        rules_complete p n (omega arith),
      )

  policy-start :
      {ts us : List Token} {name : Text} {rs : List Rule}
      → PolicyPhrase ts name rs us
      → is_eof (peek ts).kind ≡ false
  policy-start (policy (sym e f) e' s p) = ap is_eof e

  pub file_complete :
      {ts : List Token} {sums : List (Text × List Rule)}
      → FilePhrase ts sums
      → (n : ℕ) → 5 * length ts + 6 ≤ n
      → parse_all sha256 src n ts ≡ ok (map (stamp sha256 src) sums)
  unfolding parse_all
  file_complete p zero h = absurd (omega arith)
  file_complete (file_end {ts} e) (suc n) h =
      let done : is_eof (peek ts).kind ≡ true = ap is_eof e in rw done
  file_complete (file_more p q) (suc n) h = rw (
    policy-start p,
    policy_complete p n (omega arith),
    file_complete q n (omega (arith, policy-shorter p)),
  )
