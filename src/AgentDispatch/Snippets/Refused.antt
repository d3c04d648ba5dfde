-- ===== src/AgentDispatch/Snippets/Refused.antt =====
-- The policy that the agent writes for a proposal, read by the parser of policies.
use firefik.Prelude.{
  ℕ, zero, suc, ◌+◌, ◌≡◌, ◌≢◌, ap, subst, ◌∙◌, List, [], ◌∷◌, ◌++◌, append_assoc, Text, codes,
  text_eq, Outcome, ok, err, out_of_fuel, ◌>>=◌, bind-eq-ok,
}
use firefik.Policy.Ast.{Policy}
use firefik.Policy.Error.{Error}
use firefik.Policy.Unicode.{ascii}
use firefik.Policy.Lexer.{Token, lex}
use firefik.Policy.Parser.Files.{parse, parse_all, parse_policy, rules_loop, parse_rule, fuel_for}
use firefik.Policy.Parser.Tokens.{at, expect}
use firefik.AgentDispatch.Snippets.{port_lines, peer_lines, autogen_policy_snippet}
use firefik.AgentDispatch.Snippets.Opening.{
  IsPlain, kw, opening, brace, default_word, name_token, written, lexed-Head,
}

abbrev NotOk {ℓ} : {A : Type ℓ} → Outcome Error A → Type 0
NotOk (ok a) = ⊥
NotOk (err e) = Unit
NotOk out_of_fuel = Unit

NotOk-bind {ℓ κ} :
    {A : Type ℓ} {B : Type κ} (m : Outcome Error A) (f : A → Outcome Error B)
    → NotOk m
    → NotOk (m >>= f)
NotOk-bind (ok a) f h = absurd h
NotOk-bind (err e) f h = tt
NotOk-bind out_of_fuel f h = tt

-- No policy has such a head.
rules-refuse : (n line : ℕ) (ts : List Token) → NotOk (rules_loop n (default_word line ∷ ts))
unfolding rules_loop parse_rule text_eq at
rules-refuse zero line ts = tt
rules-refuse (suc n) line ts = tt

module _ (sha256 : Text → Text) (src : Text) where
  policy-refuses :
      (n : ℕ) (name : Text) (line col : ℕ) (ts : List Token)
      → NotOk (
          parse_policy sha256 src n
            (kw ∷ name_token name ∷ brace line col ∷ default_word (line + 1) ∷ ts))
  unfolding parse_policy expect text_eq
  policy-refuses n name line col ts = NotOk-bind _ _ (rules-refuse n (line + 1) ts)

  head-refused :
      (n : ℕ) (name : Text) (line col : ℕ) (ts : List Token)
      → NotOk (
          parse_all sha256 src n
            (kw ∷ name_token name ∷ brace line col ∷ default_word (line + 1) ∷ ts))
  unfolding parse_all
  head-refused zero name line col ts = tt
  head-refused (suc n) name line col ts = NotOk-bind _ _ (policy-refuses n name line col ts)

  source-refused :
      (d : ℕ) (ds rest : Text) (ps : List Policy)
      → IsPlain (d ∷ ds)
      → src ≡ written d ds rest
      → parse sha256 ascii src ≢ ok ps
  unfolding parse lex
  source-refused d ds rest ps plain is h =
      let (ts, lexed, parsed) =
        bind-eq-ok (lex ascii src) (λ ts. parse_all sha256 src (fuel_for ts) ts) h in
      let (line, col, ts', shape) = lexed-Head src d ds rest ts plain is lexed in
      subst NotOk (subst (λ l. parse_all sha256 src (fuel_for ts) l ≡ ok ps) shape parsed)
        (head-refused (fuel_for ts) (d ∷ ds) line col ts')

written-quoted :
    (d : ℕ) (ds rest : Text)
    → codes "policy " ++ ((b'"' ∷ d ∷ ds ++ b'"' ∷ []) ++ opening rest) ≡ written d ds rest
written-quoted d ds rest =
    ap (λ t. codes "policy " ++ b'"' ∷ d ∷ t) (append_assoc ds (b'"' ∷ []) (opening rest))

-- For every proposal whose container has an identifier of letters and digits, which `%q` puts
-- between quotes: the parser of policies, with the ASCII tables, does not accept the policy that the
-- agent writes for it.
pub policy_snippet-refused :
    (sha256 quote : Text → Text) (d : ℕ) (ds : Text) (ports : List ℕ) (peers : List Text)
    (observed_for confidence : Text) (ps : List Policy)
    → IsPlain (d ∷ ds)
    → quote (d ∷ ds) ≡ b'"' ∷ d ∷ ds ++ b'"' ∷ []
    → parse sha256 ascii (
        autogen_policy_snippet quote (record {
          container_id = d ∷ ds;
          ports = ports;
          peers = peers;
          observed_for = observed_for;
          confidence = confidence;
        }))
      ≢ ok ps
unfolding autogen_policy_snippet
policy_snippet-refused sha256 quote d ds ports peers observed_for confidence ps plain quoted =
    source-refused sha256
      (autogen_policy_snippet quote (record {
        container_id = d ∷ ds;
        ports = ports;
        peers = peers;
        observed_for = observed_for;
        confidence = confidence;
      }))
      d ds (port_lines quote ports ++ (peer_lines quote peers ++ codes "}\n")) ps plain
      (ap
          (λ q.
            codes "policy "
            ++ (q ++ opening (port_lines quote ports ++ (peer_lines quote peers ++ codes "}\n"))))
          quoted
        ∙ written-quoted d ds (port_lines quote ports ++ (peer_lines quote peers ++ codes "}\n")))
