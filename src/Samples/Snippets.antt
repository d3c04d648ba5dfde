-- ===== src/Samples/Snippets.antt =====
-- The policy that is written for a proposal.
use firefik.Prelude.{◌≡◌, ◌≢◌, refl, [], ◌∷◌, ◌++◌, Text, codes, ok}
use firefik.Policy.Unicode.{ascii}
use firefik.Policy.Parser.Files.{parse}
use firefik.AgentDispatch.Snippets.{autogen_policy_snippet}
use firefik.Autogen.{Proposal}
use firefik.AgentDispatch.Snippets.Refused.{policy_snippet-refused}

abbrev quoted : Text → Text
quoted s = b'"' ∷ (s ++ b'"' ∷ [])

abbrev web : Proposal
web = record {
  container_id = codes "abc";
  ports = 80 ∷ [];
  peers = codes "10.0.0.1" ∷ [];
  observed_for = codes "1h0m0s";
  confidence = codes "tentative";
}

snippet :
    autogen_policy_snippet quoted web
    ≡ codes "policy \"abc\" {\n  default deny\n  allow tcp dport 80\n  allow from 10.0.0.1\n}\n"
unfolding autogen_policy_snippet
snippet = refl

policy_snippet-refused_example : parse (λ s. s) ascii (autogen_policy_snippet quoted web) ≢ ok []
policy_snippet-refused_example =
    policy_snippet-refused (λ s. s) quoted b'a' (b'b' ∷ b'c' ∷ []) (80 ∷ []) (codes "10.0.0.1" ∷ [])
      (codes "1h0m0s") (codes "tentative") [] (refl, (refl, (refl, tt))) refl
