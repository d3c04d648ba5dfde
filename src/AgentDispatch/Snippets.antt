-- ===== src/AgentDispatch/Snippets.antt =====
-- The labels and the policy that backend/internal/agentdispatch/dispatcher.go writes for an approved
-- proposal. `quote` is the verb `%q` of Go's package `fmt`.
pub mod Opening
pub mod Refused
use firefik.Prelude.{ℕ, List, [], ◌∷◌, ◌++◌, map, Text, codes, decimal}
use firefik.Strings.{join}
use firefik.Autogen.{Proposal}

abbrev pub newline : Text
newline = b'\n' ∷ []

module _ (quote : Text → Text) where
  abbrev pub label_line : Text → Text → Text
  label_line key value = codes "  " ++ (key ++ (codes ": " ++ (quote value ++ newline)))

  abbrev pub ports_line : List ℕ → Text
  ports_line [] = []
  ports_line (n ∷ ns) =
      label_line (codes "firefik.firewall.auto.ports") (join b',' (map decimal (n ∷ ns)))

  abbrev pub peers_line : List Text → Text
  peers_line [] = []
  peers_line (s ∷ ss) = label_line (codes "firefik.firewall.auto.allowlist") (join b',' (s ∷ ss))

  unfoldable pub autogen_labels_snippet : Proposal → Text
  unfolding join decimal
  autogen_labels_snippet p =
      codes "labels:\n"
      ++ (codes "  firefik.enable: \"true\"\n"
          ++ (ports_line p.ports
              ++ (peers_line p.peers ++ codes "  firefik.defaultpolicy: \"DROP\"\n")))

  abbrev pub port_lines : List ℕ → Text
  port_lines [] = []
  port_lines (n ∷ ns) = codes "  allow tcp dport " ++ (decimal n ++ (newline ++ port_lines ns))

  abbrev pub peer_lines : List Text → Text
  peer_lines [] = []
  peer_lines (s ∷ ss) = codes "  allow from " ++ (s ++ (newline ++ peer_lines ss))

  unfoldable pub autogen_policy_snippet : Proposal → Text
  unfolding decimal
  autogen_policy_snippet p =
      codes "policy "
      ++ (quote p.container_id
          ++ (codes " {\n"
              ++ (codes "  default deny\n"
                  ++ (port_lines p.ports ++ (peer_lines p.peers ++ codes "}\n")))))
