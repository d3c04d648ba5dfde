-- ===== src/Samples/Labels.antt =====
-- The labels of containers.
use firefik.Prelude.{
  ℕ, ◌+◌, ◌≤◌, ◌≡◌, ◌≢◌, ◌↔◌, refl, Bool, false, true, Option, none, some, List, [], ◌∷◌, All, Any,
  Mention, Text, codes, text_eq, lookup, map, decimal, Outcome, ok, err, out_of_fuel, ◌>>=◌,
  Delivers, Delivers-total, arith, if◌then◌else◌,
}
use firefik.Policy.Unicode.{ascii, is_space}
use firefik.Strings.{join}
use firefik.Schedule.Window.{Window, LocalTime}
use firefik.Schedule.Parse.{ScheduleError, parse}
use firefik.Schedule.Parse.Total.{parse-Delivers}
use firefik.Docker.Numbers.{not_a_number}
use firefik.Docker.RuleSet.{Ip, ip4, IpNet, net4, net6, NetParser, FirewallRuleSet, ContainerConfig}
use firefik.Docker.RangeV6.{range_to_cidrs_v6}
use firefik.Docker.RangeV6.Cover.{Covers6, range_v6-Covers}
use firefik.Docker.Entries.{invalid_port, parse_ports}
use firefik.Docker.Entries.Ports.{parse_ports-join}
use firefik.Docker.Entries.Nets.{IsIp, IsNet, IfSome, IsParser}
use firefik.Docker.Labels.{LabelError, bad_value, parse_rule_set, parse_labels}
use firefik.Docker.Labels.Maps.{IsMap}
use firefik.Docker.Labels.Collect.{IsSetName}
use firefik.Docker.Labels.Bounds.{InBounds, parse_rule_set-InBounds}
use firefik.Docker.Labels.Sets.{label_value, FromLabels, parse_labels_lem}
use firefik.Docker.Labels.Refused.{
  bad_ports, Reports, rule_set_of, without_param, parse_rule_set-Refused,
}

-- 2001:db8::1 to 2001:db8::4.
abbrev first6 : ℕ
first6 = 42540766411282592856903984951653826561

three_blocks :
    range_to_cidrs_v6 first6 (first6 + 3)
    ≡ ok (net6 first6 128 ∷ net6 (first6 + 1) 127 ∷ net6 (first6 + 3) 128 ∷ [])
unfolding range_to_cidrs_v6
three_blocks = refl

range_v6-Covers_example :
    (nets : List IpNet) × (range_to_cidrs_v6 first6 (first6 + 3) ≡ ok nets)
    × (Any (λ n. Covers6 n (first6 + 2)) nets ↔ ((first6 ≤ first6 + 2) × (first6 + 2 ≤ first6 + 3)))
range_v6-Covers_example =
    range_v6-Covers first6 (first6 + 3) (first6 + 2) (omega arith) (omega arith)

parse_ports-join_example :
    parse_ports (join b',' (map decimal (80 ∷ 443 ∷ 65535 ∷ []))) ≡ ok (80 ∷ 443 ∷ 65535 ∷ [])
parse_ports-join_example = parse_ports-join (80 ∷ 443 ∷ 65535 ∷ []) (omega arith)

-- A parser that knows two texts.
abbrev small_ip : Text → Option Ip
small_ip s = if text_eq s (codes "10.0.0.5") then some (ip4 167772165) else none

abbrev small_cidr : Text → Option IpNet
small_cidr s = if text_eq s (codes "10.0.0.0/8") then some (net4 167772160 8) else none

abbrev small_net : NetParser
small_net = record { parse_ip = small_ip; parse_cidr = small_cidr }

small_net-IsParser : IsParser small_net
small_net-IsParser = record {
  gives_ip = λ s. ip (text_eq s (codes "10.0.0.5"));
  gives_net = λ s. cidr (text_eq s (codes "10.0.0.0/8"));
}
  where
    ip : (b : Bool) → IfSome IsIp (if b then some (ip4 167772165) else none)
    ip true = omega arith
    ip false = tt

    cidr : (b : Bool) → IfSome IsNet (if b then some (net4 167772160 8) else none)
    cidr true = (omega arith, omega arith)
    cidr false = tt

abbrev clock : ℕ → LocalTime
clock at = record { weekday = 0; hour = 0; minute = 0 }

abbrev schedules : Text → Outcome ScheduleError Window
schedules s = parse ascii (λ a b. false) clock (λ p. none) s

schedules_end : (s : Text) → schedules s ≢ out_of_fuel
schedules_end s = Delivers-total (parse-Delivers ascii (λ a b. false) clock (λ p. none) s)

abbrev labels : List (Text × Text)
labels =
    (codes "firefik.enable", codes "true")
    ∷ (codes "firefik.firewall.web.ports", codes "80, 443")
    ∷ (codes "firefik.firewall.web.allowlist", codes "10.0.0.0/8, backend")
    ∷ (codes "firefik.firewall.ssh.ports", codes "x")
    ∷ []

labels-IsMap : IsMap labels
unfolding lookup text_eq
labels-IsMap = (refl, (refl, (refl, (refl, tt))))

abbrev Shown : Type 0
Shown = Text × List ℕ × List IpNet × List Text

abbrev shown : FirewallRuleSet → Shown
shown rs = (rs.name, rs.ports, rs.allowlist, rs.allowlist_networks)

abbrev shown_all :
    Outcome ⊥ (ContainerConfig × List LabelError) → Outcome ⊥ (List Shown × List LabelError)
shown_all m = m >>= λ q. ok (map shown q.0.rule_sets, q.1)

web_and_ssh :
    shown_all (parse_labels ascii small_net schedules (λ m. m) labels)
    ≡ ok (
      (codes "ssh", [], [], [])
          ∷ (codes "web", 80 ∷ 443 ∷ [], net4 167772160 8 ∷ [], codes "backend" ∷ [])
          ∷ [],
      bad_value (codes "ssh") (codes "ports") (invalid_port (codes "x") not_a_number) ∷ [],
    )
unfolding parse_labels text_eq lookup is_space
web_and_ssh = refl

parse_labels_lem_example :
    (cfg : ContainerConfig) × (errs : List LabelError) × (parse_labels ascii small_net schedules
        (λ m. m)
        labels
      ≡ ok (cfg, errs))
    × All
        (FromLabels labels labels-IsMap ascii small_net small_net-IsParser schedules schedules_end)
        cfg.rule_sets
    × ((name param v : Text)
        → IsSetName name
        → label_value labels name param ≡ some v
        → Mention name (map (λ (rs : FirewallRuleSet). rs.name) cfg.rule_sets))
parse_labels_lem_example =
    parse_labels_lem labels labels-IsMap ascii small_net small_net-IsParser schedules schedules_end
      (λ m. m) (λ m h. (h, λ k. refl))

abbrev raw : Text → Option Text
raw p = if text_eq p (codes "ports") then some (codes "x") else none

parse_rule_set-InBounds_example :
    Delivers
      (λ (q : FirewallRuleSet × List LabelError). (q.0.name ≡ codes "ssh") × InBounds q.0)
      (parse_rule_set ascii small_net schedules (codes "ssh") raw)
parse_rule_set-InBounds_example =
    parse_rule_set-InBounds ascii small_net small_net-IsParser schedules schedules_end (codes "ssh")
      raw

bad_x : parse_ports (codes "x") ≡ err (invalid_port (codes "x") not_a_number)
unfolding parse_ports is_space
bad_x = refl

parse_rule_set-Refused_example :
    Reports
      (bad_value (codes "ssh") (codes "ports") (invalid_port (codes "x") not_a_number))
      (parse_rule_set ascii small_net schedules (codes "ssh") raw)
    × (rule_set_of (parse_rule_set ascii small_net schedules (codes "ssh") raw)
        ≡ rule_set_of (
            parse_rule_set ascii small_net schedules
              (codes "ssh")
              (without_param (codes "ports") raw)))
unfolding text_eq
parse_rule_set-Refused_example =
    parse_rule_set-Refused ascii small_net schedules (codes "ssh") raw small_net-IsParser
      schedules_end (codes "ports")
      (bad_value (codes "ssh") (codes "ports") (invalid_port (codes "x") not_a_number))
      (bad_ports refl bad_x)
