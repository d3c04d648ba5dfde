-- ===== src/Samples/Nftables.antt =====
-- Packets to a container with two rule sets.
use firefik.Prelude.{
  ℕ, zero, suc, length, inl, none, ◌≡◌, refl, true, some, [], ◌∷◌, Text, codes, text_eq, arith,
}
use firefik.Docker.RuleSet.{ip4, net4, FirewallRuleSet, empty_rule_set}
use firefik.Policy.Unicode.{ascii}
use firefik.Rules.Nftables.{
  accept, drop, container_ops, rule_set_chain, proto_num, default_verdict, nflog_prefix,
}
use firefik.Strings.{utf8}
use firefik.Rules.Nftables.Fragments.{src_in}
use firefik.Docker.RuleSet.{NetParser}
use firefik.Policy.Ast.{allow}
use firefik.Rules.Sets.{GeoDb}
use firefik.Rules.Countries.{Gives, eq_rule, in_rule, geo_eq_in_opposite}
use firefik.Rules.Nftables.Semantics.{Packet, verdict_in}
use firefik.Rules.Nftables.Verdicts.{rule_set_verdict}
use firefik.Rules.Nftables.Chains.{main, nftables_lem}
use firefik.Rules.Nftables.Sharing.{container-first, container-shared, container-portless}

-- From 10.1.2.3 to port 80.
abbrev packet : Packet
packet = record {
  nfproto = 2;
  src = 167838211;
  dst = 2886729730;
  l4proto = 6;
  dport = 80;
  other = λ _ _. 0;
  within = λ _. true;
}

abbrev web : FirewallRuleSet
web = record empty_rule_set {
  name = codes "web";
  ports = 80 ∷ [];
  allowlist = net4 167772160 8 ∷ [];
}

abbrev ssh : FirewallRuleSet
ssh = record empty_rule_set {
  name = codes "ssh";
  ports = 22 ∷ [];
  allowlist = net4 167772160 8 ∷ [];
}

abbrev guard : FirewallRuleSet
guard = record empty_rule_set {
  name = codes "web";
  ports = 80 ∷ [];
  blocklist = net4 167772160 8 ∷ [];
}

abbrev portless : FirewallRuleSet
portless = record empty_rule_set { name = codes "guard"; blocklist = net4 0 0 ∷ [] }

abbrev id : Text
id = codes "0123456789abcdef"

abbrev fw : Text
fw = codes "firefik"

abbrev as_is : Text → Text
as_is t = t

nftables_lem_example :
    verdict_in packet
      (container_ops ascii as_is fw id (ip4 2886729730 ∷ []) (ssh ∷ web ∷ []) (codes "drop") [])
      (main ascii as_is fw id)
    ≡ some accept
unfolding rule_set_verdict rule_set_chain text_eq proto_num src_in default_verdict
nftables_lem_example =
    nftables_lem ascii as_is fw id [] packet (ip4 2886729730 ∷ []) (ssh ∷ web ∷ []) (codes "drop")
      (omega arith)

container-first_example :
    verdict_in packet
      (container_ops ascii as_is fw id (ip4 2886729730 ∷ []) (ssh ∷ guard ∷ []) (codes "accept") [])
      (main ascii as_is fw id)
    ≡ some drop
unfolding rule_set_verdict rule_set_chain text_eq proto_num src_in default_verdict
container-first_example =
    container-first ascii as_is fw id [] packet (ip4 2886729730 ∷ []) (ssh ∷ guard ∷ [])
      (codes "accept") (omega arith) ((refl, tt), (tt, tt))

container-shared_example :
    verdict_in packet
      (container_ops ascii as_is fw id [] (ssh ∷ web ∷ ssh ∷ guard ∷ []) (codes "drop") [])
      (main ascii as_is fw id)
    ≡ verdict_in packet
        (container_ops ascii as_is fw id [] (ssh ∷ web ∷ ssh ∷ []) (codes "drop") [])
        (main ascii as_is fw id)
container-shared_example =
    container-shared ascii as_is fw id [] packet [] (ssh ∷ []) (ssh ∷ []) [] web guard
      (codes "drop") (omega arith) refl

container-portless_example :
    verdict_in packet
      (container_ops ascii as_is fw id [] (web ∷ portless ∷ ssh ∷ []) (codes "drop") [])
      (main ascii as_is fw id)
    ≡ verdict_in packet
        (container_ops ascii as_is fw id [] (web ∷ ssh ∷ []) (codes "drop") [])
        (main ascii as_is fw id)
unfolding rule_set_chain text_eq
container-portless_example =
    container-portless ascii as_is fw id [] packet [] (web ∷ []) (ssh ∷ []) portless (codes "drop")
      (omega arith) ((refl, (refl, tt)), ((refl, tt), (tt, tt))) refl

abbrev long_prefix : ℕ → Text
long_prefix zero = []
long_prefix (suc n) = 0xe9 ∷ long_prefix n

-- A database in which every country is 10.0.0.0/8.
abbrev ten : GeoDb
ten countries = some (net4 167772160 8 ∷ [])

abbrev no_parser : NetParser
no_parser = record { parse_ip = λ _. none; parse_cidr = λ _. none }

geo_eq_in_opposite_example :
    Gives ascii no_parser
      (codes "web")
      (codes "1")
      ten
      as_is
      fw
      id
      []
      []
      (codes "drop")
      packet
      (eq_rule ascii no_parser
        (codes "web")
        (codes "1")
        (codes "Port")
        (codes "GEO")
        allow
        80
        (codes "de"))
      accept
    × Gives ascii no_parser
        (codes "web")
        (codes "1")
        ten
        as_is
        fw
        id
        []
        []
        (codes "drop")
        packet
        (in_rule ascii no_parser
          (codes "web")
          (codes "1")
          (codes "Port")
          (codes "GEO")
          allow
          80
          (codes "de"))
        drop
unfolding proto_num src_in text_eq
geo_eq_in_opposite_example =
    geo_eq_in_opposite ascii no_parser (codes "web") (codes "1") (codes "Port") (codes "GEO") allow
      80 (codes "de") ten (net4 167772160 8 ∷ []) as_is fw id [] [] (codes "drop") packet refl refl
      refl refl (inl refl) refl refl (omega arith)

-- 31 letters of two bytes each and one of them cut in two.
cut_prefix : length (nflog_prefix (long_prefix 32) (codes "DROP")) ≡ 63
unfolding nflog_prefix utf8
cut_prefix = refl
