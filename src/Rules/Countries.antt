-- ===== src/Rules/Countries.antt =====
-- What the countries of a policy become: from a rule of backend/internal/policy/compile.go, through the
-- country lookup of the engine, to the chains of the nftables backend.
use firefik.Prelude.{
  ℕ, ◌<◌, ◌≡◌, refl, ◌∙◌, Bool, true, false, ◌&&◌, ◌||◌, ◌==◌, ==_iff, Option, none, some, List, [],
  ◌∷◌, ◌++◌, Any, Text, codes, text_eq, text_eq_refl, length, ok, Bool-cases, inl, inr,
}
use firefik.Docker.RuleSet.{Ip, IpNet, NetParser, FirewallRuleSet}
use firefik.Policy.Ast.{Action, and_expr, compare_expr, in_expr, Rule, string_value, number_value}
use firefik.Policy.Unicode.{Unicode}
use firefik.Policy.Compile.{
  compile_rule, start_set, is_block, uint16, lower, upper, code_list, flatten_or, flatten_and,
  close_set,
}
use firefik.Rules.Sets.{GeoDb}
use firefik.Rules.Sets.Geo.{geoip_fail_closed_lem}
use firefik.Rules.Engine.{geo_sets}
use firefik.Rules.Nftables.{Verdict, accept, drop, container_ops, proto_num}
use firefik.Rules.Nftables.Semantics.{Packet, verdict_in}
use firefik.Rules.Nftables.Fragments.{src_in}
use firefik.Rules.Nftables.Verdicts.{when, rule_set_verdict, blocked, allowed, port_verdict}
use firefik.Rules.Nftables.Chains.{main, nftables_lem}
use firefik.Strings.{is_empty}

-- The source is in one of the networks.
abbrev pub IsFrom : List IpNet → Packet → Type 0
IsFrom nets p = Any (λ n. src_in n p ≡ true) nets

IsFrom-some : (nets : List IpNet) (p : Packet) → IsFrom nets p → is_empty nets ≡ false
IsFrom-some [] p h = absurd h
IsFrom-some (n ∷ ns) p h = refl

IsFrom-append : (nets more : List IpNet) (p : Packet) → IsFrom nets p → IsFrom (nets ++ more) p
IsFrom-append [] more p h = absurd h
IsFrom-append (n ∷ ns) more p (inl here) = inl here
IsFrom-append (n ∷ ns) more p (inr later) = inr (IsFrom-append ns more p later)

blocked-IsFrom : (nets : List IpNet) (p : Packet) → IsFrom nets p → blocked nets p ≡ some drop
blocked-IsFrom [] p h = absurd h
blocked-IsFrom (n ∷ ns) p (inl here) = rw here refl
blocked-IsFrom (n ∷ ns) p (inr later) = elim (Bool-cases (src_in n p)) [
  | inl here ↦ rw here refl
  | inr elsewhere ↦ rw elsewhere (blocked-IsFrom ns p later)
]

when-true :
    (b c : Bool) (o : Option Verdict) (v : Verdict)
    → b ≡ true
    → c ≡ true
    → o ≡ some v
    → when (b && (c || false)) o ≡ some v
when-true b c o v hb hc ho = rw (hb, hc) ho

module _ (u : Unicode) (hash : Text → Text) (chain_name id : Text) where
  allowed-IsFrom :
      (rs : FirewallRuleSet) (nets : List IpNet) (p : Packet)
      → rs.rate_limit ≡ none
      → IsFrom nets p
      → allowed u hash chain_name id rs nets p ≡ some accept
  allowed-IsFrom rs [] p free h = absurd h
  allowed-IsFrom rs (n ∷ ns) p free (inl here) = rw (here, free) refl
  allowed-IsFrom rs (n ∷ ns) p free (inr later) = elim (Bool-cases (src_in n p)) [
    | inl here ↦ rw (here, free) refl
    | inr elsewhere ↦ rw elsewhere (allowed-IsFrom rs ns p free later)
  ]

  -- A rule set that decides a packet decides it alone.
  alone :
      (auto : List IpNet) (p : Packet) (ips : List Ip) (rs : FirewallRuleSet) (policy : Text)
      (v : Verdict)
      → length chain_name < 30
      → rule_set_verdict u hash chain_name id auto rs p ≡ some v
      → verdict_in p
          (container_ops u hash chain_name id ips (rs ∷ []) policy auto)
          (main u hash chain_name id)
        ≡ some v
  alone auto p ips rs policy v short h =
      nftables_lem u hash chain_name id auto p ips (rs ∷ []) policy short
      ∙ rw (text_eq_refl, h) refl

module _ (u : Unicode) (net : NetParser) (name version : Text) (port_field geo_field : Text) where
  -- `if port == n and geo == code`, and `if port == n and geo in [code]`.
  abbrev pub eq_rule : Action → ℕ → Text → Rule
  eq_rule a n code = record {
    action = a;
    expr =
        and_expr (compare_expr port_field (codes "==") (number_value n))
          (compare_expr geo_field (codes "==") (string_value code));
  }

  abbrev pub in_rule : Action → ℕ → Text → Rule
  in_rule a n code = record {
    action = a;
    expr =
        and_expr (compare_expr port_field (codes "==") (number_value n))
          (in_expr geo_field false (string_value code ∷ []));
  }

  abbrev eq_set : Action → ℕ → Text → FirewallRuleSet
  eq_set a n code = record (start_set name version a 0) {
    ports = uint16 n ∷ [];
    geo_allow = upper u net code ∷ [];
  }

  abbrev in_set : Action → ℕ → Text → FirewallRuleSet
  in_set a n code = record (start_set name version a 0) {
    ports = uint16 n ∷ [];
    geo_block = upper u net code ∷ [];
  }

  module _ (port_word : lower u net port_field ≡ codes "port")
      (geo_word : lower u net geo_field ≡ codes "geo") where
    compile-eq :
        (a : Action) (n : ℕ) (code : Text)
        → is_block a ≡ false
        → compile_rule u net name version (eq_rule a n code) ≡ ok (eq_set a n code ∷ [])
    unfolding compile_rule flatten_or flatten_and close_set text_eq start_set
    compile-eq a n code granting = rw (port_word, geo_word, granting) refl

    compile-in :
        (a : Action) (n : ℕ) (code : Text)
        → is_block a ≡ false
        → compile_rule u net name version (in_rule a n code) ≡ ok (in_set a n code ∷ [])
    unfolding compile_rule flatten_or flatten_and close_set text_eq start_set code_list
    compile-in a n code granting = rw (port_word, geo_word, granting) refl

    module _ (db : GeoDb) (code : Text) (nets : List IpNet) (p : Packet)
        (looked_up : db (upper u net code ∷ []) ≡ some nets) (from : IsFrom nets p) where
      geo-eq :
          (a : Action) (n : ℕ)
          → geo_sets (some db) (eq_set a n code ∷ [])
            ≡ ok (record (eq_set a n code) { allowlist = nets ++ [] } ∷ [])
      unfolding geo_sets start_set
      geo-eq a n =
          rw
            ((geoip_fail_closed_lem (some db) (eq_set a n code)
                (record (eq_set a n code) { allowlist = nets ++ [] })).1
              (
                [],
                nets,
                refl,
                inl (refl, refl),
                inr (refl, looked_up),
                λ _. IsFrom-some nets p from,
              ))
            refl

      geo-in :
          (a : Action) (n : ℕ)
          → geo_sets (some db) (in_set a n code ∷ [])
            ≡ ok (record (in_set a n code) { blocklist = nets ++ [] } ∷ [])
      unfolding geo_sets start_set
      geo-in a n =
          rw
            ((geoip_fail_closed_lem (some db) (in_set a n code)
                (record (in_set a n code) { blocklist = nets ++ [] })).1
              (nets, [], refl, inr (refl, looked_up), inl (refl, refl), λ h. cc))
            refl

      module _ (hash : Text → Text) (chain_name id : Text) (auto : List IpNet) where
        verdict-eq :
            (a : Action) (n : ℕ)
            → p.l4proto ≡ proto_num u (codes "tcp")
            → p.dport ≡ uint16 n
            → rule_set_verdict u hash chain_name id auto
                (record (eq_set a n code) { allowlist = nets ++ [] })
                p
              ≡ some accept
        unfolding rule_set_verdict start_set
        verdict-eq a n tcp to_port =
            when-true (p.l4proto == proto_num u (codes "tcp")) (p.dport == uint16 n)
              (port_verdict u hash chain_name id
                (record (eq_set a n code) { allowlist = nets ++ [] }) ((nets ++ []) ++ auto) p)
              accept ((==_iff _ _).1 tcp) ((==_iff _ _).1 to_port)
              (rw
                (allowed-IsFrom u hash chain_name id
                  (record (eq_set a n code) { allowlist = nets ++ [] }) ((nets ++ []) ++ auto) p
                  refl (IsFrom-append (nets ++ []) auto p (IsFrom-append nets [] p from)))
                refl)

        verdict-in :
            (a : Action) (n : ℕ)
            → p.l4proto ≡ proto_num u (codes "tcp")
            → p.dport ≡ uint16 n
            → rule_set_verdict u hash chain_name id auto
                (record (in_set a n code) { blocklist = nets ++ [] })
                p
              ≡ some drop
        unfolding rule_set_verdict start_set
        verdict-in a n tcp to_port =
            when-true (p.l4proto == proto_num u (codes "tcp")) (p.dport == uint16 n)
              (port_verdict u hash chain_name id
                (record (in_set a n code) { blocklist = nets ++ [] }) auto p)
              drop ((==_iff _ _).1 tcp) ((==_iff _ _).1 to_port)
              (rw (blocked-IsFrom (nets ++ []) p (IsFrom-append nets [] p from)) refl)

-- A rule compiles, the country lookup of its rule sets succeeds, and a container with just these sets
-- gives the packet the verdict.
abbrev pub Gives :
    (u : Unicode) (net : NetParser) (name version : Text) (db : GeoDb) (hash : Text → Text)
    (chain_name id : Text) (ips : List Ip) (auto : List IpNet) (policy : Text) (p : Packet)
    → Rule
    → Verdict
    → Type 0
Gives u net name version db hash chain_name id ips auto policy p r v =
    (sets : List FirewallRuleSet) × (ready : List FirewallRuleSet) × (compile_rule u net name
        version r
      ≡ ok sets)
    × (geo_sets (some db) sets ≡ ok ready)
    × (verdict_in p (container_ops u hash chain_name id ips ready policy auto)
          (main u hash chain_name id)
        ≡ some v)

-- For a rule that allows or logs, with a port and a country, a packet over TCP to the port from a
-- network of the country, a chain name below 30 bytes, and a lower case that keeps the names of the
-- two fields: the rule compiles, the lookup of its countries succeeds, and a container with just its
-- rule sets accepts the packet if the rule says `geo == code`, and drops it if the rule says `geo in
-- [code]`.
pub geo_eq_in_opposite :
    (u : Unicode) (net : NetParser) (name version port_field geo_field : Text) (a : Action) (n : ℕ)
    (code : Text) (db : GeoDb) (nets : List IpNet) (hash : Text → Text) (chain_name id : Text)
    (ips : List Ip) (auto : List IpNet) (policy : Text) (p : Packet)
    → lower u net port_field ≡ codes "port"
    → lower u net geo_field ≡ codes "geo"
    → is_block a ≡ false
    → db (upper u net code ∷ []) ≡ some nets
    → IsFrom nets p
    → p.l4proto ≡ proto_num u (codes "tcp")
    → p.dport ≡ uint16 n
    → length chain_name < 30
    → Gives u net name version db hash chain_name id ips auto policy p
        (eq_rule u net name version port_field geo_field a n code)
        accept
      × Gives u net name version db hash chain_name id ips auto policy p
          (in_rule u net name version port_field geo_field a n code)
          drop
geo_eq_in_opposite u net name version port_field geo_field a n code db nets hash chain_name id ips
      auto policy p port_word geo_word granting looked_up from tcp to_port short =
    (
      (
        _,
        _,
        compile-eq u net name version port_field geo_field port_word geo_word a n code granting,
        geo-eq u net name version port_field geo_field port_word geo_word db code nets p looked_up
            from a n,
        alone u hash chain_name id auto p ips _ policy accept short (
            verdict-eq u net name version port_field geo_field port_word geo_word db code nets p
              looked_up from hash chain_name id auto a n tcp to_port),
      ),
      (
        _,
        _,
        compile-in u net name version port_field geo_field port_word geo_word a n code granting,
        geo-in u net name version port_field geo_field port_word geo_word db code nets p looked_up
            from a n,
        alone u hash chain_name id auto p ips _ policy drop short (
            verdict-in u net name version port_field geo_field port_word geo_word db code nets p
              looked_up from hash chain_name id auto a n tcp to_port),
      ),
    )
