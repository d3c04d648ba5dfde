-- ===== src/Docker/Labels/Bounds.antt =====
-- What a rule set of labels holds: positive 16-bit ports, networks of their families, and a rate limit
-- with a positive 32-bit rate.
use firefik.Prelude.{
  ℕ, ◌-◌, ◌^◌, ◌≤◌, ◌<◌, ◌≡◌, ◌≢◌, refl, ◌||◌, Option, none, some, List, All, Text, codes, Outcome,
  out_of_fuel, Delivers, delivers, refuses, Delivers-bind, Delivers-any, is_some, if_ind, ◌==◌,
  arith,
}
use firefik.Policy.Unicode.{Unicode}
use firefik.Schedule.Window.{Window}
use firefik.Schedule.Parse.{ScheduleError}
use firefik.Docker.Numbers.{UintResult, value, refused, parse_uint}
use firefik.Docker.Numbers.RoundTrip.{UpTo, parse_uint-UpTo}
use firefik.Docker.RuleSet.{IpNet, NetParser, RateLimitConfig, FirewallRuleSet}
use firefik.Docker.Entries.{parse_ports, parse_ip_list}
use firefik.Docker.Entries.Ports.{IsPort, parse_ports-Delivers}
use firefik.Docker.Entries.Nets.{IsNet, IfSome, IsParser, parse_ip_list-Delivers}
use firefik.Docker.Labels.{
  LabelError, bad_value, bad_schedule, or_empty, on, number_or, checked_limit, limit_of_params,
  rate_limit_of, settle, networks_of, default_rate_burst, parse_rule_set,
}

abbrev pub IsLimit : RateLimitConfig → Type 0
IsLimit l = (1 ≤ l.rate) × (l.rate < 2 ^ 32) × (l.burst < 2 ^ 32)

abbrev pub InBounds : FirewallRuleSet → Type 0
InBounds rs =
    All IsPort rs.ports
    × All IsNet rs.allowlist
    × All IsNet rs.blocklist
    × IfSome IsLimit rs.rate_limit

checked-IsLimit :
    (name : Text) (rate burst : ℕ)
    → rate < 2 ^ 32
    → burst < 2 ^ 32
    → IfSome IsLimit (checked_limit name rate burst).0
unfolding checked_limit
checked-IsLimit name rate burst hr hb =
    if_ind (λ (p : Option RateLimitConfig × List LabelError). IfSome IsLimit p.0) (rate == 0)
      (λ _. tt) (λ pos. (ground arith, hr, hb))

number-below :
    (name param : Text) (n : ℕ) (o : Option Text)
    → n < 2 ^ 32
    → (number_or name param n (on (parse_uint (2 ^ 32 - 1)) o)).0 < 2 ^ 32
number-below name param n none h = h
number-below name param n (some s) h =
    go (parse_uint (2 ^ 32 - 1) s) (parse_uint-UpTo (2 ^ 32 - 1) s)
  where
    go : (r : UintResult) → UpTo (2 ^ 32 - 1) r → (number_or name param n (some r)).0 < 2 ^ 32
    go (value m) le = omega arith
    go (refused e) le = h

rate_limit_of-IsLimit :
    (name : Text) (rate burst : Option Text) → IfSome IsLimit (rate_limit_of name rate burst).0
unfolding rate_limit_of limit_of_params
rate_limit_of-IsLimit name rate burst =
    if_ind (λ (p : Option RateLimitConfig × List LabelError). IfSome IsLimit p.0)
      (is_some rate || is_some burst)
      (λ _.
        checked-IsLimit name _ _ (number-below name (codes "ratelimit.rate") 0 rate (omega arith))
          (number-below name (codes "ratelimit.burst") default_rate_burst burst (omega arith)))
      (λ _. tt)

module _ {ℓ} {E : Type 0} {A : Type ℓ} {P : A → Type 0} (f : E → LabelError) where
  -- A value that is settled satisfies what its parser delivers.
  settle-Delivers :
      {m : Outcome E A}
      → Delivers P m
      → Delivers (λ (q : Option A × List LabelError). IfSome P q.0) (settle f (some m))
  unfolding settle
  settle-Delivers (delivers p) = delivers p
  settle-Delivers refuses = delivers tt

  pub settle-on :
      (g : Text → Outcome E A) (o : Option Text)
      → ((s : Text) → Delivers P (g s))
      → Delivers (λ (q : Option A × List LabelError). IfSome P q.0) (settle f (on g o))
  unfolding settle
  settle-on g none h = delivers tt
  settle-on g (some s) h = settle-Delivers (h s)

or_empty-All {ℓ} :
    {A : Type ℓ} (P : A → Type 0) (o : Option (List A)) → IfSome (All P) o → All P (or_empty o)
or_empty-All P none h = tt
or_empty-All P (some xs) h = h

networks_of-Nets :
    (o : Option (List IpNet × List Text))
    → IfSome (λ (q : List IpNet × List Text). All IsNet q.0) o
    → All IsNet (networks_of o).0
networks_of-Nets none h = tt
networks_of-Nets (some q) h = h

module _ (u : Unicode) (net : NetParser) (is : IsParser net)
    (parse_schedule : Text → Outcome ScheduleError Window)
    (ends : (s : Text) → parse_schedule s ≢ out_of_fuel) where
  -- When the parsers of addresses and schedules end with values of their types: parsing a rule set
  -- ends, and gives one of the name asked for, with ports from 1 to 65535, networks of their
  -- families, and no rate limit or one with a positive 32-bit rate and a 32-bit burst.
  pub parse_rule_set-InBounds :
      (name : Text) (raw : Text → Option Text)
      → Delivers
          (λ (q : FirewallRuleSet × List LabelError). (q.0.name ≡ name) × InBounds q.0)
          (parse_rule_set u net parse_schedule name raw)
  unfolding parse_rule_set
  parse_rule_set-InBounds name raw =
      Delivers-bind
        (settle-on (bad_value name (codes "ports")) parse_ports (raw (codes "ports"))
          parse_ports-Delivers)
        λ (ports, e1) hp.
          Delivers-bind
            (settle-on (bad_value name (codes "allowlist")) (parse_ip_list net)
              (raw (codes "allowlist")) (parse_ip_list-Delivers net is))
            λ (allow, e2) ha.
              Delivers-bind
                (settle-on (bad_value name (codes "blocklist")) (parse_ip_list net)
                  (raw (codes "blocklist")) (parse_ip_list-Delivers net is))
                λ (block, e3) hb.
                  Delivers-bind
                    (settle-on (bad_schedule name) parse_schedule (raw (codes "schedule"))
                      (λ s. Delivers-any (parse_schedule s) (ends s)))
                    λ (window, e5) hw. delivers (
                      refl,
                      (
                        or_empty-All IsPort ports hp,
                        networks_of-Nets allow ha,
                        networks_of-Nets block hb,
                        rate_limit_of-IsLimit name (raw (codes "ratelimit.rate"))
                            (raw (codes "ratelimit.burst")),
                      ),
                    )
