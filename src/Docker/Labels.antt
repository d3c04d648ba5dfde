-- ===== src/Docker/Labels.antt =====
-- `ParseLabels` of backend/internal/docker/labels.go. A map is an association list in the order that the
-- range over it takes, and `range_sets` gives that order for the map of the rule sets; `parse_schedule` is
-- `schedule.Parse`.
pub mod Maps
pub mod Collect
pub mod Bounds
pub mod Sets
pub mod Refused
use firefik.Prelude.{
  ℕ, ◌^◌, ◌-◌, Bool, ◌||◌, Option, none, some, List, [], ◌∷◌, ◌++◌, map, Text, codes, text_eq,
  lookup, insert, is_some, Outcome, ok, err, out_of_fuel, ◌>>=◌, ◌==◌, if◌then◌else◌,
}
use firefik.Policy.Unicode.{Unicode}
use firefik.Strings.{behind, cut}
use firefik.Schedule.Window.{Window}
use firefik.Schedule.Parse.{ScheduleError}
use firefik.Docker.Numbers.{NumError, UintResult, value, refused, parse_uint}
use firefik.Docker.RuleSet.{IpNet, NetParser, RateLimitConfig, FirewallRuleSet, ContainerConfig}
use firefik.Docker.Entries.{ValueError, split_trimmed, parse_ports, parse_ip_list}

-- Why a label is refused. The errors of a rule set carry its name and the parameter.
pub data LabelError : Type 0 where
  unknown_policy : Text → LabelError
  missing_param : Text → LabelError
  empty_set_name : Text → LabelError
  bad_value : Text → Text → ValueError → LabelError
  bad_number : Text → Text → NumError → LabelError
  rate_not_positive : Text → LabelError
  burst_zero : Text → LabelError
  bad_schedule : Text → ScheduleError → LabelError

abbrev pub default_rate_burst : ℕ
default_rate_burst = 20

abbrev pub firewall_prefix : Text
firewall_prefix = codes "firefik.firewall."

-- The parameters of a rule set.
abbrev pub RawSet : Type 0
RawSet = List (Text × Text)

-- What an index into a map gives for a key that is missing.
abbrev pub or_empty {ℓ} : {A : Type ℓ} → Option (List A) → List A
or_empty none = []
or_empty (some v) = v

abbrev pub is_true : Option Text → Bool
is_true o = text_eq (or_empty o) (codes "true")

abbrev pub on {ℓ κ} : {A : Type ℓ} {B : Type κ} → (A → B) → Option A → Option B
on f none = none
on f (some a) = some (f a)

-- A number that is refused leaves the value as it was, with an error.
abbrev pub number_or : Text → Text → ℕ → Option UintResult → ℕ × List LabelError
number_or name param n none = (n, [])
number_or name param n (some (value m)) = (m, [])
number_or name param n (some (refused e)) = (n, bad_number name param e ∷ [])

-- The checks on a rate and a burst.
unfoldable pub checked_limit : Text → ℕ → ℕ → Option RateLimitConfig × List LabelError
checked_limit name rate burst = if rate == 0 then (none, rate_not_positive name ∷ []) else (
  some (record { rate = rate; burst = burst }),
  if burst == 0 then burst_zero name ∷ [] else [],
)

-- The part of `parseRuleSet` on the rate limit, when one of its parameters is set.
unfoldable pub limit_of_params :
    Text → Option Text → Option Text → Option RateLimitConfig × List LabelError
unfolding checked_limit parse_uint
limit_of_params name rate_str burst_str =
    let uint32 = on (parse_uint (2 ^ 32 - 1)) in
    let (rate, rate_errs) = number_or name (codes "ratelimit.rate") 0 (uint32 rate_str) in
    let (burst, burst_errs) =
      number_or name (codes "ratelimit.burst") default_rate_burst (uint32 burst_str) in
    let (limit, errs) = checked_limit name rate burst in (limit, rate_errs ++ (burst_errs ++ errs))

unfoldable pub rate_limit_of :
    Text → Option Text → Option Text → Option RateLimitConfig × List LabelError
unfolding limit_of_params
rate_limit_of name rate_str burst_str =
    let limited = limit_of_params name rate_str burst_str in
    if is_some rate_str || is_some burst_str then limited else (none, [])

-- A value that is refused is left out, with an error.
unfoldable pub settle {ℓ} :
    {E : Type 0} {A : Type ℓ}
    → (E → LabelError)
    → Option (Outcome E A)
    → Outcome ⊥ (Option A × List LabelError)
settle f none = ok (none, [])
settle f (some (ok a)) = ok (some a, [])
settle f (some (err e)) = ok (none, f e ∷ [])
settle f (some out_of_fuel) = out_of_fuel

abbrev pub networks_of : Option (List IpNet × List Text) → List IpNet × List Text
networks_of none = ([], [])
networks_of (some p) = p

-- What a label's key is to the loop over the labels.
pub data LabelKey : Type 0 where
  other : LabelKey
  no_param : LabelKey
  no_name : LabelKey
  param_of : Text → Text → LabelKey

abbrev pub set_and_param : Option (Text × Text) → LabelKey
set_and_param none = no_param
set_and_param (some ([], p)) = no_name
set_and_param (some (c ∷ cs, p)) = param_of (c ∷ cs) p

abbrev pub key_behind : Option Text → LabelKey
key_behind none = other
key_behind (some rest) = set_and_param (cut b'.' rest)

unfoldable pub label_key : Text → LabelKey
unfolding behind cut
label_key k = key_behind (behind firewall_prefix k)

unfoldable pub add_param : Text → Text → Text → List (Text × RawSet) → List (Text × RawSet)
unfolding insert lookup
add_param name param v sets = insert name (insert param v (or_empty (lookup name sets))) sets

-- One round of the loop over the labels.
abbrev pub collect_key :
    LabelKey
    → Text
    → Text
    → List (Text × RawSet) × List LabelError
    → List (Text × RawSet) × List LabelError
collect_key other k v d = d
collect_key no_param k v (sets, errs) = (sets, errs ++ missing_param k ∷ [])
collect_key no_name k v (sets, errs) = (sets, errs ++ empty_set_name k ∷ [])
collect_key (param_of name param) k v (sets, errs) = (add_param name param v sets, errs)

unfoldable pub collect :
    List (Text × Text)
    → List (Text × RawSet) × List LabelError
    → List (Text × RawSet) × List LabelError
unfolding label_key add_param
collect [] d = d
collect ((k, v) ∷ labels) d = collect labels (collect_key (label_key k) k v d)

module _ (u : Unicode) (net : NetParser)
    (parse_schedule : Text → Outcome ScheduleError Window) where
  -- The switch on the default policy, in upper case.
  unfoldable pub policy_of : Option Text → Text × List LabelError
  policy_of none = ([], [])
  policy_of (some p) =
      let upper = map u.to_upper p in
      if text_eq upper (codes "ACCEPT")
        || (text_eq upper (codes "DROP") || text_eq upper (codes "RETURN"))
      then (upper, [])
      else ([], unknown_policy p ∷ [])

  -- `parseRuleSet`; `raw` is the lookup in the map of the parameters.
  unfoldable pub parse_rule_set :
      Text → (Text → Option Text) → Outcome ⊥ (FirewallRuleSet × List LabelError)
  unfolding settle rate_limit_of parse_ports parse_ip_list split_trimmed
  parse_rule_set name raw =
      settle (bad_value name (codes "ports")) (on parse_ports (raw (codes "ports")))
      >>= λ (ports, e1).
          settle (bad_value name (codes "allowlist"))
            (on (parse_ip_list net) (raw (codes "allowlist")))
          >>= λ (allow, e2).
              settle (bad_value name (codes "blocklist"))
                (on (parse_ip_list net) (raw (codes "blocklist")))
              >>= λ (block, e3).
                  settle (bad_schedule name) (on parse_schedule (raw (codes "schedule")))
                  >>= λ (window, e5).
                      let (limit, e4) =
                        rate_limit_of name (raw (codes "ratelimit.rate"))
                          (raw (codes "ratelimit.burst")) in
                      ok (
                        record {
                          name = name;
                          ports = or_empty ports;
                          allowlist = (networks_of allow).0;
                          blocklist = (networks_of block).0;
                          allowlist_networks = (networks_of allow).1;
                          blocklist_networks = (networks_of block).1;
                          rate_limit = limit;
                          profile = or_empty (raw (codes "profile"));
                          log = is_true (raw (codes "log"));
                          log_prefix = or_empty (raw (codes "log.prefix"));
                          protocol = or_empty (raw (codes "protocol"));
                          geo_block = or_empty (on split_trimmed (raw (codes "geoblock")));
                          geo_allow = or_empty (on split_trimmed (raw (codes "geoallow")));
                          schedule = window;
                        },
                        e1 ++ (e2 ++ (e3 ++ (e4 ++ e5))),
                      )

  -- The loop over the rule sets.
  unfoldable pub parse_sets :
      List (Text × RawSet) → Outcome ⊥ (List FirewallRuleSet × List LabelError)
  unfolding parse_rule_set lookup
  parse_sets [] = ok ([], [])
  parse_sets ((name, raw) ∷ sets) = parse_rule_set name (λ p. lookup p raw) >>= λ (rs, errs).
      parse_sets sets >>= λ (rss, more). ok (rs ∷ rss, errs ++ more)

  -- What `ParseLabels` returns for given rule sets.
  abbrev pub config_of : List (Text × Text) → List FirewallRuleSet → ContainerConfig
  config_of labels rss = record {
    enable = is_true (lookup (codes "firefik.enable") labels);
    default_policy = (policy_of (lookup (codes "firefik.defaultpolicy") labels)).0;
    no_auto_allowlist = is_true (lookup (codes "firefik.no-auto-allowlist") labels);
    rule_sets = rss;
  }

  unfoldable pub parse_labels :
      (List (Text × RawSet) → List (Text × RawSet))
      → List (Text × Text)
      → Outcome ⊥ (ContainerConfig × List LabelError)
  unfolding parse_sets collect policy_of lookup
  parse_labels range_sets labels =
      let (sets, key_errs) = collect labels ([], []) in
      parse_sets (range_sets sets) >>= λ (rss, set_errs). ok (
        config_of labels rss,
        (policy_of (lookup (codes "firefik.defaultpolicy") labels)).1 ++ (key_errs ++ set_errs),
      )
