-- ===== src/Docker/Labels/Refused.antt =====
-- A value that its parser refuses: the rule set is the one without the label, and the error is reported.
use firefik.Prelude.{
  ℕ, ◌≡◌, ◌≢◌, refl, Option, none, some, List, [], ◌∷◌, ◌++◌, Any, Text, codes, text_eq, Outcome,
  ok, err, out_of_fuel, ◌>>=◌, Delivers, delivers, Delivers-bind, Delivers-map, Delivers-any, inl,
  inr, if◌then◌else◌,
}
use firefik.Policy.Unicode.{Unicode}
use firefik.Schedule.Window.{Window}
use firefik.Schedule.Parse.{ScheduleError}
use firefik.Docker.RuleSet.{IpNet, NetParser, FirewallRuleSet}
use firefik.Docker.Entries.{ValueError, parse_ports, parse_ip_list}
use firefik.Docker.Entries.Ports.{parse_ports-Delivers}
use firefik.Docker.Entries.Nets.{IsParser, parse_ip_list-Delivers}
use firefik.Docker.Labels.{
  LabelError, bad_value, bad_schedule, on, settle, rate_limit_of, parse_rule_set,
}
use firefik.Docker.Labels.Bounds.{settle-on}

-- The parameters without one of them.
unfoldable pub without_param : Text → (Text → Option Text) → Text → Option Text
unfolding text_eq
without_param p raw q = if text_eq p q then none else raw q

abbrev pub Draft : Type 0
Draft = Outcome ⊥ (FirewallRuleSet × List LabelError)

-- The rule set without the errors.
unfoldable pub rule_set_of : Draft → Outcome ⊥ FirewallRuleSet
rule_set_of m = m >>= λ (rs, errs). ok rs

-- The result has the error.
abbrev pub Reports : LabelError → Draft → Type 0
Reports x m = Delivers (λ (q : FirewallRuleSet × List LabelError). Any (λ y. y ≡ x) q.1) m

Any-left {ℓ} : {A : Type ℓ} (P : A → Type 0) (xs ys : List A) → Any P xs → Any P (xs ++ ys)
Any-left P [] ys h = absurd h
Any-left P (x ∷ xs) ys (inl h) = inl h
Any-left P (x ∷ xs) ys (inr h) = inr (Any-left P xs ys h)

Any-right {ℓ} : {A : Type ℓ} (P : A → Type 0) (xs ys : List A) → Any P ys → Any P (xs ++ ys)
Any-right P [] ys h = h
Any-right P (x ∷ xs) ys h = inr (Any-right P xs ys h)

same-bind {ℓ} :
    {A : Type ℓ} (m : Outcome ⊥ A) (f g : A → Draft)
    → ((a : A) → rule_set_of (f a) ≡ rule_set_of (g a))
    → rule_set_of (m >>= f) ≡ rule_set_of (m >>= g)
unfolding rule_set_of
same-bind (ok a) f g h = h a
same-bind (err x) f g h = absurd x
same-bind out_of_fuel f g h = refl

module _ (u : Unicode) (net : NetParser) (parse_schedule : Text → Outcome ScheduleError Window)
    (name : Text) (raw : Text → Option Text) where
  -- A parameter whose value is refused, with the error that is reported.
  pub data Refused : Text → LabelError → Type 0 where
    bad_ports :
        {v : Text} {e : ValueError}
        → raw (codes "ports") ≡ some v
        → parse_ports v ≡ err e
        → Refused (codes "ports") (bad_value name (codes "ports") e)
    bad_allowlist :
        {v : Text} {e : ValueError}
        → raw (codes "allowlist") ≡ some v
        → parse_ip_list net v ≡ err e
        → Refused (codes "allowlist") (bad_value name (codes "allowlist") e)
    bad_blocklist :
        {v : Text} {e : ValueError}
        → raw (codes "blocklist") ≡ some v
        → parse_ip_list net v ≡ err e
        → Refused (codes "blocklist") (bad_value name (codes "blocklist") e)
    bad_schedule_value :
        {v : Text} {e : ScheduleError}
        → raw (codes "schedule") ≡ some v
        → parse_schedule v ≡ err e
        → Refused (codes "schedule") (bad_schedule name e)

  abbrev ports : Outcome ⊥ (Option (List ℕ) × List LabelError)
  ports = settle (bad_value name (codes "ports")) (on parse_ports (raw (codes "ports")))

  abbrev list_of : Text → Outcome ⊥ (Option (List IpNet × List Text) × List LabelError)
  list_of param = settle (bad_value name param) (on (parse_ip_list net) (raw param))

  abbrev window : Outcome ⊥ (Option Window × List LabelError)
  window = settle (bad_schedule name) (on parse_schedule (raw (codes "schedule")))

  rule_set_of-Refused :
      (p : Text) (x : LabelError)
      → Refused p x
      → rule_set_of (parse_rule_set u net parse_schedule name raw)
        ≡ rule_set_of (parse_rule_set u net parse_schedule name (without_param p raw))
  unfolding parse_rule_set without_param rule_set_of
  rule_set_of-Refused p x (bad_ports is refused) =
      rw (is, refused)
        (same-bind (list_of (codes "allowlist")) _ _ (λ a.
          same-bind (list_of (codes "blocklist")) _ _ (λ b. same-bind window _ _ (λ w. refl))))
  rule_set_of-Refused p x (bad_allowlist is refused) =
      rw (is, refused)
        (same-bind ports _ _ (λ o.
          same-bind (list_of (codes "blocklist")) _ _ (λ b. same-bind window _ _ (λ w. refl))))
  rule_set_of-Refused p x (bad_blocklist is refused) =
      rw (is, refused)
        (same-bind ports _ _ (λ o.
          same-bind (list_of (codes "allowlist")) _ _ (λ a. same-bind window _ _ (λ w. refl))))
  rule_set_of-Refused p x (bad_schedule_value is refused) =
      rw (is, refused)
        (same-bind ports _ _ (λ o.
          same-bind (list_of (codes "allowlist")) _ _
            (λ a. same-bind (list_of (codes "blocklist")) _ _ (λ b. refl))))

  module _ (is_parser : IsParser net) (ends : (s : Text) → parse_schedule s ≢ out_of_fuel) where
    ports-Ends : Delivers (λ _. Unit {0}) ports
    ports-Ends =
        Delivers-map
          (settle-on (bad_value name (codes "ports")) parse_ports (raw (codes "ports"))
            parse_ports-Delivers)
          λ q h. tt

    list_of-Ends : (param : Text) → Delivers (λ _. Unit {0}) (list_of param)
    list_of-Ends param =
        Delivers-map
          (settle-on (bad_value name param) (parse_ip_list net) (raw param)
            (parse_ip_list-Delivers net is_parser))
          λ q h. tt

    window-Ends : Delivers (λ _. Unit {0}) window
    window-Ends =
        Delivers-map
          (settle-on (bad_schedule name) parse_schedule (raw (codes "schedule"))
            (λ s. Delivers-any (parse_schedule s) (ends s)))
          λ q h. tt

    parse_rule_set-Reports :
        (p : Text) (x : LabelError)
        → Refused p x
        → Reports x (parse_rule_set u net parse_schedule name raw)
    unfolding parse_rule_set
    parse_rule_set-Reports p x (bad_ports is refused) =
        rw (is, refused)
          (Delivers-bind (list_of-Ends (codes "allowlist")) λ a _.
            Delivers-bind (list_of-Ends (codes "blocklist"))
              λ b _. Delivers-bind window-Ends λ w _. delivers (inl refl))
    parse_rule_set-Reports p x (bad_allowlist is refused) =
        rw (is, refused)
          (Delivers-bind ports-Ends λ o _. Delivers-bind (list_of-Ends (codes "blocklist")) λ b _.
            Delivers-bind window-Ends λ w _. delivers (Any-right (λ y. y ≡ x) o.1 _ (inl refl)))
    parse_rule_set-Reports p x (bad_blocklist is refused) =
        rw (is, refused)
          (Delivers-bind ports-Ends λ o _. Delivers-bind (list_of-Ends (codes "allowlist")) λ a _.
            Delivers-bind window-Ends λ w _.
              delivers (Any-right (λ y. y ≡ x) o.1 _ (Any-right (λ y. y ≡ x) a.1 _ (inl refl))))
    parse_rule_set-Reports p x (bad_schedule_value is refused) =
        rw (is, refused)
          (Delivers-bind ports-Ends λ o _. Delivers-bind (list_of-Ends (codes "allowlist")) λ a _.
            Delivers-bind (list_of-Ends (codes "blocklist")) λ b _. delivers (
              Any-right (λ y. y ≡ x) o.1 _
                (Any-right (λ y. y ≡ x) a.1 _
                  (Any-right (λ y. y ≡ x) b.1 _
                    (Any-right (λ y. y ≡ x)
                      (rate_limit_of name (raw (codes "ratelimit.rate"))
                        (raw (codes "ratelimit.burst"))).1
                      _ (inl refl))))))

    -- When the parsers of addresses and schedules end with values of their types: parsing a rule set
    -- ends, and a value of its ports, allow list, block list or schedule that the parser refuses is
    -- reported, and leaves the rule set as it is without that parameter.
    pub parse_rule_set-Refused :
        (p : Text) (x : LabelError)
        → Refused p x
        → Reports x (parse_rule_set u net parse_schedule name raw)
          × (rule_set_of (parse_rule_set u net parse_schedule name raw)
              ≡ rule_set_of (parse_rule_set u net parse_schedule name (without_param p raw)))
    parse_rule_set-Refused p x r = (parse_rule_set-Reports p x r, rule_set_of-Refused p x r)
