-- ===== src/Rules/Iptables/Fragments.antt =====
-- The rules of iptables.go, one by one: what each says of a packet.
use firefik.Prelude.{
  ℕ, ◌≡◌, refl, ap, ap₂, ◌∙◌, Bool, true, false, ◌&&◌, ◌||◌, Option, none, some, [], ◌∷◌, ◌++◌,
  Text, codes, text_eq, text_eq_refl, text_eq_ne, decimal, ◌==◌, ==_eq, Bool-cases, inl, inr, arith,
}
use firefik.Docker.Numbers.RoundTrip.{decimal-injective}
use firefik.Docker.RuleSet.{RateLimitConfig}
use firefik.Rules.Nftables.{Verdict, accept}
use firefik.Rules.Iptables.{
  IptRule, is_wide, src_args, match_args, build_rule, build_nflog_rule, limit_name,
  build_rate_limit_rule,
}
use firefik.Rules.Iptables.Semantics.{Packet, target, when, option_step, eval}

-- Ports are compared by their decimal notation.
pub text_eq-decimal : (n m : ℕ) → text_eq (decimal n) (decimal m) ≡ (m == n)
text_eq-decimal n m = elim (Bool-cases (m == n)) [
  | inl same ↦ rw (==_eq same, text_eq_refl) (self n)
  | inr other ↦
      rw other (text_eq_ne (decimal n) (decimal m) (λ e. apart (decimal-injective n m e) other))
]
  where
    self : (k : ℕ) → true ≡ (k == k)
    self k = ground arith

    apart : n ≡ m → (m == n) ≡ false → ⊥
    apart e other = ground arith

-- Whether a packet has the protocol, the port and the source of a rule.
abbrev pub hits : Packet → Text → ℕ → Text → Bool
hits p proto port src = p.proto_is proto && ((p.dport == port) && (is_wide src || p.src_in src))

module _ (p : Packet) where
  src-eval :
      (src : Text) (rest : IptRule)
      → eval p (src_args src ++ rest) ≡ when (is_wide src || p.src_in src) (eval p rest)
  unfolding src_args eval option_step
  src-eval src rest = elim (Bool-cases (is_wide src)) [
    | inl wide ↦ rw wide refl
    | inr not_wide ↦ rw not_wide refl
  ]

  args-eval :
      (proto : Text) (port : ℕ) (src : Text) (rest : IptRule)
      → eval p (match_args proto (decimal port) src rest)
        ≡ when
            (p.proto_is proto)
            (when (p.dport == port) (when (is_wide src || p.src_in src) (eval p rest)))
  unfolding match_args eval option_step
  args-eval proto port src rest =
      ap (when (p.proto_is proto)) (ap₂ when (text_eq-decimal port p.dport) (src-eval src rest))

  when_and {ℓ} :
      {A : Type ℓ} (a b c : Bool) (o : Option A)
      → when a (when b (when c o)) ≡ when (a && (b && c)) o
  when_and true true c o = refl
  when_and true false c o = refl
  when_and false b c o = refl

  pub match_args-eval :
      (proto : Text) (port : ℕ) (src : Text) (rest : IptRule)
      → eval p (match_args proto (decimal port) src rest)
        ≡ when (hits p proto port src) (eval p rest)
  match_args-eval proto port src rest =
      args-eval proto port src rest
      ∙ when_and (p.proto_is proto) (p.dport == port) (is_wide src || p.src_in src) (eval p rest)

  jump-eval : (action : Text) → eval p (codes "-j" ∷ action ∷ []) ≡ target action
  unfolding eval option_step
  jump-eval action = refl

  pub build_rule-eval :
      (proto : Text) (port : ℕ) (src action : Text)
      → eval p (build_rule proto (decimal port) src action)
        ≡ when (hits p proto port src) (target action)
  unfolding build_rule
  build_rule-eval proto port src action =
      match_args-eval proto port src (codes "-j" ∷ action ∷ [])
      ∙ ap (when (hits p proto port src)) (jump-eval action)

  when_none : (b : Bool) → ◌≡◌ {A = Option Verdict} (when b none) none
  when_none true = refl
  when_none false = refl

  nflog-eval :
      (prefix : Text)
      → eval p (
          codes "-j"
          ∷ codes "NFLOG"
          ∷ codes "--nflog-group"
          ∷ codes "100"
          ∷ codes "--nflog-prefix"
          ∷ prefix
          ∷ [])
        ≡ none
  unfolding eval option_step
  nflog-eval prefix = refl

  -- A rule that logs lets the packet go on.
  pub build_nflog_rule-eval :
      (proto : Text) (port : ℕ) (src log_prefix action_type : Text)
      → eval p (build_nflog_rule proto (decimal port) src log_prefix action_type) ≡ none
  unfolding build_nflog_rule
  build_nflog_rule-eval proto port src log_prefix action_type =
      match_args-eval proto port src _
      ∙ (ap (when (hits p proto port src)) (nflog-eval _) ∙ when_none (hits p proto port src))

  limit-eval :
      (name rate burst : Text)
      → eval p (
          codes "-m"
          ∷ codes "hashlimit"
          ∷ codes "--hashlimit-name"
          ∷ name
          ∷ codes "--hashlimit-mode"
          ∷ codes "srcip"
          ∷ codes "--hashlimit-upto"
          ∷ rate
          ∷ codes "--hashlimit-burst"
          ∷ burst
          ∷ codes "-j"
          ∷ codes "ACCEPT"
          ∷ [])
        ≡ when (p.within name) (some accept)
  unfolding eval option_step
  limit-eval name rate burst = refl

  pub build_rate_limit_rule-eval :
      (hash : Text → Text) (proto : Text) (port : ℕ) (src name : Text) (limit : RateLimitConfig)
      → eval p (build_rate_limit_rule hash proto (decimal port) src name limit)
        ≡ when
            (hits p proto port src)
            (when (p.within (limit_name hash name (decimal port))) (some accept))
  unfolding build_rate_limit_rule
  build_rate_limit_rule-eval hash proto port src name limit =
      match_args-eval proto port src _
      ∙ ap (when (hits p proto port src)) (limit-eval (limit_name hash name (decimal port)) _ _)
