-- ===== src/Rules/Nftables/Sharing.antt =====
-- Rule sets with a chain of their own, and rule sets that share one.
use firefik.Prelude.{
  ◌<◌, Bool, true, false, ◌≡◌, refl, sym, subst, ◌∙◌, ap, ap₂, Option, none, some, List, [], ◌∷◌,
  ◌++◌, All, Text, text_eq, text_eq_refl, length, Bool-cases, inl, inr, ◌&&◌, ◌==◌, if◌then◌else◌,
}
use firefik.Docker.RuleSet.{Ip, IpNet, FirewallRuleSet}
use firefik.Policy.Unicode.{Unicode}
use firefik.Rules.Nftables.{Verdict, container_ops, default_verdict, proto_num, proto_or_tcp}
use firefik.Rules.Nftables.Semantics.{Packet, or_else, verdict_in}
use firefik.Rules.Nftables.Verdicts.{rule_set_verdict, port_verdict, has_port, when}
use firefik.Rules.Nftables.Chains.{chain_of, main, chain_verdict, jumps, final, nftables_lem}

All-without :
    (P : FirewallRuleSet → Type 0) (xs ys : List FirewallRuleSet) (a : FirewallRuleSet)
    → All P (xs ++ a ∷ ys)
    → All P (xs ++ ys)
All-without P [] ys a (_, h) = h
All-without P (x ∷ xs) ys a (h, hs) = (h, All-without P xs ys a hs)

module _ (u : Unicode) (hash : Text → Text) (chain_name id : Text) where
  -- The chains of the rule sets have different names.
  abbrev pub Distinct : List FirewallRuleSet → Type 0
  Distinct [] = Unit
  Distinct (rs ∷ sets) =
      All
        (λ rs'.
          text_eq (chain_of u hash chain_name id rs) (chain_of u hash chain_name id rs') ≡ false)
        sets
      × Distinct sets

  Distinct-without :
      (xs sets : List FirewallRuleSet) (rs : FirewallRuleSet)
      → Distinct (xs ++ rs ∷ sets)
      → Distinct (xs ++ sets)
  Distinct-without [] sets rs (_, d) = d
  Distinct-without (x ∷ xs) sets rs (apart, d) =
      (All-without _ xs sets rs apart, Distinct-without xs sets rs d)

  module _ (auto : List IpNet) (p : Packet) where
    -- The verdict of the first rule set that decides.
    abbrev pub first_verdict : List FirewallRuleSet → Option Verdict
    first_verdict [] = none
    first_verdict (rs ∷ sets) =
        or_else (rule_set_verdict u hash chain_name id auto rs p) (first_verdict sets)

    jumps-behind :
        (rs : FirewallRuleSet) (all sets : List FirewallRuleSet)
        → All
            (λ rs'.
              text_eq (chain_of u hash chain_name id rs) (chain_of u hash chain_name id rs')
              ≡ false)
            sets
        → jumps u hash chain_name id auto p
            (chain_verdict u hash chain_name id auto (rs ∷ all) p)
            sets
          ≡ jumps u hash chain_name id auto p (chain_verdict u hash chain_name id auto all p) sets
    jumps-behind rs all [] apart = refl
    jumps-behind rs all (rs' ∷ sets) (h, apart) =
        rw h (ap (or_else _) (jumps-behind rs all sets apart))

    jumps-first :
        (sets : List FirewallRuleSet)
        → Distinct sets
        → jumps u hash chain_name id auto p (chain_verdict u hash chain_name id auto sets p) sets
          ≡ first_verdict sets
    jumps-first [] d = refl
    jumps-first (rs ∷ sets) (apart, d) =
        rw text_eq_refl (ap (or_else _) (jumps-behind rs sets sets apart ∙ jumps-first sets d))

    -- With a chain name below 30 bytes and a chain of its own for each rule set, a packet gets the
    -- verdict of the first rule set, in order, that decides it, and else the default policy's.
    pub container-first :
        (ips : List Ip) (sets : List FirewallRuleSet) (policy : Text)
        → length chain_name < 30
        → Distinct sets
        → verdict_in p
            (container_ops u hash chain_name id ips sets policy auto)
            (main u hash chain_name id)
          ≡ or_else
              (first_verdict sets)
              (final u hash chain_name id auto p (default_verdict u hash chain_name policy))
    container-first ips sets policy short d =
        nftables_lem u hash chain_name id auto p ips sets policy short
        ∙ ap
            (λ o.
              or_else o
                (final u hash chain_name id auto p (default_verdict u hash chain_name policy)))
            (jumps-first sets d)

    abbrev cv : List FirewallRuleSet → Text → Option Verdict
    cv sets = chain_verdict u hash chain_name id auto sets p

    -- A rule set whose chain is that of an earlier one has no say in the chain.
    cv-unheard :
        (ys zs : List FirewallRuleSet) (rs' : FirewallRuleSet) (c : Text)
        → text_eq (chain_of u hash chain_name id rs') c ≡ false
        → cv (ys ++ rs' ∷ zs) c ≡ cv (ys ++ zs) c
    cv-unheard [] zs rs' c other = rw other refl
    cv-unheard (y ∷ ys) zs rs' c other =
        ap
          (λ o.
            if text_eq (chain_of u hash chain_name id y) c
            then rule_set_verdict u hash chain_name id auto y p
            else o)
          (cv-unheard ys zs rs' c other)

    cv-owned :
        (xs ys zs : List FirewallRuleSet) (rs rs' : FirewallRuleSet)
        → chain_of u hash chain_name id rs' ≡ chain_of u hash chain_name id rs
        → (c : Text) → cv (xs ++ rs ∷ (ys ++ rs' ∷ zs)) c ≡ cv (xs ++ rs ∷ (ys ++ zs)) c
    cv-owned [] ys zs rs rs' same c =
        elim (Bool-cases (text_eq (chain_of u hash chain_name id rs) c)) [
          | inl own ↦ rw own refl
          | inr other ↦ rw other (cv-unheard ys zs rs' c (rw same other))
        ]
    cv-owned (x ∷ xs) ys zs rs rs' same c =
        ap
          (λ o.
            if text_eq (chain_of u hash chain_name id x) c
            then rule_set_verdict u hash chain_name id auto x p
            else o)
          (cv-owned xs ys zs rs rs' same c)

    jumps-ext :
        (f g : Text → Option Verdict) (sets : List FirewallRuleSet)
        → ((c : Text) → f c ≡ g c)
        → jumps u hash chain_name id auto p f sets ≡ jumps u hash chain_name id auto p g sets
    jumps-ext f g [] h = refl
    jumps-ext f g (rs ∷ sets) h = ap₂ or_else (h _) (jumps-ext f g sets h)

    -- A jump to a chain that has not decided before does not decide.
    jumps-undecided :
        (f : Text → Option Verdict) (ys zs : List FirewallRuleSet) (rs' : FirewallRuleSet)
        → f (chain_of u hash chain_name id rs') ≡ none
        → jumps u hash chain_name id auto p f (ys ++ rs' ∷ zs)
          ≡ jumps u hash chain_name id auto p f (ys ++ zs)
    jumps-undecided f [] zs rs' h = rw h refl
    jumps-undecided f (y ∷ ys) zs rs' h = ap (or_else _) (jumps-undecided f ys zs rs' h)

    jumps-again :
        (f : Text → Option Verdict) (xs ys zs : List FirewallRuleSet) (rs rs' : FirewallRuleSet)
        → chain_of u hash chain_name id rs' ≡ chain_of u hash chain_name id rs
        → jumps u hash chain_name id auto p f (xs ++ rs ∷ (ys ++ rs' ∷ zs))
          ≡ jumps u hash chain_name id auto p f (xs ++ rs ∷ (ys ++ zs))
    jumps-again f [] ys zs rs rs' same =
        decided (f (chain_of u hash chain_name id rs))
          (λ h. jumps-undecided f ys zs rs' (ap f same ∙ h))
      where
        decided :
            (o : Option Verdict) {m n : Option Verdict}
            → (o ≡ none → m ≡ n)
            → or_else o m ≡ or_else o n
        decided none h = h refl
        decided (some v) h = refl
    jumps-again f (x ∷ xs) ys zs rs rs' same = ap (or_else _) (jumps-again f xs ys zs rs rs' same)

    -- With a chain name below 30 bytes, a rule set whose chain is that of one before, wherever the
    -- two stand, has no effect on the verdict on any packet.
    pub container-shared :
        (ips : List Ip) (xs ys zs : List FirewallRuleSet) (rs rs' : FirewallRuleSet) (policy : Text)
        → length chain_name < 30
        → chain_of u hash chain_name id rs' ≡ chain_of u hash chain_name id rs
        → verdict_in p
            (container_ops u hash chain_name id ips (xs ++ rs ∷ (ys ++ rs' ∷ zs)) policy auto)
            (main u hash chain_name id)
          ≡ verdict_in p
              (container_ops u hash chain_name id ips (xs ++ rs ∷ (ys ++ zs)) policy auto)
              (main u hash chain_name id)
    container-shared ips xs ys zs rs rs' policy short same =
        let with_both = xs ++ rs ∷ (ys ++ rs' ∷ zs) in
        let with_one = xs ++ rs ∷ (ys ++ zs) in
        nftables_lem u hash chain_name id auto p ips with_both policy short
        ∙ (ap
              (λ o.
                or_else o
                  (final u hash chain_name id auto p (default_verdict u hash chain_name policy)))
              (jumps-again (cv with_both) xs ys zs rs rs' same
                ∙ jumps-ext (cv with_both) (cv with_one) with_one (cv-owned xs ys zs rs rs' same))
            ∙ sym (nftables_lem u hash chain_name id auto p ips with_one policy short))

    portless :
        (rs : FirewallRuleSet)
        → rs.ports ≡ []
        → rule_set_verdict u hash chain_name id auto rs p ≡ none
    unfolding rule_set_verdict
    portless rs empty =
        subst
          (λ ps.
            when (p.l4proto == proto_num u (proto_or_tcp rs.protocol) && has_port ps p.dport)
              (port_verdict u hash chain_name id rs (rs.allowlist ++ auto) p)
            ≡ none)
          (sym empty) (nowhere (p.l4proto == proto_num u (proto_or_tcp rs.protocol)) _)
      where
        nowhere : (b : Bool) (o : Option Verdict) → when (b && false) o ≡ none
        nowhere true o = refl
        nowhere false o = refl

    first_verdict-portless :
        (xs sets : List FirewallRuleSet) (rs : FirewallRuleSet)
        → rs.ports ≡ []
        → first_verdict (xs ++ rs ∷ sets) ≡ first_verdict (xs ++ sets)
    first_verdict-portless [] sets rs empty = rw (portless rs empty) refl
    first_verdict-portless (x ∷ xs) sets rs empty =
        ap (or_else _) (first_verdict-portless xs sets rs empty)

    -- With a chain name below 30 bytes and a chain of its own for each rule set, a rule set without
    -- ports, wherever it stands, has no effect on the verdict on any packet.
    pub container-portless :
        (ips : List Ip) (xs sets : List FirewallRuleSet) (rs : FirewallRuleSet) (policy : Text)
        → length chain_name < 30
        → Distinct (xs ++ rs ∷ sets)
        → rs.ports ≡ []
        → verdict_in p
            (container_ops u hash chain_name id ips (xs ++ rs ∷ sets) policy auto)
            (main u hash chain_name id)
          ≡ verdict_in p
              (container_ops u hash chain_name id ips (xs ++ sets) policy auto)
              (main u hash chain_name id)
    container-portless ips xs sets rs policy short d empty =
        container-first ips (xs ++ rs ∷ sets) policy short d
        ∙ (ap
              (λ o.
                or_else o
                  (final u hash chain_name id auto p (default_verdict u hash chain_name policy)))
              (first_verdict-portless xs sets rs empty)
            ∙ sym (container-first ips (xs ++ sets) policy short (Distinct-without xs sets rs d)))
