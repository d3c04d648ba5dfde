-- ===== src/Rules/Iptables/Repeats.antt =====
-- A rule that the chain has already changes nothing behind it, so `AppendUnique` is as good as `Append`.
use firefik.Prelude.{
  ◌≡◌, refl, sym, ap, ap₂, subst, ◌∙◌, Bool, true, false, ◌&&◌, ◌||◌, Option, none, some, List, [],
  ◌∷◌, ◌++◌, append_assoc, append-nil, Text, text_eq, text_eq_iff, Bool-cases, inl, inr,
  if◌then◌else◌,
}
use firefik.Rules.Nftables.{Verdict, accept, drop, return_, jump}
use firefik.Rules.Nftables.Semantics.{after, or_else}
use firefik.Docker.RuleSet.{IpNet}
use firefik.Rules.Iptables.{IptRule, append_all}
use firefik.Rules.Iptables.Semantics.{Packet, eval, run_chain}

unfoldable pub rule_eq : IptRule → IptRule → Bool
unfolding text_eq
rule_eq [] [] = true
rule_eq (x ∷ xs) (y ∷ ys) = text_eq x y && rule_eq xs ys
rule_eq _ _ = false

unfoldable pub has_rule : IptRule → List IptRule → Bool
unfolding rule_eq
has_rule r [] = false
has_rule r (x ∷ xs) = rule_eq x r || has_rule r xs

-- What the documentation of `AppendUnique` says: a rule that is there already is not added.
abbrev pub AppendsOnce : (List IptRule → IptRule → List IptRule) → Type 0
AppendsOnce append =
    (rules : List IptRule) (r : IptRule)
    → append rules r ≡ (if has_rule r rules then rules else rules ++ r ∷ [])

and_parts : (a b : Bool) → (a && b) ≡ true → (a ≡ true) × (b ≡ true)
and_parts true b h = (refl, h)
and_parts false b h = cc

rule_eq-eq : (a b : IptRule) → rule_eq a b ≡ true → a ≡ b
unfolding rule_eq
rule_eq-eq [] [] h = refl
rule_eq-eq [] (y ∷ ys) h = cc
rule_eq-eq (x ∷ xs) [] h = cc
rule_eq-eq (x ∷ xs) (y ∷ ys) h =
    let (first, rest) = and_parts (text_eq x y) (rule_eq xs ys) h in
    ap₂ (λ z zs. z ∷ zs) ((text_eq_iff x y).0 first) (rule_eq-eq xs ys rest)

module _ (call : Text → Option Verdict) (p : Packet) where
  abbrev run : List IptRule → Option Verdict
  run rules = run_chain call p rules

  -- A rule without effect.
  run-passes :
      (r : IptRule) (base rs : List IptRule)
      → ((rest : Option Verdict) → after call (eval p r) rest ≡ rest)
      → run (base ++ r ∷ rs) ≡ run (base ++ rs)
  unfolding run_chain
  run-passes r [] rs h = h (run rs)
  run-passes r (x ∷ base) rs h = ap (after call (eval p x)) (run-passes r base rs h)

  same-verdict :
      (r : IptRule) (base rs : List IptRule) (v : Option Verdict)
      → eval p r ≡ v
      → after call v (run (base ++ r ∷ rs)) ≡ after call v (run (base ++ rs))
  unfolding after
  same-verdict r base rs none e = run-passes r base rs (λ rest. rw e refl)
  same-verdict r base rs (some accept) e = refl
  same-verdict r base rs (some drop) e = refl
  same-verdict r base rs (some return_) e = refl
  same-verdict r base rs (some (jump c)) e = go (call c) refl
    where
      go :
          (o : Option Verdict)
          → call c ≡ o
          → or_else o (run (base ++ r ∷ rs)) ≡ or_else o (run (base ++ rs))
      go (some v) same = refl
      go none same =
          run-passes r base rs
            (λ rest. subst (λ w. after call w rest ≡ rest) (sym e) (rw same refl))

  run-repeat :
      (r : IptRule) (base rs : List IptRule)
      → has_rule r base ≡ true
      → run (base ++ r ∷ rs) ≡ run (base ++ rs)
  unfolding has_rule run_chain
  run-repeat r [] rs h = cc
  run-repeat r (x ∷ base) rs h = elim (Bool-cases (rule_eq x r)) [
    | inl same ↦ same-verdict r base rs (eval p x) (ap (eval p) (sym (rule_eq-eq x r same)))
    | inr other ↦ ap (after call (eval p x)) (run-repeat r base rs (rw other at h))
  ]

  module _ (hash : Text → Text) (net_text : IpNet → Text)
      (append : List IptRule → IptRule → List IptRule) (once : AppendsOnce append) where
    append_all-from :
        (base rs : List IptRule) → run (append_all hash net_text append base rs) ≡ run (base ++ rs)
    unfolding append_all
    append_all-from base [] = ap run (sym (append-nil base))
    append_all-from base (r ∷ rs) = elim (Bool-cases (has_rule r base)) [
      | inl there ↦
          ap (λ b. run (append_all hash net_text append b rs)) (once base r ∙ rw there refl)
          ∙ (append_all-from base rs ∙ sym (run-repeat r base rs there))
      | inr new ↦
          ap (λ b. run (append_all hash net_text append b rs)) (once base r ∙ rw new refl)
          ∙ (append_all-from (base ++ r ∷ []) rs ∙ ap run (append_assoc base (r ∷ []) rs))
    ]

    pub run-append_all : (rs : List IptRule) → run (append_all hash net_text append [] rs) ≡ run rs
    run-append_all rs = append_all-from [] rs
