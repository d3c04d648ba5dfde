-- ===== src/Rules/Nftables/Apart.antt =====
-- The chain of a rule set is neither the container's nor `forward`.
use firefik.Prelude.{
  ℕ, zero, suc, ◌+◌, ◌-◌, ◌≤◌, ◌<◌, Bool, true, false, ◌≡◌, refl, ap, ◌||◌, [], ◌∷◌, ◌++◌, Text,
  codes, text_eq, text_eq_ne, length, take, length-append, append_assoc, if_ind, ltb, ◌==◌, arith,
}
use firefik.Policy.Unicode.{Unicode}
use firefik.Rules.Nftables.{container_chain, rule_set_chain, short_id}

has_dash : Text → Bool
has_dash [] = false
has_dash (c ∷ cs) = c == b'-' || has_dash cs

or-true : (b : Bool) → (b || true) ≡ true
or-true true = refl
or-true false = refl

has_dash-append : (xs ys : Text) → has_dash (xs ++ b'-' ∷ ys) ≡ true
unfolding has_dash
has_dash-append [] ys = refl
has_dash-append (x ∷ xs) ys = rw (has_dash-append xs ys) (or-true (x == b'-'))

length-take : (n : ℕ) (xs : Text) → length (take n xs) ≤ length xs
length-take zero xs = omega arith
length-take (suc n) [] = omega arith
length-take (suc n) (x ∷ xs) = omega (arith, length-take n xs)

dash_longer :
    (a b c : Text) → length (a ++ b'-' ∷ b) + 1 ≤ length ((a ++ b'-' ∷ (b ++ b'-' ∷ [])) ++ c)
dash_longer a b c = rw (length-append, length-append, length-append, length-append) (omega arith)

has_dash-take : (n : ℕ) (xs ys : Text) → length xs < n → has_dash (take n (xs ++ b'-' ∷ ys)) ≡ true
unfolding has_dash
has_dash-take zero xs ys h = absurd (omega arith)
has_dash-take (suc n) [] ys h = refl
has_dash-take (suc n) (x ∷ xs) ys h = rw (has_dash-take n xs ys (omega arith)) (or-true (x == b'-'))

module _ (u : Unicode) (hash : Text → Text) (chain_name id : Text) where
  base : Text
  base = chain_name ++ (codes "-" ++ short_id id)

  main-short : length (container_chain u hash chain_name id) ≤ length base
  unfolding container_chain base
  main-short = length-take 30 base

  prefix : Text
  prefix = chain_name ++ (codes "-" ++ (short_id id ++ codes "-"))

  -- The name of a rule set's chain goes on behind the container's.
  chain-form :
      (name : Text) → (zs : Text) × (rule_set_chain u hash chain_name id name ≡ prefix ++ zs)
  unfolding rule_set_chain prefix
  chain-form name =
      if_ind (λ (t : Text). (zs : Text) × (t ≡ prefix ++ zs)) (ltb 30 (length (prefix ++ name)))
        {x = prefix
          ++ (take (30 - length prefix - length (hash name) - 1) name ++ (codes "-" ++ hash name))}
        {y = prefix ++ name} (λ _. (_, refl)) (λ _. (name, refl))

  chain-long : (name : Text) → length base + 1 ≤ length (rule_set_chain u hash chain_name id name)
  unfolding base prefix
  chain-long name =
      let (zs, e) = chain-form name in
      let longer = dash_longer chain_name (short_id id) zs in rw e longer

  pub chain-main :
      (name : Text)
      → text_eq (rule_set_chain u hash chain_name id name) (container_chain u hash chain_name id)
        ≡ false
  chain-main name = text_eq_ne _ _ λ e.
      let longer = chain-long name in
      let short = main-short in let same = ap length e in omega arith

  pub main-chain :
      (name : Text)
      → text_eq (container_chain u hash chain_name id) (rule_set_chain u hash chain_name id name)
        ≡ false
  main-chain name = text_eq_ne _ _ λ e.
      let longer = chain-long name in
      let short = main-short in let same = ap length e in omega arith

  has_dash-chain : (name : Text) → has_dash (rule_set_chain u hash chain_name id name) ≡ true
  unfolding prefix
  has_dash-chain name =
      let (zs, e) = chain-form name in rw (e, append_assoc) (has_dash-append chain_name _)

  no-dash : (t : Text) → has_dash t ≡ true → text_eq (codes "forward") t ≡ false
  unfolding has_dash
  no-dash t h = text_eq_ne _ _ λ e. let same = ap has_dash e in cc

  pub forward-chain :
      (name : Text) → text_eq (codes "forward") (rule_set_chain u hash chain_name id name) ≡ false
  forward-chain name = no-dash _ (has_dash-chain name)

  pub forward-main :
      length chain_name < 30
      → text_eq (codes "forward") (container_chain u hash chain_name id) ≡ false
  unfolding container_chain
  forward-main h = no-dash _ (has_dash-take 30 chain_name _ h)
