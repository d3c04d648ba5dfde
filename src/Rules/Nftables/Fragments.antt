-- ===== src/Rules/Nftables/Fragments.antt =====
-- What the pieces of a rule test of a packet.
use firefik.Prelude.{
  ℕ, Bool, true, false, ◌≡◌, refl, ◌&&◌, Option, none, some, List, [], ◌∷◌, ◌++◌, Text, Bool-cases,
  if_ind, inl, inr, ◌==◌, if◌then◌else◌, arith,
}
use firefik.Docker.RuleSet.{IpNet, net4, net6, FirewallRuleSet}
use firefik.Policy.Unicode.{Unicode}
use firefik.Rules.Nftables.{
  Verdict, NftExpr, verdict, counter, dynset, mask_to, nfproto_ipv4, nfproto_ipv6, src_net_match,
  proto_port, proto_num, log_expr, src_payload,
}
use firefik.Rules.Nftables.Semantics.{Packet, eval, network_header, transport_header}

-- The packet comes from the network.
unfoldable pub src_in : IpNet → Packet → Bool
src_in (net4 a prefix) p = p.nfproto == nfproto_ipv4 && mask_to 4 prefix p.src == mask_to 4 prefix a
src_in (net6 a prefix) p =
    p.nfproto == nfproto_ipv6 && mask_to 16 prefix p.src == mask_to 16 prefix a

pub eval-src_net :
    (p : Packet) (r : ℕ) (n : IpNet) (es : List NftExpr)
    → (k : Option Verdict) → ((r' : ℕ) → eval p r' es ≡ k)
    → eval p r (src_net_match n ++ es) ≡ (if src_in n p then k else none)
unfolding eval src_in network_header src_net_match
eval-src_net p r (net4 a prefix) es k h = elim (Bool-cases (p.nfproto == nfproto_ipv4)) [
  | inl hit ↦ rw (hit, h) refl
  | inr miss ↦ rw miss refl
]
eval-src_net p r (net6 a prefix) es k h = elim (Bool-cases (p.nfproto == nfproto_ipv6)) [
  | inl hit ↦ rw (is6 hit, hit, h) refl
  | inr miss ↦ rw miss refl
]
  where
    is6 : (p.nfproto == nfproto_ipv6) ≡ true → (p.nfproto == nfproto_ipv4) ≡ false
    is6 hit = ground arith

pub eval-log :
    (p : Packet) (r : ℕ) (rs : FirewallRuleSet) (t : Text) (v : Verdict)
    → eval p r (log_expr rs t ++ counter ∷ verdict v ∷ []) ≡ some v
unfolding eval log_expr
eval-log p r rs t v =
    if_ind (λ es. eval p r (es ++ counter ∷ verdict v ∷ []) ≡ some v) rs.log (λ _. refl) (λ _. refl)

pub eval-limit :
    (p : Packet) (r : ℕ) (n : IpNet) (set : Text) (rate burst : ℕ) (v : Verdict)
    → eval p r (src_payload n ∷ dynset set rate burst ∷ counter ∷ verdict v ∷ [])
      ≡ (if p.within set then some v else none)
unfolding eval
eval-limit p r (net4 a prefix) set rate burst v = refl
eval-limit p r (net6 a prefix) set rate burst v = refl

module _ (u : Unicode) where
  -- The packet has the protocol and the destination port.
  unfoldable pub hits : Text → ℕ → Packet → Bool
  hits proto port p = p.l4proto == proto_num u proto && p.dport == port

  pub eval-proto_port :
      (p : Packet) (r : ℕ) (proto : Text) (port : ℕ) (es : List NftExpr)
      → (k : Option Verdict) → ((r' : ℕ) → eval p r' es ≡ k)
      → eval p r (proto_port u proto port ++ es) ≡ (if hits proto port p then k else none)
  unfolding eval hits proto_port transport_header
  eval-proto_port p r proto port es k h = elim (Bool-cases (p.l4proto == proto_num u proto)) [
    | inl hit ↦ rw (hit, h) refl
    | inr miss ↦ rw miss refl
  ]

  -- The rules of a network end with these.
  pub eval-net :
      (p : Packet) (r : ℕ) (n : IpNet) (proto : Text) (port : ℕ) (es : List NftExpr)
      → (k : Option Verdict) → ((r' : ℕ) → eval p r' es ≡ k)
      → eval p r (src_net_match n ++ (proto_port u proto port ++ es))
        ≡ (if hits proto port p && src_in n p then k else none)
  eval-net p r n proto port es k h =
      rw
        (eval-src_net p r n (proto_port u proto port ++ es) _
          (λ r'. eval-proto_port p r' proto port es k h))
        (swap (src_in n p) (hits proto port p))
    where
      swap :
          (a b : Bool)
          → (if a then (if b then k else none) else none) ≡ (if b && a then k else none)
      swap true true = refl
      swap true false = refl
      swap false true = refl
      swap false false = refl
