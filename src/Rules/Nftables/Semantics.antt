-- ===== src/Rules/Nftables/Semantics.antt =====
-- What the kernel does with a packet, after the nftables manual: a rule whose comparisons all hold
-- gives its verdict, and a jump comes back when its chain has none.
use firefik.Prelude.{
  ℕ, Bool, ◌&&◌, Option, none, some, List, [], ◌∷◌, Text, text_eq, ◌==◌, if◌then◌else◌,
}
use firefik.Rules.Nftables.{
  Verdict, accept, drop, return_, jump, NftExpr, meta_nfproto, meta_l4proto, payload_network,
  payload_transport, bitwise, cmp_eq, dynset, nflog, counter, verdict, Op, add_chain, add_set,
  add_rule, mask_to, nfproto_ipv4, nfproto_ipv6,
}

-- `other` is the rest of the headers, and `within` whether the limits of a set have room for it.
pub record Packet : Type 0 where
  pub nfproto : ℕ
  pub src : ℕ
  pub dst : ℕ
  pub l4proto : ℕ
  pub dport : ℕ
  pub other : ℕ → ℕ → ℕ
  pub within : Text → Bool

-- `len` bytes of the network header at `offset`: the addresses of either family.
unfoldable pub network_header : Packet → ℕ → ℕ → ℕ
network_header p offset len =
    if p.nfproto == nfproto_ipv4 && (offset == 12 && len == 4)
    then p.src
    else if p.nfproto == nfproto_ipv4 && (offset == 16 && len == 4)
    then p.dst
    else if p.nfproto == nfproto_ipv6 && (offset == 8 && len == 16)
    then p.src
    else if p.nfproto == nfproto_ipv6 && (offset == 24 && len == 16)
    then p.dst
    else p.other offset len

unfoldable pub transport_header : Packet → ℕ → ℕ → ℕ
transport_header p offset len = if offset == 2 && len == 2 then p.dport else p.other offset len

-- The verdict of a rule from register 1 at `r`.
unfoldable pub eval : Packet → ℕ → List NftExpr → Option Verdict
unfolding network_header transport_header
eval p r [] = none
eval p r (meta_nfproto ∷ es) = eval p p.nfproto es
eval p r (meta_l4proto ∷ es) = eval p p.l4proto es
eval p r (payload_network offset len ∷ es) = eval p (network_header p offset len) es
eval p r (payload_transport offset len ∷ es) = eval p (transport_header p offset len) es
eval p r (bitwise len prefix ∷ es) = eval p (mask_to len prefix r) es
eval p r (cmp_eq n ∷ es) = let rest = eval p r es in if r == n then rest else none
eval p r (dynset set _ _ ∷ es) = let rest = eval p r es in if p.within set then rest else none
eval p r (nflog _ ∷ es) = eval p r es
eval p r (counter ∷ es) = eval p r es
eval p r (verdict v ∷ es) = some v

abbrev pub or_else {ℓ} : {A : Type ℓ} → Option A → Option A → Option A
or_else none y = y
or_else (some x) y = some x

-- What follows a rule's verdict; `call` is what a chain decides, and `rest` what the later rules do.
unfoldable pub after : (Text → Option Verdict) → Option Verdict → Option Verdict → Option Verdict
after call none rest = rest
after call (some accept) rest = some accept
after call (some drop) rest = some drop
after call (some return_) rest = none
after call (some (jump chain)) rest = or_else (call chain) rest

unfoldable pub run_chain : (Text → Option Verdict) → Packet → List (List NftExpr) → Option Verdict
unfolding after eval
run_chain call p [] = none
run_chain call p (r ∷ rs) = after call (eval p 0 r) (run_chain call p rs)

-- The rules that the operations give a chain.
unfoldable pub chain_rules : Text → List Op → List (List NftExpr)
chain_rules c [] = []
chain_rules c (add_chain _ ∷ ops) = chain_rules c ops
chain_rules c (add_set _ ∷ ops) = chain_rules c ops
chain_rules c (add_rule d r ∷ ops) =
    let rest = chain_rules c ops in if text_eq d c then r ∷ rest else rest

-- A chain that jumps to chains without jumps, on a table that held none of them before.
unfoldable pub verdict_in : Packet → List Op → Text → Option Verdict
unfolding run_chain chain_rules
verdict_in p ops main =
    run_chain (λ c. run_chain (λ _. none) p (chain_rules c ops)) p (chain_rules main ops)
