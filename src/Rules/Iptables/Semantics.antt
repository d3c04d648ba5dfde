-- ===== src/Rules/Iptables/Semantics.antt =====
-- What the kernel does with a packet, after the manual of iptables: a rule whose matches all hold takes its
-- target; NFLOG lets the packet go on.
use firefik.Prelude.{
  ℕ, Bool, Option, none, some, List, [], ◌∷◌, Text, codes, text_eq, decimal, if◌then◌else◌,
}
use firefik.Rules.Nftables.{Verdict, accept, drop, return_, jump}
use firefik.Rules.Nftables.Semantics.{after}
use firefik.Rules.Iptables.{IptRule}

-- What the matches say of a packet: its protocol by name, its addresses by network, and whether a limit
-- has room for it.
pub record Packet : Type 0 where
  pub proto_is : Text → Bool
  pub dport : ℕ
  pub src_in : Text → Bool
  pub dst_is : Text → Bool
  pub within : Text → Bool

unfoldable pub target : Text → Option Verdict
unfolding text_eq
target t =
    if text_eq t (codes "ACCEPT")
    then some accept
    else if text_eq t (codes "DROP")
    then some drop
    else if text_eq t (codes "RETURN")
    then some return_
    else if text_eq t (codes "NFLOG")
    then none
    else some (jump t)

abbrev pub when {ℓ} : {A : Type ℓ} → Bool → Option A → Option A
when b o = if b then o else none

-- One option with its argument, and what the rest of the rule gives.
unfoldable pub option_step : Packet → Text → Text → Option Verdict → Option Verdict
unfolding text_eq target decimal
option_step p f v more =
    if text_eq f (codes "-p")
    then when (p.proto_is v) more
    else if text_eq f (codes "--dport")
    then when (text_eq v (decimal p.dport)) more
    else if text_eq f (codes "-s")
    then when (p.src_in v) more
    else if text_eq f (codes "-d")
    then when (p.dst_is v) more
    else if text_eq f (codes "--hashlimit-name")
    then when (p.within v) more
    else if text_eq f (codes "-j")
    then target v
    else more

unfoldable pub eval : Packet → IptRule → Option Verdict
unfolding option_step
eval p (f ∷ v ∷ rest) = option_step p f v (eval p rest)
eval p _ = none

unfoldable pub run_chain : (Text → Option Verdict) → Packet → List IptRule → Option Verdict
unfolding after eval
run_chain call p [] = none
run_chain call p (r ∷ rs) = after call (eval p r) (run_chain call p rs)
