-- ===== src/Docker/RangeV6.antt =====
-- `rangeToCIDRsV6` of backend/internal/docker/labels.go: an IPv6 range as a list of networks. Addresses are
-- `big.Int`, which do not wrap.
pub mod Cover
use firefik.Prelude.{
  ℕ, zero, suc, ◌+◌, ◌-◌, ◌%◌, ◌^◌, not, List, [], ◌∷◌, Outcome, ok, err, out_of_fuel, ◌>>=◌, leb,
  ltb, ◌==◌, if◌then◌else◌,
}
use firefik.Docker.RuleSet.{IpNet, net6}

-- `Lsh(one, uint(128-bits))`.
abbrev pub size6 : ℕ → ℕ
size6 bits = 2 ^ (128 - bits)

-- `And(s, mask)`, for the mask of the prefix.
abbrev pub masked6 : ℕ → ℕ → ℕ
masked6 s bits = s - s % size6 bits

-- The inner loop, from `bits` down.
unfoldable pub widen6 : ℕ → ℕ → ℕ → ℕ
widen6 zero s e = 0
widen6 (suc b) s e =
    let bits = suc b in
    let more = widen6 b s e in
    if not (masked6 s bits == s) then bits else if ltb e (s + size6 bits - 1) then bits else more

unfoldable pub prefix6 : ℕ → ℕ → ℕ
unfolding widen6
prefix6 s e = suc (widen6 128 s e)

-- The outer loop; `BitLen() > 128` is the last test.
unfoldable pub range6_loop : ℕ → ℕ → ℕ → Outcome (Unit {0}) (List IpNet)
unfolding prefix6
range6_loop zero s e = out_of_fuel
range6_loop (suc n) s e =
    let bits = prefix6 s e in
    let s' = s + size6 bits in
    let rest = range6_loop n s' e >>= λ nets. ok (net6 s bits ∷ nets) in
    if not (leb s e) then ok [] else if leb (2 ^ 128) s' then ok (net6 s bits ∷ []) else rest

-- The error is "range start is after end". Each round takes one address at least, and the last finds none.
unfoldable pub range_to_cidrs_v6 : ℕ → ℕ → Outcome (Unit {0}) (List IpNet)
unfolding range6_loop
range_to_cidrs_v6 s e = if ltb e s then err tt else range6_loop (e - s + 2) s e
