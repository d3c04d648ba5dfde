-- ===== src/Docker/Range.antt =====
-- `rangeToCIDRs` of backend/internal/docker/labels.go: an IPv4 range as a list of networks. Addresses are
-- `uint32`, so sums wrap at 2 ^ 32; `-` is written with the modulus added first.
pub mod Powers
pub mod Blocks
pub mod Cover
use firefik.Prelude.{
  ℕ, zero, suc, ◌+◌, ◌-◌, ◌%◌, ◌^◌, Bool, true, not, ◌||◌, List, [], ◌∷◌, Outcome, ok, err,
  out_of_fuel, ◌>>=◌, leb, ltb, ◌==◌, if◌then◌else◌,
}
use firefik.Docker.RuleSet.{IpNet, net4}

abbrev pub u32 : ℕ → ℕ
u32 n = n % 2 ^ 32

-- `uint32(1) << (32 - bits)`, the number of addresses of a network with `bits` bits of prefix.
abbrev pub block_size : ℕ → ℕ
block_size bits = 2 ^ (32 - bits)

-- `s & mask`, for the mask of the prefix: the low bits are cleared.
abbrev pub masked : ℕ → ℕ → ℕ
masked s bits = s - s % block_size bits

-- The inner loop, from `bits` down: it stops at the first block that starts below `s` or ends
-- behind `e`.
unfoldable pub widen : ℕ → ℕ → ℕ → ℕ
widen zero s e = 0
widen (suc b) s e =
    let bits = suc b in
    let more = widen b s e in
    let next = u32 (s + block_size bits) in
    if not (masked s bits == s)
    then bits
    else if ltb e (u32 (next + 2 ^ 32 - 1))
    then bits
    else more

unfoldable pub prefix_bits : ℕ → ℕ → ℕ
unfolding widen
prefix_bits s e = suc (widen 32 s e)

-- The outer loop.
unfoldable pub range_loop : ℕ → ℕ → ℕ → Outcome (Unit {0}) (List IpNet)
unfolding prefix_bits
range_loop zero s e = out_of_fuel
range_loop (suc n) s e =
    let bits = prefix_bits s e in
    let s' = u32 (s + block_size bits) in
    let rest = range_loop n s' e >>= λ nets. ok (net4 s bits ∷ nets) in
    if not (leb s e) then ok [] else if s' == 0 then ok (net4 s bits ∷ []) else rest

-- The error is "range start is after end". Each round takes one address at least, and the last finds none.
unfoldable pub range_to_cidrs : ℕ → ℕ → Outcome (Unit {0}) (List IpNet)
unfolding range_loop
range_to_cidrs s e = if ltb e s then err tt else range_loop (e - s + 2) s e
