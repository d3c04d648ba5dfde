-- ===== src/Docker/Entries.antt =====
-- The values of the labels in backend/internal/docker/labels.go: ports, addresses, networks and ranges.
-- An IPv4 address is its 32-bit number, and `To16` maps it behind ::ffff:0:0.
pub mod Ports
pub mod Nets
use firefik.Prelude.{
  ℕ, ◌+◌, ◌*◌, ◌/◌, ◌^◌, Bool, not, ◌&&◌, Option, none, some, List, [], ◌∷◌, ◌++◌, Text, Outcome,
  ok, err, out_of_fuel, ◌>>=◌, ◌==◌, is_some, if◌then◌else◌,
}
use firefik.Strings.{cut, has_rune, is_empty, split, trim_space}
use firefik.Docker.Numbers.{NumError, UintResult, value, refused, parse_uint}
use firefik.Docker.RuleSet.{Ip, ip4, ip6, IpNet, net4, net6, NetParser}
use firefik.Docker.Range.{range_to_cidrs}
use firefik.Docker.RangeV6.{range_to_cidrs_v6}

pub data ValueError : Type 0 where
  invalid_port : Text → NumError → ValueError
  zero_port : ValueError
  invalid_cidr : Text → ValueError
  invalid_ip : Text → ValueError
  invalid_range : Text → ValueError
  invalid_range_start : Text → ValueError
  invalid_range_suffix : Text → NumError → ValueError
  invalid_range_end : Text → ValueError
  range_end_not_v4 : Text → ValueError
  start_after_end : Ip → Ip → ValueError

-- The pieces between commas, without space around them and without the empty ones.
unfoldable pub keep_trimmed : List Text → List Text
unfolding trim_space
keep_trimmed [] = []
keep_trimmed (p ∷ ps) =
    let t = trim_space p in let rest = keep_trimmed ps in if is_empty t then rest else t ∷ rest

unfoldable pub split_trimmed : Text → List Text
unfolding keep_trimmed split
split_trimmed s = keep_trimmed (split b',' s)

abbrev pub wrap_num : (NumError → ValueError) → UintResult → Outcome ValueError ℕ
wrap_num f (value n) = ok n
wrap_num f (refused e) = err (f e)

unfoldable pub parse_port : Text → Outcome ValueError ℕ
unfolding parse_uint
parse_port p =
    wrap_num (invalid_port p) (parse_uint 0xffff p) >>= λ n. if n == 0 then err zero_port else ok n

unfoldable pub parse_port_list : List Text → Outcome ValueError (List ℕ)
unfolding parse_port
parse_port_list [] = ok []
parse_port_list (p ∷ ps) = parse_port p >>= λ n. parse_port_list ps >>= λ ns. ok (n ∷ ns)

unfoldable pub parse_ports : Text → Outcome ValueError (List ℕ)
unfolding parse_port_list split_trimmed
parse_ports s = parse_port_list (split_trimmed s)

abbrev pub wrap_range : Ip → Ip → Outcome (Unit {0}) (List IpNet) → Outcome ValueError (List IpNet)
wrap_range start end (ok nets) = ok nets
wrap_range start end (err e) = err (start_after_end start end)
wrap_range start end out_of_fuel = out_of_fuel

unfoldable pub to_16 : Ip → ℕ
to_16 (ip4 a) = 0xffff_0000_0000 + a
to_16 (ip6 a) = a

unfoldable pub v4_range : ℕ → ℕ → Outcome ValueError (List IpNet)
unfolding range_to_cidrs
v4_range s e = wrap_range (ip4 s) (ip4 e) (range_to_cidrs s e)

unfoldable pub v6_range : ℕ → ℕ → Outcome ValueError (List IpNet)
unfolding range_to_cidrs_v6
v6_range s e = wrap_range (ip6 s) (ip6 e) (range_to_cidrs_v6 s e)

-- The end of an IPv4 range that is written as an address.
unfoldable pub v4_end : Text → Option Ip → Outcome ValueError ℕ
v4_end s none = err (invalid_range_end s)
v4_end s (some (ip4 a)) = ok a
v4_end s (some (ip6 a)) = err (range_end_not_v4 s)

-- The last byte of `a` replaced.
abbrev pub with_last_byte : ℕ → ℕ → ℕ
with_last_byte a n = a / 256 * 256 + n

unfoldable pub v6_end : Text → Option Ip → Outcome ValueError ℕ
unfolding to_16
v6_end s none = err (invalid_range_end s)
v6_end s (some ip) = ok (to_16 ip)

module _ (net : NetParser) where
  -- The end of an IPv4 range that starts at `a`: a last byte or an address.
  unfoldable pub suffix_or_end : ℕ → Text → Outcome ValueError ℕ
  unfolding v4_end parse_uint
  suffix_or_end a end =
      let suffix = wrap_num (invalid_range_suffix end) (parse_uint 0xff end) in
      if not (has_rune b'.' end)
      then (suffix >>= λ n. ok (with_last_byte a n))
      else v4_end end (net.parse_ip end)

  -- `parseRange` behind the parsed start.
  unfoldable pub range_from : Text → Text → Option Ip → Outcome ValueError (List IpNet)
  unfolding v4_range v6_range suffix_or_end v6_end
  range_from start end none = err (invalid_range_start start)
  range_from start end (some (ip4 a)) = suffix_or_end a end >>= λ e. v4_range a e
  range_from start end (some (ip6 a)) = v6_end end (net.parse_ip end) >>= λ e. v6_range a e

  unfoldable pub range_parts : Text → Option (Text × Text) → Outcome ValueError (List IpNet)
  unfolding range_from
  range_parts entry none = err (invalid_range entry)
  range_parts entry (some (start, end)) = range_from start end (net.parse_ip start)

  unfoldable pub parse_ip_range : Text → Outcome ValueError (List IpNet)
  unfolding range_parts cut
  parse_ip_range entry = range_parts entry (cut b'-' entry)

  abbrev pub cidr_entry : Text → Option IpNet → Outcome ValueError (List IpNet)
  cidr_entry entry none = err (invalid_cidr entry)
  cidr_entry entry (some n) = ok (n ∷ [])

  abbrev pub ip_entry : Text → Option Ip → Outcome ValueError (List IpNet)
  ip_entry entry none = err (invalid_ip entry)
  ip_entry entry (some (ip4 a)) = ok (net4 a 32 ∷ [])
  ip_entry entry (some (ip6 a)) = ok (net6 a 128 ∷ [])

  unfoldable pub parse_ip_entry : Text → Outcome ValueError (List IpNet)
  unfolding parse_ip_range has_rune
  parse_ip_entry entry =
      if has_rune b'/' entry
      then cidr_entry entry (net.parse_cidr entry)
      else if has_rune b'-' entry
      then parse_ip_range entry
      else ip_entry entry (net.parse_ip entry)

  unfoldable pub is_network_name : Text → Bool
  unfolding has_rune
  is_network_name entry =
      not (has_rune b'/' entry) && (not (has_rune b'-' entry) && not (is_some (net.parse_ip entry)))

  -- The loop of `parseIPListWithNetworks`: networks and names of networks.
  unfoldable pub ip_list : List Text → Outcome ValueError (List IpNet × List Text)
  unfolding is_network_name parse_ip_entry
  ip_list [] = ok ([], [])
  ip_list (entry ∷ entries) =
      let named = ip_list entries >>= λ (cidrs, names). ok (cidrs, entry ∷ names) in
      let parsed = parse_ip_entry entry >>= λ nets.
      ip_list entries >>= λ (cidrs, names). ok (nets ++ cidrs, names) in
      if is_network_name entry then named else parsed

  unfoldable pub parse_ip_list : Text → Outcome ValueError (List IpNet × List Text)
  unfolding ip_list split_trimmed
  parse_ip_list s = ip_list (split_trimmed s)
