-- ===== src/Docker/Entries/Nets.antt =====
-- The networks of a label: reading them ends, and they are networks of their family.
use firefik.Prelude.{
  ℕ, ◌-◌, ◌^◌, ◌≤◌, ◌<◌, not, Option, none, some, List, [], ◌∷◌, All, All-append, Text, ok, ◌>>=◌,
  Delivers, delivers, refuses, Delivers-if, Delivers-bind, lt-or-ge, inl, inr, arith,
}
use firefik.Strings.{cut, has_rune}
use firefik.Docker.Numbers.{UintResult, value, refused, parse_uint}
use firefik.Docker.Numbers.RoundTrip.{UpTo, parse_uint-UpTo}
use firefik.Docker.RuleSet.{Ip, ip4, ip6, IpNet, net4, net6, NetParser}
use firefik.Docker.Range.Powers.{pow_pos}
use firefik.Docker.Range.Cover.{Tiles, done, block, range-refuses, range-Tiles}
use firefik.Docker.RangeV6.Cover.{Tiles6, range6-refuses, range6-Tiles}
use firefik.Docker.Entries.{
  invalid_range_suffix, wrap_num, split_trimmed, to_16, v4_range, v6_range, v4_end, v6_end,
  with_last_byte, suffix_or_end, range_from, range_parts, parse_ip_range, cidr_entry, ip_entry,
  parse_ip_entry, is_network_name, ip_list, parse_ip_list,
}

-- An address of its family, and a network with an address and a prefix of its family.
abbrev pub IsIp : Ip → Type 0
IsIp (ip4 a) = a < 2 ^ 32
IsIp (ip6 a) = a < 2 ^ 128

abbrev pub IsNet : IpNet → Type 0
IsNet (net4 a bits) = (a < 2 ^ 32) × (bits ≤ 32)
IsNet (net6 a bits) = (a < 2 ^ 128) × (bits ≤ 128)

abbrev pub IfSome {ℓ} : {A : Type ℓ} → (A → Type 0) → Option A → Type 0
IfSome P none = Unit
IfSome P (some a) = P a

-- What the documentation of Go's package `net` says of the results.
pub record IsParser (net : NetParser) : Type 0 where
  pub gives_ip : (s : Text) → IfSome IsIp (net.parse_ip s)
  pub gives_net : (s : Text) → IfSome IsNet (net.parse_cidr s)

Tiles-IsNet : {s e : ℕ} {nets : List IpNet} → e < 2 ^ 32 → Tiles s e nets → All IsNet nets
Tiles-IsNet below done = tt
Tiles-IsNet below (block {bits} _ le (_, short) _ t) =
    ((omega (arith, pow_pos (32 - bits)), le), Tiles-IsNet below t)

Tiles6-IsNet : {s e : ℕ} {nets : List IpNet} → e < 2 ^ 128 → Tiles6 s e nets → All IsNet nets
Tiles6-IsNet below Tiles6.done = tt
Tiles6-IsNet below (Tiles6.block {bits} _ le (_, short) _ t) =
    ((omega (arith, pow_pos (128 - bits)), le), Tiles6-IsNet below t)

v4-Delivers : (s e : ℕ) → e < 2 ^ 32 → Delivers (All IsNet) (v4_range s e)
unfolding v4_range
v4-Delivers s e below = elim (lt-or-ge e s) [
  | inl behind ↦ rw (range-refuses s e behind) refuses
  | inr le ↦ let (nets, eq, t) = range-Tiles s e le below in rw eq (delivers (Tiles-IsNet below t))
]

v6-Delivers : (s e : ℕ) → e < 2 ^ 128 → Delivers (All IsNet) (v6_range s e)
unfolding v6_range
v6-Delivers s e below = elim (lt-or-ge e s) [
  | inl behind ↦ rw (range6-refuses s e behind) refuses
  | inr le ↦
      let (nets, eq, t) = range6-Tiles s e le below in rw eq (delivers (Tiles6-IsNet below t))
]

v4_end-Delivers :
    (s : Text) (o : Option Ip) → IfSome IsIp o → Delivers (λ e. e < 2 ^ 32) (v4_end s o)
unfolding v4_end
v4_end-Delivers s none h = refuses
v4_end-Delivers s (some (ip4 a)) h = delivers h
v4_end-Delivers s (some (ip6 a)) h = refuses

v6_end-Delivers :
    (s : Text) (o : Option Ip) → IfSome IsIp o → Delivers (λ e. e < 2 ^ 128) (v6_end s o)
unfolding v6_end to_16
v6_end-Delivers s none h = refuses
v6_end-Delivers s (some (ip4 a)) h = delivers (omega arith)
v6_end-Delivers s (some (ip6 a)) h = delivers h

module _ (net : NetParser) (is : IsParser net) where
  end-Delivers :
      (a : ℕ) (s : Text) → a < 2 ^ 32 → Delivers (λ e. e < 2 ^ 32) (suffix_or_end net a s)
  unfolding suffix_or_end
  end-Delivers a s h =
      Delivers-if (not (has_rune b'.' s)) (λ _. go (parse_uint 0xff s) (parse_uint-UpTo 0xff s))
        (λ _. v4_end-Delivers s (net.parse_ip s) (is.gives_ip s))
    where
      go :
          (r : UintResult)
          → UpTo 0xff r
          → Delivers
              (λ e. e < 2 ^ 32)
              (wrap_num (invalid_range_suffix s) r >>= λ n. ok (with_last_byte a n))
      go (value n) le = delivers (omega arith)
      go (refused e) le = refuses

  from-Delivers :
      (start end : Text) (o : Option Ip)
      → IfSome IsIp o
      → Delivers (All IsNet) (range_from net start end o)
  unfolding range_from
  from-Delivers start end none h = refuses
  from-Delivers start end (some (ip4 a)) h =
      Delivers-bind (end-Delivers a end h) λ e below. v4-Delivers a e below
  from-Delivers start end (some (ip6 a)) h =
      Delivers-bind (v6_end-Delivers end (net.parse_ip end) (is.gives_ip end))
        λ e below. v6-Delivers a e below

  parts-Delivers :
      (entry : Text) (o : Option (Text × Text)) → Delivers (All IsNet) (range_parts net entry o)
  unfolding range_parts
  parts-Delivers entry none = refuses
  parts-Delivers entry (some (start, end)) =
      from-Delivers start end (net.parse_ip start) (is.gives_ip start)

  entry-Delivers : (entry : Text) → Delivers (All IsNet) (parse_ip_entry net entry)
  unfolding parse_ip_entry parse_ip_range
  entry-Delivers entry =
      Delivers-if (has_rune b'/' entry) (λ _. cidr (net.parse_cidr entry) (is.gives_net entry))
        (λ _.
          Delivers-if (has_rune b'-' entry) (λ _. parts-Delivers entry (cut b'-' entry))
            (λ _. ip (net.parse_ip entry) (is.gives_ip entry)))
    where
      cidr : (o : Option IpNet) → IfSome IsNet o → Delivers (All IsNet) (cidr_entry net entry o)
      cidr none h = refuses
      cidr (some n) h = delivers (h, tt)

      ip : (o : Option Ip) → IfSome IsIp o → Delivers (All IsNet) (ip_entry net entry o)
      ip none h = refuses
      ip (some (ip4 a)) h = delivers ((h, omega arith), tt)
      ip (some (ip6 a)) h = delivers ((h, omega arith), tt)

  abbrev pub Nets : List IpNet × List Text → Type 0
  Nets (nets, names) = All IsNet nets

  list-Delivers : (entries : List Text) → Delivers Nets (ip_list net entries)
  unfolding ip_list
  list-Delivers [] = delivers tt
  list-Delivers (entry ∷ entries) =
      Delivers-if (is_network_name net entry)
        (λ _. Delivers-bind (list-Delivers entries) λ (nets, names) h. delivers h)
        (λ _. Delivers-bind (entry-Delivers entry) λ nets h.
          Delivers-bind (list-Delivers entries)
            λ (more, names) hs. delivers (All-append IsNet nets more h hs))

  -- Parsing the addresses of a label ends, and gives networks of their families.
  pub parse_ip_list-Delivers : (s : Text) → Delivers Nets (parse_ip_list net s)
  unfolding parse_ip_list
  parse_ip_list-Delivers s = list-Delivers (split_trimmed s)
