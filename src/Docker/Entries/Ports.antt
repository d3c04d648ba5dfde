-- ===== src/Docker/Entries/Ports.antt =====
-- The ports of a label: their bounds, and a list of ports written and read back.
use firefik.Prelude.{
  ℕ, ◌≤◌, ◌≡◌, refl, sym, subst, List, [], ◌∷◌, All, Text, map, ok, err, ◌>>=◌, Delivers, delivers,
  refuses, Delivers-bind, Delivers-if, decimal, ◌==◌, arith, if◌then◌else◌,
}
use firefik.Strings.{is_empty, split, join}
use firefik.Strings.Pieces.{Lacks, Digits-Lacks, trim_space-Digits, split-join}
use firefik.Docker.Numbers.{UintResult, value, refused, parse_uint}
use firefik.Docker.Numbers.RoundTrip.{
  UpTo, parse_uint-UpTo, parse_uint-decimal, decimal-cons, decimal-Digits,
}
use firefik.Docker.Entries.{
  invalid_port, zero_port, wrap_num, keep_trimmed, split_trimmed, parse_port, parse_port_list,
  parse_ports,
}

-- A port is a positive 16-bit number.
abbrev pub IsPort : ℕ → Type 0
IsPort n = (1 ≤ n) × (n ≤ 0xffff)

parse_port-Delivers : (p : Text) → Delivers IsPort (parse_port p)
unfolding parse_port
parse_port-Delivers p = go (parse_uint 0xffff p) (parse_uint-UpTo 0xffff p)
  where
    go :
        (r : UintResult)
        → UpTo 0xffff r
        → Delivers IsPort
            (wrap_num (invalid_port p) r >>= λ n. if n == 0 then err zero_port else ok n)
    go (value n) le = Delivers-if (n == 0) (λ _. refuses) (λ pos. delivers (ground arith, le))
    go (refused e) le = refuses

list-Delivers : (ps : List Text) → Delivers (All IsPort) (parse_port_list ps)
unfolding parse_port_list
list-Delivers [] = delivers tt
list-Delivers (p ∷ ps) =
    Delivers-bind (parse_port-Delivers p)
      λ n h. Delivers-bind (list-Delivers ps) λ ns hs. delivers (h, hs)

-- Parsing the ports of a label ends, and the ports that it gives are positive 16-bit numbers.
pub parse_ports-Delivers : (s : Text) → Delivers (All IsPort) (parse_ports s)
unfolding parse_ports
parse_ports-Delivers s = list-Delivers (split_trimmed s)

parse_port-decimal : (n : ℕ) → IsPort n → parse_port (decimal n) ≡ ok n
unfolding parse_port
parse_port-decimal n (pos, le) = rw (parse_uint-decimal 0xffff n le) (ground arith)

keep-decimals : (ns : List ℕ) → keep_trimmed (map decimal ns) ≡ map decimal ns
unfolding keep_trimmed
keep-decimals [] = refl
keep-decimals (n ∷ ns) =
    rw (trim_space-Digits (decimal n) (decimal-Digits n), keep-decimals ns) (go (decimal-cons n))
  where
    go :
        (d : ℕ) × (t : Text) × (decimal n ≡ d ∷ t)
        → (if is_empty (decimal n) then map decimal ns else decimal n ∷ map decimal ns)
          ≡ decimal n ∷ map decimal ns
    go (d, t, e) = rw e refl

decimals-Lack : (ns : List ℕ) → All (Lacks b',') (map decimal ns)
decimals-Lack [] = tt
decimals-Lack (n ∷ ns) = (Digits-Lacks b',' (decimal n) refl (decimal-Digits n), decimals-Lack ns)

list-decimals : (ns : List ℕ) → All IsPort ns → parse_port_list (map decimal ns) ≡ ok ns
unfolding parse_port_list
list-decimals [] h = refl
list-decimals (n ∷ ns) (h, hs) = rw (parse_port-decimal n h, list-decimals ns hs) refl

some-ports :
    (n : ℕ) (ns : List ℕ)
    → All IsPort (n ∷ ns)
    → parse_ports (join b',' (map decimal (n ∷ ns))) ≡ ok (n ∷ ns)
unfolding parse_ports split_trimmed
some-ports n ns h =
    subst (λ ps. parse_port_list (keep_trimmed ps) ≡ ok (n ∷ ns))
      (sym (split-join b',' (decimal n) (map decimal ns) (decimals-Lack (n ∷ ns))))
      (subst (λ ps. parse_port_list ps ≡ ok (n ∷ ns)) (sym (keep-decimals (n ∷ ns)))
        (list-decimals (n ∷ ns) h))

no-ports : parse_ports (join b',' (map decimal [])) ≡ ok []
unfolding parse_ports split_trimmed join split keep_trimmed parse_port_list
no-ports = refl

-- Ports from 1 to 65535, written in decimal with commas between them, are read back, in order.
pub parse_ports-join :
    (ns : List ℕ) → All IsPort ns → parse_ports (join b',' (map decimal ns)) ≡ ok ns
parse_ports-join [] h = no-ports
parse_ports-join (n ∷ ns) h = some-ports n ns h
