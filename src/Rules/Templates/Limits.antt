-- ===== src/Rules/Templates/Limits.antt =====
-- The bounds of a rate limit.
use firefik.Prelude.{
  ℕ, ◌*◌, ◌^◌, ◌<◌, ◌≡◌, subst, [], ◌∷◌, Option, none, some, Text, ltb, ltb→lt, ◌==◌, ==_ne, if_ind,
  arith,
}
use firefik.Docker.RuleSet.{RateLimitConfig}
use firefik.Rules.Templates.{
  digits_onto, parse_uint32, below_32, or_zero, burst_of, limit_of, limit_parts, cut_comma,
  trim_per_second, parse_ratelimit_lenient,
}
use firefik.Strings.{is_empty, trim_space}

-- A number of the text, if any, has 32 bits.
abbrev Small : Option ℕ → Type 0
Small none = Unit
Small (some n) = n < 2 ^ 32

below_32-Small : (o : Option ℕ) → Small (below_32 o)
below_32-Small none = tt
below_32-Small (some n) =
    if_ind Small (ltb n (2 ^ 32)) {x = some n} {y = none} (λ h. ltb→lt n (2 ^ 32) h) (λ _. tt)

parse_uint32-Small : (s : Text) → Small (parse_uint32 s)
unfolding parse_uint32
parse_uint32-Small [] = tt
parse_uint32-Small (c ∷ cs) = below_32-Small (digits_onto 0 (c ∷ cs))

-- The rate has 32 bits, the burst 33, and the burst is not 0 unless the rate is.
abbrev Bounded : Option RateLimitConfig → Type 0
Bounded none = Unit
Bounded (some rc) = (rc.rate < 2 ^ 32) × (rc.burst < 2 ^ 33) × (rc.burst ≡ 0 → rc.rate ≡ 0)

limit_of-Bounded :
    (burst : ℕ) (o : Option ℕ) → burst < 2 ^ 32 → Small o → Bounded (limit_of burst o)
limit_of-Bounded burst none b h = tt
limit_of-Bounded burst (some n) b h =
    if_ind (λ r. (n < 2 ^ 32) × (r < 2 ^ 33) × (r ≡ 0 → n ≡ 0)) (burst == 0) {x = n * 2} {y = burst}
      (λ _. (h, omega arith, λ z. omega arith))
      (λ given. (h, omega arith, λ z. absurd (==_ne given z)))

or_zero-Small : (o : Option ℕ) → Small o → or_zero o < 2 ^ 32
or_zero-Small none h = omega arith
or_zero-Small (some n) h = h

burst_of-Small : (o : Option Text) → burst_of o < 2 ^ 32
burst_of-Small none = omega arith
burst_of-Small (some t) = or_zero-Small (parse_uint32 t) (parse_uint32-Small t)

limit_parts-Small : (s : Text) (o : Option (Text × Text)) → (limit_parts s o).1 < 2 ^ 32
limit_parts-Small s none = omega arith
limit_parts-Small s (some (a, b)) = burst_of-Small _

parse-Bounded : (s : Text) → Bounded (parse_ratelimit_lenient s)
unfolding parse_ratelimit_lenient
parse-Bounded s =
    let parts = limit_parts (trim_space s) (cut_comma (trim_space s)) in
    if_ind Bounded (is_empty (trim_space s)) {x = none}
      {y = limit_of (parts.1) (parse_uint32 (trim_per_second (parts.0)))} (λ _. tt)
      (λ _.
        limit_of-Bounded (parts.1) _ (limit_parts-Small (trim_space s) (cut_comma (trim_space s)))
          (parse_uint32-Small (trim_per_second (parts.0))))

-- A limit that a template's text gives has a 32-bit rate, a 33-bit burst, and no burst of 0 unless
-- the rate is 0.
pub ratelimit_lem :
    (s : Text) (rc : RateLimitConfig)
    → parse_ratelimit_lenient s ≡ some rc
    → (rc.rate < 2 ^ 32) × (rc.burst < 2 ^ 33) × (rc.burst ≡ 0 → rc.rate ≡ 0)
ratelimit_lem s rc h = subst Bounded h (parse-Bounded s)
