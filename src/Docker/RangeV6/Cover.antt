-- ===== src/Docker/RangeV6/Cover.antt =====
-- The list `rangeToCIDRsV6` returns: consecutive blocks, each the largest that starts there, that
-- cover the range and nothing else.
use firefik.Prelude.{
  ℕ, zero, suc, ◌+◌, ◌-◌, ◌%◌, ◌^◌, ◌≤◌, ◌<◌, ◌≡◌, ◌≢◌, refl, sym, subst, ◌⊎◌, inl, inr, true, not,
  List, [], ◌∷◌, Outcome, ok, err, if_ind, lt-or-ge, Any, ◌↔◌, arith, ltb, ltb-true, ltb-false, leb,
  ◌==◌,
}
use firefik.Docker.RuleSet.{IpNet, net6}
use firefik.Docker.Range.Powers.{pow_pos}
use firefik.Docker.RangeV6.{size6, masked6, widen6, prefix6, range6_loop, range_to_cidrs_v6}

-- A block of this prefix length that starts at `s` is aligned and ends by `e`.
abbrev pub Fits6 : ℕ → ℕ → ℕ → Type 0
Fits6 s e bits = (s % size6 bits ≡ 0) × (s + size6 bits ≤ e + 1)

masked_self : (s p : ℕ) → 0 < p → s - s % p ≡ s → s % p ≡ 0
masked_self s p h e = grind arith

module _ (s e : ℕ) (le : s ≤ e) where
  widen6-Fits :
      (b : ℕ)
      → Fits6 s e (suc b)
      → (widen6 b s e ≤ b)
        × Fits6 s e (suc (widen6 b s e))
        × ((widen6 b s e ≡ 0) ⊎ (Fits6 s e (widen6 b s e) → ⊥))
  unfolding widen6
  widen6-Fits zero f = (omega arith, f, inl refl)
  widen6-Fits (suc b) f =
      if_ind Good (not (masked6 s (suc b) == s))
        (λ larger. (omega arith, f, inr (λ (al, _). ground (arith, al))))
        λ al0.
          let al : s % size6 (suc b) ≡ 0 = masked_self s _ (pow_pos (128 - suc b)) (ground arith) in
          if_ind Good (ltb e (s + size6 (suc b) - 1))
            (λ over. (omega arith, f, inr (λ (_, short). ground (arith, pow_pos (128 - suc b)))))
            (λ within.
              let (lt, g, m) = widen6-Fits b (al, ground (arith, pow_pos (128 - suc b))) in
              (omega arith, g, m))
    where
      Good : ℕ → Type 0
      Good r = (r ≤ suc b) × Fits6 s e (suc r) × ((r ≡ 0) ⊎ (Fits6 s e r → ⊥))

  -- The block the outer loop takes: it fits, and none of twice its size does, but that of all addresses.
  prefix6-Fits :
      (1 ≤ prefix6 s e)
      × (prefix6 s e ≤ 128)
      × Fits6 s e (prefix6 s e)
      × ((prefix6 s e ≡ 1) ⊎ (Fits6 s e (prefix6 s e - 1) → ⊥))
  unfolding prefix6
  prefix6-Fits =
      let (le128, fits, most) = widen6-Fits 128 (omega arith, omega arith) in
      elim most [
        | inl z ↦ (omega arith, omega arith, fits, inl (omega arith))
        | inr larger ↦ (
          omega arith,
          below129 _ le128 larger,
          fits,
          inr (subst (λ n. Fits6 s e n → ⊥) (omega arith) larger),
        )
      ]
    where
      not128 : (r : ℕ) → (Fits6 s e r → ⊥) → r ≢ 128
      not128 r larger is = larger (subst (Fits6 s e) (sym is) (omega arith, omega arith))

      below129 : (r : ℕ) → r ≤ 128 → (Fits6 s e r → ⊥) → suc r ≤ 128
      below129 r le128 larger = let other = not128 r larger in omega arith

-- The blocks `nets` follow each other from `s` up to `e`, both included when there is one.
pub data Tiles6 : ℕ → ℕ → List IpNet → Type 0 where
  done : {e : ℕ} → Tiles6 (e + 1) e []
  block :
      {s e bits : ℕ} {nets : List IpNet}
      → 1 ≤ bits
      → bits ≤ 128
      → Fits6 s e bits
      → ((bits ≡ 1) ⊎ (Fits6 s e (bits - 1) → ⊥))
      → Tiles6 (s + size6 bits) e nets
      → Tiles6 s e (net6 s bits ∷ nets)

-- Whether the block of a network holds an address.
abbrev pub Covers6 : IpNet → ℕ → Type 0
Covers6 (net6 a bits) x = (a ≤ x) × (x < a + size6 bits)
Covers6 _ x = ⊥

abbrev Tiled6 : ℕ → ℕ → Outcome (Unit {0}) (List IpNet) → Type 0
Tiled6 s e m = (nets : List IpNet) × (m ≡ ok nets) × Tiles6 s e nets

loop-Tiled6 : (n s e : ℕ) → s ≤ e + 1 → e < 2 ^ 128 → e + 1 - s < n → Tiled6 s e (range6_loop n s e)
unfolding range6_loop
loop-Tiled6 zero s e le below fuel = absurd (omega arith)
loop-Tiled6 (suc n) s e le below fuel =
    if_ind (Tiled6 s e) (not (leb s e))
      (λ over. ([], refl, subst (λ m. Tiles6 m e []) (ground arith) done))
      λ within.
        let (pos, le128, fits, most) = prefix6-Fits s e (ground arith) in
        let size_pos = pow_pos (128 - prefix6 s e) in
        let (_, short) = fits in
        if_ind (Tiled6 s e) (leb (2 ^ 128) (s + size6 (prefix6 s e)))
          (λ last. (
            _,
            refl,
            block pos le128 fits most (subst (λ m. Tiles6 m e []) (ends _ short last) done),
          ))
          λ on.
            let (nets, eq, t) =
              loop-Tiled6 n (s + size6 (prefix6 s e)) e short below (omega arith) in
            (_, rw eq refl, block pos le128 fits most t)
  where
    ends : (p : ℕ) → s + p ≤ e + 1 → leb (2 ^ 128) (s + p) ≡ true → e + 1 ≡ s + p
    ends p short last = ground arith

Tiles6-Covers :
    {s e : ℕ} {nets : List IpNet}
    → Tiles6 s e nets
    → (x : ℕ) → (s ≤ x) × (x ≤ e)
    → Any (λ n. Covers6 n x) nets
Tiles6-Covers done x (lo, hi) = absurd (omega arith)
Tiles6-Covers (block {s} {e} {bits} _ _ _ _ t) x (lo, hi) = elim (lt-or-ge x (s + size6 bits)) [
  | inl in_it ↦ inl (lo, in_it)
  | inr behind ↦ inr (Tiles6-Covers t x (behind, hi))
]

Tiles6-within :
    {s e : ℕ} {nets : List IpNet}
    → Tiles6 s e nets
    → (x : ℕ) → Any (λ n. Covers6 n x) nets
    → (s ≤ x) × (x ≤ e)
Tiles6-within done x covered = absurd covered
Tiles6-within (block _ _ (_, short) _ t) x (inl (lo, hi)) = (lo, omega arith)
Tiles6-within (block {s} {e} {bits} _ _ _ _ t) x (inr later) =
    let (lo, hi) = Tiles6-within t x later in (omega arith, hi)

pub range6-refuses : (s e : ℕ) → e < s → range_to_cidrs_v6 s e ≡ err tt
unfolding range_to_cidrs_v6
range6-refuses s e h = rw (ltb-true h) refl

pub range6-Tiles :
    (s e : ℕ)
    → s ≤ e
    → e < 2 ^ 128
    → (nets : List IpNet) × (range_to_cidrs_v6 s e ≡ ok nets) × Tiles6 s e nets
unfolding range_to_cidrs_v6
range6-Tiles s e le below =
    rw (ltb-false le) (loop-Tiled6 (e - s + 2) s e (omega arith) below (omega arith))

-- For 128-bit bounds in order, the conversion of an IPv6 range succeeds, and an address is in one of
-- the networks exactly if it is in the range, both ends included.
pub range_v6-Covers :
    (s e x : ℕ)
    → s ≤ e
    → e < 2 ^ 128
    → (nets : List IpNet) × (range_to_cidrs_v6 s e ≡ ok nets)
      × (Any (λ n. Covers6 n x) nets ↔ ((s ≤ x) × (x ≤ e)))
range_v6-Covers s e x le below =
    let (nets, eq, t) = range6-Tiles s e le below in
    (nets, eq, (Tiles6-within t x, Tiles6-Covers t x))
