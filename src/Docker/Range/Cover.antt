-- ===== src/Docker/Range/Cover.antt =====
-- The list `rangeToCIDRs` returns: consecutive blocks, each the largest that starts there, that
-- cover the range and nothing else.
use firefik.Prelude.{
  ℕ, zero, suc, ◌+◌, ◌-◌, ◌^◌, ◌≤◌, ◌<◌, ◌≡◌, ◌≢◌, refl, subst, ◌⊎◌, inl, inr, not, List, [], ◌∷◌,
  Outcome, ok, err, if_ind, lt-or-ge, Any, ◌↔◌, arith, ltb-true, ltb-false, leb, ◌==◌, ==_eq, ==_ne,
}
use firefik.Docker.RuleSet.{IpNet, net4}
use firefik.Docker.Range.{u32, block_size, prefix_bits, range_loop, range_to_cidrs}
use firefik.Docker.Range.Powers.{pow_pos}
use firefik.Docker.Range.Blocks.{Fits, prefix_bits-Fits}

-- The blocks `nets` follow each other from `s` up to `e`, both included when there is one.
pub data Tiles : ℕ → ℕ → List IpNet → Type 0 where
  done : {e : ℕ} → Tiles (e + 1) e []
  block :
      {s e bits : ℕ} {nets : List IpNet}
      → 1 ≤ bits
      → bits ≤ 32
      → Fits s e bits
      → ((bits ≡ 1) ⊎ (Fits s e (bits - 1) → ⊥))
      → Tiles (s + block_size bits) e nets
      → Tiles s e (net4 s bits ∷ nets)

-- Whether the block of a network holds an address.
abbrev pub Covers : IpNet → ℕ → Type 0
Covers (net4 a bits) x = (a ≤ x) × (x < a + block_size bits)
Covers _ x = ⊥

-- The loop returns such tiles.
abbrev Tiled : ℕ → ℕ → Outcome (Unit {0}) (List IpNet) → Type 0
Tiled s e m = (nets : List IpNet) × (m ≡ ok nets) × Tiles s e nets

loop-Tiled : (n s e : ℕ) → s ≤ e + 1 → e < 2 ^ 32 → e + 1 - s < n → Tiled s e (range_loop n s e)
unfolding range_loop
loop-Tiled zero s e le below fuel = absurd (omega arith)
loop-Tiled (suc n) s e le below fuel =
    if_ind (Tiled s e) (not (leb s e))
      (λ over. ([], refl, subst (λ m. Tiles m e []) (ground arith) done))
      λ within.
        let (pos, le32, fits, most) = prefix_bits-Fits s e (ground arith) below in
        let size_pos = pow_pos (32 - prefix_bits s e) in
        let (_, short) = fits in
        if_ind (Tiled s e) (u32 (s + block_size (prefix_bits s e)) == 0)
          (λ wraps. (
            _,
            refl,
            block pos le32 fits most
                (subst (λ m. Tiles m e []) (ends _ size_pos short (==_eq wraps)) done),
          ))
          λ on.
            let same : u32 (s + block_size (prefix_bits s e)) ≡ s + block_size (prefix_bits s e) =
              stays _ short (==_ne on) in
            let (nets, eq, t) =
              loop-Tiled n (u32 (s + block_size (prefix_bits s e))) e (omega arith) below
                (omega arith) in
            (_, rw eq refl, block pos le32 fits most (subst (λ m. Tiles m e nets) same t))
  where
    ends : (p : ℕ) → 0 < p → s + p ≤ e + 1 → u32 (s + p) ≡ 0 → e + 1 ≡ s + p
    ends p pos short wraps = omega arith

    stays : (p : ℕ) → s + p ≤ e + 1 → u32 (s + p) ≢ 0 → u32 (s + p) ≡ s + p
    stays p short on = omega arith

-- An address that tiles from `s` to `e` cover is in that range, and each one of the range is covered.
Tiles-Covers :
    {s e : ℕ} {nets : List IpNet}
    → Tiles s e nets
    → (x : ℕ) → (s ≤ x) × (x ≤ e)
    → Any (λ n. Covers n x) nets
Tiles-Covers done x (lo, hi) = absurd (omega arith)
Tiles-Covers (block {s} {e} {bits} _ _ _ _ t) x (lo, hi) = elim (lt-or-ge x (s + block_size bits)) [
  | inl in_it ↦ inl (lo, in_it)
  | inr behind ↦ inr (Tiles-Covers t x (behind, hi))
]

Tiles-within :
    {s e : ℕ} {nets : List IpNet}
    → Tiles s e nets
    → (x : ℕ) → Any (λ n. Covers n x) nets
    → (s ≤ x) × (x ≤ e)
Tiles-within done x covered = absurd covered
Tiles-within (block _ _ (_, short) _ t) x (inl (lo, hi)) = (lo, omega arith)
Tiles-within (block {s} {e} {bits} _ _ _ _ t) x (inr later) =
    let (lo, hi) = Tiles-within t x later in (omega arith, hi)

-- For 32-bit bounds the conversion ends, with the error when the start is behind the end.
pub range-refuses : (s e : ℕ) → e < s → range_to_cidrs s e ≡ err tt
unfolding range_to_cidrs
range-refuses s e h = rw (ltb-true h) refl

-- For 32-bit bounds in order, the networks of a range are consecutive aligned blocks from its start
-- to its end, each the largest that fits, or of prefix 1.
pub range-Tiles :
    (s e : ℕ)
    → s ≤ e
    → e < 2 ^ 32
    → (nets : List IpNet) × (range_to_cidrs s e ≡ ok nets) × Tiles s e nets
unfolding range_to_cidrs
range-Tiles s e le below =
    rw (ltb-false le) (loop-Tiled (e - s + 2) s e (omega arith) below (omega arith))

-- For 32-bit bounds in order, the conversion of an address range succeeds, and an address is in one
-- of the networks exactly if it is in the range, both ends included.
pub range-Covers :
    (s e x : ℕ)
    → s ≤ e
    → e < 2 ^ 32
    → (nets : List IpNet) × (range_to_cidrs s e ≡ ok nets)
      × (Any (λ n. Covers n x) nets ↔ ((s ≤ x) × (x ≤ e)))
range-Covers s e x le below =
    let (nets, eq, t) = range-Tiles s e le below in (nets, eq, (Tiles-within t x, Tiles-Covers t x))
