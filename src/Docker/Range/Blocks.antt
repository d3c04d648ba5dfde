-- ===== src/Docker/Range/Blocks.antt =====
-- The inner loop finds the largest block that starts at `s`, is aligned, and ends by `e`.
use firefik.Prelude.{
  ℕ, zero, suc, ◌+◌, ◌-◌, ◌%◌, ◌^◌, ◌≤◌, ◌<◌, ◌≡◌, ◌≢◌, refl, sym, subst, ◌⊎◌, inl, inr, not, arith,
  ltb, ◌==◌, if_ind,
}
use firefik.Docker.Range.{u32, block_size, masked, widen, prefix_bits}
use firefik.Docker.Range.Powers.{pow_pos, block_fits}

-- A block of this prefix length that starts at `s` is aligned and ends by `e`.
abbrev pub Fits : ℕ → ℕ → ℕ → Type 0
Fits s e bits = (s % block_size bits ≡ 0) × (s + block_size bits ≤ e + 1)

masked_self : (s p : ℕ) → 0 < p → s - s % p ≡ s → s % p ≡ 0
masked_self s p h e = grind arith

last_address : (s p : ℕ) → 0 < p → s + p ≤ 2 ^ 32 → u32 (u32 (s + p) + 2 ^ 32 - 1) ≡ s + p - 1
last_address s p h fits = omega arith

module _ (s e : ℕ) (le : s ≤ e) (below : e < 2 ^ 32) where
  -- The end of an aligned block, in the wrapping arithmetic of the loop.
  block_end :
      (bits : ℕ)
      → s % block_size bits ≡ 0
      → u32 (u32 (s + block_size bits) + 2 ^ 32 - 1) ≡ s + block_size bits - 1
  block_end bits al =
      last_address s (block_size bits) (pow_pos (32 - bits))
        (block_fits (32 - bits) s (omega arith) (omega arith) al)

  widen-Fits :
      (b : ℕ)
      → Fits s e (suc b)
      → (widen b s e ≤ b)
        × Fits s e (suc (widen b s e))
        × ((widen b s e ≡ 0) ⊎ (Fits s e (widen b s e) → ⊥))
  unfolding widen
  widen-Fits zero f = (omega arith, f, inl refl)
  widen-Fits (suc b) f =
      if_ind Good (not (masked s (suc b) == s))
        (λ larger. (omega arith, f, inr (λ (al, _). ground (arith, al))))
        λ al0.
          let al : s % block_size (suc b) ≡ 0 =
            masked_self s _ (pow_pos (32 - suc b)) (ground arith) in
          if_ind Good (ltb e (u32 (u32 (s + block_size (suc b)) + 2 ^ 32 - 1)))
            (λ over. (
              omega arith,
              f,
              inr (λ (_, short). ground (arith, block_end (suc b) al, pow_pos (32 - suc b))),
            ))
            (λ within.
              let (lt, g, m) =
                widen-Fits b (al, ground (arith, block_end (suc b) al, pow_pos (32 - suc b))) in
              (omega arith, g, m))
    where
      Good : ℕ → Type 0
      Good r = (r ≤ suc b) × Fits s e (suc r) × ((r ≡ 0) ⊎ (Fits s e r → ⊥))

  -- The block the outer loop takes: it fits, and larger block of twice its size does, but that of all addresses.
  pub prefix_bits-Fits :
      (1 ≤ prefix_bits s e)
      × (prefix_bits s e ≤ 32)
      × Fits s e (prefix_bits s e)
      × ((prefix_bits s e ≡ 1) ⊎ (Fits s e (prefix_bits s e - 1) → ⊥))
  unfolding prefix_bits
  prefix_bits-Fits =
      let (le32, fits, most) = widen-Fits 32 (omega arith, omega arith) in
      elim most [
        | inl z ↦ (omega arith, omega arith, fits, inl (omega arith))
        | inr larger ↦ (
          omega arith,
          below33 _ le32 larger,
          fits,
          inr (subst (λ n. Fits s e n → ⊥) (omega arith) larger),
        )
      ]
    where
      not32 : (r : ℕ) → (Fits s e r → ⊥) → r ≢ 32
      not32 r larger is = larger (subst (Fits s e) (sym is) (omega arith, omega arith))

      below33 : (r : ℕ) → r ≤ 32 → (Fits s e r → ⊥) → suc r ≤ 32
      below33 r le32 larger = let other = not32 r larger in omega arith
