-- ===== src/Docker/Range/Powers.antt =====
-- Powers of two below 2 ^ 32, and numbers that a power of two divides.
use native.Mathlib.Nat.{
  zero-add, suc-add, pow-succ', div-add-mod', lt_of_mul-lt-mul_right, mul-le-mul_right,
}
use firefik.Prelude.{ℕ, zero, suc, ◌+◌, ◌-◌, ◌*◌, ◌/◌, ◌%◌, ◌^◌, ◌≤◌, ◌<◌, ◌≡◌, subst, arith}

pub pow_pos : (n : ℕ) → 0 < 2 ^ n
pow_pos zero = omega arith
pow_pos (suc n) = omega (arith, pow-succ' 2 n, pow_pos n)

pub pow_split : (j k : ℕ) → 2 ^ (j + k) ≡ 2 ^ j * 2 ^ k
pow_split zero k = rw (zero-add) (omega arith)
pow_split (suc j) k = rw (suc-add, pow-succ', pow-succ') (grind (arith, pow_split j k))

-- A block of 2 ^ k addresses that starts below 2 ^ 32 at a multiple of its size ends by 2 ^ 32.
pub block_fits : (k s : ℕ) → k ≤ 32 → s < 2 ^ 32 → s % 2 ^ k ≡ 0 → s + 2 ^ k ≤ 2 ^ 32
block_fits k s h lt al =
    let sum : 32 - k + k ≡ 32 = omega arith in
    let whole : 2 ^ 32 ≡ 2 ^ (32 - k) * 2 ^ k =
      subst (λ n. 2 ^ n ≡ 2 ^ (32 - k) * 2 ^ k) sum (pow_split (32 - k) k) in
    let start : s / 2 ^ k * 2 ^ k ≡ s = omega (arith, div-add-mod' s (2 ^ k)) in
    let below : s / 2 ^ k < 2 ^ (32 - k) = lt_of_mul-lt-mul_right (2 ^ k) (omega arith) in
    omega (arith, mul-le-mul_right (2 ^ k) below)
