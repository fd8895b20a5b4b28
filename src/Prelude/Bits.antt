-- ===== src/Prelude/Bits.antt =====
-- `x & (2 ^ k - 1)` is `x % 2 ^ k`, for every width.
use Prim.Native.Nat.{
  ℕ, zero, suc, ◌+◌, ◌-◌, ◌*◌, ◌/◌, ◌%◌, ◌^◌, ◌≤◌, ◌<◌, min, bit_and, digits, bit_and-bitwise,
}
use mathlib.Core.Path.{◌≡◌, sym, ap, ◌∙◌}
use native.Mathlib.Omega.{arith}
use native.Mathlib.Nat.{pow-suc, mod-eq_of_lt}

pub pow_pos : (k : ℕ) → 0 < 2 ^ k
pow_pos zero = omega arith
pow_pos (suc k) = omega (arith, pow_pos k, pow-suc 2 k)

-- One more digit of a remainder.
pub remainder_digit : (y p : ℕ) → 0 < p → y % (2 * p) ≡ (y / 2 % p) * 2 + y % 2
remainder_digit y p pos = grind arith

-- The mask of `suc k` ones is odd, and its half is the mask of `k` ones.
mask_half : (k : ℕ) → ((2 ^ suc k - 1) / 2 ≡ 2 ^ k - 1) × ((2 ^ suc k - 1) % 2 ≡ 1)
mask_half k = let e = pow-suc 2 k in (omega (arith, e, pow_pos k), omega (arith, e, pow_pos k))

-- The digits that a mask keeps, with any fuel that is not below the value.
masked : (fuel k x : ℕ) → x ≤ fuel → digits (λ d. zero) min fuel x (2 ^ k - 1) ≡ x % 2 ^ k
masked zero k zero h = sym (mod-eq_of_lt (pow_pos k))
masked zero k (suc x) h = absurd (omega arith)
masked (suc fuel) k zero h = sym (mod-eq_of_lt (pow_pos k))
masked (suc fuel) zero (suc x) h = omega (arith, masked fuel 0 (suc x / 2) (omega arith))
masked (suc fuel) (suc k) (suc x) h =
    let (half, odd) = mask_half k in
    let rest =
      ap (digits (λ d. zero) min fuel (suc x / 2)) half ∙ masked fuel k (suc x / 2) (omega arith) in
    let double : 2 ^ suc k ≡ 2 * 2 ^ k = omega (arith, pow-suc 2 k) in
    omega
      (arith, rest, odd, ap (λ p. suc x % p) double, remainder_digit (suc x) (2 ^ k) (pow_pos k))

pub bit_and_mask : (k x : ℕ) → bit_and x (2 ^ k - 1) ≡ x % 2 ^ k
bit_and_mask k x = bit_and-bitwise x (2 ^ k - 1) ∙ masked x k x (omega arith)
