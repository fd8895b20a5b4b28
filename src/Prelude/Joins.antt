-- ===== src/Prelude/Joins.antt =====
-- `x | y` is `x + y` where the two share no binary digit.
use Prim.Native.Nat.{
  ℕ, zero, suc, ◌+◌, ◌*◌, ◌/◌, ◌%◌, ◌^◌, ◌≤◌, ◌<◌, max, bit_or, digits, bit_or-bitwise,
}
use mathlib.Core.Path.{◌≡◌, refl, ap, ◌∙◌}
use native.Mathlib.Omega.{arith}
use native.Mathlib.Nat.{pow-suc}

abbrev joined : ℕ → ℕ → ℕ → ℕ
joined fuel a b = digits (λ d. d) max fuel a b

double_shift : (y k : ℕ) → y * 2 ^ suc k ≡ 2 * (y * 2 ^ k)
double_shift y k = ap (λ p. y * p) (pow-suc 2 k) ∙ omega arith

-- The low bits stand on the left.
joined_low : (fuel k a y : ℕ) → a ≤ fuel → a < 2 ^ k → joined fuel a (y * 2 ^ k) ≡ a + y * 2 ^ k
joined_low zero k zero y h l = omega arith
joined_low zero k (suc a) y h l = absurd (omega arith)
joined_low (suc fuel) k zero y h l = omega arith
joined_low (suc fuel) zero (suc a) y h l = absurd (omega arith)
joined_low (suc fuel) (suc k) (suc a) y h l =
    let e = double_shift y k in
    let half : y * 2 ^ suc k / 2 ≡ y * 2 ^ k = omega (arith, e) in
    let even : y * 2 ^ suc k % 2 ≡ 0 = omega (arith, e) in
    let rest =
      ap (joined fuel (suc a / 2)) half
      ∙ joined_low fuel k (suc a / 2) y (omega arith) (omega (arith, pow-suc 2 k)) in
    omega (arith, rest, even, e)

-- The low bits stand on the right.
joined_high : (fuel k a y b : ℕ) → a ≤ fuel → a ≡ y * 2 ^ k → b < 2 ^ k → joined fuel a b ≡ a + b
joined_high zero k zero y b h e l = omega arith
joined_high zero k (suc a) y b h e l = absurd (omega arith)
joined_high (suc fuel) k zero y b h e l = omega arith
joined_high (suc fuel) zero (suc a) y b h e l =
    let rest =
      joined_high fuel 0 (suc a / 2) (suc a / 2) (b / 2) (omega arith) (omega arith)
        (omega arith) in
    omega (arith, rest)
joined_high (suc fuel) (suc k) (suc a) y b h e l =
    let d = double_shift y k in
    let rest =
      joined_high fuel k (suc a / 2) y (b / 2) (omega arith) (omega (arith, e, d))
        (omega (arith, pow-suc 2 k)) in
    let even : suc a % 2 ≡ 0 = omega (arith, e, d) in omega (arith, rest, even)

pub bit_or_low : (k a y : ℕ) → a < 2 ^ k → bit_or a (y * 2 ^ k) ≡ a + y * 2 ^ k
bit_or_low k a y l = bit_or-bitwise a (y * 2 ^ k) ∙ joined_low a k a y (omega arith) l

pub bit_or_high : (k y b : ℕ) → b < 2 ^ k → bit_or (y * 2 ^ k) b ≡ y * 2 ^ k + b
bit_or_high k y b l =
    bit_or-bitwise (y * 2 ^ k) b ∙ joined_high (y * 2 ^ k) k (y * 2 ^ k) y b (omega arith) refl l
