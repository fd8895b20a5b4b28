-- ===== src/BitOp/Align.antt =====
-- `yf_mod` and `yf_align` at a power of two, as remainder and rounding up.
use native.Mathlib.Nat.{div-add-mod', mod-lt, mul-mod_left}
use yifei.Prelude.{ℕ, ◌+◌, ◌-◌, ◌*◌, ◌/◌, ◌%◌, ◌^◌, ◌≤◌, ◌<◌, ◌≡◌, arith}
use yifei.Prelude.Bits.{bit_and_mask, pow_pos}
use yifei.BitOp.{yf_mod, align}

pub yf_mod-pow : (val k : ℕ) → yf_mod val (2 ^ k) ≡ val % 2 ^ k
unfolding yf_mod
yf_mod-pow val k = bit_and_mask k val

pub align-pow : (d k : ℕ) → align d (2 ^ k) ≡ (d + (2 ^ k - 1)) / 2 ^ k * 2 ^ k
unfolding align
align-pow d k =
    omega (arith, bit_and_mask k (d + (2 ^ k - 1)), div-add-mod' (d + (2 ^ k - 1)) (2 ^ k))

round_up_bounds :
    (d m : ℕ)
    → 0 < m
    → ((d + (m - 1)) / m * m % m ≡ 0)
      × (d ≤ (d + (m - 1)) / m * m)
      × ((d + (m - 1)) / m * m < d + m)
round_up_bounds d m h =
    (mul-mod_left ((d + (m - 1)) / m) m, omega (arith, e, l), omega (arith, e, l))
  where
    e : (d + (m - 1)) / m * m + (d + (m - 1)) % m ≡ d + (m - 1)
    e = div-add-mod' (d + (m - 1)) m

    l : (d + (m - 1)) % m < m
    l = mod-lt (d + (m - 1)) h

-- At a power of two, `yf_align` yields a multiple of it that is not below the value and exceeds
-- it by less than the power.
pub align_bounds :
    (d k : ℕ)
    → (align d (2 ^ k) % 2 ^ k ≡ 0) × (d ≤ align d (2 ^ k)) × (align d (2 ^ k) < d + 2 ^ k)
align_bounds d k = rw (align-pow d k) (round_up_bounds d (2 ^ k) (pow_pos k))
