-- ===== src/BitOp/Pow2.antt =====
-- `yf_bit_cnt` and `yf_align_2pow`: the width of a number, and rounding up to a power of two.
use native.Mathlib.Nat.{pow-suc}
use yifei.Prelude.{
  ℕ, zero, suc, ◌+◌, ◌-◌, ◌*◌, ◌/◌, ◌^◌, ◌≤◌, ◌<◌, ◌≡◌, ◌==◌, ◌≢◌, refl, inl, inr, arith, ltb,
  Bool-cases, ==→eq, ==→ne, ltb→lt, ltb→ge,
}
use yifei.BitOp.{bit_cnt_loop, bit_cnt, bitcnt2val, align_2pow}

-- `k` is the number of binary digits of `val`.
pub record IsWidth (val k : ℕ) : Type 0 where
  pub above : val < 2 ^ k
  pub below : 0 < val → 2 ^ k ≤ 2 * val
  pub none_at_zero : val ≡ 0 → k ≡ 0

IsWidth-suc : (val k : ℕ) → val ≢ 0 → IsWidth (val / 2) k → IsWidth val (suc k)
IsWidth-suc val k h w = elim (Bool-cases (val / 2 == 0)) [
  | inl z ↦ record {
    above = omega (arith, pow-suc 2 k, w.above);
    below = λ p. small (w.none_at_zero (==→eq _ _ z)) p;
    none_at_zero = λ e. absurd (h e);
  }
  | inr nz ↦ record {
    above = omega (arith, pow-suc 2 k, w.above);
    below = λ p. omega (arith, pow-suc 2 k, ==→ne _ _ nz, w.below);
    none_at_zero = λ e. absurd (h e);
  }
]
  where
    small : k ≡ 0 → 0 < val → 2 ^ suc k ≤ 2 * val
    small e p = rw e (omega arith)

bit_cnt_loop-IsWidth :
    (fuel val cnt : ℕ)
    → val < 2 ^ fuel
    → (k : ℕ) × (bit_cnt_loop fuel val cnt ≡ cnt + k) × IsWidth val k
unfolding bit_cnt_loop
bit_cnt_loop-IsWidth zero val cnt h =
    (0, omega arith, record { above = h; below = λ p. omega arith; none_at_zero = λ e. refl })
bit_cnt_loop-IsWidth (suc fuel) val cnt h =
    let rec = bit_cnt_loop-IsWidth fuel (val / 2) (cnt + 1) (omega (arith, pow-suc 2 fuel)) in
    elim (Bool-cases (val == 0)) [
      | inl z ↦ (
        0,
        rw z (omega arith),
        record {
          above = omega (arith, ==→eq val 0 z);
          below = λ p. omega (arith, ==→eq val 0 z);
          none_at_zero = λ e. refl;
        },
      )
      | inr nz ↦
          (suc rec.0, rw nz (omega (arith, rec.1)), IsWidth-suc val rec.0 (==→ne val 0 nz) rec.2)
    ]

-- For a 64-bit value, `yf_bit_cnt` is the width of the value in bits, and 0 for 0.
bit_cnt-IsWidth : (val : ℕ) → val < 2 ^ 64 → IsWidth val (bit_cnt val)
unfolding bit_cnt
bit_cnt-IsWidth val h =
    let rec = bit_cnt_loop-IsWidth 64 val 0 h in
    let e : bit_cnt_loop 64 val 0 ≡ rec.0 = omega (arith, rec.1) in rw e rec.2

pred_pow : (k : ℕ) → 1 < 2 ^ k → 2 ^ k ≡ 2 * 2 ^ (k - 1)
pred_pow zero h = absurd (omega arith)
pred_pow (suc k) h = let e : suc k - 1 ≡ k = omega arith in rw e (omega (arith, pow-suc 2 k))

-- For a value from 1 to 2^63, `yf_align_2pow` yields a power of two that is not below the value
-- and below its double.
pub align_2pow_lem :
    (val : ℕ)
    → 0 < val
    → val ≤ 2 ^ 63
    → (k : ℕ) × (align_2pow val ≡ 2 ^ k) × (val ≤ align_2pow val) × (align_2pow val < 2 * val)
unfolding align_2pow bitcnt2val
align_2pow_lem val p h = elim (Bool-cases (ltb (2 ^ (b - 1)) val)) [
  | inl more ↦ (
    b,
    rw (more, e),
    rw (more, e) (omega (arith, w.above)),
    rw (more, e) (omega (arith, w.below, two, ltb→lt _ _ more)),
  )
  | inr enough ↦ (
    b - 1,
    rw enough,
    rw enough (omega (arith, ltb→ge _ _ enough)),
    rw enough (omega (arith, w.below, w.above, two)),
  )
]
  where
    b : ℕ
    b = bit_cnt val

    w : IsWidth val (bit_cnt val)
    w = bit_cnt-IsWidth val (omega arith)

    two : 2 ^ bit_cnt val ≡ 2 * 2 ^ (bit_cnt val - 1)
    two = pred_pow (bit_cnt val) (omega (arith, w.above))

    e : bit_cnt val + 1 - 1 ≡ bit_cnt val
    e = omega arith
