-- ===== src/CircularBuf/Index.antt =====
-- The index macros: an index seen from the head block, and the bytes beyond a block.
use native.Mathlib.Nat.{div-add-mod', mod-lt, div-eq_of_lt-le, mul-div_cancel, le_refl}
use yifei.Prelude.{
  ℕ, zero, suc, ◌+◌, ◌-◌, ◌*◌, ◌/◌, ◌%◌, ◌^◌, ◌≤◌, ◌<◌, ◌≡◌, refl, ◌∙◌, max, ◌==◌, inl, inr, arith,
  Bool-cases, true, if◌then◌else◌, ==→eq, ==→ne,
}
use yifei.Prelude.Bits.{pow_pos}
use yifei.BitOp.Align.{yf_mod-pow, align-pow}
use yifei.CircularBuf.{
  CircularBuf, cb_diff_r, cb_diff_w, cb_add, cb_sub, cb_increase, cb_rest_mod, bsize,
}

module _ (h u : ℕ) (hin : h < max 1 u) where
  pub diff_r_self : cb_diff_r h h u ≡ 0
  unfolding cb_diff_r
  diff_r_self = ground arith

  pub diff_r_lt : (i : ℕ) → i < max 1 u → cb_diff_r i h u < max 1 u
  unfolding cb_diff_r
  diff_r_lt i p = ground arith

  pub diff_r_sub :
      (i j : ℕ)
      → i < max 1 u
      → j < max 1 u
      → cb_diff_r i h u ≤ cb_diff_r j h u
      → cb_diff_r j i u ≡ cb_diff_r j h u - cb_diff_r i h u
  unfolding cb_diff_r
  diff_r_sub i j p q le = ground arith

  pub diff_w_head : (i : ℕ) → i < max 1 u → cb_diff_w h i u ≡ u - cb_diff_r i h u
  unfolding cb_diff_r cb_diff_w
  diff_w_head i p = ground arith

  pub diff_r-add :
      (i n : ℕ)
      → i < max 1 u
      → cb_diff_r i h u + n < u
      → (cb_diff_r (cb_add i n u) h u ≡ cb_diff_r i h u + n) × (cb_add i n u < u)
  unfolding cb_diff_r cb_add
  diff_r-add i n p q = ground arith

  diff_r-sub :
      (i n : ℕ)
      → i < max 1 u
      → n ≤ cb_diff_r i h u
      → 0 < u
      → (cb_diff_r (cb_sub i n u) h u ≡ cb_diff_r i h u - n) × (cb_sub i n u < u)
  unfolding cb_diff_r cb_sub
  diff_r-sub i n p q z = ground arith

  pub diff_r-increase :
      (i : ℕ)
      → i < u
      → cb_diff_r i h u + 1 < u
      → (cb_diff_r (cb_increase i u) h u ≡ cb_diff_r i h u + 1) × (cb_increase i u < u)
  unfolding cb_diff_r cb_increase
  diff_r-increase i p q = ground arith

  -- Turning the ring by `h` makes an index what it is when seen from `h`.
  pub sub_head : (i : ℕ) → i < max 1 u → cb_sub i h u ≡ cb_diff_r i h u
  unfolding cb_diff_r cb_sub
  sub_head i p = ground arith

-- How so many bytes past the end of a block split into whole blocks and a last one.
pub record Splits (size w blocks rest : ℕ) : Type 0 where
  pub whole : ℕ
  pub count : blocks ≡ whole + 1
  pub total : whole * size + rest ≡ w
  pub low : 0 < rest
  pub high : rest ≤ size

pred-mul : (n s : ℕ) → 0 < n → (n - 1) * s + s ≡ n * s
pred-mul zero s h = absurd (omega arith)
pred-mul (suc n) s h = let e : suc n - 1 ≡ n = omega arith in rw e (omega arith)

-- A number with a last part from 1 to `s` rounds up to one block more than its whole blocks.
ceil_lem : (s w q r : ℕ) → 0 < r → r ≤ s → q * s + r ≡ w → (w + (s - 1)) / s ≡ q + 1
ceil_lem s w q r low high e =
    div-eq_of_lt-le s (let a : (q + 1) * s ≡ q * s + s = omega arith in omega (arith, a))
      (let b : (q + 1 + 1) * s ≡ q * s + s + s = omega arith in omega (arith, b))

bsize-div :
    (cb : CircularBuf) (w : ℕ)
    → cb.buf_size ≡ 2 ^ cb.buf_size_pow
    → bsize cb w ≡ (w + (cb.buf_size - 1)) / cb.buf_size
unfolding bsize
bsize-div cb w e =
    rw (e, align-pow w cb.buf_size_pow)
      (mul-div_cancel ((w + (2 ^ cb.buf_size_pow - 1)) / 2 ^ cb.buf_size_pow)
        (pow_pos cb.buf_size_pow))

rest_mod-mod :
    (cb : CircularBuf) (w : ℕ)
    → cb.buf_size ≡ 2 ^ cb.buf_size_pow
    → cb_rest_mod w cb.buf_size ≡ (if w % cb.buf_size == 0 then cb.buf_size else w % cb.buf_size)
unfolding cb_rest_mod
rest_mod-mod cb w e = rw (e, yf_mod-pow w cb.buf_size_pow)

pub bsize-Splits :
    (cb : CircularBuf) (w : ℕ)
    → cb.buf_size ≡ 2 ^ cb.buf_size_pow
    → 0 < w
    → Splits cb.buf_size w (bsize cb w) (cb_rest_mod w cb.buf_size)
bsize-Splits cb w e p = elim (Bool-cases (w % s == 0)) [
  | inl z ↦
      let r : cb_rest_mod w s ≡ s = rest_mod-mod cb w e ∙ rw z refl in
      let total : (w / s - 1) * s + s ≡ w =
        omega (arith, exact z, pred-mul (w / s) s (some_block (==→eq _ _ z))) in
      rw r (record {
        whole = w / s - 1;
        count = bsize-div cb w e ∙ ceil_lem s w (w / s - 1) s pos_s (le_refl s) total;
        total = total;
        low = pos_s;
        high = le_refl s;
      })
  | inr nz ↦
      let r : cb_rest_mod w s ≡ w % s = rest_mod-mod cb w e ∙ rw nz refl in
      let low : 0 < w % s = omega (arith, ==→ne _ _ nz) in
      let high : w % s ≤ s = omega (arith, mod-lt w pos_s) in
      rw r (record {
        whole = w / s;
        count = bsize-div cb w e ∙ ceil_lem s w (w / s) (w % s) low high (div-add-mod' w s);
        total = div-add-mod' w s;
        low = low;
        high = high;
      })
]
  where
    s : ℕ
    s = cb.buf_size

    pos_s : 0 < cb.buf_size
    pos_s = rw e (pow_pos cb.buf_size_pow)

    exact : (w % s == 0) ≡ true → w / s * s ≡ w
    exact z = omega (arith, div-add-mod' w s, ==→eq _ _ z)

    some_block : w % s ≡ 0 → 0 < w / s
    some_block z = grind (arith, div-add-mod' w s)
