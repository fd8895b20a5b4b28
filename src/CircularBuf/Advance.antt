-- ===== src/CircularBuf/Advance.antt =====
-- `__yf_circular_buf_advance_front` and `_back`: a place moves by a number of bytes.
use yifei.Prelude.{
  ℕ, ◌+◌, ◌-◌, ◌*◌, ◌≤◌, ◌<◌, ◌≡◌, ◌⊎◌, refl, max, leb, inl, inr, arith, Bool-cases, leb→le, leb→gt,
  ltb, ltb→lt, ltb→ge,
}
use native.Mathlib.Nat.{mul-le-mul_right}
use yifei.CircularBuf.{CircularBuf, Place, cb_add, advance_front, bsize, cb_rest_mod}
use yifei.CircularBuf.Index.{diff_r-add, Splits, bsize-Splits}
use yifei.CircularBuf.Valid.{IsValid, rot, lin}

-- A place inside the ring: in a block, or at its end.
pub record IsPlace (cb : CircularBuf) (q : Place) : Type 0 where
  pub inside : q.0 < max 1 cb.buf_used
  pub fits : q.1 ≤ cb.buf_size

-- Where `advance_front` goes from block `i`. It leaves a block only for a byte of a later one.
pub record Advanced (cb : CircularBuf) (i : ℕ) (pos : ℕ) (q : Place) : Type 0 where
  pub place : IsPlace cb q
  pub reached : lin cb q.0 q.1 ≡ pos
  pub forward : rot cb i ≤ rot cb q.0
  pub needed : (rot cb q.0 ≡ rot cb i) ⊎ (0 < q.1)

pub block_of_le : (s a w u r : ℕ) → 0 < r → (a + w) * s + r ≤ u * s → a + w < u
block_of_le s a w u r low h = elim (Bool-cases (ltb (a + w) u)) [
  | inl lt ↦ ltb→lt _ _ lt
  | inr ge ↦ absurd (omega (arith, h, low, mul-le-mul_right s (ltb→ge (a + w) u ge)))
]

module _ {cb : CircularBuf} (v : IsValid cb) (i o d : ℕ) where
  beyond :
      i < max 1 cb.buf_used
      → o ≤ cb.buf_size
      → cb.buf_size - o < d
      → lin cb i o + d ≤ cb.buf_used * cb.buf_size
      → Splits cb.buf_size
          (d - (cb.buf_size - o))
          (bsize cb (d - (cb.buf_size - o)))
          (cb_rest_mod (d - (cb.buf_size - o)) cb.buf_size)
      → Advanced cb i (lin cb i o + d) (
        cb_add i (bsize cb (d - (cb.buf_size - o))) cb.buf_used,
        cb_rest_mod (d - (cb.buf_size - o)) cb.buf_size,
      )
  beyond p f more room sp =
      let a : (rot cb i + (sp.whole + 1)) * cb.buf_size
          ≡ rot cb i * cb.buf_size + sp.whole * cb.buf_size + cb.buf_size =
        omega arith in
      let total = sp.total in
      let lt : rot cb i + (sp.whole + 1) < cb.buf_used =
        block_of_le cb.buf_size (rot cb i) (sp.whole + 1) cb.buf_used
          (cb_rest_mod (d - (cb.buf_size - o)) cb.buf_size) sp.low (omega (arith, a, total)) in
      let moved = diff_r-add cb.head_index cb.buf_used v.head_in i (sp.whole + 1) p lt in
      rw sp.count (record {
        place = record { inside = omega (arith, moved.1); fits = sp.high };
        reached = rw moved.0 (omega (arith, a, total));
        forward = omega (arith, moved.0);
        needed = inr sp.low;
      })

  -- In a valid buffer, moving a place of the ring forward by a number of bytes that stays within
  -- the blocks ends at a place of the ring so many bytes further from the head block, in no
  -- earlier block, and in a later block only behind its first byte.
  pub advance_front_lem :
      IsPlace cb (i, o)
      → lin cb i o + d ≤ cb.buf_used * cb.buf_size
      → Advanced cb i (lin cb i o + d) (advance_front cb (i, o) d)
  unfolding advance_front
  advance_front_lem p room = elim (Bool-cases (leb d (cb.buf_size - o))) [
    | inl near ↦ rw near (record {
      place = record { inside = p.inside; fits = omega (arith, leb→le _ _ near, p.fits) };
      reached = omega arith;
      forward = omega arith;
      needed = inl refl;
    })
    | inr far ↦ rw far (
        beyond p.inside p.fits (leb→gt _ _ far) room
          (bsize-Splits cb (d - (cb.buf_size - o)) v.size (omega (arith, leb→gt _ _ far))))
  ]
