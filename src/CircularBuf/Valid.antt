-- ===== src/CircularBuf/Valid.antt =====
-- The representation invariant of `yf_circular_buf_t`, and the sizes that the macros compute in a
-- buffer that satisfies it.
use native.Mathlib.Nat.{mul_comm, mul-le-mul_right, mul-sub}
use yifei.Prelude.{
  ℕ, ◌+◌, ◌-◌, ◌*◌, ◌^◌, ◌≤◌, ◌<◌, ◌≡◌, ap, ◌∙◌, max, min, List, [], ◌∷◌, inl, inr, arith, length,
  Bool-cases, ◌==◌, ==→eq, ==→ne,
}
use yifei.Prelude.Int.{ℤ, pos, sub_ℕ, sub_ℕ-of_le, s32, s32-pos}
use yifei.Prelude.Bits.{pow_pos}
use yifei.CircularBuf.{
  CircularBuf, Block, max_num, cb_diff_r, index_offset, rest_rsize, free_wsize, tailed_wsize, fsize,
  ftell, min_ℤ,
}
use yifei.CircularBuf.Index.{diff_r_lt, diff_r_sub, diff_w_head}

-- A block index seen from the head block, and a place as a number of bytes from its start.
abbrev pub rot : CircularBuf → ℕ → ℕ
rot cb i = cb_diff_r i cb.head_index cb.buf_used

abbrev pub lin : CircularBuf → ℕ → ℕ → ℕ
lin cb i o = rot cb i * cb.buf_size + o

abbrev pub cursor_pos : CircularBuf → ℕ
cursor_pos cb = lin cb cb.cursor_index cb.cursor_offset

abbrev pub tail_pos : CircularBuf → ℕ
tail_pos cb = lin cb cb.tail_index cb.tail_offset

abbrev pub AllSized : ℕ → List Block → Type 0
AllSized n [] = Unit {0}
AllSized n (b ∷ bs) = (length b ≡ n) × AllSized n bs

-- Head, cursor and tail stand in this order round the ring, each inside a block or at its end. The
-- greatest ring has less than 2^31 bytes, so that an `yf_s32_t` holds each distance in it.
pub record IsValid (cb : CircularBuf) : Type 0 where
  pub size : cb.buf_size ≡ 2 ^ cb.buf_size_pow
  pub stored : length cb.buf ≡ cb.buf_used
  pub few : cb.buf_used ≤ max_num
  pub small : max_num * cb.buf_size < 2 ^ 31
  pub sized : AllSized cb.buf_size cb.buf
  pub head_in : cb.head_index < max 1 cb.buf_used
  pub cursor_in : cb.cursor_index < max 1 cb.buf_used
  pub tail_in : cb.tail_index < max 1 cb.buf_used
  pub head_fits : cb.head_offset ≤ cb.buf_size
  pub cursor_fits : cb.cursor_offset ≤ cb.buf_size
  pub tail_fits : cb.tail_offset ≤ cb.buf_size
  pub unused : cb.buf_used ≡ 0 → cb.tail_offset ≡ 0
  pub head_first : rot cb cb.cursor_index ≡ 0 → cb.head_offset ≤ cb.cursor_offset
  pub in_order : rot cb cb.cursor_index ≤ rot cb cb.tail_index
  pub same_block : rot cb cb.cursor_index ≡ rot cb cb.tail_index → cb.cursor_offset ≤ cb.tail_offset

-- Places are ordered by their block first.
place_le : (s a b o p : ℕ) → o ≤ s → a ≤ b → (a ≡ b → o ≤ p) → a * s + o ≤ b * s + p
place_le s a b o p fits le same = elim (Bool-cases (a == b)) [
  | inl e ↦ let q = ==→eq a b e in rw q (omega (arith, same q))
  | inr ne ↦ step (b - a - 1) (omega (arith, ==→ne a b ne))
]
  where
    step : (k : ℕ) → b ≡ a + 1 + k → a * s + o ≤ b * s + p
    step k e = rw e (let m : (a + 1 + k) * s ≡ a * s + s + k * s = omega arith in omega (arith, m))

pub sub-mul : (b a s : ℕ) → (b - a) * s ≡ b * s - a * s
sub-mul b a s = rw (mul_comm (b - a) s, mul_comm b s, mul_comm a s) (mul-sub s b a)

distance :
    (s a b o p : ℕ)
    → a ≤ b
    → a * s + o ≤ b * s + p
    → sub_ℕ ((b - a) * s + p) o ≡ pos (b * s + p - (a * s + o))
distance s a b o p le h =
    let e = sub-mul b a s in
    let m = mul-le-mul_right s le in
    sub_ℕ-of_le _ _ (omega (arith, e, m)) ∙ ap pos (omega (arith, e, m))

distance_to_end :
    (s a u o : ℕ)
    → a ≤ u
    → a * s + o ≤ u * s
    → sub_ℕ ((u - a) * s + 0) o ≡ pos (u * s - (a * s + o))
distance_to_end s a u o le h = distance s a u o 0 le (omega arith) ∙ ap pos (omega arith)

pub size_pos : {cb : CircularBuf} → IsValid cb → 0 < cb.buf_size
size_pos {cb} v = rw v.size (pow_pos cb.buf_size_pow)

module _ {cb : CircularBuf} (v : IsValid cb) where
  abbrev h : ℕ
  h = cb.head_index

  abbrev u : ℕ
  u = cb.buf_used

  rot-le-used : (i : ℕ) → i < max 1 cb.buf_used → rot cb i ≤ cb.buf_used
  unfolding cb_diff_r
  rot-le-used i p = ground arith

  pub head-le-cursor : cb.head_offset ≤ cursor_pos cb
  head-le-cursor =
      let h =
        place_le cb.buf_size 0 (rot cb cb.cursor_index) cb.head_offset cb.cursor_offset v.head_fits
          (omega arith) (λ e. v.head_first (omega (arith, e))) in
      omega (arith, h)

  pub cursor-le-tail : cursor_pos cb ≤ tail_pos cb
  cursor-le-tail = place_le cb.buf_size _ _ _ _ v.cursor_fits v.in_order v.same_block

  pub tail-le-room : tail_pos cb ≤ cb.buf_used * cb.buf_size
  tail-le-room = elim (Bool-cases (cb.buf_used == 0)) [
    | inl z ↦
        let u = ==→eq _ _ z in
        let r : rot cb cb.tail_index ≡ 0 =
          omega (arith, diff_r_lt cb.head_index cb.buf_used v.head_in cb.tail_index v.tail_in) in
        rw (r, v.unused u) (omega arith)
    | inr nz ↦
        let r = diff_r_lt cb.head_index cb.buf_used v.head_in cb.tail_index v.tail_in in
        room (rot cb cb.tail_index) cb.buf_used (omega (arith, r, ==→ne _ _ nz))
  ]
    where
      room : (a u : ℕ) → a < u → a * cb.buf_size + cb.tail_offset ≤ u * cb.buf_size
      room a u h =
          let e : a * cb.buf_size + cb.tail_offset ≤ (a + 1) * cb.buf_size =
            omega (arith, v.tail_fits) in
          grind (arith, e, mul_comm)

  -- Places of the ring are numbers that an `yf_s32_t` holds.
  pub room_small : cb.buf_used * cb.buf_size < 2 ^ 31
  room_small = omega (arith, v.small, mul-le-mul_right cb.buf_size v.few)

  distance_fits : (z : ℤ) (n : ℕ) → z ≡ pos n → n ≤ cb.buf_used * cb.buf_size → s32 z ≡ pos n
  distance_fits z n e h = ap s32 e ∙ s32-pos n (omega (arith, room_small))

  -- The sizes of the header's macros are distances between places.
  pub ftell_lem : ftell cb ≡ pos (cursor_pos cb - cb.head_offset)
  unfolding ftell index_offset
  ftell_lem = rw (← v.size) (
      distance_fits _ _ (sub_ℕ-of_le _ _ head-le-cursor)
        (omega (arith, cursor-le-tail, tail-le-room)))

  pub fsize_lem : fsize cb ≡ pos (tail_pos cb - cb.head_offset)
  unfolding fsize index_offset
  fsize_lem = rw (← v.size) (
      distance_fits _ _ (sub_ℕ-of_le _ _ (omega (arith, head-le-cursor, cursor-le-tail)))
        (omega (arith, tail-le-room)))

  pub rest_rsize_lem : rest_rsize cb ≡ pos (tail_pos cb - cursor_pos cb)
  unfolding rest_rsize index_offset
  rest_rsize_lem =
      rw (← v.size, diff_r_sub h u v.head_in _ _ v.cursor_in v.tail_in v.in_order)
        (distance_fits _ _ (distance _ _ _ _ _ v.in_order cursor-le-tail)
          (omega (arith, tail-le-room)))

  pub free_wsize_lem : free_wsize cb ≡ pos (cb.buf_used * cb.buf_size - cursor_pos cb)
  unfolding free_wsize index_offset
  free_wsize_lem =
      rw (← v.size, diff_w_head h u v.head_in _ v.cursor_in)
        (distance_fits _ _
          (distance_to_end _ _ _ _ (rot-le-used _ v.cursor_in)
            (omega (arith, cursor-le-tail, tail-le-room)))
          (omega arith))

  pub tailed_wsize_lem : tailed_wsize cb ≡ pos (cb.buf_used * cb.buf_size - tail_pos cb)
  unfolding tailed_wsize index_offset
  tailed_wsize_lem =
      rw (← v.size, diff_w_head h u v.head_in _ v.tail_in)
        (distance_fits _ _ (distance_to_end _ _ _ _ (rot-le-used _ v.tail_in) tail-le-room)
          (omega arith))

pub min_ℤ-pos : (a b : ℕ) → min_ℤ (pos a) (pos b) ≡ pos (min a b)
unfolding min_ℤ
min_ℤ-pos a b = ground arith
