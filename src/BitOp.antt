-- ===== src/BitOp.antt =====
-- src/base_struct/yf_bit_op.h and yf_bit_op.c: masks, alignment and powers of two.
pub mod Align
pub mod Pow2
pub mod SetBits
use yifei.Prelude.{
  ℕ, zero, suc, ◌+◌, ◌-◌, ◌*◌, ◌/◌, ◌%◌, ◌^◌, List, [], ◌∷◌, ◌++◌, map, bit_and, ltb, ◌==◌,
  if◌then◌else◌,
}

-- `yf_mod(val, mod)`: the bits of `val` below the power of two `mod`.
unfoldable pub yf_mod : ℕ → ℕ → ℕ
yf_mod val m = bit_and val (m - 1)

-- `yf_align(d, a)`. Clearing the bits of a mask, `x & ~mask`, takes `x & mask` away from `x`.
unfoldable pub align : ℕ → ℕ → ℕ
align d a = let x = d + (a - 1) in x - bit_and x (a - 1)

-- `yf_bitcnt2val(cnt)`. The macro shifts by `cnt - 1`, which C leaves undefined at `cnt = 0`.
bitcnt2val : ℕ → ℕ
bitcnt2val cnt = 2 ^ (cnt - 1)

-- The loop of `yf_bit_cnt`, one unit of fuel for each bit of the argument's width.
bit_cnt_loop : ℕ → ℕ → ℕ → ℕ
bit_cnt_loop zero val cnt = cnt
bit_cnt_loop (suc fuel) val cnt =
    let rest = bit_cnt_loop fuel (val / 2) (cnt + 1) in if val == 0 then cnt else rest

-- `yf_bit_cnt`: the argument is a `yf_u64_t`, so 64 rounds are enough.
pub bit_cnt : ℕ → ℕ
unfolding bit_cnt_loop
bit_cnt val = bit_cnt_loop 64 val 0

-- `yf_align_2pow`
pub align_2pow : ℕ → ℕ
align_2pow val =
    let bits = bit_cnt val in
    if ltb (bitcnt2val bits) val then bitcnt2val (bits + 1) else bitcnt2val bits

-- The inner loop of `yf_init_bit_indexs`, for the row of `bit_val`. The end of the list is
-- `YF_END_INDEX`, and a row has 16 bits as fuel.
unfoldable pub row_indexs : (fuel bit_val index : ℕ) → List ℕ
row_indexs zero bit_val index = []
row_indexs (suc fuel) bit_val index =
    let rest = row_indexs fuel (bit_val / 2) (index + 1) in
    if bit_val == 0 then [] else if bit_val % 2 == 0 then rest else index ∷ rest

-- `_YF_TEST_BIT16`, where a part is 0 for the low and 1 for the high half.
unfoldable pub test_bit16 : (first_part next_part bit_64 : ℕ) → List ℕ
unfolding row_indexs
test_bit16 first_part next_part bit_64 =
    let begin_index = 32 * first_part + 16 * next_part in
    let test_val = bit_64 / 2 ^ begin_index % 2 ^ 16 in
    if test_val == 0 then [] else map (λ i. begin_index + i) (row_indexs 16 test_val 0)

-- `_YF_TEST_BIT32`
unfoldable pub test_bit32 : (first_part bit_64 : ℕ) → List ℕ
unfolding test_bit16
test_bit32 first_part bit_64 =
    if bit_64 / 2 ^ (32 * first_part) % 2 ^ 32 == 0
    then []
    else test_bit16 first_part 0 bit_64 ++ test_bit16 first_part 1 bit_64

-- `yf_get_set_bits`: the indexes before `YF_END_INDEX`, which the code stores behind the array of 64
-- elements when all bits are set.
unfoldable pub get_set_bits : ℕ → List ℕ
unfolding test_bit32
get_set_bits bit_64 = if bit_64 == 0 then [] else test_bit32 0 bit_64 ++ test_bit32 1 bit_64
