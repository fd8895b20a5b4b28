-- ===== src/CircularBuf.antt =====
-- src/base_struct/yf_circular_buf.h and yf_circular_buf.c: a growing ring of equal blocks with the
-- interface of a file. This file has the record and the macros of the header.
pub mod Space
pub mod File
pub mod Index
pub mod Valid
pub mod Advance
pub mod Blocks
pub mod Over
pub mod Enlarge
use yifei.Prelude.{ℕ, ◌+◌, ◌-◌, ◌*◌, ◌/◌, ◌^◌, Bool, List, [], ltb, leb, ◌==◌, if◌then◌else◌}
use yifei.Prelude.Int.{ℤ, pos, ◌+ℤ◌, sub_ℕ, ltb_ℤ, s32, shift_right}
use yifei.BitOp.{yf_mod, align, bit_cnt, align_2pow}
use yifei.Core.{Status, success, failure}

-- A block that `yf_alloc` gave, as the bytes that it holds.
abbrev pub Block : Type 0
Block = List ℕ

abbrev pub max_num : ℕ
max_num = 256

-- `yf_circular_buf_t`. `buf` holds the first `buf_used` entries of the array of block pointers.
-- The pool `mpool` is scratch memory and is left out.
pub record CircularBuf : Type 0 where
  pub buf_size : ℕ
  pub buf_size_pow : ℕ
  pub shrink_cnt : ℕ
  pub buf_used : ℕ
  pub head_index : ℕ
  pub cursor_index : ℕ
  pub tail_index : ℕ
  pub head_offset : ℕ
  pub cursor_offset : ℕ
  pub tail_offset : ℕ
  pub buf : List Block

-- `yf_cb_diff` with `YF_CBR`, which is `>=`, and with `YF_CBW`, which is `>`.
unfoldable pub cb_diff_r : ℕ → ℕ → ℕ → ℕ
cb_diff_r m n capacity = if leb n m then m - n else m + capacity - n

unfoldable pub cb_diff_w : ℕ → ℕ → ℕ → ℕ
cb_diff_w m n capacity = if ltb n m then m - n else m + capacity - n

-- `yf_cb_add`, `yf_cb_sub`, `yf_cb_increase`
unfoldable pub cb_add : ℕ → ℕ → ℕ → ℕ
cb_add i n capacity = if ltb n (capacity - i) then i + n else i + n - capacity

unfoldable pub cb_sub : ℕ → ℕ → ℕ → ℕ
cb_sub i n capacity = if ltb i n then i + capacity - n else i - n

unfoldable pub cb_increase : ℕ → ℕ → ℕ
cb_increase i capacity = if (i + 1) == capacity then 0 else i + 1

-- `yf_cb_rest_mod`: a remainder from 1 to `capacity`.
unfoldable pub cb_rest_mod : ℕ → ℕ → ℕ
cb_rest_mod i capacity = let r = yf_mod i capacity in if r == 0 then capacity else r

-- `yf_circular_buf_bsize`: the blocks that hold so many bytes, which with a block more stay below
-- 2^31.
unfoldable pub bsize : CircularBuf → ℕ → ℕ
bsize cb bytes = align bytes cb.buf_size / 2 ^ cb.buf_size_pow

-- `yf_circular_buf_bsize` at any signed number: the shift drops the bits that the mask clears.
unfoldable pub signed_bsize : CircularBuf → ℤ → ℤ
signed_bsize cb bytes = shift_right (s32 (bytes +ℤ pos (cb.buf_size - 1))) cb.buf_size_pow

-- `__yf_circular_index_offset`, an `yf_s32_t`, with the difference of the indices taken already.
unfoldable pub index_offset : CircularBuf → ℕ → ℕ → ℕ → ℤ
index_offset cb diff ao bo = s32 (sub_ℕ (diff * 2 ^ cb.buf_size_pow + ao) bo)

unfoldable pub rest_rsize : CircularBuf → ℤ
rest_rsize cb =
    index_offset cb (cb_diff_r cb.tail_index cb.cursor_index cb.buf_used) cb.tail_offset
      cb.cursor_offset

unfoldable pub free_wsize : CircularBuf → ℤ
free_wsize cb =
    index_offset cb (cb_diff_w cb.head_index cb.cursor_index cb.buf_used) 0 cb.cursor_offset

unfoldable pub tailed_wsize : CircularBuf → ℤ
tailed_wsize cb =
    index_offset cb (cb_diff_w cb.head_index cb.tail_index cb.buf_used) 0 cb.tail_offset

-- `yf_cb_fsize` and `yf_cb_ftell`
unfoldable pub fsize : CircularBuf → ℤ
fsize cb =
    index_offset cb (cb_diff_r cb.tail_index cb.head_index cb.buf_used) cb.tail_offset
      cb.head_offset

unfoldable pub ftell : CircularBuf → ℤ
ftell cb =
    index_offset cb (cb_diff_r cb.cursor_index cb.head_index cb.buf_used) cb.cursor_offset
      cb.head_offset

-- A place in the buffer: a block index and an offset into the block.
abbrev pub Place : Type 0
Place = ℕ × ℕ

-- `__yf_circular_buf_advance_front`
unfoldable pub advance_front : CircularBuf → Place → ℕ → Place
advance_front cb (i, o) diff =
    let wbytes = cb.buf_size - o in
    if leb diff wbytes
    then (i, o + diff)
    else (cb_add i (bsize cb (diff - wbytes)) cb.buf_used, cb_rest_mod (diff - wbytes) cb.buf_size)

-- `__yf_circular_buf_advance_back`
unfoldable pub advance_back : CircularBuf → Place → ℕ → Place
advance_back cb (i, o) diff = if leb diff o then (i, o - diff) else (
  cb_sub i (bsize cb (diff - o)) cb.buf_used,
  cb.buf_size - cb_rest_mod (diff - o) cb.buf_size,
)

-- `_yf_cb_preprocess_cursor`: the end of a block is the start of the next.
unfoldable pub preprocess_cursor : CircularBuf → Place → Place
preprocess_cursor cb (i, o) = if o == cb.buf_size then (cb_increase i cb.buf_used, 0) else (i, o)

-- `yf_min` on signed numbers
unfoldable pub min_ℤ : ℤ → ℤ → ℤ
min_ℤ a b = if ltb_ℤ a b then a else b

-- `yf_circular_buf_init`: the flag says whether `yf_create_pool` gave a pool.
pub init : ℕ → Bool → Status × CircularBuf
init size pool =
    let aligned = align_2pow size in
    (
      (if pool then success else failure),
      record {
        buf_size = aligned;
        buf_size_pow = bit_cnt aligned - 1;
        shrink_cnt = 0;
        buf_used = 0;
        head_index = 0;
        cursor_index = 0;
        tail_index = 0;
        head_offset = 0;
        cursor_offset = 0;
        tail_offset = 0;
        buf = [];
      },
    )

-- `yf_circular_buf_reset`: the places go back to the start and the blocks stay.
pub reset : CircularBuf → CircularBuf
reset cb = record cb {
  head_index = 0;
  head_offset = 0;
  cursor_index = 0;
  cursor_offset = 0;
  tail_index = 0;
  tail_offset = 0;
}

-- `yf_circular_buf_destory`: the blocks are freed and the record is zeroed.
pub destroy : CircularBuf → CircularBuf
destroy cb = record {
  buf_size = 0;
  buf_size_pow = 0;
  shrink_cnt = 0;
  buf_used = 0;
  head_index = 0;
  cursor_index = 0;
  tail_index = 0;
  head_offset = 0;
  cursor_offset = 0;
  tail_offset = 0;
  buf = [];
}
