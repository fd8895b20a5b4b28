-- ===== src/CircularBuf/Space.antt =====
-- yf_circular_buf.c: the operations on blocks, which the file interface is built on.
use yifei.Prelude.{
  ℕ, zero, suc, ◌+◌, ◌-◌, ◌*◌, ◌/◌, ◌^◌, min, max, Bool, List, [], ◌∷◌, ◌++◌, ◌&&◌, ◌||◌, ◌%◌, ltb,
  leb, ◌==◌, if◌then◌else◌, take, drop, get_or,
}
use yifei.Prelude.Int.{ℤ, pos, pos_part, ◌+ℤ◌, ◌-ℤ◌, ltb_ℤ, s32, word32}
use yifei.CircularBuf.{
  CircularBuf, Block, max_num, cb_diff_r, cb_add, cb_sub, cb_increase, cb_rest_mod, bsize,
  signed_bsize, rest_rsize, free_wsize, tailed_wsize, advance_front, preprocess_cursor, min_ℤ,
}

-- `_yf_cb_space_reoder`: turns the ring so that the head block comes first.
unfoldable pub reorder : CircularBuf → CircularBuf
reorder cb = if cb.head_index == 0 then cb else record cb {
  buf = drop cb.head_index cb.buf ++ take cb.head_index cb.buf;
  cursor_index = cb_sub cb.cursor_index cb.head_index cb.buf_used;
  tail_index = cb_sub cb.tail_index cb.head_index cb.buf_used;
  head_index = 0;
}

-- The loop of `yf_cb_space_enlarge`. The list holds the blocks that `yf_alloc` returns until it
-- fails. The result is the number of blocks still wanted, with the new buffer.
unfoldable pub alloc_loop : ℕ → List Block → CircularBuf → ℕ × CircularBuf
alloc_loop zero answers cb = (0, cb)
alloc_loop (suc wbsize) [] cb = (suc wbsize, cb)
alloc_loop (suc wbsize) (b ∷ answers) cb =
    alloc_loop wbsize answers (record cb { buf = cb.buf ++ b ∷ []; buf_used = cb.buf_used + 1 })

-- `yf_cb_space_enlarge` returns the new free size. The loop runs until `wbsize`, an `yf_s32_t`, is
-- 0: for a negative one as often as its 32 bits say, which is beyond the array of block pointers.
unfoldable pub enlarge : CircularBuf → ℤ → List Block → ℤ × CircularBuf
enlarge cb bytes answers =
    let free = free_wsize cb in
    if ltb_ℤ free bytes && ltb cb.buf_used max_num
    then (let cb' = reorder cb in
        let wbsize =
          min_ℤ (signed_bsize cb' (s32 (bytes -ℤ free))) (pos (max_num - cb'.buf_used)) in
        let wanted = word32 wbsize in
        let (left, grown) = alloc_loop wanted answers cb' in
        (s32 (free +ℤ pos ((wanted - left) * 2 ^ cb.buf_size_pow)), grown))
    else (free, cb)

-- `_yf_cb_space_write_tail`: the tail moves where the write goes beyond it.
unfoldable pub write_tail : CircularBuf → ℤ → ℤ → CircularBuf
write_tail cb free bytes =
    let new_wsize = s32 (bytes -ℤ s32 (free -ℤ tailed_wsize cb)) in
    if ltb_ℤ (pos 0) new_wsize
    then (let (i, o) = advance_front cb (cb.tail_index, cb.tail_offset) (pos_part new_wsize) in
        record cb { tail_index = i; tail_offset = o })
    else cb

-- `_yf_cb_space_get_impl`: the block pointers of `count` blocks from an index, going round.
unfoldable pub get_blocks : CircularBuf → ℕ → ℕ → List Block
get_blocks cb ifrom count =
    let first = min count (cb.buf_used - ifrom) in
    take first (drop ifrom cb.buf) ++ take (count - first) cb.buf

-- What `yf_cb_space_read` and `yf_cb_space_write_alloc` hand out: the number of bytes, the
-- blocks that they stand in and the offset in the first of these.
pub record Span : Type 0 where
  pub bytes : ℤ
  pub blocks : List Block
  pub offset : ℕ

-- `yf_cb_space_read`. A peek leaves the cursor where it was.
unfoldable pub space_read : CircularBuf → ℤ → Bool → Span × CircularBuf
space_read cb bytes peek =
    let rest = rest_rsize cb in
    let (rindex, roffset) = preprocess_cursor cb (cb.cursor_index, cb.cursor_offset) in
    let advanced =
      λ (i o : ℕ). if peek then cb else record cb { cursor_index = i; cursor_offset = o } in
    let n = pos_part bytes in
    let first = cb.buf_size - roffset in
    let count = bsize cb (n - first) in
    if ltb_ℤ (pos 0) bytes
    then if ltb_ℤ bytes rest
      then if leb n first
        then (
          record { bytes = bytes; blocks = get_or cb.buf rindex [] ∷ []; offset = roffset },
          advanced rindex (roffset + n),
        )
        else (
          record {
            bytes = bytes;
            blocks = get_or cb.buf rindex [] ∷ get_blocks cb (cb_increase rindex cb.buf_used) count;
            offset = roffset;
          },
          advanced (cb_add rindex count cb.buf_used) (cb_rest_mod (n - first) cb.buf_size),
        )
      else (
        record {
          bytes = rest;
          blocks = get_blocks cb rindex (cb_diff_r cb.tail_index rindex cb.buf_used + 1);
          offset = roffset;
        },
        advanced cb.tail_index cb.tail_offset,
      )
    else (record { bytes = bytes; blocks = []; offset = 0 }, cb)

-- `yf_cb_space_write_alloc`: room for a write at the cursor, which stays where it is.
unfoldable pub space_write_alloc : CircularBuf → ℤ → List Block → Span × CircularBuf
space_write_alloc cb bytes answers =
    let (free, cb') =
      if ltb_ℤ (free_wsize cb) bytes then enlarge cb bytes answers else (free_wsize cb, cb) in
    let granted = min_ℤ bytes free in
    let (windex, woffset) = preprocess_cursor cb' (cb'.cursor_index, cb'.cursor_offset) in
    let n = pos_part granted in
    let first = cb'.buf_size - woffset in
    let next = cb_increase windex cb'.buf_used in
    if ltb_ℤ (pos 0) bytes
    then (
      record {
        bytes = granted;
        blocks =
            get_or cb'.buf windex []
            ∷ (if leb n first then [] else get_blocks cb' next (bsize cb' (n - first)));
        offset = woffset;
      },
      cb',
    )
    else (record { bytes = bytes; blocks = []; offset = 0 }, cb)

-- `yf_circular_buf_shrink`, without the pool: every 32nd call frees unused blocks.
unfoldable pub shrink : CircularBuf → CircularBuf
shrink cb =
    let cnt = (cb.shrink_cnt + 1) % 256 in
    let unused =
      (pos_part (tailed_wsize cb) - (cb.buf_size - cb.tail_offset)) / 2 ^ cb.buf_size_pow in
    let num = min (max 1 (cb.buf_used / 8)) unused in
    let turned = reorder (record cb { shrink_cnt = 0 }) in
    if ltb cnt 32
    then record cb { shrink_cnt = cnt }
    else if leb cb.buf_used 2 || (num == 0)
    then record cb { shrink_cnt = 0 }
    else record turned {
      buf = take (turned.buf_used - num) turned.buf;
      buf_used = turned.buf_used - num;
    }
