-- ===== src/CircularBuf/File.antt =====
-- yf_circular_buf.c: the interface of a file: seek, read, write, truncate and cut the head.
pub mod Seek
pub mod Places
pub mod Read
pub mod Write
pub mod Tail
pub mod Fwrite
pub mod RoundTrip
use yifei.Prelude.{
  ℕ, zero, suc, ◌+◌, ◌-◌, Bool, true, false, List, [], ◌++◌, ◌||◌, leb, if◌then◌else◌, take, drop,
  get_or, set,
}
use yifei.Prelude.Int.{ℤ, pos, negsuc, pos_part, ◌+ℤ◌, ◌-ℤ◌, ltb_ℤ, s32}
use yifei.Bytes.{memcpy}
use yifei.Core.{Status, success, failure}
use yifei.CircularBuf.{
  CircularBuf, Block, Place, cb_increase, rest_rsize, free_wsize, fsize, ftell, advance_front,
  advance_back, preprocess_cursor, min_ℤ,
}
use yifei.CircularBuf.Space.{enlarge, write_tail}

pub data Whence : Type 0 where
  seek_set seek_cur seek_end other : Whence

abbrev pub at_head : CircularBuf → CircularBuf
at_head cb = record cb { cursor_index = cb.head_index; cursor_offset = cb.head_offset }

abbrev pub at_tail : CircularBuf → CircularBuf
at_tail cb = record cb { cursor_index = cb.tail_index; cursor_offset = cb.tail_offset }

-- The two `switch` statements of `yf_cb_fseek`; `none` is its `default`.
seek_zero : CircularBuf → Whence → Status × CircularBuf
seek_zero cb seek_set = (success, at_head cb)
seek_zero cb seek_cur = (success, cb)
seek_zero cb seek_end = (success, at_tail cb)
seek_zero cb other = (failure, cb)

-- `__yf_circular_buf_advance_front` from the head, for a target inside the file.
seek_to : CircularBuf → ℤ → Status × CircularBuf
seek_to cb target =
    let (i, o) = advance_front cb (cb.head_index, cb.head_offset) (pos_part target) in
    if ltb_ℤ target (pos 0) || ltb_ℤ (fsize cb) target
    then (failure, cb)
    else (success, record cb { cursor_index = i; cursor_offset = o })

seek_by : CircularBuf → ℤ → Whence → Status × CircularBuf
seek_by cb offset seek_set = seek_to cb offset
seek_by cb offset seek_cur = seek_to cb (s32 (offset +ℤ ftell cb))
seek_by cb offset seek_end = seek_to cb (s32 (offset +ℤ fsize cb))
seek_by cb offset other = (failure, cb)

is_zero : ℤ → Bool
is_zero (pos zero) = true
is_zero (pos (suc n)) = false
is_zero (negsuc n) = false

-- `yf_cb_fseek`
unfoldable pub fseek : CircularBuf → ℤ → Whence → Status × CircularBuf
unfolding seek_zero seek_by seek_to is_zero
fseek cb offset whence = if is_zero offset then seek_zero cb whence else seek_by cb offset whence

-- `yf_cb_space_write_bytes`
unfoldable pub space_write_bytes : CircularBuf → ℤ → Status × CircularBuf
space_write_bytes cb wreal_len = fseek (write_tail cb (free_wsize cb) wreal_len) wreal_len seek_cur

-- The `while (1)` of `yf_cb_fread`. Its fuel is the number of bytes, and each round but the last
-- takes a whole block of them, so it ends by the first test. The result is the bytes copied, and
-- the place of the cursor.
read_loop : ℕ → CircularBuf → ℕ → ℕ → List ℕ × Place
read_loop zero cb rindex rbytes = (take rbytes (get_or cb.buf rindex []), (rindex, rbytes))
read_loop (suc fuel) cb rindex rbytes =
    let (more, place) = read_loop fuel cb (cb_increase rindex cb.buf_used) (rbytes - cb.buf_size) in
    if leb rbytes cb.buf_size
    then (take rbytes (get_or cb.buf rindex []), (rindex, rbytes))
    else (take cb.buf_size (get_or cb.buf rindex []) ++ more, place)

-- The part of `yf_cb_fread` that copies `n` bytes: the bytes, and the place behind them.
read_at : CircularBuf → ℕ → List ℕ × Place
unfolding read_loop
read_at cb n =
    let (rindex, roffset) = preprocess_cursor cb (cb.cursor_index, cb.cursor_offset) in
    let first = cb.buf_size - roffset in
    let block = get_or cb.buf rindex [] in
    let (more, place) = read_loop n cb (cb_increase rindex cb.buf_used) (n - first) in
    if leb n first
    then (take n (drop roffset block), (rindex, roffset + n))
    else (take first (drop roffset block) ++ more, place)

-- `yf_cb_fread` returns the number of bytes and the bytes. A peek leaves the cursor.
unfoldable pub fread : CircularBuf → ℤ → Bool → ℤ × List ℕ × CircularBuf
unfolding read_at
fread cb asked peek =
    let bytes = min_ℤ (rest_rsize cb) asked in
    let (copied, (i, o)) = read_at cb (pos_part bytes) in
    if ltb_ℤ (pos 0) bytes
    then (bytes, copied, if peek then cb else record cb { cursor_index = i; cursor_offset = o })
    else (bytes, [], cb)

-- The `while (1)` of `yf_cb_fwrite`, on fuel as `read_loop`.
write_loop : ℕ → CircularBuf → ℕ → List ℕ → ℕ → CircularBuf
write_loop zero cb windex src wbytes = record cb {
  buf = set cb.buf windex (memcpy (get_or cb.buf windex []) 0 src wbytes);
  cursor_index = windex;
  cursor_offset = wbytes;
}
write_loop (suc fuel) cb windex src wbytes =
    let whole = set cb.buf windex (memcpy (get_or cb.buf windex []) 0 src cb.buf_size) in
    let rest =
      write_loop fuel (record cb { buf = whole }) (cb_increase windex cb.buf_used)
        (drop cb.buf_size src) (wbytes - cb.buf_size) in
    if leb wbytes cb.buf_size
    then record cb {
      buf = set cb.buf windex (memcpy (get_or cb.buf windex []) 0 src wbytes);
      cursor_index = windex;
      cursor_offset = wbytes;
    }
    else rest

-- The part of `yf_cb_fwrite` that copies `n` bytes to the cursor.
pub write_at : CircularBuf → List ℕ → ℕ → CircularBuf
unfolding write_loop
write_at cb src n =
    let (windex, woffset) = preprocess_cursor cb (cb.cursor_index, cb.cursor_offset) in
    let first = cb.buf_size - woffset in
    let block = get_or cb.buf windex [] in
    let split = record cb { buf = set cb.buf windex (memcpy block woffset src first) } in
    let rest = write_loop n split (cb_increase windex cb.buf_used) (drop first src) (n - first) in
    if leb n first
    then record cb {
      buf = set cb.buf windex (memcpy block woffset src n);
      cursor_index = windex;
      cursor_offset = woffset + n;
    }
    else rest

-- The rest of `yf_cb_fwrite`, given the free size and the buffer that has it.
write_granted : ℤ × CircularBuf → List ℕ → ℤ → ℤ × CircularBuf
unfolding write_at
write_granted (free, cb) src asked =
    let bytes = min_ℤ asked free in
    (bytes, write_at (write_tail cb free bytes) src (pos_part bytes))

-- `yf_cb_fwrite`. `answers` are the blocks that the allocator has for `yf_cb_space_enlarge`.
unfoldable pub fwrite : CircularBuf → List ℕ → ℤ → List Block → ℤ × CircularBuf
unfolding write_granted
fwrite cb src asked answers =
    let granted =
      if ltb_ℤ (free_wsize cb) asked then enlarge cb asked answers else (free_wsize cb, cb) in
    if ltb_ℤ (pos 0) asked then write_granted granted src asked else (asked, cb)

-- The cursor goes to that of `moved` where its place lies outside the file.
recheck_cursor : CircularBuf → ℤ → CircularBuf → CircularBuf
recheck_cursor cb size moved =
    if ltb_ℤ (ftell cb) (pos 0) || ltb_ℤ size (ftell cb) then moved else cb

-- `yf_cb_fhead_set`
unfoldable pub fhead_set : CircularBuf → ℤ → Status × CircularBuf
unfolding recheck_cursor is_zero
fhead_set cb offset =
    let (i, o) = advance_front cb (cb.head_index, cb.head_offset) (pos_part offset) in
    let cut = record cb { head_index = i; head_offset = o } in
    if ltb_ℤ offset (pos 0)
    then (failure, cb)
    else if is_zero offset
    then (success, record cb { head_index = cb.cursor_index; head_offset = cb.cursor_offset })
    else if ltb_ℤ (fsize cb) offset
    then (failure, cb)
    else (success, recheck_cursor cut (fsize cut) (at_head cut))

-- `yf_cb_ftruncate`
unfoldable pub ftruncate : CircularBuf → ℤ → List Block → Status × CircularBuf
unfolding recheck_cursor is_zero
ftruncate cb size answers =
    let dsize = s32 (size -ℤ fsize cb) in
    let more = s32 (size -ℤ ftell cb) in
    let (free, grown) = enlarge cb more answers in
    let (i, o) =
      advance_back cb (cb.tail_index, cb.tail_offset) (pos_part (s32 (fsize cb -ℤ size))) in
    let cut = record cb { tail_index = i; tail_offset = o } in
    if ltb_ℤ size (pos 0)
    then (failure, cb)
    else if is_zero dsize
    then (success, cb)
    else if ltb_ℤ (pos 0) dsize
    then if ltb_ℤ free more then (failure, grown) else (success, write_tail grown free more)
    else (success, recheck_cursor cut size (at_tail cut))
