-- ===== src/CircularBuf/File/Write.antt =====
-- The copying part of `yf_cb_fwrite`: the bytes go into the ring at the cursor, round its end.
use mathlib.Core.List.{flatten}
use yifei.Prelude.{
  ℕ, zero, suc, ◌+◌, ◌-◌, ◌*◌, ◌≤◌, ◌<◌, ◌≡◌, refl, sym, subst, ap, ◌∙◌, List, [], ◌++◌, inl, inr,
  arith, length, take, drop, get_or, set, Bool-cases, leb, leb→le, leb→gt, length-set, length-take,
  length-drop, length-append,
}
use yifei.CircularBuf.{CircularBuf, Place, Block, cb_increase, preprocess_cursor}
use yifei.CircularBuf.Valid.{IsValid, AllSized, rot, lin, cursor_pos, size_pos}
use yifei.CircularBuf.Blocks.{
  blocks, space, turn-set, AllSized-set, AllSized-turn, length-get_or, length-flatten,
}
use yifei.Bytes.{memcpy, turn, over}
use yifei.Bytes.Over.{over-over, take-split}
use yifei.CircularBuf.Over.{flatten-memcpy}
use yifei.CircularBuf.File.{write_at, write_loop}
use yifei.CircularBuf.File.Places.{
  IsInner, head_used, length-blocks, rot-lt, get_or-blocks, next_block, preprocess_lem,
}
use yifei.CircularBuf.File.Read.{Ends}

abbrev pub with_buf : CircularBuf → List Block → CircularBuf
with_buf cb bs = record cb { buf = bs }

-- Another array of as many blocks of the same size keeps the buffer valid.
pub with_buf-IsValid :
    {cb : CircularBuf}
    → IsValid cb
    → (bs : List Block) → length bs ≡ length cb.buf
    → AllSized cb.buf_size bs
    → IsValid (with_buf cb bs)
with_buf-IsValid v bs l a = record {
  size = v.size;
  stored = l ∙ v.stored;
  few = v.few;
  small = v.small;
  sized = a;
  head_in = v.head_in;
  cursor_in = v.cursor_in;
  tail_in = v.tail_in;
  head_fits = v.head_fits;
  cursor_fits = v.cursor_fits;
  tail_fits = v.tail_fits;
  unused = v.unused;
  head_first = v.head_first;
  in_order = v.in_order;
  same_block = v.same_block;
}

-- A copy of the first `n` bytes of `src` to byte `pos` of the ring: nothing but the bytes and the
-- cursor changes, and the cursor goes behind the last byte.
pub record Copies (cb : CircularBuf) (pos : ℕ) (src : List ℕ) (n : ℕ) (r : CircularBuf)
    : Type 0 where
  pub bytes : List Block
  pub place : Place
  pub changed : r ≡ record cb { buf = bytes; cursor_index = place.0; cursor_offset = place.1 }
  pub as_many : length bytes ≡ length cb.buf
  pub sized : AllSized cb.buf_size bytes
  pub ring : flatten (turn cb.head_index bytes) ≡ over (space cb) pos (take n src)
  pub ends : Ends cb pos n place

length-memcpy :
    (b : Block) (o n : ℕ) (src : List ℕ)
    → o + n ≤ length b
    → n ≤ length src
    → length (memcpy b o src n) ≡ length b
length-memcpy b o n src h l = omega (
  arith,
  length-append (take o b) (take n src ++ drop (o + n) b),
  length-append (take n src) (drop (o + n) b),
  length-take o b,
  length-take n src,
  length-drop (o + n) b,
)

module _ {cb : CircularBuf} (v : IsValid cb) (i o n : ℕ) (src : List ℕ) where
  abbrev copied : List Block
  copied = set cb.buf i (memcpy (get_or cb.buf i []) o src n)

  in_array : i < cb.buf_used → i < length cb.buf
  in_array p = let e = v.stored in omega (arith, e)

  block_size : i < cb.buf_used → length (get_or cb.buf i []) ≡ cb.buf_size
  block_size p = length-get_or cb.buf_size cb.buf i v.sized (in_array p)

  copied-AllSized :
      i < cb.buf_used → o + n ≤ cb.buf_size → n ≤ length src → AllSized cb.buf_size copied
  copied-AllSized p f l =
      let e = block_size p in
      AllSized-set cb.buf_size cb.buf i _
        (length-memcpy (get_or cb.buf i []) o n src (omega (arith, e)) l ∙ e) v.sized

  -- One `memcpy` into a block, seen in the whole ring.
  copied-ring :
      i < cb.buf_used
      → o + n ≤ cb.buf_size
      → n ≤ length src
      → flatten (turn cb.head_index copied) ≡ over (space cb) (lin cb i o) (take n src)
  copied-ring p f l =
      ap flatten turned
      ∙ ap (λ b. flatten (set (blocks cb) (rot cb i) (memcpy b o src n)))
          (sym (get_or-blocks v i p))
      ∙ flatten-memcpy cb.buf_size (blocks cb) (rot cb i) o n src
          (AllSized-turn cb.buf_size cb.head_index cb.buf v.sized)
          (omega (arith, length-blocks v, rot-lt v i p)) f l
    where
      turned :
          turn cb.head_index copied
          ≡ set (blocks cb) (rot cb i) (memcpy (get_or cb.buf i []) o src n)
      turned =
          let e = v.stored in
          let t =
            turn-set cb.buf cb.head_index i (omega (arith, e, head_used v (omega arith)))
              (in_array p) (memcpy (get_or cb.buf i []) o src n) in
          rw e at t

  copied-Copies :
      i < cb.buf_used
      → o + n ≤ cb.buf_size
      → n ≤ length src
      → (0 < n → 0 < o + n)
      → Copies cb
          (lin cb i o)
          src
          n
          (record cb { buf = copied; cursor_index = i; cursor_offset = o + n })
  copied-Copies p f l low = record {
    bytes = copied;
    place = (i, o + n);
    changed = refl;
    as_many = length-set cb.buf i _;
    sized = copied-AllSized p f l;
    ring = copied-ring p f l;
    ends = record {
      place = record { inside = omega arith; fits = f };
      reached = omega arith;
      low = low;
    };
  }

-- A copy that fills a block, and one of the bytes behind it to the next block.
Copies-then :
    {cb : CircularBuf} (v : IsValid cb) (pos a n : ℕ) (src : List ℕ) (bs : List Block)
    (r : CircularBuf)
    → flatten (turn cb.head_index bs) ≡ over (space cb) pos (take a src)
    → length bs ≡ length cb.buf
    → pos ≤ cb.buf_used * cb.buf_size
    → a ≤ length src
    → a < n
    → Copies (with_buf cb bs) (pos + a) (drop a src) (n - a) r
    → Copies cb pos src n r
Copies-then {cb} v pos a n src bs r first len room l more c = record {
  bytes = c.bytes;
  place = c.place;
  changed = c.changed;
  as_many = c.as_many ∙ len;
  sized = c.sized;
  ring = c.ring ∙ ap (λ z. over z (pos + a) (take (n - a) (drop a src))) first ∙ joined;
  ends = record {
    place = record { inside = c.ends.place.inside; fits = c.ends.place.fits };
    reached = omega (arith, c.ends.reached);
    low = λ h. c.ends.low (omega arith);
  };
}
  where
    whole : length (space cb) ≡ cb.buf_used * cb.buf_size
    whole =
        length-flatten cb.buf_size (blocks cb)
          (AllSized-turn cb.buf_size cb.head_index cb.buf v.sized)
        ∙ ap (λ k. k * cb.buf_size) (length-blocks v)

    joined :
        over (over (space cb) pos (take a src)) (pos + a) (take (n - a) (drop a src))
        ≡ over (space cb) pos (take n src)
    joined =
        let q : a ≡ length (take a src) = omega (arith, length-take a src) in
        let m : a + (n - a) ≡ n = omega arith in
        ap (λ k. over (over (space cb) pos (take a src)) (pos + k) (take (n - a) (drop a src))) q
        ∙ over-over (space cb) pos (take a src) (take (n - a) (drop a src)) (omega (arith, whole))
        ∙ ap (over (space cb) pos) (take-split a (n - a) src ∙ ap (λ k. take k src) m)

add_zero : (n : ℕ) → n + 0 ≡ n
add_zero n = omega arith

zero_add : (n : ℕ) → 0 + n ≡ n
zero_add n = omega arith

-- A copy to the start of a block, as the loop writes it.
block_start :
    {cb : CircularBuf} (v : IsValid cb) (i n : ℕ) (src : List ℕ)
    → i < cb.buf_used
    → n ≤ cb.buf_size
    → n ≤ length src
    → Copies cb
        (rot cb i * cb.buf_size)
        src
        n
        (record cb { buf = copied v i 0 n src; cursor_index = i; cursor_offset = n })
block_start {cb} v i n src p f l =
    subst
      (λ k.
        Copies cb k src n
          (record cb { buf = copied v i 0 n src; cursor_index = i; cursor_offset = n }))
      (add_zero (rot cb i * cb.buf_size))
      (subst
        (λ k.
          Copies cb (lin cb i 0) src n
            (record cb { buf = copied v i 0 n src; cursor_index = i; cursor_offset = k }))
        (zero_add n) (copied-Copies v i 0 n src p (omega arith) l (λ h. omega arith)))

write_loop_lem :
    (fuel : ℕ) {cb : CircularBuf} (v : IsValid cb) (i n : ℕ) (src : List ℕ)
    → i < cb.buf_used
    → n ≤ fuel
    → n ≤ length src
    → rot cb i * cb.buf_size + n ≤ cb.buf_used * cb.buf_size
    → Copies cb (rot cb i * cb.buf_size) src n (write_loop fuel cb i src n)
unfolding write_loop
write_loop_lem zero v i n src p f l room = block_start v i n src p (omega arith) l
write_loop_lem (suc fuel) {cb} v i n src p f l room = elim (Bool-cases (leb n cb.buf_size)) [
  | inl last ↦ rw last (block_start v i n src p (leb→le _ _ last) l)
  | inr more ↦
      let gt = leb→gt _ _ more in
      let next = next_block v i n p gt room in
      let m : (rot cb i + 1) * cb.buf_size ≡ rot cb i * cb.buf_size + cb.buf_size = omega arith in
      let start : rot cb (cb_increase i cb.buf_used) * cb.buf_size
          ≡ rot cb i * cb.buf_size + cb.buf_size =
        rw next.0 m in
      let bs = copied v i 0 cb.buf_size src in
      let len = length-set cb.buf i (memcpy (get_or cb.buf i []) 0 src cb.buf_size) in
      let sized = copied-AllSized v i 0 cb.buf_size src p (omega arith) (omega arith) in
      let ih =
        write_loop_lem fuel (with_buf-IsValid v bs len sized) (cb_increase i cb.buf_used)
          (n - cb.buf_size) (drop cb.buf_size src) next.1 (omega (arith, size_pos v))
          (omega (arith, length-drop cb.buf_size src)) (omega (arith, start)) in
      rw more (
        Copies-then v (rot cb i * cb.buf_size) cb.buf_size n src bs _
          (copied-ring v i 0 cb.buf_size src p (omega arith) (omega arith)
            ∙ ap (λ k. over (space cb) k (take cb.buf_size src))
                (add_zero (rot cb i * cb.buf_size)))
          len (omega arith) (omega arith) gt (rw start at ih))
]

-- The copy puts the bytes behind the cursor and takes the cursor behind them.
pub write_at_lem :
    {cb : CircularBuf} (v : IsValid cb) (n : ℕ) (src : List ℕ)
    → 0 < n
    → n ≤ length src
    → cursor_pos cb + n ≤ cb.buf_used * cb.buf_size
    → Copies cb (cursor_pos cb) src n (write_at cb src n)
unfolding write_at
write_at_lem {cb} v n src h l room = elim (Bool-cases (leb n (cb.buf_size - o))) [
  | inl near ↦ rw near (
      subst
        (λ k.
          Copies cb k src n
            (record cb { buf = copied v i o n src; cursor_index = i; cursor_offset = o + n }))
        inner.stands
        (copied-Copies v i o n src inner.used (omega (arith, leb→le _ _ near, before)) l
          (λ p. omega arith)))
  | inr far ↦
      let gt = leb→gt _ _ far in
      let next = next_block v i (o + n) inner.used (omega arith) (omega (arith, inner.stands)) in
      let m : (rot cb i + 1) * cb.buf_size ≡ rot cb i * cb.buf_size + cb.buf_size = omega arith in
      let start : rot cb (cb_increase i cb.buf_used) * cb.buf_size ≡ cursor_pos cb + first =
        rw next.0 (omega (arith, m, inner.stands, before)) in
      let len = length-set cb.buf i (memcpy (get_or cb.buf i []) o src first) in
      let sized =
        copied-AllSized v i o first src inner.used (omega (arith, before)) (omega arith) in
      let loop =
        write_loop_lem n (with_buf-IsValid v (copied v i o first src) len sized)
          (cb_increase i cb.buf_used) (n - first) (drop first src) next.1 (omega arith)
          (omega (arith, length-drop first src)) (omega (arith, start)) in
      rw far (
        Copies-then v (cursor_pos cb) first n src (copied v i o first src) _
          (copied-ring v i o first src inner.used (omega (arith, before)) (omega arith)
            ∙ ap (λ k. over (space cb) k (take first src)) inner.stands)
          len (omega arith) (omega arith) gt (rw start at loop))
]
  where
    i : ℕ
    i = (preprocess_cursor cb (cb.cursor_index, cb.cursor_offset)).0

    o : ℕ
    o = (preprocess_cursor cb (cb.cursor_index, cb.cursor_offset)).1

    inner : IsInner cb (cursor_pos cb) (i, o)
    inner = preprocess_lem v n h room

    before : o < cb.buf_size
    before = inner.before_end

    first : ℕ
    first = cb.buf_size - o
