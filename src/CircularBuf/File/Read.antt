-- ===== src/CircularBuf/File/Read.antt =====
-- `yf_cb_fread`: which bytes it returns and where it leaves the cursor.
use mathlib.Core.List.{flatten}
use yifei.Prelude.{
  ℕ, zero, suc, ◌+◌, ◌-◌, ◌*◌, ◌≤◌, ◌<◌, ◌≡◌, refl, sym, ap, ap₂, ◌∙◌, List, [], ◌++◌, inl, inr,
  arith, length, take, drop, get_or, min, Bool, true, false, Bool-cases, leb, leb→le, leb→gt,
  if◌then◌else◌, take-append_left, take-append_right, drop-append_left, take-of_length_le,
  length-drop, take-drop-take, ltb, ltb→lt, ltb→ge, drop-drop,
}
use yifei.Prelude.Int.{ℤ, pos, ltb_ℤ}
use yifei.CircularBuf.{CircularBuf, Place, Block, cb_increase, preprocess_cursor, ftell}
use yifei.CircularBuf.Valid.{
  IsValid, rot, lin, cursor_pos, tail_pos, cursor-le-tail, tail-le-room, head-le-cursor, size_pos,
  rest_rsize_lem, ftell_lem, min_ℤ-pos,
}
use yifei.CircularBuf.Blocks.{blocks, space, length-get_or}
use yifei.CircularBuf.Advance.{IsPlace}
use yifei.CircularBuf.File.{fread, read_at, read_loop}
use yifei.CircularBuf.File.Seek.{
  SameFile, with_cursor, with_cursor-SameFile, with_cursor-IsValid, not_beyond, file_size,
}
use yifei.CircularBuf.File.Places.{
  IsInner, stream, stream-cons, next_block, preprocess_lem, drop-space,
}

-- The bytes of the file, from the head to the tail.
abbrev pub contents : CircularBuf → List ℕ
contents cb = take (file_size cb) (drop cb.head_offset (space cb))

-- A transfer of `n` bytes that started at `pos` ends behind its last byte.
pub record Ends (cb : CircularBuf) (pos n : ℕ) (q : Place) : Type 0 where
  pub place : IsPlace cb q
  pub reached : lin cb q.0 q.1 ≡ pos + n
  pub low : 0 < n → 0 < q.1

-- The cursor may go to the end of any transfer inside the file.
pub Ends-IsValid :
    {cb : CircularBuf}
    → IsValid cb
    → (n : ℕ) (q : Place) → 0 < n
    → cursor_pos cb + n ≤ tail_pos cb
    → Ends cb (cursor_pos cb) n q
    → IsValid (with_cursor cb q.0 q.1)
Ends-IsValid {cb} v n q p room e =
    with_cursor-IsValid v q.0 q.1 e.place
      (λ z.
        let m : rot cb q.0 * cb.buf_size ≡ 0 * cb.buf_size = rw z in
        omega (arith, m, e.reached, head-le-cursor v))
      (not_beyond cb.buf_size _ _ _ _ (inr (e.low p)) v.tail_fits (omega (arith, e.reached)))

module _ {cb : CircularBuf} (v : IsValid cb) where
  block_length : (i : ℕ) → i < cb.buf_used → length (get_or cb.buf i []) ≡ cb.buf_size
  block_length i p =
      let e = v.stored in length-get_or cb.buf_size cb.buf i v.sized (omega (arith, e))

  -- The stream from block `i`, block by block.
  stream_split :
      (i : ℕ)
      → i < cb.buf_used
      → stream cb i ≡ get_or cb.buf i [] ++ flatten (drop (suc (rot cb i)) (blocks cb))
  unfolding flatten
  stream_split i p = rw (stream-cons v i p)

  take-stream :
      (i n : ℕ)
      → i < cb.buf_used
      → n ≤ cb.buf_size
      → take n (stream cb i) ≡ take n (get_or cb.buf i [])
  take-stream i n p h =
      rw (stream_split i p) (take-append_left n _ _ (omega (arith, block_length i p)))

  -- Whole block `i` and then bytes of the next.
  stream_next :
      (i n : ℕ)
      → i < cb.buf_used
      → cb.buf_size < n
      → rot cb (cb_increase i cb.buf_used) ≡ rot cb i + 1
      → take n (stream cb i)
        ≡ get_or cb.buf i [] ++ take (n - cb.buf_size) (stream cb (cb_increase i cb.buf_used))
  stream_next i n p h e =
      let s : rot cb i + 1 ≡ suc (rot cb i) = omega arith in
      rw (stream_split i p, e, s)
        (take-append_right n (get_or cb.buf i []) (flatten (drop (suc (rot cb i)) (blocks cb)))
            (omega (arith, block_length i p))
          ∙ ap
              (λ k.
                get_or cb.buf i [] ++ take (n - k) (flatten (drop (suc (rot cb i)) (blocks cb))))
              (block_length i p))

  -- The loop copies the next `n` bytes of the ring.
  read_loop_lem :
      (fuel i n : ℕ)
      → i < cb.buf_used
      → n ≤ fuel
      → rot cb i * cb.buf_size + n ≤ cb.buf_used * cb.buf_size
      → ((read_loop fuel cb i n).0 ≡ take n (stream cb i))
        × Ends cb (rot cb i * cb.buf_size) n (read_loop fuel cb i n).1
  unfolding read_loop
  read_loop_lem zero i n p f room = (
    sym (take-stream i n p (omega arith)),
    record {
      place = record { inside = omega arith; fits = omega arith };
      reached = refl;
      low = λ h. h;
    },
  )
  read_loop_lem (suc fuel) i n p f room = elim (Bool-cases (leb n cb.buf_size)) [
    | inl last ↦ rw last (
      sym (take-stream i n p (leb→le _ _ last)),
      record {
        place = record { inside = omega arith; fits = leb→le _ _ last };
        reached = refl;
        low = λ h. h;
      },
    )
    | inr more ↦
        let gt = leb→gt _ _ more in
        let next = next_block v i n p gt room in
        let m : (rot cb i + 1) * cb.buf_size ≡ rot cb i * cb.buf_size + cb.buf_size = omega arith in
        let ih =
          read_loop_lem fuel (cb_increase i cb.buf_used) (n - cb.buf_size) next.1
            (omega (arith, size_pos v)) (rw next.0 (omega (arith, m))) in
        let start : rot cb (cb_increase i cb.buf_used) * cb.buf_size
            ≡ rot cb i * cb.buf_size + cb.buf_size =
          rw next.0 m in
        rw more (
          ap₂ ◌++◌ (take-of_length_le cb.buf_size _ (omega (arith, block_length i p))) ih.0
              ∙ sym (stream_next i n p gt next.0),
          record {
            place = ih.1.place;
            reached = omega (arith, ih.1.reached, start);
            low = λ h. ih.1.low (omega arith);
          },
        )
  ]

  read_at_lem :
      (n : ℕ)
      → 0 < n
      → cursor_pos cb + n ≤ tail_pos cb
      → ((read_at cb n).0 ≡ take n (drop (cursor_pos cb) (space cb)))
        × Ends cb (cursor_pos cb) n (read_at cb n).1
  unfolding read_at
  read_at_lem n p room = elim (Bool-cases (leb n (cb.buf_size - o))) [
    | inl near ↦
        let le = leb→le _ _ near in
        rw near (
          sym (source ∙ take-append_left n (drop o block) rest (omega (arith, left))),
          record {
            place = record { inside = omega (arith, inner.used); fits = omega (arith, before) };
            reached = omega (arith, inner.stands);
            low = λ h. omega arith;
          },
        )
    | inr far ↦
        let gt = leb→gt _ _ far in
        let next =
          next_block v i (o + n) inner.used (omega arith) (omega (arith, inner.stands, fits)) in
        let m : (rot cb i + 1) * cb.buf_size ≡ rot cb i * cb.buf_size + cb.buf_size = omega arith in
        let start : rot cb (cb_increase i cb.buf_used) * cb.buf_size
            ≡ rot cb i * cb.buf_size + cb.buf_size =
          rw next.0 m in
        let loop =
          read_loop_lem n (cb_increase i cb.buf_used) (n - (cb.buf_size - o)) next.1 (omega arith)
            (omega (arith, start, inner.stands, fits, before)) in
        let s : rot cb i + 1 ≡ suc (rot cb i) = omega arith in
        let rest_is : stream cb (cb_increase i cb.buf_used) ≡ rest = rw (next.0, s) in
        rw far (
          ap₂ ◌++◌ (take-of_length_le (cb.buf_size - o) (drop o block) (omega (arith, left)))
                (loop.0 ∙ ap (take (n - (cb.buf_size - o))) rest_is)
              ∙ sym (
                  source
                  ∙ take-append_right n (drop o block) rest (omega (arith, left))
                  ∙ ap (λ k. drop o block ++ take (n - k) rest) left),
          record {
            place = loop.1.place;
            reached = omega (arith, loop.1.reached, start, inner.stands, before);
            low = λ h. loop.1.low (omega arith);
          },
        )
  ]
    where
      fits : cursor_pos cb + n ≤ cb.buf_used * cb.buf_size
      fits = omega (arith, room, tail-le-room v)

      i : ℕ
      i = (preprocess_cursor cb (cb.cursor_index, cb.cursor_offset)).0

      o : ℕ
      o = (preprocess_cursor cb (cb.cursor_index, cb.cursor_offset)).1

      inner : IsInner cb (cursor_pos cb) (i, o)
      inner = preprocess_lem v n p fits

      before : o < cb.buf_size
      before = inner.before_end

      block : Block
      block = get_or cb.buf i []

      rest : List ℕ
      rest = flatten (drop (suc (rot cb i)) (blocks cb))

      left : length (drop o block) ≡ cb.buf_size - o
      left = omega (arith, length-drop o block, block_length i inner.used)

      source : take n (drop (cursor_pos cb) (space cb)) ≡ take n (drop o block ++ rest)
      source = ap (take n) (
          drop-space v (cursor_pos cb) (i, o) inner
          ∙ ap (drop o) (stream_split i inner.used)
          ∙ drop-append_left o block rest (omega (arith, block_length i inner.used, before)))

-- How many of the bytes asked for stand between the cursor and the tail.
abbrev pub readable : CircularBuf → ℕ → ℕ
readable cb asked = min (tail_pos cb - cursor_pos cb) asked

-- What a read of at most `asked` bytes does: it returns the bytes of the file behind the cursor,
-- as many as there are, moves the cursor behind them unless it peeks, and changes nothing else.
pub record Reads (cb : CircularBuf) (asked : ℕ) (peek : Bool) (r : ℤ × List ℕ × CircularBuf)
    : Type 0 where
  pub count : r.0 ≡ pos (readable cb asked)
  pub bytes : r.1 ≡ take (readable cb asked) (drop (cursor_pos cb - cb.head_offset) (contents cb))
  pub valid : IsValid r.2
  pub same : SameFile cb r.2
  pub told :
      ftell r.2 ≡ pos (cursor_pos cb - cb.head_offset + (if peek then 0 else readable cb asked))

module _ {cb : CircularBuf} (v : IsValid cb) where
  -- Bytes behind the cursor are bytes of the file.
  behind_cursor :
      (n : ℕ)
      → cursor_pos cb + n ≤ tail_pos cb
      → take n (drop (cursor_pos cb - cb.head_offset) (contents cb))
        ≡ take n (drop (cursor_pos cb) (space cb))
  behind_cursor n room =
      let h = head-le-cursor v in
      let e : cb.head_offset + (cursor_pos cb - cb.head_offset) ≡ cursor_pos cb = omega arith in
      take-drop-take n (cursor_pos cb - cb.head_offset) (file_size cb)
        (drop cb.head_offset (space cb)) (omega arith)
      ∙ ap (take n) (
          drop-drop (cursor_pos cb - cb.head_offset) cb.head_offset (space cb)
          ∙ ap (λ k. drop k (space cb)) e)

  -- In a valid buffer, `yf_cb_fread` of a non-negative number of bytes returns the bytes of the
  -- file from the cursor on, as many as were asked for or are left, and their number, leaves the
  -- file as it was and valid, and moves the cursor behind them unless it peeks.
  pub fread_lem : (asked : ℕ) (peek : Bool) → Reads cb asked peek (fread cb (pos asked) peek)
  unfolding fread
  fread_lem asked peek =
      rw (rest_rsize_lem v, min_ℤ-pos)
        (elim (Bool-cases (ltb 0 n)) [
          | inl some_bytes ↦ rw (positive some_bytes) (transfer peek (ltb→lt _ _ some_bytes))
          | inr no_bytes ↦ rw (none_left no_bytes) (nothing (ltb→ge _ _ no_bytes))
        ])
    where
      n : ℕ
      n = readable cb asked

      room : cursor_pos cb + readable cb asked ≤ tail_pos cb
      room = omega (arith, cursor-le-tail v)

      positive : ltb 0 n ≡ true → ltb_ℤ (pos 0) (pos n) ≡ true
      positive h = ground arith

      none_left : ltb 0 n ≡ false → ltb_ℤ (pos 0) (pos n) ≡ false
      none_left h = ground arith

      unmoved :
          (peeks : Bool)
          → readable cb asked ≡ 0
          → cursor_pos cb - cb.head_offset
            ≡ cursor_pos cb - cb.head_offset + (if peeks then 0 else readable cb asked)
      unmoved true e = omega arith
      unmoved false e = omega arith

      nothing : n ≤ 0 → Reads cb asked peek (pos n, [], cb)
      nothing h =
          let e : readable cb asked ≡ 0 = omega arith in
          record {
            count = refl;
            bytes = rw e refl;
            valid = v;
            same = with_cursor-SameFile cb cb.cursor_index cb.cursor_offset;
            told = ftell_lem v ∙ ap pos (unmoved peek e);
          }

      transfer :
          (peeks : Bool)
          → 0 < n
          → Reads cb asked peeks (
            pos n,
            (read_at cb n).0,
            (if peeks then cb else with_cursor cb (read_at cb n).1.0 (read_at cb n).1.1),
          )
      transfer true h = record {
        count = refl;
        bytes = (read_at_lem v n h room).0 ∙ sym (behind_cursor n room);
        valid = v;
        same = with_cursor-SameFile cb cb.cursor_index cb.cursor_offset;
        told = ftell_lem v ∙ ap pos (omega arith);
      }
      transfer false h =
          let ends = (read_at_lem v n h room).1 in
          let valid = Ends-IsValid v n (read_at cb n).1 h room ends in
          record {
            count = refl;
            bytes = (read_at_lem v n h room).0 ∙ sym (behind_cursor n room);
            valid = valid;
            same = with_cursor-SameFile cb (read_at cb n).1.0 (read_at cb n).1.1;
            told = ftell_lem valid ∙ ap pos (omega (arith, ends.reached, head-le-cursor v));
          }
