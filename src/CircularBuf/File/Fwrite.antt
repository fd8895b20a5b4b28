-- ===== src/CircularBuf/File/Fwrite.antt =====
-- `yf_cb_fwrite` as an operation on the file: it writes over the bytes behind the cursor and
-- extends the file where it goes beyond the tail.
use mathlib.Core.List.{flatten}
use yifei.Prelude.{
  ℕ, ◌+◌, ◌-◌, ◌*◌, ◌^◌, ◌≤◌, ◌<◌, ◌≡◌, refl, sym, ap, ap₂, ◌∙◌, subst, max, min, List, ◌++◌, true,
  inl, inr, arith, Bool-cases, length, take, drop, length-take, if◌then◌else◌,
}
use yifei.Prelude.Int.{ℤ, pos, ltb_ℤ}
use yifei.CircularBuf.{CircularBuf, Block, free_wsize, ftell}
use yifei.CircularBuf.Space.{enlarge, write_tail}
use yifei.CircularBuf.Valid.{
  IsValid, AllSized, lin, cursor_pos, tail_pos, cursor-le-tail, tail-le-room, head-le-cursor,
  ftell_lem, min_ℤ-pos,
}
use yifei.CircularBuf.Blocks.{blocks, space, length-flatten, AllSized-turn}
use yifei.Bytes.{over}
use yifei.Bytes.Over.{file-over}
use yifei.CircularBuf.Over.{flatten-append}
use yifei.CircularBuf.Enlarge.{Grows, enlarge_lem}
use yifei.CircularBuf.File.{fwrite, write_granted, write_at}
use yifei.CircularBuf.File.Seek.{with_cursor}
use yifei.CircularBuf.File.Places.{length-blocks}
use yifei.CircularBuf.File.Read.{contents, Ends-IsValid}
use yifei.CircularBuf.File.Write.{Copies, write_at_lem, with_buf, with_buf-IsValid}
use yifei.CircularBuf.File.Tail.{Extends, write_tail_lem, with_tail}

abbrev pub tell : CircularBuf → ℕ
tell cb = cursor_pos cb - cb.head_offset

-- The bytes behind the cursor in the ring after the growth that a write of `asked` bytes brings.
abbrev pub room : CircularBuf → ℕ → List Block → ℕ
room cb asked answers = (enlarge cb (pos asked) answers).1.buf_used * cb.buf_size - cursor_pos cb

-- What a write of `n` bytes leaves.
pub record Written (cb : CircularBuf) (src : List ℕ) (n : ℕ) (r : CircularBuf) : Type 0 where
  pub valid : IsValid r
  pub holds : contents r ≡ over (contents cb) (tell cb) (take n src)
  pub told : ftell r ≡ pos (tell cb + n)

-- The ring after the growth, with the tail moved, holds the same bytes.
module _ {cb g : CircularBuf} (v : IsValid cb) (gr : Grows cb g) (n : ℕ) (src : List ℕ) where
  space_grown : space g ≡ space cb ++ flatten gr.added
  space_grown = ap flatten gr.same_bytes ∙ flatten-append (blocks cb) gr.added

  length-space : length (space cb) ≡ cb.buf_used * cb.buf_size
  length-space =
      length-flatten cb.buf_size (blocks cb)
        (AllSized-turn cb.buf_size cb.head_index cb.buf v.sized)
      ∙ ap (λ k. k * cb.buf_size) (length-blocks v)

  copied-Written :
      (e : Extends g n (write_tail g (pos (g.buf_used * g.buf_size - cursor_pos g)) (pos n)))
      → (r : CircularBuf) → 0 < n
      → n ≤ length src
      → Copies (with_tail g e.end) (cursor_pos g) src n r
      → Written cb src n r
  copied-Written e r p l c = record { valid = valid; holds = holds; told = told }
    where
      placed : IsValid (with_cursor (with_buf (with_tail g e.end) c.bytes) c.place.0 c.place.1)
      placed =
          Ends-IsValid (with_buf-IsValid e.valid c.bytes c.as_many c.sized) n c.place p
            (omega (arith, e.reached))
            (record {
              place = record { inside = c.ends.place.inside; fits = c.ends.place.fits };
              reached = c.ends.reached;
              low = c.ends.low;
            })

      valid : IsValid r
      valid = subst IsValid (sym c.changed) placed

      told : ftell r ≡ pos (tell cb + n)
      told =
          ap ftell c.changed
          ∙ ftell_lem placed
          ∙ ap pos (omega (arith, c.ends.reached, gr.same_cursor, gr.same_offset, head-le-cursor v))

      size_is :
          lin g e.end.0 e.end.1 - g.head_offset
          ≡ max (tail_pos cb) (cursor_pos cb + length (take n src)) - cb.head_offset
      size_is =
          omega (arith, e.reached, gr.same_tail, gr.same_cursor, gr.same_offset, length-take n src)

      holds : contents r ≡ over (contents cb) (tell cb) (take n src)
      holds =
          ap contents c.changed
          ∙ ap₂ (λ k s. take k (drop g.head_offset s)) size_is
              (c.ring ∙ ap₂ (λ s k. over s k (take n src)) space_grown gr.same_cursor)
          ∙ ap
              (λ h.
                take (max (tail_pos cb) (cursor_pos cb + length (take n src)) - cb.head_offset)
                  (drop h (over (space cb ++ flatten gr.added) (cursor_pos cb) (take n src))))
              gr.same_offset
          ∙ file-over (space cb) (flatten gr.added) cb.head_offset (tail_pos cb) (cursor_pos cb)
              (take n src) (head-le-cursor v) (cursor-le-tail v)
              (omega (arith, length-space, tail-le-room v))

enlarge_if_short :
    (cb : CircularBuf) (asked : ℤ) (answers : List Block)
    → (if ltb_ℤ (free_wsize cb) asked then enlarge cb asked answers else (free_wsize cb, cb))
      ≡ enlarge cb asked answers
unfolding enlarge
enlarge_if_short cb asked answers = elim (Bool-cases (ltb_ℤ (free_wsize cb) asked)) [
  | inl short ↦ rw short
  | inr enough ↦ rw enough
]

module _ {cb : CircularBuf} (v : IsValid cb) (src : List ℕ) (asked : ℕ) (answers : List Block) where
  abbrev grown : CircularBuf
  grown = (enlarge cb (pos asked) answers).1

  abbrev granted : ℕ
  granted = min asked (room cb asked answers)

  positive : 0 < asked → ltb_ℤ (pos 0) (pos asked) ≡ true
  positive p = ground arith

  granted_step : write_granted (pos (room cb asked answers), grown) src (pos asked) ≡ (
    pos granted,
    write_at (write_tail grown (pos (room cb asked answers)) (pos granted)) src granted,
  )
  unfolding write_granted
  granted_step = rw min_ℤ-pos refl

  -- The call, with its tests decided.
  fwrite_step :
      0 < asked
      → AllSized cb.buf_size answers
      → asked + cb.buf_size ≤ 2 ^ 31
      → fwrite cb src (pos asked) answers ≡ (
        pos granted,
        write_at (write_tail grown (pos (room cb asked answers)) (pos granted)) src granted,
      )
  unfolding fwrite
  fwrite_step p sized fits = rw (positive p) (
      ap (λ g. write_granted g src (pos asked))
        (enlarge_if_short cb (pos asked) answers ∙ λ i.
          ((enlarge_lem v (pos asked) answers sized fits).1 i, grown))
      ∙ granted_step)

  -- In a valid buffer, when every block of the allocator has the buffer's block size, and the bytes
  -- asked for and a block are at most 2^31 bytes, `yf_cb_fwrite` of a positive number of bytes
  -- returns that number, or the room behind the cursor in the grown ring if that is less.
  fwrite_count :
      0 < asked
      → AllSized cb.buf_size answers
      → asked + cb.buf_size ≤ 2 ^ 31
      → (fwrite cb src (pos asked) answers).0 ≡ pos (min asked (room cb asked answers))
  fwrite_count p sized within = ap (λ r. r.0) (fwrite_step p sized within)

  -- In a valid buffer, when the source has the bytes asked for, these and a block are at most 2^31
  -- bytes, and every block of the allocator has the buffer's block size, a `yf_cb_fwrite` that is
  -- granted at least one byte leaves a valid buffer whose file is the old one with the granted bytes written over it at the cursor,
  -- extended where they go beyond its end, and the cursor behind them.
  pub fwrite_lem :
      asked ≤ length src
      → AllSized cb.buf_size answers
      → asked + cb.buf_size ≤ 2 ^ 31
      → 0 < min asked (room cb asked answers)
      → Written cb src (min asked (room cb asked answers)) (fwrite cb src (pos asked) answers).1
  fwrite_lem l sized within p =
      subst (Written cb src granted) (sym (ap (λ r. r.1) (fwrite_step (omega arith) sized within)))
        (subst
          (λ k.
            Written cb src granted (write_at (write_tail grown (pos k) (pos granted)) src granted))
          room_is
          (copied-Written v g granted src e _ p (omega arith) (
            subst
              (λ b.
                Copies (with_tail grown e.end) (cursor_pos grown) src granted
                  (write_at b src granted))
              (sym e.changed) (write_at_lem e.valid granted src p (omega arith) fits))))
    where
      g : Grows cb grown
      g = (enlarge_lem v (pos asked) answers sized within).0

      room_is : grown.buf_used * grown.buf_size - cursor_pos grown ≡ room cb asked answers
      room_is = ap₂ (λ s c. grown.buf_used * s - c) g.same_size g.same_cursor

      fits : cursor_pos grown + granted ≤ grown.buf_used * grown.buf_size
      fits = omega (arith, room_is, cursor-le-tail g.valid, tail-le-room g.valid)

      e : Extends grown granted (
          write_tail grown (pos (grown.buf_used * grown.buf_size - cursor_pos grown)) (pos granted))
      e = write_tail_lem g.valid granted fits
