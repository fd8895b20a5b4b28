-- ===== src/CircularBuf/File/Tail.antt =====
-- `_yf_cb_space_write_tail`: the tail moves to where a write will end.
use yifei.Prelude.{
  ℕ, ◌+◌, ◌-◌, ◌*◌, ◌≤◌, ◌<◌, ◌≡◌, refl, sym, ap, ◌∙◌, max, true, false, inl, inr, arith,
  Bool-cases, ltb, ltb→lt, ltb→ge,
}
use yifei.Prelude.Int.{pos, ◌-ℤ◌, ltb_ℤ, s32, s32-pos, s32-difference}
use yifei.CircularBuf.{CircularBuf, Place, tailed_wsize, advance_front}
use yifei.CircularBuf.Space.{write_tail}
use yifei.CircularBuf.Valid.{
  IsValid, rot, lin, cursor_pos, tail_pos, cursor-le-tail, tail-le-room, tailed_wsize_lem,
  room_small,
}
use yifei.CircularBuf.Advance.{Advanced, advance_front_lem}

abbrev pub with_tail : CircularBuf → Place → CircularBuf
with_tail cb q = record cb { tail_index = q.0; tail_offset = q.1 }

-- The tail after the room for `n` bytes behind the cursor is taken.
pub record Extends (cb : CircularBuf) (n : ℕ) (r : CircularBuf) : Type 0 where
  pub end : Place
  pub changed : r ≡ with_tail cb end
  pub valid : IsValid (with_tail cb end)
  pub reached : lin cb end.0 end.1 ≡ max (tail_pos cb) (cursor_pos cb + n)

module _ {cb : CircularBuf} (v : IsValid cb) where
  -- A tail that moves forward keeps the invariant.
  pub with_tail-IsValid :
      (d : ℕ) (q : Place)
      → 0 < d
      → Advanced cb cb.tail_index (tail_pos cb + d) q
      → tail_pos cb + d ≤ cb.buf_used * cb.buf_size
      → IsValid (with_tail cb q)
  with_tail-IsValid d q p a room = record {
    size = v.size;
    stored = v.stored;
    few = v.few;
    small = v.small;
    sized = v.sized;
    head_in = v.head_in;
    cursor_in = v.cursor_in;
    tail_in = a.place.inside;
    head_fits = v.head_fits;
    cursor_fits = v.cursor_fits;
    tail_fits = a.place.fits;
    unused = λ e.
        let m : cb.buf_used * cb.buf_size ≡ 0 * cb.buf_size = ap (λ k. k * cb.buf_size) e in
        absurd (omega (arith, m));
    head_first = v.head_first;
    in_order = omega (arith, v.in_order, a.forward);
    same_block = λ e.
        let t : rot cb cb.cursor_index ≡ rot cb cb.tail_index =
          omega (arith, e, v.in_order, a.forward) in
        let m : rot cb q.0 * cb.buf_size ≡ rot cb cb.tail_index * cb.buf_size =
          ap (λ k. k * cb.buf_size) (sym e ∙ t) in
        omega (arith, v.same_block t, a.reached, m);
  }

  pub write_tail_lem :
      (n : ℕ)
      → cursor_pos cb + n ≤ cb.buf_used * cb.buf_size
      → Extends cb n (write_tail cb (pos (cb.buf_used * cb.buf_size - cursor_pos cb)) (pos n))
  unfolding write_tail
  write_tail_lem n room =
      let r = tailed_wsize_lem v in
      let small = cursor-le-tail v in
      let whole = tail-le-room v in
      let known : s32
            (pos n -ℤ s32 (pos (cb.buf_used * cb.buf_size - cursor_pos cb) -ℤ tailed_wsize cb))
          ≡ pos n -ℤ pos (tail_pos cb - cursor_pos cb) =
        ap (λ z. s32 (pos n -ℤ s32 (pos (cb.buf_used * cb.buf_size - cursor_pos cb) -ℤ z))) r
        ∙ ap (λ z. s32 (pos n -ℤ s32 z)) (difference _ _ _ small whole)
        ∙ ap (λ z. s32 (pos n -ℤ z))
            (s32-pos (tail_pos cb - cursor_pos cb) (omega (arith, room_small v)))
        ∙ s32-difference n (tail_pos cb - cursor_pos cb) (omega (arith, room_small v))
            (omega (arith, room_small v)) in
      rw known (elim (Bool-cases (ltb (tail_pos cb - cursor_pos cb) n)) [
        | inl more ↦
            let lt = ltb→lt _ _ more in
            let a =
              advance_front_lem v cb.tail_index cb.tail_offset (n - (tail_pos cb - cursor_pos cb))
                (record { inside = v.tail_in; fits = v.tail_fits }) (omega arith) in
            rw (later (tail_pos cb - cursor_pos cb) lt, positive (tail_pos cb - cursor_pos cb) lt)
              (record {
                end = moved_to;
                changed = refl;
                valid = with_tail-IsValid _ moved_to (omega arith) a (omega arith);
                reached = omega (arith, a.reached);
              })
        | inr enough ↦
            let ge = ltb→ge _ _ enough in
            rw (negative (tail_pos cb - cursor_pos cb) ge) (record {
              end = (cb.tail_index, cb.tail_offset);
              changed = refl;
              valid = v;
              reached = omega arith;
            })
      ])
    where
      moved_to : Place
      moved_to =
          advance_front cb (cb.tail_index, cb.tail_offset) (n - (tail_pos cb - cursor_pos cb))

      later : (d : ℕ) → d < n → pos n -ℤ pos d ≡ pos (n - d)
      later d h = ground arith

      positive : (d : ℕ) → d < n → ltb_ℤ (pos 0) (pos (n - d)) ≡ true
      positive d h = ground arith

      negative : (d : ℕ) → n ≤ d → ltb_ℤ (pos 0) (pos n -ℤ pos d) ≡ false
      negative d h = ground arith

      difference : (u c t : ℕ) → c ≤ t → t ≤ u → pos (u - c) -ℤ pos (u - t) ≡ pos (t - c)
      difference u c t p q = ground arith
