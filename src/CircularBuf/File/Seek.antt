-- ===== src/CircularBuf/File/Seek.antt =====
-- `yf_cb_fseek`: where the cursor goes, and when the call fails.
use yifei.Prelude.{
  ℕ, ◌+◌, ◌-◌, ◌*◌, ◌≤◌, ◌<◌, ◌≡◌, ◌≢◌, ◌⊎◌, refl, sym, subst, zero, suc, ap, ap₂, ◌^◌, ◌∙◌, ◌||◌,
  inl, inr, arith, true, false, Bool-cases, ltb, ltb→lt, ltb→ge,
}
use native.Mathlib.Nat.{mul-le-mul_right}
use yifei.Prelude.Int.{ℤ, pos, negsuc, pos_part, ◌+ℤ◌, ltb_ℤ, s32, s32_of, word32, IsS32, s32-IsS32}
use yifei.Core.{Status, success, failure}
use yifei.CircularBuf.{CircularBuf, Place, fsize, ftell, advance_front}
use yifei.CircularBuf.File.{
  Whence, seek_set, seek_cur, seek_end, other, fseek, seek_zero, seek_by, seek_to, at_head, at_tail,
}
use yifei.CircularBuf.Index.{diff_r_self}
use yifei.CircularBuf.Valid.{
  IsValid, rot, lin, cursor_pos, tail_pos, head-le-cursor, cursor-le-tail, tail-le-room, fsize_lem,
  ftell_lem, room_small,
}
use yifei.CircularBuf.Advance.{IsPlace, Advanced, advance_front_lem}

-- Two buffers that differ in the cursor alone.
pub record SameFile (cb cb' : CircularBuf) : Type 0 where
  pub same_size : cb'.buf_size ≡ cb.buf_size
  pub same_pow : cb'.buf_size_pow ≡ cb.buf_size_pow
  pub same_used : cb'.buf_used ≡ cb.buf_used
  pub same_head : (cb'.head_index ≡ cb.head_index) × (cb'.head_offset ≡ cb.head_offset)
  pub same_tail : (cb'.tail_index ≡ cb.tail_index) × (cb'.tail_offset ≡ cb.tail_offset)
  pub same_buf : cb'.buf ≡ cb.buf

abbrev pub with_cursor : CircularBuf → ℕ → ℕ → CircularBuf
with_cursor cb i o = record cb { cursor_index = i; cursor_offset = o }

pub with_cursor-SameFile : (cb : CircularBuf) (i o : ℕ) → SameFile cb (with_cursor cb i o)
with_cursor-SameFile cb i o = record {
  same_size = refl;
  same_pow = refl;
  same_used = refl;
  same_head = (refl, refl);
  same_tail = (refl, refl);
  same_buf = refl;
}

-- A place that is reached from the head is not behind the tail's block if it is not beyond the tail.
pub not_beyond :
    (s c t o p : ℕ) → (c ≡ 0) ⊎ (0 < o) → p ≤ s → c * s + o ≤ t * s + p → (c ≤ t) × (c ≡ t → o ≤ p)
not_beyond s c t o p needed fits h = (le, same)
  where
    same : c ≡ t → o ≤ p
    same e = let m : c * s ≡ t * s = rw e in omega (arith, m)

    beyond : (c ≡ 0) ⊎ (0 < o) → ¬ (t < c)
    beyond (inl z) lt = omega (arith, z, lt)
    beyond (inr low) lt = omega (arith, low, mul-le-mul_right s lt)

    le : c ≤ t
    le = elim (Bool-cases (ltb t c)) [
      | inl lt ↦ absurd (beyond needed (ltb→lt _ _ lt))
      | inr ge ↦ ltb→ge _ _ ge
    ]

-- Moving the cursor to a place of the file keeps the invariant.
pub with_cursor-IsValid :
    {cb : CircularBuf}
    → IsValid cb
    → (i o : ℕ) → IsPlace cb (i, o)
    → (rot cb i ≡ 0 → cb.head_offset ≤ o)
    → (rot cb i ≤ rot cb cb.tail_index) × (rot cb i ≡ rot cb cb.tail_index → o ≤ cb.tail_offset)
    → IsValid (with_cursor cb i o)
with_cursor-IsValid v i o p first order = record {
  size = v.size;
  stored = v.stored;
  few = v.few;
  small = v.small;
  sized = v.sized;
  head_in = v.head_in;
  cursor_in = p.inside;
  tail_in = v.tail_in;
  head_fits = v.head_fits;
  cursor_fits = p.fits;
  tail_fits = v.tail_fits;
  unused = v.unused;
  head_first = first;
  in_order = order.0;
  same_block = order.1;
}

abbrev pub file_size : CircularBuf → ℕ
file_size cb = tail_pos cb - cb.head_offset

-- What a seek to byte `t` of the file does.
pub record SoughtTo (cb : CircularBuf) (t : ℕ) (r : Status × CircularBuf) : Type 0 where
  pub succeeded : r.0 ≡ success
  pub valid : IsValid r.1
  pub same : SameFile cb r.1
  pub told : ftell r.1 ≡ pos t

-- The byte of the file that a call of `yf_cb_fseek` asks for.
abbrev pub target : CircularBuf → ℤ → Whence → ℤ
target cb offset seek_set = offset
target cb offset seek_cur = offset +ℤ ftell cb
target cb offset seek_end = offset +ℤ fsize cb
target cb offset other = offset

module _ {cb : CircularBuf} (v : IsValid cb) where
  head-IsPlace : IsPlace cb (cb.head_index, cb.head_offset)
  head-IsPlace = record { inside = v.head_in; fits = v.head_fits }

  head_lin : lin cb cb.head_index cb.head_offset ≡ cb.head_offset
  head_lin = let e = diff_r_self cb.head_index cb.buf_used v.head_in in rw e (omega arith)

  file_in_room : cb.head_offset + file_size cb ≡ tail_pos cb
  file_in_room = omega (arith, head-le-cursor v, cursor-le-tail v)

  -- Every byte position of the file is reached from the head.
  from_head :
      (t : ℕ)
      → t ≤ file_size cb
      → Advanced cb cb.head_index
          (cb.head_offset + t)
          (advance_front cb (cb.head_index, cb.head_offset) t)
  from_head t h =
      let a =
        advance_front_lem v cb.head_index cb.head_offset t head-IsPlace
          (omega (arith, head_lin, file_in_room, tail-le-room v)) in
      rw head_lin at a

  placed :
      (t : ℕ) (q : Place)
      → t ≤ file_size cb
      → Advanced cb cb.head_index (cb.head_offset + t) q
      → SoughtTo cb t (success, with_cursor cb q.0 q.1)
  placed t q h a = record {
    succeeded = refl;
    valid = valid;
    same = with_cursor-SameFile cb q.0 q.1;
    told = ftell_lem valid ∙ ap pos (omega (arith, a.reached));
  }
    where
      needed : (rot cb q.0 ≡ rot cb cb.head_index) ⊎ (0 < q.1) → (rot cb q.0 ≡ 0) ⊎ (0 < q.1)
      needed (inl e) = inl (e ∙ diff_r_self cb.head_index cb.buf_used v.head_in)
      needed (inr low) = inr low

      first : rot cb q.0 ≡ 0 → cb.head_offset ≤ q.1
      first z =
          let m : rot cb q.0 * cb.buf_size ≡ 0 * cb.buf_size = rw z in omega (arith, m, a.reached)

      valid : IsValid (with_cursor cb q.0 q.1)
      valid = with_cursor-IsValid v q.0 q.1 a.place first (
          not_beyond cb.buf_size _ _ _ _ (needed a.needed) v.tail_fits
            (omega (arith, a.reached, file_in_room)))

  seek_to_inside : (t : ℕ) → t ≤ file_size cb → SoughtTo cb t (seek_to cb (pos t))
  unfolding seek_to
  seek_to_inside t h =
      let ok : (ltb_ℤ (pos t) (pos 0) || ltb_ℤ (fsize cb) (pos t)) ≡ false =
        rw (fsize_lem v) (ground arith) in
      rw ok (placed t _ h (from_head t h))

  seek_to_outside :
      (z : ℤ) → (ltb_ℤ z (pos 0) || ltb_ℤ (fsize cb) z) ≡ true → seek_to cb z ≡ (failure, cb)
  unfolding seek_to
  seek_to_outside z h = rw h refl

  at_head_lem : SoughtTo cb 0 (success, at_head cb)
  at_head_lem =
      placed 0 (cb.head_index, cb.head_offset) (omega arith)
        (record {
          place = head-IsPlace;
          reached = omega (arith, head_lin);
          forward = omega arith;
          needed = inl refl;
        })

  at_tail_lem : SoughtTo cb (file_size cb) (success, at_tail cb)
  at_tail_lem = record {
    succeeded = refl;
    valid = valid;
    same = with_cursor-SameFile cb cb.tail_index cb.tail_offset;
    told = ftell_lem valid;
  }
    where
      valid : IsValid (at_tail cb)
      valid =
          with_cursor-IsValid v cb.tail_index cb.tail_offset
            (record { inside = v.tail_in; fits = v.tail_fits })
            (λ e.
              let m : rot cb cb.tail_index * cb.buf_size ≡ 0 * cb.buf_size = rw e in
              omega (arith, m, file_in_room))
            (omega arith, λ e. omega arith)

  stay_lem : SoughtTo cb (cursor_pos cb - cb.head_offset) (success, cb)
  stay_lem = record {
    succeeded = refl;
    valid = v;
    same = with_cursor-SameFile cb cb.cursor_index cb.cursor_offset;
    told = ftell_lem v;
  }

  zero_add : (z : ℤ) → pos 0 +ℤ z ≡ z
  zero_add z = ground arith

  -- A move by nothing, in the first `switch`.
  seek_zero_lem :
      (whence : Whence) (t : ℕ)
      → whence ≢ other
      → target cb (pos 0) whence ≡ pos t
      → SoughtTo cb t (seek_zero cb whence)
  unfolding seek_zero
  seek_zero_lem seek_set t w e = let q : 0 ≡ t = ground arith in rw (← q) at_head_lem
  seek_zero_lem seek_cur t w e =
      let q : cursor_pos cb - cb.head_offset ≡ t =
        ap pos_part (sym (ftell_lem v) ∙ sym (zero_add (ftell cb)) ∙ e) in
      subst (λ n. SoughtTo cb n (success, cb)) q stay_lem
  seek_zero_lem seek_end t w e =
      let q : file_size cb ≡ t = ap pos_part (sym (fsize_lem v) ∙ sym (zero_add (fsize cb)) ∙ e) in
      subst (λ n. SoughtTo cb n (success, at_tail cb)) q at_tail_lem
  seek_zero_lem other t w e = absurd (w refl)

  seek_by_lem :
      (offset : ℤ) (whence : Whence)
      → whence ≢ other
      → IsS32 (target cb offset whence)
      → seek_by cb offset whence ≡ seek_to cb (target cb offset whence)
  unfolding seek_by
  seek_by_lem offset seek_set w h = refl
  seek_by_lem offset seek_cur w h = ap (seek_to cb) (s32-IsS32 (offset +ℤ ftell cb) h)
  seek_by_lem offset seek_end w h = ap (seek_to cb) (s32-IsS32 (offset +ℤ fsize cb) h)
  seek_by_lem offset other w h = absurd (w refl)

  -- A number of bytes of the file is one that an `yf_s32_t` holds.
  inside-IsS32 : (z : ℤ) (t : ℕ) → z ≡ pos t → t ≤ file_size cb → IsS32 z
  inside-IsS32 z t e h =
      subst IsS32 (sym e) (omega (arith, file_in_room, tail-le-room v, room_small v))

  -- In a valid buffer, a `yf_cb_fseek` with one of the three origins whose target is a byte of
  -- the file or its end succeeds, puts the cursor there, changes nothing else and keeps the
  -- buffer valid.
  pub fseek_inside :
      (offset : ℤ) (whence : Whence) (t : ℕ)
      → whence ≢ other
      → target cb offset whence ≡ pos t
      → t ≤ file_size cb
      → SoughtTo cb t (fseek cb offset whence)
  unfolding fseek
  fseek_inside (pos zero) whence t w e h = seek_zero_lem whence t w e
  fseek_inside (pos (suc n)) whence t w e h =
      rw (seek_by_lem (pos (suc n)) whence w (inside-IsS32 _ t e h), e) (seek_to_inside t h)
  fseek_inside (negsuc n) whence t w e h =
      rw (seek_by_lem (negsuc n) whence w (inside-IsS32 _ t e h), e) (seek_to_inside t h)

  inside_at_zero :
      (whence : Whence)
      → whence ≢ other
      → (ltb_ℤ (target cb (pos 0) whence) (pos 0) || ltb_ℤ (fsize cb) (target cb (pos 0) whence))
        ≡ false
  inside_at_zero seek_set w = rw (fsize_lem v) (ground arith)
  inside_at_zero seek_cur w =
      rw (zero_add (ftell cb), ftell_lem v, fsize_lem v) (ground (arith, cursor-le-tail v))
  inside_at_zero seek_end w = rw (zero_add (fsize cb), fsize_lem v) (ground arith)
  inside_at_zero other w = absurd (w refl)

  -- A sum that an `yf_s32_t` does not hold comes out outside the file too.
  wrapped_outside :
      (offset : ℤ) (k f : ℕ)
      → IsS32 offset
      → k < 2 ^ 31
      → (ltb_ℤ (offset +ℤ pos k) (pos 0) || ltb_ℤ (pos f) (offset +ℤ pos k)) ≡ true
      → (ltb_ℤ (s32 (offset +ℤ pos k)) (pos 0) || ltb_ℤ (pos f) (s32 (offset +ℤ pos k))) ≡ true
  unfolding s32 word32 s32_of
  wrapped_outside (pos n) k f h l e = ground arith
  wrapped_outside (negsuc n) k f h l e = ground arith

  wrapped_sum :
      (offset z : ℤ) (k : ℕ)
      → z ≡ pos k
      → k ≤ tail_pos cb
      → IsS32 offset
      → (ltb_ℤ (offset +ℤ z) (pos 0) || ltb_ℤ (fsize cb) (offset +ℤ z)) ≡ true
      → seek_to cb (s32 (offset +ℤ z)) ≡ (failure, cb)
  wrapped_sum offset z k e l h bad =
      let bad' : (ltb_ℤ (offset +ℤ pos k) (pos 0) || ltb_ℤ (pos (file_size cb)) (offset +ℤ pos k))
          ≡ true =
        ap₂ (λ s x. ltb_ℤ (offset +ℤ x) (pos 0) || ltb_ℤ s (offset +ℤ x)) (sym (fsize_lem v))
          (sym e)
        ∙ bad in
      rw e (
        seek_to_outside (s32 (offset +ℤ pos k)) (
          ap (λ s. ltb_ℤ (s32 (offset +ℤ pos k)) (pos 0) || ltb_ℤ s (s32 (offset +ℤ pos k)))
            (fsize_lem v)
          ∙ wrapped_outside offset k (file_size cb) h (omega (arith, tail-le-room v, room_small v))
              bad'))

  seek_by_outside :
      (offset : ℤ) (whence : Whence)
      → whence ≢ other
      → IsS32 offset
      → (ltb_ℤ (target cb offset whence) (pos 0) || ltb_ℤ (fsize cb) (target cb offset whence))
        ≡ true
      → seek_by cb offset whence ≡ (failure, cb)
  unfolding seek_by
  seek_by_outside offset seek_set w h bad = seek_to_outside offset bad
  seek_by_outside offset seek_cur w h bad =
      wrapped_sum offset (ftell cb) (cursor_pos cb - cb.head_offset) (ftell_lem v)
        (omega (arith, cursor-le-tail v)) h bad
  seek_by_outside offset seek_end w h bad =
      wrapped_sum offset (fsize cb) (file_size cb) (fsize_lem v) (omega arith) h bad
  seek_by_outside offset other w h bad = absurd (w refl)

  -- In a valid buffer, a `yf_cb_fseek` by a signed 32-bit offset with one of the three origins
  -- whose target lies before the file's start or behind its end fails and leaves the buffer as it
  -- was, also where the sum for the target overflows.
  pub fseek_outside :
      (offset : ℤ) (whence : Whence)
      → whence ≢ other
      → IsS32 offset
      → (ltb_ℤ (target cb offset whence) (pos 0) || ltb_ℤ (fsize cb) (target cb offset whence))
        ≡ true
      → fseek cb offset whence ≡ (failure, cb)
  unfolding fseek
  fseek_outside (pos zero) whence w h bad =
      let no : true ≡ false = sym bad ∙ inside_at_zero whence w in absurd (cc no)
  fseek_outside (pos (suc n)) whence w h bad = seek_by_outside (pos (suc n)) whence w h bad
  fseek_outside (negsuc n) whence w h bad = seek_by_outside (negsuc n) whence w h bad
