-- ===== src/CircularBuf/Enlarge.antt =====
-- `_yf_cb_space_reoder` and `yf_cb_space_enlarge`: the ring grows and the file stays as it was.
use native.Mathlib.Nat.{mul-le-mul_right}
use yifei.Prelude.{
  subst, ℕ, zero, suc, ◌+◌, ◌-◌, ◌*◌, ◌^◌, ◌≤◌, ◌<◌, ◌≡◌, refl, sym, ap, ap₂, ◌∙◌, List, [], ◌∷◌,
  ◌++◌, ◌&&◌, ◌==◌, inl, inr, arith, length, Bool-cases, ==→eq, append_assoc, append-nil,
  length-append, ltb, ltb→lt, Bool, true, false,
}
use yifei.Prelude.Int.{
  ℤ, pos, negsuc, pos_part, ◌+ℤ◌, ◌-ℤ◌, ltb_ℤ, s32, word32, shift_right, s32-pos, s32-difference,
}
use yifei.CircularBuf.{
  CircularBuf, Block, max_num, cb_diff_r, cb_sub, free_wsize, min_ℤ, signed_bsize,
}
use yifei.CircularBuf.Space.{reorder, alloc_loop, enlarge}
use yifei.CircularBuf.Index.{diff_r_lt, sub_head}
use yifei.CircularBuf.Valid.{
  IsValid, AllSized, rot, cursor_pos, tail_pos, cursor-le-tail, tail-le-room, free_wsize_lem,
  sub-mul, size_pos, min_ℤ-pos,
}
use yifei.Bytes.{turn}
use yifei.CircularBuf.Blocks.{blocks, length-turn, AllSized-turn, AllSized-append}

-- A buffer with the same bytes at the same places, and room added behind them.
pub record Grows (cb cb' : CircularBuf) : Type 0 where
  pub valid : IsValid cb'
  pub same_size : cb'.buf_size ≡ cb.buf_size
  pub same_pow : cb'.buf_size_pow ≡ cb.buf_size_pow
  pub same_offset : cb'.head_offset ≡ cb.head_offset
  pub same_cursor : cursor_pos cb' ≡ cursor_pos cb
  pub same_tail : tail_pos cb' ≡ tail_pos cb
  pub no_fewer : cb.buf_used ≤ cb'.buf_used
  pub added : List Block
  pub same_bytes : blocks cb' ≡ blocks cb ++ added

drop_zero : (n : ℕ) → n - 0 ≡ n
drop_zero n = omega arith

diff_r_zero : (i u : ℕ) → cb_diff_r i 0 u ≡ i
unfolding cb_diff_r
diff_r_zero i u = ground arith

Grows-refl : {cb : CircularBuf} → IsValid cb → Grows cb cb
Grows-refl {cb} v = record {
  valid = v;
  same_size = refl;
  same_pow = refl;
  same_offset = refl;
  same_cursor = refl;
  same_tail = refl;
  no_fewer = omega arith;
  added = [];
  same_bytes = sym (append-nil (blocks cb));
}

module _ {cb : CircularBuf} (v : IsValid cb) where
  abbrev turned : CircularBuf
  turned = record cb {
    buf = turn cb.head_index cb.buf;
    cursor_index = cb_sub cb.cursor_index cb.head_index cb.buf_used;
    tail_index = cb_sub cb.tail_index cb.head_index cb.buf_used;
    head_index = 0;
  }

  turned_cursor : rot turned turned.cursor_index ≡ rot cb cb.cursor_index
  turned_cursor =
      diff_r_zero _ _ ∙ sub_head cb.head_index cb.buf_used v.head_in cb.cursor_index v.cursor_in

  turned_tail : rot turned turned.tail_index ≡ rot cb cb.tail_index
  turned_tail =
      diff_r_zero _ _ ∙ sub_head cb.head_index cb.buf_used v.head_in cb.tail_index v.tail_in

  turned-IsValid : IsValid turned
  turned-IsValid = record {
    size = v.size;
    stored = length-turn cb.head_index cb.buf ∙ v.stored;
    few = v.few;
    small = v.small;
    sized = AllSized-turn cb.buf_size cb.head_index cb.buf v.sized;
    head_in = omega arith;
    cursor_in =
        rw (sub_head h u v.head_in cb.cursor_index v.cursor_in)
          (diff_r_lt h u v.head_in cb.cursor_index v.cursor_in);
    tail_in =
        rw (sub_head h u v.head_in cb.tail_index v.tail_in)
          (diff_r_lt h u v.head_in cb.tail_index v.tail_in);
    head_fits = v.head_fits;
    cursor_fits = v.cursor_fits;
    tail_fits = v.tail_fits;
    unused = v.unused;
    head_first = λ e. v.head_first (sym turned_cursor ∙ e);
    in_order = omega (arith, turned_cursor, turned_tail, v.in_order);
    same_block = λ e. v.same_block (sym turned_cursor ∙ e ∙ turned_tail);
  }
    where
      h : ℕ
      h = cb.head_index

      u : ℕ
      u = cb.buf_used

  turned-Grows : Grows cb turned
  turned-Grows = record {
    valid = turned-IsValid;
    same_size = refl;
    same_pow = refl;
    same_offset = refl;
    same_cursor = ap (λ k. k * cb.buf_size + cb.cursor_offset) turned_cursor;
    same_tail = ap (λ k. k * cb.buf_size + cb.tail_offset) turned_tail;
    no_fewer = omega arith;
    added = [];
    same_bytes = refl;
  }

  -- Turning the ring so that the head block comes first keeps every byte at its place.
  reorder-Grows :
      Grows cb (reorder cb) × ((reorder cb).head_index ≡ 0) × ((reorder cb).buf_used ≡ cb.buf_used)
  unfolding reorder
  reorder-Grows = elim (Bool-cases (cb.head_index == 0)) [
    | inl z ↦ rw z (Grows-refl v, ==→eq _ _ z, refl)
    | inr nz ↦ rw nz (turned-Grows, refl, refl)
  ]

Grows-trans : {a b c : CircularBuf} → Grows a b → Grows b c → Grows a c
Grows-trans {a} g h = record {
  valid = h.valid;
  same_size = h.same_size ∙ g.same_size;
  same_pow = h.same_pow ∙ g.same_pow;
  same_offset = h.same_offset ∙ g.same_offset;
  same_cursor = h.same_cursor ∙ g.same_cursor;
  same_tail = h.same_tail ∙ g.same_tail;
  no_fewer = omega (arith, g.no_fewer, h.no_fewer);
  added = g.added ++ h.added;
  same_bytes =
      h.same_bytes
      ∙ ap (λ bs. bs ++ h.added) g.same_bytes
      ∙ append_assoc (blocks a) g.added h.added;
}

turn_zero : (h : ℕ) (bs : List Block) → h ≡ 0 → turn h bs ≡ bs
turn_zero zero bs e = append-nil bs
turn_zero (suc h) bs e = absurd (omega arith)

diff_r_head_zero : (i h u : ℕ) → h ≡ 0 → cb_diff_r i h u ≡ i
unfolding cb_diff_r
diff_r_head_zero i h u e = ground arith

module _ {cb : CircularBuf} (v : IsValid cb) (z : cb.head_index ≡ 0) (b : Block) where
  abbrev pushed : CircularBuf
  pushed = record cb { buf = cb.buf ++ b ∷ []; buf_used = cb.buf_used + 1 }

  same_rot : (i : ℕ) → rot pushed i ≡ rot cb i
  same_rot i = diff_r_head_zero i _ _ z ∙ sym (diff_r_head_zero i cb.head_index cb.buf_used z)

  pushed-Grows : length b ≡ cb.buf_size → cb.buf_used < max_num → Grows cb pushed
  pushed-Grows sized few = record {
    valid = record {
      size = v.size;
      stored = omega (arith, length-append cb.buf (b ∷ []), v.stored);
      few = omega arith;
      small = v.small;
      sized = AllSized-append cb.buf_size cb.buf (b ∷ []) v.sized (sized, tt);
      head_in = omega (arith, v.head_in);
      cursor_in = omega (arith, v.cursor_in);
      tail_in = omega (arith, v.tail_in);
      head_fits = v.head_fits;
      cursor_fits = v.cursor_fits;
      tail_fits = v.tail_fits;
      unused = λ e. absurd (omega arith);
      head_first = λ e. v.head_first (sym (same_rot cb.cursor_index) ∙ e);
      in_order = omega (arith, same_rot cb.cursor_index, same_rot cb.tail_index, v.in_order);
      same_block = λ e. v.same_block (sym (same_rot cb.cursor_index) ∙ e ∙ same_rot cb.tail_index);
    };
    same_size = refl;
    same_pow = refl;
    same_offset = refl;
    same_cursor = ap (λ k. k * cb.buf_size + cb.cursor_offset) (same_rot cb.cursor_index);
    same_tail = ap (λ k. k * cb.buf_size + cb.tail_offset) (same_rot cb.tail_index);
    no_fewer = omega arith;
    added = b ∷ [];
    same_bytes =
        turn_zero cb.head_index (cb.buf ++ b ∷ []) z
        ∙ ap (λ bs. bs ++ b ∷ []) (sym (turn_zero cb.head_index cb.buf z));
  }

-- The loop adds a block for each that the allocator has, up to the number wanted.
alloc_loop_lem :
    (wanted : ℕ) (answers : List Block) {cb : CircularBuf}
    → IsValid cb
    → cb.head_index ≡ 0
    → cb.buf_used + wanted ≤ max_num
    → AllSized cb.buf_size answers
    → Grows cb (alloc_loop wanted answers cb).1
      × ((alloc_loop wanted answers cb).1.buf_used + (alloc_loop wanted answers cb).0
          ≡ cb.buf_used + wanted)
      × ((alloc_loop wanted answers cb).0 ≡ wanted - length answers)
unfolding alloc_loop
alloc_loop_lem zero answers v z few sized = (Grows-refl v, refl, omega arith)
alloc_loop_lem (suc wanted) [] v z few sized = (Grows-refl v, refl, omega arith)
alloc_loop_lem (suc wanted) (b ∷ answers) v z few sized =
    let one = pushed-Grows v z b sized.0 (omega arith) in
    let ih = alloc_loop_lem wanted answers one.valid z (omega arith) sized.1 in
    (Grows-trans one ih.0, omega (arith, ih.1), omega (arith, ih.2))

pos_add : (a b : ℕ) → pos a +ℤ pos b ≡ pos (a + b)
pos_add a b = ground arith

below_zero : (n f : ℕ) → ltb_ℤ (pos f) (negsuc n) ≡ false
below_zero n f = ground arith

ltb_ℤ-pos : (f n : ℕ) → ltb_ℤ (pos f) (pos n) ≡ ltb f n
ltb_ℤ-pos f n = ground arith

later : (n f : ℕ) → f < n → pos n -ℤ pos f ≡ pos (n - f)
later n f h = ground arith

-- For a request that with a block more stays within 2^31, the loop adds no more blocks than the
-- array of block pointers has room for.
wanted_few :
    (g : CircularBuf) (bytes : ℤ) (f m : ℕ)
    → 0 < g.buf_size
    → pos_part bytes + g.buf_size ≤ 2 ^ 31
    → ltb_ℤ (pos f) bytes ≡ true
    → word32 (min_ℤ (signed_bsize g (s32 (bytes -ℤ pos f))) (pos m)) ≤ m
unfolding word32 signed_bsize shift_right
wanted_few g (negsuc n) f m p l h = let no : true ≡ false = sym h ∙ below_zero n f in absurd (cc no)
wanted_few g (pos n) f m p l h =
    let more = ltb→lt f n (sym (ltb_ℤ-pos f n) ∙ h) in
    let taken : s32 (pos n -ℤ pos f) ≡ pos (n - f) =
      s32-difference n f (omega arith) (omega arith) ∙ later n f more in
    let rounded : s32 (pos (n - f) +ℤ pos (g.buf_size - 1)) ≡ pos (n - f + (g.buf_size - 1)) =
      ap s32 (pos_add (n - f) (g.buf_size - 1)) ∙ s32-pos _ (omega arith) in
    rw (taken, rounded, min_ℤ-pos) (omega arith)

module _ {cb : CircularBuf} (v : IsValid cb) where
  -- In a valid buffer, when every block of the allocator has the buffer's block size, and the
  -- bytes asked for and a block are at most 2^31 bytes, `yf_cb_space_enlarge` leaves a valid buffer
  -- with the same block size and head offset, the cursor and the tail at the same distance from the
  -- head block, and the same bytes with the new blocks behind them, and it returns the bytes between
  -- the cursor and the end of the ring so grown.
  pub enlarge_lem :
      (bytes : ℤ) (answers : List Block)
      → AllSized cb.buf_size answers
      → pos_part bytes + cb.buf_size ≤ 2 ^ 31
      → Grows cb (enlarge cb bytes answers).1
        × ((enlarge cb bytes answers).0
            ≡ pos ((enlarge cb bytes answers).1.buf_used * cb.buf_size - cursor_pos cb))
  unfolding enlarge
  enlarge_lem bytes answers sized asked =
      elim (Bool-cases (ltb_ℤ (free_wsize cb) bytes && ltb cb.buf_used max_num)) [
        | inl more ↦ rw more (grown wanted (few (and-left _ _ more)))
        | inr enough ↦ rw enough (Grows-refl v, free_wsize_lem v)
      ]
    where
      g : Grows cb (reorder cb)
      g = (reorder-Grows v).0

      wanted : ℕ
      wanted = word32 (
          min_ℤ (signed_bsize (reorder cb) (s32 (bytes -ℤ free_wsize cb)))
            (pos (max_num - (reorder cb).buf_used)))

      and-left : (a b : Bool) → (a && b) ≡ true → a ≡ true
      and-left true b e = refl
      and-left false b e = e

      few : ltb_ℤ (free_wsize cb) bytes ≡ true → wanted ≤ max_num - (reorder cb).buf_used
      few more =
          let f = free_wsize_lem v in
          let h : ltb_ℤ (pos (cb.buf_used * cb.buf_size - cursor_pos cb)) bytes ≡ true =
            ap (λ z. ltb_ℤ z bytes) (sym f) ∙ more in
          rw f (
            wanted_few (reorder cb) bytes (cb.buf_used * cb.buf_size - cursor_pos cb)
              (max_num - (reorder cb).buf_used) (size_pos g.valid)
              (omega (arith, asked, g.same_size)) h)

      grown :
          (w : ℕ)
          → w ≤ max_num - (reorder cb).buf_used
          → Grows cb (alloc_loop w answers (reorder cb)).1
            × (s32 (
                  free_wsize cb
                  +ℤ pos ((w - (alloc_loop w answers (reorder cb)).0) * 2 ^ cb.buf_size_pow))
                ≡ pos
                    ((alloc_loop w answers (reorder cb)).1.buf_used * cb.buf_size - cursor_pos cb))
      grown w few =
          let r = reorder-Grows v in
          let few' = r.0.valid.few in
          let loop =
            alloc_loop_lem w answers r.0.valid r.1 (omega arith)
              (subst (λ k. AllSized k answers) (sym r.0.same_size) sized) in
          let grows = Grows-trans r.0 loop.0 in
          let used = (alloc_loop w answers (reorder cb)).1.buf_used in
          let count : w - (alloc_loop w answers (reorder cb)).0 ≡ used - cb.buf_used =
            omega (arith, loop.1, loop.2, r.2) in
          let bigger : cb.buf_used ≤ used = omega (arith, loop.1, loop.2, r.2) in
          let sum : free_wsize cb
                +ℤ pos ((w - (alloc_loop w answers (reorder cb)).0) * 2 ^ cb.buf_size_pow)
              ≡ pos (used * cb.buf_size - cursor_pos cb) =
            ap₂ ◌+ℤ◌ (free_wsize_lem v) (ap pos (ap₂ ◌*◌ count (sym v.size)))
            ∙ pos_add (cb.buf_used * cb.buf_size - cursor_pos cb)
                ((used - cb.buf_used) * cb.buf_size)
            ∙ ap pos (
                omega (
                  arith,
                  sub-mul used cb.buf_used cb.buf_size,
                  mul-le-mul_right cb.buf_size bigger,
                  cursor-le-tail v,
                  tail-le-room v,
                )) in
          let small : used * cb.buf_size < 2 ^ 31 =
            omega (arith, v.small, mul-le-mul_right cb.buf_size grows.valid.few) in
          (grows, ap s32 sum ∙ s32-pos _ (omega (arith, small)))
