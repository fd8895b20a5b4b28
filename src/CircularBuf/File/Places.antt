-- ===== src/CircularBuf/File/Places.antt =====
-- Where a transfer starts: the cursor, moved to the next block if it stands at the end of one.
use mathlib.Core.List.{flatten}
use yifei.Prelude.{
  ℕ, suc, ◌+◌, ◌-◌, ◌*◌, ◌≤◌, ◌<◌, ◌≡◌, refl, ap, ◌∙◌, List, [], ◌∷◌, ◌==◌, inl, inr, arith, length,
  drop, get_or, Bool-cases, ==→eq, ==→ne,
}
use yifei.CircularBuf.{CircularBuf, Place, cb_increase, preprocess_cursor}
use yifei.CircularBuf.Index.{diff_r-increase, diff_r_lt}
use yifei.CircularBuf.Valid.{IsValid, rot, lin, cursor_pos, size_pos}
use yifei.CircularBuf.Blocks.{blocks, space, get_or-turn, length-turn, AllSized-turn, drop-flatten}
use yifei.Bytes.Index.{drop-cons}
use yifei.CircularBuf.Advance.{block_of_le}

-- A place inside a block that is in use, at `pos` bytes from the head block's start.
pub record IsInner (cb : CircularBuf) (pos : ℕ) (q : Place) : Type 0 where
  pub used : q.0 < cb.buf_used
  pub before_end : q.1 < cb.buf_size
  pub stands : lin cb q.0 q.1 ≡ pos

-- The bytes from the start of block `i` to the end of the ring.
abbrev pub stream : CircularBuf → ℕ → List ℕ
stream cb i = flatten (drop (rot cb i) (blocks cb))

module _ {cb : CircularBuf} (v : IsValid cb) where
  pub length-blocks : length (blocks cb) ≡ cb.buf_used
  length-blocks = length-turn cb.head_index cb.buf ∙ v.stored

  pub head_used : 0 < cb.buf_used → cb.head_index < cb.buf_used
  head_used p = let h = v.head_in in omega arith

  pub rot-lt : (i : ℕ) → i < cb.buf_used → rot cb i < cb.buf_used
  rot-lt i p =
      let h = diff_r_lt cb.head_index cb.buf_used v.head_in i (omega arith) in omega (arith, h)

  pub get_or-blocks :
      (i : ℕ) → i < cb.buf_used → get_or (blocks cb) (rot cb i) [] ≡ get_or cb.buf i []
  get_or-blocks i p =
      let e = v.stored in
      let g =
        get_or-turn cb.buf cb.head_index i (omega (arith, e, head_used (omega arith)))
          (omega (arith, e)) [] in
      rw e at g

  -- The stream from a block is that block's bytes and the stream from the next.
  pub stream-cons :
      (i : ℕ)
      → i < cb.buf_used
      → drop (rot cb i) (blocks cb) ≡ get_or cb.buf i [] ∷ drop (suc (rot cb i)) (blocks cb)
  stream-cons i p =
      drop-cons (rot cb i) (blocks cb) [] (omega (arith, length-blocks, rot-lt i p))
      ∙ ap (λ b. b ∷ drop (suc (rot cb i)) (blocks cb)) (get_or-blocks i p)

  -- The block after `i`, while bytes of a later block are wanted.
  pub next_block :
      (i n : ℕ)
      → i < cb.buf_used
      → cb.buf_size < n
      → rot cb i * cb.buf_size + n ≤ cb.buf_used * cb.buf_size
      → (rot cb (cb_increase i cb.buf_used) ≡ rot cb i + 1)
        × (cb_increase i cb.buf_used < cb.buf_used)
  next_block i n p more room = diff_r-increase cb.head_index cb.buf_used v.head_in i p (
      block_of_le cb.buf_size (rot cb i) 1 cb.buf_used (n - cb.buf_size) (omega arith) (
        let m : (rot cb i + 1) * cb.buf_size ≡ rot cb i * cb.buf_size + cb.buf_size = omega arith in
        omega (arith, m)))

  pub preprocess_lem :
      (n : ℕ)
      → 0 < n
      → cursor_pos cb + n ≤ cb.buf_used * cb.buf_size
      → IsInner cb (cursor_pos cb) (preprocess_cursor cb (cb.cursor_index, cb.cursor_offset))
  unfolding preprocess_cursor
  preprocess_lem n p room = elim (Bool-cases (cb.cursor_offset == cb.buf_size)) [
    | inl e ↦
        let q = ==→eq _ _ e in
        let next =
          next_block cb.cursor_index (cb.buf_size + n) in_use (omega arith) (omega (arith, q)) in
        rw e
          (record { used = next.1; before_end = size_pos v; stands = rw next.0 (omega (arith, q)) })
    | inr ne ↦
        let q = ==→ne _ _ ne in
        let f = v.cursor_fits in
        rw ne (record { used = in_use; before_end = omega (arith, q, f); stands = refl })
  ]
    where
      some_block : 0 < cb.buf_used
      some_block = elim (Bool-cases (cb.buf_used == 0)) [
        | inl z ↦
            let m : cb.buf_used * cb.buf_size ≡ 0 * cb.buf_size =
              ap (λ k. k * cb.buf_size) (==→eq _ _ z) in
            absurd (omega (arith, m))
        | inr nz ↦ omega (arith, ==→ne _ _ nz)
      ]

      in_use : cb.cursor_index < cb.buf_used
      in_use = let c = v.cursor_in in omega (arith, some_block)

  -- Bytes `pos` onwards of the ring, seen from the block that they start in.
  pub drop-space :
      (pos : ℕ) (q : Place) → IsInner cb pos q → drop pos (space cb) ≡ drop q.1 (stream cb q.0)
  drop-space pos q at = rw (← at.stands) (
      drop-flatten cb.buf_size (rot cb q.0) q.1 (blocks cb)
        (AllSized-turn cb.buf_size cb.head_index cb.buf v.sized)
        (omega (arith, length-blocks, rot-lt q.0 at.used)))
