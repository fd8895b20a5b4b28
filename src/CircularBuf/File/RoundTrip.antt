-- ===== src/CircularBuf/File/RoundTrip.antt =====
-- `yf_cb_fwrite`, `yf_cb_fseek` and `yf_cb_fread` after each other.
use yifei.Prelude.{
  ℕ, ◌+◌, ◌-◌, ◌*◌, ◌^◌, ◌≤◌, ◌<◌, ◌≡◌, refl, sym, ap, ap₂, ◌∙◌, min, List, ◌++◌, arith, false,
  length, take, drop, length-take, drop-append_right, take-append_left, take-of_length_le,
  length-drop,
}
use yifei.Prelude.Int.{pos, pos_part}
use yifei.Core.{success}
use yifei.Bytes.{over}
use yifei.CircularBuf.{CircularBuf, Block}
use yifei.CircularBuf.Valid.{
  IsValid, AllSized, cursor_pos, tail_pos, ftell_lem, cursor-le-tail, head-le-cursor, tail-le-room,
}
use yifei.CircularBuf.Blocks.{blocks, space, length-flatten, AllSized-turn}
use yifei.CircularBuf.File.Places.{length-blocks}
use yifei.CircularBuf.File.{fwrite, fseek, fread, seek_set}
use yifei.CircularBuf.File.Seek.{SameFile, fseek_inside, file_size}
use yifei.CircularBuf.File.Read.{contents, fread_lem}
use yifei.CircularBuf.File.Fwrite.{tell, room, fwrite_lem}

contents-SameFile : (cb cb' : CircularBuf) → SameFile cb cb' → contents cb' ≡ contents cb
contents-SameFile cb cb' s =
    rw
      (
        s.same_size, s.same_used, s.same_head.0, s.same_head.1, s.same_tail.0, s.same_tail.1,
        s.same_buf,
      )
      refl

file_size-SameFile : (cb cb' : CircularBuf) → SameFile cb cb' → file_size cb' ≡ file_size cb
file_size-SameFile cb cb' s =
    rw (s.same_size, s.same_used, s.same_head.0, s.same_head.1, s.same_tail.0, s.same_tail.1) refl

take-drop-over :
    (ys : List ℕ) (p : ℕ) (xs : List ℕ)
    → p ≤ length ys
    → take (length xs) (drop p (over ys p xs)) ≡ xs
unfolding over
take-drop-over ys p xs h =
    let l : length (take p ys) ≡ p = omega (arith, length-take p ys) in
    ap (take (length xs)) (
      drop-append_right p (take p ys) (xs ++ drop (p + length xs) ys) (omega arith)
      ∙ ap (λ k. drop k (xs ++ drop (p + length xs) ys))
          (let z : p - length (take p ys) ≡ 0 = omega arith in z))
    ∙ take-append_left (length xs) xs (drop (p + length xs) ys) (omega arith)
    ∙ take-of_length_le (length xs) xs (omega arith)

length-contents : {cb : CircularBuf} → IsValid cb → length (contents cb) ≡ file_size cb
length-contents {cb} v =
    let whole : length (space cb) ≡ cb.buf_used * cb.buf_size =
      length-flatten cb.buf_size (blocks cb)
        (AllSized-turn cb.buf_size cb.head_index cb.buf v.sized)
      ∙ ap (λ k. k * cb.buf_size) (length-blocks v) in
    omega (
      arith,
      whole,
      tail-le-room v,
      length-drop cb.head_offset (space cb),
      length-take (file_size cb) (drop cb.head_offset (space cb)),
    )

module _ {cb : CircularBuf} (v : IsValid cb) (src : List ℕ) (asked : ℕ) (answers : List Block) where
  -- In a valid buffer, when the source has the bytes asked for, these and a block are at most 2^31
  -- bytes, every block of the allocator has the buffer's block size, and the write is granted at least one byte: after `yf_cb_fwrite`,
  -- `yf_cb_fseek` back to where the cursor stood succeeds, and `yf_cb_fread` of as many bytes as
  -- were granted returns the first so many bytes of the source.
  pub fread-fseek-fwrite :
      asked ≤ length src
      → AllSized cb.buf_size answers
      → asked + cb.buf_size ≤ 2 ^ 31
      → 0 < min asked (room cb asked answers)
      → (let written = (fwrite cb src (pos asked) answers).1 in
          let sought = fseek written (pos (tell cb)) seek_set in
          (sought.0 ≡ success)
          × ((fread sought.1 (pos (min asked (room cb asked answers))) false).1
              ≡ take (min asked (room cb asked answers)) src))
  fread-fseek-fwrite l sized within p =
      let n = min asked (room cb asked answers) in
      let written = (fwrite cb src (pos asked) answers).1 in
      let w = fwrite_lem v src asked answers l sized within p in
      let told : cursor_pos written - written.head_offset ≡ tell cb + n =
        ap pos_part (sym (ftell_lem w.valid) ∙ w.told) in
      let s =
        fseek_inside w.valid (pos (tell cb)) seek_set (tell cb) (λ e. cc e) refl
          (omega (arith, told, cursor-le-tail w.valid)) in
      let rd = fread_lem s.valid n false in
      let at = (fseek written (pos (tell cb)) seek_set).1 in
      let here : cursor_pos at - at.head_offset ≡ tell cb =
        ap pos_part (sym (ftell_lem s.valid) ∙ s.told) in
      let size : file_size at ≡ file_size written = file_size-SameFile written at s.same in
      let all : min (tail_pos at - cursor_pos at) n ≡ n =
        omega (arith, here, size, told, cursor-le-tail w.valid, head-le-cursor s.valid) in
      let bytes : contents at ≡ over (contents cb) (tell cb) (take n src) =
        contents-SameFile written at s.same ∙ w.holds in
      let count : length (take n src) ≡ n = omega (arith, length-take n src) in
      (
        s.succeeded,
        rd.bytes
            ∙ ap₂ take all (ap₂ drop here bytes)
            ∙ ap (λ k. take k (drop (tell cb) (over (contents cb) (tell cb) (take n src))))
                (sym count)
            ∙ take-drop-over (contents cb) (tell cb) (take n src)
                (omega (arith, length-contents v, cursor-le-tail v)),
      )
