-- ===== src/Tests/Buffer.antt =====
-- A circular buffer of two blocks of four bytes.
use yifei.Prelude.{ℕ, ◌*◌, ◌-◌, ◌<◌, ◌≡◌, refl, List, [], ◌∷◌, arith, take, min, false}
use yifei.Prelude.Int.{pos, negsuc, s32, word32, s32_of}
use yifei.Core.{success, failure}
use yifei.CircularBuf.{
  CircularBuf, Block, cb_diff_r, min_ℤ, rest_rsize, index_offset, preprocess_cursor, cb_increase,
  fsize, ftell,
}
use yifei.CircularBuf.Valid.{IsValid, AllSized, lin}
use yifei.CircularBuf.Enlarge.{Grows, enlarge_lem}
use yifei.CircularBuf.Space.{enlarge}
use yifei.CircularBuf.File.{fseek, fread, fwrite, seek_set, seek_cur}
use yifei.CircularBuf.File.Seek.{SoughtTo, fseek_inside, fseek_outside}
use yifei.CircularBuf.File.Read.{Reads, fread_lem}
use yifei.CircularBuf.File.Fwrite.{Written, room, tell, fwrite_lem}
use yifei.CircularBuf.File.RoundTrip.{fread-fseek-fwrite}

-- The file is 2 3 4 5 6, with the cursor at the 4.
abbrev two_blocks : CircularBuf
two_blocks = record {
  buf_size = 4;
  buf_size_pow = 2;
  shrink_cnt = 0;
  buf_used = 2;
  head_index = 0;
  cursor_index = 0;
  tail_index = 1;
  head_offset = 1;
  cursor_offset = 3;
  tail_offset = 2;
  buf = (1 ∷ 2 ∷ 3 ∷ 4 ∷ []) ∷ (5 ∷ 6 ∷ 7 ∷ 8 ∷ []) ∷ [];
}

abbrev answers : List Block
answers = (0 ∷ 0 ∷ 0 ∷ 0 ∷ []) ∷ []

abbrev text : List ℕ
text = 31 ∷ 32 ∷ 33 ∷ 34 ∷ 35 ∷ 36 ∷ 37 ∷ []

answers-AllSized : AllSized 4 answers
answers-AllSized = (refl, tt)

two_blocks-IsValid : IsValid two_blocks
unfolding cb_diff_r
two_blocks-IsValid = record {
  size = refl;
  stored = refl;
  few = omega arith;
  small = omega arith;
  sized = (refl, (refl, tt));
  head_in = omega arith;
  cursor_in = omega arith;
  tail_in = omega arith;
  head_fits = omega arith;
  cursor_fits = omega arith;
  tail_fits = omega arith;
  unused = λ e. omega (arith, e);
  head_first = λ e. omega arith;
  in_order = omega arith;
  same_block = λ e. omega (arith, e);
}

fread_test : (fread two_blocks (pos 9) false).1 ≡ 4 ∷ 5 ∷ 6 ∷ []
unfolding fread min_ℤ rest_rsize index_offset s32 word32 s32_of cb_diff_r preprocess_cursor
    cb_increase
fread_test = refl

fread_example : Reads two_blocks 2 false (fread two_blocks (pos 2) false)
fread_example = fread_lem two_blocks-IsValid 2 false

fseek_example : SoughtTo two_blocks 1 (fseek two_blocks (negsuc 0) seek_cur)
fseek_example =
    fseek_inside two_blocks-IsValid (negsuc 0) seek_cur 1 (λ e. cc e)
      (unfold ftell index_offset cb_diff_r s32 word32 s32_of in refl)
      (unfold cb_diff_r in omega arith)

fseek_outside_example : fseek two_blocks (pos 6) seek_set ≡ (failure, two_blocks)
fseek_outside_example =
    fseek_outside two_blocks-IsValid (pos 6) seek_set (λ e. cc e) (omega arith)
      (unfold fsize index_offset cb_diff_r s32 word32 s32_of in refl)

-- A write of seven bytes finds room in the two blocks and those that it may add.
room_test : 0 < min 7 (room two_blocks 7 answers)
unfolding cb_diff_r
room_test = omega (
  arith,
  (enlarge_lem two_blocks-IsValid (pos 7) answers answers-AllSized (omega arith)).0.no_fewer,
)

fwrite_example :
    Written two_blocks text
      (min 7 (room two_blocks 7 answers))
      (fwrite two_blocks text (pos 7) answers).1
fwrite_example =
    fwrite_lem two_blocks-IsValid text 7 answers (omega arith) answers-AllSized (omega arith)
      room_test

fread-fseek-fwrite_example :
    (let written = (fwrite two_blocks text (pos 7) answers).1 in
      let sought = fseek written (pos (tell two_blocks)) seek_set in
      (sought.0 ≡ success)
      × ((fread sought.1 (pos (min 7 (room two_blocks 7 answers))) false).1
          ≡ take (min 7 (room two_blocks 7 answers)) text))
fread-fseek-fwrite_example =
    fread-fseek-fwrite two_blocks-IsValid text 7 answers (omega arith) answers-AllSized
      (omega arith) room_test

enlarge_example :
    Grows two_blocks (enlarge two_blocks (pos 7) answers).1
    × ((enlarge two_blocks (pos 7) answers).0
        ≡ pos ((enlarge two_blocks (pos 7) answers).1.buf_used * 4 - lin two_blocks 0 3))
enlarge_example = enlarge_lem two_blocks-IsValid (pos 7) answers answers-AllSized (omega arith)
