-- ===== src/Tests/Numbers.antt =====
-- Powers of two, the text of numbers and the search in a sorted array.
use yifei.Prelude.{length, [], ◌∷◌, refl, ℕ, ◌^◌, ◌*◌, ◌+◌, ◌≤◌, ◌<◌, ◌≡◌, arith}
use yifei.BitOp.{align_2pow, get_set_bits, test_bit32, test_bit16, row_indexs}
use yifei.BitOp.SetBits.{ones, get_set_bits-ones}
use yifei.NumberText.{sprintf_num}
use yifei.NumberText.Read.{read, read-sprintf_num}
use yifei.Prelude.Int.{s32, word32, s32_of}
use yifei.Search.{bsearch, bsearch_cmp, IsPosition, bsearch-IsPosition}
use yifei.BitOp.Pow2.{align_2pow_lem}

align_2pow_example :
    (k : ℕ) × (align_2pow 100 ≡ 2 ^ k) × (100 ≤ align_2pow 100) × (align_2pow 100 < 2 * 100)
align_2pow_example = align_2pow_lem 100 (omega arith) (omega arith)

-- A search for 20 in 8, 16, 24.
bsearch_example : IsPosition (λ i. 8 * i + 8) 20 3 (bsearch bsearch_cmp 20 (λ i. 8 * i + 8) 3)
bsearch_example =
    bsearch-IsPosition (λ i. 8 * i + 8) 20 3 (omega arith) (λ i l. omega arith)
      (λ i j h l. omega arith)

bsearch_test : bsearch bsearch_cmp 20 (λ i. 8 * i + 8) 3 ≡ 2
unfolding bsearch bsearch_cmp s32 word32 s32_of
bsearch_test = refl

-- The keys 1 and 2^32 + 1 count as the same.
bsearch_wraps : bsearch bsearch_cmp 1 (λ i. i * 2 ^ 32 + 1) 2 ≡ 1
unfolding bsearch bsearch_cmp s32 word32 s32_of
bsearch_wraps = refl

read-sprintf_num_example :
    (read 16 0 (sprintf_num 32 48879 48 1 6) ≡ 48879) × (6 ≤ length (sprintf_num 32 48879 48 1 6))
read-sprintf_num_example = read-sprintf_num 32 48879 1 6 (omega arith) (omega arith) (omega arith)

-- The number 48879 in hexadecimal, with zeros up to six characters.
sprintf_num_test : sprintf_num 32 48879 48 1 6 ≡ 48 ∷ 48 ∷ 98 ∷ 101 ∷ 101 ∷ 102 ∷ []
unfolding sprintf_num
sprintf_num_test = refl

-- The bits 0, 17 and 63.
get_set_bits_example : get_set_bits (2 ^ 63 + 131073) ≡ ones 64 0 (2 ^ 63 + 131073)
get_set_bits_example = get_set_bits-ones (2 ^ 63 + 131073)

bits_found : get_set_bits (2 ^ 63 + 131073) ≡ 0 ∷ 17 ∷ 63 ∷ []
unfolding get_set_bits test_bit32 test_bit16 row_indexs
bits_found = refl
