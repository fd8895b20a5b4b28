-- ===== src/BitOp/SetBits.antt =====
-- `yf_get_set_bits` of src/base_struct/yf_bit_op.c, against the bits one by one.
use yifei.Prelude.{
  ℕ, zero, suc, ◌+◌, ◌*◌, ◌/◌, ◌%◌, ◌^◌, ◌≡◌, refl, sym, ap, ap₂, ◌∙◌, arith, List, [], ◌∷◌, ◌++◌,
  map, ◌==◌, if◌then◌else◌, Bool, true, false, ==→eq, ne→==,
}
use yifei.Prelude.Bits.{pow_pos, remainder_digit}
use native.Mathlib.Nat.{pow-suc, div-div-eq-div-mul}
use yifei.BitOp.{row_indexs, test_bit16, test_bit32, get_set_bits}

-- The indexes from `i` on of the bits that are set, among `n` bits of a value.
unfoldable pub ones : (n i val : ℕ) → List ℕ
ones zero i val = []
ones (suc n) i val =
    let rest = ones n (i + 1) val in if val / 2 ^ i % 2 == 0 then rest else i ∷ rest

row_indexs-zero : (n i : ℕ) → row_indexs n 0 i ≡ []
unfolding row_indexs
row_indexs-zero zero i = refl
row_indexs-zero (suc n) i = refl

-- The loop without its condition.
row_indexs-suc :
    (n v i : ℕ)
    → row_indexs (suc n) v i
      ≡ (if v % 2 == 0 then row_indexs n (v / 2) (i + 1) else i ∷ row_indexs n (v / 2) (i + 1))
unfolding row_indexs
row_indexs-suc n zero i = sym (row_indexs-zero n (i + 1))
row_indexs-suc n (suc v) i = rw (ne→== (suc v) 0 (omega arith)) refl

half_of_power : (val k : ℕ) → val / 2 ^ (k + 1) ≡ val / 2 ^ k / 2
half_of_power val k =
    let next : 2 ^ (k + 1) ≡ 2 ^ suc k = ap (λ j. 2 ^ j) (omega arith) in
    ap (λ p. val / p) (omega (arith, next, pow-suc 2 k)) ∙ sym (div-div-eq-div-mul val (2 ^ k) 2)

map-if :
    (f : ℕ → ℕ) (c : Bool) (i : ℕ) (xs ys : List ℕ)
    → map f xs ≡ ys
    → map f (if c then xs else i ∷ xs) ≡ (if c then ys else f i ∷ ys)
map-if f true i xs ys e = e
map-if f false i xs ys e = ap (◌∷◌ (f i)) e

-- The lowest bit and the rest of the bits that a row reads.
digits_of : (y n : ℕ) → ((y % 2 ^ suc n) % 2 ≡ y % 2) × (y % 2 ^ suc n / 2 ≡ y / 2 % 2 ^ n)
digits_of y n =
    let e : y % 2 ^ suc n ≡ (y / 2 % 2 ^ n) * 2 + y % 2 =
      ap (λ p. y % p) (pow-suc 2 n ∙ omega arith) ∙ remainder_digit y (2 ^ n) (pow_pos n) in
    (omega (arith, e), omega (arith, e))

-- A row for `n` bits of a value from `b + i` on gives the bits that are set.
row_indexs-ones :
    (n val b i : ℕ)
    → map (λ j. b + j) (row_indexs n (val / 2 ^ (b + i) % 2 ^ n) i) ≡ ones n (b + i) val
unfolding ones
row_indexs-ones zero val b i = unfold row_indexs in refl
row_indexs-ones (suc n) val b i =
    let y = val / 2 ^ (b + i) in
    let rest = row_indexs n (y / 2 % 2 ^ n) (i + 1) in
    let next : y / 2 ≡ val / 2 ^ (b + (i + 1)) =
      sym (ap (λ k. val / 2 ^ k) (omega arith) ∙ half_of_power val (b + i)) in
    let found : map (λ j. b + j) rest ≡ ones n (b + i + 1) val =
      ap (λ v. map (λ j. b + j) (row_indexs n (v % 2 ^ n) (i + 1))) next
      ∙ row_indexs-ones n val b (i + 1)
      ∙ ap (λ k. ones n k val) (omega arith) in
    let row : row_indexs (suc n) (y % 2 ^ suc n) i ≡ (if y % 2 == 0 then rest else i ∷ rest) =
      row_indexs-suc n (y % 2 ^ suc n) i
      ∙ ap₂ (λ d v. if d == 0 then row_indexs n v (i + 1) else i ∷ row_indexs n v (i + 1))
          (digits_of y n).0 (digits_of y n).1 in
    ap (map (λ j. b + j)) row
    ∙ map-if (λ j. b + j) (y % 2 == 0) i rest (ones n (b + i + 1) val) found

-- A row for no bits.
zero-ones : (n b val : ℕ) → val / 2 ^ b % 2 ^ n ≡ 0 → ones n b val ≡ []
zero-ones n b val e =
    let here : b + 0 ≡ b = omega arith in
    sym (ap (λ k. ones n k val) here)
    ∙ sym (row_indexs-ones n val b 0)
    ∙ ap (λ v. map (λ j. b + j) (row_indexs n v 0)) (ap (λ k. val / 2 ^ k % 2 ^ n) here ∙ e)
    ∙ ap (map (λ j. b + j)) (row_indexs-zero n 0)

if-append :
    (c : Bool) (i : ℕ) (xs ys zs : List ℕ)
    → ys ≡ xs ++ zs
    → (if c then ys else i ∷ ys) ≡ (if c then xs else i ∷ xs) ++ zs
if-append true i xs ys zs e = e
if-append false i xs ys zs e = ap (◌∷◌ i) e

ones-append : (m n b val : ℕ) → ones (m + n) b val ≡ ones m b val ++ ones n (b + m) val
unfolding ones
ones-append zero n b val = ap₂ (λ k c. ones k c val) (omega arith) (omega arith)
ones-append (suc m) n b val =
    let e : suc m + n ≡ suc (m + n) = omega arith in
    let rest : ones (m + n) (b + 1) val ≡ ones m (b + 1) val ++ ones n (b + suc m) val =
      ones-append m n (b + 1) val ∙ ap (λ c. ones m (b + 1) val ++ ones n c val) (omega arith) in
    ap (λ k. ones k b val) e
    ∙ if-append (val / 2 ^ b % 2 == 0) b (ones m (b + 1) val) (ones (m + n) (b + 1) val)
        (ones n (b + suc m) val) rest

if-guard :
    (c : Bool) (xs ys : List ℕ)
    → (c ≡ true → ys ≡ [])
    → (c ≡ false → xs ≡ ys)
    → (if c then [] else xs) ≡ ys
if-guard true xs ys h k = sym (h refl)
if-guard false xs ys h k = k refl

test_bit16-ones : (p q val : ℕ) → test_bit16 p q val ≡ ones 16 (32 * p + 16 * q) val
unfolding test_bit16
test_bit16-ones p q val =
    let b = 32 * p + 16 * q in
    if-guard (val / 2 ^ b % 2 ^ 16 == 0) (map (λ i. b + i) (row_indexs 16 (val / 2 ^ b % 2 ^ 16) 0))
      (ones 16 b val) (λ e. zero-ones 16 b val (==→eq (val / 2 ^ b % 2 ^ 16) 0 e))
      (λ e.
        ap (λ k. map (λ i. b + i) (row_indexs 16 (val / 2 ^ k % 2 ^ 16) 0)) (omega arith)
        ∙ row_indexs-ones 16 val b 0
        ∙ ap (λ k. ones 16 k val) (omega arith))

test_bit32-ones : (p val : ℕ) → test_bit32 p val ≡ ones 32 (32 * p) val
unfolding test_bit32
test_bit32-ones p val =
    if-guard (val / 2 ^ (32 * p) % 2 ^ 32 == 0) (test_bit16 p 0 val ++ test_bit16 p 1 val)
      (ones 32 (32 * p) val)
      (λ e. zero-ones 32 (32 * p) val (==→eq (val / 2 ^ (32 * p) % 2 ^ 32) 0 e))
      (λ e.
        ap₂ ◌++◌ (test_bit16-ones p 0 val) (test_bit16-ones p 1 val)
        ∙ ap₂ (λ c d. ones 16 c val ++ ones 16 d val) (omega arith) (omega arith)
        ∙ sym (ones-append 16 16 (32 * p) val))

-- `yf_get_set_bits` gives the indexes, from 0 to 63 and in this order, of exactly the bits of its
-- argument that are set.
pub get_set_bits-ones : (bit_64 : ℕ) → get_set_bits bit_64 ≡ ones 64 0 bit_64
unfolding get_set_bits
get_set_bits-ones bit_64 =
    if-guard (bit_64 == 0) (test_bit32 0 bit_64 ++ test_bit32 1 bit_64) (ones 64 0 bit_64)
      (λ e. zero-ones 64 0 bit_64 (ap (λ v. v / 2 ^ 0 % 2 ^ 64) (==→eq bit_64 0 e)))
      (λ e.
        ap₂ ◌++◌ (test_bit32-ones 0 bit_64) (test_bit32-ones 1 bit_64)
        ∙ sym (ones-append 32 32 0 bit_64))
