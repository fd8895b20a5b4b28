-- ===== src/CircularBuf/Over.antt =====
-- What a `memcpy` into one block does to the bytes of the ring.
use mathlib.Core.List.{flatten}
use yifei.Prelude.{
  ℕ, zero, suc, ◌+◌, ◌*◌, ◌≤◌, ◌<◌, ◌≡◌, refl, sym, ap, ◌∙◌, List, [], ◌∷◌, ◌++◌, arith, length,
  take, get_or, set, length-take, append_assoc,
}
use yifei.CircularBuf.{Block}
use yifei.CircularBuf.Valid.{AllSized}
use yifei.Bytes.{over, memcpy}
use yifei.Bytes.Over.{over-append_left, over-append_right, memcpy-over}

-- A copy into one block is a write over the bytes of all blocks.
pub flatten-memcpy :
    (n : ℕ) (bs : List Block) (r o m : ℕ) (src : List ℕ)
    → AllSized n bs
    → r < length bs
    → o + m ≤ n
    → m ≤ length src
    → flatten (set bs r (memcpy (get_or bs r []) o src m))
      ≡ over (flatten bs) (r * n + o) (take m src)
unfolding flatten
flatten-memcpy n [] r o m src p h f l = absurd (omega arith)
flatten-memcpy n (b ∷ bs) zero o m src p h f l =
    let e : 0 * n + o ≡ o = omega arith in
    let q : length (take m src) ≡ m = omega (arith, length-take m src) in
    rw (e, over-append_left b (flatten bs) o (take m src) (omega (arith, q, p.0)))
      (ap (λ z. z ++ flatten bs) (memcpy-over b o m src l))
flatten-memcpy n (b ∷ bs) (suc r) o m src p h f l =
    let e : suc r * n + o ≡ length b + (r * n + o) = omega (arith, p.0) in
    rw (e, over-append_right b (flatten bs) (r * n + o) (take m src))
      (ap (◌++◌ b) (flatten-memcpy n bs r o m src p.1 (omega arith) f l))

pub flatten-append : (xs ys : List Block) → flatten (xs ++ ys) ≡ flatten xs ++ flatten ys
unfolding flatten
flatten-append [] ys = refl
flatten-append (x ∷ xs) ys =
    ap (◌++◌ x) (flatten-append xs ys) ∙ sym (append_assoc x (flatten xs) (flatten ys))
