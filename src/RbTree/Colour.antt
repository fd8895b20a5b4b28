-- ===== src/RbTree/Colour.antt =====
-- The colours of a tree: no red node under a red one, and as many black nodes on every way down.
use yifei.Prelude.{ℕ, zero, suc, ◌≡◌, refl, true, false}
use yifei.RbTree.{left, right}
use yifei.RbTree.Shape.{Tree, leaf, node, flatten, Above, top, under, around, plug}

abbrev pub IsBlack : Tree → Type 0
IsBlack leaf = Unit {0}
IsBlack (node true l x r) = ⊥
IsBlack (node false l x r) = Unit {0}

-- `n` black nodes on every way down.
abbrev pub Balanced : ℕ → Tree → Type 0
Balanced n leaf = n ≡ 0
Balanced n (node true l x r) = IsBlack l × IsBlack r × Balanced n l × Balanced n r
Balanced zero (node false l x r) = ⊥
Balanced (suc n) (node false l x r) = Balanced n l × Balanced n r

-- The next node above is black, and there is one.
abbrev pub TopBlack : Above → Type 0
TopBlack top = ⊥
TopBlack (under d true x sib b k) = ⊥
TopBlack (under d false x sib b k) = Unit {0}

-- What stands above a part that has `n` black nodes on every way down, under a black root.
abbrev pub AboveBalanced : ℕ → Above → Type 0
AboveBalanced n top = Unit {0}
AboveBalanced n (under d true x sib b k) =
    IsBlack sib × Balanced n sib × TopBlack k × AboveBalanced n k
AboveBalanced n (under d false x sib b k) = Balanced n sib × AboveBalanced (suc n) k

abbrev pub blacken : Tree → Tree
blacken leaf = leaf
blacken (node c l x r) = node false l x r

-- The bounds of all ranks, from those of a part.
abbrev pub low : Above → ℕ → ℕ
low top lo = lo
low (under left c x sib b k) lo = low k lo
low (under right c x sib b k) lo = low k b

abbrev pub high : Above → ℕ → ℕ
high top hi = hi
high (under left c x sib b k) hi = high k b
high (under right c x sib b k) hi = high k hi

abbrev pub depth : Above → ℕ
depth top = 0
depth (under d c x sib b k) = suc (depth k)

pub blacken-Balanced : (n : ℕ) (t : Tree) → Balanced n t → (m : ℕ) × Balanced m (blacken t)
blacken-Balanced n leaf h = (n, h)
blacken-Balanced n (node true l x r) h = (suc n, (h.2, h.3))
blacken-Balanced zero (node false l x r) h = elim h [ ]
blacken-Balanced (suc n) (node false l x r) h = (suc n, h)

pub blacken-IsBlack : (t : Tree) → IsBlack (blacken t)
blacken-IsBlack leaf = tt
blacken-IsBlack (node c l x r) = tt

pub flatten-blacken : (t : Tree) → flatten (blacken t) ≡ flatten t
flatten-blacken leaf = refl
flatten-blacken (node c l x r) = refl

pub flatten-plug : (k : Above) (t : Tree) → flatten (plug k t) ≡ around k (flatten t)
flatten-plug top t = refl
flatten-plug (under left c x sib b k) t = flatten-plug k (node c t x sib)
flatten-plug (under right c x sib b k) t = flatten-plug k (node c sib x t)

-- A part that does not put a red node under a red one.
abbrev pub Fits : Tree → Above → Type 0
Fits t top = Unit {0}
Fits t (under d true x sib b k) = IsBlack t
Fits t (under d false x sib b k) = Unit {0}

pub IsBlack-Fits : (t : Tree) (k : Above) → IsBlack t → Fits t k
IsBlack-Fits t top h = tt
IsBlack-Fits t (under d true x sib b k) h = h
IsBlack-Fits t (under d false x sib b k) h = tt

TopBlack-Fits : (t : Tree) (k : Above) → TopBlack k → Fits t k
TopBlack-Fits t top h = tt
TopBlack-Fits t (under d true x sib b k) h = elim h [ ]
TopBlack-Fits t (under d false x sib b k) h = tt

pub plug-Balanced :
    (k : Above) (t : Tree) (n : ℕ)
    → Fits t k
    → Balanced n t
    → AboveBalanced n k
    → (m : ℕ) × Balanced m (plug k t)
plug-Balanced top t n o h a = (n, h)
plug-Balanced (under left true x sib b k) t n o h a =
    plug-Balanced k (node true t x sib) n (TopBlack-Fits (node true t x sib) k a.2) (o, a.0, h, a.1)
      a.3
plug-Balanced (under right true x sib b k) t n o h a =
    plug-Balanced k (node true sib x t) n (TopBlack-Fits (node true sib x t) k a.2) (a.0, o, a.1, h)
      a.3
plug-Balanced (under left false x sib b k) t n o h a =
    plug-Balanced k (node false t x sib) (suc n) (IsBlack-Fits (node false t x sib) k tt) (h, a.0)
      a.1
plug-Balanced (under right false x sib b k) t n o h a =
    plug-Balanced k (node false sib x t) (suc n) (IsBlack-Fits (node false sib x t) k tt) (a.0, h)
      a.1
