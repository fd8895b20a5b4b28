-- ===== src/RbTree/Upward.antt =====
-- A round of the loop of `__yf_rbtree_insert` with a red uncle.
use yifei.Prelude.{
  ℕ, suc, ◌≡◌, ◌≢◌, sym, ap, ◌∙◌, subst, arith, true, false, ◌∷◌, ◌++◌, eq→==, ne→==,
}
use yifei.RbTree.{left, right, Nodes, paint, side_of, insert_balance}
use yifei.RbTree.Shape.{Tree, node, flatten, IsTree, Above, around, IsAbove}
use yifei.RbTree.Relink.{put_ne}
use yifei.RbTree.Colour.{IsBlack, Balanced, AboveBalanced, low, high}
use yifei.RbTree.Climb.{paint-IsTree, paint-IsAbove}
use yifei.RbTree.Rounds.{insert_balance-upward}
use yifei.RbTree.Settle.{Gives, paint_left, paint_right}

-- What the loop gives from a red node on, under what stands above it, with the given fuel.
abbrev pub Repairs : (ℕ → ℕ) → (nil fuel : ℕ) → Above → Type 0
Repairs rank nil fuel k =
    (s : Nodes) (lo hi z par : ℕ) (l r : Tree) (n : ℕ)
    → IsTree rank nil s lo hi z par (node true l z r)
    → IsAbove rank nil s lo hi z par k
    → IsBlack l × IsBlack r × Balanced n l × Balanced n r
    → AboveBalanced n k
    → s.red nil ≡ false
    → Gives rank nil (low k lo) (high k hi) (around k (flatten l ++ z ∷ flatten r))
        (insert_balance nil fuel z s)

-- The node at `z`, under the red parent `p`.
pub record UnderRed (z p : ℕ) (s : Nodes) : Type 0 where
  pub apart : z ≢ s.root
  pub up : s.parent z ≡ p
  pub red : s.red p ≡ true

module _ (rank : ℕ → ℕ) (nil fuel : ℕ) (k : Above) (next : Repairs rank nil fuel k) (s : Nodes)
    (lo hi g par n z p : ℕ) (a b ul ur : Tree) (y : ℕ) (u : UnderRed z p s) where
  pub upward_left :
      IsTree rank nil s lo hi g par (node false (node true a p b) g (node true ul y ur))
      → IsAbove rank nil s lo hi g par k
      → Balanced n a
      → Balanced n b
      → Balanced n (node true ul y ur)
      → AboveBalanced (suc n) k
      → s.red nil ≡ false
      → Gives rank nil
          (low k lo)
          (high k hi)
          (around k ((flatten a ++ p ∷ flatten b) ++ g ∷ (flatten ul ++ y ∷ flatten ur)))
          (insert_balance nil (suc fuel) z s)
  upward_left ht hk ba bb bu up e =
      let (h, hl, hr) = ht in
      let y' = s.rights g in
      let yy : y' ≡ y = hr.0.0 in
      let s1 = paint false p s in
      let s2 = paint false y s1 in
      let s3 = paint true g s2 in
      let t1 = paint_left rank nil s false lo hi g par false true a p b g (node true ul y ur) ht in
      let t2 =
        paint_right rank nil s1 false lo hi g par false true ul y ur g (node false a p b) t1 in
      let t3 =
        paint-IsTree rank nil s2 true g lo hi g par false (node false a p b) (node false ul y ur)
          t2 in
      let k1 =
        paint-IsAbove rank nil s false p lo hi g par k (omega (arith, hl.0.4))
          (omega (arith, hl.0.5, h.5)) hk in
      let k2 =
        paint-IsAbove rank nil s1 false y lo hi g par k (omega (arith, hr.0.4, h.4))
          (omega (arith, hr.0.5)) k1 in
      let k3 = paint-IsAbove rank nil s2 true g lo hi g par k h.4 h.5 k2 in
      let e3 : s3.red nil ≡ false =
        put_ne s2.red g true nil h.1
        ∙ put_ne s1.red y false nil hr.0.1
        ∙ put_ne s.red p false nil hl.0.1
        ∙ e in
      subst
        (Gives rank nil (low k lo) (high k hi)
          (around k ((flatten a ++ p ∷ flatten b) ++ g ∷ (flatten ul ++ y ∷ flatten ur))))
        (sym (
          insert_balance-upward nil fuel z p g left s u.apart u.up hl.0.3 u.red
            (ap side_of (eq→== p (s.lefts g) (sym hl.0.0))) (ap s.red yy ∙ hr.0.2)
          ∙ ap (λ v. insert_balance nil fuel g (paint true g (paint false v s1))) yy))
        (next s3 lo hi g par (node false a p b) (node false ul y ur) (suc n) t3 k3
          (tt, tt, (ba, bb), (bu.2, bu.3)) up e3)

  pub upward_right :
      IsTree rank nil s lo hi g par (node false (node true ul y ur) g (node true a p b))
      → IsAbove rank nil s lo hi g par k
      → Balanced n a
      → Balanced n b
      → Balanced n (node true ul y ur)
      → AboveBalanced (suc n) k
      → s.red nil ≡ false
      → Gives rank nil
          (low k lo)
          (high k hi)
          (around k ((flatten ul ++ y ∷ flatten ur) ++ g ∷ (flatten a ++ p ∷ flatten b)))
          (insert_balance nil (suc fuel) z s)
  upward_right ht hk ba bb bu up e =
      let (h, hl, hr) = ht in
      let y' = s.lefts g in
      let yy : y' ≡ y = hl.0.0 in
      let s1 = paint false p s in
      let s2 = paint false y s1 in
      let s3 = paint true g s2 in
      let t1 = paint_right rank nil s false lo hi g par false true a p b g (node true ul y ur) ht in
      let t2 =
        paint_left rank nil s1 false lo hi g par false true ul y ur g (node false a p b) t1 in
      let t3 =
        paint-IsTree rank nil s2 true g lo hi g par false (node false ul y ur) (node false a p b)
          t2 in
      let k1 =
        paint-IsAbove rank nil s false p lo hi g par k (omega (arith, hr.0.4, h.4))
          (omega (arith, hr.0.5)) hk in
      let k2 =
        paint-IsAbove rank nil s1 false y lo hi g par k (omega (arith, hl.0.4))
          (omega (arith, hl.0.5, h.5)) k1 in
      let k3 = paint-IsAbove rank nil s2 true g lo hi g par k h.4 h.5 k2 in
      let e3 : s3.red nil ≡ false =
        put_ne s2.red g true nil h.1
        ∙ put_ne s1.red y false nil hl.0.1
        ∙ put_ne s.red p false nil hr.0.1
        ∙ e in
      let off : p ≢ s.lefts g = λ d. omega (arith, ap rank (d ∙ yy), hl.0.5, hr.0.4) in
      subst
        (Gives rank nil (low k lo) (high k hi)
          (around k ((flatten ul ++ y ∷ flatten ur) ++ g ∷ (flatten a ++ p ∷ flatten b))))
        (sym (
          insert_balance-upward nil fuel z p g right s u.apart u.up hr.0.3 u.red
            (ap side_of (ne→== p (s.lefts g) off)) (ap s.red yy ∙ hl.0.2)
          ∙ ap (λ v. insert_balance nil fuel g (paint true g (paint false v s1))) yy))
        (next s3 lo hi g par (node false ul y ur) (node false a p b) (suc n) t3 k3
          (tt, tt, (bu.2, bu.3), (ba, bb)) up e3)
