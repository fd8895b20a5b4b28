-- ===== src/RbTree/Swing.antt =====
-- The colours and the last rotation of a round of the loop of `__yf_rbtree_insert`.
use yifei.Prelude.{ℕ, ◌≡◌, ap, ◌∙◌, arith, true, false}
use yifei.RbTree.{left, right, Nodes, paint, rotate}
use yifei.RbTree.Shape.{Tree, leaf, node, IsTree, Above, IsAbove}
use yifei.RbTree.Relink.{put_ne}
use yifei.RbTree.Turn.{left_rotate-IsTree, right_rotate-IsTree}
use yifei.RbTree.Colour.{IsBlack}
use yifei.RbTree.Climb.{paint-IsTree, paint-IsAbove}
use yifei.RbTree.Settle.{paint_left, paint_right, rotate-red}

-- The outcome of the last rotation, at `g`.
module _ (rank : ℕ → ℕ) (nil : ℕ) (k : Above) (s : Nodes) (lo hi g par : ℕ) where
  -- The colours and the rotation at `g`, with the red `p` on its left.
  pub swung_left :
      (a : Tree) (p : ℕ) (b u : Tree)
      → IsTree rank nil s lo hi g par (node false (node true a p b) g u)
      → IsAbove rank nil s lo hi g par k
      → s.red nil ≡ false
      → let s' = rotate right nil g (paint true g (paint false p s)) in
        IsTree rank nil s' lo hi p par (node false a p (node true b g u))
        × IsAbove rank nil s' lo hi p par k
        × (s'.red nil ≡ false)
  swung_left a p b u ht hk e =
      let (h, hl, hr) = ht in
      let s1 = paint false p s in
      let s2 = paint true g s1 in
      let t1 = paint_left rank nil s false lo hi g par false true a p b g u ht in
      let t2 = paint-IsTree rank nil s1 true g lo hi g par false (node false a p b) u t1 in
      let k1 =
        paint-IsAbove rank nil s false p lo hi g par k (omega (arith, hl.0.4))
          (omega (arith, hl.0.5, h.5)) hk in
      let k2 = paint-IsAbove rank nil s1 true g lo hi g par k h.4 h.5 k1 in
      let (t3, k3) = right_rotate-IsTree rank nil s2 lo hi g p par true false a b u k t2 k2 in
      (
        t3,
        k3,
        ap (λ f. f nil) (rotate-red right nil g s2)
            ∙ put_ne s1.red g true nil h.1
            ∙ put_ne s.red p false nil hl.0.1
            ∙ e,
      )

  pub swung_right :
      (a : Tree) (p : ℕ) (b u : Tree)
      → IsTree rank nil s lo hi g par (node false u g (node true a p b))
      → IsAbove rank nil s lo hi g par k
      → s.red nil ≡ false
      → let s' = rotate left nil g (paint true g (paint false p s)) in
        IsTree rank nil s' lo hi p par (node false (node true u g a) p b)
        × IsAbove rank nil s' lo hi p par k
        × (s'.red nil ≡ false)
  swung_right a p b u ht hk e =
      let (h, hl, hr) = ht in
      let s1 = paint false p s in
      let s2 = paint true g s1 in
      let t1 = paint_right rank nil s false lo hi g par false true a p b g u ht in
      let t2 = paint-IsTree rank nil s1 true g lo hi g par false u (node false a p b) t1 in
      let k1 =
        paint-IsAbove rank nil s false p lo hi g par k (omega (arith, hr.0.4, h.4))
          (omega (arith, hr.0.5)) hk in
      let k2 = paint-IsAbove rank nil s1 true g lo hi g par k h.4 h.5 k1 in
      let (t3, k3) = left_rotate-IsTree rank nil s2 lo hi g p par true false u a b k t2 k2 in
      (
        t3,
        k3,
        ap (λ f. f nil) (rotate-red left nil g s2)
            ∙ put_ne s1.red g true nil h.1
            ∙ put_ne s.red p false nil hr.0.1
            ∙ e,
      )

module _ (rank : ℕ → ℕ) (nil : ℕ) (s : Nodes) where
  -- The first node of a black tree is black.
  pub black_root :
      (lo hi p par : ℕ) (t : Tree)
      → IsTree rank nil s lo hi p par t
      → IsBlack t
      → s.red nil ≡ false
      → s.red p ≡ false
  black_root lo hi p par leaf h b e = ap s.red h ∙ e
  black_root lo hi p par (node true l x r) h b e = elim b [ ]
  black_root lo hi p par (node false l x r) h b e = ap s.red h.0.0 ∙ h.0.2
