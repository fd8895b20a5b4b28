-- ===== src/RbTree/Turn.antt =====
-- What a rotation makes of the tree at its node, on each side.
use yifei.Prelude.{ℕ, suc, ◌<◌, ◌≢◌, refl, sym, ap, ◌∙◌, subst, arith, inl, inr, Bool}
use yifei.RbTree.{left, right, Nodes, rotate, rotate_with}
use yifei.RbTree.Shape.{Tree, node, IsTree, Above, IsAbove}
use yifei.RbTree.Relink.{Within, first-ne}
use yifei.RbTree.Rotate.{rotate-Turned}
use yifei.RbTree.Turned.{root-Within, Turned-inner, Turned-outer}

module _ (rank : ℕ → ℕ) (nil : ℕ) (s : Nodes) (lo hi x y par : ℕ) (cx cy : Bool) (a b c : Tree)
    (k : Above) where
  -- `yf_rbtree_left_rotate` at `x`, whose right child is `y`.
  pub left_rotate-IsTree :
      IsTree rank nil s lo hi x par (node cx a x (node cy b y c))
      → IsAbove rank nil s lo hi x par k
      → IsTree rank nil (rotate left nil x s) lo hi y par (node cy (node cx a x b) y c)
        × IsAbove rank nil (rotate left nil x s) lo hi y par k
  unfolding rotate
  left_rotate-IsTree (hx, ha, (hy, hb, hc)) hk =
      let below : rank x < rank y = hy.4 in
      let i = s.lefts y in
      let wx : Within rank nil lo hi x = record { real = hx.1; from = hx.4; below = hx.5 } in
      let wy : Within rank nil lo hi y = record { real = hy.1; from = omega arith; below = hy.5 } in
      let ne : x ≢ y = λ e. omega (arith, ap rank e) in
      let (t, k') =
        rotate-Turned rank nil lo hi x y par s k wx wy ne hx.3 left
          (first-ne rank nil s (suc (rank x)) (rank y) i y x b hb hx.1 (inl (omega arith)))
          (first-ne rank nil s (suc (rank x)) (rank y) i y y b hb hy.1 (inr (omega arith)))
          (root-Within rank nil s (suc (rank x)) (rank y) lo hi i y b hb (omega arith)
            (omega arith))
          hk in
      let f = rotate_with left nil x y s in
      subst
        (λ u.
          IsTree rank nil (rotate_with left nil x u s) lo hi y par (node cy (node cx a x b) y c)
          × IsAbove rank nil (rotate_with left nil x u s) lo hi y par k)
        (sym hy.0)
        (
          (
            (refl, hy.1, t.red y wy.from wy.below ∙ hy.2, t.above, wy.from, wy.below),
            (
              (t.lower, hx.1, t.red x wx.from wx.below ∙ hx.2, t.up, hx.4, hy.4),
              Turned-outer rank left nil lo hi x y i par lo (rank x) (suc (rank x)) (rank y)
                  (s.lefts x) (f.lefts x) x s f b a t (omega arith) (omega arith)
                  (inr (omega arith)) (inr (omega arith)) (inl (omega arith))
                  (t.outer x wx.from wx.below ne) hb ha,
              subst (λ p. IsTree rank nil f (suc (rank x)) (rank y) p x b) (sym t.taken)
                  (Turned-inner rank left nil lo hi x y i par (suc (rank x)) (rank y) s f b t
                    (omega arith) (omega arith) (inl (omega arith)) (inr (omega arith)) hx.1 hy.1
                    hb),
            ),
            Turned-outer rank left nil lo hi x y i par (suc (rank y)) hi (suc (rank x)) (rank y)
                (s.rights y) (f.rights y) y s f b c t (omega arith) (omega arith)
                (inl (omega arith)) (inl (omega arith)) (inr (omega arith))
                (t.far y wy.from wy.below (λ e. ne (sym e))) hb hc,
          ),
          k',
        )

  -- `yf_rbtree_right_rotate` at `x`, whose left child is `y`.
  pub right_rotate-IsTree :
      IsTree rank nil s lo hi x par (node cx (node cy a y b) x c)
      → IsAbove rank nil s lo hi x par k
      → IsTree rank nil (rotate right nil x s) lo hi y par (node cy a y (node cx b x c))
        × IsAbove rank nil (rotate right nil x s) lo hi y par k
  unfolding rotate
  right_rotate-IsTree (hx, (hy, ha, hb), hc) hk =
      let below : rank y < rank x = hy.5 in
      let i = s.rights y in
      let wx : Within rank nil lo hi x = record { real = hx.1; from = hx.4; below = hx.5 } in
      let wy : Within rank nil lo hi y = record { real = hy.1; from = hy.4; below = omega arith } in
      let ne : x ≢ y = λ e. omega (arith, ap rank e) in
      let (t, k') =
        rotate-Turned rank nil lo hi x y par s k wx wy ne hx.3 right
          (first-ne rank nil s (suc (rank y)) (rank x) i y x b hb hx.1 (inr (omega arith)))
          (first-ne rank nil s (suc (rank y)) (rank x) i y y b hb hy.1 (inl (omega arith)))
          (root-Within rank nil s (suc (rank y)) (rank x) lo hi i y b hb (omega arith)
            (omega arith))
          hk in
      let f = rotate_with right nil x y s in
      subst
        (λ u.
          IsTree rank nil (rotate_with right nil x u s) lo hi y par (node cy a y (node cx b x c))
          × IsAbove rank nil (rotate_with right nil x u s) lo hi y par k)
        (sym hy.0)
        (
          (
            (refl, hy.1, t.red y wy.from wy.below ∙ hy.2, t.above, wy.from, wy.below),
            Turned-outer rank right nil lo hi x y i par lo (rank y) (suc (rank y)) (rank x)
                (s.lefts y) (f.lefts y) y s f b a t (omega arith) (omega arith) (inr (omega arith))
                (inr (omega arith)) (inl (omega arith)) (t.far y wy.from wy.below (λ e. ne (sym e)))
                hb ha,
            (
              (t.lower, hx.1, t.red x wx.from wx.below ∙ hx.2, t.up, below, hx.5),
              subst (λ p. IsTree rank nil f (suc (rank y)) (rank x) p x b) (sym t.taken)
                  (Turned-inner rank right nil lo hi x y i par (suc (rank y)) (rank x) s f b t
                    (omega arith) (omega arith) (inr (omega arith)) (inl (omega arith)) hx.1 hy.1
                    hb),
              Turned-outer rank right nil lo hi x y i par (suc (rank x)) hi (suc (rank y)) (rank x)
                  (s.rights x) (f.rights x) x s f b c t (omega arith) (omega arith)
                  (inl (omega arith)) (inl (omega arith)) (inr (omega arith))
                  (t.outer x wx.from wx.below ne) hb hc,
            ),
          ),
          k',
        )
