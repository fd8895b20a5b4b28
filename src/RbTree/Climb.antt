-- ===== src/RbTree/Climb.antt =====
-- From a part of the tree one node up, and down again; painting a node.
use yifei.Prelude.{ℕ, suc, ◌≤◌, ◌<◌, ◌≢◌, refl, sym, ap, subst, arith, ◌⊎◌, inl, inr, Bool}
use yifei.RbTree.{left, right, Nodes, paint}
use yifei.RbTree.Shape.{
  Tree, node, IsTree, Above, top, under, plug, IsAbove, Same, IsTree-Same, IsAbove-Same,
}
use yifei.RbTree.Relink.{put_self, put_ne}
use yifei.RbTree.Colour.{low, high}

module _ (rank : ℕ → ℕ) (nil : ℕ) (s : Nodes) where
  -- One node up, and down again.
  pub climb_left :
      (lo hi p par : ℕ) (t : Tree) (c : Bool) (x : ℕ) (sib : Tree) (b : ℕ) (k : Above)
      → IsTree rank nil s lo hi p par t
      → IsAbove rank nil s lo hi p par (under left c x sib b k)
      → IsTree rank nil s lo b x (s.parent x) (node c t x sib)
        × IsAbove rank nil s lo b x (s.parent x) k
  climb_left lo hi p par t c x sib b k ht (h, hs, hk) = (
    (
      (refl, h.1, h.2, refl, omega arith, omega arith),
      subst (λ q. IsTree rank nil s lo (rank x) q x t) (sym h.3)
          (subst (λ q. IsTree rank nil s lo (rank x) p q t) h.0
            (subst (λ q. IsTree rank nil s lo q p par t) h.4 ht)),
      hs,
    ),
    hk,
  )

  pub climb_right :
      (lo hi p par : ℕ) (t : Tree) (c : Bool) (x : ℕ) (sib : Tree) (b : ℕ) (k : Above)
      → IsTree rank nil s lo hi p par t
      → IsAbove rank nil s lo hi p par (under right c x sib b k)
      → IsTree rank nil s b hi x (s.parent x) (node c sib x t)
        × IsAbove rank nil s b hi x (s.parent x) k
  climb_right lo hi p par t c x sib b k ht (h, hs, hk) = (
    (
      (refl, h.1, h.2, refl, omega arith, omega arith),
      hs,
      subst (λ q. IsTree rank nil s (suc (rank x)) hi q x t) (sym h.3)
          (subst (λ q. IsTree rank nil s (suc (rank x)) hi p q t) h.0
            (subst (λ q. IsTree rank nil s q hi p par t) h.4 ht)),
    ),
    hk,
  )

  pub descend_left :
      (lo hi p par : ℕ) (c : Bool) (l : Tree) (x : ℕ) (r : Tree) (k : Above)
      → IsTree rank nil s lo hi p par (node c l x r)
      → IsAbove rank nil s lo hi p par k
      → IsTree rank nil s lo (rank x) (s.lefts x) x l
        × IsAbove rank nil s lo (rank x) (s.lefts x) x (under left c x r hi k)
  descend_left lo hi p par c l x r k (h, hl, hr) hk = (
    hl,
    (
      (refl, h.1, h.2, refl, refl, h.4, h.5),
      hr,
      subst (λ q. IsAbove rank nil s lo hi q (s.parent x) k) h.0
          (subst (λ q. IsAbove rank nil s lo hi p q k) (sym h.3) hk),
    ),
  )

  pub descend_right :
      (lo hi p par : ℕ) (c : Bool) (l : Tree) (x : ℕ) (r : Tree) (k : Above)
      → IsTree rank nil s lo hi p par (node c l x r)
      → IsAbove rank nil s lo hi p par k
      → IsTree rank nil s (suc (rank x)) hi (s.rights x) x r
        × IsAbove rank nil s (suc (rank x)) hi (s.rights x) x (under right c x l lo k)
  descend_right lo hi p par c l x r k (h, hl, hr) hk = (
    hr,
    (
      (refl, h.1, h.2, refl, refl, h.5, omega arith),
      hl,
      subst (λ q. IsAbove rank nil s lo hi q (s.parent x) k) h.0
          (subst (λ q. IsAbove rank nil s lo hi p q k) (sym h.3) hk),
    ),
  )

  -- The whole tree.
  pub plug-IsTree :
      (lo hi p par : ℕ) (t : Tree) (k : Above)
      → IsTree rank nil s lo hi p par t
      → IsAbove rank nil s lo hi p par k
      → IsTree rank nil s (low k lo) (high k hi) s.root 0 (plug k t)
  plug-IsTree lo hi p par t top ht hk =
      subst (λ q. IsTree rank nil s lo hi q 0 t) hk.0
        (subst (λ q. IsTree rank nil s lo hi p q t) hk.1 ht)
  plug-IsTree lo hi p par t (under left c x sib b k) ht hk =
      let (ht', hk') = climb_left lo hi p par t c x sib b k ht hk in
      plug-IsTree lo b x (s.parent x) (node c t x sib) k ht' hk'
  plug-IsTree lo hi p par t (under right c x sib b k) ht hk =
      let (ht', hk') = climb_right lo hi p par t c x sib b k ht hk in
      plug-IsTree b hi x (s.parent x) (node c sib x t) k ht' hk'

module _ (rank : ℕ → ℕ) (nil : ℕ) (s : Nodes) (c' : Bool) (z : ℕ) where
  painted-Same : (q : ℕ) → q ≢ z → Same s (paint c' z s) q
  painted-Same q n = record {
    lefts = refl;
    rights = refl;
    parent = refl;
    red = put_ne s.red z c' q (λ e. n (sym e));
  }

  -- A tree without the painted node.
  pub paint-IsTree_off :
      (lo hi p par : ℕ) (t : Tree)
      → (rank z < lo) ⊎ (hi ≤ rank z)
      → IsTree rank nil s lo hi p par t
      → IsTree rank nil (paint c' z s) lo hi p par t
  paint-IsTree_off lo hi p par t o h =
      IsTree-Same rank nil s (paint c' z s) lo hi p p par t refl
        (λ q n a b. painted-Same q (λ e. ne q o a b e)) h
    where
      ne : (q : ℕ) → (rank z < lo) ⊎ (hi ≤ rank z) → lo ≤ rank q → rank q < hi → q ≢ z
      ne q (inl o) a b e = omega (arith, ap rank e)
      ne q (inr o) a b e = omega (arith, ap rank e)

  pub paint-IsTree :
      (lo hi p par : ℕ) (c : Bool) (l r : Tree)
      → IsTree rank nil s lo hi p par (node c l z r)
      → IsTree rank nil (paint c' z s) lo hi p par (node c' l z r)
  paint-IsTree lo hi p par c l r (h, hl, hr) = (
    (h.0, h.1, put_self s.red z c', h.3, h.4, h.5),
    paint-IsTree_off lo (rank z) (s.lefts z) z l (inr (omega arith)) hl,
    paint-IsTree_off (suc (rank z)) hi (s.rights z) z r (inl (omega arith)) hr,
  )

  pub paint-IsAbove :
      (lo hi p par : ℕ) (k : Above)
      → lo ≤ rank z
      → rank z < hi
      → IsAbove rank nil s lo hi p par k
      → IsAbove rank nil (paint c' z s) lo hi p par k
  paint-IsAbove lo hi p par k a b h =
      IsAbove-Same rank nil s (paint c' z s) lo hi p par k refl
        (λ q n o. painted-Same q (λ e. ne q o e)) h
    where
      ne : (q : ℕ) → (rank q < lo) ⊎ (hi ≤ rank q) → q ≢ z
      ne q (inl o) e = omega (arith, ap rank e)
      ne q (inr o) e = omega (arith, ap rank e)
