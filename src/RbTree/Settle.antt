-- ===== src/RbTree/Settle.antt =====
-- The end of the loop of `__yf_rbtree_insert`, and the tree with new colours or turned.
use yifei.Prelude.{
  ℕ, suc, ◌≡◌, refl, sym, ap, ◌∙◌, subst, arith, inl, inr, Bool, true, false, List, ◌∷◌, ◌++◌, ◌==◌,
  Bool-cases, ==→eq, ==→ne,
}
use yifei.RbTree.{
  Side, left, right, Nodes, paint, Inserted, inserted, insert_balance, relink, rotate_down, rotate,
  rotate_with, adopt, put,
}
use yifei.RbTree.Shape.{Tree, leaf, node, flatten, IsTree, Above, around, plug, IsAbove}
use yifei.RbTree.Relink.{put_ne}
use yifei.RbTree.Colour.{
  Fits, IsBlack-Fits, IsBlack, Balanced, AboveBalanced, blacken, low, high, blacken-Balanced,
  blacken-IsBlack, flatten-blacken, flatten-plug, plug-Balanced,
}
use yifei.RbTree.Climb.{paint-IsTree, paint-IsTree_off, plug-IsTree}
use yifei.RbTree.Rounds.{insert_balance-at_root, insert_balance-under_black}

-- The nodes hold a red-black tree, and `nil` is black.
pub record IsRedBlack (rank : ℕ → ℕ) (nil lo hi : ℕ) (s : Nodes) (t : Tree) : Type 0 where
  pub tree : IsTree rank nil s lo hi s.root 0 t
  pub black : IsBlack t
  pub height : ℕ
  pub balanced : Balanced height t
  pub nil_black : s.red nil ≡ false

-- An insertion that gives a red-black tree of the nodes `xs`.
abbrev pub Gives : (ℕ → ℕ) → (nil lo hi : ℕ) → List ℕ → Inserted → Type 0
Gives rank nil lo hi xs r =
    (s : Nodes) × (t : Tree) × (r ≡ inserted s) × IsRedBlack rank nil lo hi s t × (flatten t ≡ xs)

module _ (rank : ℕ → ℕ) (nil : ℕ) where
  paint_root-IsTree :
      (s : Nodes) (lo hi : ℕ) (t : Tree)
      → IsTree rank nil s lo hi s.root 0 t
      → IsTree rank nil (paint false s.root s) lo hi s.root 0 (blacken t)
  paint_root-IsTree s lo hi leaf h = h
  paint_root-IsTree s lo hi (node c l x r) h =
      subst (λ z. IsTree rank nil (paint false z s) lo hi s.root 0 (node false l x r)) (sym h.0.0)
        (paint-IsTree rank nil s false x lo hi s.root 0 c l r h)

  paint_black : (s : Nodes) (z : ℕ) → s.red nil ≡ false → (paint false z s).red nil ≡ false
  unfolding put
  paint_black s z e = elim (Bool-cases (z == nil)) [ inl a ↦ rw a refl | inr a ↦ rw a e ]

  -- The loop has ended: the whole tree gets a black root.
  pub ended-Gives :
      (s : Nodes) (lo hi p par n : ℕ) (t : Tree) (k : Above)
      → IsTree rank nil s lo hi p par t
      → IsAbove rank nil s lo hi p par k
      → Fits t k
      → Balanced n t
      → AboveBalanced n k
      → s.red nil ≡ false
      → Gives rank nil
          (low k lo)
          (high k hi)
          (around k (flatten t))
          (inserted (paint false s.root s))
  ended-Gives s lo hi p par n t k ht hk o b a e =
      let (m, bal) = plug-Balanced k t n o b a in
      let (m', bal') = blacken-Balanced m (plug k t) bal in
      (
        paint false s.root s,
        blacken (plug k t),
        refl,
        record {
          tree =
              paint_root-IsTree s (low k lo) (high k hi) (plug k t)
                (plug-IsTree rank nil s lo hi p par t k ht hk);
          black = blacken-IsBlack (plug k t);
          height = m';
          balanced = bal';
          nil_black = paint_black s s.root e;
        },
        flatten-blacken (plug k t) ∙ flatten-plug k t,
      )

  pub insert_balance-ended :
      (fuel z q : ℕ) (s : Nodes)
      → s.parent z ≡ q
      → s.red q ≡ false
      → insert_balance nil (suc fuel) z s ≡ inserted (paint false s.root s)
  insert_balance-ended fuel z q s e f = elim (Bool-cases (z == s.root)) [
    | inl a ↦ insert_balance-at_root nil fuel z s (==→eq z s.root a)
    | inr a ↦ insert_balance-under_black nil fuel z s (==→ne z s.root a) (ap s.red e ∙ f)
  ]

  -- The round behind the rotations, under a black node.
  pub settled_left :
      (fuel : ℕ) (s : Nodes) (lo hi q par n z : ℕ) (l r u : Tree) (k : Above)
      → IsTree rank nil s lo hi q par (node false (node true l z r) q u)
      → IsAbove rank nil s lo hi q par k
      → Balanced (suc n) (node false (node true l z r) q u)
      → AboveBalanced (suc n) k
      → s.red nil ≡ false
      → Gives rank nil
          (low k lo)
          (high k hi)
          (around k ((flatten l ++ z ∷ flatten r) ++ q ∷ flatten u))
          (insert_balance nil (suc fuel) z s)
  settled_left fuel s lo hi q par n z l r u k ht hk b a e =
      subst
        (Gives rank nil (low k lo) (high k hi)
          (around k ((flatten l ++ z ∷ flatten r) ++ q ∷ flatten u)))
        (sym (insert_balance-ended fuel z q s ht.1.0.3 ht.0.2))
        (ended-Gives s lo hi q par (suc n) (node false (node true l z r) q u) k ht hk
          (IsBlack-Fits (node false (node true l z r) q u) k tt) b a e)

  pub settled_right :
      (fuel : ℕ) (s : Nodes) (lo hi q par n z : ℕ) (l r u : Tree) (k : Above)
      → IsTree rank nil s lo hi q par (node false u q (node true l z r))
      → IsAbove rank nil s lo hi q par k
      → Balanced (suc n) (node false u q (node true l z r))
      → AboveBalanced (suc n) k
      → s.red nil ≡ false
      → Gives rank nil
          (low k lo)
          (high k hi)
          (around k (flatten u ++ q ∷ (flatten l ++ z ∷ flatten r)))
          (insert_balance nil (suc fuel) z s)
  settled_right fuel s lo hi q par n z l r u k ht hk b a e =
      subst
        (Gives rank nil (low k lo) (high k hi)
          (around k (flatten u ++ q ∷ (flatten l ++ z ∷ flatten r))))
        (sym (insert_balance-ended fuel z q s ht.2.0.3 ht.0.2))
        (ended-Gives s lo hi q par (suc n) (node false u q (node true l z r)) k ht hk
          (IsBlack-Fits (node false u q (node true l z r)) k tt) b a e)

  -- Painting a child.
  pub paint_left :
      (s : Nodes) (c' : Bool) (lo hi x par : ℕ) (c cl : Bool) (a : Tree) (p : ℕ) (b : Tree) (g : ℕ)
      (u : Tree)
      → IsTree rank nil s lo hi x par (node c (node cl a p b) g u)
      → IsTree rank nil (paint c' p s) lo hi x par (node c (node c' a p b) g u)
  paint_left s c' lo hi x par c cl a p b g u (h, hl, hr) = (
    (h.0, h.1, put_ne s.red p c' g (λ e. omega (arith, ap rank e, hl.0.5)) ∙ h.2, h.3, h.4, h.5),
    paint-IsTree rank nil s c' p lo (rank g) (s.lefts g) g cl a b hl,
    paint-IsTree_off rank nil s c' p (suc (rank g)) hi (s.rights g) g u
        (inl (omega (arith, hl.0.5))) hr,
  )

  pub paint_right :
      (s : Nodes) (c' : Bool) (lo hi x par : ℕ) (c cl : Bool) (a : Tree) (p : ℕ) (b : Tree) (g : ℕ)
      (u : Tree)
      → IsTree rank nil s lo hi x par (node c u g (node cl a p b))
      → IsTree rank nil (paint c' p s) lo hi x par (node c u g (node c' a p b))
  paint_right s c' lo hi x par c cl a p b g u (h, hl, hr) = (
    (h.0, h.1, put_ne s.red p c' g (λ e. omega (arith, ap rank e, hr.0.4)) ∙ h.2, h.3, h.4, h.5),
    paint-IsTree_off rank nil s c' p lo (rank g) (s.lefts g) g u (inr (omega (arith, hr.0.4))) hl,
    paint-IsTree rank nil s c' p (suc (rank g)) hi (s.rights g) g cl a b hr,
  )

adopt-red : (nil x y i : ℕ) (s : Nodes) → (adopt nil x y i s).red ≡ s.red
unfolding adopt
adopt-red nil x y i s = elim (Bool-cases (i == nil)) [ inl e ↦ rw e refl | inr e ↦ rw e refl ]

relink-red : (side : Side) (x y : ℕ) (s : Nodes) → (relink side x y s).red ≡ s.red
unfolding relink
relink-red left x y s = elim (Bool-cases (x == s.root)) [
  | inl e ↦ rw e refl
  | inr e ↦ elim (Bool-cases (x == s.lefts (s.parent x))) [
    | inl d ↦ rw (e, d) refl
    | inr d ↦ rw (e, d) refl
  ]
]
relink-red right x y s = elim (Bool-cases (x == s.root)) [
  | inl e ↦ rw e refl
  | inr e ↦ elim (Bool-cases (x == s.rights (s.parent x))) [
    | inl d ↦ rw (e, d) refl
    | inr d ↦ rw (e, d) refl
  ]
]

-- A rotation leaves the colours.
pub rotate-red : (side : Side) (nil x : ℕ) (s : Nodes) → (rotate side nil x s).red ≡ s.red
unfolding rotate rotate_with rotate_down
rotate-red left nil x s =
    relink-red left x (s.rights x) _ ∙ adopt-red nil x (s.rights x) (s.lefts (s.rights x)) _
rotate-red right nil x s =
    relink-red right x (s.lefts x) _ ∙ adopt-red nil x (s.lefts x) (s.rights (s.lefts x)) _
