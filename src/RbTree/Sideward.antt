-- ===== src/RbTree/Sideward.antt =====
-- A round of the loop of `__yf_rbtree_insert` with a black uncle, and the end behind it.
use yifei.Prelude.{
  ℕ, suc, ◌≡◌, ◌≢◌, sym, ap, ◌∙◌, subst, arith, inl, inr, true, false, List, ◌∷◌, ◌++◌,
  append_assoc, ◌==◌, eq→==, ne→==,
}
use yifei.RbTree.{left, right, Nodes, paint, side_of, insert_balance, rotate}
use yifei.RbTree.Shape.{Tree, node, flatten, IsTree, Above, under, around, IsAbove}
use yifei.RbTree.Relink.{first-ne}
use yifei.RbTree.Turn.{left_rotate-IsTree, right_rotate-IsTree}
use yifei.RbTree.Colour.{IsBlack, Balanced, AboveBalanced, low, high}
use yifei.RbTree.Climb.{climb_left, climb_right, descend_left, descend_right}
use yifei.RbTree.Rounds.{insert_balance-sideward, insert_turn-outer, insert_turn-inner}
use yifei.RbTree.Settle.{Gives, settled_left, settled_right, rotate-red}
use yifei.RbTree.Upward.{UnderRed}
use yifei.RbTree.Swing.{swung_left, swung_right, black_root}

-- The same nodes in the same order.
regroup_left :
    (a b c d : List ℕ) (p z g : ℕ)
    → (a ++ p ∷ (b ++ z ∷ c)) ++ g ∷ d ≡ (a ++ p ∷ b) ++ z ∷ (c ++ g ∷ d)
regroup_left a b c d p z g = simp append_assoc

regroup_right :
    (a b c d : List ℕ) (g z p : ℕ)
    → a ++ g ∷ ((b ++ z ∷ c) ++ p ∷ d) ≡ (a ++ g ∷ b) ++ z ∷ (c ++ p ∷ d)
regroup_right a b c d g z p = simp append_assoc

-- A black uncle: the rotations, and the round behind them.
module _ (rank : ℕ → ℕ) (nil fuel : ℕ) (k : Above) (s : Nodes) (lo hi g par n z p : ℕ)
    (l r sib v : Tree) (u : UnderRed z p s) where
  pub sideward_left-outer :
      IsTree rank nil s lo hi g par (node false (node true (node true l z r) p sib) g v)
      → IsAbove rank nil s lo hi g par k
      → IsBlack l × IsBlack r × IsBlack sib × Unit {0} × IsBlack v
      → Balanced n l × Balanced n r × Balanced n sib × Balanced n v
      → AboveBalanced (suc n) k
      → s.red nil ≡ false
      → Gives rank nil
          (low k lo)
          (high k hi)
          (around k (((flatten l ++ z ∷ flatten r) ++ p ∷ flatten sib) ++ g ∷ flatten v))
          (insert_balance nil (suc (suc fuel)) z s)
  sideward_left-outer (h, hl, hr) hk bs b up e =
      let ne : s.rights p ≢ z =
        first-ne rank nil s (suc (rank p)) (rank g) (s.rights p) p z sib hl.2 hl.1.0.1
          (inl (omega (arith, hl.1.0.5))) in
      let s' = rotate right nil g (paint true g (paint false p s)) in
      let turn =
        insert_turn-outer nil fuel z p g left s u.apart u.up hl.0.3 u.red
          (ap side_of (eq→== p (s.lefts g) (sym hl.0.0))) (λ d. ne (sym d)) in
      let step =
        insert_balance-sideward nil (suc fuel) z p g left s u.apart u.up hl.0.3 u.red
          (ap side_of (eq→== p (s.lefts g) (sym hl.0.0)))
          (black_root rank nil s (suc (rank g)) hi (s.rights g) g v hr bs.4 e) in
      let (t', k', e') =
        swung_left rank nil k s lo hi g par (node true l z r) p sib v (h, hl, hr) hk e in
      subst
        (Gives rank nil (low k lo) (high k hi)
          (around k (((flatten l ++ z ∷ flatten r) ++ p ∷ flatten sib) ++ g ∷ flatten v)))
        (sym (step ∙ ap (λ w. insert_balance nil (suc fuel) w.0 w.1) turn))
        (subst
          (λ ys.
            Gives rank nil (low k lo) (high k hi) (around k ys)
              (insert_balance nil (suc fuel) z s'))
          (sym (append_assoc (flatten l ++ z ∷ flatten r) (p ∷ flatten sib) (g ∷ flatten v)))
          (settled_left rank nil fuel s' lo hi p par n z l r (node true sib g v) k t' k'
            ((bs.0, bs.1, b.0, b.1), (bs.2, bs.4, b.2, b.3)) up e'))

  pub sideward_right-outer :
      IsTree rank nil s lo hi g par (node false v g (node true sib p (node true l z r)))
      → IsAbove rank nil s lo hi g par k
      → IsBlack l × IsBlack r × IsBlack sib × Unit {0} × IsBlack v
      → Balanced n l × Balanced n r × Balanced n sib × Balanced n v
      → AboveBalanced (suc n) k
      → s.red nil ≡ false
      → Gives rank nil
          (low k lo)
          (high k hi)
          (around k (flatten v ++ g ∷ (flatten sib ++ p ∷ (flatten l ++ z ∷ flatten r))))
          (insert_balance nil (suc (suc fuel)) z s)
  sideward_right-outer (h, hl, hr) hk bs b up e =
      let ne : s.lefts p ≢ z =
        first-ne rank nil s (suc (rank g)) (rank p) (s.lefts p) p z sib hr.1 hr.2.0.1
          (inr (omega (arith, hr.2.0.4))) in
      let s' = rotate left nil g (paint true g (paint false p s)) in
      let turn =
        insert_turn-outer nil fuel z p g right s u.apart u.up hr.0.3 u.red
          (ap side_of (
            ne→== p (s.lefts g) (λ d.
              first-ne rank nil s lo (rank g) (s.lefts g) g p v hl hr.0.1
                (inr (omega (arith, hr.0.4))) (sym d))))
          (λ d. ne (sym d)) in
      let step =
        insert_balance-sideward nil (suc fuel) z p g right s u.apart u.up hr.0.3 u.red
          (ap side_of (
            ne→== p (s.lefts g) (λ d.
              first-ne rank nil s lo (rank g) (s.lefts g) g p v hl hr.0.1
                (inr (omega (arith, hr.0.4))) (sym d))))
          (black_root rank nil s lo (rank g) (s.lefts g) g v hl bs.4 e) in
      let (t', k', e') =
        swung_right rank nil k s lo hi g par sib p (node true l z r) v (h, hl, hr) hk e in
      subst
        (Gives rank nil (low k lo) (high k hi)
          (around k (flatten v ++ g ∷ (flatten sib ++ p ∷ (flatten l ++ z ∷ flatten r)))))
        (sym (step ∙ ap (λ w. insert_balance nil (suc fuel) w.0 w.1) turn))
        (subst
          (λ ys.
            Gives rank nil (low k lo) (high k hi) (around k ys)
              (insert_balance nil (suc fuel) z s'))
          (sym
            (sym (append_assoc (flatten v) (g ∷ flatten sib) (p ∷ (flatten l ++ z ∷ flatten r)))))
          (settled_right rank nil fuel s' lo hi p par n z l r (node true v g sib) k t' k'
            ((bs.4, bs.2, b.3, b.2), (bs.0, bs.1, b.0, b.1)) up e'))

  pub sideward_left-inner :
      IsTree rank nil s lo hi g par (node false (node true sib p (node true l z r)) g v)
      → IsAbove rank nil s lo hi g par k
      → IsBlack l × IsBlack r × IsBlack sib × Unit {0} × IsBlack v
      → Balanced n l × Balanced n r × Balanced n sib × Balanced n v
      → AboveBalanced (suc n) k
      → s.red nil ≡ false
      → Gives rank nil
          (low k lo)
          (high k hi)
          (around k ((flatten sib ++ p ∷ (flatten l ++ z ∷ flatten r)) ++ g ∷ flatten v))
          (insert_balance nil (suc (suc fuel)) z s)
  sideward_left-inner (h, hl, hr) hk bs b up e =
      let tp : IsTree rank nil s lo (rank g) p g (node true sib p (node true l z r)) =
        subst (λ q. IsTree rank nil s lo (rank g) q g (node true sib p (node true l z r))) hl.0.0
          hl in
      let kp =
        (descend_left rank nil s lo hi g par false (node true sib p (node true l z r)) g v k
          (h, hl, hr) hk).1 in
      let kp' : IsAbove rank nil s lo (rank g) p g (under left false g v hi k) =
        subst (λ q. IsAbove rank nil s lo (rank g) q g (under left false g v hi k)) hl.0.0 kp in
      let s1 = rotate left nil p s in
      let (t1, k1) =
        left_rotate-IsTree rank nil s lo (rank g) p z g true true sib l r
          (under left false g v hi k) tp kp' in
      let (t2, k2) =
        climb_left rank nil s1 lo (rank g) z g (node true (node true sib p l) z r) false g v hi k t1
          k1 in
      let s' = rotate right nil g (paint true g (paint false z s1)) in
      let on : side_of (p == s.lefts g) ≡ left = ap side_of (eq→== p (s.lefts g) (sym hl.0.0)) in
      let turn =
        insert_turn-inner nil fuel z p g left s u.apart u.up hl.0.3 u.red on (sym hl.2.0.0) t1.1.0.3
          t1.0.3 in
      let step =
        insert_balance-sideward nil (suc fuel) z p g left s u.apart u.up hl.0.3 u.red on
          (black_root rank nil s (suc (rank g)) hi (s.rights g) g v hr bs.4 e) in
      let (t', k', e') =
        swung_left rank nil k s1 lo hi g (s1.parent g) (node true sib p l) z r v t2 k2
          (ap (λ f. f nil) (rotate-red left nil p s) ∙ e) in
      subst
        (Gives rank nil (low k lo) (high k hi)
          (around k ((flatten sib ++ p ∷ (flatten l ++ z ∷ flatten r)) ++ g ∷ flatten v)))
        (sym (step ∙ ap (λ w. insert_balance nil (suc fuel) w.0 w.1) turn))
        (subst
          (λ ys.
            Gives rank nil (low k lo) (high k hi) (around k ys)
              (insert_balance nil (suc fuel) p s'))
          (sym (regroup_left (flatten sib) (flatten l) (flatten r) (flatten v) p z g))
          (settled_left rank nil fuel s' lo hi z (s1.parent g) n p sib l (node true r g v) k t' k'
            ((bs.2, bs.0, b.2, b.0), (bs.1, bs.4, b.1, b.3)) up e'))

  pub sideward_right-inner :
      IsTree rank nil s lo hi g par (node false v g (node true (node true l z r) p sib))
      → IsAbove rank nil s lo hi g par k
      → IsBlack l × IsBlack r × IsBlack sib × Unit {0} × IsBlack v
      → Balanced n l × Balanced n r × Balanced n sib × Balanced n v
      → AboveBalanced (suc n) k
      → s.red nil ≡ false
      → Gives rank nil
          (low k lo)
          (high k hi)
          (around k (flatten v ++ g ∷ ((flatten l ++ z ∷ flatten r) ++ p ∷ flatten sib)))
          (insert_balance nil (suc (suc fuel)) z s)
  sideward_right-inner (h, hl, hr) hk bs b up e =
      let tp : IsTree rank nil s (suc (rank g)) hi p g (node true (node true l z r) p sib) =
        subst (λ q. IsTree rank nil s (suc (rank g)) hi q g (node true (node true l z r) p sib))
          hr.0.0 hr in
      let kp =
        (descend_right rank nil s lo hi g par false v g (node true (node true l z r) p sib) k
          (h, hl, hr) hk).1 in
      let kp' : IsAbove rank nil s (suc (rank g)) hi p g (under right false g v lo k) =
        subst (λ q. IsAbove rank nil s (suc (rank g)) hi q g (under right false g v lo k)) hr.0.0
          kp in
      let s1 = rotate right nil p s in
      let (t1, k1) =
        right_rotate-IsTree rank nil s (suc (rank g)) hi p z g true true l r sib
          (under right false g v lo k) tp kp' in
      let (t2, k2) =
        climb_right rank nil s1 (suc (rank g)) hi z g (node true l z (node true r p sib)) false g v
          lo k t1 k1 in
      let s' = rotate left nil g (paint true g (paint false z s1)) in
      let on : side_of (p == s.lefts g) ≡ right = ap side_of (
        ne→== p (s.lefts g) (λ d.
          first-ne rank nil s lo (rank g) (s.lefts g) g p v hl hr.0.1 (inr (omega (arith, hr.0.4)))
            (sym d))) in
      let turn =
        insert_turn-inner nil fuel z p g right s u.apart u.up hr.0.3 u.red on (sym hr.1.0.0)
          t1.2.0.3 t1.0.3 in
      let step =
        insert_balance-sideward nil (suc fuel) z p g right s u.apart u.up hr.0.3 u.red on
          (black_root rank nil s lo (rank g) (s.lefts g) g v hl bs.4 e) in
      let (t', k', e') =
        swung_right rank nil k s1 lo hi g (s1.parent g) l z (node true r p sib) v t2 k2
          (ap (λ f. f nil) (rotate-red right nil p s) ∙ e) in
      subst
        (Gives rank nil (low k lo) (high k hi)
          (around k (flatten v ++ g ∷ ((flatten l ++ z ∷ flatten r) ++ p ∷ flatten sib))))
        (sym (step ∙ ap (λ w. insert_balance nil (suc fuel) w.0 w.1) turn))
        (subst
          (λ ys.
            Gives rank nil (low k lo) (high k hi) (around k ys)
              (insert_balance nil (suc fuel) p s'))
          (sym (regroup_right (flatten v) (flatten l) (flatten r) (flatten sib) g z p))
          (settled_right rank nil fuel s' lo hi z (s1.parent g) n p r sib (node true v g l) k t' k'
            ((bs.4, bs.0, b.3, b.0), (bs.1, bs.2, b.1, b.2)) up e'))
