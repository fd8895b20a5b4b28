-- ===== src/RbTree/Balance.antt =====
-- The loop of `__yf_rbtree_insert` makes a red-black tree of one whose new node is red.
use yifei.Prelude.{ℕ, zero, suc, ◌<◌, ◌≡◌, sym, ◌∙◌, subst, arith, true, false, ◌∷◌, ◌++◌}
use yifei.RbTree.{Side, left, right, Nodes}
use yifei.RbTree.Shape.{Tree, leaf, node, flatten, IsTree, Above, top, under, around, IsAbove}
use yifei.RbTree.Relink.{Within, root-ne}
use yifei.RbTree.Colour.{low, high, depth}
use yifei.RbTree.Climb.{climb_left, climb_right}
use yifei.RbTree.Rounds.{insert_balance-at_root}
use yifei.RbTree.Settle.{Gives, ended-Gives, insert_balance-ended}
use yifei.RbTree.Upward.{Repairs, UnderRed, upward_left, upward_right}
use yifei.RbTree.Sideward.{
  sideward_left-outer, sideward_left-inner, sideward_right-outer, sideward_right-inner,
}

module _ (rank : ℕ → ℕ) (nil : ℕ) where
  under_red :
      (s : Nodes) (lo hi z par : ℕ) (l r : Tree) (d : Side) (p : ℕ) (sib : Tree) (b : ℕ) (k : Above)
      → IsTree rank nil s lo hi z par (node true l z r)
      → IsAbove rank nil s lo hi z par (under d true p sib b k)
      → UnderRed z p s
  under_red s lo hi z par l r left p sib b k ht hk =
      let w : Within rank nil lo hi z = record { real = ht.0.1; from = ht.0.4; below = ht.0.5 } in
      record {
        apart = root-ne rank nil s lo hi z par z left true p sib b k hk w;
        up = ht.0.3 ∙ hk.0.0;
        red = hk.0.2;
      }
  under_red s lo hi z par l r right p sib b k ht hk =
      let w : Within rank nil lo hi z = record { real = ht.0.1; from = ht.0.4; below = ht.0.5 } in
      record {
        apart = root-ne rank nil s lo hi z par z right true p sib b k hk w;
        up = ht.0.3 ∙ hk.0.0;
        red = hk.0.2;
      }

  under_black :
      (fuel : ℕ) (d : Side) (p : ℕ) (sib : Tree) (b : ℕ) (k : Above)
      → Repairs rank nil (suc fuel) (under d false p sib b k)
  under_black fuel d p sib b k s lo hi z par l r n ht hk bs a e =
      subst
        (Gives rank nil (low (under d false p sib b k) lo) (high (under d false p sib b k) hi)
          (around (under d false p sib b k) (flatten l ++ z ∷ flatten r)))
        (sym (insert_balance-ended rank nil fuel z p s (ht.0.3 ∙ (up d hk).0) (up d hk).1))
        (ended-Gives rank nil s lo hi z par n (node true l z r) (under d false p sib b k) ht hk tt
          bs a e)
    where
      up :
          (d : Side)
          → IsAbove rank nil s lo hi z par (under d false p sib b k)
          → (par ≡ p) × (s.red p ≡ false)
      up left h = (h.0.0, h.0.2)
      up right h = (h.0.0, h.0.2)

  -- Enough fuel is a round for each node above, and one.
  pub insert_balance-Gives : (k : Above) (fuel : ℕ) → depth k < fuel → Repairs rank nil fuel k
  insert_balance-Gives top zero f = absurd (omega arith)
  insert_balance-Gives top (suc fuel) f = λ s lo hi z par l r n ht hk bs a e.
      subst (Gives rank nil lo hi (flatten l ++ z ∷ flatten r))
        (sym (insert_balance-at_root nil fuel z s hk.0))
        (ended-Gives rank nil s lo hi z par n (node true l z r) top ht hk tt bs tt e)
  insert_balance-Gives (under d false p sib b k) zero f = absurd (omega arith)
  insert_balance-Gives (under d false p sib b k) (suc fuel) f = under_black fuel d p sib b k
  insert_balance-Gives (under d true p sib b top) fuel f =
      λ s lo hi z par l r n ht hk bs a e. absurd a.2
  insert_balance-Gives (under d true p sib b (under d' true g u b' k)) fuel f =
      λ s lo hi z par l r n ht hk bs a e. absurd a.2
  insert_balance-Gives (under d true p sib b (under d' false g u b' k)) zero f =
      absurd (omega arith)
  insert_balance-Gives (under d true p sib b (under d' false g u b' k)) (suc zero) f =
      absurd (omega arith)
  insert_balance-Gives (under left true p sib b (under left false g leaf b' k)) (suc (suc fuel)) f =
      λ s lo hi z par l r n ht hk bs a e.
        let (tp, kp) =
          climb_left rank nil s lo hi z par (node true l z r) true p sib b
            (under left false g leaf b' k) ht hk in
        let (tg, kg) =
          climb_left rank nil s lo b p (s.parent p) (node true (node true l z r) p sib) false g leaf
            b' k tp kp in
        let w = under_red s lo hi z par l r left p sib b (under left false g leaf b' k) ht hk in
        sideward_left-outer rank nil fuel k s lo b' g (s.parent g) n z p l r sib leaf w tg kg
          (bs.0, bs.1, a.0, tt, tt) (bs.2, bs.3, a.1, a.3.0) a.3.1 e
  insert_balance-Gives (under left true p sib b (under left false g (node true ul y ur) b' k))
        (suc (suc fuel)) f =
      λ s lo hi z par l r n ht hk bs a e.
        let (tp, kp) =
          climb_left rank nil s lo hi z par (node true l z r) true p sib b
            (under left false g (node true ul y ur) b' k) ht hk in
        let (tg, kg) =
          climb_left rank nil s lo b p (s.parent p) (node true (node true l z r) p sib) false g
            (node true ul y ur) b' k tp kp in
        let w =
          under_red s lo hi z par l r left p sib b (under left false g (node true ul y ur) b' k) ht
            hk in
        upward_left rank nil (suc fuel) k (insert_balance-Gives k (suc fuel) (omega arith)) s lo b'
          g (s.parent g) n z p (node true l z r) sib ul ur y w tg kg bs a.1 a.3.0 a.3.1 e
  insert_balance-Gives (under left true p sib b (under left false g (node false ul y ur) b' k))
        (suc (suc fuel)) f =
      λ s lo hi z par l r n ht hk bs a e.
        let (tp, kp) =
          climb_left rank nil s lo hi z par (node true l z r) true p sib b
            (under left false g (node false ul y ur) b' k) ht hk in
        let (tg, kg) =
          climb_left rank nil s lo b p (s.parent p) (node true (node true l z r) p sib) false g
            (node false ul y ur) b' k tp kp in
        let w =
          under_red s lo hi z par l r left p sib b (under left false g (node false ul y ur) b' k) ht
            hk in
        sideward_left-outer rank nil fuel k s lo b' g (s.parent g) n z p l r sib
          (node false ul y ur) w tg kg (bs.0, bs.1, a.0, tt, tt) (bs.2, bs.3, a.1, a.3.0) a.3.1 e
  insert_balance-Gives (under left true p sib b (under right false g leaf b' k)) (suc (suc fuel))
        f =
      λ s lo hi z par l r n ht hk bs a e.
        let (tp, kp) =
          climb_left rank nil s lo hi z par (node true l z r) true p sib b
            (under right false g leaf b' k) ht hk in
        let (tg, kg) =
          climb_right rank nil s lo b p (s.parent p) (node true (node true l z r) p sib) false g
            leaf b' k tp kp in
        let w = under_red s lo hi z par l r left p sib b (under right false g leaf b' k) ht hk in
        sideward_right-inner rank nil fuel k s b' b g (s.parent g) n z p l r sib leaf w tg kg
          (bs.0, bs.1, a.0, tt, tt) (bs.2, bs.3, a.1, a.3.0) a.3.1 e
  insert_balance-Gives (under left true p sib b (under right false g (node true ul y ur) b' k))
        (suc (suc fuel)) f =
      λ s lo hi z par l r n ht hk bs a e.
        let (tp, kp) =
          climb_left rank nil s lo hi z par (node true l z r) true p sib b
            (under right false g (node true ul y ur) b' k) ht hk in
        let (tg, kg) =
          climb_right rank nil s lo b p (s.parent p) (node true (node true l z r) p sib) false g
            (node true ul y ur) b' k tp kp in
        let w =
          under_red s lo hi z par l r left p sib b (under right false g (node true ul y ur) b' k) ht
            hk in
        upward_right rank nil (suc fuel) k (insert_balance-Gives k (suc fuel) (omega arith)) s b' b
          g (s.parent g) n z p (node true l z r) sib ul ur y w tg kg bs a.1 a.3.0 a.3.1 e
  insert_balance-Gives (under left true p sib b (under right false g (node false ul y ur) b' k))
        (suc (suc fuel)) f =
      λ s lo hi z par l r n ht hk bs a e.
        let (tp, kp) =
          climb_left rank nil s lo hi z par (node true l z r) true p sib b
            (under right false g (node false ul y ur) b' k) ht hk in
        let (tg, kg) =
          climb_right rank nil s lo b p (s.parent p) (node true (node true l z r) p sib) false g
            (node false ul y ur) b' k tp kp in
        let w =
          under_red s lo hi z par l r left p sib b (under right false g (node false ul y ur) b' k)
            ht hk in
        sideward_right-inner rank nil fuel k s b' b g (s.parent g) n z p l r sib
          (node false ul y ur) w tg kg (bs.0, bs.1, a.0, tt, tt) (bs.2, bs.3, a.1, a.3.0) a.3.1 e
  insert_balance-Gives (under right true p sib b (under left false g leaf b' k)) (suc (suc fuel))
        f =
      λ s lo hi z par l r n ht hk bs a e.
        let (tp, kp) =
          climb_right rank nil s lo hi z par (node true l z r) true p sib b
            (under left false g leaf b' k) ht hk in
        let (tg, kg) =
          climb_left rank nil s b hi p (s.parent p) (node true sib p (node true l z r)) false g leaf
            b' k tp kp in
        let w = under_red s lo hi z par l r right p sib b (under left false g leaf b' k) ht hk in
        sideward_left-inner rank nil fuel k s b b' g (s.parent g) n z p l r sib leaf w tg kg
          (bs.0, bs.1, a.0, tt, tt) (bs.2, bs.3, a.1, a.3.0) a.3.1 e
  insert_balance-Gives (under right true p sib b (under left false g (node true ul y ur) b' k))
        (suc (suc fuel)) f =
      λ s lo hi z par l r n ht hk bs a e.
        let (tp, kp) =
          climb_right rank nil s lo hi z par (node true l z r) true p sib b
            (under left false g (node true ul y ur) b' k) ht hk in
        let (tg, kg) =
          climb_left rank nil s b hi p (s.parent p) (node true sib p (node true l z r)) false g
            (node true ul y ur) b' k tp kp in
        let w =
          under_red s lo hi z par l r right p sib b (under left false g (node true ul y ur) b' k) ht
            hk in
        upward_left rank nil (suc fuel) k (insert_balance-Gives k (suc fuel) (omega arith)) s b b' g
          (s.parent g) n z p sib (node true l z r) ul ur y w tg kg a.1 bs a.3.0 a.3.1 e
  insert_balance-Gives (under right true p sib b (under left false g (node false ul y ur) b' k))
        (suc (suc fuel)) f =
      λ s lo hi z par l r n ht hk bs a e.
        let (tp, kp) =
          climb_right rank nil s lo hi z par (node true l z r) true p sib b
            (under left false g (node false ul y ur) b' k) ht hk in
        let (tg, kg) =
          climb_left rank nil s b hi p (s.parent p) (node true sib p (node true l z r)) false g
            (node false ul y ur) b' k tp kp in
        let w =
          under_red s lo hi z par l r right p sib b (under left false g (node false ul y ur) b' k)
            ht hk in
        sideward_left-inner rank nil fuel k s b b' g (s.parent g) n z p l r sib (node false ul y ur)
          w tg kg (bs.0, bs.1, a.0, tt, tt) (bs.2, bs.3, a.1, a.3.0) a.3.1 e
  insert_balance-Gives (under right true p sib b (under right false g leaf b' k)) (suc (suc fuel))
        f =
      λ s lo hi z par l r n ht hk bs a e.
        let (tp, kp) =
          climb_right rank nil s lo hi z par (node true l z r) true p sib b
            (under right false g leaf b' k) ht hk in
        let (tg, kg) =
          climb_right rank nil s b hi p (s.parent p) (node true sib p (node true l z r)) false g
            leaf b' k tp kp in
        let w = under_red s lo hi z par l r right p sib b (under right false g leaf b' k) ht hk in
        sideward_right-outer rank nil fuel k s b' hi g (s.parent g) n z p l r sib leaf w tg kg
          (bs.0, bs.1, a.0, tt, tt) (bs.2, bs.3, a.1, a.3.0) a.3.1 e
  insert_balance-Gives (under right true p sib b (under right false g (node true ul y ur) b' k))
        (suc (suc fuel)) f =
      λ s lo hi z par l r n ht hk bs a e.
        let (tp, kp) =
          climb_right rank nil s lo hi z par (node true l z r) true p sib b
            (under right false g (node true ul y ur) b' k) ht hk in
        let (tg, kg) =
          climb_right rank nil s b hi p (s.parent p) (node true sib p (node true l z r)) false g
            (node true ul y ur) b' k tp kp in
        let w =
          under_red s lo hi z par l r right p sib b (under right false g (node true ul y ur) b' k)
            ht hk in
        upward_right rank nil (suc fuel) k (insert_balance-Gives k (suc fuel) (omega arith)) s b' hi
          g (s.parent g) n z p sib (node true l z r) ul ur y w tg kg a.1 bs a.3.0 a.3.1 e
  insert_balance-Gives (under right true p sib b (under right false g (node false ul y ur) b' k))
        (suc (suc fuel)) f =
      λ s lo hi z par l r n ht hk bs a e.
        let (tp, kp) =
          climb_right rank nil s lo hi z par (node true l z r) true p sib b
            (under right false g (node false ul y ur) b' k) ht hk in
        let (tg, kg) =
          climb_right rank nil s b hi p (s.parent p) (node true sib p (node true l z r)) false g
            (node false ul y ur) b' k tp kp in
        let w =
          under_red s lo hi z par l r right p sib b (under right false g (node false ul y ur) b' k)
            ht hk in
        sideward_right-outer rank nil fuel k s b' hi g (s.parent g) n z p l r sib
          (node false ul y ur) w tg kg (bs.0, bs.1, a.0, tt, tt) (bs.2, bs.3, a.1, a.3.0) a.3.1 e
