-- ===== src/RbTree/Rounds.antt =====
-- What a round of the loop of `__yf_rbtree_insert` computes to.
use yifei.Prelude.{ℕ, suc, ◌≡◌, ◌≢◌, refl, true, false, ◌==◌, eq→==, ne→==}
use yifei.RbTree.{
  Side, other, Nodes, child, paint, side_of, rotate, inserted, insert_turn, insert_balance,
}

module _ (nil fuel z : ℕ) (s : Nodes) where
  pub insert_balance-at_root :
      z ≡ s.root → insert_balance nil (suc fuel) z s ≡ inserted (paint false s.root s)
  unfolding insert_balance
  insert_balance-at_root e = rw (eq→== z s.root e) refl

  pub insert_balance-under_black :
      z ≢ s.root
      → s.red (s.parent z) ≡ false
      → insert_balance nil (suc fuel) z s ≡ inserted (paint false s.root s)
  unfolding insert_balance
  insert_balance-under_black n e = rw (ne→== z s.root n, e) refl

-- Under a red parent `p`, on the given side of `g`.
module _ (nil fuel z p g : ℕ) (side : Side) (s : Nodes) (n : z ≢ s.root) (up : s.parent z ≡ p)
    (up' : s.parent p ≡ g) (red : s.red p ≡ true) (on : side_of (p == s.lefts g) ≡ side) where
  pub insert_balance-upward :
      s.red (child (other side) s g) ≡ true
      → insert_balance nil (suc fuel) z s
        ≡ insert_balance nil fuel g
            (paint true g (paint false (child (other side) s g) (paint false p s)))
  unfolding insert_balance
  insert_balance-upward e = rw (ne→== z s.root n, up, up', red, on, e) refl

  pub insert_balance-sideward :
      s.red (child (other side) s g) ≡ false
      → insert_balance nil (suc fuel) z s
        ≡ insert_balance nil fuel (insert_turn side nil z s).0 (insert_turn side nil z s).1
  unfolding insert_balance
  insert_balance-sideward e = rw (ne→== z s.root n, up, up', red, on, e) refl

  pub insert_turn-outer :
      z ≢ child (other side) s p
      → insert_turn side nil z s ≡ (z, rotate (other side) nil g (paint true g (paint false p s)))
  unfolding insert_turn
  insert_turn-outer e = rw (up, ne→== z (child (other side) s p) e, up, up') refl

  pub insert_turn-inner :
      z ≡ child (other side) s p
      → (rotate side nil p s).parent p ≡ z
      → (rotate side nil p s).parent z ≡ g
      → insert_turn side nil z s
        ≡ (p, rotate (other side) nil g (paint true g (paint false z (rotate side nil p s))))
  unfolding insert_turn
  insert_turn-inner e u v = rw (up, eq→== z (child (other side) s p) e, u, v) refl
