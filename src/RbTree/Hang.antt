-- ===== src/RbTree/Hang.antt =====
-- `yf_rbtree_insert_value`: the way down to the place of the new node.
use yifei.Prelude.{
  ℕ, zero, suc, ◌≤◌, ◌<◌, ◌≡◌, ◌≢◌, refl, sym, ap, ◌∙◌, subst, arith, ◌⊎◌, inl, inr, Bool, true,
  false,
}
use yifei.RbTree.{Side, left, right, Nodes, hang, put}
use yifei.RbTree.Shape.{
  Tree, leaf, node, IsTree, Above, top, under, IsAbove, Same, IsTree-Same, IsAbove-Same,
}
use yifei.RbTree.Relink.{put_self, put_ne}
use yifei.RbTree.Colour.{IsBlack, Balanced, TopBlack, AboveBalanced}

-- A part whose first node is black if it is the root or under a red node.
abbrev pub Suits : Tree → Above → Type 0
Suits t top = IsBlack t
Suits t (under d true x sib b k) = IsBlack t
Suits t (under d false x sib b k) = Unit {0}

Suits-TopBlack : (l : Tree) (x : ℕ) (r : Tree) (k : Above) → Suits (node true l x r) k → TopBlack k
Suits-TopBlack l x r top h = elim h [ ]
Suits-TopBlack l x r (under d true y sib b k) h = elim h [ ]
Suits-TopBlack l x r (under d false y sib b k) h = tt

-- The balance of both sides, one node further down.
pub below_left :
    (n : ℕ) (c : Bool) (l : Tree) (x : ℕ) (r : Tree) (hi : ℕ) (k : Above)
    → Balanced n (node c l x r)
    → AboveBalanced n k
    → Suits (node c l x r) k
    → (m : ℕ) × Balanced m l
      × AboveBalanced m (under left c x r hi k)
      × Suits l (under left c x r hi k)
below_left n true l x r hi k b a o = (n, b.2, (b.1, b.3, Suits-TopBlack l x r k o, a), b.0)
below_left zero false l x r hi k b a o = elim b [ ]
below_left (suc n) false l x r hi k b a o = (n, b.0, (b.1, a), tt)

pub below_right :
    (n : ℕ) (c : Bool) (l : Tree) (x : ℕ) (r : Tree) (lo : ℕ) (k : Above)
    → Balanced n (node c l x r)
    → AboveBalanced n k
    → Suits (node c l x r) k
    → (m : ℕ) × Balanced m r
      × AboveBalanced m (under right c x l lo k)
      × Suits r (under right c x l lo k)
below_right n true l x r lo k b a o = (n, b.3, (b.0, b.2, Suits-TopBlack l x r k o, a), b.1)
below_right zero false l x r lo k b a o = elim b [ ]
below_right (suc n) false l x r lo k b a o = (n, b.1, (b.0, a), tt)

module _ (rank : ℕ → ℕ) (nil z : ℕ) (real : z ≢ nil) (s : Nodes) (lo hi x par : ℕ) (c : Bool) where
  -- The nodes that `hang` leaves.
  hang-Same : (side : Side) (q : ℕ) → x ≢ q → z ≢ q → Same s (hang side nil x z s) q
  unfolding hang
  hang-Same left q n m = record {
    lefts = put_ne (put s.lefts x z) z nil q m ∙ put_ne s.lefts x z q n;
    rights = put_ne s.rights z nil q m;
    parent = put_ne s.parent z x q m;
    red = put_ne s.red z true q m;
  }
  hang-Same right q n m = record {
    lefts = put_ne s.lefts z nil q m;
    rights = put_ne (put s.rights x z) z nil q m ∙ put_ne s.rights x z q n;
    parent = put_ne s.parent z x q m;
    red = put_ne s.red z true q m;
  }

  pub hang_left-IsAbove :
      (r : Tree) (k : Above)
      → IsTree rank nil s lo hi x par (node c leaf x r)
      → IsAbove rank nil s lo hi x par k
      → lo ≤ rank z
      → rank z < rank x
      → IsTree rank nil (hang left nil x z s) lo (rank x) z x (node true leaf z leaf)
        × IsAbove rank nil (hang left nil x z s) lo (rank x) z x (under left c x r hi k)
  unfolding hang
  hang_left-IsAbove r k (h, hl, hr) hk a b =
      let s' = hang left nil x z s in
      let zx : z ≢ x = λ e. omega (arith, ap rank e) in
      (
        (
          (refl, real, put_self s.red z true, put_self s.parent z x, a, b),
          put_self (put s.lefts x z) z nil,
          put_self s.rights z nil,
        ),
        (
          (
            refl,
            h.1,
            put_ne s.red z true x zx ∙ h.2,
            put_ne (put s.lefts x z) z nil x zx ∙ put_self s.lefts x z,
            refl,
            omega arith,
            h.5,
          ),
          IsTree-Same rank nil s s' (suc (rank x)) hi (s.rights x) (s'.rights x) x r
              (put_ne s.rights z nil x zx)
              (λ q n l m.
                hang-Same left q (λ e. omega (arith, ap rank e)) (λ e. omega (arith, ap rank e)))
              hr,
          IsAbove-Same rank nil s s' lo hi x (s'.parent x) k refl
              (λ q n o.
                hang-Same left q (outside x q h.4 h.5 o) (outside z q a (omega (arith, h.5)) o))
              (subst (λ u. IsAbove rank nil s lo hi x u k)
                (sym h.3 ∙ sym (put_ne s.parent z x x zx)) hk),
        ),
      )
    where
      outside : (y q : ℕ) → lo ≤ rank y → rank y < hi → (rank q < lo) ⊎ (hi ≤ rank q) → y ≢ q
      outside y q l m (inl o) e = omega (arith, ap rank e)
      outside y q l m (inr o) e = omega (arith, ap rank e)

  pub hang_right-IsAbove :
      (l : Tree) (k : Above)
      → IsTree rank nil s lo hi x par (node c l x leaf)
      → IsAbove rank nil s lo hi x par k
      → rank x < rank z
      → rank z < hi
      → IsTree rank nil (hang right nil x z s) (suc (rank x)) hi z x (node true leaf z leaf)
        × IsAbove rank nil (hang right nil x z s) (suc (rank x)) hi z x (under right c x l lo k)
  unfolding hang
  hang_right-IsAbove l k (h, hl, hr) hk a b =
      let s' = hang right nil x z s in
      let zx : z ≢ x = λ e. omega (arith, ap rank e) in
      (
        (
          (refl, real, put_self s.red z true, put_self s.parent z x, a, b),
          put_self s.lefts z nil,
          put_self (put s.rights x z) z nil,
        ),
        (
          (
            refl,
            h.1,
            put_ne s.red z true x zx ∙ h.2,
            put_ne (put s.rights x z) z nil x zx ∙ put_self s.rights x z,
            refl,
            omega arith,
            omega (arith, h.4),
          ),
          IsTree-Same rank nil s s' lo (rank x) (s.lefts x) (s'.lefts x) x l
              (put_ne s.lefts z nil x zx)
              (λ q n d m.
                hang-Same right q (λ e. omega (arith, ap rank e)) (λ e. omega (arith, ap rank e)))
              hl,
          IsAbove-Same rank nil s s' lo hi x (s'.parent x) k refl
              (λ q n o.
                hang-Same right q (outside x q h.4 h.5 o) (outside z q (omega (arith, h.4)) b o))
              (subst (λ u. IsAbove rank nil s lo hi x u k)
                (sym h.3 ∙ sym (put_ne s.parent z x x zx)) hk),
        ),
      )
    where
      outside : (y q : ℕ) → lo ≤ rank y → rank y < hi → (rank q < lo) ⊎ (hi ≤ rank q) → y ≢ q
      outside y q l m (inl o) e = omega (arith, ap rank e)
      outside y q l m (inr o) e = omega (arith, ap rank e)

pub hang-nil :
    (nil z : ℕ)
    → z ≢ nil
    → (s : Nodes) (x : ℕ) (side : Side) → (hang side nil x z s).red nil ≡ s.red nil
unfolding hang
hang-nil nil z real s x left = put_ne s.red z true nil real
hang-nil nil z real s x right = put_ne s.red z true nil real
