-- ===== src/RbTree/Turned.antt =====
-- What a rotation leaves of the parts of the tree below it.
use yifei.Prelude.{ℕ, ◌≤◌, ◌<◌, ◌≡◌, ◌≢◌, sym, ap, ◌∙◌, arith, ◌⊎◌, inl, inr}
use yifei.RbTree.{Side, left, right, Nodes}
use yifei.RbTree.Shape.{Tree, leaf, node, IsTree, Same, IsTree-Same, IsTree-reparent}
use yifei.RbTree.Relink.{Within, first-ne}
use yifei.RbTree.Rotate.{Turned, inner-ne}

-- The first node of a tree is `nil` or has one of its ranks.
pub root-Within :
    (rank : ℕ → ℕ) (nil : ℕ) (s : Nodes) (lo hi lo' hi' p par : ℕ) (t : Tree)
    → IsTree rank nil s lo hi p par t
    → lo' ≤ lo
    → hi ≤ hi'
    → (p ≡ nil) ⊎ Within rank nil lo' hi' p
root-Within rank nil s lo hi lo' hi' p par leaf h l m = inl h
root-Within rank nil s lo hi lo' hi' p par (node c a x b) (h, ha, hb) l m = inr (record {
  real = λ e. h.1 (sym h.0 ∙ e);
  from = omega (arith, ap rank h.0);
  below = omega (arith, ap rank h.0);
})

-- The other nodes of the part stay.
Turned-Same :
    (rank : ℕ → ℕ) (side : Side) (nil lo hi x y i par : ℕ) (s f : Nodes)
    → Turned rank side nil lo hi x y i par s f
    → (q : ℕ) → lo ≤ rank q
    → rank q < hi
    → rank q ≢ rank x
    → rank q ≢ rank y
    → q ≢ i
    → Same s f q
Turned-Same rank left nil lo hi x y i par s f t q l h nx ny ni = record {
  lefts = t.outer q l h (λ e. ny (ap rank e));
  rights = t.far q l h (λ e. nx (ap rank e));
  parent = t.parents q (λ e. nx (ap rank e)) (λ e. ny (ap rank e)) ni;
  red = t.red q l h;
}
Turned-Same rank right nil lo hi x y i par s f t q l h nx ny ni = record {
  lefts = t.far q l h (λ e. nx (ap rank e));
  rights = t.outer q l h (λ e. ny (ap rank e));
  parent = t.parents q (λ e. nx (ap rank e)) (λ e. ny (ap rank e)) ni;
  red = t.red q l h;
}

-- The inner tree hangs under the node that went down.
pub Turned-inner :
    (rank : ℕ → ℕ) (side : Side) (nil lo hi x y i par lo' hi' : ℕ) (s f : Nodes) (t : Tree)
    → Turned rank side nil lo hi x y i par s f
    → lo ≤ lo'
    → hi' ≤ hi
    → (rank x < lo') ⊎ (hi' ≤ rank x)
    → (rank y < lo') ⊎ (hi' ≤ rank y)
    → x ≢ nil
    → y ≢ nil
    → IsTree rank nil s lo' hi' i y t
    → IsTree rank nil f lo' hi' i x t
Turned-inner rank side nil lo hi x y i par lo' hi' s f t d l h ox oy nx ny ht =
    IsTree-reparent rank nil s f lo' hi' i y x t d.moved fields
      (λ q n m a b.
        Turned-Same rank side nil lo hi x y i par s f d q (omega arith) (omega arith) (omega arith)
          (omega arith) m)
      ht
  where
    ix : i ≢ x
    ix = first-ne rank nil s lo' hi' i y x t ht nx ox

    iy : i ≢ y
    iy = first-ne rank nil s lo' hi' i y y t ht ny oy

    of_side :
        (side : Side)
        → Turned rank side nil lo hi x y i par s f
        → Within rank nil lo hi i
        → (f.lefts i ≡ s.lefts i) × (f.rights i ≡ s.rights i) × (f.red i ≡ s.red i)
    of_side left t w =
        (t.outer i w.from w.below iy, t.far i w.from w.below ix, t.red i w.from w.below)
    of_side right t w =
        (t.far i w.from w.below ix, t.outer i w.from w.below iy, t.red i w.from w.below)

    fields : i ≢ nil → (f.lefts i ≡ s.lefts i) × (f.rights i ≡ s.rights i) × (f.red i ≡ s.red i)
    fields n = elim (root-Within rank nil s lo' hi' lo hi i y t ht l h) [
      | inl e ↦ absurd (n e)
      | inr w ↦ of_side side d w
    ]

-- An outer tree stays under its node.
pub Turned-outer :
    (rank : ℕ → ℕ) (side : Side) (nil lo hi x y i par lo' hi' li ui p p' z : ℕ) (s f : Nodes)
    (u t : Tree)
    → Turned rank side nil lo hi x y i par s f
    → lo ≤ lo'
    → hi' ≤ hi
    → (rank x < lo') ⊎ (hi' ≤ rank x)
    → (rank y < lo') ⊎ (hi' ≤ rank y)
    → (hi' ≤ li) ⊎ (ui ≤ lo')
    → p' ≡ p
    → IsTree rank nil s li ui i y u
    → IsTree rank nil s lo' hi' p z t
    → IsTree rank nil f lo' hi' p' z t
Turned-outer rank side nil lo hi x y i par lo' hi' li ui p p' z s f u t d l h ox oy apart e hu ht =
    IsTree-Same rank nil s f lo' hi' p p' z t e
      (λ q n a b.
        Turned-Same rank side nil lo hi x y i par s f d q (omega arith) (omega arith) (omega arith)
          (omega arith)
          (inner-ne rank nil li ui i q
            (root-Within rank nil s li ui li ui i y u hu (omega arith) (omega arith)) n
            (omega arith)))
      ht
