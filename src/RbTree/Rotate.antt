-- ===== src/RbTree/Rotate.antt =====
-- `yf_rbtree_left_rotate` and `yf_rbtree_right_rotate` on a part of the tree.
use yifei.Prelude.{
  ℕ, ◌≤◌, ◌<◌, ◌≡◌, ◌≢◌, refl, sym, ap, ◌∙◌, arith, ◌⊎◌, inl, inr, ◌==◌, Bool-cases, ==→eq,
}
use yifei.RbTree.{
  Side, left, right, other, Nodes, child, set_child, put, relink, adopt, rotate_down, rotate_with,
}
use yifei.RbTree.Shape.{Above, IsAbove, Same, IsAbove-Same}
use yifei.RbTree.Relink.{put_self, put_ne, Within, relink-IsAbove}

-- `x` takes the inner child `i` of `y`, whose parent becomes that of `x`.
record Adopted (nil x y i : ℕ) (s w : Nodes) : Type 0 where
  root : w.root ≡ s.root
  red : w.red ≡ s.red
  lefts : w.lefts ≡ s.lefts
  rights : w.rights ≡ s.rights
  above : i ≢ x → w.parent y ≡ s.parent x
  moved : i ≢ nil → i ≢ y → w.parent i ≡ x
  parents : (q : ℕ) → q ≢ y → q ≢ i → w.parent q ≡ s.parent q

adopt-Adopted : (nil x y i : ℕ) (s : Nodes) → Adopted nil x y i s (adopt nil x y i s)
unfolding adopt
adopt-Adopted nil x y i s = elim (Bool-cases (i == nil)) [
  | inl e ↦ rw e (record {
    root = refl;
    red = refl;
    lefts = refl;
    rights = refl;
    above = λ n. put_self s.parent y (s.parent x);
    moved = λ n m. absurd (n (==→eq i nil e));
    parents = λ q n m. put_ne s.parent y (s.parent x) q (λ d. n (sym d));
  })
  | inr e ↦
      let f = put s.parent i x in
      rw e (record {
        root = refl;
        red = refl;
        lefts = refl;
        rights = refl;
        above = λ n. put_self f y (f x) ∙ put_ne s.parent i x x n;
        moved = λ n m. put_ne f y (f x) i (λ d. m (sym d)) ∙ put_self s.parent i x;
        parents =
            λ q n m. put_ne f y (f x) q (λ d. n (sym d)) ∙ put_ne s.parent i x q (λ d. m (sym d));
      })
]

-- The nodes of a part behind a rotation that brings `y` up over `x`, with the inner child `i`.
pub record Turned (rank : ℕ → ℕ) (side : Side) (nil lo hi x y i par : ℕ) (s f : Nodes)
    : Type 0 where
  pub lower : child side f y ≡ x
  pub outer : (q : ℕ) → lo ≤ rank q → rank q < hi → q ≢ y → child side f q ≡ child side s q
  pub taken : child (other side) f x ≡ i
  pub far :
      (q : ℕ) → lo ≤ rank q → rank q < hi → q ≢ x → child (other side) f q ≡ child (other side) s q
  pub up : f.parent x ≡ y
  pub above : f.parent y ≡ par
  pub moved : i ≢ nil → f.parent i ≡ x
  pub parents : (q : ℕ) → q ≢ x → q ≢ y → q ≢ i → f.parent q ≡ s.parent q
  pub red : (q : ℕ) → lo ≤ rank q → rank q < hi → f.red q ≡ s.red q

module _ (rank : ℕ → ℕ) (nil lo hi : ℕ) where
  outside-ne : (x q : ℕ) → Within rank nil lo hi x → (rank q < lo) ⊎ (hi ≤ rank q) → q ≢ x
  outside-ne x q w (inl a) d = omega (arith, ap rank d, w.from)
  outside-ne x q w (inr a) d = omega (arith, ap rank d, w.below)

  pub inner-ne :
      (i q : ℕ)
      → (i ≡ nil) ⊎ Within rank nil lo hi i
      → q ≢ nil
      → (rank q < lo) ⊎ (hi ≤ rank q)
      → q ≢ i
  inner-ne i q (inl e) n o d = n (d ∙ e)
  inner-ne i q (inr w) n o d = outside-ne i q w o d

module _ (rank : ℕ → ℕ) (nil lo hi x y par : ℕ) (s : Nodes) (k : Above)
    (wx : Within rank nil lo hi x) (wy : Within rank nil lo hi y) (e : x ≢ y)
    (up : s.parent x ≡ par) where
  pub rotate-Turned :
      (side : Side)
      → child side s y ≢ x
      → child side s y ≢ y
      → (child side s y ≡ nil) ⊎ Within rank nil lo hi (child side s y)
      → IsAbove rank nil s lo hi x par k
      → Turned rank side nil lo hi x y (child side s y) par s (rotate_with side nil x y s)
        × IsAbove rank nil (rotate_with side nil x y s) lo hi y par k
  unfolding rotate_with rotate_down
  rotate-Turned left ix iy bound h =
      let i = s.lefts y in
      let s1 = set_child right x i s in
      let w = adopt nil x y i s1 in
      let a = adopt-Adopted nil x y i s1 in
      let same : (q : ℕ) → q ≢ nil → (rank q < lo) ⊎ (hi ≤ rank q) → Same s w q = λ q n o. record {
        lefts = ap (λ g. g q) a.lefts;
        rights =
            ap (λ g. g q) a.rights
            ∙ put_ne s.rights x i q (λ d. outside-ne rank nil lo hi x q wx o (sym d));
        parent =
            a.parents q (outside-ne rank nil lo hi y q wy o)
              (inner-ne rank nil lo hi i q bound n o);
        red = ap (λ g. g q) a.red;
      } in
      let h' : IsAbove rank nil w lo hi x par k =
        IsAbove-Same rank nil s w lo hi x par k a.root same h in
      let (k', r) =
        relink-IsAbove rank nil left w lo hi x y par k wx (a.parents x e (λ d. ix (sym d)) ∙ up)
          h' in
      let v = relink left x y w in
      (
        record {
          lower = put_self v.lefts y x;
          outer = λ q b c n.
              put_ne v.lefts y x q (λ d. n (sym d)) ∙ (r.same q b c).lefts ∙ ap (λ g. g q) a.lefts;
          taken =
              (r.same x wx.from wx.below).rights ∙ ap (λ g. g x) a.rights ∙ put_self s.rights x i;
          far = λ q b c n.
              (r.same q b c).rights
              ∙ ap (λ g. g q) a.rights
              ∙ put_ne s.rights x i q (λ d. n (sym d));
          up = put_self v.parent x y;
          above = put_ne v.parent x y y e ∙ r.parent y ∙ a.above ix ∙ up;
          moved = λ n. put_ne v.parent x y i (λ d. ix (sym d)) ∙ r.parent i ∙ a.moved n iy;
          parents =
              λ q m n o. put_ne v.parent x y q (λ d. m (sym d)) ∙ r.parent q ∙ a.parents q n o;
          red = λ q b c. (r.same q b c).red ∙ ap (λ g. g q) a.red;
        },
        IsAbove-Same rank nil v _ lo hi y par k refl
            (λ q n o. record {
              lefts = put_ne v.lefts y x q (λ d. outside-ne rank nil lo hi y q wy o (sym d));
              rights = refl;
              parent = put_ne v.parent x y q (λ d. outside-ne rank nil lo hi x q wx o (sym d));
              red = refl;
            })
            k',
      )
  rotate-Turned right ix iy bound h =
      let i = s.rights y in
      let s1 = set_child left x i s in
      let w = adopt nil x y i s1 in
      let a = adopt-Adopted nil x y i s1 in
      let same : (q : ℕ) → q ≢ nil → (rank q < lo) ⊎ (hi ≤ rank q) → Same s w q = λ q n o. record {
        rights = ap (λ g. g q) a.rights;
        lefts =
            ap (λ g. g q) a.lefts
            ∙ put_ne s.lefts x i q (λ d. outside-ne rank nil lo hi x q wx o (sym d));
        parent =
            a.parents q (outside-ne rank nil lo hi y q wy o)
              (inner-ne rank nil lo hi i q bound n o);
        red = ap (λ g. g q) a.red;
      } in
      let h' : IsAbove rank nil w lo hi x par k =
        IsAbove-Same rank nil s w lo hi x par k a.root same h in
      let (k', r) =
        relink-IsAbove rank nil right w lo hi x y par k wx (a.parents x e (λ d. ix (sym d)) ∙ up)
          h' in
      let v = relink right x y w in
      (
        record {
          lower = put_self v.rights y x;
          outer = λ q b c n.
              put_ne v.rights y x q (λ d. n (sym d))
              ∙ (r.same q b c).rights
              ∙ ap (λ g. g q) a.rights;
          taken = (r.same x wx.from wx.below).lefts ∙ ap (λ g. g x) a.lefts ∙ put_self s.lefts x i;
          far = λ q b c n.
              (r.same q b c).lefts ∙ ap (λ g. g q) a.lefts ∙ put_ne s.lefts x i q (λ d. n (sym d));
          up = put_self v.parent x y;
          above = put_ne v.parent x y y e ∙ r.parent y ∙ a.above ix ∙ up;
          moved = λ n. put_ne v.parent x y i (λ d. ix (sym d)) ∙ r.parent i ∙ a.moved n iy;
          parents =
              λ q m n o. put_ne v.parent x y q (λ d. m (sym d)) ∙ r.parent q ∙ a.parents q n o;
          red = λ q b c. (r.same q b c).red ∙ ap (λ g. g q) a.red;
        },
        IsAbove-Same rank nil v _ lo hi y par k refl
            (λ q n o. record {
              rights = put_ne v.rights y x q (λ d. outside-ne rank nil lo hi y q wy o (sym d));
              lefts = refl;
              parent = put_ne v.parent x y q (λ d. outside-ne rank nil lo hi x q wx o (sym d));
              red = refl;
            })
            k',
      )
