-- ===== src/RbTree/Relink.antt =====
-- The link from above to a part of the tree, changed to another node.
use yifei.Prelude.{
  ℕ, suc, ◌≤◌, ◌<◌, ◌≡◌, ◌≢◌, refl, sym, ap, ◌∙◌, subst, arith, ◌⊎◌, inl, inr, Bool, eq→==, ne→==,
}
use yifei.RbTree.{Side, left, right, Nodes, set_child, set_root, put, relink}
use yifei.RbTree.Shape.{
  Tree, leaf, node, IsTree, Above, top, under, IsAbove, Same, IsTree-Same, IsAbove-Same,
}

module _ {ℓ} {A : Type ℓ} (f : ℕ → A) (p : ℕ) (v : A) where
  pub put_self : put f p v p ≡ v
  unfolding put
  put_self = rw (eq→== p p refl) refl

  pub put_ne : (q : ℕ) → p ≢ q → put f p v q ≡ f q
  unfolding put
  put_ne q n = rw (ne→== p q n) refl

relink-top : (side : Side) (x y : ℕ) (s : Nodes) → x ≡ s.root → relink side x y s ≡ set_root y s
unfolding relink
relink-top side x y s e = rw (eq→== x s.root e) refl

relink-left :
    (side : Side) (x y : ℕ) (s : Nodes)
    → x ≢ s.root
    → s.lefts (s.parent x) ≡ x
    → s.rights (s.parent x) ≢ x
    → relink side x y s ≡ set_child left (s.parent x) y s
unfolding relink
relink-left left x y s n l r = rw (ne→== x s.root n, eq→== x (s.lefts (s.parent x)) (sym l)) refl
relink-left right x y s n l r =
    rw (ne→== x s.root n, ne→== x (s.rights (s.parent x)) (λ e. r (sym e))) refl

relink-right :
    (side : Side) (x y : ℕ) (s : Nodes)
    → x ≢ s.root
    → s.rights (s.parent x) ≡ x
    → s.lefts (s.parent x) ≢ x
    → relink side x y s ≡ set_child right (s.parent x) y s
unfolding relink
relink-right left x y s n l r =
    rw (ne→== x s.root n, ne→== x (s.lefts (s.parent x)) (λ e. r (sym e))) refl
relink-right right x y s n l r = rw (ne→== x s.root n, eq→== x (s.rights (s.parent x)) (sym l)) refl

-- A node in the ranks of a part.
pub record Within (rank : ℕ → ℕ) (nil lo hi x : ℕ) : Type 0 where
  pub real : x ≢ nil
  pub from : lo ≤ rank x
  pub below : rank x < hi

-- What a change of the link from above does.
pub record Relinked (rank : ℕ → ℕ) (nil lo hi : ℕ) (s s' : Nodes) : Type 0 where
  pub same : (q : ℕ) → lo ≤ rank q → rank q < hi → Same s s' q
  pub parent : (q : ℕ) → s'.parent q ≡ s.parent q

module _ (rank : ℕ → ℕ) (nil : ℕ) where
  -- The first node of a part is none of the others.
  pub first-ne :
      (s : Nodes) (lo hi p par x : ℕ) (t : Tree)
      → IsTree rank nil s lo hi p par t
      → x ≢ nil
      → (rank x < lo) ⊎ (hi ≤ rank x)
      → p ≢ x
  first-ne s lo hi p par x leaf h n o e = n (sym e ∙ h)
  first-ne s lo hi p par x (node c l y r) (h, hl, hr) n (inl a) e =
      absurd (omega (arith, ap rank (sym e ∙ h.0)))
  first-ne s lo hi p par x (node c l y r) (h, hl, hr) n (inr a) e =
      absurd (omega (arith, ap rank (sym e ∙ h.0)))

  -- The root is above a part that hangs under a node.
  root_outside :
      (s : Nodes) (lo hi p par : ℕ) (d : Side) (c : Bool) (z : ℕ) (sib : Tree) (b : ℕ) (k : Above)
      → IsAbove rank nil s lo hi p par (under d c z sib b k)
      → (rank s.root < lo) ⊎ (hi ≤ rank s.root)
  root_outside s lo hi p par left c z sib b top (h, hs, hk) = inr (omega (arith, ap rank hk.0))
  root_outside s lo hi p par right c z sib b top (h, hs, hk) = inl (omega (arith, ap rank hk.0))
  root_outside s lo hi p par left c z sib b (under d' c' z' sib' b' k) (h, hs, hk) =
      elim (root_outside s lo b z (s.parent z) d' c' z' sib' b' k hk) [
        | inl a ↦ inl a
        | inr a ↦ inr (omega arith)
      ]
  root_outside s lo hi p par right c z sib b (under d' c' z' sib' b' k) (h, hs, hk) =
      elim (root_outside s b hi z (s.parent z) d' c' z' sib' b' k hk) [
        | inl a ↦ inl (omega arith)
        | inr a ↦ inr a
      ]

  pub root-ne :
      (s : Nodes) (lo hi p par x : ℕ) (d : Side) (c : Bool) (z : ℕ) (sib : Tree) (b : ℕ) (k : Above)
      → IsAbove rank nil s lo hi p par (under d c z sib b k)
      → Within rank nil lo hi x
      → x ≢ s.root
  root-ne s lo hi p par x d c z sib b k h w e = elim (root_outside s lo hi p par d c z sib b k h) [
    | inl a ↦ absurd (omega (arith, w.from, ap rank e))
    | inr a ↦ absurd (omega (arith, w.below, ap rank e))
  ]

  -- `relink` puts another node in the place of `x` under what stands above.
  pub relink-IsAbove :
      (side : Side) (s : Nodes) (lo hi x y par : ℕ) (k : Above)
      → Within rank nil lo hi x
      → s.parent x ≡ par
      → IsAbove rank nil s lo hi x par k
      → IsAbove rank nil (relink side x y s) lo hi y par k
        × Relinked rank nil lo hi s (relink side x y s)
  relink-IsAbove side s lo hi x y par top w e h = rw (relink-top side x y s h.0) (
    (refl, h.1),
    record {
      same = λ q a b. record { lefts = refl; rights = refl; parent = refl; red = refl };
      parent = λ q. refl;
    },
  )
  relink-IsAbove side s lo hi x y par (under left c z sib b k) w e (h, hs, hk) =
      let up : s.parent x ≡ z = e ∙ h.0 in
      let l : s.lefts (s.parent x) ≡ x = ap s.lefts up ∙ h.3 in
      let r : s.rights (s.parent x) ≢ x = λ d.
        first-ne s (suc (rank z)) b (s.rights z) z x sib hs w.real (inl (omega (arith, w.below)))
          (ap s.rights (sym up) ∙ d) in
      let s' = set_child left z y s in
      let change : relink side x y s ≡ s' =
        relink-left side x y s (root-ne s lo hi x par x left c z sib b k (h, hs, hk) w) l r
        ∙ ap (λ u. set_child left u y s) up in
      subst
        (λ u. IsAbove rank nil u lo hi y par (under left c z sib b k) × Relinked rank nil lo hi s u)
        (sym change)
        (
          (
            (h.0, h.1, h.2, put_self s.lefts z y, h.4, h.5, h.6),
            IsTree-Same rank nil s s' (suc (rank z)) b (s.rights z) (s.rights z) z sib refl
                (λ q n a d. off q (λ f. omega (arith, ap rank f))) hs,
            IsAbove-Same rank nil s s' lo b z (s.parent z) k refl
                (λ q n o. off q (λ f. outside q o f)) hk,
          ),
          record { same = λ q a d. off q (λ f. omega (arith, ap rank f)); parent = λ q. refl },
        )
    where
      off : (q : ℕ) → z ≢ q → Same s (set_child left z y s) q
      off q n = record { lefts = put_ne s.lefts z y q n; rights = refl; parent = refl; red = refl }

      outside : (q : ℕ) → (rank q < lo) ⊎ (b ≤ rank q) → z ≢ q
      outside q (inl a) f = omega (arith, ap rank f)
      outside q (inr a) f = omega (arith, ap rank f)
  relink-IsAbove side s lo hi x y par (under right c z sib b k) w e (h, hs, hk) =
      let up : s.parent x ≡ z = e ∙ h.0 in
      let l : s.rights (s.parent x) ≡ x = ap s.rights up ∙ h.3 in
      let r : s.lefts (s.parent x) ≢ x = λ d.
        first-ne s b (rank z) (s.lefts z) z x sib hs w.real (inr (omega (arith, w.from)))
          (ap s.lefts (sym up) ∙ d) in
      let s' = set_child right z y s in
      let change : relink side x y s ≡ s' =
        relink-right side x y s (root-ne s lo hi x par x right c z sib b k (h, hs, hk) w) l r
        ∙ ap (λ u. set_child right u y s) up in
      subst
        (λ u.
          IsAbove rank nil u lo hi y par (under right c z sib b k) × Relinked rank nil lo hi s u)
        (sym change)
        (
          (
            (h.0, h.1, h.2, put_self s.rights z y, h.4, h.5, h.6),
            IsTree-Same rank nil s s' b (rank z) (s.lefts z) (s.lefts z) z sib refl
                (λ q n a d. off q (λ f. omega (arith, ap rank f))) hs,
            IsAbove-Same rank nil s s' b hi z (s.parent z) k refl
                (λ q n o. off q (λ f. outside q o f)) hk,
          ),
          record { same = λ q a d. off q (λ f. omega (arith, ap rank f)); parent = λ q. refl },
        )
    where
      off : (q : ℕ) → z ≢ q → Same s (set_child right z y s) q
      off q n = record { lefts = refl; rights = put_ne s.rights z y q n; parent = refl; red = refl }

      outside : (q : ℕ) → (rank q < b) ⊎ (hi ≤ rank q) → z ≢ q
      outside q (inl a) f = omega (arith, ap rank f)
      outside q (inr a) f = omega (arith, ap rank f)
