-- ===== src/RbTree/Visit.antt =====
-- `yf_rbtree_min`, `yf_rbtree_next` and `yf_rbtree_for_each` on a tree.
use yifei.Prelude.{
  ℕ, zero, suc, ◌+◌, ◌≤◌, ◌<◌, ◌≡◌, ◌≢◌, refl, sym, ap, ◌∙◌, subst, arith, ◌⊎◌, inl, inr, Bool,
  List, [], ◌∷◌, ◌++◌, append_assoc, append-nil, eq→==, ne→==, length, length-append, some,
}
use yifei.LinkedList.{null}
use yifei.RbTree.{left, right, Nodes}
use yifei.RbTree.Shape.{Tree, leaf, node, flatten, IsTree, Above, top, under, IsAbove}
use yifei.RbTree.Relink.{Within, first-ne}
use yifei.RbTree.Colour.{low, depth}
use yifei.RbTree.Climb.{descend_left, descend_right}
use yifei.RbTree.Walk.{far_end, next_up, tree_next, for_each_from, for_each}

abbrev head_or : ℕ → List ℕ → ℕ
head_or d [] = d
head_or d (x ∷ xs) = x

-- The nodes behind a part.
abbrev afters : Above → List ℕ
afters top = []
afters (under left c x sib b k) = x ∷ (flatten sib ++ afters k)
afters (under right c x sib b k) = afters k

head_or-append : (d : ℕ) (xs ys : List ℕ) → head_or d (xs ++ ys) ≡ head_or (head_or d ys) xs
head_or-append d [] ys = refl
head_or-append d (x ∷ xs) ys = refl

head_or-flatten :
    (d e : ℕ) (c : Bool) (l : Tree) (x : ℕ) (r : Tree)
    → head_or d (flatten (node c l x r)) ≡ head_or e (flatten (node c l x r))
head_or-flatten d e c l x r =
    head_or-append d (flatten l) (x ∷ flatten r)
    ∙ sym (head_or-append e (flatten l) (x ∷ flatten r))

low-le :
    (rank : ℕ → ℕ) (nil : ℕ) (s : Nodes) (lo hi p par : ℕ) (k : Above)
    → IsAbove rank nil s lo hi p par k
    → low k lo ≤ lo
low-le rank nil s lo hi p par top h = omega arith
low-le rank nil s lo hi p par (under left c x sib b k) (h, hs, hk) =
    low-le rank nil s lo b x (s.parent x) k hk
low-le rank nil s lo hi p par (under right c x sib b k) (h, hs, hk) =
    omega (arith, low-le rank nil s b hi x (s.parent x) k hk)

module _ (rank : ℕ → ℕ) (nil : ℕ) (s : Nodes) where
  far_end-head :
      (fuel lo hi p par : ℕ) (c : Bool) (l : Tree) (x : ℕ) (r : Tree)
      → IsTree rank nil s lo hi p par (node c l x r)
      → length (flatten (node c l x r)) ≤ fuel
      → far_end left nil fuel p s ≡ some (head_or nil (flatten (node c l x r)))
  unfolding far_end
  far_end-head zero lo hi p par c l x r h f =
      absurd (omega (arith, length-append (flatten l) (x ∷ flatten r)))
  far_end-head (suc fuel) lo hi p par c leaf x r h f =
      rw (eq→== (s.lefts p) nil (ap s.lefts h.0.0 ∙ h.1)) (ap some h.0.0)
  far_end-head (suc fuel) lo hi p par c (node cl ll y lr) x r h f =
      let e = h.0.0 in
      let n : s.lefts p ≢ nil = λ d. h.1.0.1 (sym h.1.0.0 ∙ sym (ap s.lefts e) ∙ d) in
      let l = flatten (node cl ll y lr) in
      rw (ne→== (s.lefts p) nil n) (
        ap (λ q. far_end left nil fuel q s) (ap s.lefts e)
        ∙ far_end-head fuel lo (rank x) (s.lefts x) x cl ll y lr h.1
            (omega (arith, length-append l (x ∷ flatten r)))
        ∙ ap some (head_or-flatten nil x cl ll y lr ∙ sym (head_or-append nil l (x ∷ flatten r))))

  next_up-head :
      (fuel lo hi p par : ℕ) (k : Above)
      → IsAbove rank nil s lo hi p par k
      → depth k < fuel
      → rank null < low k lo
      → Within rank nil lo hi p
      → (s.rights p ≡ nil) ⊎ Within rank nil lo hi (s.rights p)
      → next_up nil fuel p par s ≡ some (head_or nil (afters k))
  unfolding next_up
  next_up-head zero lo hi p par k hk f low_null w i = absurd (omega arith)
  next_up-head (suc fuel) lo hi p par top hk f low_null w i = rw (eq→== par null hk.1) refl
  next_up-head (suc fuel) lo hi p par (under left c x sib b k) (h, hs, hk) f low_null w i =
      let rn : rank null < rank x = omega (arith, low-le rank nil s lo b x (s.parent x) k hk) in
      let real : par ≢ null = λ e. omega (arith, ap rank (sym h.0 ∙ e)) in
      let off : s.rights par ≢ p = λ e.
        first-ne rank nil s (suc (rank x)) b (s.rights x) x p sib hs w.real
          (inl (omega (arith, w.below))) (ap s.rights (sym h.0) ∙ e) in
      let right_off : s.rights p ≢ par = λ e. elim i [
        | inl z ↦ h.1 (sym h.0 ∙ sym e ∙ z)
        | inr v ↦ omega (arith, ap rank (e ∙ h.0), v.below)
      ] in
      rw
        (
          ne→== par null real,
          ne→== p (s.rights par) (λ e. off (sym e)),
          ne→== (s.rights p) par right_off,
        )
        (ap some h.0)
  next_up-head (suc fuel) lo hi p par (under right c x sib b k) (h, hs, hk) f low_null w i =
      let rn : rank null < rank x = omega (arith, low-le rank nil s b hi x (s.parent x) k hk) in
      let real : par ≢ null = λ e. omega (arith, ap rank (sym h.0 ∙ e)) in
      let on : p ≡ s.rights par = sym h.3 ∙ ap s.rights (sym h.0) in
      let some_node : par ≢ nil = λ e. h.1 (sym h.0 ∙ e) in
      rw (ne→== par null real, eq→== p (s.rights par) on, ne→== par nil some_node)
        (ap (λ q. next_up nil fuel q (s.parent q) s) h.0
          ∙ next_up-head fuel b hi x (s.parent x) k hk (omega arith) low_null
              (record { real = h.1; from = omega arith; below = omega arith })
              (inr (record {
                real = λ e. w.real (sym h.3 ∙ e);
                from = omega (arith, w.from, ap rank h.3);
                below = omega (arith, w.below, ap rank h.3);
              })))

  tree_next-head :
      (fuel lo hi p par : ℕ) (c : Bool) (l : Tree) (x : ℕ) (r : Tree) (k : Above)
      → IsTree rank nil s lo hi p par (node c l x r)
      → IsAbove rank nil s lo hi p par k
      → depth k + length (flatten r) < fuel
      → rank null < low k lo
      → tree_next nil fuel p s ≡ some (head_or nil (flatten r ++ afters k))
  unfolding tree_next
  tree_next-head fuel lo hi p par c l x leaf k ht hk f low_null =
      let e = ht.0.0 in
      let n : p ≢ nil = λ d. ht.0.1 (sym e ∙ d) in
      let none_right : s.rights p ≡ nil = ap s.rights e ∙ ht.2 in
      let up : s.parent p ≡ par = ap s.parent e ∙ ht.0.3 in
      let w : Within rank nil lo hi p = record {
        real = n;
        from = omega (arith, ht.0.4, ap rank e);
        below = omega (arith, ht.0.5, ap rank e);
      } in
      rw (ne→== p nil n, eq→== (s.rights p) nil none_right)
        (ap (λ q. next_up nil fuel p q s) up
          ∙ next_up-head fuel lo hi p par k hk (omega arith) low_null w (inl none_right))
  tree_next-head fuel lo hi p par c l x (node cr rl y rr) k ht hk f low_null =
      let e = ht.0.0 in
      let n : p ≢ nil = λ d. ht.0.1 (sym e ∙ d) in
      let n' : s.rights p ≢ nil = λ d. ht.2.0.1 (sym ht.2.0.0 ∙ sym (ap s.rights e) ∙ d) in
      let fr = flatten (node cr rl y rr) in
      rw (ne→== p nil n, ne→== (s.rights p) nil n')
        (ap (λ q. far_end left nil fuel q s) (ap s.rights e)
          ∙ far_end-head fuel (suc (rank x)) hi (s.rights x) x cr rl y rr ht.2 (omega arith)
          ∙ ap some (
              head_or-flatten nil (head_or nil (afters k)) cr rl y rr
              ∙ sym (head_or-append nil fr (afters k))))

  for_each_from-step :
      (walks fuel x y : ℕ) (ys : List ℕ)
      → x ≢ nil
      → tree_next nil walks x s ≡ some y
      → for_each_from nil walks fuel y s ≡ some ys
      → for_each_from nil walks (suc fuel) x s ≡ some (x ∷ ys)
  unfolding for_each_from
  for_each_from-step walks fuel x y ys n e h = rw (ne→== x nil n, e, h) refl

  for_each_from-end : (walks fuel : ℕ) → 0 < fuel → for_each_from nil walks fuel nil s ≡ some []
  unfolding for_each_from
  for_each_from-end walks zero f = absurd (omega arith)
  for_each_from-end walks (suc fuel) f = rw (eq→== nil nil refl) refl

  -- The loop from the first node of a part on, when it goes on well behind the part.
  visit :
      (t : Tree) (walks lo hi p par : ℕ) (k : Above)
      → IsTree rank nil s lo hi p par t
      → IsAbove rank nil s lo hi p par k
      → depth k + length (flatten t) < walks
      → rank null < low k lo
      → ((fuel : ℕ)
          → length (afters k) < fuel
          → for_each_from nil walks fuel (head_or nil (afters k)) s ≡ some (afters k))
      → (fuel : ℕ) → length (flatten t ++ afters k) < fuel
      → for_each_from nil walks fuel (head_or nil (flatten t ++ afters k)) s
        ≡ some (flatten t ++ afters k)
  visit leaf walks lo hi p par k ht hk f low_null next fuel enough = next fuel enough
  visit (node c l x r) walks lo hi p par k ht hk f low_null next fuel enough =
      let rest = flatten r ++ afters k in
      let e = append_assoc (flatten l) (x ∷ flatten r) (afters k) in
      let sizes = length-append (flatten l) (x ∷ flatten r) in
      let (tl, kl) = descend_left rank nil s lo hi p par c l x r k ht hk in
      let (tr, kr) = descend_right rank nil s lo hi p par c l x r k ht hk in
      let low_right : low k lo ≤ lo = low-le rank nil s lo hi p par k hk in
      let of_right =
        visit r walks (suc (rank x)) hi (s.rights x) x (under right c x l lo k) tr kr
          (omega (arith, sizes)) low_null next in
      let at_x : tree_next nil walks x s ≡ some (head_or nil rest) =
        subst (λ q. tree_next nil walks q s ≡ some (head_or nil rest)) ht.0.0
          (tree_next-head walks lo hi p par c l x r k ht hk (omega (arith, sizes)) low_null) in
      let here : (g : ℕ) → suc (length rest) < g → for_each_from nil walks g x s ≡ some (x ∷ rest) =
        elim [
          | zero ↦ λ h. absurd (omega arith)
          | suc g ↦ λ h.
              for_each_from-step walks g x (head_or nil rest) rest ht.0.1 at_x
                (of_right g (omega arith))
        ] in
      subst (λ ys. for_each_from nil walks fuel (head_or nil ys) s ≡ some ys) (sym e)
        (visit l walks lo (rank x) (s.lefts x) x (under left c x r hi k) tl kl
          (omega (arith, sizes)) low_null here fuel
          (omega (arith, ap (λ (ys : List ℕ). length ys) e)))

-- When the nodes from the root on hold a tree that is not empty, in the order of their ranks, which
-- are above that of `NULL`, `yf_rbtree_for_each` goes through the nodes of the tree in their order
-- and ends; for each of its loops, a round more than there are nodes is enough.
pub for_each-flatten :
    (rank : ℕ → ℕ) (nil fuel lo hi : ℕ) (s : Nodes) (t : Tree)
    → IsTree rank nil s lo hi s.root null t
    → t ≢ leaf
    → rank null < lo
    → length (flatten t) < fuel
    → for_each nil fuel s ≡ some (flatten t)
unfolding for_each
for_each-flatten rank nil fuel lo hi s leaf h n low_null f = absurd (n refl)
for_each-flatten rank nil fuel lo hi s (node c l x r) h n low_null f =
    let t = node c l x r in
    let no_more = append-nil (flatten t) in
    rw (far_end-head rank nil s fuel lo hi s.root null c l x r h (omega arith), for_each)
      (subst (λ ys. for_each_from nil fuel fuel (head_or nil ys) s ≡ some ys) no_more
        (visit rank nil s t fuel lo hi s.root null top h (refl, refl) (omega arith) low_null
          (λ g e. for_each_from-end rank nil s fuel g e) fuel
          (omega (arith, ap (λ (ys : List ℕ). length ys) no_more))))
