-- ===== src/RbTree/Shape.antt =====
-- The trees that the nodes in memory hold. `rank` puts the nodes in an order: the nodes of a part
-- of the tree have ranks from `lo` on and below `hi`.
use yifei.Prelude.{
  ℕ, suc, ◌≤◌, ◌<◌, ◌≡◌, ◌≢◌, sym, ap, ◌∙◌, subst, arith, ◌⊎◌, inl, inr, Bool, List, [], ◌∷◌, ◌++◌,
}
use yifei.RbTree.{Side, left, right, Nodes}

-- A node with its address and whether it is red.
pub data Tree : Type 0 where
  leaf : Tree
  node : Bool → Tree → ℕ → Tree → Tree

-- The addresses in their order.
abbrev pub flatten : Tree → List ℕ
flatten leaf = []
flatten (node c l x r) = flatten l ++ x ∷ flatten r

-- The nodes from `p` on, under the node `par`, hold a tree.
abbrev pub IsTree : (ℕ → ℕ) → ℕ → Nodes → (lo hi p par : ℕ) → Tree → Type 0
IsTree rank nil s lo hi p par leaf = p ≡ nil
IsTree rank nil s lo hi p par (node c l x r) =
    ((p ≡ x) × (x ≢ nil) × (s.red x ≡ c) × (s.parent x ≡ par) × (lo ≤ rank x) × (rank x < hi))
    × IsTree rank nil s lo (rank x) (s.lefts x) x l
    × IsTree rank nil s (suc (rank x)) hi (s.rights x) x r

-- The way from a part of a tree up to the root: on which side of the node the part hangs, the
-- node with its colour, the tree on its other side, and the bound of the ranks on the part's side
-- above the node.
pub data Above : Type 0 where
  top : Above
  under : Side → Bool → ℕ → Tree → ℕ → Above → Above

abbrev pub around : Above → List ℕ → List ℕ
around top xs = xs
around (under left c x sib b k) xs = around k (xs ++ x ∷ flatten sib)
around (under right c x sib b k) xs = around k (flatten sib ++ x ∷ xs)

abbrev pub plug : Above → Tree → Tree
plug top t = t
plug (under left c x sib b k) t = plug k (node c t x sib)
plug (under right c x sib b k) t = plug k (node c sib x t)

-- The nodes above the part at `p`, whose parent is `par`.
abbrev pub IsAbove : (ℕ → ℕ) → ℕ → Nodes → (lo hi p par : ℕ) → Above → Type 0
IsAbove rank nil s lo hi p par top = (p ≡ s.root) × (par ≡ 0)
IsAbove rank nil s lo hi p par (under left c x sib b k) =
    ((par ≡ x) × (x ≢ nil) × (s.red x ≡ c) × (s.lefts x ≡ p) × (hi ≡ rank x) × (lo ≤ hi) × (hi < b))
    × IsTree rank nil s (suc (rank x)) b (s.rights x) x sib
    × IsAbove rank nil s lo b x (s.parent x) k
IsAbove rank nil s lo hi p par (under right c x sib b k) =
    ((par ≡ x)
      × (x ≢ nil)
      × (s.red x ≡ c)
      × (s.rights x ≡ p)
      × (lo ≡ suc (rank x))
      × (lo ≤ hi)
      × (b < lo))
    × IsTree rank nil s b (rank x) (s.lefts x) x sib
    × IsAbove rank nil s b hi x (s.parent x) k

-- The fields of a node are the same.
pub record Same (s s' : Nodes) (q : ℕ) : Type 0 where
  pub lefts : s'.lefts q ≡ s.lefts q
  pub rights : s'.rights q ≡ s.rights q
  pub parent : s'.parent q ≡ s.parent q
  pub red : s'.red q ≡ s.red q

module _ (rank : ℕ → ℕ) (nil : ℕ) where
  -- A tree stays while the nodes with its ranks do.
  pub IsTree-Same :
      (s s' : Nodes) (lo hi p p' par : ℕ) (t : Tree)
      → p' ≡ p
      → ((q : ℕ) → q ≢ nil → lo ≤ rank q → rank q < hi → Same s s' q)
      → IsTree rank nil s lo hi p par t
      → IsTree rank nil s' lo hi p' par t
  IsTree-Same s s' lo hi p p' par leaf e same h = e ∙ h
  IsTree-Same s s' lo hi p p' par (node c l x r) e same (h, hl, hr) =
      let f = same x h.1 h.4 h.5 in
      (
        (e ∙ h.0, h.1, f.red ∙ h.2, f.parent ∙ h.3, h.4, h.5),
        IsTree-Same s s' lo (rank x) (s.lefts x) (s'.lefts x) x l f.lefts
            (λ q n a b. same q n a (omega arith)) hl,
        IsTree-Same s s' (suc (rank x)) hi (s.rights x) (s'.rights x) x r f.rights
            (λ q n a b. same q n (omega arith) b) hr,
      )

  -- A tree under another parent: the parent of its first node may change.
  pub IsTree-reparent :
      (s s' : Nodes) (lo hi p par par' : ℕ) (t : Tree)
      → (p ≢ nil → s'.parent p ≡ par')
      → (p ≢ nil → (s'.lefts p ≡ s.lefts p) × (s'.rights p ≡ s.rights p) × (s'.red p ≡ s.red p))
      → ((q : ℕ) → q ≢ nil → q ≢ p → lo ≤ rank q → rank q < hi → Same s s' q)
      → IsTree rank nil s lo hi p par t
      → IsTree rank nil s' lo hi p par' t
  IsTree-reparent s s' lo hi p par par' leaf up fields same h = h
  IsTree-reparent s s' lo hi p par par' (node c l x r) up fields same (h, hl, hr) =
      let n : p ≢ nil = λ e. h.1 (sym h.0 ∙ e) in
      let f = fields n in
      let e = h.0 in
      (
        (e, h.1, ap s'.red (sym e) ∙ f.2 ∙ ap s.red e ∙ h.2, ap s'.parent (sym e) ∙ up n, h.4, h.5),
        IsTree-Same s s' lo (rank x) (s.lefts x) (s'.lefts x) x l
            (ap s'.lefts (sym e) ∙ f.0 ∙ ap s.lefts e)
            (λ q m a b. same q m (λ d. omega (arith, ap rank (d ∙ e))) a (omega arith)) hl,
        IsTree-Same s s' (suc (rank x)) hi (s.rights x) (s'.rights x) x r
            (ap s'.rights (sym e) ∙ f.1 ∙ ap s.rights e)
            (λ q m a b. same q m (λ d. omega (arith, ap rank (d ∙ e))) (omega arith) b) hr,
      )

  -- What stands above a part stays while the nodes with other ranks do.
  pub IsAbove-Same :
      (s s' : Nodes) (lo hi p par : ℕ) (k : Above)
      → s'.root ≡ s.root
      → ((q : ℕ) → q ≢ nil → (rank q < lo) ⊎ (hi ≤ rank q) → Same s s' q)
      → IsAbove rank nil s lo hi p par k
      → IsAbove rank nil s' lo hi p par k
  IsAbove-Same s s' lo hi p par top e same h = (h.0 ∙ sym e, h.1)
  IsAbove-Same s s' lo hi p par (under left c x sib b k) e same (h, hs, hk) =
      let f = same x h.1 (inr (omega arith)) in
      (
        (h.0, h.1, f.red ∙ h.2, f.lefts ∙ h.3, h.4, h.5, h.6),
        IsTree-Same s s' (suc (rank x)) b (s.rights x) (s'.rights x) x sib f.rights
            (λ q n a d. same q n (inr (omega arith))) hs,
        subst (λ u. IsAbove rank nil s' lo b x u k) (sym f.parent)
            (IsAbove-Same s s' lo b x (s.parent x) k e (λ q n o. same q n (wider q o)) hk),
      )
    where
      wider : (q : ℕ) → (rank q < lo) ⊎ (b ≤ rank q) → (rank q < lo) ⊎ (hi ≤ rank q)
      wider q (inl a) = inl a
      wider q (inr a) = inr (omega arith)
  IsAbove-Same s s' lo hi p par (under right c x sib b k) e same (h, hs, hk) =
      let f = same x h.1 (inl (omega arith)) in
      (
        (h.0, h.1, f.red ∙ h.2, f.rights ∙ h.3, h.4, h.5, h.6),
        IsTree-Same s s' b (rank x) (s.lefts x) (s'.lefts x) x sib f.lefts
            (λ q n a d. same q n (inl (omega arith))) hs,
        subst (λ u. IsAbove rank nil s' b hi x u k) (sym f.parent)
            (IsAbove-Same s s' b hi x (s.parent x) k e (λ q n o. same q n (wider q o)) hk),
      )
    where
      wider : (q : ℕ) → (rank q < b) ⊎ (hi ≤ rank q) → (rank q < lo) ⊎ (hi ≤ rank q)
      wider q (inl a) = inl (omega arith)
      wider q (inr a) = inr a
