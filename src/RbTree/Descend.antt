-- ===== src/RbTree/Descend.antt =====
-- `yf_rbtree_insert_value` from a node on.
use yifei.Prelude.{
  ℕ, zero, suc, ◌+◌, ◌≤◌, ◌<◌, ◌≡◌, ◌≢◌, refl, sym, ◌∙◌, subst, arith, inl, inr, Bool, true, ◌&&◌,
  false, [], ◌∷◌, ◌++◌, ◌==◌, Bool-cases, ==→eq, ==→ne, eq→==, ne→==, length, length-append,
}
use yifei.RbTree.{left, right, Nodes, Inserted, inserted, insert_value, hang}
use yifei.RbTree.Shape.{Tree, leaf, node, flatten, IsTree, Above, under, around, IsAbove}
use yifei.RbTree.Colour.{Balanced, AboveBalanced, low, high, depth}
use yifei.RbTree.Climb.{descend_left, descend_right}
use yifei.RbTree.Hang.{
  Suits, below_left, below_right, hang_left-IsAbove, hang_right-IsAbove, hang-nil,
}

-- How `cmp` compares the new node `z` with the node `x`: by their ranks, and, if the nodes are to
-- be unique, it tells that they differ.
pub record Compared (cmp : ℕ → ℕ → ℕ) (rank : ℕ → ℕ) (uniq : Bool) (z x : ℕ) : Type 0 where
  pub before : cmp z x ≢ 0 → rank z < rank x
  pub behind : cmp z x ≡ 0 → rank x < rank z
  pub apart : uniq ≡ true → cmp z x ≢ cmp x z

abbrev pub AllCompared : (ℕ → ℕ → ℕ) → (ℕ → ℕ) → Bool → ℕ → Tree → Type 0
AllCompared cmp rank uniq z leaf = Unit {0}
AllCompared cmp rank uniq z (node c l x r) =
    Compared cmp rank uniq z x × AllCompared cmp rank uniq z l × AllCompared cmp rank uniq z r

module _ (cmp : ℕ → ℕ → ℕ) (nil : ℕ) (uniq : Bool) (fuel x z : ℕ) (s : Nodes)
    (apart : uniq ≡ true → cmp z x ≢ cmp x z) where
  no_equal : (u : Bool) → (u ≡ true → cmp z x ≢ cmp x z) → (u && (cmp z x == cmp x z)) ≡ false
  no_equal true h = ne→== (cmp z x) (cmp x z) (h refl)
  no_equal false h = refl

  found_left :
      cmp z x ≢ 0
      → s.lefts x ≡ nil
      → insert_value cmp nil uniq (suc fuel) x z s ≡ inserted (hang left nil x z s)
  unfolding insert_value
  found_left n e = rw (no_equal uniq apart, ne→== (cmp z x) 0 n, eq→== (s.lefts x) nil e) refl

  found_right :
      cmp z x ≡ 0
      → s.rights x ≡ nil
      → insert_value cmp nil uniq (suc fuel) x z s ≡ inserted (hang right nil x z s)
  unfolding insert_value
  found_right n e = rw (no_equal uniq apart, eq→== (cmp z x) 0 n, eq→== (s.rights x) nil e) refl

  on_left :
      cmp z x ≢ 0
      → s.lefts x ≢ nil
      → insert_value cmp nil uniq (suc fuel) x z s ≡ insert_value cmp nil uniq fuel (s.lefts x) z s
  unfolding insert_value
  on_left n e = rw (no_equal uniq apart, ne→== (cmp z x) 0 n, ne→== (s.lefts x) nil e) refl

  on_right :
      cmp z x ≡ 0
      → s.rights x ≢ nil
      → insert_value cmp nil uniq (suc fuel) x z s ≡ insert_value cmp nil uniq fuel (s.rights x) z s
  unfolding insert_value
  on_right n e = rw (no_equal uniq apart, eq→== (cmp z x) 0 n, ne→== (s.rights x) nil e) refl

-- The new red node hangs at its place, from a part `t` on that stands under `k`.
pub record Hung (rank : ℕ → ℕ) (nil z : ℕ) (s : Nodes) (lo hi : ℕ) (t : Tree) (k : Above)
    (r : Inserted) : Type 0 where
  pub after : Nodes
  pub from : ℕ
  pub bound : ℕ
  pub par : ℕ
  pub above : Above
  pub result : r ≡ inserted after
  pub here : IsTree rank nil after from bound z par (node true leaf z leaf)
  pub rest : IsAbove rank nil after from bound z par above
  pub balanced : AboveBalanced 0 above
  pub nil_red : after.red nil ≡ s.red nil
  pub lows : low above from ≡ low k lo
  pub highs : high above bound ≡ high k hi
  pub others : around above [] ≡ around k (flatten t)
  pub deep : depth above ≤ depth k + length (flatten t)

-- A part whose pointer is `nil` has no node.
leaf-of_nil :
    (rank : ℕ → ℕ) (nil : ℕ) (s : Nodes) (lo hi p par : ℕ) (c : Bool) (l : Tree) (x : ℕ) (r : Tree)
    → IsTree rank nil s lo hi p par (node c l x r)
    → p ≢ nil
leaf-of_nil rank nil s lo hi p par c l x r h e = h.0.1 (sym h.0.0 ∙ e)

-- One node of the way down, at `x`.
module _ (cmp : ℕ → ℕ → ℕ) (rank : ℕ → ℕ) (nil : ℕ) (uniq : Bool) (z : ℕ) (real : z ≢ nil)
    (s : Nodes) (fuel lo hi x par n : ℕ) (c : Bool) (k : Above)
    (hk : IsAbove rank nil s lo hi x par k) (w : Compared cmp rank uniq z x) (from : lo ≤ rank z)
    (bound : rank z < hi) where
  go_left :
      (l r : Tree)
      → IsTree rank nil s lo hi x par (node c l x r)
      → Balanced n (node c l x r) × AboveBalanced n k × Suits (node c l x r) k
      → cmp z x ≢ 0
      → (l ≢ leaf
          → Hung rank nil z s lo
              (rank x)
              l
              (under left c x r hi k)
              (insert_value cmp nil uniq fuel (s.lefts x) z s))
      → Hung rank nil z s lo hi (node c l x r) k (insert_value cmp nil uniq (suc fuel) x z s)
  go_left leaf r ht b e next =
      let (m, bl, al, sl) = below_left n c leaf x r hi k b.0 b.1 b.2 in
      let (t', k') =
        hang_left-IsAbove rank nil z real s lo hi x par c r k ht hk from (w.before e) in
      record {
        after = hang left nil x z s;
        from = lo;
        bound = rank x;
        par = x;
        above = under left c x r hi k;
        result = found_left cmp nil uniq fuel x z s w.apart e ht.1;
        here = t';
        rest = k';
        balanced = subst (λ i. AboveBalanced i (under left c x r hi k)) bl al;
        nil_red = hang-nil nil z real s x left;
        lows = refl;
        highs = refl;
        others = refl;
        deep = omega arith;
      }
  go_left (node cl ll y lr) r ht b e next =
      let h = next (λ d. cc) in
      record {
        after = h.after;
        from = h.from;
        bound = h.bound;
        par = h.par;
        above = h.above;
        result =
            on_left cmp nil uniq fuel x z s w.apart e
              (leaf-of_nil rank nil s lo (rank x) (s.lefts x) x cl ll y lr ht.1)
            ∙ h.result;
        here = h.here;
        rest = h.rest;
        balanced = h.balanced;
        nil_red = h.nil_red;
        lows = h.lows;
        highs = h.highs;
        others = h.others;
        deep = omega (arith, h.deep, length-append (flatten ll ++ y ∷ flatten lr) (x ∷ flatten r));
      }

  go_right :
      (l r : Tree)
      → IsTree rank nil s lo hi x par (node c l x r)
      → Balanced n (node c l x r) × AboveBalanced n k × Suits (node c l x r) k
      → cmp z x ≡ 0
      → (r ≢ leaf
          → Hung rank nil z s
              (suc (rank x))
              hi
              r
              (under right c x l lo k)
              (insert_value cmp nil uniq fuel (s.rights x) z s))
      → Hung rank nil z s lo hi (node c l x r) k (insert_value cmp nil uniq (suc fuel) x z s)
  go_right l leaf ht b e next =
      let (m, bl, al, sl) = below_right n c l x leaf lo k b.0 b.1 b.2 in
      let (t', k') =
        hang_right-IsAbove rank nil z real s lo hi x par c l k ht hk (w.behind e) bound in
      record {
        after = hang right nil x z s;
        from = suc (rank x);
        bound = hi;
        par = x;
        above = under right c x l lo k;
        result = found_right cmp nil uniq fuel x z s w.apart e ht.2;
        here = t';
        rest = k';
        balanced = subst (λ i. AboveBalanced i (under right c x l lo k)) bl al;
        nil_red = hang-nil nil z real s x right;
        lows = refl;
        highs = refl;
        others = refl;
        deep = omega (arith, length-append (flatten l) (x ∷ []));
      }
  go_right l (node cr rl y rr) ht b e next =
      let h = next (λ d. cc) in
      record {
        after = h.after;
        from = h.from;
        bound = h.bound;
        par = h.par;
        above = h.above;
        result =
            on_right cmp nil uniq fuel x z s w.apart e
              (leaf-of_nil rank nil s (suc (rank x)) hi (s.rights x) x cr rl y rr ht.2)
            ∙ h.result;
        here = h.here;
        rest = h.rest;
        balanced = h.balanced;
        nil_red = h.nil_red;
        lows = h.lows;
        highs = h.highs;
        others = h.others;
        deep =
            omega (arith, h.deep, length-append (flatten l) (x ∷ (flatten rl ++ y ∷ flatten rr)));
      }

module _ (cmp : ℕ → ℕ → ℕ) (rank : ℕ → ℕ) (nil : ℕ) (uniq : Bool) (z : ℕ) (real : z ≢ nil)
    (s : Nodes) where
  pub insert_value-Hung :
      (t : Tree) (fuel lo hi p par n : ℕ) (k : Above)
      → t ≢ leaf
      → length (flatten t) ≤ fuel
      → IsTree rank nil s lo hi p par t
      → IsAbove rank nil s lo hi p par k
      → Balanced n t × AboveBalanced n k × Suits t k
      → AllCompared cmp rank uniq z t
      → (lo ≤ rank z) × (rank z < hi)
      → Hung rank nil z s lo hi t k (insert_value cmp nil uniq fuel p z s)
  insert_value-Hung leaf fuel lo hi p par n k some_node enough ht hk b c w = absurd (some_node refl)
  insert_value-Hung (node cx l x r) zero lo hi p par n k some_node enough ht hk b c w =
      absurd (omega (arith, length-append (flatten l) (x ∷ flatten r)))
  insert_value-Hung (node cx l x r) (suc fuel) lo hi p par n k some_node enough ht hk b c w =
      let at = ht.0.0 in
      let ht' : IsTree rank nil s lo hi x par (node cx l x r) =
        subst (λ q. IsTree rank nil s lo hi q par (node cx l x r)) at ht in
      let hk' : IsAbove rank nil s lo hi x par k =
        subst (λ q. IsAbove rank nil s lo hi q par k) at hk in
      subst
        (λ q.
          Hung rank nil z s lo hi (node cx l x r) k (insert_value cmp nil uniq (suc fuel) q z s))
        (sym at)
        (elim (Bool-cases (cmp z x == 0)) [
          | inl e ↦
              let e' = ==→eq (cmp z x) 0 e in
              let (m, br, ar, sr) = below_right n cx l x r lo k b.0 b.1 b.2 in
              let (tr, kr) = descend_right rank nil s lo hi x par cx l x r k ht' hk' in
              go_right cmp rank nil uniq z real s fuel lo hi x par n cx k hk' c.0 w.0 w.1 l r ht' b
                e'
                (λ d.
                  insert_value-Hung r fuel (suc (rank x)) hi (s.rights x) x m
                    (under right cx x l lo k) d
                    (omega (arith, length-append (flatten l) (x ∷ flatten r))) tr kr (br, ar, sr)
                    c.2 (c.0.behind e', w.1))
          | inr e ↦
              let e' = ==→ne (cmp z x) 0 e in
              let (m, bl, al, sl) = below_left n cx l x r hi k b.0 b.1 b.2 in
              let (tl, kl) = descend_left rank nil s lo hi x par cx l x r k ht' hk' in
              go_left cmp rank nil uniq z real s fuel lo hi x par n cx k hk' c.0 w.0 w.1 l r ht' b
                e'
                (λ d.
                  insert_value-Hung l fuel lo (rank x) (s.lefts x) x m (under left cx x r hi k) d
                    (omega (arith, length-append (flatten l) (x ∷ flatten r))) tl kl (bl, al, sl)
                    c.1 (w.0, c.0.before e'))
        ])
