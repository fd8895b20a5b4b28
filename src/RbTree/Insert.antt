-- ===== src/RbTree/Insert.antt =====
-- `__yf_rbtree_insert` on a red-black tree.
use yifei.Prelude.{
  ℕ, ◌≤◌, ◌<◌, ◌≡◌, ◌≢◌, refl, sym, ◌∙◌, subst, arith, Bool, false, List, [], ◌∷◌, ◌++◌,
  append_assoc, append-nil, eq→==, ne→==, length,
}
use yifei.RbTree.{
  left, right, Nodes, paint, inserted, insert_value, insert_balance, insert, set_root, set_child,
  set_parent,
}
use yifei.RbTree.Shape.{Tree, leaf, node, flatten, Above, top, under, around}
use yifei.RbTree.Relink.{put_self, put_ne}
use yifei.RbTree.Settle.{IsRedBlack, Gives}
use yifei.RbTree.Descend.{AllCompared, insert_value-Hung}
use yifei.RbTree.Colour.{low}
use yifei.RbTree.Balance.{insert_balance-Gives}

-- What is around a part stands before and behind it.
around_split :
    (k : Above)
    → (before behind : List ℕ) × ((xs : List ℕ) → around k xs ≡ before ++ (xs ++ behind))
around_split top = ([], [], λ xs. sym (append-nil xs))
around_split (under left c x sib b k) =
    let (before, behind, h) = around_split k in
    (before, x ∷ (flatten sib ++ behind), λ xs. h (xs ++ x ∷ flatten sib) ∙ simp append_assoc)
around_split (under right c x sib b k) =
    let (before, behind, h) = around_split k in
    (before ++ (flatten sib ++ x ∷ []), behind, λ xs. h (flatten sib ++ x ∷ xs) ∙ simp append_assoc)

module _ (cmp : ℕ → ℕ → ℕ) (rank : ℕ → ℕ) (nil : ℕ) (uniq : Bool) (fuel z : ℕ) (s : Nodes) where
  insert-empty :
      s.root ≡ nil
      → insert cmp nil uniq fuel z s
        ≡ inserted (
            set_root z
              (paint false z (set_child right z nil (set_child left z nil (set_parent z 0 s)))))
  unfolding insert
  insert-empty e = rw (eq→== s.root nil e) refl

  insert-hung :
      (s' : Nodes)
      → s.root ≢ nil
      → insert_value cmp nil uniq fuel s.root z s ≡ inserted s'
      → insert cmp nil uniq fuel z s ≡ insert_balance nil fuel z s'
  unfolding insert
  insert-hung s' n e = rw (ne→== s.root nil n, e) refl

-- In a red-black tree whose nodes have ranks in its order, for a new node with a rank in the same
-- bounds that `cmp` compares with each node of the tree by their ranks (and, if the nodes are to
-- be unique, not as equal), `__yf_rbtree_insert` succeeds, with one round of each loop more than
-- there are nodes as enough fuel: the result is a red-black tree in the order of the ranks, which
-- has the nodes of the old one in their order with the new node between them.
pub insert-IsRedBlack :
    (cmp : ℕ → ℕ → ℕ) (rank : ℕ → ℕ) (nil : ℕ) (uniq : Bool) (fuel z lo hi : ℕ) (s : Nodes)
    (t : Tree)
    → IsRedBlack rank nil lo hi s t
    → z ≢ nil
    → lo ≤ rank z
    → rank z < hi
    → AllCompared cmp rank uniq z t
    → length (flatten t) < fuel
    → (xs ys : List ℕ) × (flatten t ≡ xs ++ ys)
      × Gives rank nil lo hi (xs ++ z ∷ ys) (insert cmp nil uniq fuel z s)
insert-IsRedBlack cmp rank nil uniq fuel z lo hi s leaf v real l h c f = (
  [],
  [],
  refl,
  subst (Gives rank nil lo hi (z ∷ [])) (sym (insert-empty cmp rank nil uniq fuel z s v.tree)) (
    _,
    node false leaf z leaf,
    refl,
    record {
      tree = (
        (refl, real, put_self s.red z false, put_self s.parent z 0, l, h),
        put_self s.lefts z nil,
        put_self s.rights z nil,
      );
      black = tt;
      height = 1;
      balanced = (refl, refl);
      nil_black = put_ne s.red z false nil real ∙ v.nil_black;
    },
    refl,
  ),
)
insert-IsRedBlack cmp rank nil uniq fuel z lo hi s (node cx a x b) v real l h c f =
    let g =
      insert_value-Hung cmp rank nil uniq z real s (node cx a x b) fuel lo hi s.root 0 v.height top
        (λ d. cc) (omega arith) v.tree (refl, refl) (v.balanced, tt, v.black) c (l, h) in
    let (xs, ys, around_is) = around_split g.above in
    let some_node : s.root ≢ nil = λ e. v.tree.0.1 (sym v.tree.0.0 ∙ e) in
    let r =
      insert_balance-Gives rank nil g.above fuel (omega (arith, g.deep)) g.after g.from g.bound z
        g.par leaf leaf 0 g.here g.rest (tt, tt, refl, refl) g.balanced (g.nil_red ∙ v.nil_black) in
    (
      xs,
      ys,
      sym g.others ∙ around_is [],
      subst (Gives rank nil lo hi (xs ++ z ∷ ys))
          (sym (insert-hung cmp rank nil uniq fuel z s g.after some_node g.result))
          (subst (λ q. Gives rank nil lo hi q (insert_balance nil fuel z g.after))
            (around_is (z ∷ []))
            (subst
              (λ q.
                Gives rank nil q hi (around g.above (z ∷ [])) (insert_balance nil fuel z g.after))
              g.lows
              (subst
                (λ q.
                  Gives rank nil (low g.above g.from) q (around g.above (z ∷ []))
                    (insert_balance nil fuel z g.after))
                g.highs r))),
    )
