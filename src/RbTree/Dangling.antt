-- ===== src/RbTree/Dangling.antt =====
-- `yf_rbtree_next` behind a `yf_rbtree_delete` of the root.
use yifei.Prelude.{ℕ, suc, ◌≡◌, ◌≢◌, refl, sym, ap, ◌∙◌, arith, Bool, false, eq→==, ne→==, some}
use yifei.LinkedList.{null}
use yifei.RbTree.{Nodes, left, right, paint, set_root, set_child, set_parent}
use yifei.RbTree.Shape.{leaf, node, IsTree}
use yifei.RbTree.Relink.{put_self, put_ne}
use yifei.RbTree.Walk.{next_up, tree_next}
use yifei.RbTree.Delete.{leaving, taking, forget, delete}

-- What `delete` of the root leaves, when `temp` takes its place.
abbrev without_root : (temp x : ℕ) → Nodes → Nodes
without_root temp x s =
    set_parent x null
      (set_child right x null (set_child left x null (paint false temp (set_root temp s))))

leaving_self : (nil fuel x : ℕ) (s : Nodes) → s.lefts x ≡ nil → leaving nil fuel x s ≡ some x
unfolding leaving
leaving_self nil fuel x s l = rw (eq→== (s.lefts x) nil l) refl

taking-right : (nil x y : ℕ) (s : Nodes) → s.lefts x ≡ nil → taking nil x y s ≡ s.rights x
unfolding taking
taking-right nil x y s l = rw (eq→== (s.lefts x) nil l) refl

delete-root :
    (nil fuel x : ℕ) (s : Nodes)
    → s.lefts x ≡ nil
    → x ≡ s.root
    → delete nil fuel x s ≡ some (without_root (s.rights x) x s)
unfolding delete forget
delete-root nil fuel x s l e =
    rw (leaving_self nil fuel x s l, delete, eq→== x s.root e)
      (ap (λ q. some (without_root q x s)) (taking-right nil x x s l))

-- When the root has no left child and its right child has no children, neither at `NULL`, deleting
-- the root succeeds, but leaves the parent of the right child, which is the root then, as it was:
-- `yf_rbtree_next` of that only node gives the deleted node instead of the end.
pub tree_next-delete :
    (rank : ℕ → ℕ) (nil fuel x y lo hi : ℕ) (cx cy : Bool) (s : Nodes)
    → IsTree rank nil s lo hi s.root null (node cx leaf x (node cy leaf y leaf))
    → x ≢ null
    → y ≢ null
    → (s' : Nodes) × (delete nil (suc fuel) x s ≡ some s')
      × (s'.root ≡ y)
      × (tree_next nil (suc fuel) y s' ≡ some x)
unfolding tree_next next_up
tree_next-delete rank nil fuel x y lo hi cx cy s h nx ny =
    let (hx, hl, (hy, hyl, hyr)) = h in
    let ne : x ≢ y = λ e. omega (arith, ap rank e, hy.4) in
    let s' = without_root (s.rights x) x s in
    let r : s'.rights y ≡ nil = put_ne s.rights x null y ne ∙ hyr in
    let up : s'.parent y ≡ x = put_ne s.parent x null y ne ∙ hy.3 in
    let rx : s'.rights x ≡ null = put_self s.rights x null in
    (
      s',
      delete-root nil (suc fuel) x s hl (sym hx.0),
      hy.0,
      rw
          (
            ne→== y nil hy.1,
            eq→== (s'.rights y) nil r,
            up,
            ne→== x null nx,
            ne→== y (s'.rights x) (λ e. ny (e ∙ rx)),
            ne→== (s'.rights y) x (λ e. hx.1 (sym e ∙ r)),
          )
          refl,
    )
