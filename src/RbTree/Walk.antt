-- ===== src/RbTree/Walk.antt =====
-- src/base_struct/yf_rbtree.h: the first and the last node, the next and the one before, the search
-- for a key and the loop over a tree. `none` is the end of the fuel.
use yifei.Prelude.{
  ℕ, zero, suc, not, ◌&&◌, ◌||◌, Option, none, some, List, [], ◌∷◌, ◌==◌, if◌then◌else◌,
}
use yifei.LinkedList.{null}
use yifei.RbTree.{Side, left, right, other, Nodes, child}

-- `__yf_rbtree_min` at the side `left` and `__yf_rbtree_max` at the side `right`.
unfoldable pub far_end : Side → (nil fuel node : ℕ) → Nodes → Option ℕ
far_end side nil zero node s = none
far_end side nil (suc fuel) node s =
    let rest = far_end side nil fuel (child side s node) s in
    if child side s node == nil then some node else rest

-- The loop of `yf_rbtree_next` over the parents, and that of `yf_rbtree_prev`.
unfoldable pub next_up : (nil fuel node y : ℕ) → Nodes → Option ℕ
next_up nil zero node y s = none
next_up nil (suc fuel) node y s =
    let rest = next_up nil fuel y (s.parent y) s in
    if not (y == null) && (node == s.rights y)
    then if y == nil then some y else rest
    else if y == null
    then some nil
    else if s.rights node == y
    then some node
    else some y

unfoldable pub prev_up : (nil fuel node y : ℕ) → Nodes → Option ℕ
prev_up nil zero node y s = none
prev_up nil (suc fuel) node y s =
    let rest = prev_up nil fuel y (s.parent y) s in
    if not (y == null) && (node == s.lefts y)
    then if y == nil then some y else rest
    else if y == null
    then some nil
    else some y

-- `yf_rbtree_next`
unfoldable pub tree_next : (nil fuel node : ℕ) → Nodes → Option ℕ
tree_next nil fuel node s =
    if node == nil
    then some node
    else if s.rights node == nil
    then next_up nil fuel node (s.parent node) s
    else far_end left nil fuel (s.rights node) s

-- `yf_rbtree_prev`
unfoldable pub tree_prev : (nil fuel node : ℕ) → Nodes → Option ℕ
tree_prev nil fuel node s =
    if node == nil
    then some node
    else if s.red node && (s.parent (s.parent node) == node)
    then some (s.rights node)
    else if s.lefts node == nil
    then prev_up nil fuel node (s.parent node) s
    else far_end right nil fuel (s.lefts node) s

abbrev pub cons_some : ℕ → Option (List ℕ) → Option (List ℕ)
cons_some x none = none
cons_some x (some xs) = some (x ∷ xs)

-- The nodes that `yf_rbtree_for_each` goes through from `pos` on; `walks` is the fuel of each step.
unfoldable pub for_each_from : (nil walks fuel pos : ℕ) → Nodes → Option (List ℕ)
for_each_from nil walks zero pos s = none
for_each_from nil walks (suc fuel) pos s =
    let rest : Option (List ℕ) = elim (tree_next nil walks pos s) [
      | none ↦ none
      | some pos' ↦ cons_some pos (for_each_from nil walks fuel pos' s)
    ] in
    if pos == nil then some [] else rest

unfoldable pub for_each : (nil fuel : ℕ) → Nodes → Option (List ℕ)
for_each nil fuel s = elim (far_end left nil fuel s.root s) [
  | none ↦ none
  | some pos ↦ for_each_from nil fuel fuel pos s
]

-- `yf_rbtree_for_each_r`, in the same way.
unfoldable pub for_each_r_from : (nil walks fuel pos : ℕ) → Nodes → Option (List ℕ)
for_each_r_from nil walks zero pos s = none
for_each_r_from nil walks (suc fuel) pos s =
    let rest : Option (List ℕ) = elim (tree_prev nil walks pos s) [
      | none ↦ none
      | some pos' ↦ cons_some pos (for_each_r_from nil walks fuel pos' s)
    ] in
    if pos == nil then some [] else rest

unfoldable pub for_each_r : (nil fuel : ℕ) → Nodes → Option (List ℕ)
for_each_r nil fuel s = elim (far_end right nil fuel s.root s) [
  | none ↦ none
  | some pos ↦ for_each_r_from nil fuel fuel pos s
]

-- A step of a loop in the direction of the side: `right` is `yf_rbtree_next`.
unfoldable pub step : Side → (nil fuel node : ℕ) → Nodes → Option ℕ
step right nil fuel node s = tree_next nil fuel node s
step left nil fuel node s = tree_prev nil fuel node s

-- `yf_rbtree_for_each_safe` at the side `right`, `yf_rbtree_for_each_safe_r` at the side `left`,
-- from `pos` on with the node `n` behind it. `body` changes the tree, and `none` is the end of its
-- own fuel.
unfoldable pub for_each_safe_from :
    Side → (body : ℕ → Nodes → Option Nodes) (nil walks fuel pos n : ℕ) → Nodes → Option Nodes
for_each_safe_from side body nil walks zero pos n s = none
for_each_safe_from side body nil walks (suc fuel) pos n s =
    let rest : Option Nodes = elim (body pos s) [
      | none ↦ none
      | some s' ↦ elim (step side nil walks n s') [
        | none ↦ none
        | some n' ↦ for_each_safe_from side body nil walks fuel n n' s'
      ]
    ] in
    if pos == nil then some s else rest

unfoldable pub for_each_safe :
    Side → (body : ℕ → Nodes → Option Nodes) (nil fuel : ℕ) → Nodes → Option Nodes
for_each_safe side body nil fuel s = elim (far_end (other side) nil fuel s.root s) [
  | none ↦ none
  | some pos ↦ elim (step side nil fuel pos s) [
    | none ↦ none
    | some n ↦ for_each_safe_from side body nil fuel fuel pos n s
  ]
]

-- The loop of `yf_rbtree_find`. `cmp` compares two keys, and `key` is the member of a node.
unfoldable pub find_loop : (cmp : ℕ → ℕ → ℕ) (key : ℕ → ℕ) (nil fuel k x y : ℕ) → Nodes → Option ℕ
find_loop cmp key nil zero k x y s = none
find_loop cmp key nil (suc fuel) k x y s =
    let goes_on = not (cmp (key x) k == 0) in
    let rest =
      find_loop cmp key nil fuel k (if goes_on then s.rights x else s.lefts x)
        (if goes_on then y else x) s in
    if x == nil then some y else rest

-- `yf_rbtree_find`: the node, or `NULL`.
unfoldable pub find : (cmp : ℕ → ℕ → ℕ) (key : ℕ → ℕ) (nil fuel k : ℕ) → Nodes → Option ℕ
find cmp key nil fuel k s = elim (find_loop cmp key nil fuel k s.root null s) [
  | none ↦ none
  | some y ↦ some (if y == null || not (cmp k (key y) == 0) then null else y)
]
