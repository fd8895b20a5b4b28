-- ===== src/RbTree.antt =====
-- src/base_struct/yf_rbtree.h and yf_rbtree.c: red-black trees as nodes in memory. An address is a
-- number and `NULL` is 0. The two halves of each function that the code writes out for left and
-- right are one definition that takes the side.
pub mod Shape
pub mod Relink
pub mod Rotate
pub mod Turned
pub mod Turn
pub mod Colour
pub mod Climb
pub mod Rounds
pub mod Settle
pub mod Upward
pub mod Swing
pub mod Sideward
pub mod Balance
pub mod Hang
pub mod Descend
pub mod Insert
pub mod Walk
pub mod Visit
pub mod Find
pub mod Delete
pub mod Dangling
use yifei.Prelude.{ℕ, zero, suc, Bool, true, false, not, ◌&&◌, ◌==◌, if◌then◌else◌}
use yifei.LinkedList.{null}

pub data Side : Type 0 where
  left right : Side

abbrev pub other : Side → Side
other left = right
other right = left

-- `yf_rbtree_t` without its `nil` and `cmp`, which stay as they are, and the fields of the nodes
-- by their address: `left`, `right`, `parent`, and whether `color` is red.
pub record Nodes : Type 0 where
  pub root : ℕ
  pub lefts : ℕ → ℕ
  pub rights : ℕ → ℕ
  pub parent : ℕ → ℕ
  pub red : ℕ → Bool

unfoldable pub put {ℓ} : {A : Type ℓ} → (ℕ → A) → ℕ → A → ℕ → A
put f p v q = if p == q then v else f q

abbrev pub child : Side → Nodes → ℕ → ℕ
child left s = s.lefts
child right s = s.rights

abbrev pub set_child : Side → ℕ → ℕ → Nodes → Nodes
set_child left p v s = record s { lefts = put s.lefts p v }
set_child right p v s = record s { rights = put s.rights p v }

abbrev pub set_parent : ℕ → ℕ → Nodes → Nodes
set_parent p v s = record s { parent = put s.parent p v }

abbrev pub set_root : ℕ → Nodes → Nodes
set_root p s = record s { root = p }

-- `yf_rbt_red` with true and `yf_rbt_black` with false.
abbrev pub paint : Bool → ℕ → Nodes → Nodes
paint c p s = record s { red = put s.red p c }

-- `yf_rbtree_init`, over whatever stands in memory.
unfoldable pub rbtree_init : (nil : ℕ) → Nodes → Nodes
unfolding put
rbtree_init nil s = set_root nil (paint false nil s)

-- What the rotations do with the link that leads to `node`: it leads to `temp`. `side` is the side
-- for which the code asks first.
unfoldable pub relink : Side → (node temp : ℕ) → Nodes → Nodes
unfolding put
relink side node temp s =
    let above = s.parent node in
    if node == s.root
    then set_root temp s
    else if node == child side s above
    then set_child side above temp s
    else set_child (other side) above temp s

-- The new parents in a rotation: that of `temp`'s inner child, and `temp->parent = node->parent`.
unfoldable pub adopt : (nil node temp inner : ℕ) → Nodes → Nodes
unfolding put
adopt nil node temp inner s =
    let s' = if inner == nil then s else set_parent inner node s in
    set_parent temp (s'.parent node) s'

-- The first lines of a rotation, up to `temp->parent = node->parent`.
unfoldable pub rotate_down : Side → (nil node temp : ℕ) → Nodes → Nodes
unfolding adopt put
rotate_down side nil node temp s =
    let inner = child side s temp in adopt nil node temp inner (set_child (other side) node inner s)

-- `yf_rbtree_left_rotate` at the side `left`, `yf_rbtree_right_rotate` at the side `right`, for the
-- child `temp` that comes up.
unfoldable pub rotate_with : Side → (nil node temp : ℕ) → Nodes → Nodes
unfolding rotate_down relink put
rotate_with side nil node temp s =
    set_parent node temp
      (set_child side temp node (relink side node temp (rotate_down side nil node temp s)))

unfoldable pub rotate : Side → (nil node : ℕ) → Nodes → Nodes
unfolding rotate_with
rotate side nil node s = rotate_with side nil node (child (other side) s node) s

-- A result of an insertion: the tree, an `YF_ERROR` with `YF_EEXIST`, or no more fuel.
pub data Inserted : Type 0 where
  inserted : Nodes → Inserted
  exists : Inserted
  out_of_fuel : Inserted

abbrev pub side_of : Bool → Side
side_of b = if b then left else right

-- The assignments behind the loop of `yf_rbtree_insert_value`.
unfoldable pub hang : (side : Side) (nil temp node : ℕ) → Nodes → Nodes
unfolding put
hang side nil temp node s = paint true node (
    set_child right node nil
      (set_child left node nil (set_parent node temp (set_child side temp node s))))

-- `yf_rbtree_insert_value`. `cmp` is the tree's `cmp` between nodes, which gives an integer.
unfoldable pub insert_value :
    (cmp : ℕ → ℕ → ℕ) (nil : ℕ) (uniq : Bool) (fuel temp node : ℕ) → Nodes → Inserted
unfolding hang
insert_value cmp nil uniq zero temp node s = out_of_fuel
insert_value cmp nil uniq (suc fuel) temp node s =
    let cmp_ret = cmp node temp in
    let side = side_of (not (cmp_ret == 0)) in
    let next = child side s temp in
    let rest = insert_value cmp nil uniq fuel next node s in
    if uniq && (cmp_ret == cmp temp node)
    then exists
    else if next == nil
    then inserted (hang side nil temp node s)
    else rest

-- The two rotations of a round whose uncle is black, and the node with which the loop goes on.
-- `side` is the side of the parent under the grandparent.
unfoldable pub insert_turn : (side : Side) (nil node : ℕ) → Nodes → ℕ × Nodes
insert_turn side nil node s =
    let above = s.parent node in
    let inner = node == child (other side) s above in
    let node' = if inner then above else node in
    let s1 = if inner then rotate side nil node' s else s in
    let s2 = paint false (s1.parent node') s1 in
    let s3 = paint true (s2.parent (s2.parent node')) s2 in
    (node', rotate (other side) nil (s3.parent (s3.parent node')) s3)

-- The loop of `__yf_rbtree_insert` that balances the tree again, with the colour of the root.
unfoldable pub insert_balance : (nil fuel node : ℕ) → Nodes → Inserted
insert_balance nil zero node s = out_of_fuel
insert_balance nil (suc fuel) node s =
    let above = s.parent node in
    let top = s.parent above in
    let side = side_of (above == s.lefts top) in
    let temp = child (other side) s top in
    let turned = insert_turn side nil node s in
    let upward =
      insert_balance nil fuel top (paint true top (paint false temp (paint false above s))) in
    let sideward = insert_balance nil fuel turned.0 turned.1 in
    let rest = if s.red temp then upward else sideward in
    if not (node == s.root) && s.red above then rest else inserted (paint false s.root s)

-- `__yf_rbtree_insert`
unfoldable pub insert : (cmp : ℕ → ℕ → ℕ) (nil : ℕ) (uniq : Bool) (fuel node : ℕ) → Nodes → Inserted
insert cmp nil uniq fuel node s =
    let first = set_root node (
      paint false node
        (set_child right node nil (set_child left node nil (set_parent node null s)))) in
    let hung = insert_value cmp nil uniq fuel s.root node s in
    if s.root == nil then inserted first else elim hung [
      | inserted s' ↦ insert_balance nil fuel node s'
      | exists ↦ exists
      | out_of_fuel ↦ out_of_fuel
    ]
