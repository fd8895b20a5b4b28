-- ===== src/RbTree/Delete.antt =====
-- `yf_rbtree_delete` of src/base_struct/yf_rbtree.c. `none` is the end of the fuel.
use yifei.Prelude.{ℕ, zero, suc, true, false, not, ◌&&◌, Option, none, some, ◌==◌, if◌then◌else◌}
use yifei.LinkedList.{null}
use yifei.RbTree.{
  Side, left, right, other, Nodes, child, set_child, set_parent, set_root, paint, side_of, rotate,
}
use yifei.RbTree.Walk.{far_end}

-- The node that leaves its place, `subst`, and the one that takes it, `temp`.
unfoldable pub leaving : (nil fuel node : ℕ) → Nodes → Option ℕ
leaving nil fuel node s =
    if s.lefts node == nil
    then some node
    else if s.rights node == nil
    then some node
    else far_end left nil fuel (s.rights node) s

unfoldable pub taking : (nil node subst : ℕ) → Nodes → ℕ
taking nil node subst s =
    if s.lefts node == nil
    then s.rights node
    else if s.rights node == nil
    then s.lefts node
    else if s.lefts subst == nil
    then s.rights subst
    else s.lefts subst

-- The lines marked as debug stuff.
unfoldable pub forget : ℕ → Nodes → Nodes
forget node s = set_parent node null (set_child right node null (set_child left node null s))

-- `subst` comes in the place of `node`, which is another.
unfoldable pub replace : (nil node subst temp : ℕ) → Nodes → Nodes
replace nil node subst temp s =
    let s1 = set_parent temp (if s.parent subst == node then subst else s.parent subst) s in
    let s2 = set_child left subst (s1.lefts node) s1 in
    let s3 = set_child right subst (s2.rights node) s2 in
    let s4 = set_parent subst (s3.parent node) s3 in
    let s5 = paint (s4.red node) subst s4 in
    let above = s5.parent node in
    let s6 =
      if node == s5.root
      then set_root subst s5
      else set_child (side_of (node == s5.lefts above)) above subst s5 in
    let s7 = if s6.lefts subst == nil then s6 else set_parent (s6.lefts subst) subst s6 in
    if s7.rights subst == nil then s7 else set_parent (s7.rights subst) subst s7

-- A round of the fixup with the sibling `w`, behind the case of a red one: the node with which the
-- loop goes on. `side` is the side of `temp`.
unfoldable pub delete_turn : (side : Side) (nil temp w : ℕ) → Nodes → ℕ × Nodes
delete_turn side nil temp w s =
    let far_black = not (s.red (child (other side) s w)) in
    let s1 =
      if far_black
      then rotate (other side) nil w (paint true w (paint false (child side s w) s))
      else s in
    let w' = if far_black then child (other side) s1 (s1.parent temp) else w in
    let s2 = paint (s1.red (s1.parent temp)) w' s1 in
    let s3 = paint false (s2.parent temp) s2 in
    let s4 = paint false (child (other side) s3 w') s3 in
    let s5 = rotate side nil (s4.parent temp) s4 in
    if not (s.red (child side s w)) && far_black
    then (s.parent temp, paint true w s)
    else (s5.root, s5)

-- The case of a red sibling, and the rest of the round.
unfoldable pub delete_round : (side : Side) (nil temp : ℕ) → Nodes → ℕ × Nodes
delete_round side nil temp s =
    let w = child (other side) s (s.parent temp) in
    let s1 = paint false w s in
    let s2 = paint true (s1.parent temp) s1 in
    let s3 = rotate side nil (s2.parent temp) s2 in
    if s.red w
    then delete_turn side nil temp (child (other side) s3 (s3.parent temp)) s3
    else delete_turn side nil temp w s

-- The loop of the fixup, and the colour behind it.
unfoldable pub delete_balance : (nil fuel temp : ℕ) → Nodes → Option Nodes
delete_balance nil zero temp s = none
delete_balance nil (suc fuel) temp s =
    let turned = delete_round (side_of (temp == s.lefts (s.parent temp))) nil temp s in
    let rest = delete_balance nil fuel turned.0 turned.1 in
    if not (temp == s.root) && not (s.red temp) then rest else some (paint false temp s)

-- `subst` is not the root.
unfoldable pub unhook : (nil fuel node subst temp : ℕ) → Nodes → Option Nodes
unhook nil fuel node subst temp s =
    let red = s.red subst in
    let above = s.parent subst in
    let s1 = set_child (side_of (subst == s.lefts above)) above temp s in
    let s2 =
      if subst == node
      then set_parent temp (s1.parent subst) s1
      else replace nil node subst temp s1 in
    let s3 = forget node s2 in
    let balanced = delete_balance nil fuel temp s3 in if red then some s3 else balanced

-- `yf_rbtree_delete`
unfoldable pub delete : (nil fuel node : ℕ) → Nodes → Option Nodes
delete nil fuel node s = elim (leaving nil fuel node s) [
  | none ↦ none
  | some subst ↦
      let temp = taking nil node subst s in
      let last = forget node (paint false temp (set_root temp s)) in
      let unhooked = unhook nil fuel node subst temp s in
      if subst == s.root then some last else unhooked
]
