-- ===== src/Tests/Trees.antt =====
-- A red-black tree with the nodes 10 and 20, whose addresses are their keys and ranks. `nil` is 1.
use yifei.Prelude.{
  ℕ, ◌≡◌, refl, arith, true, false, not, List, [], ◌∷◌, ◌++◌, Option, none, some, ltb, ◌==◌,
  if◌then◌else◌, Bool-cases, inl, inr,
}
use yifei.RbTree.{
  right, Nodes, rbtree_init, Inserted, inserted, insert, insert_value, insert_balance, insert_turn,
  rotate, hang, put,
}
use yifei.RbTree.Shape.{Tree, leaf, node, flatten, IsTree}
use yifei.RbTree.Settle.{IsRedBlack, Gives}
use yifei.RbTree.Descend.{AllCompared}
use yifei.RbTree.Insert.{insert-IsRedBlack}
use yifei.RbTree.Walk.{
  for_each, for_each_from, for_each_r, for_each_r_from, for_each_safe, for_each_safe_from, step,
  find, tree_next, tree_prev, next_up, prev_up, far_end,
}
use yifei.RbTree.Visit.{for_each-flatten}
use yifei.RbTree.Find.{find-first_with}
use yifei.RbTree.Delete.{
  delete, unhook, replace, leaving, taking, forget, delete_balance, delete_round, delete_turn,
}
use yifei.RbTree.Dangling.{tree_next-delete}

abbrev less_than : ℕ → ℕ → ℕ
less_than a b = if ltb a b then 1 else 0

less_than-ltb : (a b : ℕ) → not (less_than a b == 0) ≡ ltb a b
less_than-ltb a b = elim (Bool-cases (ltb a b)) [ inl e ↦ rw e refl | inr e ↦ rw e refl ]

abbrev id : ℕ → ℕ
id a = a

abbrev two_nodes : Tree
two_nodes = node false (node true leaf 10 leaf) 20 leaf

abbrev two : Nodes
two = record {
  root = 20;
  lefts = λ q. if q == 20 then 10 else 1;
  rights = λ q. 1;
  parent = λ q. if q == 10 then 20 else 0;
  red = λ q. q == 10;
}

two-IsTree : IsTree id 1 two 2 100 20 0 two_nodes
two-IsTree = (
  (refl, omega arith, refl, refl, omega arith, omega arith),
  ((refl, omega arith, refl, refl, omega arith, omega arith), refl, refl),
  refl,
)

two-IsRedBlack : IsRedBlack id 1 2 100 two two_nodes
two-IsRedBlack = record {
  tree = two-IsTree;
  black = tt;
  height = 1;
  balanced = ((tt, tt, refl, refl), refl);
  nil_black = refl;
}

five-AllCompared : AllCompared less_than id true 5 two_nodes
five-AllCompared = (
  record { before = λ h. omega arith; behind = λ h. cc; apart = λ h. omega arith },
  (record { before = λ h. omega arith; behind = λ h. cc; apart = λ h. omega arith }, tt, tt),
  tt,
)

insert_example :
    (xs ys : List ℕ) × (flatten two_nodes ≡ xs ++ ys)
    × Gives id 1 2 100 (xs ++ 5 ∷ ys) (insert less_than 1 true 4 5 two)
insert_example =
    insert-IsRedBlack less_than id 1 true 4 5 2 100 two two_nodes two-IsRedBlack (omega arith)
      (omega arith) (omega arith) five-AllCompared (omega arith)

-- The insertion turns the tree: 10 is the root.
abbrev root_of : Inserted → ℕ
root_of (inserted s) = s.root
root_of _ = 0

insert_turns : root_of (insert less_than 1 true 4 5 two) ≡ 10
unfolding insert insert_value insert_balance insert_turn rotate hang put
insert_turns = refl

abbrev after_delete : Option Nodes → Option (List ℕ)
after_delete none = none
after_delete (some s) = for_each 1 9 s

abbrev after_insert : Inserted → Option (List ℕ)
after_insert (inserted s) = after_delete (delete 1 9 10 s)
after_insert _ = none

delete_visits : after_insert (insert less_than 1 true 4 5 two) ≡ some (5 ∷ 20 ∷ [])
unfolding insert insert_value insert_balance insert_turn rotate hang put delete unhook replace
    leaving taking forget delete_balance delete_round delete_turn for_each for_each_from tree_next
    next_up far_end
delete_visits = refl

empty_visits : for_each 1 2 (rbtree_init 1 two) ≡ some []
unfolding rbtree_init put for_each for_each_from far_end
empty_visits = refl

for_each_example : for_each 1 3 two ≡ some (10 ∷ 20 ∷ [])
for_each_example =
    for_each-flatten id 1 3 2 100 two two_nodes two-IsTree (λ e. cc) (omega arith) (omega arith)

find_example : find less_than id 1 3 10 two ≡ some 10
find_example =
    find-first_with less_than id id 1 3 10 2 100 two two_nodes less_than-ltb two-IsTree
      ((omega arith, tt), (tt, tt)) (omega arith, (omega arith, tt)) (omega arith)

-- The root 20 with the right child 30.
abbrev right_two : Nodes
right_two = record {
  root = 20;
  lefts = λ q. 1;
  rights = λ q. if q == 20 then 30 else 1;
  parent = λ q. if q == 30 then 20 else 0;
  red = λ q. q == 30;
}

backward : for_each_r 1 3 two ≡ some (20 ∷ 10 ∷ [])
unfolding for_each_r for_each_r_from tree_prev prev_up far_end
backward = refl

-- The loop that may delete, over a tree whose nodes it deletes: the one that ends is empty.
abbrev root_or : Option Nodes → ℕ
root_or none = 0
root_or (some s) = s.root

cleared : root_or (for_each_safe right (delete 1 9) 1 9 two) ≡ 1
unfolding for_each_safe for_each_safe_from step tree_next next_up far_end delete unhook replace
    leaving taking forget delete_balance delete_round delete_turn rotate put
cleared = refl

dangling_example :
    (s' : Nodes) × (delete 1 2 20 right_two ≡ some s')
    × (s'.root ≡ 30)
    × (tree_next 1 2 30 s' ≡ some 20)
dangling_example =
    tree_next-delete id 1 1 20 30 2 100 false true right_two
      (
        (refl, omega arith, refl, refl, omega arith, omega arith),
        refl,
        ((refl, omega arith, refl, refl, omega arith, omega arith), refl, refl),
      )
      (omega arith) (omega arith)
