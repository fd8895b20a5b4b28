-- ===== src/Tests/Lists.antt =====
-- A list at the address 1.
use yifei.Prelude.{◌≡◌, arith, [], ◌∷◌, ◌++◌, false}
use yifei.LinkedList.{Links, init_list_head, list_add_tail, list_del, list_linked, list_for_each}
use yifei.LinkedList.Ring.{
  IsRing, init_list_head-IsRing, list_add_tail-IsRing, list_del-IsRing, list_for_each-IsRing,
}

abbrev blank : Links
blank = record { next = λ p. 0; prev = λ p. 0 }

abbrev no_parts : Links
no_parts = init_list_head 1 blank

init_list_head_example : IsRing no_parts 1 []
init_list_head_example = init_list_head-IsRing blank 1 (omega arith)

list_add_tail_example : IsRing (list_add_tail 5 1 no_parts) 1 (5 ∷ [])
list_add_tail_example =
    list_add_tail-IsRing no_parts 1 5 [] (init_list_head-IsRing blank 1 (omega arith)) (omega arith)
      (omega arith) tt

abbrev two_parts : Links
two_parts = list_add_tail 8 1 (list_add_tail 5 1 no_parts)

two_parts-IsRing : IsRing two_parts 1 (5 ∷ 8 ∷ [])
two_parts-IsRing =
    list_add_tail-IsRing (list_add_tail 5 1 no_parts) 1 8 (5 ∷ [])
      (list_add_tail-IsRing no_parts 1 5 [] (init_list_head-IsRing blank 1 (omega arith))
        (omega arith) (omega arith) tt)
      (omega arith) (omega arith) (omega arith, tt)

list_del_example :
    IsRing (list_del 5 two_parts) 1 ([] ++ (8 ∷ []))
    × (list_linked 5 (list_del 5 two_parts) ≡ false)
list_del_example = list_del-IsRing 5 (8 ∷ []) two_parts 1 [] two_parts-IsRing

list_for_each_example : list_for_each 3 (two_parts.next 1) 1 two_parts ≡ 5 ∷ 8 ∷ []
list_for_each_example = list_for_each-IsRing two_parts 1 (5 ∷ 8 ∷ []) two_parts-IsRing
