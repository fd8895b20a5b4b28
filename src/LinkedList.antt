-- ===== src/LinkedList.antt =====
-- src/base_struct/yf_list.h: the intrusive lists, as links in memory. An address is a number, and
-- `NULL` is 0.
pub mod Ring
pub mod Single
use yifei.Prelude.{
  ℕ, zero, suc, Option, none, some, Bool, not, ◌||◌, ◌==◌, if◌then◌else◌, List, [], ◌∷◌,
}

abbrev pub null : ℕ
null = 0

-- The fields `next` and `prev` of the parts at each address: `yf_list_part_t`.
pub record Links : Type 0 where
  pub next : ℕ → ℕ
  pub prev : ℕ → ℕ

unfoldable pub update : (ℕ → ℕ) → ℕ → ℕ → ℕ → ℕ
update f p v q = if p == q then v else f q

abbrev pub set_next : ℕ → ℕ → Links → Links
set_next p v s = record s { next = update s.next p v }

abbrev pub set_prev : ℕ → ℕ → Links → Links
set_prev p v s = record s { prev = update s.prev p v }

-- `yf_init_list_head`
unfoldable pub init_list_head : ℕ → Links → Links
init_list_head p s = set_prev p p (set_next p p s)

-- `__yf_list_add`
unfoldable pub list_add : ℕ → ℕ → ℕ → Links → Links
list_add new_node prev next s =
    set_next prev new_node
      (set_prev new_node prev (set_next new_node next (set_prev next new_node s)))

-- `yf_list_insert_after`, which is `yf_list_add_head`, and `yf_list_insert_before`, which is
-- `yf_list_add_tail`.
unfoldable pub list_add_head : ℕ → ℕ → Links → Links
unfolding list_add
list_add_head new_node list s = list_add new_node list (s.next list) s

unfoldable pub list_add_tail : ℕ → ℕ → Links → Links
unfolding list_add
list_add_tail new_node list s = list_add new_node (s.prev list) list s

-- `__yf_list_del`
unfoldable pub unlink : ℕ → ℕ → Links → Links
unlink prev next s =
    if prev == null || next == null then s else set_next prev next (set_prev next prev s)

-- `yf_list_linked`
unfoldable pub list_linked : ℕ → Links → Bool
list_linked entry s = not (s.prev entry == null)

-- `yf_list_del`
unfoldable pub list_del : ℕ → Links → Links
unfolding unlink
list_del entry s =
    set_prev entry null (set_next entry null (unlink (s.prev entry) (s.next entry) s))

-- `yf_list_del_init`
unfoldable pub list_del_init : ℕ → Links → Links
unfolding unlink init_list_head
list_del_init entry s = init_list_head entry (unlink (s.prev entry) (s.next entry) s)

-- `yf_list_move_head` and `yf_list_move_tail`
unfoldable pub list_move_head : ℕ → ℕ → Links → Links
unfolding unlink list_add_head
list_move_head entry head s = list_add_head entry head (unlink (s.prev entry) (s.next entry) s)

unfoldable pub list_move_tail : ℕ → ℕ → Links → Links
unfolding unlink list_add_tail
list_move_tail entry head s = list_add_tail entry head (unlink (s.prev entry) (s.next entry) s)

-- `yf_list_empty`
unfoldable pub list_empty : ℕ → Links → Bool
list_empty part s = s.next part == part

-- `__yf_list_splice` and `yf_list_splice`
unfoldable pub splice : ℕ → ℕ → Links → Links
splice list part s =
    let first = s.next list in
    let last = s.prev list in
    let at = s.next part in
    set_prev at last (set_next last at (set_next part first (set_prev first part s)))

unfoldable pub list_splice : ℕ → ℕ → Links → Links
unfolding splice list_empty init_list_head
list_splice list part s = if list_empty list s then s else init_list_head list (splice list part s)

-- `yf_list_pop_head` and `yf_list_pop_tail`; a popped part keeps its links.
unfoldable pub list_pop_head : ℕ → Links → Option ℕ × Links
unfolding list_empty unlink
list_pop_head part s =
    let head = s.next part in
    if list_empty part s then (none, s) else (some head, unlink part (s.next head) s)

unfoldable pub list_pop_tail : ℕ → Links → Option ℕ × Links
unfolding list_empty unlink
list_pop_tail part s =
    let tail = s.prev part in
    if list_empty part s then (none, s) else (some tail, unlink (s.prev tail) part s)

-- The parts that `yf_list_for_each` goes through, on fuel.
unfoldable pub list_for_each : ℕ → ℕ → ℕ → Links → List ℕ
list_for_each zero pos part s = []
list_for_each (suc fuel) pos part s =
    let rest = list_for_each fuel (s.next pos) part s in if pos == part then [] else pos ∷ rest
