-- ===== src/LinkedList/Single.antt =====
-- The single list of yf_list.h, whose parts have the field `next` alone.
use yifei.Prelude.{ℕ, Option, none, some, ◌==◌, if◌then◌else◌}
use yifei.LinkedList.{null, update}

-- `yf_init_slist_head`
unfoldable pub init_slist_head : ℕ → (ℕ → ℕ) → ℕ → ℕ
init_slist_head part next = update next part null

-- `yf_slist_push`
unfoldable pub slist_push : ℕ → ℕ → (ℕ → ℕ) → ℕ → ℕ
slist_push new_node part next = update (update next new_node (next part)) part new_node

-- `yf_slist_pop`
unfoldable pub slist_pop : ℕ → (ℕ → ℕ) → Option ℕ × (ℕ → ℕ)
slist_pop part next =
    let poped = next part in
    if poped == null
    then (none, next)
    else (some poped, update (update next part (next poped)) poped null)

-- `yf_slist_delete`
unfoldable pub slist_delete : ℕ → ℕ → (ℕ → ℕ) → ℕ → ℕ
slist_delete pre target next =
    if next target == null then next else update (update next pre (next target)) target null
