-- ===== src/NodePool/Ids.antt =====
-- The ids of nodes: which node an id finds, and when an id finds none.
use native.Mathlib.Nat.{mod-eq_of_lt}
use yifei.Prelude.{
  ℕ, ◌+◌, ◌-◌, ◌*◌, ◌/◌, ◌%◌, ◌^◌, ◌<◌, ◌≡◌, ◌≢◌, refl, ap, ◌∙◌, arith, bit_and, none, some, get_or,
  set, length, get_or-set_self, eq→==, ne→==, lt→ltb,
}
use yifei.Prelude.Bits.{bit_and_mask}
use yifei.Prelude.Joins.{bit_or_low, bit_or_high}
use yifei.Core.{magic_val, returned}
use yifei.NodePool.{NodePool, zero_head, free_node, get_id_by_node, get_node_by_id}

-- A node that is handed out, as the fields of its head say.
pub record InUse (pool : NodePool) (node : ℕ) : Type 0 where
  pub used : (get_or pool.heads node zero_head).used ≡ 1
  pub marked : (get_or pool.heads node zero_head).magic ≡ magic_val
  pub narrow : (get_or pool.heads node zero_head).id_pre < 2 ^ 31

-- An id as the sum of its three fields.
abbrev pub id_value : NodePool → ℕ → ℕ
id_value pool node =
    (node + pool.pool_index * 2 ^ 24) * 2 ^ 32 + (get_or pool.heads node zero_head).id_pre

get_id_by_node_lem :
    (pool : NodePool) (node : ℕ)
    → pool.pool_index < 2 ^ 8
    → node < 2 ^ 24
    → InUse pool node
    → get_id_by_node pool node ≡ returned (id_value pool node)
unfolding get_id_by_node
get_id_by_node_lem pool node few small u =
    let head = get_or pool.heads node zero_head in
    let upper = bit_or_low 24 node pool.pool_index small in
    let fits : (node + pool.pool_index * 2 ^ 24) * 2 ^ 32 % 2 ^ 64
        ≡ (node + pool.pool_index * 2 ^ 24) * 2 ^ 32 =
      mod-eq_of_lt (omega arith) in
    rw (u.used, eq→== _ _ u.marked, upper, fits)
      (ap returned
        (bit_or_high 32 (node + pool.pool_index * 2 ^ 24) head.id_pre (omega (arith, u.narrow))))

index_of :
    (node chunk low : ℕ)
    → node < 2 ^ 24
    → low < 2 ^ 32
    → bit_and (((node + chunk * 2 ^ 24) * 2 ^ 32 + low) / 2 ^ 32) (2 ^ 24 - 1) ≡ node
index_of node chunk low small l =
    bit_and_mask 24 (((node + chunk * 2 ^ 24) * 2 ^ 32 + low) / 2 ^ 32) ∙ omega arith

-- For a node in use, with an index below 2^24 in a pool whose own index is below 2^8,
-- `yf_get_id_by_node` gives an id with which `yf_get_node_by_id` finds the node again, and whose
-- highest byte is the pool's index.
pub get_node_by_id-get_id_by_node :
    (pool : NodePool) (node : ℕ)
    → pool.pool_index < 2 ^ 8
    → node < 2 ^ 24
    → InUse pool node
    → (id : ℕ) × (get_id_by_node pool node ≡ returned id)
      × (get_node_by_id pool id ≡ returned (some node))
      × (id / 2 ^ 56 ≡ pool.pool_index)
unfolding get_node_by_id
get_node_by_id-get_id_by_node pool node few small u =
    let head = get_or pool.heads node zero_head in
    let i = index_of node pool.pool_index head.id_pre small (omega (arith, u.narrow)) in
    let low : id_value pool node % 2 ^ 32 ≡ head.id_pre = omega (arith, u.narrow) in
    (
      id_value pool node,
      get_id_by_node_lem pool node few small u,
      rw (i, u.used, eq→== _ _ u.marked, low, eq→== head.id_pre head.id_pre refl) refl,
      omega (arith, u.narrow),
    )

-- In a pool of less than 2^24 nodes, with a head for each, freeing a node in use whose id part is
-- not 0 succeeds, and `yf_get_node_by_id` then finds no node for any id that names its place,
-- whatever its chunk and its lower 32 bits are.
pub get_node_by_id-free_node :
    (pool : NodePool) (node chunk low : ℕ)
    → InUse pool node
    → 0 < (get_or pool.heads node zero_head).id_pre
    → node < pool.total_num
    → length pool.heads ≡ pool.total_num
    → pool.total_num < 2 ^ 24
    → low < 2 ^ 32
    → (pool' : NodePool) × (free_node pool node ≡ returned pool')
      × (get_node_by_id pool' ((node + chunk * 2 ^ 24) * 2 ^ 32 + low) ≡ returned none)
unfolding get_node_by_id free_node
get_node_by_id-free_node pool node chunk low u pos inside long few l =
    let i = index_of node chunk low (omega arith) l in
    let gone : get_or (set pool.heads node zero_head) node zero_head ≡ zero_head =
      get_or-set_self pool.heads node zero_head zero_head (omega arith) in
    rw
      (
        ne→== _ _ (let n : (get_or pool.heads node zero_head).id_pre ≢ 0 = omega arith in n),
        u.used,
        eq→== _ _ u.marked,
        lt→ltb _ _ inside,
      )
      (_, refl, rw (i, gone) refl)

pub get_node_by_id-InUse :
    (pool : NodePool) (node chunk : ℕ)
    → node < 2 ^ 24
    → InUse pool node
    → get_node_by_id pool
        ((node + chunk * 2 ^ 24) * 2 ^ 32 + (get_or pool.heads node zero_head).id_pre)
      ≡ returned (some node)
unfolding get_node_by_id
get_node_by_id-InUse pool node chunk small u =
    let head = get_or pool.heads node zero_head in
    let i = index_of node chunk head.id_pre small (omega (arith, u.narrow)) in
    let low : ((node + chunk * 2 ^ 24) * 2 ^ 32 + head.id_pre) % 2 ^ 32 ≡ head.id_pre =
      omega (arith, u.narrow) in
    rw (i, u.used, eq→== _ _ u.marked, low, eq→== head.id_pre head.id_pre refl) refl
