-- ===== src/NodePool.antt =====
-- src/base_struct/yf_node_pool.h and yf_node_pool.c: a pool of nodes with ids. A node's address
-- is its index in `nodes_array`, since the code only ever forms the addresses of whole nodes.
pub mod Ids
pub mod Free
pub mod Chunks
pub mod Stale
pub mod Growth
pub mod Ends
use yifei.Prelude.{
  ℕ, zero, suc, ◌+◌, ◌-◌, ◌*◌, ◌/◌, ◌%◌, ◌^◌, bit_and, bit_or, Bool, Option, none, some, List, [],
  ◌∷◌, ltb, leb, ◌==◌, not, ◌&&◌, if◌then◌else◌, length, get_elem?, get_or, set, replicate,
}
use yifei.Core.{Status, magic_val, Checked, returned, assert_failed}
use yifei.BitOp.{align}
use yifei.IdSeed.{Shared, SeedGroup, seed_group_init, seed_alloc}

-- `_np_node_head_t`
pub record NodeHead : Type 0 where
  pub magic : ℕ
  pub id_pre : ℕ
  pub used : ℕ

abbrev pub zero_head : NodeHead
zero_head = record { magic = 0; id_pre = 0; used = 0 }

-- `yf_node_pool_t`, with the heads of its nodes, and the list of free nodes, the last freed first.
pub record NodePool : Type 0 where
  pub total_num : ℕ
  pub pool_index : ℕ
  pub each_taken_size : ℕ
  pub heads : List NodeHead
  pub free_list : List ℕ
  pub free_size : ℕ
  pub id_seed : SeedGroup

-- `_NP_NODE_HEAD_SIZE`, at an alignment of 8: two 32-bit words.
abbrev pub node_head_size : ℕ
node_head_size = 8

-- `yf_node_taken_size` on a `yf_u32_t`.
pub node_taken_size : ℕ → ℕ
node_taken_size size = align ((node_head_size + size) % 2 ^ 32) 8 % 2 ^ 32

-- The loop of `yf_init_node_pool` after `n` rounds: the free list.
unfoldable pub push_nodes : ℕ → List ℕ
push_nodes zero = []
push_nodes (suc n) = n ∷ push_nodes n

unfoldable pub fill_pool :
    NodePool → Checked (Status × Shared × SeedGroup) → Checked (Shared × NodePool)
fill_pool pool (returned (status, shared, seed)) = returned (
  shared,
  record pool {
    heads = replicate pool.total_num zero_head;
    free_list = push_nodes pool.total_num;
    free_size = pool.total_num;
    id_seed = seed;
  },
)
fill_pool pool assert_failed = assert_failed

-- `yf_init_node_pool`
unfoldable pub init_node_pool : ℕ → Shared → NodePool → Checked (Shared × NodePool)
unfolding fill_pool
init_node_pool now shared pool =
    if ltb node_head_size pool.each_taken_size
    then fill_pool pool (seed_group_init now shared pool.id_seed 0)
    else assert_failed

-- The head of a node that `yf_alloc_node_from_pool` hands out: `id_pre` has 31 bits.
abbrev pub used_head : ℕ → NodeHead
used_head id = record { magic = magic_val; id_pre = id % 2 ^ 31; used = 1 }

unfoldable pub take_node :
    NodePool
    → ℕ
    → List ℕ
    → Checked (ℕ × Shared × SeedGroup)
    → Checked (Option ℕ × Shared × NodePool)
take_node pool part rest (returned (id, shared, seed)) = returned (
  some part,
  shared,
  record pool {
    heads = set pool.heads part (used_head id);
    free_list = rest;
    free_size = pool.free_size - 1;
    id_seed = seed;
  },
)
take_node pool part rest assert_failed = assert_failed

unfoldable pub alloc_listed :
    ℕ → Shared → NodePool → List ℕ → Checked (Option ℕ × Shared × NodePool)
unfolding take_node
alloc_listed now shared pool [] = assert_failed
alloc_listed now shared pool (part ∷ rest) =
    take_node pool part rest (seed_alloc now shared pool.id_seed)

-- `yf_alloc_node_from_pool`
unfoldable pub alloc_node : ℕ → Shared → NodePool → Checked (Option ℕ × Shared × NodePool)
unfolding alloc_listed
alloc_node now shared pool =
    if pool.free_size == 0
    then returned (none, shared, pool)
    else alloc_listed now shared pool pool.free_list

-- `yf_free_node_to_pool`
unfoldable pub free_node : NodePool → ℕ → Checked NodePool
free_node pool node =
    let head = get_or pool.heads node zero_head in
    if not (head.id_pre == 0) && (not (head.used == 0) && (head.magic == magic_val))
    then if ltb node pool.total_num
      then returned (record pool {
        heads = set pool.heads node zero_head;
        free_list = node ∷ pool.free_list;
        free_size = (pool.free_size + 1) % 2 ^ 32;
      })
      else assert_failed
    else assert_failed

-- `yf_get_id_by_node`
unfoldable pub get_id_by_node : NodePool → ℕ → Checked ℕ
get_id_by_node pool node =
    let head = get_or pool.heads node zero_head in
    let upper = bit_or node (pool.pool_index * 2 ^ 24) in
    if not (head.used == 0) && (head.magic == magic_val)
    then returned (bit_or (upper * 2 ^ 32 % 2 ^ 64) head.id_pre)
    else assert_failed

-- `yf_get_node_by_id`. It does not test the index: beyond the array, where C leaves the read
-- undefined, the model finds a zeroed head.
unfoldable pub get_node_by_id : NodePool → ℕ → Checked (Option ℕ)
get_node_by_id pool id =
    let node = bit_and (id / 2 ^ 32) (2 ^ 24 - 1) in
    let head = get_or pool.heads node zero_head in
    if head.used == 0
    then returned none
    else if head.magic == magic_val
    then if head.id_pre == id % 2 ^ 32 then returned (some node) else returned none
    else assert_failed
