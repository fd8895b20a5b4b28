-- ===== src/NodePool/Chunks.antt =====
-- The second part of yf_node_pool.c: a pool that grows by chunks, each of them a node pool.
use yifei.Prelude.{
  ℕ, ◌+◌, ◌-◌, ◌*◌, ◌/◌, ◌%◌, ◌^◌, ◌<◌, ◌≤◌, ◌≡◌, refl, arith, Bool, true, Option, none, some, List,
  [], ◌∷◌, ◌++◌, leb, ◌==◌, if◌then◌else◌, get_or, set, gt→leb, ne→==,
}
use native.Mathlib.Nat.{mul-le-mul_right}
use yifei.Core.{Checked, returned, assert_failed}
use yifei.IdSeed.{Shared}
use yifei.NodePool.{NodePool, node_taken_size, init_node_pool, free_node, get_node_by_id}

-- `yf_hnpool_in_t`: the chunks in use, and for each entry of `node_pool_infos` its chunk.
pub record HnPool : Type 0 where
  pub num_per_chunk : ℕ
  pub max_chunk : ℕ
  pub used_chunk : ℕ
  pub alloc_chunk : ℕ
  pub node_taken_size : ℕ
  pub node_pools : List NodePool
  pub node_pool_infos : List ℕ

-- An entry of `node_pools` before its use: the memory is zeroed.
abbrev pub zero_pool : NodePool
zero_pool = record {
  total_num = 0;
  pool_index = 0;
  each_taken_size = 0;
  heads = [];
  free_list = [];
  free_size = 0;
  id_seed = record { seed = 0; slice_multi = 0; used_slice = 0 };
}

unfoldable pub add_chunk : HnPool → Checked (Shared × NodePool) → Checked (Shared × HnPool)
add_chunk hnpool (returned (shared, pool)) = returned (
  shared,
  record hnpool {
    node_pools = hnpool.node_pools ++ (pool ∷ []);
    node_pool_infos = hnpool.node_pool_infos ++ (hnpool.used_chunk ∷ []);
    used_chunk = (hnpool.used_chunk + 1) % 2 ^ 8;
  },
)
add_chunk hnpool assert_failed = assert_failed

-- `_yf_hnpool_init_child_pool`; `total_num` is a field of 24 bits.
unfoldable pub init_child_pool : ℕ → Shared → HnPool → Checked (Shared × HnPool)
unfolding add_chunk
init_child_pool now shared hnpool = add_chunk hnpool (
    init_node_pool now shared (record zero_pool {
      total_num = hnpool.num_per_chunk % 2 ^ 24;
      each_taken_size = hnpool.node_taken_size;
      pool_index = hnpool.used_chunk;
    }))

unfoldable pub created : Checked (Shared × HnPool) → Checked (Option (Shared × HnPool))
created (returned r) = returned (some r)
created assert_failed = assert_failed

-- The right side of the guard of `yf_hnpool_create`: `1<<31` is the least `int`, which the
-- comparison with a `yf_u64_t` takes modulo 2^64.
abbrev pub guard : ℕ
guard = 2 ^ 64 - 2 ^ 31

-- `yf_hnpool_create`; the flag says whether `yf_alloc` gave the memory.
unfoldable pub hnpool_create : ℕ → Shared → ℕ → ℕ → ℕ → Bool → Checked (Option (Shared × HnPool))
unfolding created
hnpool_create now shared node_size num_per_chunk max_chunk memory =
    if num_per_chunk == 0
    then returned none
    else if leb guard (num_per_chunk * max_chunk % 2 ^ 64)
    then returned none
    else if memory
    then created (
        init_child_pool now shared (record {
          num_per_chunk = num_per_chunk;
          max_chunk = max_chunk;
          used_chunk = 0;
          alloc_chunk = 0;
          node_taken_size = node_taken_size node_size;
          node_pools = [];
          node_pool_infos = [];
        }))
    else returned none

-- `yf_hnpool_id2node`: the node's index in the chunk that the id names.
unfoldable pub hnpool_id2node : HnPool → ℕ → Checked (Option ℕ)
hnpool_id2node hp id = get_node_by_id (get_or hp.node_pools (id / 2 ^ 56) zero_pool) id

unfoldable pub freed_in : HnPool → ℕ → Checked NodePool → Checked HnPool
freed_in hp chunk (returned pool) =
    returned (record hp { node_pools = set hp.node_pools chunk pool })
freed_in hp chunk assert_failed = assert_failed

unfoldable pub free_found : HnPool → ℕ → Checked (Option ℕ) → Checked HnPool
unfolding freed_in
free_found hp chunk (returned (some node)) =
    freed_in hp chunk (free_node (get_or hp.node_pools chunk zero_pool) node)
free_found hp chunk (returned none) = returned hp
free_found hp chunk assert_failed = assert_failed

-- `yf_hnpool_free`; a node that the caller gives is a node of the id's chunk.
unfoldable pub hnpool_free : HnPool → ℕ → Option ℕ → Checked HnPool
unfolding free_found
hnpool_free hp id (some node) = free_found hp (id / 2 ^ 56) (returned (some node))
hnpool_free hp id none = free_found hp (id / 2 ^ 56) (hnpool_id2node hp id)

-- For every number of nodes from 1 in a chunk and every number of chunks that the types of the
-- arguments allow, when there is memory, `yf_hnpool_create` goes on to set up the first chunk:
-- its guard against too many nodes refuses nothing.
hnpool_create_any :
    (now : ℕ) (shared : Shared) (node_size num_per_chunk max_chunk : ℕ)
    → 0 < num_per_chunk
    → num_per_chunk < 2 ^ 32
    → max_chunk < 2 ^ 8
    → hnpool_create now shared node_size num_per_chunk max_chunk true
      ≡ created (
          init_child_pool now shared (record {
            num_per_chunk = num_per_chunk;
            max_chunk = max_chunk;
            used_chunk = 0;
            alloc_chunk = 0;
            node_taken_size = node_taken_size node_size;
            node_pools = [];
            node_pool_infos = [];
          }))
unfolding hnpool_create
hnpool_create_any now shared node_size num max p fits few =
    let product : num * max ≤ 2 ^ 32 * max = mul-le-mul_right max (omega arith) in
    let low : num * max % 2 ^ 64 < guard = omega (arith, product) in
    rw (ne→== num 0 (omega arith), gt→leb guard (num * max % 2 ^ 64) low) refl
