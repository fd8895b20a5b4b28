-- ===== src/NodePool/Growth.antt =====
-- `yf_hnpool_alloc` of yf_node_pool.c: a node from the chunks, which it sorts and adds to when
-- the one it looks at has no free node.
use yifei.Prelude.{
  ℕ, zero, suc, ◌+◌, ◌*◌, ◌%◌, ◌^◌, Bool, true, false, not, ◌&&◌, Option, none, some, List, ltb,
  ◌==◌, if◌then◌else◌, get_or, set,
}
use yifei.Core.{Checked, returned, assert_failed}
use yifei.IdSeed.{Shared}
use yifei.NodePool.{NodePool, alloc_node, get_id_by_node}
use yifei.NodePool.Chunks.{HnPool, zero_pool, init_child_pool}

-- What a call answers: a node of a chunk with its id, or NULL, with the pool behind it.
pub data Alloc : Type 0 where
  given : (chunk node id : ℕ) → Shared → HnPool → Alloc
  refused : Shared → HnPool → Alloc
  failed : Alloc
  unfinished : Alloc

-- The chunk that the entry `i` of `node_pool_infos` points to.
abbrev pub info_pool : HnPool → List ℕ → ℕ → NodePool
info_pool hp infos i = get_or hp.node_pools (get_or infos i 0) zero_pool

unfoldable pub with_id : ℕ → ℕ → Shared → HnPool → Checked ℕ → Alloc
with_id chunk node shared hp (returned id) = given chunk node id shared hp
with_id chunk node shared hp assert_failed = failed

-- The node that a chunk gave: `assert(node)`, and the id.
unfoldable pub from_chunk : HnPool → ℕ → Checked (Option ℕ × Shared × NodePool) → Alloc
unfolding with_id
from_chunk hp chunk (returned (some node, shared, pool)) =
    with_id chunk node shared (record hp { node_pools = set hp.node_pools chunk pool })
      (get_id_by_node pool node)
from_chunk hp chunk (returned (none, shared, pool)) = failed
from_chunk hp chunk assert_failed = failed

-- What the next round starts with: the shared counter, the pool, `sorted`, and the number of
-- chunks that `yf_alloc` still has memory for.
abbrev pub Next : Type 0
Next = Shared → HnPool → Bool → ℕ → Alloc

unfoldable pub grown : Next → ℕ → Checked (Shared × HnPool) → Alloc
grown next memory (returned (shared, hp)) =
    next shared (record hp { alloc_chunk = (hp.alloc_chunk + 1) % 2 ^ 8 }) true memory
grown next memory assert_failed = failed

unfoldable pub grow : ℕ → Next → Shared → HnPool → ℕ → Alloc
unfolding grown
grow now next shared hp zero = refused shared hp
grow now next shared hp (suc memory) = grown next memory (init_child_pool now shared hp)

module _ (sort : (ℕ → ℕ) → List ℕ → List ℕ) where
  -- `yf_sort` by the number of free nodes, the greatest first; `sort` is `qsort`.
  abbrev pub ordered : HnPool → List ℕ
  ordered hp = sort (λ chunk. (get_or hp.node_pools chunk zero_pool).free_size) hp.node_pool_infos

  -- The end of the chunks: they are sorted once, and then one is added.
  unfoldable pub at_last : ℕ → Next → Next
  unfolding grow
  at_last now next shared hp sorted memory =
      let infos = if sorted then hp.node_pool_infos else ordered hp in
      let hp' = record hp { node_pool_infos = infos } in
      if not sorted && not ((info_pool hp infos 0).free_size == 0)
      then next shared (record hp' { alloc_chunk = 0 }) true memory
      else if ltb hp.used_chunk hp.max_chunk
      then grow now next shared hp' memory
      else refused shared hp'

  -- A round of the `while (1)`.
  unfoldable pub alloc_round : ℕ → Next → Next
  unfolding at_last from_chunk
  alloc_round now next shared hp sorted memory =
      let pool = info_pool hp hp.node_pool_infos hp.alloc_chunk in
      if not (pool.free_size == 0)
      then from_chunk hp (get_or hp.node_pool_infos hp.alloc_chunk 0) (alloc_node now shared pool)
      else if (hp.alloc_chunk + 1) == hp.used_chunk
      then at_last now next shared hp sorted memory
      else next shared (record hp { alloc_chunk = (hp.alloc_chunk + 1) % 2 ^ 8 }) sorted memory

  unfoldable pub alloc_rounds : ℕ → ℕ → Next
  unfolding alloc_round
  alloc_rounds zero now shared hp sorted memory = unfinished
  alloc_rounds (suc fuel) now shared hp sorted memory =
      alloc_round now (alloc_rounds fuel now) shared hp sorted memory

  -- `yf_hnpool_alloc`: from the chunk that it stands at to the last, once more from the first
  -- after the sort, and on with new chunks.
  unfoldable pub hnpool_alloc : ℕ → Shared → HnPool → ℕ → Alloc
  unfolding alloc_rounds
  hnpool_alloc now shared hp memory = alloc_rounds (2 * hp.max_chunk + 2) now shared hp false memory
