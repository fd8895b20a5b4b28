-- ===== src/NodePool/Stale.antt =====
-- Freeing by an id in a pool of chunks.
use yifei.Prelude.{
  ℕ, ◌+◌, ◌*◌, ◌/◌, ◌^◌, ◌<◌, ◌≡◌, ap, ◌∙◌, arith, none, some, get_or, set, length, get_or-set_self,
}
use yifei.Core.{returned}
use yifei.NodePool.{NodePool, zero_head, get_node_by_id}
use yifei.NodePool.Ids.{InUse, get_node_by_id-InUse, get_node_by_id-free_node}
use yifei.NodePool.Chunks.{HnPool, zero_pool, hnpool_id2node, hnpool_free, free_found, freed_in}

-- The chunk of an id, and the id that names a node of it.
abbrev pub chunk_of : HnPool → ℕ → NodePool
chunk_of hp chunk = get_or hp.node_pools chunk zero_pool

abbrev pub id_in : HnPool → ℕ → ℕ → ℕ
id_in hp chunk node =
    (node + chunk * 2 ^ 24) * 2 ^ 32 + (get_or (chunk_of hp chunk).heads node zero_head).id_pre

-- For a node in use whose id part is not 0, in a chunk of less than 2^24 nodes with a head for
-- each: the id that names it finds it, `yf_hnpool_free` by that id alone succeeds, and the id
-- then finds no node.
pub hnpool_id2node-hnpool_free :
    (hp : HnPool) (chunk node : ℕ)
    → chunk < length hp.node_pools
    → InUse (chunk_of hp chunk) node
    → 0 < (get_or (chunk_of hp chunk).heads node zero_head).id_pre
    → node < (chunk_of hp chunk).total_num
    → length (chunk_of hp chunk).heads ≡ (chunk_of hp chunk).total_num
    → (chunk_of hp chunk).total_num < 2 ^ 24
    → (hnpool_id2node hp (id_in hp chunk node) ≡ returned (some node))
      × (hp' : HnPool) × (hnpool_free hp (id_in hp chunk node) none ≡ returned hp')
      × (hnpool_id2node hp' (id_in hp chunk node) ≡ returned none)
unfolding hnpool_id2node hnpool_free free_found freed_in
hnpool_id2node-hnpool_free hp chunk node inside u pos small long few =
    let pool = chunk_of hp chunk in
    let id = id_in hp chunk node in
    let top : id / 2 ^ 56 ≡ chunk = omega (arith, u.narrow) in
    let found = get_node_by_id-InUse pool node chunk (omega arith) u in
    let (pool', freed, gone) =
      get_node_by_id-free_node pool node chunk (get_or pool.heads node zero_head).id_pre u pos small
        long few (omega (arith, u.narrow)) in
    let here = get_or-set_self hp.node_pools chunk pool' zero_pool inside in
    let look : hnpool_id2node hp id ≡ returned (some node) =
      ap (λ k. get_node_by_id (get_or hp.node_pools k zero_pool) id) top ∙ found in
    (
      look,
      record hp { node_pools = set hp.node_pools chunk pool' },
      ap (free_found hp (id / 2 ^ 56)) look
          ∙ ap (λ k. free_found hp k (returned (some node))) top
          ∙ ap (freed_in hp chunk) freed,
      ap (λ k. get_node_by_id (get_or (set hp.node_pools chunk pool') k zero_pool) id) top
          ∙ ap (λ q. get_node_by_id q id) here
          ∙ gone,
    )
