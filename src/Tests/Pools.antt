-- ===== src/Tests/Pools.antt =====
-- A group of ids with one slice, and a pool of two nodes of which the first is in use.
use yifei.Prelude.{ℕ, ◌/◌, ◌^◌, ◌≡◌, refl, arith, [], ◌∷◌, none, some}
use yifei.Core.{success, returned}
use yifei.BitOp.{yf_mod, align}
use yifei.IdSeed.{Shared, SeedGroup, seed_alloc, seed_group_init, group_update, first_slice}
use yifei.IdSeed.Reserve.{IsReserved, Hands, seed_alloc-Hands}
use yifei.NodePool.{NodePool, zero_head, used_head, alloc_node, get_id_by_node, get_node_by_id}
use yifei.NodePool.Chunks.{HnPool, hnpool_free, hnpool_id2node}
use yifei.NodePool.Growth.{hnpool_alloc, unfinished}
use yifei.NodePool.Ends.{hnpool_alloc-ends}
use yifei.Prelude.{◌≢◌}
use yifei.NodePool.Stale.{id_in, hnpool_id2node-hnpool_free}
use yifei.NodePool.Ids.{InUse, get_node_by_id-get_id_by_node}
use yifei.NodePool.Free.{IsValid, HandsOut, alloc_node-HandsOut}

abbrev shared : Shared
shared = record { group_used = 180224; start_factor = 2 }

abbrev group : SeedGroup
group = record { seed = 163840; slice_multi = 1; used_slice = 0 }

group-IsReserved : IsReserved shared group
group-IsReserved = record {
  few = omega arith;
  unused = omega arith;
  whole = omega arith;
  passed = omega arith;
}

seed_alloc_example :
    (id : ℕ) × (s' : Shared) × (g' : SeedGroup) × (seed_alloc 1000000 shared group
      ≡ returned (id, s', g'))
    × Hands shared group id s' g'
seed_alloc_example = seed_alloc-Hands 1000000 shared group group-IsReserved (omega arith)

abbrev pool : NodePool
pool = record {
  total_num = 2;
  pool_index = 3;
  each_taken_size = 24;
  heads = used_head 163839 ∷ zero_head ∷ [];
  free_list = 1 ∷ [];
  free_size = 1;
  id_seed = group;
}

pool-IsValid : IsValid pool
pool-IsValid = record {
  stored = refl;
  counted = refl;
  distinct = (tt, tt);
  free = ((omega arith, refl), tt);
}

pool-InUse : InUse pool 0
pool-InUse = record { used = refl; marked = refl; narrow = omega arith }

round_trip_example :
    (id : ℕ) × (get_id_by_node pool 0 ≡ returned id)
    × (get_node_by_id pool id ≡ returned (some 0))
    × (id / 2 ^ 56 ≡ 3)
round_trip_example = get_node_by_id-get_id_by_node pool 0 (omega arith) (omega arith) pool-InUse

abbrev moved : SeedGroup
moved = record { seed = 163841; slice_multi = 1; used_slice = 0 }

seed_of_pool : seed_alloc 1000000 shared group ≡ returned (163840, shared, moved)
unfolding seed_alloc yf_mod
seed_of_pool = refl

alloc_node_example :
    (node : ℕ) × (pool' : NodePool) × (alloc_node 1000000 shared pool
      ≡ returned (some node, shared, pool'))
    × HandsOut pool node 163840 pool'
alloc_node_example =
    alloc_node-HandsOut 1000000 shared pool 163840 shared moved pool-IsValid (omega arith)
      seed_of_pool

abbrev one_slice : SeedGroup
one_slice = record { seed = 180224; slice_multi = 1; used_slice = 0 }

abbrev one_used : Shared
one_used = record { group_used = 196608; start_factor = 2 }

init_seed : seed_group_init 1000000 shared group 0 ≡ returned (success, one_used, one_slice)
unfolding seed_group_init group_update first_slice align
init_seed = refl

abbrev chunks : HnPool
chunks = record {
  num_per_chunk = 2;
  max_chunk = 4;
  used_chunk = 1;
  alloc_chunk = 0;
  node_taken_size = 24;
  node_pools = pool ∷ [];
  node_pool_infos = 0 ∷ [];
}

hnpool_free_example :
    (hnpool_id2node chunks (id_in chunks 0 0) ≡ returned (some 0))
    × (hp' : HnPool) × (hnpool_free chunks (id_in chunks 0 0) none ≡ returned hp')
    × (hnpool_id2node hp' (id_in chunks 0 0) ≡ returned none)
hnpool_free_example =
    hnpool_id2node-hnpool_free chunks 0 0 (omega arith) pool-InUse (omega arith) (omega arith) refl
      (omega arith)

hnpool_alloc_example : hnpool_alloc (λ key infos. infos) 1000000 shared chunks 3 ≢ unfinished
hnpool_alloc_example =
    hnpool_alloc-ends (λ key infos. infos) 1000000 shared chunks 3
      (record { here = omega arith; room = omega arith; few = omega arith })
