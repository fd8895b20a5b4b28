-- ===== src/NodePool/Free.antt =====
-- The free list of a node pool: handing nodes out and taking them back.
use yifei.Prelude.{
  ℕ, zero, ◌+◌, ◌-◌, ◌%◌, ◌^◌, ◌≤◌, ◌<◌, ◌≡◌, ◌≢◌, refl, sym, ap, ◌∙◌, arith, some, List, [], ◌∷◌,
  get_or, set, length, length-set, replicate, length-replicate, get_or-set_self, get_or-set_ne,
  subst, eq→==, ne→==, lt→ltb, suc, Absent, Distinct,
}
use native.Mathlib.Nat.{mod-eq_of_lt}
use yifei.Core.{Status, returned}
use yifei.IdSeed.{Shared, SeedGroup, seed_alloc, seed_group_init}
use yifei.NodePool.{
  NodePool, NodeHead, zero_head, used_head, node_head_size, push_nodes, fill_pool, init_node_pool,
  take_node, alloc_listed, alloc_node, free_node,
}
use yifei.NodePool.Ids.{InUse}

-- Every node of a list is inside the array and has a zeroed head.
abbrev pub AllFree : List NodeHead → List ℕ → Type 0
AllFree heads [] = Unit {0}
AllFree heads (x ∷ xs) =
    ((x < length heads) × (get_or heads x zero_head ≡ zero_head)) × AllFree heads xs

pub record IsValid (pool : NodePool) : Type 0 where
  pub stored : length pool.heads ≡ pool.total_num
  pub counted : pool.free_size ≡ length pool.free_list
  pub distinct : Distinct pool.free_list
  pub free : AllFree pool.heads pool.free_list

-- A change of one node's head leaves the others free.
AllFree-set :
    (heads : List NodeHead) (node : ℕ) (head : NodeHead) (xs : List ℕ)
    → Absent node xs
    → AllFree heads xs
    → AllFree (set heads node head) xs
AllFree-set heads node head [] a f = tt
AllFree-set heads node head (x ∷ xs) a f = (
  (
    omega (arith, length-set heads node head, f.0.0),
    get_or-set_ne heads node x head zero_head a.0 ∙ f.0.1,
  ),
  AllFree-set heads node head xs a.1 f.1,
)

-- A node in use is not on the list of free nodes.
InUse-Absent :
    (heads : List NodeHead) (node : ℕ) (xs : List ℕ)
    → (get_or heads node zero_head).used ≡ 1
    → AllFree heads xs
    → Absent node xs
InUse-Absent heads node [] u f = tt
InUse-Absent heads node (x ∷ xs) u f = (
  λ e. absurd (
      let z : 1 ≡ 0 =
        sym u ∙ ap (λ k. (get_or heads k zero_head).used) e ∙ ap (λ h. h.used) f.0.1 in
      omega (arith, z)),
  InUse-Absent heads node xs u f.1,
)

-- What handing out a node does.
pub record HandsOut (pool : NodePool) (node id : ℕ) (pool' : NodePool) : Type 0 where
  pub was_free : get_or pool.heads node zero_head ≡ zero_head
  pub now_used : get_or pool'.heads node zero_head ≡ used_head id
  pub others :
      (other : ℕ)
      → node ≢ other
      → get_or pool'.heads other zero_head ≡ get_or pool.heads other zero_head
  pub fewer : pool'.free_size + 1 ≡ pool.free_size
  pub valid : IsValid pool'

hands_out :
    (pool : NodePool) (node : ℕ) (rest : List ℕ) (id : ℕ) (seed : SeedGroup)
    → IsValid pool
    → pool.free_list ≡ node ∷ rest
    → HandsOut pool node id (record pool {
      heads = set pool.heads node (used_head id);
      free_list = rest;
      free_size = pool.free_size - 1;
      id_seed = seed;
    })
hands_out pool node rest id seed v e =
    let d = subst Distinct e v.distinct in
    let f = subst (AllFree pool.heads) e v.free in
    let count : pool.free_size ≡ suc (length rest) = v.counted ∙ ap length e in
    record {
      was_free = f.0.1;
      now_used = get_or-set_self pool.heads node (used_head id) zero_head f.0.0;
      others = λ other ne. get_or-set_ne pool.heads node other (used_head id) zero_head ne;
      fewer = omega (arith, count);
      valid = record {
        stored = length-set pool.heads node (used_head id) ∙ v.stored;
        counted = omega (arith, count);
        distinct = d.1;
        free = AllFree-set pool.heads node (used_head id) rest d.0 f.1;
      };
    }

-- In a valid pool with a free node, when `yf_id_seed_alloc` gives an id,
-- `yf_alloc_node_from_pool` hands out a node whose head was zeroed, marks it used with that id,
-- leaves the heads of all other nodes, counts one free node less, and keeps the pool valid: the
-- free list holds distinct nodes with zeroed heads, as many as are counted.
pub alloc_node-HandsOut :
    (now : ℕ) (shared : Shared) (pool : NodePool) (id : ℕ) (shared' : Shared) (seed : SeedGroup)
    → IsValid pool
    → 0 < pool.free_size
    → seed_alloc now shared pool.id_seed ≡ returned (id, shared', seed)
    → (node : ℕ) × (pool' : NodePool) × (alloc_node now shared pool
        ≡ returned (some node, shared', pool'))
      × HandsOut pool node id pool'
unfolding alloc_node alloc_listed take_node
alloc_node-HandsOut now shared pool id shared' seed v p e =
    rw (ne→== pool.free_size 0 (omega arith)) (listed pool.free_list refl)
  where
    listed :
        (xs : List ℕ)
        → pool.free_list ≡ xs
        → (node : ℕ) × (pool' : NodePool) × (alloc_listed now shared pool xs
            ≡ returned (some node, shared', pool'))
          × HandsOut pool node id pool'
    listed [] z = absurd (omega (arith, v.counted, ap length z))
    listed (node ∷ rest) z =
        (node, _, ap (take_node pool node rest) e, hands_out pool node rest id seed v z)

-- In a valid pool whose count of free nodes does not overflow 32 bits, freeing a node in use
-- inside the array whose id part is not 0 succeeds, zeroes its head, counts one free node more
-- and keeps the pool valid.
free_node-IsValid :
    (pool : NodePool) (node : ℕ)
    → IsValid pool
    → InUse pool node
    → 0 < (get_or pool.heads node zero_head).id_pre
    → node < pool.total_num
    → pool.free_size + 1 < 2 ^ 32
    → (pool' : NodePool) × (free_node pool node ≡ returned pool')
      × (get_or pool'.heads node zero_head ≡ zero_head)
      × (pool'.free_size ≡ pool.free_size + 1)
      × IsValid pool'
unfolding free_node
free_node-IsValid pool node v u pos inside room =
    let size : (pool.free_size + 1) % 2 ^ 32 ≡ pool.free_size + 1 = mod-eq_of_lt room in
    let gone = get_or-set_self pool.heads node zero_head zero_head (omega (arith, v.stored)) in
    let absent = InUse-Absent pool.heads node pool.free_list u.used v.free in
    rw
      (
        ne→== _ _ (let n : (get_or pool.heads node zero_head).id_pre ≢ 0 = omega arith in n),
        u.used,
        eq→== _ _ u.marked,
        lt→ltb _ _ inside,
        size,
      )
      (
        _,
        refl,
        gone,
        refl,
        record {
          stored = length-set pool.heads node zero_head ∙ v.stored;
          counted = omega (arith, v.counted);
          distinct = (absent, v.distinct);
          free = (
            (omega (arith, v.stored, length-set pool.heads node zero_head), gone),
            AllFree-set pool.heads node zero_head pool.free_list absent v.free,
          );
        },
      )

-- The first free list.
push_nodes-free : (n total : ℕ) → n ≤ total → AllFree (replicate total zero_head) (push_nodes n)
unfolding push_nodes
push_nodes-free zero total h = tt
push_nodes-free (suc n) total h = (
  (omega (arith, length-replicate total zero_head), get_or-zeroed total n),
  push_nodes-free n total (omega arith),
)
  where
    get_or-zeroed : (k i : ℕ) → get_or (replicate k zero_head) i zero_head ≡ zero_head
    get_or-zeroed zero i = refl
    get_or-zeroed (suc k) zero = refl
    get_or-zeroed (suc k) (suc i) = get_or-zeroed k i

push_nodes-Absent : (n x : ℕ) → n ≤ x → Absent x (push_nodes n)
unfolding push_nodes
push_nodes-Absent zero x h = tt
push_nodes-Absent (suc n) x h =
    ((λ e. absurd (omega (arith, e))), push_nodes-Absent n x (omega arith))

push_nodes-Distinct : (n : ℕ) → Distinct (push_nodes n)
unfolding push_nodes
push_nodes-Distinct zero = tt
push_nodes-Distinct (suc n) = (push_nodes-Absent n n (omega arith), push_nodes-Distinct n)

length-push_nodes : (n : ℕ) → n ≡ length (push_nodes n)
unfolding push_nodes
length-push_nodes zero = refl
length-push_nodes (suc n) = ap suc (length-push_nodes n)

-- When a node takes more than its head and the group of ids is set up, `yf_init_node_pool` leaves
-- a valid pool in which all nodes are free.
init_node_pool-IsValid :
    (now : ℕ) (shared : Shared) (pool : NodePool) (status : Status) (shared' : Shared)
    (seed : SeedGroup)
    → node_head_size < pool.each_taken_size
    → seed_group_init now shared pool.id_seed 0 ≡ returned (status, shared', seed)
    → (pool' : NodePool) × (init_node_pool now shared pool ≡ returned (shared', pool'))
      × (pool'.free_size ≡ pool.total_num)
      × IsValid pool'
unfolding init_node_pool fill_pool
init_node_pool-IsValid now shared pool status shared' seed big e = (
  record pool {
    heads = replicate pool.total_num zero_head;
    free_list = push_nodes pool.total_num;
    free_size = pool.total_num;
    id_seed = seed;
  },
  rw (lt→ltb _ _ big) (ap (fill_pool pool) e),
  refl,
  record {
    stored = length-replicate pool.total_num zero_head;
    counted = length-push_nodes pool.total_num;
    distinct = push_nodes-Distinct pool.total_num;
    free = push_nodes-free pool.total_num pool.total_num (omega arith);
  },
)
