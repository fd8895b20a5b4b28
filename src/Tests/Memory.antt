-- ===== src/Tests/Memory.antt =====
-- Memory pools: one of 1024 bytes at 4096, and one whose size is no multiple of 8.
use yifei.Prelude.{ℕ, ◌<◌, ◌≡◌, refl, arith, true, false, List, [], ◌∷◌, Option, some, inl}
use yifei.Core.{success}
use yifei.BitOp.{align}
use yifei.MemPool.{
  Block, Pool, create_pool, pcalloc, zero_bytes, palloc, palloc_small, palloc_block, try_blocks,
  place, fits, count_failed, block_size, pfree,
}
use yifei.Array.{Array, array_push, array_push_n, take_elements, move, last_of, end_of}
use yifei.Array.Room.{Pushes}
use yifei.Array.Push.{array_push_n-Pushes}
use yifei.MemPool.Hand.{IsValid, IsFresh, Allots, palloc-Allots}
use yifei.MemPool.Large.{palloc-pfree}
use yifei.MemPool.Past.{palloc-past_end}

abbrev block_of : (last end : ℕ) → Block
block_of last end = record { start = 4096; last = last; end = end; failed = 0 }

abbrev pool_of : Block → Pool
pool_of b = record { blocks = b ∷ []; max = 921; current = 0; large = []; cleanup = [] }

abbrev fresh_pool : Pool
fresh_pool = record (pool_of (block_of 4176 5120)) { max = 944 }

creates : create_pool 4096 1024 (4096 ∷ []) ≡ some fresh_pool
unfolding create_pool
creates = refl

fresh_pool-IsValid : IsValid fresh_pool []
unfolding block_size
fresh_pool-IsValid = record {
  good = (omega arith, tt, tt);
  held = tt;
  disjoint = tt;
  room = omega arith;
  whole = refl;
}

block-IsFresh : IsFresh fresh_pool 8192
unfolding block_size
block-IsFresh = record {
  aligned = refl;
  small = omega arith;
  clear = ((inl (omega arith), tt), tt);
}

palloc_example : Allots true 100 [] fresh_pool (palloc true 100 (8192 ∷ []) fresh_pool)
palloc_example =
    palloc-Allots true 100 8192 [] fresh_pool [] fresh_pool-IsValid (omega arith) block-IsFresh

-- A second block comes when the first is full.
abbrev address_of : Option ℕ × Pool × List ℕ → Option ℕ
address_of r = r.0

second_block : address_of (palloc true 200 (8192 ∷ []) (pool_of (block_of 5000 5120))) ≡ some 8224
unfolding palloc palloc_small palloc_block try_blocks place fits count_failed block_size align
second_block = refl

abbrev byte_at : ℕ → Option ℕ × (ℕ → ℕ) × Pool × List ℕ → ℕ
byte_at q (p, memory, pool, rest) = memory q

zeroed : byte_at 4183 (pcalloc 8 (λ q. 7) [] fresh_pool) ≡ 0
unfolding pcalloc zero_bytes palloc palloc_small try_blocks place fits align
zeroed = refl

behind_zeroed : byte_at 4184 (pcalloc 8 (λ q. 7) [] fresh_pool) ≡ 7
unfolding pcalloc zero_bytes palloc palloc_small try_blocks place fits align
behind_zeroed = refl

-- A pool of 1001 bytes that `yf_pnalloc` has used up.
used_up :
    palloc false 921 [] (pool_of (block_of 4176 5097))
    ≡ (some 4176, pool_of (block_of 5097 5097), [])
unfolding palloc palloc_small palloc_block try_blocks place fits
used_up = refl

rounded : 5097 < align 5097 8
unfolding align
rounded = omega arith

past_end_example :
    (m : ℕ) × (pool' : Pool) × (palloc true 16 [] (pool_of (block_of 5097 5097))
      ≡ (some m, pool', []))
    × (5097 < m)
past_end_example =
    palloc-past_end 16 (pool_of (block_of 5097 5097)) (block_of 5097 5097) refl refl (omega arith)
      (omega arith) (omega arith) rounded (omega arith)

abbrev with_large : Pool
with_large = record fresh_pool { large = 20480 ∷ 16384 ∷ [] }

pfree_example :
    (pool' : Pool) × (pfree 16384 with_large ≡ (success, pool'))
    × (palloc true 2000 (32768 ∷ []) pool'
        ≡ (some 32768, record with_large { large = 20480 ∷ 32768 ∷ [] }, []))
pfree_example =
    palloc-pfree true 2000 16384 32768 [] (20480 ∷ []) [] with_large refl
      (omega arith, omega arith, tt) (omega arith) (omega arith)

-- Two elements of 8 bytes, behind which the pool has gone on.
abbrev two_elements : Array
two_elements = record { elts = 4176; nelts = 2; size = 8; nalloc = 2 }

abbrev no_bytes_at : ℕ → ℕ
no_bytes_at q = 0

abbrev full_block : Pool
full_block = pool_of (block_of 4200 5120)

array_push_n_example :
    Pushes 3 6 two_elements no_bytes_at [] full_block
      (array_push_n 3 two_elements no_bytes_at [] full_block)
array_push_n_example =
    array_push_n-Pushes 3 two_elements no_bytes_at [] full_block (omega arith) (omega arith)
      (omega arith) (omega arith)

-- The two elements move to 4200, where the pool goes on.
moves : (array_push two_elements no_bytes_at [] full_block).element ≡ some 4216
unfolding array_push take_elements move last_of end_of palloc palloc_small palloc_block try_blocks
    place fits align
moves = refl

-- An array made for no elements, behind which the pool has gone on, gives an element without room.
abbrev none_made : Array
none_made = record { elts = 4176; nelts = 0; size = 8; nalloc = 0 }

no_room : (array_push none_made no_bytes_at [] full_block).pool ≡ full_block
unfolding array_push take_elements move last_of end_of palloc palloc_small palloc_block try_blocks
    place fits align
no_room = refl
