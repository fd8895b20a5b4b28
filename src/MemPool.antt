-- ===== src/MemPool.antt =====
-- src/base_struct/yf_mem_pool.h and yf_mem_pool.c: memory handed out from blocks, and large pieces
-- by themselves. An address is a number. What `malloc` and `memalign` answer is a list of
-- addresses, and the end of the list is their failure. The sizes are those of 64-bit platforms.
pub mod Blocks
pub mod Tries
pub mod Hand
pub mod Past
pub mod Large
pub mod Cleanups
use yifei.Prelude.{
  ℕ, zero, suc, ◌+◌, ◌-◌, ◌%◌, ◌^◌, Bool, true, false, Option, none, some, List, [], ◌∷◌, ◌++◌, ltb,
  leb, ◌==◌, ◌&&◌, if◌then◌else◌, take, drop,
}
use yifei.Core.{Status, success, declined}
use yifei.LinkedList.{null}
use yifei.BitOp.{align}

-- `sizeof` of `yf_pool_data_t`, `yf_pool_t`, `yf_pool_large_t` and `yf_pool_cleanup_t`.
abbrev pub data_size : ℕ
data_size = 32

abbrev pub pool_size : ℕ
pool_size = 80

abbrev pub large_size : ℕ
large_size = 16

abbrev pub cleanup_size : ℕ
cleanup_size = 24

-- `YF_ALIGNMENT`
abbrev pub alignment : ℕ
alignment = 8

-- `yf_pool_data_t` with the block's own address; `next` is the order of the list of blocks.
pub record Block : Type 0 where
  pub start : ℕ
  pub last : ℕ
  pub end : ℕ
  pub failed : ℕ

-- `yf_pool_cleanup_t`: whether the handler is set, and its argument.
pub record Cleanup : Type 0 where
  pub handler : Bool
  pub argument : ℕ

-- `yf_pool_t`. The first block has the pool itself; `current` is the place of a block, `large` has
-- the field `alloc` of each part.
pub record Pool : Type 0 where
  pub blocks : List Block
  pub max : ℕ
  pub current : ℕ
  pub large : List ℕ
  pub cleanup : List Cleanup

-- `yf_create_pool`, for the size of a page and what `yf_memalign` answers.
unfoldable pub create_pool : (pagesize size : ℕ) → List ℕ → Option Pool
create_pool pagesize size [] = none
create_pool pagesize size (p ∷ answers) =
    let room = (size + 2 ^ 64 - pool_size) % 2 ^ 64 in
    let limit = (pagesize + 2 ^ 32 - 1) % 2 ^ 32 in
    some (record {
      blocks = record { start = p; last = p + pool_size; end = p + size; failed = 0 } ∷ [];
      max = if ltb room limit then room else limit;
      current = 0;
      large = [];
      cleanup = [];
    })

-- Where a block has room: `yf_palloc` aligns the address, `yf_pnalloc` does not.
unfoldable pub place : Bool → Block → ℕ
place true b = align b.last alignment
place false b = b.last

-- `(size_t)(p->d.end - m) >= size`
unfoldable pub fits : (m size : ℕ) → Block → Bool
fits m size b = leb size ((b.end + 2 ^ 64 - m) % 2 ^ 64)

-- The loop over the blocks: the address and the blocks behind it, if one fits.
unfoldable pub try_blocks : Bool → ℕ → List Block → Option (ℕ × List Block)
unfolding place fits
try_blocks aligned size [] = none
try_blocks aligned size (b ∷ bs) =
    let m = place aligned b in
    let rest : Option (ℕ × List Block) = elim (try_blocks aligned size bs) [
      | none ↦ none
      | some (m', bs') ↦ some (m', b ∷ bs')
    ] in
    if fits m size b then some (m, record b { last = m + size } ∷ bs) else rest

-- The loop of `yf_palloc_block` from the place `i` on, which counts the failures of all blocks but
-- the last: the blocks and the new place of `current`.
unfoldable pub count_failed : (i current : ℕ) → List Block → List Block × ℕ
count_failed i current [] = ([], current)
count_failed i current (b ∷ []) = (b ∷ [], current)
count_failed i current (b ∷ b' ∷ bs) =
    let (rest, current') =
      count_failed (i + 1) (if ltb 4 b.failed then i + 1 else current) (b' ∷ bs) in
    (record b { failed = (b.failed + 1) % 2 ^ 32 } ∷ rest, current')

-- The size of the first block, which all others get.
unfoldable pub block_size : List Block → ℕ
block_size [] = 0
block_size (b ∷ bs) = b.end - b.start

-- `yf_palloc_block`: the answer is used up if it comes to the call.
unfoldable pub palloc_block : ℕ → List ℕ → Pool → Option ℕ × Pool × List ℕ
unfolding count_failed block_size
palloc_block size [] pool = (none, pool, [])
palloc_block size (a ∷ answers) pool =
    let m = align (a + data_size) alignment in
    let new : Block = record {
      start = a;
      last = m + size;
      end = a + block_size pool.blocks;
      failed = 0;
    } in
    let (counted, current) =
      count_failed pool.current pool.current (drop pool.current pool.blocks) in
    (
      some m,
      record pool {
        blocks = take pool.current pool.blocks ++ (counted ++ (new ∷ []));
        current = current;
      },
      answers,
    )

-- `yf_palloc` and `yf_pnalloc` of a size that is not above `max`.
unfoldable pub palloc_small : Bool → ℕ → List ℕ → Pool → Option ℕ × Pool × List ℕ
unfolding try_blocks palloc_block
palloc_small aligned size answers pool =
    let found = try_blocks aligned size (drop pool.current pool.blocks) in
    elim found [
      | none ↦ palloc_block size answers pool
      | some (m, bs) ↦
          (some m, record pool { blocks = take pool.current pool.blocks ++ bs }, answers)
    ]

-- The first five parts of the list of large pieces: the list with `p` in the first that is free.
unfoldable pub reuse_large : (n p : ℕ) → List ℕ → Option (List ℕ)
reuse_large zero p large = none
reuse_large (suc n) p [] = none
reuse_large (suc n) p (l ∷ large) =
    let rest : Option (List ℕ) = elim (reuse_large n p large) [
      | none ↦ none
      | some large' ↦ some (l ∷ large')
    ] in
    if l == null then some (p ∷ large) else rest

-- A part for the large piece `p`, at the place that `yf_palloc` gave for it, or none: then `p` is
-- freed again.
unfoldable pub add_large : ℕ → Option ℕ × Pool × List ℕ → Option ℕ × Pool × List ℕ
add_large p (none, pool, answers) = (none, pool, answers)
add_large p (some part, pool, answers) = (some p, record pool { large = p ∷ pool.large }, answers)

-- `yf_palloc` and `yf_pnalloc`, with `yf_palloc_large`. Each large piece takes an answer.
unfoldable pub palloc : Bool → ℕ → List ℕ → Pool → Option ℕ × Pool × List ℕ
unfolding palloc_small reuse_large add_large
palloc aligned size [] pool =
    if leb size pool.max then palloc_small aligned size [] pool else (none, pool, [])
palloc aligned size (a ∷ answers) pool =
    let part = palloc true large_size answers pool in
    let large : Option ℕ × Pool × List ℕ = elim (reuse_large 5 a pool.large) [
      | none ↦ add_large a part
      | some parts ↦ (some a, record pool { large = parts }, answers)
    ] in
    if leb size pool.max then palloc_small aligned size (a ∷ answers) pool else large

-- `yf_pcalloc`: the bytes of memory are a function of their address.
unfoldable pub zero_bytes : (p size : ℕ) → (ℕ → ℕ) → ℕ → ℕ
zero_bytes p size memory q = if leb p q && ltb q (p + size) then 0 else memory q

unfoldable pub pcalloc : ℕ → (ℕ → ℕ) → List ℕ → Pool → Option ℕ × (ℕ → ℕ) × Pool × List ℕ
unfolding palloc zero_bytes
pcalloc size memory answers pool =
    let found = palloc true size answers pool in
    elim found.0 [
      | none ↦ (none, memory, found.1, found.2)
      | some p ↦ (some p, zero_bytes p size memory, found.1, found.2)
    ]

-- `yf_pmemalign`, with the answer of `yf_memalign` first.
unfoldable pub pmemalign : List ℕ → Pool → Option ℕ × Pool × List ℕ
unfolding palloc add_large
pmemalign [] pool = (none, pool, [])
pmemalign (a ∷ answers) pool = add_large a (palloc true large_size answers pool)

-- `yf_pfree`
unfoldable pub free_large : ℕ → List ℕ → Option (List ℕ)
free_large p [] = none
free_large p (l ∷ large) =
    let rest : Option (List ℕ) = elim (free_large p large) [
      | none ↦ none
      | some large' ↦ some (l ∷ large')
    ] in
    if p == l then some (null ∷ large) else rest

unfoldable pub pfree : ℕ → Pool → Status × Pool
unfolding free_large
pfree p pool = elim (free_large p pool.large) [
  | none ↦ (declined, pool)
  | some large ↦ (success, record pool { large = large })
]
