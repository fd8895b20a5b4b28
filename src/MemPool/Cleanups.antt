-- ===== src/MemPool/Cleanups.antt =====
-- src/base_struct/yf_mem_pool.c: the cleanup handlers, the reset and the end of a pool.
use yifei.Prelude.{
  ℕ, ◌+◌, true, false, Option, none, some, List, [], ◌∷◌, ◌++◌, ◌==◌, if◌then◌else◌,
}
use yifei.LinkedList.{null}
use yifei.MemPool.{pool_size, cleanup_size, Block, Cleanup, Pool, palloc}

-- The part of a cleanup, when its memory is there.
unfoldable pub add_cleanup : Option ℕ → Pool → Option Cleanup × Pool
add_cleanup none pool = (none, pool)
add_cleanup (some argument) pool =
    let c : Cleanup = record { handler = false; argument = argument } in
    (some c, record pool { cleanup = c ∷ pool.cleanup })

-- `yf_pool_cleanup_add` behind the first `yf_palloc`.
unfoldable pub cleanup_at : ℕ → Option ℕ × Pool × List ℕ → Option Cleanup × Pool
unfolding palloc add_cleanup
cleanup_at size (none, pool, answers) = (none, pool)
cleanup_at size (some c, pool, answers) =
    let found = palloc true size answers pool in
    if size == 0 then add_cleanup (some null) pool else add_cleanup found.0 found.1

unfoldable pub cleanup_add : ℕ → List ℕ → Pool → Option Cleanup × Pool
unfolding palloc cleanup_at
cleanup_add size answers pool = cleanup_at size (palloc true cleanup_size answers pool)

-- The handlers that a reset or the end of the pool runs, and the large pieces that it frees.
unfoldable pub handlers_run : List Cleanup → List ℕ
handlers_run [] = []
handlers_run (c ∷ cs) = if c.handler then c.argument ∷ handlers_run cs else handlers_run cs

unfoldable pub large_freed : List ℕ → List ℕ
large_freed [] = []
large_freed (l ∷ ls) = if l == null then large_freed ls else l ∷ large_freed ls

unfoldable pub empty_blocks : List Block → List Block
empty_blocks [] = []
empty_blocks (b ∷ bs) = record b { last = b.start + pool_size } ∷ empty_blocks bs

-- `yf_reset_pool`: what it frees, the arguments of the handlers that it runs, and the pool.
unfoldable pub reset_pool : Pool → List ℕ × List ℕ × Pool
unfolding handlers_run large_freed empty_blocks
reset_pool pool = (
  large_freed pool.large,
  handlers_run pool.cleanup,
  record pool { large = []; blocks = empty_blocks pool.blocks },
)

abbrev pub starts : List Block → List ℕ
starts [] = []
starts (b ∷ bs) = b.start ∷ starts bs

-- `yf_destroy_pool`: the arguments of the handlers that it runs, and what it frees, in this order.
unfoldable pub destroy_pool : Pool → List ℕ × List ℕ
unfolding handlers_run large_freed
destroy_pool pool = (handlers_run pool.cleanup, large_freed pool.large ++ starts pool.blocks)
