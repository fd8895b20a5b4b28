-- ===== src/MemPool/Past.antt =====
-- `yf_palloc` on a block whose end is not aligned.
use yifei.Prelude.{
  ℕ, ◌+◌, ◌-◌, ◌%◌, ◌^◌, ◌≤◌, ◌<◌, ◌≡◌, refl, ap₂, ◌∙◌, ◌++◌, arith, true, List, [], ◌∷◌, some,
  le→leb, take, drop,
}
use yifei.BitOp.{align}
use yifei.BitOp.Align.{align_bounds}
use yifei.MemPool.{Block, Pool, place, fits, try_blocks, palloc_small, palloc}

-- The address behind the end, rounded up.
past_fits :
    (size : ℕ) (b : Block)
    → b.last ≤ b.end
    → b.end < align b.last 8
    → b.end < 2 ^ 63
    → size < 2 ^ 63
    → fits (place true b) size b ≡ true
unfolding fits place
past_fits size b within over small less =
    let near = (align_bounds b.last 3).2 in
    le→leb size ((b.end + 2 ^ 64 - align b.last 8) % 2 ^ 64) (omega arith)

past-try_blocks :
    (size : ℕ) (b : Block)
    → fits (place true b) size b ≡ true
    → try_blocks true size (b ∷ [])
      ≡ some (align b.last 8, record b { last = align b.last 8 + size } ∷ [])
unfolding try_blocks place
past-try_blocks size b f = rw f refl

palloc-tried :
    (size m : ℕ) (bs : List Block) (pool : Pool)
    → size ≤ pool.max
    → try_blocks true size (drop pool.current pool.blocks) ≡ some (m, bs)
    → palloc true size [] pool
      ≡ (some m, record pool { blocks = take pool.current pool.blocks ++ bs }, [])
unfolding palloc palloc_small
palloc-tried size m bs pool enough e = rw (le→leb size pool.max enough, e, palloc_small) refl

-- In a pool of one block below 2^63 whose rest, rounded up to 8, goes beyond the block's end, for
-- a size of at most the pool's `max` and below 2^63, `yf_palloc` succeeds without memory for
-- another block, and hands out an address behind the end of the block.
pub palloc-past_end :
    (size : ℕ) (pool : Pool) (b : Block)
    → pool.blocks ≡ b ∷ []
    → pool.current ≡ 0
    → size ≤ pool.max
    → size < 2 ^ 63
    → b.last ≤ b.end
    → b.end < align b.last 8
    → b.end < 2 ^ 63
    → (m : ℕ) × (pool' : Pool) × (palloc true size [] pool ≡ (some m, pool', [])) × (b.end < m)
palloc-past_end size pool b one first enough less within over small = (
  align b.last 8,
  _,
  palloc-tried size (align b.last 8) _ pool enough (
      ap₂ (λ c bs. try_blocks true size (drop c bs)) first one
      ∙ past-try_blocks size b (past_fits size b within over small less)),
  over,
)
