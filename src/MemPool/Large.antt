-- ===== src/MemPool/Large.antt =====
-- Large pieces: `yf_palloc_large` and `yf_pfree`.
use yifei.Prelude.{
  ℕ, zero, suc, ◌<◌, ◌≡◌, ◌≢◌, refl, arith, List, [], ◌∷◌, ◌++◌, some, gt→leb, eq→==, ne→==, length,
  Bool,
}
use yifei.Core.{success}
use yifei.LinkedList.{null}
use yifei.MemPool.{Pool, reuse_large, free_large, pfree, palloc}

-- Large pieces that are neither free nor at `p`.
abbrev pub AllOther : ℕ → List ℕ → Type 0
AllOther p [] = Unit {0}
AllOther p (l ∷ ls) = (l ≢ null) × (p ≢ l) × AllOther p ls

free_large-at :
    (p : ℕ) (before behind : List ℕ)
    → AllOther p before
    → free_large p (before ++ p ∷ behind) ≡ some (before ++ null ∷ behind)
unfolding free_large
free_large-at p [] behind h = rw (eq→== p p refl) refl
free_large-at p (l ∷ before) behind h = rw (ne→== p l h.1, free_large-at p before behind h.2) refl

reuse_large-at :
    (n a p : ℕ) (before behind : List ℕ)
    → AllOther p before
    → length before < n
    → reuse_large n a (before ++ null ∷ behind) ≡ some (before ++ a ∷ behind)
unfolding reuse_large
reuse_large-at zero a p before behind h l = absurd (omega arith)
reuse_large-at (suc n) a p [] behind h l = refl
reuse_large-at (suc n) a p (x ∷ before) behind h l =
    rw (ne→== x null h.0, reuse_large-at n a p before behind h.2 (omega arith)) refl

-- When one of the first five large pieces of a pool is at `p`, and those before it are neither
-- free nor at `p`, `yf_pfree` of `p` succeeds, and the next large piece that `yf_palloc` or
-- `yf_pnalloc` hands out takes its place in the list, with nothing from the pool's blocks.
pub palloc-pfree :
    (aligned : Bool) (size p a : ℕ) (answers before behind : List ℕ) (pool : Pool)
    → pool.large ≡ before ++ p ∷ behind
    → AllOther p before
    → length before < 5
    → pool.max < size
    → (pool' : Pool) × (pfree p pool ≡ (success, pool'))
      × (palloc aligned size (a ∷ answers) pool'
          ≡ (some a, record pool { large = before ++ a ∷ behind }, answers))
unfolding pfree palloc
palloc-pfree aligned size p a answers before behind pool e h five over = (
  record pool { large = before ++ null ∷ behind },
  rw (pfree, e, free_large-at p before behind h) refl,
  rw (gt→leb size pool.max over, palloc, reuse_large-at 5 a p before behind h five) refl,
)
