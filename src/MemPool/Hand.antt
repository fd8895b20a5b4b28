-- ===== src/MemPool/Hand.antt =====
-- `yf_palloc` and `yf_pnalloc` of small pieces on a pool in good order.
use yifei.Prelude.{
  ℕ, ◌+◌, ◌%◌, ◌^◌, ◌≤◌, ◌<◌, ◌≡◌, refl, sym, ap, ◌∙◌, subst, arith, Bool, true, false, List, [],
  ◌∷◌, ◌++◌, Option, none, some, le→leb, take, drop,
}
use yifei.BitOp.{align}
use yifei.BitOp.Align.{align_bounds}
use yifei.MemPool.{
  Block, Pool, pool_size, try_blocks, count_failed, block_size, palloc_block, palloc_small, palloc,
}
use yifei.MemPool.Blocks.{Piece, IsBlock, AllBlocks, Held, Disjoint, Handed}
use yifei.MemPool.Tries.{
  AllClear, Tried, AlignedIf, try_blocks-Tried, new-Handed, count_failed-Handed, take-Handed,
  drop-AllBlocks, drop-AllClear, no_new-AllClear,
}

abbrev AllHeld : List Piece → List Block → Type 0
AllHeld [] bs = Unit {0}
AllHeld (r ∷ rs) bs = Held r bs × AllHeld rs bs

abbrev AllDisjoint : Piece → List Piece → Type 0
AllDisjoint r [] = Unit {0}
AllDisjoint r (q ∷ rs) = Disjoint r q × AllDisjoint r rs

abbrev Pairwise : List Piece → Type 0
Pairwise [] = Unit {0}
Pairwise (r ∷ rs) = AllDisjoint r rs × Pairwise rs

-- A pool whose blocks are in good order and that has handed out the pieces `rs`, no two of which
-- overlap. A block that is as large as the first has room for a piece of `max`.
pub record IsValid (pool : Pool) (rs : List Piece) : Type 0 where
  pub good : AllBlocks pool.blocks
  pub held : AllHeld rs pool.blocks
  pub disjoint : Pairwise rs
  pub room : pool.max + pool_size ≤ block_size pool.blocks
  pub whole : block_size pool.blocks % 8 ≡ 0

-- Memory for a block: it is aligned, inside the address space and overlaps no block of the pool.
pub record IsFresh (pool : Pool) (a : ℕ) : Type 0 where
  pub aligned : a % 8 ≡ 0
  pub small : a + block_size pool.blocks < 2 ^ 64
  pub clear :
      AllClear
        (record { start = a; last = a; end = a + block_size pool.blocks; failed = 0 } ∷ [])
        pool.blocks

-- Handing out a piece of `size` bytes.
pub record Allots (aligned : Bool) (size : ℕ) (rs : List Piece) (pool : Pool)
    (r : Option ℕ × Pool × List ℕ) : Type 0 where
  pub address : ℕ
  pub after : Pool
  pub rest : List ℕ
  pub result : r ≡ (some address, after, rest)
  pub valid : IsValid after ((address, size) ∷ rs)
  pub on_boundary : AlignedIf aligned address
  pub same_max : after.max ≡ pool.max
  pub same_large : after.large ≡ pool.large

AllHeld-keeps :
    (extra bs bs' : List Block) (r : Piece) (rs : List Piece)
    → Handed extra bs bs' r
    → AllHeld rs bs
    → AllHeld rs bs'
AllHeld-keeps extra bs bs' r [] h a = tt
AllHeld-keeps extra bs bs' r (q ∷ rs) h a = (h.keeps q a.0, AllHeld-keeps extra bs bs' r rs h a.1)

AllDisjoint-apart :
    (extra bs bs' : List Block) (r : Piece) (rs : List Piece)
    → Handed extra bs bs' r
    → AllHeld rs bs
    → AllDisjoint r rs
AllDisjoint-apart extra bs bs' r [] h a = tt
AllDisjoint-apart extra bs bs' r (q ∷ rs) h a =
    (h.apart q a.0, AllDisjoint-apart extra bs bs' r rs h a.1)

Handed-IsValid :
    (extra : List Block) (pool : Pool) (bs' : List Block) (current : ℕ) (r : Piece)
    (rs : List Piece)
    → IsValid pool rs
    → Handed extra pool.blocks bs' r
    → IsValid (record pool { blocks = bs'; current = current }) (r ∷ rs)
Handed-IsValid extra pool bs' current r rs v h =
    let e : block_size bs' ≡ block_size pool.blocks = h.sized (omega (arith, v.room)) in
    record {
      good = h.good;
      held = (h.ours, AllHeld-keeps extra pool.blocks bs' r rs h v.held);
      disjoint = (AllDisjoint-apart extra pool.blocks bs' r rs h v.held, v.disjoint);
      room = omega (arith, v.room, e);
      whole = ap (λ n. n % 8) e ∙ v.whole;
    }

AlignedIf-of : (aligned : Bool) (m : ℕ) → m % 8 ≡ 0 → AlignedIf aligned m
AlignedIf-of true m h = h
AlignedIf-of false m h = tt

module _ (aligned : Bool) (size a : ℕ) (answers : List ℕ) (pool : Pool) (rs : List Piece)
    (v : IsValid pool rs) (enough : size ≤ pool.max) (f : IsFresh pool a) where
  palloc_block-Allots : Allots aligned size rs pool (palloc_block size (a ∷ answers) pool)
  unfolding palloc_block
  palloc_block-Allots =
      let (whole, above, near) = align_bounds (a + 32) 3 in
      let m = align (a + 32) 8 in
      let bsz = block_size pool.blocks in
      let at : m ≡ a + 32 = omega (arith, whole, above, near, f.aligned) in
      let new : Block = record { start = a; last = m + size; end = a + bsz; failed = 0 } in
      let h : IsBlock new = record {
        head = omega arith;
        within = omega (arith, v.room);
        whole = omega (arith, f.aligned, v.whole);
        small = f.small;
      } in
      let c = pool.current in
      let counted = count_failed c c (drop c pool.blocks) in
      let handed =
        take-Handed (new ∷ []) c pool.blocks (counted.0 ++ (new ∷ [])) (m, size) v.good f.clear
          (count_failed-Handed c c (drop c pool.blocks) new (m, size)
            (drop-AllBlocks c pool.blocks v.good) (drop-AllClear (new ∷ []) c pool.blocks f.clear)
            (new-Handed new (m, size) h (omega arith) (omega arith))) in
      record {
        address = m;
        after = _;
        rest = answers;
        result = refl;
        valid = Handed-IsValid (new ∷ []) pool _ counted.1 (m, size) rs v handed;
        on_boundary = AlignedIf-of aligned m whole;
        same_max = refl;
        same_large = refl;
      }

  palloc_small-none :
      try_blocks aligned size (drop pool.current pool.blocks) ≡ none
      → palloc_small aligned size (a ∷ answers) pool ≡ palloc_block size (a ∷ answers) pool
  unfolding palloc_small
  palloc_small-none e = rw (e, palloc_small) refl

  palloc_small-some :
      (m : ℕ) (bs : List Block)
      → try_blocks aligned size (drop pool.current pool.blocks) ≡ some (m, bs)
      → palloc_small aligned size (a ∷ answers) pool
        ≡ (some m, record pool { blocks = take pool.current pool.blocks ++ bs }, a ∷ answers)
  unfolding palloc_small
  palloc_small-some m bs e = rw (e, palloc_small) refl

  found-Allots :
      (o : Option (ℕ × List Block))
      → try_blocks aligned size (drop pool.current pool.blocks) ≡ o
      → Tried aligned size (drop pool.current pool.blocks) o
      → Allots aligned size rs pool (palloc_small aligned size (a ∷ answers) pool)
  found-Allots none e t =
      subst (Allots aligned size rs pool) (sym (palloc_small-none e)) palloc_block-Allots
  found-Allots (some (m, bs)) e t = record {
    address = m;
    after = record pool { blocks = take pool.current pool.blocks ++ bs };
    rest = a ∷ answers;
    result = palloc_small-some m bs e;
    valid =
        Handed-IsValid [] pool (take pool.current pool.blocks ++ bs) pool.current (m, size) rs v
          (take-Handed [] pool.current pool.blocks bs (m, size) v.good (no_new-AllClear pool.blocks)
            t.0);
    on_boundary = t.1;
    same_max = refl;
    same_large = refl;
  }

-- In a valid pool with the pieces `rs`, for a size of at most the pool's `max`, and memory for a
-- block that is aligned and overlaps none of the pool's, `yf_palloc` and `yf_pnalloc` hand out a
-- piece of that size: it lies in a block of the pool and overlaps no piece handed out before, the
-- address is a multiple of 8 for `yf_palloc`, and the pool is valid with one piece more, and has
-- the same `max` and large pieces.
pub palloc-Allots :
    (aligned : Bool) (size a : ℕ) (answers : List ℕ) (pool : Pool) (rs : List Piece)
    → IsValid pool rs
    → size ≤ pool.max
    → IsFresh pool a
    → Allots aligned size rs pool (palloc aligned size (a ∷ answers) pool)
unfolding palloc
palloc-Allots aligned size a answers pool rs v enough f =
    let tried =
      try_blocks-Tried aligned size (drop pool.current pool.blocks)
        (drop-AllBlocks pool.current pool.blocks v.good) in
    rw (le→leb size pool.max enough)
      (found-Allots aligned size a answers pool rs v enough f _ refl tried)
