-- ===== src/MemPool/Tries.antt =====
-- The loops of `yf_palloc` and `yf_palloc_block` over the blocks of a pool.
use yifei.Prelude.{
  ℕ, zero, suc, ◌+◌, ◌%◌, ◌^◌, ◌≤◌, ◌≡◌, refl, arith, ◌⊎◌, inl, inr, Bool, true, false, List, [],
  ◌∷◌, ◌++◌, Option, none, some, Bool-cases, take, drop, ltb, if◌then◌else◌,
}
use yifei.BitOp.Align.{align_bounds}
use yifei.MemPool.{Block, place, fits, try_blocks, count_failed, block_size}
use yifei.MemPool.Blocks.{
  Piece, IsBlock, Apart, AllBlocks, Handed, place_bounds, here-Handed, later-Handed,
}

-- The address is aligned if that was asked for.
abbrev pub AlignedIf : Bool → ℕ → Type 0
AlignedIf true m = m % 8 ≡ 0
AlignedIf false m = Unit {0}

-- What the loop over the blocks gives.
abbrev pub Tried : Bool → ℕ → List Block → Option (ℕ × List Block) → Type 0
Tried aligned size bs none = Unit {0}
Tried aligned size bs (some (m, bs')) = Handed [] bs bs' (m, size) × AlignedIf aligned m

place-AlignedIf : (aligned : Bool) (b : Block) → AlignedIf aligned (place aligned b)
unfolding place
place-AlignedIf true b = (align_bounds b.last 3).0
place-AlignedIf false b = tt

later-Tried :
    (aligned : Bool) (size : ℕ) (b : Block) (bs : List Block) (o : Option (ℕ × List Block))
    → AllBlocks (b ∷ bs)
    → Tried aligned size bs o
    → Tried aligned size (b ∷ bs) (elim o [ none ↦ none | some (m, bs') ↦ some (m, b ∷ bs') ])
later-Tried aligned size b bs none g t = tt
later-Tried aligned size b bs (some (m, bs')) g t =
    (later-Handed [] b b bs bs' (m, size) refl refl refl g tt t.0, t.1)

pub try_blocks-Tried :
    (aligned : Bool) (size : ℕ) (bs : List Block)
    → AllBlocks bs
    → Tried aligned size bs (try_blocks aligned size bs)
unfolding try_blocks
try_blocks-Tried aligned size [] g = tt
try_blocks-Tried aligned size (b ∷ bs) g = elim (Bool-cases (fits (place aligned b) size b)) [
  | inl f ↦
      let (low, top) = place_bounds aligned size b g.0 f in
      rw f (here-Handed b bs (place aligned b) size g low top, place-AlignedIf aligned b)
  | inr f ↦ rw f (
      later-Tried aligned size b bs (try_blocks aligned size bs) g
        (try_blocks-Tried aligned size bs g.2))
]

-- A new block behind the others, with its first piece.
pub new-Handed :
    (new : Block) (r : Piece)
    → IsBlock new
    → new.start ≤ r.0
    → r.0 + r.1 ≤ new.last
    → Handed (new ∷ []) [] (new ∷ []) r
unfolding block_size
new-Handed new r h a b = record {
  good = (h, tt, tt);
  ours = inl (a, b);
  keeps = λ q k. absurd k;
  apart = λ q k. absurd k;
  spans = λ c n k. (span c n.0, n);
  sized = λ p. absurd (omega arith);
}
  where
    span :
        (c : Block)
        → (c.end ≤ new.start) ⊎ (new.end ≤ c.start)
        → (c.end ≤ r.0) ⊎ (r.0 + r.1 ≤ c.start)
    span c (inl o) = inl (omega arith)
    span c (inr o) = inr (omega (arith, h.within))

-- All blocks are apart from the new ones.
abbrev pub AllClear : List Block → List Block → Type 0
AllClear extra [] = Unit {0}
AllClear extra (b ∷ bs) = Apart b extra × AllClear extra bs

pub count_failed-Handed :
    (i current : ℕ) (bs : List Block) (new : Block) (r : Piece)
    → AllBlocks bs
    → AllClear (new ∷ []) bs
    → Handed (new ∷ []) [] (new ∷ []) r
    → Handed (new ∷ []) bs ((count_failed i current bs).0 ++ (new ∷ [])) r
unfolding count_failed
count_failed-Handed i current [] new r g c h = h
count_failed-Handed i current (b ∷ []) new r g c h =
    later-Handed (new ∷ []) b b [] (new ∷ []) r refl refl refl g c.0 h
count_failed-Handed i current (b ∷ b' ∷ bs) new r g c h =
    later-Handed (new ∷ []) b (record b { failed = (b.failed + 1) % 2 ^ 32 }) (b' ∷ bs) _ r refl
      refl refl g c.0
      (count_failed-Handed (i + 1) (if ltb 4 b.failed then i + 1 else current) (b' ∷ bs) new r g.2
        c.1 h)

-- The blocks before the current one stay.
pub take-Handed :
    (extra : List Block) (n : ℕ) (bs bs' : List Block) (r : Piece)
    → AllBlocks bs
    → AllClear extra bs
    → Handed extra (drop n bs) bs' r
    → Handed extra bs (take n bs ++ bs') r
take-Handed extra zero bs bs' r g a h = h
take-Handed extra (suc n) [] bs' r g a h = h
take-Handed extra (suc n) (b ∷ bs) bs' r g a h =
    later-Handed extra b b bs (take n bs ++ bs') r refl refl refl g a.0
      (take-Handed extra n bs bs' r g.2 a.1 h)

pub drop-AllBlocks : (n : ℕ) (bs : List Block) → AllBlocks bs → AllBlocks (drop n bs)
drop-AllBlocks zero bs g = g
drop-AllBlocks (suc n) [] g = g
drop-AllBlocks (suc n) (b ∷ bs) g = drop-AllBlocks n bs g.2

pub drop-AllClear :
    (extra : List Block) (n : ℕ) (bs : List Block) → AllClear extra bs → AllClear extra (drop n bs)
drop-AllClear extra zero bs g = g
drop-AllClear extra (suc n) [] g = g
drop-AllClear extra (suc n) (b ∷ bs) g = drop-AllClear extra n bs g.1

pub no_new-AllClear : (bs : List Block) → AllClear [] bs
no_new-AllClear [] = tt
no_new-AllClear (b ∷ bs) = (tt, no_new-AllClear bs)
