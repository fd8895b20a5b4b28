-- ===== src/MemPool/Blocks.antt =====
-- The blocks of a pool and the pieces of memory in them.
use yifei.Prelude.{
  ℕ, ◌+◌, ◌-◌, ◌%◌, ◌^◌, ◌≤◌, ◌<◌, ◌≡◌, refl, ap, ◌∙◌, arith, ◌⊎◌, inl, inr, Bool, true, false,
  List, [], ◌∷◌, leb→le,
}
use yifei.BitOp.{align}
use yifei.BitOp.Align.{align_bounds}
use yifei.MemPool.{Block, place, fits, block_size}

-- A piece of memory: its address and its size.
abbrev pub Piece : Type 0
Piece = ℕ × ℕ

pub record IsBlock (b : Block) : Type 0 where
  pub head : b.start + 32 ≤ b.last
  pub within : b.last ≤ b.end
  pub whole : b.end % 8 ≡ 0
  pub small : b.end < 2 ^ 64

abbrev pub Apart : Block → List Block → Type 0
Apart c [] = Unit {0}
Apart c (b ∷ bs) = ((c.end ≤ b.start) ⊎ (b.end ≤ c.start)) × Apart c bs

-- Blocks in good order, none of which overlaps another.
abbrev pub AllBlocks : List Block → Type 0
AllBlocks [] = Unit {0}
AllBlocks (b ∷ bs) = IsBlock b × Apart b bs × AllBlocks bs

-- The piece is one of those that a block has handed out.
abbrev pub Held : Piece → List Block → Type 0
Held r [] = ⊥
Held r (b ∷ bs) = ((b.start ≤ r.0) × (r.0 + r.1 ≤ b.last)) ⊎ Held r bs

abbrev pub Disjoint : Piece → Piece → Type 0
Disjoint r q = (r.0 + r.1 ≤ q.0) ⊎ (q.0 + q.1 ≤ r.0)

-- What handing out the piece makes of the blocks; `extra` are the blocks that come new.
pub record Handed (extra bs bs' : List Block) (r : Piece) : Type 0 where
  pub good : AllBlocks bs'
  pub ours : Held r bs'
  pub keeps : (q : Piece) → Held q bs → Held q bs'
  pub apart : (q : Piece) → Held q bs → Disjoint r q
  pub spans :
      (c : Block)
      → Apart c extra
      → Apart c bs
      → ((c.end ≤ r.0) ⊎ (r.0 + r.1 ≤ c.start)) × Apart c bs'
  pub sized : 0 < block_size bs → block_size bs' ≡ block_size bs

-- The place in a block that has room.
pub place_bounds :
    (aligned : Bool) (size : ℕ) (b : Block)
    → IsBlock b
    → fits (place aligned b) size b ≡ true
    → (b.last ≤ place aligned b) × (place aligned b + size ≤ b.end)
unfolding place fits
place_bounds true size b h f =
    let (whole, above, near) = align_bounds b.last 3 in
    let m = align b.last 8 in
    let le : m ≤ b.end = omega (arith, h.whole, h.within, whole, near) in
    let e : (b.end + 2 ^ 64 - m) % 2 ^ 64 ≡ b.end - m = omega (arith, h.small) in
    (above, omega (arith, leb→le size ((b.end + 2 ^ 64 - m) % 2 ^ 64) f))
place_bounds false size b h f =
    let e : (b.end + 2 ^ 64 - b.last) % 2 ^ 64 ≡ b.end - b.last =
      omega (arith, h.small, h.within) in
    (omega arith, omega (arith, h.within, leb→le size ((b.end + 2 ^ 64 - b.last) % 2 ^ 64) f))

-- A piece of a block, from its last byte handed out on.
pub here-Handed :
    (b : Block) (bs : List Block) (m size : ℕ)
    → AllBlocks (b ∷ bs)
    → b.last ≤ m
    → m + size ≤ b.end
    → Handed [] (b ∷ bs) (record b { last = m + size } ∷ bs) (m, size)
unfolding block_size
here-Handed b bs m size (h, a, g) l e = record {
  good =
      (record { head = omega (arith, h.head); within = e; whole = h.whole; small = h.small }, a, g);
  ours = inl (omega (arith, h.head), omega arith);
  keeps = keep;
  apart = away;
  spans = λ c n k. (span c k.0, k);
  sized = λ p. refl;
}
  where
    keep : (q : Piece) → Held q (b ∷ bs) → Held q (record b { last = m + size } ∷ bs)
    keep q (inl k) = inl (k.0, omega (arith, k.1))
    keep q (inr k) = inr k

    far :
        (q : Piece) (cs : List Block) → Apart b cs → AllBlocks cs → Held q cs → Disjoint (m, size) q
    far q [] p v k = absurd k
    far q (c ∷ cs) p v (inl k) = elim p.0 [
      | inl o ↦ inl (omega (arith, k.0))
      | inr o ↦ inr (omega (arith, k.1, v.0.within, h.head))
    ]
    far q (c ∷ cs) p v (inr k) = far q cs p.1 v.2 k

    away : (q : Piece) → Held q (b ∷ bs) → Disjoint (m, size) q
    away q (inl k) = inr (omega (arith, k.1))
    away q (inr k) = far q bs a g k

    span : (c : Block) → (c.end ≤ b.start) ⊎ (b.end ≤ c.start) → (c.end ≤ m) ⊎ (m + size ≤ c.start)
    span c (inl o) = inl (omega (arith, h.head))
    span c (inr o) = inr (omega arith)

-- A piece of a later block.
pub later-Handed :
    (extra : List Block) (b b' : Block) (bs bs' : List Block) (r : Piece)
    → b'.start ≡ b.start
    → b'.last ≡ b.last
    → b'.end ≡ b.end
    → AllBlocks (b ∷ bs)
    → Apart b extra
    → Handed extra bs bs' r
    → Handed extra (b ∷ bs) (b' ∷ bs') r
unfolding block_size
later-Handed extra b b' bs bs' r es el ee (h, a, g) n d =
    let (out, a') = d.spans b n a in
    record {
      good = (
        record {
          head = omega (arith, h.head);
          within = omega (arith, h.within);
          whole = ap (λ n. n % 8) ee ∙ h.whole;
          small = omega (arith, h.small);
        },
        swap bs' a',
        d.good,
      );
      ours = inr d.ours;
      keeps = keep;
      apart = away out;
      spans = λ c n' k. ((d.spans c n' k.1).0, (one c k.0, (d.spans c n' k.1).1));
      sized = λ p. omega arith;
    }
  where
    swap : (cs : List Block) → Apart b cs → Apart b' cs
    swap [] p = tt
    swap (c ∷ cs) (inl o, p) = (inl (omega arith), swap cs p)
    swap (c ∷ cs) (inr o, p) = (inr (omega arith), swap cs p)

    one :
        (c : Block)
        → (c.end ≤ b.start) ⊎ (b.end ≤ c.start)
        → (c.end ≤ b'.start) ⊎ (b'.end ≤ c.start)
    one c (inl o) = inl (omega arith)
    one c (inr o) = inr (omega arith)

    keep : (q : Piece) → Held q (b ∷ bs) → Held q (b' ∷ bs')
    keep q (inl k) = inl (omega (arith, k.0), omega (arith, k.1))
    keep q (inr k) = inr (d.keeps q k)

    away : (b.end ≤ r.0) ⊎ (r.0 + r.1 ≤ b.start) → (q : Piece) → Held q (b ∷ bs) → Disjoint r q
    away (inl o) q (inl k) = inr (omega (arith, k.1, h.within))
    away (inr o) q (inl k) = inl (omega (arith, k.0))
    away o q (inr k) = d.apart q k
