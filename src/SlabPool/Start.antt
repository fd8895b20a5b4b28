-- ===== src/SlabPool/Start.antt =====
-- `yf_slab_pool_init` for sizes that it takes.
use yifei.Prelude.{
  ℕ, zero, suc, ◌+◌, ◌%◌, ◌^◌, ◌≤◌, ◌<◌, ◌≡◌, refl, sym, ap, ◌∙◌, subst, arith, List, [], ◌∷◌, ◌++◌,
  map, append_assoc, append-nil, some, get_or, length, take, replicate, length-append,
  length-replicate, gt→leb, ne→==, Distinct,
}
use native.Mathlib.Nat.{mod-eq_of_lt}
use yifei.Bytes.Index.{get_or-take}
use yifei.BitOp.{align}
use yifei.BitOp.Align.{align_bounds}
use yifei.SlabPool.{
  SlabPool, SlabTrick, gathered, read_sizes, ready, set_up, slab_pool_init, align_mem, sort_uniq,
}
use yifei.SlabPool.Swap.{Among}
use yifei.SlabPool.Sort.{SortedFrom, sort_uniq-SortedFrom}
use yifei.SlabPool.Blocks.{AllIdle, IsValid}

-- Sizes that are neither 0 nor too large.
abbrev pub AllFit : List ℕ → Type 0
AllFit [] = Unit {0}
AllFit (x ∷ xs) = (0 < x) × (x ≤ 16376) × AllFit xs

aligned : (x : ℕ) → x ≤ 16376 → (align_mem x % 8 ≡ 0) × (align_mem x < 2 ^ 14)
unfolding align_mem
aligned x h =
    let (whole, above, near) = align_bounds x 3 in
    let same : align x 8 % 2 ^ 16 ≡ align x 8 = mod-eq_of_lt (omega (arith, near)) in
    (omega (arith, same, whole), omega (arith, same, whole, near))

read_sizes-AllFit :
    (got args : List ℕ)
    → AllFit args
    → length got + length args ≤ 64
    → read_sizes got args ≡ gathered (got ++ map align_mem args)
unfolding read_sizes
read_sizes-AllFit got [] f l = ap gathered (sym (append-nil got))
read_sizes-AllFit got (x ∷ xs) f l =
    let low = f.0 in
    let high = f.1 in
    let same : x % 2 ^ 16 ≡ x = mod-eq_of_lt (omega arith) in
    let small = (aligned x high).1 in
    rw
      (
        same,
        ne→== x 0 (λ e. absurd (omega (arith, e))),
        gt→leb (2 ^ 14) (align_mem x) small,
        gt→leb 64 (length got) (omega arith),
      )
      (read_sizes-AllFit (got ++ (align_mem x ∷ [])) xs f.2
          (omega (arith, length-append got (align_mem x ∷ [])))
        ∙ ap gathered (append_assoc got (align_mem x ∷ []) (map align_mem xs)))

length-map : (xs : List ℕ) → length (map align_mem xs) ≡ length xs
length-map [] = refl
length-map (x ∷ xs) = ap suc (length-map xs)

map-aligned :
    (xs : List ℕ) (q : ℕ)
    → AllFit xs
    → q < length xs
    → (get_or (map align_mem xs) q 0 % 8 ≡ 0) × (get_or (map align_mem xs) q 0 < 2 ^ 14)
map-aligned [] q f l = absurd (omega arith)
map-aligned (x ∷ xs) zero f l = aligned x f.1
map-aligned (x ∷ xs) (suc q) f l = map-aligned xs q f.2 (omega arith)

no_blocks : (n q : ℕ) → get_or (replicate n (let e : List ℕ = [] in e)) q [] ≡ []
no_blocks zero q = refl
no_blocks (suc n) zero = refl
no_blocks (suc n) (suc q) = no_blocks n q

-- A new pool for these sizes.
pub record Starts (args : List ℕ) (pool : SlabPool) : Type 0 where
  pub valid : IsValid pool
  pub sizes :
      (x : ℕ)
      → (Among x (length args) (map align_mem args) → Among x pool.type pool.sizes)
        × (Among x pool.type pool.sizes → Among x (length args) (map align_mem args))

sorted-Starts :
    (args : List ℕ) (tricks : ℕ → SlabTrick) (r : ℕ × List ℕ)
    → AllFit args
    → length args ≤ 64
    → SortedFrom (length args) (map align_mem args) r
    → Starts args (record {
      free = replicate r.0 [];
      sizes = take r.0 r.1;
      type = r.0 % 2 ^ 7;
      tricks = tricks;
    })
sorted-Starts args tricks r f l s =
    let kept : r.0 % 2 ^ 7 ≡ r.0 = mod-eq_of_lt (omega (arith, s.fewer)) in
    let at : (q : ℕ) → q < r.0 → get_or (take r.0 r.1) q 0 ≡ get_or r.1 q 0 =
      λ q k. get_or-take r.0 r.1 q 0 k in
    let fits : (q : ℕ) → q < r.0 → (get_or r.1 q 0 % 8 ≡ 0) × (get_or r.1 q 0 < 2 ^ 14) = λ q k.
      let (p, h, e) = (s.items (get_or r.1 q 0)).1 (q, k, refl) in
      subst (λ x. (x % 8 ≡ 0) × (x < 2 ^ 14)) e (map-aligned args p f h) in
    record {
      valid = record {
        lists = length-replicate r.0 (let e : List ℕ = [] in e) ∙ sym kept;
        rises = λ p q h k. omega (
          arith,
          kept,
          at p (omega (arith, kept)),
          at q (omega (arith, kept)),
          s.rises p q h (omega (arith, kept)),
        );
        whole =
            λ q k. ap (λ x. x % 8) (at q (omega (arith, kept))) ∙ (fits q (omega (arith, kept))).0;
        small = λ q k. omega (arith, at q (omega (arith, kept)), (fits q (omega (arith, kept))).1);
        idle = λ q k. subst (AllIdle tricks (get_or (take r.0 r.1) q 0)) (sym (no_blocks r.0 q)) tt;
        once = λ q k. subst Distinct (sym (no_blocks r.0 q)) tt;
      };
      sizes = λ x. (
        (λ a. let (q, k, e) = (s.items x).0 a in (q, omega (arith, kept), at q k ∙ e)),
        (λ a.
            let k : a.0 < r.0 = omega (arith, a.1, kept) in
            (s.items x).1 (a.0, k, sym (at a.0 k) ∙ a.2)),
      );
    }

-- For 1 to 64 sizes from 1 to 16376 and memory for the pool, `yf_slab_pool_init` sets up a pool
-- without free blocks whose sizes rise strictly and are exactly the numbers asked for, rounded up
-- to 8, and the pool is valid: its free blocks are unused, have the size of their list and stand
-- in it once.
pub slab_pool_init-Starts :
    (args : List ℕ) (tricks : ℕ → SlabTrick)
    → AllFit args
    → 0 < length args
    → length args ≤ 64
    → (pool : SlabPool) × (slab_pool_init (some tricks) args ≡ ready pool) × Starts args pool
unfolding slab_pool_init set_up
slab_pool_init-Starts args tricks f more l =
    let n = length-map args in
    let sorted =
      subst (λ k. SortedFrom k (map align_mem args) (sort_uniq k 0 k (map align_mem args))) n
        (sort_uniq-SortedFrom (map align_mem args) (length (map align_mem args)) (omega arith)) in
    rw
      (
        slab_pool_init,
        read_sizes-AllFit [] args f (omega arith),
        n,
        ne→== (length args) 0 (λ e. absurd (omega (arith, e))),
      )
      (_, refl, sorted-Starts args tricks _ f l sorted)
