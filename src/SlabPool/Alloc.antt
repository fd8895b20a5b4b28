-- ===== src/SlabPool/Alloc.antt =====
-- `yf_slab_pool_alloc` on a pool in good order.
use yifei.Prelude.{
  ℕ, ◌+◌, ◌-◌, ◌%◌, ◌^◌, ◌≤◌, ◌<◌, ◌≡◌, ◌≢◌, refl, ap, ◌∙◌, subst, arith, true, List, [], ◌∷◌,
  Option, some, ltb, ◌==◌, get_or, set, Bool-cases, inl, inr, ltb→lt, ltb→ge, ==→eq, ==→ne, eq→==,
  ne→==, bit_and, Absent, Distinct,
}
use native.Mathlib.Nat.{mod-eq_of_lt}
use yifei.Core.{returned}
use yifei.BitOp.{align}
use yifei.BitOp.Align.{align_bounds}
use yifei.SlabPool.{
  SlabPool, slab_pool_alloc, alloc_in, new_block, new_trick, check_trick, set_trick, class_of,
  align_mem,
}
use yifei.SlabPool.Blocks.{
  AllIdle, IsValid, set_trick_self, set_trick_ne, AllIdle-set_trick, class_of-IsPosition,
  with_block-IsValid, sized-Absent, used-Absent,
}

-- A block in use, of the size in the place `i`.
pub record IsUsed (pool : SlabPool) (i part : ℕ) : Type 0 where
  pub room : 8 ≤ part
  pub checked : check_trick (part - 8) (pool.tricks (part - 8)) ≡ true
  pub used : (pool.tricks (part - 8)).used ≡ true
  pub sized : (pool.tricks (part - 8)).size ≡ get_or pool.sizes i 0

-- Handing out the block at `part` from a pool, of the size in the place `i`.
pub record Hands (pool : SlabPool) (i part : ℕ) (pool' : SlabPool) : Type 0 where
  pub valid : IsValid pool'
  pub taken : IsUsed pool' i part
  pub gone : (j : ℕ) → j < pool.type → Absent part (get_or pool'.free j [])
  pub others : (a : ℕ) → part - 8 ≢ a → pool'.tricks a ≡ pool.tricks a
  pub same_sizes : pool'.sizes ≡ pool.sizes
  pub same_type : pool'.type ≡ pool.type

check_trick-new_trick : (addr size : ℕ) → check_trick addr (new_trick addr size) ≡ true
unfolding check_trick
check_trick-new_trick addr size =
    let e = eq→== (bit_and addr 0x1ffff) (bit_and addr 0x1ffff) refl in rw e refl

module _ {pool : SlabPool} (v : IsValid pool) where
  pub popped-Hands :
      (i part : ℕ) (parts : List ℕ) (answer : Option ℕ)
      → i < pool.type
      → get_or pool.free i [] ≡ part ∷ parts
      → (pool' : SlabPool) × (alloc_in pool i answer ≡ returned (some part, pool'))
        × Hands pool i part pool'
  unfolding alloc_in check_trick
  popped-Hands i part parts answer l e =
      let a : AllIdle pool.tricks (get_or pool.sizes i 0) (part ∷ parts) =
        subst (AllIdle pool.tricks (get_or pool.sizes i 0)) e (v.idle i l) in
      let n : Distinct (part ∷ parts) = subst Distinct e (v.once i l) in
      let t = record (pool.tricks (part - 8)) { used = true } in
      let valid =
        with_block-IsValid v i part parts t l a.0.room
          (λ j k m. sized-Absent v i part j l a.0.sized k m)
          (AllIdle-set_trick pool.tricks part t (get_or pool.sizes i 0) parts a.0.room n.0 a.1)
          n.1 in
      let self = set_trick_self pool.tricks (part - 8) t in
      let used : (set_trick pool.tricks (part - 8) t (part - 8)).used ≡ true =
        ap (λ k. k.used) self in
      rw
        (
          alloc_in,
          e,
          a.0.checked,
          eq→== (pool.tricks (part - 8)).size (get_or pool.sizes i 0) a.0.sized,
          a.0.unused,
        )
        (
          _,
          refl,
          record {
            valid = valid;
            taken = record {
              room = a.0.room;
              checked = ap (check_trick (part - 8)) self ∙ a.0.checked;
              used = used;
              sized = ap (λ k. k.size) self ∙ a.0.sized;
            };
            gone = λ j k.
                used-Absent (set_trick pool.tricks (part - 8) t) part (get_or pool.sizes j 0)
                  (get_or (set pool.free i parts) j []) (inl used) (valid.idle j k);
            others = λ b m. set_trick_ne pool.tricks (part - 8) t b m;
            same_sizes = refl;
            same_type = refl;
          },
        )

  -- A block at an address where no free block of the pool stands.
  fresh-Hands :
      (i addr : ℕ)
      → i < pool.type
      → get_or pool.free i [] ≡ []
      → ((j : ℕ) → j < pool.type → Absent (addr + 8) (get_or pool.free j []))
      → (pool' : SlabPool) × (alloc_in pool i (some addr) ≡ returned (some (addr + 8), pool'))
        × Hands pool i (addr + 8) pool'
  unfolding alloc_in new_block
  fresh-Hands i addr l e f =
      let t = new_trick addr (get_or pool.sizes i 0) in
      let self = set_trick_self pool.tricks addr t in
      let at : addr + 8 - 8 ≡ addr = omega arith in
      rw (alloc_in, e)
        (
          _,
          refl,
          record {
            valid = record {
              lists = v.lists;
              rises = v.rises;
              whole = v.whole;
              small = v.small;
              idle = λ q k.
                  subst
                    (λ a.
                      AllIdle (set_trick pool.tricks a t) (get_or pool.sizes q 0)
                        (get_or pool.free q []))
                    at
                    (AllIdle-set_trick pool.tricks (addr + 8) t (get_or pool.sizes q 0)
                      (get_or pool.free q []) (omega arith) (f q k) (v.idle q k));
              once = v.once;
            };
            taken = record {
              room = omega arith;
              checked =
                  ap (λ a. check_trick a (set_trick pool.tricks addr t a)) at
                  ∙ ap (check_trick addr) self
                  ∙ check_trick-new_trick addr (get_or pool.sizes i 0);
              used = ap (λ a. (set_trick pool.tricks addr t a).used) at ∙ ap (λ k. k.used) self;
              sized = ap (λ a. (set_trick pool.tricks addr t a).size) at ∙ ap (λ k. k.size) self;
            };
            gone = f;
            others = λ b m. set_trick_ne pool.tricks addr t b (λ h. m (at ∙ h));
            same_sizes = refl;
            same_type = refl;
          },
        )

  -- The smallest size that is enough is the one that the search finds.
  pub tightest :
      (size i : ℕ)
      → size ≤ 65528
      → i < pool.type
      → size ≤ get_or pool.sizes i 0
      → ((j : ℕ) → j < i → get_or pool.sizes j 0 < size)
      → class_of pool (align_mem size) ≡ i
  unfolding align_mem
  tightest size i top l enough below =
      let (whole, above, near) = align_bounds size 3 in
      let key : align size 8 % 2 ^ 16 ≡ align size 8 = mod-eq_of_lt (omega (arith, whole, near)) in
      let c = class_of pool (align size 8 % 2 ^ 16) in
      let p = class_of-IsPosition pool (align size 8 % 2 ^ 16) v in
      elim (Bool-cases (ltb i c)) [
        | inl h ↦ absurd (omega (arith, key, whole, near, v.whole i l, p.before i (ltb→lt i c h)))
        | inr h ↦ elim (Bool-cases (ltb c i)) [
          | inl k ↦
              let lt = ltb→lt c i k in
              absurd (
                omega (arith, key, above, below c lt, p.behind c (omega arith) (omega (arith, lt))))
          | inr k ↦ omega (arith, ltb→ge i c h, ltb→ge c i k)
        ]
      ]

-- The first free block, or one that `yf_palloc` gave.
abbrev pub first_or : List ℕ → ℕ → ℕ
first_or [] addr = addr + 8
first_or (part ∷ parts) addr = part

from_list :
    {pool : SlabPool}
    → IsValid pool
    → (i addr : ℕ) → i < pool.type
    → ((j : ℕ) → j < pool.type → Absent (addr + 8) (get_or pool.free j []))
    → (xs : List ℕ) → get_or pool.free i [] ≡ xs
    → (pool' : SlabPool) × (alloc_in pool i (some addr) ≡ returned (some (first_or xs addr), pool'))
      × Hands pool i (first_or xs addr) pool'
from_list v i addr l f [] e = fresh-Hands v i addr l e f
from_list v i addr l f (part ∷ parts) e = popped-Hands v i part parts (some addr) l e

-- In a valid pool, for a request of at most 65528 bytes, the first of its sizes that is enough,
-- and an address that `yf_palloc` would give, behind whose trick no free block stands,
-- `yf_slab_pool_alloc` hands out the first free block of that size or else the new one: its trick
-- is set, says that it is in use and has that size, it is in no list of free blocks, the tricks
-- at other addresses stay, and the pool is valid again.
pub slab_pool_alloc-Hands :
    (pool : SlabPool) (size i addr : ℕ)
    → IsValid pool
    → size ≤ 65528
    → i < pool.type
    → size ≤ get_or pool.sizes i 0
    → ((j : ℕ) → j < i → get_or pool.sizes j 0 < size)
    → ((j : ℕ) → j < pool.type → Absent (addr + 8) (get_or pool.free j []))
    → (pool' : SlabPool) × (slab_pool_alloc pool size (some addr)
        ≡ returned (some (first_or (get_or pool.free i []) addr), pool'))
      × Hands pool i (first_or (get_or pool.free i []) addr) pool'
unfolding slab_pool_alloc
slab_pool_alloc-Hands pool size i addr v top l enough below f =
    rw (tightest v size i top l enough below, ne→== i pool.type (λ e. absurd (omega (arith, e))))
      (from_list v i addr l f (get_or pool.free i []) refl)

-- In a valid pool with a size, for a request of 65529 to 65535 bytes and an address that
-- `yf_palloc` would give, behind whose trick no free block stands, `yf_slab_pool_alloc` hands out
-- a block of the smallest size.
pub slab_pool_alloc_wrapped :
    (pool : SlabPool) (size addr : ℕ)
    → IsValid pool
    → 0 < pool.type
    → 65529 ≤ size
    → size < 2 ^ 16
    → ((j : ℕ) → j < pool.type → Absent (addr + 8) (get_or pool.free j []))
    → (pool' : SlabPool) × (slab_pool_alloc pool size (some addr)
        ≡ returned (some (first_or (get_or pool.free 0 []) addr), pool'))
      × Hands pool 0 (first_or (get_or pool.free 0 []) addr) pool'
unfolding slab_pool_alloc align_mem
slab_pool_alloc_wrapped pool size addr v l low high f =
    let (whole, above, near) = align_bounds size 3 in
    let key : align size 8 % 2 ^ 16 ≡ 0 = omega (arith, whole, above, near) in
    let p = class_of-IsPosition pool 0 v in
    let first : class_of pool 0 ≡ 0 = elim (Bool-cases (class_of pool 0 == 0)) [
      | inl e ↦ ==→eq _ 0 e
      | inr n ↦ absurd (omega (arith, p.before 0 (omega (arith, ==→ne _ 0 n))))
    ] in
    rw (key, first, ne→== 0 pool.type (λ e. absurd (omega (arith, e))))
      (from_list v 0 addr l f (get_or pool.free 0 []) refl)
