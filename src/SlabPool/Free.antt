-- ===== src/SlabPool/Free.antt =====
-- `yf_slab_pool_free`, and allocation after it.
use yifei.Prelude.{
  ℕ, ◌-◌, ◌≤◌, ◌<◌, ◌≡◌, ◌≢◌, refl, sym, ap, subst, arith, false, [], ◌∷◌, Option, some, get_or,
  get_or-set_self, get_or-set_ne, inl, ne→==, Absent,
}
use yifei.Core.{returned}
use yifei.SlabPool.{SlabPool, slab_pool_alloc, slab_pool_free, check_trick}
use yifei.SlabPool.Blocks.{
  IsIdle, IsValid, set_trick_self, AllIdle-set_trick, class_of_self, with_block, with_block-IsValid,
  sized-Absent, used-Absent,
}
use yifei.SlabPool.Alloc.{IsUsed, Hands, popped-Hands, tightest}

-- What freeing the block at `part`, of the size in the place `i`, does.
pub record Frees (pool : SlabPool) (i part : ℕ) (pool' : SlabPool) : Type 0 where
  pub valid : IsValid pool'
  pub listed : get_or pool'.free i [] ≡ part ∷ get_or pool.free i []
  pub others : (j : ℕ) → j < pool.type → i ≢ j → get_or pool'.free j [] ≡ get_or pool.free j []
  pub same_sizes : pool'.sizes ≡ pool.sizes
  pub same_type : pool'.type ≡ pool.type

slab_pool_free-Frees :
    (pool : SlabPool) (i part : ℕ)
    → IsValid pool
    → i < pool.type
    → IsUsed pool i part
    → (pool' : SlabPool) × (slab_pool_free pool part ≡ returned pool') × Frees pool i part pool'
unfolding slab_pool_free check_trick
slab_pool_free-Frees pool i part v l u =
    let t = record (pool.tricks (part - 8)) { used = false } in
    let self = set_trick_self pool.tricks (part - 8) t in
    let xs = get_or pool.free i [] in
    let absent : Absent part xs =
      used-Absent pool.tricks part (get_or pool.sizes i 0) xs (inl u.used) (v.idle i l) in
    let here = get_or-set_self pool.free i (part ∷ xs) [] (omega (arith, v.lists)) in
    rw
      (
        u.sized,
        class_of_self pool i v l,
        u.checked,
        u.used,
        ne→== i pool.type (λ e. absurd (omega (arith, e))),
      )
      (
        with_block pool i (part ∷ xs) part t,
        ap (λ n. returned (with_block pool i (part ∷ xs) part (record t { size = n })))
            (sym u.sized),
        record {
          valid =
              with_block-IsValid v i part (part ∷ xs) t l u.room
                (λ j k m. sized-Absent v i part j l u.sized k m)
                (
                  subst (IsIdle (get_or pool.sizes i 0) part) (sym self) (record {
                    room = u.room;
                    checked = u.checked;
                    sized = u.sized;
                    unused = refl;
                  }),
                  AllIdle-set_trick pool.tricks part t (get_or pool.sizes i 0) xs u.room absent
                      (v.idle i l),
                )
                (absent, v.once i l);
          listed = here;
          others = λ j k m. get_or-set_ne pool.free i j (part ∷ xs) [] m;
          same_sizes = refl;
          same_type = refl;
        },
      )

-- In a valid pool, freeing a block in use whose trick is set and has one of the pool's sizes
-- succeeds, and the next request for which that size is the first that is enough gets the same
-- block again, whatever `yf_palloc` would give, in a pool that is valid.
pub slab_pool_alloc-slab_pool_free :
    (pool : SlabPool) (i part size : ℕ) (answer : Option ℕ)
    → IsValid pool
    → i < pool.type
    → IsUsed pool i part
    → size ≤ get_or pool.sizes i 0
    → ((j : ℕ) → j < i → get_or pool.sizes j 0 < size)
    → (pool' pool'' : SlabPool) × (slab_pool_free pool part ≡ returned pool')
      × (slab_pool_alloc pool' size answer ≡ returned (some part, pool''))
      × Hands pool' i part pool''
unfolding slab_pool_alloc
slab_pool_alloc-slab_pool_free pool i part size answer v l u enough below =
    let (pool', e, f) = slab_pool_free-Frees pool i part v l u in
    let l' : i < pool'.type = omega (arith, f.same_type) in
    let at : (j : ℕ) → get_or pool'.sizes j 0 ≡ get_or pool.sizes j 0 =
      λ j. ap (λ k. get_or k j 0) f.same_sizes in
    let (pool'', q, h) = popped-Hands f.valid i part (get_or pool.free i []) answer l' f.listed in
    let place =
      tightest f.valid size i (omega (arith, v.small i l)) l' (omega (arith, at i))
        (λ j k. omega (arith, at j, below j k)) in
    (pool', pool'', e, rw (place, ne→== i pool'.type (λ z. absurd (omega (arith, z)))) q, h)
