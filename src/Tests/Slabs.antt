-- ===== src/Tests/Slabs.antt =====
-- A slab pool of three sizes.
use yifei.Prelude.{
  ℕ, zero, suc, ◌<◌, ◌≡◌, refl, sym, ap, ◌∙◌, subst, arith, List, [], ◌∷◌, none, some, false,
  get_or, Absent,
}
use yifei.Core.{returned}
use yifei.SlabPool.{
  SlabPool, SlabTrick, Init, ready, slab_pool_init, slab_pool_alloc, slab_pool_free, read_sizes,
  set_up, sort_uniq, uniq_pass, swap, align_mem,
}
use yifei.BitOp.{align}
use yifei.SlabPool.Blocks.{IsValid}
use yifei.SlabPool.Alloc.{IsUsed, Hands, slab_pool_alloc-Hands, slab_pool_alloc_wrapped}
use yifei.SlabPool.Free.{slab_pool_alloc-slab_pool_free}
use yifei.SlabPool.Start.{AllFit, Starts, slab_pool_init-Starts}

abbrev no_trick : SlabTrick
no_trick = record { magic = 0; used = false; size = 0; emagic = 0 }

abbrev asked : List ℕ
asked = 100 ∷ 16 ∷ 24 ∷ 104 ∷ 15 ∷ []

abbrev three : SlabPool
three = record {
  free = [] ∷ [] ∷ [] ∷ [];
  sizes = 16 ∷ 24 ∷ 104 ∷ [];
  type = 3;
  tricks = λ a. no_trick;
}

asked-AllFit : AllFit asked
asked-AllFit = (
  omega arith,
  omega arith,
  (
    omega arith,
    omega arith,
    (omega arith, omega arith, (omega arith, omega arith, (omega arith, omega arith, tt))),
  ),
)

slab_pool_init_example :
    (pool : SlabPool) × (slab_pool_init (some (λ a. no_trick)) asked ≡ ready pool)
    × Starts asked pool
slab_pool_init_example =
    slab_pool_init-Starts asked (λ a. no_trick) asked-AllFit (omega arith) (omega arith)

started :
    (pool : SlabPool) × (slab_pool_init (some (λ a. no_trick)) asked ≡ ready pool)
    × Starts asked pool
started = slab_pool_init-Starts asked (λ a. no_trick) asked-AllFit (omega arith) (omega arith)

runs : slab_pool_init (some (λ a. no_trick)) asked ≡ ready three
unfolding slab_pool_init read_sizes set_up sort_uniq uniq_pass swap align_mem align
runs = refl

abbrev pool_of : Init → SlabPool
pool_of (ready pool) = pool
pool_of _ = three

three-IsValid : IsValid three
three-IsValid = subst IsValid (ap pool_of (sym started.1 ∙ runs)) started.2.valid

no_free : (part j : ℕ) → j < 3 → Absent part (get_or three.free j [])
no_free part zero l = tt
no_free part (suc zero) l = tt
no_free part (suc (suc zero)) l = tt
no_free part (suc (suc (suc j))) l = tt

below_24 : (j : ℕ) → j < 1 → get_or three.sizes j 0 < 20
below_24 zero l = omega arith
below_24 (suc j) l = absurd (omega arith)

slab_pool_alloc_example :
    (pool : SlabPool) × (slab_pool_alloc three 20 (some 4096) ≡ returned (some 4104, pool))
    × Hands three 1 4104 pool
slab_pool_alloc_example =
    slab_pool_alloc-Hands three 20 1 4096 three-IsValid (omega arith) (omega arith) (omega arith)
      below_24 (no_free 4104)

wrapped_example :
    (pool : SlabPool) × (slab_pool_alloc three 65530 (some 4096) ≡ returned (some 4104, pool))
    × Hands three 0 4104 pool
wrapped_example =
    slab_pool_alloc_wrapped three 65530 4096 three-IsValid (omega arith) (omega arith) (omega arith)
      (no_free 4104)

taken :
    (pool : SlabPool) × (slab_pool_alloc three 20 (some 4096) ≡ returned (some 4104, pool))
    × Hands three 1 4104 pool
taken =
    slab_pool_alloc-Hands three 20 1 4096 three-IsValid (omega arith) (omega arith) (omega arith)
      below_24 (no_free 4104)

one_used : SlabPool
one_used = taken.0

one_used_type : 3 ≡ one_used.type
unfolding one_used
one_used_type = sym taken.2.same_type

one_used_sizes : (j : ℕ) → get_or one_used.sizes j 0 ≡ get_or three.sizes j 0
unfolding one_used
one_used_sizes j = ap (λ k. get_or k j 0) taken.2.same_sizes

one_used-IsValid : IsValid one_used
unfolding one_used
one_used-IsValid = taken.2.valid

part_IsUsed : IsUsed one_used 1 4104
unfolding one_used
part_IsUsed = taken.2.taken

free_alloc_example :
    (pool' pool'' : SlabPool) × (slab_pool_free one_used 4104 ≡ returned pool')
    × (slab_pool_alloc pool' 17 none ≡ returned (some 4104, pool''))
    × Hands pool' 1 4104 pool''
free_alloc_example =
    slab_pool_alloc-slab_pool_free one_used 1 4104 17 none one_used-IsValid
      (omega (arith, one_used_type)) part_IsUsed (omega (arith, one_used_sizes 1))
      (λ j l. below j l)
  where
    below : (j : ℕ) → j < 1 → get_or one_used.sizes j 0 < 17
    below zero l = omega (arith, one_used_sizes 0)
    below (suc j) l = absurd (omega arith)
