-- ===== src/SlabPool.antt =====
-- src/base_struct/yf_slab_pool.h and yf_slab_pool.c: blocks of a few sizes, with a list of free
-- blocks for each.
pub mod Swap
pub mod Sort
pub mod Blocks
pub mod Alloc
pub mod Free
pub mod Start
use yifei.Prelude.{
  ℕ, zero, suc, ◌+◌, ◌-◌, ◌%◌, ◌^◌, Bool, true, false, not, ◌&&◌, Option, none, some, List, [], ◌∷◌,
  ◌++◌, ltb, leb, ◌==◌, if◌then◌else◌, get_or, set, length, take, replicate, bit_and,
}
use yifei.Core.{Checked, returned, assert_failed, magic_val}
use yifei.BitOp.{align}
use yifei.Prelude.Int.{ℤ, sub_ℕ}
use yifei.Search.{bsearch}

-- `yf_swap` on two elements of an array.
unfoldable pub swap : List ℕ → ℕ → ℕ → List ℕ
swap xs a b = set (set xs a (get_or xs b 0)) b (get_or xs a 0)

-- The inner loop of `sort + uniq`, from the item `j` on, with `n` items from there: the count is
-- `j + n`. It answers the count and the array behind it.
unfoldable pub uniq_pass : (i j n : ℕ) → List ℕ → ℕ × List ℕ
unfolding swap
uniq_pass i j zero xs = (j, xs)
uniq_pass i j (suc n) xs =
    let less = ltb (get_or xs j 0) (get_or xs i 0) in
    let same = get_or xs j 0 == get_or xs i 0 in
    let swapped = if less then swap xs j i else if same then swap xs j (j + n) else xs in
    if same && (n == 0) then (j, xs) else uniq_pass i (if same then j else j + 1) n swapped

-- The outer loop. The fuel is the number of items, and each round goes on by one item.
unfoldable pub sort_uniq : ℕ → (i cnt : ℕ) → List ℕ → ℕ × List ℕ
unfolding uniq_pass
sort_uniq zero i cnt xs = (cnt, xs)
sort_uniq (suc fuel) i cnt xs =
    let (cnt', ys) = uniq_pass i (i + 1) (cnt - (i + 1)) xs in
    if ltb i cnt then sort_uniq fuel (i + 1) cnt' ys else (cnt, xs)

-- `yf_align_mem(size)` as a `yf_u16_t`, with `YF_ALIGNMENT` 8.
unfoldable pub align_mem : ℕ → ℕ
align_mem size = align size 8 % 2 ^ 16

-- What the arguments of `yf_slab_pool_init` come to: the sizes, an error, or a write behind the
-- 64 elements of `slab_size`.
pub data Gathered : Type 0 where
  gathered : List ℕ → Gathered
  refused : Gathered
  overrun : Gathered

-- The loop over the arguments, which ends at the first that is 0 as a `yf_u16_t`.
unfoldable pub read_sizes : List ℕ → List ℕ → Gathered
unfolding align_mem
read_sizes got [] = gathered got
read_sizes got (arg ∷ args) =
    let size = align_mem (arg % 2 ^ 16) in
    let rest = read_sizes (got ++ (size ∷ [])) args in
    if arg % 2 ^ 16 == 0
    then gathered got
    else if leb (2 ^ 14) size
    then refused
    else if leb 64 (length got)
    then overrun
    else rest

-- `yf_slab_trick_t`, which stands before each block.
pub record SlabTrick : Type 0 where
  pub magic : ℕ
  pub used : Bool
  pub size : ℕ
  pub emagic : ℕ

-- `YF_SLAB_TRICK_SIZE`
abbrev pub trick_size : ℕ
trick_size = 8

-- `yf_slab_pool_s`, with the tricks of the blocks by their address. A free block is the address
-- of its data. `type` is the number of sizes.
pub record SlabPool : Type 0 where
  pub free : List (List ℕ)
  pub sizes : List ℕ
  pub type : ℕ
  pub tricks : ℕ → SlabTrick

pub data Init : Type 0 where
  ready : SlabPool → Init
  failed : Init
  overran : Init

-- From `sort + uniq` on. `yf_create_pool` gives memory or none; what is taken from the new pool
-- fits into it.
unfoldable pub set_up : Option (ℕ → SlabTrick) → List ℕ → Init
unfolding sort_uniq
set_up base_pool slab_size =
    let cnts = length slab_size in
    let (cnt, sorted) = sort_uniq cnts 0 cnts slab_size in
    if cnts == 0 then failed else elim base_pool [
      | none ↦ failed
      | some tricks ↦ ready (record {
        free = replicate cnt [];
        sizes = take cnt sorted;
        type = cnt % 2 ^ 7;
        tricks = tricks;
      })
    ]

-- `yf_slab_pool_init`
unfoldable pub slab_pool_init : Option (ℕ → SlabTrick) → List ℕ → Init
unfolding read_sizes set_up
slab_pool_init base_pool args = elim (read_sizes [] args) [
  | gathered slab_size ↦ set_up base_pool slab_size
  | refused ↦ failed
  | overrun ↦ overran
]

-- `yf_slab_set_trick` with the fields set behind it, and `yf_slab_check_trick`.
abbrev pub new_trick : (addr size : ℕ) → SlabTrick
new_trick addr size = record {
  magic = magic_val;
  used = true;
  size = size;
  emagic = bit_and addr 0x1ffff;
}

unfoldable pub check_trick : ℕ → SlabTrick → Bool
check_trick addr t = (t.magic == magic_val) && (t.emagic == bit_and addr 0x1ffff)

unfoldable pub set_trick : (ℕ → SlabTrick) → ℕ → SlabTrick → ℕ → SlabTrick
set_trick tricks addr t a = if addr == a then t else tricks a

-- `yf_cmp_size`: an `int` holds each difference of two 16-bit sizes.
unfoldable pub cmp_size : (size psize : ℕ) → ℤ
cmp_size size psize = sub_ℕ size psize

-- `yf_bsearch` over the sizes.
unfoldable pub class_of : SlabPool → ℕ → ℕ
unfolding bsearch cmp_size
class_of pool size = bsearch cmp_size size (λ i. get_or pool.sizes i 0) pool.type

-- The end of `yf_slab_pool_alloc` for a block that `yf_palloc` gave at an address, or did not.
unfoldable pub new_block : SlabPool → ℕ → Option ℕ → Option ℕ × SlabPool
unfolding set_trick
new_block pool size none = (none, pool)
new_block pool size (some addr) = (
  some (addr + trick_size),
  record pool { tricks = set_trick pool.tricks addr (new_trick addr size) },
)

-- `yf_slab_pool_alloc` of a block of the size in the place `begin`.
unfoldable pub alloc_in : SlabPool → ℕ → Option ℕ → Checked (Option ℕ × SlabPool)
unfolding new_block check_trick set_trick
alloc_in pool begin answer = elim (get_or pool.free begin []) [
  | [] ↦ returned (new_block pool (get_or pool.sizes begin 0) answer)
  | part ∷ parts ↦
      let addr = part - trick_size in
      let t = pool.tricks addr in
      if check_trick addr t && (t.size == get_or pool.sizes begin 0) && not t.used
      then returned (
        some part,
        record pool {
          free = set pool.free begin parts;
          tricks = set_trick pool.tricks addr (record t { used = true });
        },
      )
      else assert_failed
]

-- `yf_slab_pool_alloc`. `answer` is what `yf_palloc` gives, if it is called.
unfoldable pub slab_pool_alloc : SlabPool → ℕ → Option ℕ → Checked (Option ℕ × SlabPool)
unfolding alloc_in class_of align_mem
slab_pool_alloc pool size answer =
    let begin = class_of pool (align_mem size) in
    if begin == pool.type then returned (none, pool) else alloc_in pool begin answer

-- `yf_slab_pool_free`
unfoldable pub slab_pool_free : SlabPool → ℕ → Checked SlabPool
unfolding class_of check_trick set_trick
slab_pool_free pool part =
    let addr = part - trick_size in
    let t = pool.tricks addr in
    let index = class_of pool t.size in
    if check_trick addr t && t.used && not (index == pool.type)
    then returned (record pool {
      free = set pool.free index (part ∷ get_or pool.free index []);
      tricks = set_trick pool.tricks addr (record t { used = false });
    })
    else assert_failed
