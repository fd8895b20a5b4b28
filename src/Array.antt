-- ===== src/Array.antt =====
-- src/base_struct/yf_array.h and yf_array.c: an array in a memory pool that grows. The bytes of
-- memory are a function of their address. The pool's own first block is the one that the code
-- calls `p->d`.
pub mod Room
pub mod Push
use yifei.Prelude.{
  ℕ, suc, ◌+◌, ◌-◌, ◌*◌, ◌%◌, ◌^◌, Bool, true, Option, none, some, List, [], ◌∷◌, ◌&&◌, ltb, leb,
  ◌==◌, not, if◌then◌else◌,
}
use yifei.Core.{Status, success, failure}
use yifei.MemPool.{Block, Pool, palloc}

-- `yf_array_t`
pub record Array : Type 0 where
  pub elts : ℕ
  pub nelts : ℕ
  pub size : ℕ
  pub nalloc : ℕ

-- `sizeof(yf_array_t)`
abbrev pub array_size : ℕ
array_size = 40

-- The fields `d.last` and `d.end` of the pool.
unfoldable pub last_of : List Block → ℕ
last_of [] = 0
last_of (b ∷ bs) = b.last

unfoldable pub end_of : List Block → ℕ
end_of [] = 0
end_of (b ∷ bs) = b.end

unfoldable pub set_last : ℕ → List Block → List Block
set_last last [] = []
set_last last (b ∷ bs) = record b { last = last } ∷ bs

-- The bytes of a product of two of the array's numbers, as a `size_t`.
abbrev pub bytes_of : ℕ → ℕ → ℕ
bytes_of size n = size * n % 2 ^ 64

-- `yf_memcpy` to `dst` from `src`.
unfoldable pub copy : (dst src n : ℕ) → (ℕ → ℕ) → ℕ → ℕ
copy dst src n memory q =
    if leb dst q && ltb q (dst + n) then memory (src + (q - dst)) else memory q

-- The array in the memory that `yf_palloc` gave for its elements.
unfoldable pub array_at : (n size : ℕ) → Option ℕ → Option Array
array_at n size none = none
array_at n size (some elts) = some (record { elts = elts; nelts = 0; size = size; nalloc = n })

-- `yf_array_init`
unfoldable pub array_init : (n size : ℕ) → List ℕ → Pool → Option Array × Pool × List ℕ
unfolding array_at
array_init n size answers pool =
    let found = palloc true (bytes_of size n) answers pool in
    (array_at n size found.0, found.1, found.2)

-- `yf_array_create`, behind the `yf_palloc` of the array itself.
unfoldable pub array_create : (n size : ℕ) → List ℕ → Pool → Option (ℕ × Array) × Pool
unfolding array_init
array_create n size answers pool =
    let found = palloc true array_size answers pool in
    let made = array_init n size found.2 found.1 in
    elim found.0 [
      | none ↦ (none, found.1)
      | some a ↦ elim made.0 [ none ↦ (none, made.1) | some array ↦ (some (a, array), made.1) ]
    ]

-- `yf_array_destroy` of the array at the address `a`.
unfoldable pub array_destroy : ℕ → Array → Pool → Pool
unfolding last_of set_last
array_destroy a array pool =
    let total = bytes_of array.size array.nalloc in
    let pool1 =
      if array.elts + total == last_of pool.blocks
      then record pool { blocks = set_last (last_of pool.blocks - total) pool.blocks }
      else pool in
    if a + array_size == last_of pool1.blocks
    then record pool1 { blocks = set_last a pool1.blocks }
    else pool1

-- What a push comes to: the address of the first new element or none, and the state behind it.
pub record Pushed : Type 0 where
  pub element : Option ℕ
  pub array : Array
  pub memory : ℕ → ℕ
  pub pool : Pool
  pub rest : List ℕ

-- The last lines of both functions: `n` more elements.
unfoldable pub take_elements : ℕ → Array → (ℕ → ℕ) → Pool → List ℕ → Pushed
take_elements n array memory pool answers = record {
  element = some (array.elts + bytes_of array.size array.nelts);
  array = record array { nelts = (array.nelts + n) % 2 ^ 32 };
  memory = memory;
  pool = pool;
  rest = answers;
}

-- A new array of `nalloc` elements in the memory that `yf_palloc` gave, with `used` bytes of the
-- old one.
unfoldable pub move : (n nalloc used : ℕ) → Array → (ℕ → ℕ) → Option ℕ × Pool × List ℕ → Pushed
unfolding take_elements copy
move n nalloc used array memory (none, pool, answers) = record {
  element = none;
  array = array;
  memory = memory;
  pool = pool;
  rest = answers;
}
move n nalloc used array memory (some new, pool, answers) =
    take_elements n (record array { elts = new; nalloc = nalloc }) (copy new array.elts used memory)
      pool answers

-- `yf_array_push`
unfoldable pub array_push : Array → (ℕ → ℕ) → List ℕ → Pool → Pushed
unfolding last_of end_of set_last take_elements move
array_push array memory answers pool =
    let size = bytes_of array.size array.nalloc in
    let last = last_of pool.blocks in
    let in_place =
      take_elements 1 (record array { nalloc = (array.nalloc + 1) % 2 ^ 32 }) memory
        (record pool { blocks = set_last (last + array.size) pool.blocks }) answers in
    let moved =
      move 1 (array.nalloc * 2 % 2 ^ 32) size array memory
        (palloc true (bytes_of 2 size) answers pool) in
    if not (array.nelts == array.nalloc)
    then take_elements 1 array memory pool answers
    else if (array.elts + size == last) && leb (last + array.size) (end_of pool.blocks)
    then in_place
    else moved

-- `yf_array_push_n`
unfoldable pub array_push_n : ℕ → Array → (ℕ → ℕ) → List ℕ → Pool → Pushed
unfolding last_of end_of set_last take_elements move
array_push_n n array memory answers pool =
    let size = bytes_of n array.size in
    let last = last_of pool.blocks in
    let in_place =
      take_elements n (record array { nalloc = (array.nalloc + n) % 2 ^ 32 }) memory
        (record pool { blocks = set_last (last + size) pool.blocks }) answers in
    let nalloc = 2 * (if leb array.nalloc n then n else array.nalloc) % 2 ^ 32 in
    let moved =
      move n nalloc (bytes_of array.nelts array.size) array memory
        (palloc true (bytes_of nalloc array.size) answers pool) in
    if not (ltb array.nalloc ((array.nelts + n) % 2 ^ 32))
    then take_elements n array memory pool answers
    else if (array.elts + bytes_of array.size array.nalloc == last)
        && leb (last + size) (end_of pool.blocks)
    then in_place
    else moved
